-- ===== src/TradeEngine.antt =====
-- The entry points of `TradeEngineContract`: swaptrade-contracts/trade-engine/src/lib.rs.
pub mod Types
pub mod Storage
pub mod OrderBook
pub mod Pools
pub mod Matching
pub mod Priority
pub mod Ranking
pub mod Outcomes
pub mod Calls
pub mod Tests
use swaptrade_contract.Prelude.{
  ℕ, Bool, true, false, not, ◌&&◌, ◌||◌, Option, none, some, List, [], ◌∷◌, ◌++◌, ◌/◌, ◌==◌,
  if◌then◌else◌,
}
use swaptrade_contract.Prelude.Int.{ℤ, pos, leb_ℤ, ltb_ℤ}
use swaptrade_contract.Host.{
  Address, Env, require_auth, raise_if, or_raise, gets, modify, publish, pure, ◌>>=◌, ◌>>◌,
}
use swaptrade_contract.Host.Tokens.{Tokens}
use swaptrade_contract.Host.Words.{as_u128, as_i128, saturating_mul_u128, saturating_sub_i128}
use Types.{
  Order, OrderSide, OrderType, OrderStatus, OrderBookSummary, LiquidityPool, TradeLeg,
  TradeExecutionResult, buy, sell, pending, cancelled, is_limit, is_active, price_precision,
  invalid_amount, invalid_price, order_not_found, unauthorized, invalid_state, same_asset,
  already_exists, emit_order_placed, emit_order_cancelled, emit_pool_added,
}
use Storage.{Op, Store, get_next_order_id, get_next_pool_id, transfer_token}
use OrderBook.{save_order, add_user_order, add_order, remove_order_id, get_order, get_user_orders}
use OrderBook
use Pools.{save_pool}
use Pools
use Matching

-- `(amount as u128).saturating_mul(price) / PRICE_PRECISION`, as an i128.
abbrev pub quote_amount : ℤ → ℕ → ℤ
quote_amount amount price = as_i128 (saturating_mul_u128 (as_u128 amount) price / price_precision)

module _ {L : Type 0} where
  unfoldable pub initialize : Env → Address → Op L (Unit {0})
  initialize env admin = do
    require_auth env admin
    stored ← gets (λ s. s.admin)
    raise_if (elim stored [ none ↦ false | some _ ↦ true ]) already_exists
    modify (λ s. record s { admin = some admin })

module _ {L : Type 0} (tok : Tokens L) where
  -- What `place_order` takes into the contract, and what `cancel_order` gives back.
  abbrev pub escrow : Env → OrderSide → Address → Address → Address → ℤ → ℕ → Op L (Unit {0})
  escrow env sell owner base quote amount price = transfer_token tok base owner env.contract amount
  escrow env buy owner base quote amount price =
      transfer_token tok quote owner env.contract (quote_amount amount price)

  abbrev pub refund : Env → Order → ℤ → Op L (Unit {0})
  refund env o unfilled = elim o.side [
    | sell ↦ transfer_token tok o.base_asset env.contract o.owner unfilled
    | buy ↦ transfer_token tok o.quote_asset env.contract o.owner (quote_amount unfilled o.price)
  ]

  unfoldable pub place_order :
      Env → Address → Address → Address → OrderSide → OrderType → ℕ → ℤ → ℕ → Op L ℕ
  unfolding saturating_mul_u128
  place_order env owner base_asset quote_asset side order_type price amount expires_at = do
    require_auth env owner
    raise_if (leb_ℤ amount (pos 0)) invalid_amount
    raise_if (price == 0 && is_limit order_type) invalid_price
    raise_if (base_asset == quote_asset) same_asset
    escrow env side owner base_asset quote_asset amount price
    order_id ← get_next_order_id
    let order : Order = record {
      order_id = order_id;
      owner = owner;
      base_asset = base_asset;
      quote_asset = quote_asset;
      side = side;
      order_type = order_type;
      price = price;
      amount = amount;
      filled_amount = pos 0;
      status = pending;
      created_at = env.now;
      expires_at = expires_at;
    }
    modify (save_order order)
    modify (add_user_order owner order_id)
    modify (add_order order)
    publish (emit_order_placed order)
    pure order_id

  unfoldable pub cancel_order : Env → Address → ℕ → Op L (Unit {0})
  unfolding saturating_mul_u128 saturating_sub_i128
  cancel_order env owner order_id = do
    require_auth env owner
    found ← gets (get_order order_id)
    order ← or_raise found order_not_found
    raise_if (not (order.owner == owner)) unauthorized
    raise_if (not (is_active order.status)) invalid_state
    let unfilled_base = saturating_sub_i128 order.amount order.filled_amount
    modify (save_order (record order { status = cancelled }))
    modify (remove_order_id order.base_asset order.quote_asset order.side order_id)
    if ltb_ℤ (pos 0) unfilled_base then refund env order unfilled_base else pure tt
    publish (emit_order_cancelled order_id owner)

  unfoldable pub execute_multi_pair_trade :
      Env → Address → List TradeLeg → Op L TradeExecutionResult
  unfolding Matching.execute_multi_pair_trade
  execute_multi_pair_trade env trader legs = do
    require_auth env trader
    Matching.execute_multi_pair_trade tok env trader legs

  unfoldable pub add_liquidity_pool : Env → Address → Address → Address → ℤ → ℤ → ℕ → Op L ℕ
  add_liquidity_pool env admin asset_a asset_b reserve_a reserve_b fee_bps = do
    require_auth env admin
    raise_if (leb_ℤ reserve_a (pos 0) || leb_ℤ reserve_b (pos 0)) invalid_amount
    raise_if (asset_a == asset_b) same_asset
    stored ← gets (λ s. s.admin)
    stored_admin ← or_raise stored unauthorized
    raise_if (not (admin == stored_admin)) unauthorized
    transfer_token tok asset_a admin env.contract reserve_a
    transfer_token tok asset_b admin env.contract reserve_b
    pool_id ← get_next_pool_id
    let pool : LiquidityPool = record {
      pool_id = pool_id;
      asset_a = asset_a;
      asset_b = asset_b;
      reserve_a = reserve_a;
      reserve_b = reserve_b;
      fee_bps = fee_bps;
    }
    modify (save_pool pool)
    publish (emit_pool_added pool_id asset_a asset_b)
    pure pool_id

-- The stored orders among the ids, in order.
unfoldable pub stored_orders : List ℕ → Store → List Order
stored_orders [] s = []
stored_orders (id ∷ ids) s = elim (get_order id s) [
  | none ↦ stored_orders ids s
  | some o ↦ o ∷ stored_orders ids s
]

module _ {L : Type 0} where
  abbrev pub get_orderbook : Env → Address → Address → ℕ → Op L OrderBookSummary
  get_orderbook env base quote max_levels =
      gets (OrderBook.get_summary env.now base quote max_levels)

  abbrev pub get_order_by_id : ℕ → Op L (Option Order)
  get_order_by_id order_id = gets (get_order order_id)

  abbrev pub get_orders_of_user : Address → Op L (List Order)
  get_orders_of_user user = gets (λ s. stored_orders (get_user_orders user s) s)

  abbrev pub get_pool_by_id : ℕ → Op L (Option LiquidityPool)
  get_pool_by_id pool_id = gets (Pools.get_pool pool_id)
