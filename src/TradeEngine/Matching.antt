-- ===== src/TradeEngine/Matching.antt =====
-- `MatchingEngine`: swaptrade-contracts/trade-engine/src/matching.rs. The code for the two sides is the same
-- but for the test of the limit price, the transfers, the pool's price and the output that is
-- compared; these are functions of the side here.
pub mod Rounds
pub mod Legs
pub mod Fills
use swaptrade_contract.Prelude.{
  ℕ, ◌+◌, ◌/◌, Bool, true, false, not, ◌&&◌, ◌||◌, Option, none, some, List, [], ◌∷◌, ◌++◌, length,
  ltb, leb, ◌==◌, if◌then◌else◌,
}
use swaptrade_contract.Prelude.Int.{ℤ, pos, ◌+ℤ◌, ◌-ℤ◌, leb_ℤ, ltb_ℤ, min_ℤ}
use swaptrade_contract.Host.{
  Address, Env, Result, ok, err, trap, u32_max, require_auth, raise_if, trap_if, raise, gets,
  modify, publish, pure, ◌>>=◌, ◌>>◌,
}
use swaptrade_contract.Host.Tokens.{Tokens}
use swaptrade_contract.Host.Words.{
  as_u128, as_i128, saturating_mul_u128, saturating_add_i128, saturating_sub_i128,
  saturating_mul_i128, checked_i128, quot,
}
use swaptrade_contract.TradeEngine.Types.{
  Order, OrderSide, on_side, OrderStatus, TradeLeg, FillResult, TradeExecutionResult, LiquidityPool,
  PairOrderBook, buy, sell, filled, partially_filled, is_active, price_precision, invalid_amount,
  same_asset, insufficient_liquidity, slippage_exceeded, invalid_legs, emit_fill,
  emit_trade_executed,
}
use swaptrade_contract.TradeEngine.Storage.{Op, Store, transfer_token, checked}
use swaptrade_contract.TradeEngine.OrderBook.{
  load_book, save_book, save_order, get_order, ids_of, with_ids,
}
use swaptrade_contract.TradeEngine.Pools.{get_pool_by_pair, save_pool, get_amount_out}

-- The variables of `match_leg`: `kept` is the list of ids that stay in the book.
pub record Tally : Type 0 where
  pub remaining : ℤ
  pub base : ℤ
  pub quote : ℤ
  pub fills : List FillResult
  pub kept : List ℕ

-- The side of the orders that a leg is matched against.
abbrev pub opposite : OrderSide → OrderSide
opposite buy = sell
opposite sell = buy

-- Is the price out of the leg's limit?
abbrev pub beyond_limit : TradeLeg → ℕ → Bool
beyond_limit leg price =
    ltb 0 leg.limit_price
    && on_side leg.side (ltb leg.limit_price price) (ltb price leg.limit_price)

-- An order that is closed or has expired is dropped from the book.
abbrev pub is_dropped : ℕ → Order → Bool
is_dropped now o = not (is_active o.status) || (ltb 0 o.expires_at && leb o.expires_at now)

abbrev pub fill_status : ℤ → ℤ → OrderStatus
fill_status filled_amount amount = if leb_ℤ amount filled_amount then filled else partially_filled

-- The order after a fill.
abbrev pub with_fill : ℤ → Order → Order
with_fill fill_base o =
    let total = saturating_add_i128 o.filled_amount fill_base in
    record o { filled_amount = total; status = fill_status total o.amount }

-- How much of the base asset an order gives, and the quote asset for it.
abbrev pub fill_base_of : ℤ → Order → ℤ
fill_base_of remaining o = min_ℤ remaining (saturating_sub_i128 o.amount o.filled_amount)

abbrev pub fill_quote_of : ℤ → Order → ℤ
fill_quote_of fill_base o =
    as_i128 (saturating_mul_u128 (as_u128 fill_base) o.price / price_precision)

abbrev pub book_fill : Address → TradeLeg → Order → ℕ → ℤ → ℤ → FillResult
book_fill trader leg o order_id fill_base fill_quote = record {
  order_id = order_id;
  maker = o.owner;
  taker = trader;
  base_asset = leg.base_asset;
  quote_asset = leg.quote_asset;
  price = o.price;
  filled_base = fill_base;
  filled_quote = fill_quote;
  filled_via_pool = false;
  pool_id = 0;
}

abbrev pub pool_fill : Env → Address → TradeLeg → ℕ → ℕ → ℤ → ℤ → FillResult
pool_fill env trader leg pool_id price fill_base fill_quote = record {
  order_id = 0;
  maker = env.contract;
  taker = trader;
  base_asset = leg.base_asset;
  quote_asset = leg.quote_asset;
  price = price;
  filled_base = fill_base;
  filled_quote = fill_quote;
  filled_via_pool = true;
  pool_id = pool_id;
}

module _ {L : Type 0} (tok : Tokens L) (env : Env) (trader : Address) (leg : TradeLeg) where
  -- The two transfers with a maker, and with the pool.
  abbrev pub settle : OrderSide → Address → ℤ → ℤ → Op L (Unit {0})
  settle buy maker fill_base fill_quote = do
    transfer_token tok leg.quote_asset trader maker fill_quote
    transfer_token tok leg.base_asset env.contract trader fill_base
  settle sell maker fill_base fill_quote = do
    transfer_token tok leg.base_asset trader maker fill_base
    transfer_token tok leg.quote_asset env.contract trader fill_quote

  -- The three sums, and the fill, after a fill was settled.
  abbrev pub tally_fill : FillResult → Tally → Op L Tally
  tally_fill f t = do
    remaining ← checked (t.remaining -ℤ f.filled_base)
    base ← checked (t.base +ℤ f.filled_base)
    quote ← checked (t.quote +ℤ f.filled_quote)
    publish (emit_fill f)
    pure (record t { remaining = remaining; base = base; quote = quote; fills = t.fills ++ f ∷ [] })

  -- One round of the loop, for an order that is stored.
  unfoldable pub fill_order : ℕ → Order → Tally → Op L Tally
  fill_order order_id o t = do
    let fill_base = fill_base_of t.remaining o
    let fill_quote = fill_quote_of fill_base o
    let o' : Order = with_fill fill_base o
    let stays = not (leb_ℤ o.amount o'.filled_amount)
    modify (save_order o')
    settle leg.side o.owner fill_base fill_quote
    tally_fill (book_fill trader leg o order_id fill_base fill_quote)
        (record t { kept = if stays then t.kept ++ order_id ∷ [] else t.kept })

  unfoldable pub match_order : ℕ → Option Order → Tally → Op L Tally
  unfolding fill_order
  match_order order_id none t = pure t
  match_order order_id (some o) t =
      if is_dropped env.now o
      then pure t
      else if beyond_limit leg o.price
      then pure (record t { kept = t.kept ++ order_id ∷ [] })
      else fill_order order_id o t

  -- The loop over the ids; it stops once nothing remains, and the rest of the ids stays.
  unfoldable pub match_orders : List ℕ → Tally → Op L Tally
  unfolding match_order
  match_orders [] t = pure t
  match_orders (id ∷ ids) t =
      if leb_ℤ t.remaining (pos 0)
      then pure (record t { kept = t.kept ++ id ∷ ids })
      else (do found ← gets (get_order id); t' ← match_order id found t; match_orders ids t')

  -- The reserves of a pool in the order in and out; `true` if asset A comes in.
  abbrev pub pool_sides : OrderSide → LiquidityPool → Bool × ℤ × ℤ
  pool_sides side pool =
      let asset_in = on_side side leg.quote_asset leg.base_asset in
      if pool.asset_a == asset_in
      then (true, pool.reserve_a, pool.reserve_b)
      else (false, pool.reserve_b, pool.reserve_a)

  -- `pool.reserve += …; pool.reserve -= …`
  abbrev pub move_reserves : Bool → LiquidityPool → ℤ → ℤ → Op L LiquidityPool
  move_reserves is_a_to_b pool amount_in amount_out =
      if is_a_to_b
      then (do
        a ← checked (pool.reserve_a +ℤ amount_in)
        b ← checked (pool.reserve_b -ℤ amount_out)
        pure (record pool { reserve_a = a; reserve_b = b }))
      else (do
        b ← checked (pool.reserve_b +ℤ amount_in)
        a ← checked (pool.reserve_a -ℤ amount_out)
        pure (record pool { reserve_a = a; reserve_b = b }))

  -- The transfers with the pool, the reserves after them, and the fill if its price is in the limit.
  abbrev pub trade_with_pool : Bool → LiquidityPool → ℤ → ℤ → Tally → Op L Tally
  trade_with_pool is_a_to_b pool fill_base fill_quote t = do
    settle leg.side env.contract fill_base fill_quote
    let amount_in = on_side leg.side fill_quote fill_base
    let amount_out = on_side leg.side fill_base fill_quote
    pool' ← move_reserves is_a_to_b pool amount_in amount_out
    modify (save_pool pool')
    let price = saturating_mul_u128 (as_u128 fill_quote) price_precision / as_u128 fill_base
    if beyond_limit leg price then pure t else (do
      base ← checked (t.base +ℤ fill_base)
      quote ← checked (t.quote +ℤ fill_quote)
      let f : FillResult = pool_fill env trader leg pool.pool_id price fill_base fill_quote
      publish (emit_fill f)
      pure (record t { remaining = pos 0; base = base; quote = quote; fills = t.fills ++ f ∷ [] }))

  -- The quote asset for what remains, at the constant product, rounded up.
  abbrev pub pool_quote_in : LiquidityPool → ℤ → ℤ → ℤ → Op L (Option ℤ)
  pool_quote_in pool reserve_in reserve_out remaining =
      let fee_multiplier = saturating_sub_i128 (pos 10000) (pos pool.fee_bps) in
      let num = saturating_mul_i128 (saturating_mul_i128 reserve_in remaining) (pos 10000) in
      let den = saturating_mul_i128 (saturating_sub_i128 reserve_out remaining) fee_multiplier in
      if ltb_ℤ (pos 0) den
      then (do q ← checked (quot num den); quote_in ← checked (q +ℤ pos 1); pure (some quote_in))
      else pure none

  abbrev pub with_quote : Bool → LiquidityPool → Tally → Option ℤ → Op L Tally
  with_quote is_a_to_b pool t none = pure t
  with_quote is_a_to_b pool t (some fill_quote) =
      trade_with_pool is_a_to_b pool t.remaining fill_quote t

  -- What remains after the book is traded with the pool of the pair, if it has the reserves.
  abbrev pub match_reserves : OrderSide → Bool → LiquidityPool → ℤ → ℤ → Tally → Op L Tally
  match_reserves buy is_a_to_b pool reserve_in reserve_out t =
      if ltb_ℤ (pos 0) reserve_in && leb_ℤ t.remaining reserve_out
      then pool_quote_in pool reserve_in reserve_out t.remaining >>= with_quote is_a_to_b pool t
      else pure t
  match_reserves sell is_a_to_b pool reserve_in reserve_out t =
      if ltb_ℤ (pos 0) reserve_in && ltb_ℤ (pos 0) reserve_out
      then (do
        fill_quote ← (λ w. (get_amount_out t.remaining reserve_in reserve_out pool.fee_bps, w))
        trade_with_pool is_a_to_b pool t.remaining fill_quote t)
      else pure t

  abbrev pub match_pool : LiquidityPool → Tally → Op L Tally
  match_pool pool t =
      let (is_a_to_b, reserve_in, reserve_out) = pool_sides leg.side pool in
      match_reserves leg.side is_a_to_b pool reserve_in reserve_out t

  abbrev pub match_found : Option LiquidityPool → Tally → Op L Tally
  match_found none t = pure t
  match_found (some pool) t = match_pool pool t

  unfoldable pub match_fallback : Tally → Op L Tally
  match_fallback t =
      if leb_ℤ t.remaining (pos 0)
      then pure t
      else (do pool ← gets (get_pool_by_pair leg.base_asset leg.quote_asset); match_found pool t)

  abbrev pub untouched : Tally
  untouched = record { remaining = leg.amount; base = pos 0; quote = pos 0; fills = []; kept = [] }

  -- What a buyer or a seller of the base asset gets.
  abbrev pub output_of : Tally → ℤ
  output_of t = on_side leg.side t.base t.quote

  -- The book is written, and what remains goes to the pool.
  abbrev pub finish_leg : PairOrderBook → Tally → Op L (List FillResult)
  finish_leg book t = do
    modify (save_book (with_ids (opposite leg.side) t.kept book))
    t' ← match_fallback t
    raise_if (ltb_ℤ (pos 0) t'.remaining) insufficient_liquidity
    raise_if (ltb_ℤ (pos 0) leg.min_output_amount && ltb_ℤ (output_of t') leg.min_output_amount)
        slippage_exceeded
    pure t'.fills

  unfoldable pub match_leg : Op L (List FillResult)
  unfolding match_orders match_fallback
  match_leg = do
    raise_if (leb_ℤ leg.amount (pos 0)) invalid_amount
    raise_if (leg.base_asset == leg.quote_asset) same_asset
    book ← gets (load_book leg.base_asset leg.quote_asset)
    t ← match_orders (ids_of (opposite leg.side) book) untouched
    finish_leg book t

module _ {L : Type 0} (tok : Tokens L) (env : Env) (trader : Address) where
  -- The loop over the legs, with the counter `legs_executed` and the fills so far.
  unfoldable pub match_legs : List TradeLeg → ℕ → List FillResult → Op L (ℕ × List FillResult)
  unfolding match_leg
  match_legs [] legs_executed fills = pure (legs_executed, fills)
  match_legs (leg ∷ legs) legs_executed fills = do
    more ← match_leg tok env trader leg
    trap_if (ltb u32_max (legs_executed + 1))
    match_legs legs (legs_executed + 1) (fills ++ more)

  unfoldable pub execute_multi_pair_trade : List TradeLeg → Op L TradeExecutionResult
  unfolding match_legs
  execute_multi_pair_trade [] = raise invalid_legs
  execute_multi_pair_trade (leg ∷ legs) = do
    (legs_executed, fills) ← match_legs (leg ∷ legs) 0 []
    publish (emit_trade_executed trader legs_executed (length fills))
    pure (record { success = true; legs_executed = legs_executed; fills = fills })
