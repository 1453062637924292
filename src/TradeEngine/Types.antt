-- ===== src/TradeEngine/Types.antt =====
-- The data of the trade engine: swaptrade-contracts/trade-engine/src/types.rs, errors.rs and events.rs,
-- and `PairOrderBook` of orderbook.rs.
use swaptrade_contract.Prelude.{ℕ, Bool, true, false, List}
use swaptrade_contract.Prelude.Int.{ℤ}
use swaptrade_contract.Host.{Address}

pub data TradeError : Type 0 where
  invalid_amount invalid_price order_not_found unauthorized expired slippage_exceeded : TradeError
  insufficient_liquidity invalid_state same_asset execution_failed invalid_legs : TradeError
  already_exists : TradeError

pub data OrderSide : Type 0 where
  buy sell : OrderSide

-- The first value for a buyer, the second for a seller.
abbrev pub on_side : {A : Type 0} → OrderSide → A → A → A
on_side buy x y = x
on_side sell x y = y

pub data OrderType : Type 0 where
  limit market immediate_or_cancel fill_or_kill : OrderType

pub data OrderStatus : Type 0 where
  pending partially_filled filled cancelled expired : OrderStatus

pub record Order : Type 0 where
  pub order_id : ℕ
  pub owner : Address
  pub base_asset : Address
  pub quote_asset : Address
  pub side : OrderSide
  pub order_type : OrderType
  pub price : ℕ
  pub amount : ℤ
  pub filled_amount : ℤ
  pub status : OrderStatus
  pub created_at : ℕ
  pub expires_at : ℕ

pub record OrderBookLevel : Type 0 where
  pub price : ℕ
  pub total_amount : ℤ
  pub order_count : ℕ

pub record OrderBookSummary : Type 0 where
  pub base_asset : Address
  pub quote_asset : Address
  pub bids : List OrderBookLevel
  pub asks : List OrderBookLevel
  pub timestamp : ℕ

pub record TradeLeg : Type 0 where
  pub base_asset : Address
  pub quote_asset : Address
  pub side : OrderSide
  pub amount : ℤ
  pub limit_price : ℕ
  pub min_output_amount : ℤ

pub record FillResult : Type 0 where
  pub order_id : ℕ
  pub maker : Address
  pub taker : Address
  pub base_asset : Address
  pub quote_asset : Address
  pub price : ℕ
  pub filled_base : ℤ
  pub filled_quote : ℤ
  pub filled_via_pool : Bool
  pub pool_id : ℕ

pub record TradeExecutionResult : Type 0 where
  pub success : Bool
  pub legs_executed : ℕ
  pub fills : List FillResult

pub record LiquidityPool : Type 0 where
  pub pool_id : ℕ
  pub asset_a : Address
  pub asset_b : Address
  pub reserve_a : ℤ
  pub reserve_b : ℤ
  pub fee_bps : ℕ

pub record PairOrderBook : Type 0 where
  pub base_asset : Address
  pub quote_asset : Address
  pub bid_order_ids : List ℕ
  pub ask_order_ids : List ℕ

abbrev pub price_precision : ℕ
price_precision = 10000000

-- `order_type == OrderType::Limit`, and so on.
abbrev pub is_limit : OrderType → Bool
is_limit limit = true
is_limit _ = false

-- `status == OrderStatus::Pending || status == OrderStatus::PartiallyFilled`
abbrev pub is_active : OrderStatus → Bool
is_active pending = true
is_active partially_filled = true
is_active _ = false

-- One constructor for each topic, with the topic's id and the payload's fields in order.
pub data Event : Type 0 where
  ord_place : ℕ → Address → Address → Address → OrderSide → ℕ → ℤ → Event
  ord_canc : ℕ → Address → Event
  trd_exec : Address → ℕ → ℕ → Event
  ord_fill : ℕ → Address → Address → ℕ → ℤ → ℤ → Bool → Event
  pool_add : ℕ → Address → Address → Event

abbrev pub emit_order_placed : Order → Event
emit_order_placed o =
    ord_place o.order_id o.owner o.base_asset o.quote_asset o.side o.price o.amount

abbrev pub emit_order_cancelled : ℕ → Address → Event
emit_order_cancelled order_id owner = ord_canc order_id owner

abbrev pub emit_trade_executed : Address → ℕ → ℕ → Event
emit_trade_executed trader legs_count fills_count = trd_exec trader legs_count fills_count

abbrev pub emit_fill : FillResult → Event
emit_fill f =
    ord_fill f.order_id f.maker f.taker f.price f.filled_base f.filled_quote f.filled_via_pool

abbrev pub emit_pool_added : ℕ → Address → Address → Event
emit_pool_added pool_id asset_a asset_b = pool_add pool_id asset_a asset_b
