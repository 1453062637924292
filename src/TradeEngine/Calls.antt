-- ===== src/TradeEngine/Calls.antt =====
-- Invocations of the trade engine: any entry point that writes, by anyone, in any order.
pub mod Keeps
pub mod Ranks
pub mod Fillings
pub mod Filed
pub mod RoundTrip
use swaptrade_contract.Prelude.{ℕ, List}
use swaptrade_contract.Prelude.Int.{ℤ}
use swaptrade_contract.Host.{Address, Env, World, invoke, pure, ◌>>◌}
use swaptrade_contract.Host.Tokens.{Tokens}
use swaptrade_contract.TradeEngine
use swaptrade_contract.TradeEngine.Types.{OrderSide, OrderType, TradeLeg, Event}
use swaptrade_contract.TradeEngine.Storage.{Store, Op}

abbrev pub State : Type 0 → Type 0
State L = World Store Event L

-- The entry points with their arguments, `env` apart.
pub data Call : Type 0 where
  initialize : Address → Call
  place_order : Address → Address → Address → OrderSide → OrderType → ℕ → ℤ → ℕ → Call
  cancel_order : Address → ℕ → Call
  execute_multi_pair_trade : Address → List TradeLeg → Call
  add_liquidity_pool : Address → Address → Address → ℤ → ℤ → ℕ → Call

module _ {L : Type 0} (tok : Tokens L) where
  -- The entry point that a call names; the values that they return are dropped.
  unfoldable pub perform : Env → Call → Op L (Unit {0})
  perform env (initialize admin) = TradeEngine.initialize env admin
  perform env (place_order owner base_asset quote_asset side order_type price amount expires_at) =
      TradeEngine.place_order tok env owner base_asset quote_asset side order_type price amount
        expires_at
      >> pure tt
  perform env (cancel_order owner order_id) = TradeEngine.cancel_order tok env owner order_id
  perform env (execute_multi_pair_trade trader legs) =
      TradeEngine.execute_multi_pair_trade tok env trader legs >> pure tt
  perform env (add_liquidity_pool admin asset_a asset_b reserve_a reserve_b fee_bps) =
      TradeEngine.add_liquidity_pool tok env admin asset_a asset_b reserve_a reserve_b fee_bps
      >> pure tt

  -- The states that a sequence of invocations leads to.
  pub data Reach (w : State L) : State L → Type 0 where
    here : Reach w w
    next : {t : State L} (env : Env) (c : Call) → Reach w t → Reach w (invoke (perform env c) t).1
