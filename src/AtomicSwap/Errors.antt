-- ===== src/AtomicSwap/Errors.antt =====
-- The calls of swaptrade-contracts/atomic-swap/src/lib.rs that return an error or panic.
use swaptrade_contract.Prelude.{◌≡◌, ◌≢◌, arith}
use swaptrade_contract.Host.{Env, ok}
use swaptrade_contract.Host.Tokens.{Tokens}
use swaptrade_contract.AtomicSwap.{
  create_swap, fund_swap, accept_swap, cancel_swap, refund_swap, set_min_expiry,
}
use swaptrade_contract.AtomicSwap.Calls.{State, Call, perform}

module _ {L : Type 0} (tok : Tokens L) (env : Env) (w : State L) where
  -- A call that does not return `Ok`, by an error or by a panic, has written nothing to the contract's own
  -- storage and published no event, also before the host takes its effects back.
  failed_swap_call_writes_nothing :
      (c : Call)
      → (perform tok env c w).0 ≢ ok tt
      → ((perform tok env c w).1.store ≡ w.store) × ((perform tok env c w).1.events ≡ w.events)
  unfolding perform create_swap fund_swap accept_swap cancel_swap refund_swap set_min_expiry
  failed_swap_call_writes_nothing (Call.fund_swap id funder) h = ground arith
  failed_swap_call_writes_nothing _ h = ground arith
