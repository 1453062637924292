-- ===== src/Escrow/Errors.antt =====
-- The calls of swaptrade-contracts/escrow-dispute/src/lib.rs that return an error or panic.
use swaptrade_contract.Prelude.{◌≡◌, ◌≢◌, arith}
use swaptrade_contract.Host.{Env, ok}
use swaptrade_contract.Host.Tokens.{Tokens}
use swaptrade_contract.Escrow.{
  initialize, create_escrow, fund_escrow, raise_dispute, submit_evidence, vote, resolve_dispute,
  auto_refund, cancel_escrow, set_dispute_window, set_min_timelock,
}
use swaptrade_contract.Escrow.Calls.{State, Call, perform}

module _ {L : Type 0} (tok : Tokens L) (env : Env) (w : State L) where
  -- A call that does not return `Ok`, by an error or by a panic, has written nothing to the contract's own
  -- storage and published no event, also before the host takes its effects back.
  pub failed_writes_nothing :
      (c : Call)
      → (perform tok env c w).0 ≢ ok tt
      → ((perform tok env c w).1.store ≡ w.store) × ((perform tok env c w).1.events ≡ w.events)
  unfolding perform initialize create_escrow fund_escrow raise_dispute submit_evidence vote
      resolve_dispute auto_refund cancel_escrow set_dispute_window set_min_timelock
  failed_writes_nothing (Call.initialize admin signers threshold window) h = ground arith
  failed_writes_nothing _ h = ground arith
