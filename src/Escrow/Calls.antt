-- ===== src/Escrow/Calls.antt =====
-- Invocations of the escrow contract: any entry point that writes, by anyone, in any order, between
-- steps of the token contracts that the contract has no part in.
use swaptrade_contract.Prelude.{ℕ, ◌≡◌, Bool, false, List}
use swaptrade_contract.Prelude.Int.{ℤ, ◌≤ℤ◌}
use swaptrade_contract.Host.{Address, Env, World, invoke, pure, ◌>>◌}
use swaptrade_contract.Host.Tokens.{Tokens}
use swaptrade_contract.Escrow
use swaptrade_contract.Escrow.Storage.{Store, Op}
use swaptrade_contract.Escrow.Events.{Event}

abbrev pub State : Type 0 → Type 0
State L = World Store Event L

-- The entry points with their arguments, `env` apart.
pub data Call : Type 0 where
  initialize : Address → List Address → ℕ → ℕ → Call
  create_escrow : Address → Address → Address → ℤ → ℕ → ℕ → Call
  fund_escrow : ℕ → Address → Call
  raise_dispute : ℕ → Address → ℕ → Call
  submit_evidence : ℕ → Address → ℕ → ℕ → Call
  vote : ℕ → Address → Bool → Call
  resolve_dispute : ℕ → Address → Call
  auto_refund : ℕ → Call
  cancel_escrow : ℕ → Call
  set_dispute_window : Address → ℕ → Call
  set_min_timelock : Address → ℕ → Call

module _ {L : Type 0} (tok : Tokens L) where
  -- The entry point that a call names; the id that `create_escrow` returns is dropped.
  unfoldable pub perform : Env → Call → Op L (Unit {0})
  perform env (initialize admin signers threshold timelock_duration) =
      Escrow.initialize env admin signers threshold timelock_duration
  perform env (create_escrow seller buyer asset amount timelock nonce) =
      Escrow.create_escrow tok env seller buyer asset amount timelock nonce >> pure tt
  perform env (fund_escrow id funder) = Escrow.fund_escrow tok env id funder
  perform env (raise_dispute id disputer window) = Escrow.raise_dispute env id disputer window
  perform env (submit_evidence id submitter hash description) =
      Escrow.submit_evidence env id submitter hash description
  perform env (vote id signer in_favour) = Escrow.vote env id signer in_favour
  perform env (resolve_dispute id resolver) = Escrow.resolve_dispute tok env id resolver
  perform env (auto_refund id) = Escrow.auto_refund tok env id
  perform env (cancel_escrow id) = Escrow.cancel_escrow env id
  perform env (set_dispute_window caller seconds) = Escrow.set_dispute_window env caller seconds
  perform env (set_min_timelock caller seconds) = Escrow.set_min_timelock env caller seconds

  -- The contract at `self` runs one call, which `self` itself has not authorized; or the token
  -- contracts move on without taking from what `self` holds.
  module _ (holding : Address → Address → L → ℤ) (self : Address) where
    pub data Step (w w' : State L) : Type 0 where
      invoked :
          (env : Env) (c : Call)
          → env.contract ≡ self
          → env.signed self ≡ false
          → w' ≡ (invoke (perform env c) w).1
          → Step w w'
      elsewhere :
          (l : L)
          → ((asset : Address) → holding asset self w.tokens ≤ℤ holding asset self l)
          → w' ≡ record w { tokens = l }
          → Step w w'

    pub data Reach (w : State L) : State L → Type 0 where
      here : Reach w w
      next : {t u : State L} → Reach w t → Step t u → Reach w u
