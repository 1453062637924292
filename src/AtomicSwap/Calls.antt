-- ===== src/AtomicSwap/Calls.antt =====
-- Invocations of the atomic swap contract: any entry point that writes, by anyone, in any order,
-- between steps of the token contracts that the contract has no part in.
use swaptrade_contract.Prelude.{ℕ, ◌≡◌, ◌≤◌, false}
use swaptrade_contract.Prelude.Int.{ℤ, ◌≤ℤ◌}
use swaptrade_contract.Host.{Address, Env, World, u64_max, invoke, pure, ◌>>◌}
use swaptrade_contract.Host.Tokens.{Tokens}
use swaptrade_contract.AtomicSwap
use swaptrade_contract.AtomicSwap.Storage.{Store, Op}
use swaptrade_contract.AtomicSwap.Types.{Event}

abbrev pub State : Type 0 → Type 0
State L = World Store Event L

-- The entry points with their arguments, `env` apart.
pub data Call : Type 0 where
  create_swap : Address → Address → Address → ℤ → Address → ℤ → ℕ → ℕ → Call
  fund_swap : ℕ → Address → Call
  accept_swap : ℕ → Address → Call
  cancel_swap : ℕ → Call
  refund_swap : ℕ → Call
  set_min_expiry : Address → ℕ → Call

module _ {L : Type 0} (tok : Tokens L) where
  -- The entry point that a call names; the id that `create_swap` returns is dropped.
  unfoldable pub perform : Env → Call → Op L (Unit {0})
  perform env (create_swap creator counterparty asset_a amount_a asset_b amount_b expiry nonce) =
      AtomicSwap.create_swap tok env creator counterparty asset_a amount_a asset_b amount_b expiry
        nonce
      >> pure tt
  perform env (fund_swap id funder) = AtomicSwap.fund_swap tok env id funder
  perform env (accept_swap id acceptor) = AtomicSwap.accept_swap tok env id acceptor
  perform env (cancel_swap id) = AtomicSwap.cancel_swap env id
  perform env (refund_swap id) = AtomicSwap.refund_swap tok env id
  perform env (set_min_expiry caller seconds) = AtomicSwap.set_min_expiry env caller seconds

  -- The contract at `self` runs one call, which `self` itself has not authorized, at a time
  -- that fits a u64; or the token
  -- contracts move on without taking from what `self` holds.
  module _ (holding : Address → Address → L → ℤ) (self : Address) where
    pub data Step (w w' : State L) : Type 0 where
      invoked :
          (env : Env) (c : Call)
          → env.contract ≡ self
          → env.signed self ≡ false
          → env.now ≤ u64_max
          → w' ≡ (invoke (perform env c) w).1
          → Step w w'
      elsewhere :
          (l : L)
          → ((asset : Address) → holding asset self w.tokens ≤ℤ holding asset self l)
          → w' ≡ record w { tokens = l }
          → Step w w'

    pub data Reach (w : State L) : State L → Type 0 where
      here : Reach w w
      next : {t u : State L} → Reach w t → Step t u → Reach w u
