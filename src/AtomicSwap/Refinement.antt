-- ===== src/AtomicSwap/Refinement.antt =====
-- The entry points of swaptrade-contracts/atomic-swap/src/lib.rs against the machine of `Moves`.
use swaptrade_contract.Prelude.{
  ℕ, ◌≡◌, ◌≢◌, ◌≤◌, ◌<◌, inl, inr, refl, ◌∙◌, false, none, ◌==◌, arith, Option-cases, Bool-cases,
}
use swaptrade_contract.Prelude.Int.{ℤ, ◌≤ℤ◌}
use swaptrade_contract.Host.{Address, Env, ok, invoke_cases, u64_max, saturating_add}
use swaptrade_contract.Host.Tokens.{Tokens}
use swaptrade_contract.AtomicSwap
use swaptrade_contract.AtomicSwap.Types.{Swap, created}
use swaptrade_contract.AtomicSwap.Storage.{next}
use swaptrade_contract.AtomicSwap.Calls.{State, Call, perform, Step, invoked, elsewhere}
use swaptrade_contract.AtomicSwap.Moves.{
  Moves, Side, side_a, side_b, asset, amount, Pays, paid_out, returned, configuring, opening,
  depositing, accepting, cancelling, refunding,
}

-- A deadline after the (capped) current time is after the current time.
saturating_later : (a b c : ℕ) → a ≤ u64_max → saturating_add a b < c → a < c
unfolding saturating_add
saturating_later a b c m h = omega arith

module _ {L : Type 0} (tok : Tokens L) (env : Env) (bounded : env.now ≤ u64_max) (w : State L) where
  create_swap-Moves :
      (creator counterparty asset_a : Address) (amount_a : ℤ) (asset_b : Address) (amount_b : ℤ)
      (expiry nonce : ℕ) {id : ℕ}
      → (AtomicSwap.create_swap tok env creator counterparty asset_a amount_a asset_b amount_b
          expiry nonce w).0
        ≡ ok id
      → Moves tok env w
          (AtomicSwap.create_swap tok env creator counterparty asset_a amount_a asset_b amount_b
            expiry nonce w).1
  unfolding AtomicSwap.create_swap
  create_swap-Moves creator counterparty asset_a amount_a asset_b amount_b expiry nonce h =
      elim (Option-cases (w.store.nonces creator nonce)) [
        | inl p ↦
            opening
              (record {
                id = next w.store;
                nonce = nonce;
                creator = creator;
                counterparty = counterparty;
                asset_a = asset_a;
                amount_a = amount_a;
                asset_b = asset_b;
                amount_b = amount_b;
                expiry = expiry;
                state = created;
                creator_funded = false;
                counterparty_funded = false;
                created_at = env.now;
              })
              refl refl refl refl (ground arith) (ground arith) (ground arith) (ground arith)
              (ground arith) (ground arith) p (ground arith) (ground arith)
        | inr (id', p) ↦ configuring (ground arith) (ground arith) (ground arith) (ground arith)
      ]

  fund_swap-Moves :
      (id : ℕ) (funder : Address)
      → (AtomicSwap.fund_swap tok env id funder w).0 ≡ ok tt
      → Moves tok env w (AtomicSwap.fund_swap tok env id funder w).1
  unfolding AtomicSwap.fund_swap
  fund_swap-Moves id funder h = elim (Option-cases (w.store.swaps id)) [
    | inl p ↦ absurd (ground arith)
    | inr (s, p) ↦ elim (Bool-cases (funder == s.creator)) [
      | inl c ↦
          elim (Option-cases
            (tok.transfer s.asset_a s.creator env.contract s.amount_a w.tokens).0) [
              | inl q ↦ absurd (ground arith)
              | inr (r, q) ↦
                  depositing id s side_a r p (ground arith) (ground arith) (ground arith) q
                    (ground arith) (ground arith)
            ]
      | inr c ↦
          elim (Option-cases
            (tok.transfer s.asset_b s.counterparty env.contract s.amount_b w.tokens).0) [
              | inl q ↦ absurd (ground arith)
              | inr (r, q) ↦
                  depositing id s side_b r p (ground arith) (ground arith) (ground arith) q
                    (ground arith) (ground arith)
            ]
    ]
  ]

  -- A transfer that did not fail gives what `Pays` asks.
  pays :
      (x : Side) (s : Swap) (to : Address) (l : L)
      → (tok.transfer (asset x s) env.contract to (amount x s) l).0 ≢ none
      → Pays tok x s env.contract to l
  pays x s to l n =
      elim (Option-cases (tok.transfer (asset x s) env.contract to (amount x s) l).0) [
        | inl z ↦ absurd (n z)
        | inr (r, z) ↦ (r, z)
      ]

  accept_swap-Moves :
      (id : ℕ) (acceptor : Address)
      → (AtomicSwap.accept_swap tok env id acceptor w).0 ≡ ok tt
      → Moves tok env w (AtomicSwap.accept_swap tok env id acceptor w).1
  unfolding AtomicSwap.accept_swap
  accept_swap-Moves id acceptor h = elim (Option-cases (w.store.swaps id)) [
    | inl p ↦ absurd (ground arith)
    | inr (s, p) ↦
        accepting id s p (ground arith) (ground arith) (ground arith) (ground arith) (ground arith)
          (pays side_a s s.counterparty w.tokens (ground arith))
          (pays side_b s s.creator (paid_out tok side_a s env.contract s.counterparty w.tokens)
            (ground arith))
          (ground arith) (ground arith)
  ]

  cancel_swap-Moves :
      (id : ℕ)
      → (AtomicSwap.cancel_swap env id w).0 ≡ ok tt
      → Moves tok env w (AtomicSwap.cancel_swap env id w).1
  unfolding AtomicSwap.cancel_swap
  cancel_swap-Moves id h = elim (Option-cases (w.store.swaps id)) [
    | inl p ↦ absurd (ground arith)
    | inr (s, p) ↦
        cancelling id s p (ground arith) (ground arith) (ground arith) (ground arith) (ground arith)
          (ground arith)
  ]

  refund_swap-Moves :
      (id : ℕ)
      → (AtomicSwap.refund_swap tok env id w).0 ≡ ok tt
      → Moves tok env w (AtomicSwap.refund_swap tok env id w).1
  unfolding AtomicSwap.refund_swap
  refund_swap-Moves id h = elim (Option-cases (w.store.swaps id)) [
    | inl p ↦ absurd (ground arith)
    | inr (s, p) ↦
        refunding id s p (ground arith) (ground arith) (ground arith)
          (λ f. pays side_a s s.creator w.tokens (ground arith))
          (λ f.
            pays side_b s s.counterparty (returned tok side_a s env.contract w.tokens)
              (elim (Bool-cases s.creator_funded) [ inl y ↦ ground arith | inr y ↦ ground arith ]))
          (ground arith) (ground arith)
  ]

  set_min_expiry-Moves :
      (caller : Address) (seconds : ℕ)
      → (AtomicSwap.set_min_expiry env caller seconds w).0 ≡ ok tt
      → Moves tok env w (AtomicSwap.set_min_expiry env caller seconds w).1
  unfolding AtomicSwap.set_min_expiry
  set_min_expiry-Moves caller seconds h =
      configuring (ground arith) (ground arith) (ground arith) (ground arith)

  create_ok :
      (creator counterparty asset_a : Address) (amount_a : ℤ) (asset_b : Address) (amount_b : ℤ)
      (expiry nonce : ℕ)
      → let c =
          Call.create_swap creator counterparty asset_a amount_a asset_b amount_b expiry nonce in
        let m =
          AtomicSwap.create_swap tok env creator counterparty asset_a amount_a asset_b amount_b
            expiry nonce in
        (perform tok env c w).0 ≡ ok tt
        → (id : ℕ) × ((m w).0 ≡ ok id) × ((perform tok env c w).1 ≡ (m w).1)
  unfolding perform
  create_ok creator counterparty asset_a amount_a asset_b amount_b expiry nonce h = ground arith

  -- Every call that returns `Ok` is one step of the abstract machine.
  pub swap_call-Moves :
      (c : Call) → (perform tok env c w).0 ≡ ok tt → Moves tok env w (perform tok env c w).1
  unfolding perform
  swap_call-Moves
        (Call.create_swap creator counterparty asset_a amount_a asset_b amount_b expiry nonce) h =
      let (id, r, s) =
        create_ok creator counterparty asset_a amount_a asset_b amount_b expiry nonce h in
      rw s (create_swap-Moves creator counterparty asset_a amount_a asset_b amount_b expiry nonce r)
  swap_call-Moves (Call.fund_swap id funder) h = fund_swap-Moves id funder h
  swap_call-Moves (Call.accept_swap id acceptor) h = accept_swap-Moves id acceptor h
  swap_call-Moves (Call.cancel_swap id) h = cancel_swap-Moves id h
  swap_call-Moves (Call.refund_swap id) h = refund_swap-Moves id h
  swap_call-Moves (Call.set_min_expiry caller seconds) h = set_min_expiry-Moves caller seconds h

-- A step of the contract or of the tokens, as the invariants read it.
module _ {L : Type 0} (tok : Tokens L) (holding : Address → Address → L → ℤ) (self : Address) where
  pub data Progress (w w' : State L) : Type 0 where
    stays : w' ≡ w → Progress w w'
    moves :
        (env : Env)
        → env.contract ≡ self
        → env.signed self ≡ false
        → Moves tok env w w'
        → Progress w w'
    outside :
        (l : L)
        → ((asset : Address) → holding asset self w.tokens ≤ℤ holding asset self l)
        → w' ≡ record w { tokens = l }
        → Progress w w'

module _ {L : Type 0} {tok : Tokens L} {holding : Address → Address → L → ℤ} {self : Address} where
  -- A call that fails changes nothing, and one that succeeds is a step of the abstract machine.
  pub Step-Progress : {w w' : State L} → Step tok holding self w w' → Progress tok holding self w w'
  Step-Progress {w} (invoked env c at unsigned bounded e) =
      elim (invoke_cases (perform tok env c) w) [
        | inl same ↦ stays (e ∙ same)
        | inr (_, done, kept) ↦
            moves env at unsigned (rw (e, kept) (swap_call-Moves tok env bounded w c done))
      ]
  Step-Progress (elsewhere l more e) = outside l more e
