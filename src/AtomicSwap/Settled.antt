-- ===== src/AtomicSwap/Settled.antt =====
-- What becomes of one swap over time: its terms, and the diagram of its states.
use swaptrade_contract.Prelude.{
  ℕ, ◌≡◌, refl, sym, ◌∙◌, subst, Bool, true, false, some, if◌then◌else◌, arith,
}
use swaptrade_contract.Prelude.Int.{ℤ}
use swaptrade_contract.Prelude.Maps.{set_ne}
use native.Mathlib.Decide.{ℕ_discrete}
use swaptrade_contract.Host.{Address, Env}
use swaptrade_contract.Host.Tokens.{Tokens}
use swaptrade_contract.AtomicSwap.Types.{
  Swap, SwapState, created, funded, accepted, cancelled, refunded, is_over,
}
use swaptrade_contract.AtomicSwap.Storage.{Store, update_swap}
use swaptrade_contract.AtomicSwap.Calls
use swaptrade_contract.AtomicSwap.Calls.{State, Reach, here}
use swaptrade_contract.AtomicSwap.Moves.{
  Moves, side_a, side_b, configuring, opening, depositing, accepting, cancelling, refunding,
}
use swaptrade_contract.AtomicSwap.Refinement.{Progress, stays, moves, outside, Step-Progress}
use swaptrade_contract.AtomicSwap.WellFormed.{IsWellFormed, filed, swaps-IsWellFormed}

-- The states that a swap can be in after the one that it is in.
abbrev pub Later : SwapState → SwapState → Type 0
Later created _ = Unit
Later funded funded = Unit
Later funded accepted = Unit
Later funded refunded = Unit
Later accepted accepted = Unit
Later cancelled cancelled = Unit
Later refunded refunded = Unit
Later _ _ = ⊥

pub Later-refl : (s : SwapState) → Later s s
Later-refl created = tt
Later-refl funded = tt
Later-refl accepted = tt
Later-refl cancelled = tt
Later-refl refunded = tt

pub Later-trans : (s t u : SwapState) → Later s t → Later t u → Later s u
Later-trans s t u a b = ground arith

-- The same agreement, in a state that comes later.
pub record Becomes (s s' : Swap) : Type 0 where
  pub id : s'.id ≡ s.id
  pub nonce : s'.nonce ≡ s.nonce
  pub creator : s'.creator ≡ s.creator
  pub counterparty : s'.counterparty ≡ s.counterparty
  pub asset_a : s'.asset_a ≡ s.asset_a
  pub amount_a : s'.amount_a ≡ s.amount_a
  pub asset_b : s'.asset_b ≡ s.asset_b
  pub amount_b : s'.amount_b ≡ s.amount_b
  pub expiry : s'.expiry ≡ s.expiry
  pub state : Later s.state s'.state
  pub over : is_over s.state ≡ true → s' ≡ s

Becomes-refl : (s : Swap) → Becomes s s
Becomes-refl s = record {
  id = refl;
  nonce = refl;
  creator = refl;
  counterparty = refl;
  asset_a = refl;
  amount_a = refl;
  asset_b = refl;
  amount_b = refl;
  expiry = refl;
  state = Later-refl s.state;
  over = λ h. refl;
}

-- A swap that is not over, in another state and with other flags.
Becomes-live :
    (s : Swap) (state : SwapState) (a b : Bool)
    → is_over s.state ≡ false
    → Later s.state state
    → Becomes s (record s { state = state; creator_funded = a; counterparty_funded = b })
Becomes-live s state a b live l = record {
  id = refl;
  nonce = refl;
  creator = refl;
  counterparty = refl;
  asset_a = refl;
  amount_a = refl;
  asset_b = refl;
  amount_b = refl;
  expiry = refl;
  state = l;
  over = λ h. absurd (ground arith);
}

Becomes-trans : (s t u : Swap) → Becomes s t → Becomes t u → Becomes s u
Becomes-trans s t u a b = record {
  id = b.id ∙ a.id;
  nonce = b.nonce ∙ a.nonce;
  creator = b.creator ∙ a.creator;
  counterparty = b.counterparty ∙ a.counterparty;
  asset_a = b.asset_a ∙ a.asset_a;
  amount_a = b.amount_a ∙ a.amount_a;
  asset_b = b.asset_b ∙ a.asset_b;
  amount_b = b.amount_b ∙ a.amount_b;
  expiry = b.expiry ∙ a.expiry;
  state = Later-trans s.state t.state u.state a.state b.state;
  over = λ h. b.over (ground (arith, a.over h)) ∙ a.over h;
}

-- The swap under an id is there still, and is what `s` has become.
abbrev pub Remains : Store → ℕ → Swap → Type 0
Remains st id s = (s' : Swap) × (st.swaps id ≡ some s') × Becomes s s'

-- A write of a live swap touches no other swap, and is a later state of its own.
rewritten :
    (st : Store) (h : IsWellFormed st) (j id : ℕ) (f s : Swap) (state : SwapState) (a b : Bool)
    → st.swaps j ≡ some f
    → is_over f.state ≡ false
    → Later f.state state
    → st.swaps id ≡ some s
    → Remains
        (update_swap (record f { state = state; creator_funded = a; counterparty_funded = b }) st)
        id
        s
rewritten st h j id f s state a b pf live l ps =
    let f' : Swap = record f { state = state; creator_funded = a; counterparty_funded = b } in
    let k = (filed h j f pf).keyed in
    elim (ℕ_discrete f.id id) [
      | yes y ↦
          let same : f ≡ s = ground (arith, subst (λ i. st.swaps i ≡ some f) (sym k ∙ y) pf) in
          (f', ground arith, subst (λ x. Becomes x f') same (Becomes-live f state a b live l))
      | no n ↦ (s, rw (set_ne st.swaps f.id id f' n) ps, Becomes-refl s)
    ]

live-Later : (s : SwapState) → is_over s ≡ false → Later s refunded
live-Later s h = ground arith

module _ {L : Type 0} {tok : Tokens L} {env : Env} {w w' : State L} (h : IsWellFormed w.store)
    (id : ℕ) (s : Swap) (q : w.store.swaps id ≡ some s) where
  Moves-Remains : Moves tok env w w' → Remains w'.store id s
  Moves-Remains (configuring x o n t) = (s, rw x q, Becomes-refl s)
  Moves-Remains (opening f k c fa fb a b x y z g n e t) = (
    s,
    rw e (rw (set_ne w.store.swaps f.id id f (λ z'. grind (arith, h.fresh id))) q),
    Becomes-refl s,
  )
  Moves-Remains (depositing j f side_a r p c g u x e t) = rw e (
      rewritten w.store h j id f s (if f.counterparty_funded then funded else created) true
        f.counterparty_funded p (ground arith) (rw c tt) q)
  Moves-Remains (depositing j f side_b r p c g u x e t) = rw e (
      rewritten w.store h j id f s (if f.creator_funded then funded else created) f.creator_funded
        true p (ground arith) (rw c tt) q)
  Moves-Remains (accepting j f p l fa fb x g ra rb e t) = rw e (
      rewritten w.store h j id f s accepted f.creator_funded f.counterparty_funded p l
        (ground arith) q)
  Moves-Remains (cancelling j f p c fa fb g e t) = rw e (
      rewritten w.store h j id f s cancelled f.creator_funded f.counterparty_funded p (ground arith)
        (rw c tt) q)
  Moves-Remains (refunding j f p l x g ra rb e t) =
      rw e (rewritten w.store h j id f s refunded false false p l (live-Later f.state l) q)

module _ {L : Type 0} {tok : Tokens L} {holding : Address → Address → L → ℤ} {self : Address} where
  Step-Remains :
      {w w' : State L}
      → Progress tok holding self w w'
      → IsWellFormed w.store
      → (id : ℕ) (s : Swap) → w.store.swaps id ≡ some s
      → Remains w'.store id s
  Step-Remains (stays x) h id s p = rw x (s, p, Becomes-refl s)
  Step-Remains (moves env at unsigned m) h id s p = Moves-Remains h id s p m
  Step-Remains (outside l more x) h id s p = rw x (s, p, Becomes-refl s)

  -- From well-formed storage on, whatever is invoked, a swap that was created keeps its parties, assets,
  -- amounts and expiry, its state only moves along the diagram `Later`, and once it was accepted,
  -- cancelled or refunded nothing of it changes.
  pub swaps-Remains :
      {w w' : State L}
      → Reach tok holding self w w'
      → IsWellFormed w.store
      → (id : ℕ) (s : Swap) → w.store.swaps id ≡ some s
      → Remains w'.store id s
  swaps-Remains here h id s p = (s, p, Becomes-refl s)
  swaps-Remains (Calls.next r x) h id s p =
      let (f, q, b) = swaps-Remains r h id s p in
      let (g, q', b') = Step-Remains (Step-Progress x) (swaps-IsWellFormed r h) id f q in
      (g, q', Becomes-trans s f g b b')
