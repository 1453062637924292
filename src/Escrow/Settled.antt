-- ===== src/Escrow/Settled.antt =====
-- What becomes of one escrow over time: its terms, and the diagram of its states.
use swaptrade_contract.Prelude.{ℕ, ◌≡◌, refl, sym, ◌∙◌, subst, some, arith}
use swaptrade_contract.Prelude.Int.{ℤ}
use swaptrade_contract.Prelude.Maps.{set_ne}
use native.Mathlib.Decide.{ℕ_discrete}
use swaptrade_contract.Host.{Address, Env}
use swaptrade_contract.Host.Tokens.{Tokens}
use swaptrade_contract.Escrow.Types.{
  Escrow, EscrowState, created, funded, escrowed, disputed, released, refunded,
}
use swaptrade_contract.Escrow.Storage.{Store, update_escrow}
use swaptrade_contract.Escrow.Calls.{State, Call, perform, Step, invoked, elsewhere, Reach, here}
use swaptrade_contract.Escrow.Calls
use swaptrade_contract.Escrow.Moves.{
  Moves, Verdict, release, refund, expire, state_of, configuring, opening, funding, disputing,
  arguing, voting, settling, cancelling,
}
use swaptrade_contract.Escrow.Refinement.{Progress, stays, moves, outside, Step-Progress}
use swaptrade_contract.Escrow.WellFormed.{IsWellFormed, filed, open_disputed}
use swaptrade_contract.Escrow.Preserved.{Reach-IsWellFormed}

-- The states that an escrow can be in after the one that it is in. A funded escrow leaves its state
-- by a dispute alone, and `funded` is never entered.
abbrev pub Later : EscrowState → EscrowState → Type 0
Later created funded = ⊥
Later created _ = Unit
Later funded funded = Unit
Later funded _ = ⊥
Later escrowed created = ⊥
Later escrowed funded = ⊥
Later escrowed _ = Unit
Later disputed disputed = Unit
Later disputed released = Unit
Later disputed refunded = Unit
Later disputed _ = ⊥
Later released released = Unit
Later released _ = ⊥
Later refunded refunded = Unit
Later refunded _ = ⊥

pub Later-refl : (s : EscrowState) → Later s s
Later-refl created = tt
Later-refl funded = tt
Later-refl escrowed = tt
Later-refl disputed = tt
Later-refl released = tt
Later-refl refunded = tt

pub Later-trans : (s t u : EscrowState) → Later s t → Later t u → Later s u
Later-trans s t u a b = ground arith

-- The same agreement, in a state that comes later.
pub record Becomes (e e' : Escrow) : Type 0 where
  pub id : e'.id ≡ e.id
  pub nonce : e'.nonce ≡ e.nonce
  pub seller : e'.seller ≡ e.seller
  pub buyer : e'.buyer ≡ e.buyer
  pub asset : e'.asset ≡ e.asset
  pub amount : e'.amount ≡ e.amount
  pub created_at : e'.created_at ≡ e.created_at
  pub state : Later e.state e'.state

Becomes-state :
    (e : Escrow) (s : EscrowState) → Later e.state s → Becomes e (record e { state = s })
Becomes-state e s l = record {
  id = refl;
  nonce = refl;
  seller = refl;
  buyer = refl;
  asset = refl;
  amount = refl;
  created_at = refl;
  state = l;
}

Becomes-refl : (e : Escrow) → Becomes e e
Becomes-refl e = Becomes-state e e.state (Later-refl e.state)

Becomes-trans : (e f g : Escrow) → Becomes e f → Becomes f g → Becomes e g
Becomes-trans e f g a b = record {
  id = b.id ∙ a.id;
  nonce = b.nonce ∙ a.nonce;
  seller = b.seller ∙ a.seller;
  buyer = b.buyer ∙ a.buyer;
  asset = b.asset ∙ a.asset;
  amount = b.amount ∙ a.amount;
  created_at = b.created_at ∙ a.created_at;
  state = Later-trans e.state f.state g.state a.state b.state;
}

-- The escrow under an id is there still, and is what `e` has become.
abbrev pub Remains : Store → ℕ → Escrow → Type 0
Remains s id e = (e' : Escrow) × (s.escrows id ≡ some e') × Becomes e e'

own : (s : Store) (j : ℕ) (f : Escrow) → s.escrows j ≡ some f → f.id ≡ j → s.escrows f.id ≡ some f
own s j f p k = subst (λ i. s.escrows i ≡ some f) (sym k) p

settling-Later : (v : Verdict) → Later disputed (state_of v)
settling-Later release = tt
settling-Later refund = tt
settling-Later expire = tt

-- A write of the escrow `f` in a later state touches no other escrow's terms.
restated :
    (s : Store) (j id : ℕ) (f e : Escrow) (st : EscrowState)
    → s.escrows j ≡ some f
    → f.id ≡ j
    → Later f.state st
    → s.escrows id ≡ some e
    → Remains (update_escrow (record f { state = st }) s) id e
restated s j id f e st pf kf l pe = elim (ℕ_discrete f.id id) [
  | yes y ↦
      let same : f ≡ e = ground (arith, own s j f pf kf) in
      (
        record f { state = st },
        ground arith,
        subst (λ x. Becomes x (record f { state = st })) same (Becomes-state f st l),
      )
  | no n ↦ (e, rw (set_ne s.escrows f.id id (record f { state = st }) n) pe, Becomes-refl e)
]

module _ {L : Type 0} {tok : Tokens L} {env : Env} {w w' : State L} where
  Moves-Remains :
      Moves tok env w w'
      → IsWellFormed w.store
      → (id : ℕ) (e : Escrow) → w.store.escrows id ≡ some e
      → Remains w'.store id e
  Moves-Remains (configuring x d v o n t) h id e q = (e, rw x q, Becomes-refl e)
  Moves-Remains (opening f k c a p g u s t) h id e q = (
    e,
    rw s (rw (set_ne w.store.escrows f.id id f (λ z. grind (arith, h.fresh id))) q),
    Becomes-refl e,
  )
  Moves-Remains (funding j f r p c g x s t) h id e q =
      rw s (restated w.store j id f e escrowed p (filed h j f p).keyed (rw c tt) q)
  Moves-Remains (disputing j f d p c g1 g2 k o u s t) h id e q =
      rw s (restated w.store j id f e disputed p (filed h j f p).keyed (rw c tt) q)
  Moves-Remains (arguing j f d v p r o g s t) h id e q = (e, rw s q, Becomes-refl e)
  Moves-Remains (voting j d v p o g g2 n s t) h id e q = (e, rw s q, Becomes-refl e)
  Moves-Remains (settling j f d v r p z o due x s t) h id e q = rw s (
      restated w.store j id f e (state_of v) p (filed h j f p).keyed
        (rw (open_disputed h j f d p z o) (settling-Later v)) q)
  Moves-Remains (cancelling j f p c g s t) h id e q =
      rw s (restated w.store j id f e refunded p (filed h j f p).keyed (rw c tt) q)

module _ {L : Type 0} {tok : Tokens L} {holding : Address → Address → L → ℤ} {self : Address} where
  Step-Remains :
      {w w' : State L}
      → Progress tok holding self w w'
      → IsWellFormed w.store
      → (id : ℕ) (e : Escrow) → w.store.escrows id ≡ some e
      → Remains w'.store id e
  Step-Remains (stays x) h id e p = rw x (e, p, Becomes-refl e)
  Step-Remains (moves env at unsigned m) h id e p = Moves-Remains m h id e p
  Step-Remains (outside l more x) h id e p = rw x (e, p, Becomes-refl e)

  -- From well-formed storage on, whatever is invoked, an escrow that was created keeps its parties,
  -- asset and amount, and its state only moves along the diagram `Later`: in particular one that was
  -- released or refunded stays so.
  pub Reach-Remains :
      {w w' : State L}
      → Reach tok holding self w w'
      → IsWellFormed w.store
      → (id : ℕ) (e : Escrow) → w.store.escrows id ≡ some e
      → Remains w'.store id e
  Reach-Remains here h id e p = (e, p, Becomes-refl e)
  Reach-Remains (Calls.next r s) h id e p =
      let (f, q, b) = Reach-Remains r h id e p in
      let (g, q', b') = Step-Remains (Step-Progress s) (Reach-IsWellFormed r h) id f q in
      (g, q', Becomes-trans e f g b b')
