-- ===== src/Escrow/Custody.antt =====
-- What the contract holds of each asset, against the escrows that are funded and not yet settled.
use swaptrade_contract.Prelude.{
  ℕ, ◌+◌, ◌≡◌, ◌≢◌, ◌<◌, refl, subst, Bool, true, false, Option, none, some, ◌==◌, if◌then◌else◌,
  arith,
}
use swaptrade_contract.Prelude.Int.{ℤ, pos, pos_part, ◌≤ℤ◌, int_laws}
use swaptrade_contract.Prelude.Maps.{set, every-set}
use swaptrade_contract.Prelude.Sums.{total, total-set, total-set_next}
use swaptrade_contract.Host.{Address, Env}
use swaptrade_contract.Host.Tokens.{Tokens, IsToken, holding_received, holding_paid}
use swaptrade_contract.Escrow.Types.{Escrow, EscrowState, created, escrowed, disputed, refunded}
use swaptrade_contract.Escrow.Storage.{Store, next, save_escrow}
use swaptrade_contract.Escrow.Calls.{State, Call, perform, Step, invoked, elsewhere, Reach, here}
use swaptrade_contract.Escrow.Calls
use swaptrade_contract.Escrow.Moves.{
  Moves, Verdict, release, refund, expire, state_of, payee, configuring, opening, funding,
  disputing, arguing, voting, settling, cancelling,
}
use swaptrade_contract.Escrow.Refinement.{Progress, stays, moves, outside, Step-Progress}
use swaptrade_contract.Escrow.WellFormed.{IsWellFormed, filed, own_id, open_disputed, below_next}
use swaptrade_contract.Escrow.Preserved.{Moves-IsWellFormed}

-- The states in which the contract keeps the buyer's deposit.
abbrev pub keeps : EscrowState → Bool
keeps escrowed = true
keeps disputed = true
keeps _ = false

-- What an entry of the escrow map is owed of an asset.
abbrev pub owed : Address → Option Escrow → ℕ
owed asset none = 0
owed asset (some e) =
    if keeps e.state then (if e.asset == asset then pos_part e.amount else 0) else 0

-- The sum of what all escrows are owed of an asset.
abbrev pub liabilities : Store → Address → ℕ
liabilities s asset = total (owed asset) (next s) s.escrows

-- The contract itself is no party of an escrow: it signs nothing.
abbrev pub Outsiders : Address → Option Escrow → Type 0
Outsiders self none = Unit
Outsiders self (some e) = (e.seller ≢ self) × (keeps e.state ≡ true → e.buyer ≢ self)

module _ {L : Type 0} (holding : Address → Address → L → ℤ) (self : Address) where
  pub record IsSolvent (w : State L) : Type 0 where
    pub well_formed : IsWellFormed w.store
    pub outsiders : (id : ℕ) → Outsiders self (w.store.escrows id)
    pub covered : (asset : Address) → pos (liabilities w.store asset) ≤ℤ holding asset self w.tokens

-- How the liabilities change when the escrow under an id in use is written anew.
liabilities-put :
    (s : Store) (e e' : Escrow) (id : ℕ) (asset : Address)
    → s.escrows id ≡ some e
    → id < next s
    → total (owed asset) (next s) (set s.escrows id e') + owed asset (some e)
      ≡ liabilities s asset + owed asset (some e')
liabilities-put s e e' id asset p b =
    subst
      (λ o.
        total (owed asset) (next s) (set s.escrows id e') + owed asset o
        ≡ liabilities s asset + owed asset (some e'))
      p (total-set (owed asset) (next s) id e' s.escrows b)

-- A new escrow, not yet funded, is owed nothing.
liabilities-open :
    (s : Store) (e : Escrow) (asset : Address)
    → e.id ≡ next s
    → e.state ≡ created
    → liabilities (save_escrow e (record s { next_id = some (e.id + 1) })) asset
      ≡ liabilities s asset
liabilities-open s e asset k c = ground (arith, total-set_next (owed asset) e.id e s.escrows)

-- Whoever is paid when a dispute ends is not the contract.
pub payee_outside :
    (v : Verdict) (self : Address) (e : Escrow)
    → Outsiders self (some e)
    → e.state ≡ disputed
    → payee v e ≢ self
payee_outside release self e o c = o.0
payee_outside refund self e o c = o.1 (rw c)
payee_outside expire self e o c = o.1 (rw c)

settled_owed :
    (v : Verdict) (e : Escrow) (asset : Address)
    → owed asset (some (record e { state = state_of v })) ≡ 0
settled_owed release e asset = refl
settled_owed refund e asset = refl
settled_owed expire e asset = refl

module _ {L : Type 0} {tok : Tokens L} {holding : Address → Address → L → ℤ}
    (law : IsToken tok holding) {self : Address} {env : Env} (at : env.contract ≡ self)
    (unsigned : env.signed self ≡ false) {w w' : State L} (h : IsSolvent holding self w) where
  Moves-covered :
      Moves tok env w w'
      → (asset : Address) → pos (liabilities w'.store asset) ≤ℤ holding asset self w'.tokens
  Moves-covered (configuring e d v o n t) asset = rw (e, n, t) (h.covered asset)
  Moves-covered (opening e k c a p g f s t) asset =
      rw (s, t) (rw (liabilities-open w.store e asset k c) (h.covered asset))
  Moves-covered (funding id e r p c g x s t) asset =
      let q = own_id h.well_formed id e p in
      let e' : Escrow = record e { state = escrowed } in
      rw (s, t, at)
        (grind (
          int_laws,
          liabilities-put w.store e e' e.id asset q (below_next h.well_formed e.id e q),
          h.covered asset,
          holding_received law self e.asset e.buyer e.amount w.tokens r (λ z. cc) (rw at at x)
              asset,
          (filed h.well_formed id e p).positive,
        ))
  Moves-covered (disputing id e d p c g1 g2 k o u s t) asset =
      let q = own_id h.well_formed id e p in
      let e' : Escrow = record e { state = disputed } in
      rw (s, t)
        (ground (
          arith,
          liabilities-put w.store e e' e.id asset q (below_next h.well_formed e.id e q),
          h.covered asset,
        ))
  Moves-covered (arguing id e d v p q o g s t) asset = rw (s, t) (h.covered asset)
  Moves-covered (voting id d v p o g g2 n s t) asset = rw (s, t) (h.covered asset)
  Moves-covered (settling id e d v r p q o due x s t) asset =
      let k = own_id h.well_formed id e p in
      let c = open_disputed h.well_formed id e d p q o in
      let e' : Escrow = record e { state = state_of v } in
      let ne = payee_outside v self e (rw p at (h.outsiders id)) c in
      rw (s, t, at)
        (grind (
          int_laws,
          liabilities-put w.store e e' e.id asset k (below_next h.well_formed e.id e k),
          settled_owed v e asset,
          h.covered asset,
          holding_paid law self e.asset (payee v e) e.amount w.tokens r ne (rw at at x) asset,
          (filed h.well_formed id e p).positive,
        ))
  Moves-covered (cancelling id e p c g s t) asset =
      let q = own_id h.well_formed id e p in
      let e' : Escrow = record e { state = refunded } in
      rw (s, t)
        (ground (
          arith,
          liabilities-put w.store e e' e.id asset q (below_next h.well_formed e.id e q),
          h.covered asset,
        ))

  Moves-Outsiders : Moves tok env w w' → (id : ℕ) → Outsiders self (w'.store.escrows id)
  Moves-Outsiders (configuring e d v o n t) = rw e h.outsiders
  Moves-Outsiders (opening e k c a p g f s t) =
      rw s (every-set (λ i. Outsiders self) e.id e h.outsiders (λ z. cc, λ z. ground arith))
  Moves-Outsiders (funding id e r p c g x s t) = rw s (
      every-set (λ i. Outsiders self) e.id (record e { state = escrowed }) h.outsiders
        ((rw p at (h.outsiders id)).0, λ z z'. cc))
  Moves-Outsiders (disputing id e d p c g1 g2 k o u s t) =
      let q = rw p at (h.outsiders id) in
      rw s (
        every-set (λ i. Outsiders self) e.id (record e { state = disputed }) h.outsiders
          (q.0, λ z. q.1 (rw c)))
  Moves-Outsiders (arguing id e d v p q o g s t) = rw s h.outsiders
  Moves-Outsiders (voting id d v p o g g2 n s t) = rw s h.outsiders
  Moves-Outsiders (settling id e d v r p q o due x s t) =
      let k = rw p at (h.outsiders id) in
      rw s (
        every-set (λ i. Outsiders self) e.id (record e { state = state_of v }) h.outsiders
          (k.0, λ z. k.1 (rw (open_disputed h.well_formed id e d p q o))))
  Moves-Outsiders (cancelling id e p c g s t) = rw s (
      every-set (λ i. Outsiders self) e.id (record e { state = refunded }) h.outsiders
        ((rw p at (h.outsiders id)).0, λ z. cc))

  pub Moves-IsSolvent : Moves tok env w w' → IsSolvent holding self w'
  Moves-IsSolvent m = record {
    well_formed = Moves-IsWellFormed m h.well_formed;
    outsiders = Moves-Outsiders m;
    covered = Moves-covered m;
  }

module _ {L : Type 0} {tok : Tokens L} {holding : Address → Address → L → ℤ}
    (law : IsToken tok holding) {self : Address} where
  Step-IsSolvent :
      {w w' : State L}
      → Progress tok holding self w w'
      → IsSolvent holding self w
      → IsSolvent holding self w'
  Step-IsSolvent (stays e) h = rw e h
  Step-IsSolvent (moves env at unsigned m) h = Moves-IsSolvent law at unsigned h m
  Step-IsSolvent (outside l more e) h = rw e (record {
    well_formed = h.well_formed;
    outsiders = h.outsiders;
    covered = λ asset. omega (arith, h.covered asset, more asset);
  })

  -- Whatever is invoked, in any order and by anyone, the contract holds of every asset at least the sum of
  -- the amounts of the escrows that are funded and not settled, if it did at the start.
  pub Reach-IsSolvent :
      {w w' : State L}
      → Reach tok holding self w w'
      → IsSolvent holding self w
      → IsSolvent holding self w'
  Reach-IsSolvent here h = h
  Reach-IsSolvent (Calls.next r s) h = Step-IsSolvent (Step-Progress s) (Reach-IsSolvent r h)
