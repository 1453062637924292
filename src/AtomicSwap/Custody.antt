-- ===== src/AtomicSwap/Custody.antt =====
-- What the contract holds of each asset, against the deposits of the swaps that are not over.
use swaptrade_contract.Prelude.{ℕ, ◌≡◌, false, some, arith}
use swaptrade_contract.Prelude.Int.{ℤ, pos, ◌≤ℤ◌, int_laws}
use swaptrade_contract.Prelude.Maps.{every-set}
use swaptrade_contract.Host.{Address, Env}
use swaptrade_contract.Host.Tokens.{Tokens, IsToken, holding_received}
use swaptrade_contract.AtomicSwap.Types.{Swap, accepted, cancelled}
use swaptrade_contract.AtomicSwap.Calls
use swaptrade_contract.AtomicSwap.Calls.{State, Reach, here}
use swaptrade_contract.AtomicSwap.Moves.{
  Moves, side_a, side_b, deposited, closed, paid_out, returned, configuring, opening, depositing,
  accepting, cancelling, refunding,
}
use swaptrade_contract.AtomicSwap.Refinement.{Progress, stays, moves, outside, Step-Progress}
use swaptrade_contract.AtomicSwap.WellFormed.{
  IsWellFormed, filed, own_id, below_next, Moves-IsWellFormed,
}
use swaptrade_contract.AtomicSwap.Liabilities.{
  liabilities, Outsiders, liabilities-put, liabilities-open, owed-deposited, not_self,
  holding-paid_out, holding-returned,
}

module _ {L : Type 0} (holding : Address → Address → L → ℤ) (self : Address) where
  pub record IsSolvent (w : State L) : Type 0 where
    pub well_formed : IsWellFormed w.store
    pub outsiders : (id : ℕ) → Outsiders self (w.store.swaps id)
    pub covered : (a : Address) → pos (liabilities w.store a) ≤ℤ holding a self w.tokens

module _ {L : Type 0} {tok : Tokens L} {holding : Address → Address → L → ℤ}
    (law : IsToken tok holding) {self : Address} {env : Env} (at : env.contract ≡ self)
    (unsigned : env.signed self ≡ false) {w w' : State L} (h : IsSolvent holding self w) where
  Moves-covered :
      Moves tok env w w' → (a : Address) → pos (liabilities w'.store a) ≤ℤ holding a self w'.tokens
  Moves-covered (configuring e o n t) a = rw (e, n, t) (h.covered a)
  Moves-covered (opening s k c fa fb a1 b1 x y z g n e t) a =
      rw (e, t) (rw (liabilities-open w.store s a k fa fb) (h.covered a))
  Moves-covered (depositing id s side_a r p c f g y e t) a =
      let q = own_id h.well_formed id s p in
      rw (e, t, at)
        (grind (
          int_laws,
          liabilities-put w.store s (deposited side_a s) s.id a q (below_next h.well_formed id s p),
          owed-deposited side_a s a c f,
          h.covered a,
          holding_received law self s.asset_a s.creator s.amount_a w.tokens r
              (not_self self env s.creator unsigned g) (rw at at y) a,
          (filed h.well_formed id s p).positive_a,
        ))
  Moves-covered (depositing id s side_b r p c f g y e t) a =
      let q = own_id h.well_formed id s p in
      rw (e, t, at)
        (grind (
          int_laws,
          liabilities-put w.store s (deposited side_b s) s.id a q (below_next h.well_formed id s p),
          owed-deposited side_b s a c f,
          h.covered a,
          holding_received law self s.asset_b s.counterparty s.amount_b w.tokens r
              (not_self self env s.counterparty unsigned g) (rw at at y) a,
          (filed h.well_formed id s p).positive_b,
        ))
  Moves-covered (accepting id s p l fa fb x g ra rb e t) a =
      let q = own_id h.well_formed id s p in
      let f = filed h.well_formed id s p in
      let o : Outsiders self (some s) = rw p at (h.outsiders id) in
      let l1 = paid_out tok side_a s self s.counterparty w.tokens in
      rw (e, t, at)
        (grind (
          int_laws,
          liabilities-put w.store s (record s { state = accepted }) s.id a q
              (below_next h.well_formed id s p),
          h.covered a,
          holding-paid_out law self s a w.tokens l side_a s.counterparty (o.1 fb) f.positive_a
              (rw at at ra) fa,
          holding-paid_out law self s a l1 l side_b s.creator o.0 f.positive_b (rw at at rb) fb,
        ))
  Moves-covered (cancelling id s p c fa fb g e t) a =
      let q = own_id h.well_formed id s p in
      let s' : Swap = record s { state = cancelled } in
      rw (e, t)
        (ground (
          arith,
          liabilities-put w.store s s' s.id a q (below_next h.well_formed id s p),
          h.covered a,
        ))
  Moves-covered (refunding id s p l x g ra rb e t) a =
      let q = own_id h.well_formed id s p in
      let f = filed h.well_formed id s p in
      let o : Outsiders self (some s) = rw p at (h.outsiders id) in
      let l1 = returned tok side_a s self w.tokens in
      rw (e, t, at)
        (grind (
          int_laws,
          liabilities-put w.store s (closed s) s.id a q (below_next h.well_formed id s p),
          h.covered a,
          holding-returned law self s a w.tokens l side_a (λ z. o.0) f.positive_a (rw at at ra),
          holding-returned law self s a l1 l side_b o.1 f.positive_b (rw at at rb),
        ))

  Moves-Outsiders : Moves tok env w w' → (id : ℕ) → Outsiders self (w'.store.swaps id)
  Moves-Outsiders (configuring e o n t) = rw e h.outsiders
  Moves-Outsiders (opening s k c fa fb a1 b1 x y z g n e t) = rw e (
      every-set (λ i. Outsiders self) s.id s h.outsiders
        (not_self self env s.creator unsigned g, λ z. cc))
  Moves-Outsiders (depositing id s side_a r p c f g y e t) =
      let o : Outsiders self (some s) = rw p at (h.outsiders id) in
      rw e (every-set (λ i. Outsiders self) s.id (deposited side_a s) h.outsiders o)
  Moves-Outsiders (depositing id s side_b r p c f g y e t) =
      let o : Outsiders self (some s) = rw p at (h.outsiders id) in
      rw e (
        every-set (λ i. Outsiders self) s.id (deposited side_b s) h.outsiders
          (o.0, λ z. not_self self env s.counterparty unsigned g))
  Moves-Outsiders (accepting id s p l fa fb x g ra rb e t) =
      let o : Outsiders self (some s) = rw p at (h.outsiders id) in
      rw e (every-set (λ i. Outsiders self) s.id (record s { state = accepted }) h.outsiders o)
  Moves-Outsiders (cancelling id s p c fa fb g e t) =
      let o : Outsiders self (some s) = rw p at (h.outsiders id) in
      rw e (every-set (λ i. Outsiders self) s.id (record s { state = cancelled }) h.outsiders o)
  Moves-Outsiders (refunding id s p l x g ra rb e t) =
      let o : Outsiders self (some s) = rw p at (h.outsiders id) in
      rw e (every-set (λ i. Outsiders self) s.id (closed s) h.outsiders (o.0, λ z. cc))

  Moves-IsSolvent : Moves tok env w w' → IsSolvent holding self w'
  Moves-IsSolvent m = record {
    well_formed = Moves-IsWellFormed m h.well_formed;
    outsiders = Moves-Outsiders m;
    covered = Moves-covered m;
  }

module _ {L : Type 0} {tok : Tokens L} {holding : Address → Address → L → ℤ}
    (law : IsToken tok holding) {self : Address} where
  Step-IsSolvent :
      {w w' : State L}
      → Progress tok holding self w w'
      → IsSolvent holding self w
      → IsSolvent holding self w'
  Step-IsSolvent (stays e) h = rw e h
  Step-IsSolvent (moves env at unsigned m) h = Moves-IsSolvent law at unsigned h m
  Step-IsSolvent (outside l more e) h = rw e (record {
    well_formed = h.well_formed;
    outsiders = h.outsiders;
    covered = λ a. omega (arith, h.covered a, more a);
  })

  -- Whatever is invoked, in any order and by anyone, the contract holds of every asset at least the sum of
  -- the deposits that swaps have of it and that were neither swapped nor refunded, if it did at the start.
  pub swaps-IsSolvent :
      {w w' : State L}
      → Reach tok holding self w w'
      → IsSolvent holding self w
      → IsSolvent holding self w'
  swaps-IsSolvent here h = h
  swaps-IsSolvent (Calls.next r s) h = Step-IsSolvent (Step-Progress s) (swaps-IsSolvent r h)
