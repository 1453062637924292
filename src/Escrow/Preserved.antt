-- ===== src/Escrow/Preserved.antt =====
-- The well-formedness of the escrow storage over time.
use swaptrade_contract.Prelude.{
  ℕ, ◌+◌, ◌≡◌, ◌≢◌, ◌⊎◌, inl, refl, sym, ◌∙◌, subst, Option, none, some, arith,
}
use swaptrade_contract.Prelude.Int.{ℤ, pos, ◌≤ℤ◌}
use swaptrade_contract.Prelude.Maps.{set, every-set_left}
use swaptrade_contract.Host.{Address, Env}
use swaptrade_contract.Host.Tokens.{Tokens}
use swaptrade_contract.Escrow.Types.{
  Escrow, Dispute, DisputeEvidence, EscrowState, created, escrowed, disputed, refunded, opened,
}
use swaptrade_contract.Escrow.Storage.{
  Store, next, save_escrow, update_escrow, save_dispute, update_dispute, append_evidence,
}
use swaptrade_contract.Escrow.Calls.{State, Call, perform, Step, invoked, elsewhere, Reach, here}
use swaptrade_contract.Escrow.Calls
use swaptrade_contract.Escrow.Moves.{
  Moves, Verdict, release, refund, expire, status_of, state_of, configuring, opening, funding,
  disputing, arguing, voting, settling, cancelling,
}
use swaptrade_contract.Escrow.Refinement.{Progress, stays, moves, outside, Step-Progress}
use swaptrade_contract.Escrow.WellFormed.{
  Undisputed, Agrees, Entry, IsWellFormed, below_next, filed, own_id, about, put_escrow,
  put_dispute, put_both, undisputed,
}

-- A new escrow under the next id.
open_IsWellFormed :
    {s : Store} (e : Escrow)
    → IsWellFormed s
    → e.id ≡ next s
    → e.state ≡ created
    → pos 1 ≤ℤ e.amount
    → e.seller ≢ e.buyer
    → IsWellFormed (save_escrow e (record s { next_id = some (e.id + 1) }))
open_IsWellFormed {s} e h k c a p = record {
  positive = omega arith;
  fresh = λ id l. ground (arith, h.fresh id, h.positive);
  entries =
      every-set_left Entry e.id e h.entries
        (entry (s.disputes e.id) (rw (h.fresh e.id (omega arith)) at (h.entries e.id)));
}
  where
    state : Undisputed e.state
    state = rw c tt

    entry : (o : Option Dispute) → Entry e.id none o → Entry e.id (some e) o
    entry none n = (record { keyed = refl; positive = a; parties = p }, state)
    entry (some d) n = absurd n

module _ {s : Store} (h : IsWellFormed s) (id : ℕ) (e : Escrow) where
  -- An escrow with no dispute moves to another state that needs none.
  restate :
      (st : EscrowState)
      → s.escrows id ≡ some e
      → (e.state ≡ created) ⊎ (e.state ≡ escrowed)
      → Undisputed st
      → IsWellFormed (update_escrow (record e { state = st }) s)
  restate st p c u =
      let f = filed h id e p in
      let k = own_id h id e p in
      put_escrow h e.id (record e { state = st }) (below_next h e.id e k)
        (rw (undisputed h e.id e k c)
          (record { keyed = refl; positive = f.positive; parties = f.parties }, u))

  dispute_IsWellFormed :
      (d : Dispute)
      → s.escrows id ≡ some e
      → e.state ≡ escrowed
      → d.escrow_id ≡ id
      → d.status ≡ opened
      → d.vote_count ≡ 0
      → IsWellFormed (save_dispute d (update_escrow (record e { state = disputed }) s))
  dispute_IsWellFormed d p c k o u =
      let f = filed h id e p in
      let r = own_id h id e p in
      let same : d.escrow_id ≡ e.id = k ∙ sym f.keyed in
      subst
        (λ i. IsWellFormed (record s {
          escrows = set s.escrows e.id (record e { state = disputed });
          disputes = set s.disputes i d;
        }))
        (sym same)
        (put_both h e.id (record e { state = disputed }) d (below_next h e.id e r)
          (
            record { keyed = refl; positive = f.positive; parties = f.parties },
            record { keyed = same; uncounted = u; agrees = rw o tt },
          ))

  argue_IsWellFormed :
      (d : Dispute) (v : DisputeEvidence)
      → s.escrows id ≡ some e
      → s.disputes id ≡ some d
      → IsWellFormed (
          append_evidence id v
            (update_dispute (record d { evidence_count = d.evidence_count + 1 }) s))
  argue_IsWellFormed d v p q =
      let a = about h id e d p q in
      let d' : Dispute = record d { evidence_count = d.evidence_count + 1 } in
      let n : Entry id (some e) (some d') =
        (filed h id e p, record { keyed = a.keyed; uncounted = a.uncounted; agrees = a.agrees }) in
      let g =
        subst (λ i. IsWellFormed (record s { disputes = set s.disputes i d' })) (sym a.keyed)
          (put_dispute h id d' (rw p n)) in
      record { positive = g.positive; fresh = g.fresh; entries = g.entries }

  settle_IsWellFormed :
      (d : Dispute) (v : Verdict)
      → s.escrows id ≡ some e
      → s.disputes id ≡ some d
      → IsWellFormed (
          update_dispute
            (record d { status = status_of v })
            (update_escrow (record e { state = state_of v }) s))
  settle_IsWellFormed d v p q =
      let f = filed h id e p in
      let a = about h id e d p q in
      let e' : Escrow = record e { state = state_of v } in
      let d' : Dispute = record d { status = status_of v } in
      let r = own_id h id e p in
      let same : d.escrow_id ≡ e.id = a.keyed ∙ sym f.keyed in
      subst
        (λ i.
          IsWellFormed
            (record s { escrows = set s.escrows e.id e'; disputes = set s.disputes i d' }))
        (sym same)
        (put_both h e.id e' d' (below_next h e.id e r) (
          record { keyed = refl; positive = f.positive; parties = f.parties },
          record { keyed = same; uncounted = a.uncounted; agrees = agree v },
        ))
    where
      agree : (v : Verdict) → Agrees (status_of v) (state_of v)
      agree release = tt
      agree refund = tt
      agree expire = tt

module _ {L : Type 0} {tok : Tokens L} {env : Env} {w w' : State L} where
  -- Every step of the abstract machine keeps the storage well formed.
  pub Moves-IsWellFormed : Moves tok env w w' → IsWellFormed w.store → IsWellFormed w'.store
  Moves-IsWellFormed (configuring e d v o n t) h = record {
    positive = rw n h.positive;
    fresh = rw (n, e) h.fresh;
    entries = rw (e, d) h.entries;
  }
  Moves-IsWellFormed (opening e k c a p g f s t) h = rw s (open_IsWellFormed e h k c a p)
  Moves-IsWellFormed (funding id e r p c g x s t) h = rw s (restate h id e escrowed p (inl c) tt)
  Moves-IsWellFormed (disputing id e d p c g1 g2 k o u s t) h =
      rw s (dispute_IsWellFormed h id e d p c k o u)
  Moves-IsWellFormed (arguing id e d v p q o g s t) h = rw s (argue_IsWellFormed h id e d v p q)
  Moves-IsWellFormed (voting id d v p o g g2 n s t) h =
      rw s (record { positive = h.positive; fresh = h.fresh; entries = h.entries })
  Moves-IsWellFormed (settling id e d v r p q o due x s t) h =
      rw s (settle_IsWellFormed h id e d v p q)
  Moves-IsWellFormed (cancelling id e p c g s t) h = rw s (restate h id e refunded p (inl c) tt)

-- So does every step of the contract or of the tokens, and every sequence of them.
module _ {L : Type 0} {tok : Tokens L} {holding : Address → Address → L → ℤ} {self : Address} where
  Step-IsWellFormed :
      {w w' : State L}
      → Progress tok holding self w w'
      → IsWellFormed w.store
      → IsWellFormed w'.store
  Step-IsWellFormed (stays e) h = rw e h
  Step-IsWellFormed (moves env at unsigned m) h = Moves-IsWellFormed m h
  Step-IsWellFormed (outside l more e) h = rw e h

  -- From a storage that is well formed, as the empty one of a new contract is, every sequence of
  -- invocations, in any order and by anyone, leads to one that is well formed.
  pub Reach-IsWellFormed :
      {w w' : State L} → Reach tok holding self w w' → IsWellFormed w.store → IsWellFormed w'.store
  Reach-IsWellFormed here h = h
  Reach-IsWellFormed (Calls.next r s) h =
      Step-IsWellFormed (Step-Progress s) (Reach-IsWellFormed r h)
