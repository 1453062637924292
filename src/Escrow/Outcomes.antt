-- ===== src/Escrow/Outcomes.antt =====
-- How disputes end: `resolve_dispute` and `auto_refund` of escrow-dispute/src/lib.rs.
use swaptrade_contract.Prelude.{
  ℕ, ◌≡◌, ◌≢◌, ◌≤◌, inl, inr, sym, true, Option, none, some, leb, if◌then◌else◌, arith,
  Option-cases,
}
use swaptrade_contract.Prelude.Int.{ℤ}
use swaptrade_contract.Host.{Address, Env, Result, ok, err, u64_max}
use swaptrade_contract.Host.Tokens.{Tokens, IsToken, IsPayment, transfer-IsPayment}
use swaptrade_contract.Escrow
use swaptrade_contract.Escrow.Types.{
  Escrow, Dispute, EscrowError, escrowed, opened, transfer_failed, insufficient_signatures,
  refunded,
}
use swaptrade_contract.Escrow.Storage.{
  Store, is_signer, load_threshold, count_release_votes, count_refund_votes,
}
use swaptrade_contract.Escrow.Calls.{State}
use swaptrade_contract.Escrow.Moves.{Verdict, release, refund, expire, status_of, state_of, payee}
use swaptrade_contract.Escrow.Custody.{IsSolvent, payee_outside}
use swaptrade_contract.Escrow.WellFormed.{IsWellFormed, filed, about, open_disputed}

-- What the votes on a dispute say: release if the release votes reach the threshold, else refund if
-- the refund votes do.
abbrev pub verdict : ℕ → Store → Option Verdict
verdict id s =
    if leb (load_threshold s) (count_release_votes id s)
    then some release
    else if leb (load_threshold s) (count_refund_votes id s)
    then some refund
    else none

-- The answer of a call that hangs on one transfer.
abbrev pub paid : Option ℤ → Result EscrowError (Unit {0})
paid (some r) = ok tt
paid none = err transfer_failed

module _ {L : Type 0} (tok : Tokens L) (env : Env) (id : ℕ) (w : State L) (e : Escrow) (d : Dispute)
    (p : w.store.escrows id ≡ some e) (q : w.store.disputes id ≡ some d)
    (o : d.status ≡ opened) where
  -- The answer that a verdict gives.
  abbrev pub answer : Option Verdict → Result EscrowError (Unit {0})
  answer none = err insufficient_signatures
  answer (some v) = paid (tok.transfer e.asset env.contract (payee v e) e.amount w.tokens).0

  -- A registered signer who resolves an open dispute, before or after its deadline, gets the answer of the
  -- votes: an error if neither side has reached the threshold, else `Ok` exactly if the token contract makes
  -- the transfer to the winner. The seller wins if the release votes reach the threshold, also where the
  -- refund votes do so too and are more; the buyer wins if only the refund votes reach it.
  pub resolve_dispute-answer :
      (resolver : Address)
      → env.signed resolver ≡ true
      → is_signer resolver w.store ≡ true
      → (Escrow.resolve_dispute tok env id resolver w).0 ≡ answer (verdict id w.store)
  unfolding Escrow.resolve_dispute
  resolve_dispute-answer resolver s r = ground arith

  auto_refund_due :
      d.deadline ≤ env.now → (Escrow.auto_refund tok env id w).0 ≡ answer (some expire)
  unfolding Escrow.auto_refund
  auto_refund_due due = ground arith

module _ {L : Type 0} (tok : Tokens L) (env : Env) (id : ℕ) (w : State L) (h : IsWellFormed w.store)
    (d : Dispute) (q : w.store.disputes id ≡ some d) (o : d.status ≡ opened) where
  disputed_escrow : (e : Escrow) × (w.store.escrows id ≡ some e)
  disputed_escrow = elim (Option-cases (w.store.escrows id)) [
    | inl n ↦ absurd (rw (n, q) at (h.entries id))
    | inr (e, p) ↦ (e, p)
  ]

  -- On well-formed storage, once the deadline of an open dispute has passed, whoever invokes
  -- `auto_refund`, having signed nothing, gets the answer of the one transfer that refunds its escrow:
  -- there is such an escrow, and the call is `Ok` exactly if the token contract makes the transfer of
  -- its amount to the buyer.
  pub auto_refund_available :
      d.deadline ≤ env.now
      → (e : Escrow) × (w.store.escrows id ≡ some e)
        × ((Escrow.auto_refund tok env id w).0
            ≡ paid (tok.transfer e.asset env.contract e.buyer e.amount w.tokens).0)
  auto_refund_available due =
      let (e, p) = disputed_escrow in (e, p, auto_refund_due tok env id w e d p q o due)

-- A dispute that was resolved: what was there before, and what is there after.
module _ {L : Type 0} {tok : Tokens L} {holding : Address → Address → L → ℤ}
    (law : IsToken tok holding) (env : Env) (id : ℕ) (w : State L)
    (h : IsSolvent holding env.contract w) where
  resolved_store :
      (resolver : Address) (e : Escrow) (d : Dispute) (v : Verdict)
      → w.store.escrows id ≡ some e
      → w.store.disputes id ≡ some d
      → verdict id w.store ≡ some v
      → (Escrow.resolve_dispute tok env id resolver w).0 ≡ ok tt
      → ((Escrow.resolve_dispute tok env id resolver w).1.store.escrows id
          ≡ some (record e { state = state_of v }))
        × ((Escrow.resolve_dispute tok env id resolver w).1.store.disputes id
            ≡ some (record d { status = status_of v }))
        × ((Escrow.resolve_dispute tok env id resolver w).1.tokens
            ≡ (tok.transfer e.asset env.contract (payee v e) e.amount w.tokens).1)
        × ((tok.transfer e.asset env.contract (payee v e) e.amount w.tokens).0 ≢ none)
        × (d.status ≡ opened)
        × (is_signer resolver w.store ≡ true)
  unfolding Escrow.resolve_dispute
  resolved_store resolver e d v p q y x =
      let k = (filed h.well_formed id e p).keyed in
      let k' = (about h.well_formed id e d p q).keyed in
      (
        ground (arith, k),
        ground (arith, k'),
        ground arith,
        ground arith,
        ground arith,
        ground arith,
      )

  resolve_found :
      (resolver : Address)
      → (Escrow.resolve_dispute tok env id resolver w).0 ≡ ok tt
      → (e : Escrow) × (d : Dispute) × (v : Verdict) × (w.store.escrows id ≡ some e)
        × (w.store.disputes id ≡ some d)
        × (verdict id w.store ≡ some v)
  unfolding Escrow.resolve_dispute
  resolve_found resolver x = elim (Option-cases (w.store.disputes id)) [
    | inl q ↦ absurd (ground arith)
    | inr (d, q) ↦ elim (Option-cases (w.store.escrows id)) [
      | inl p ↦ absurd (ground arith)
      | inr (e, p) ↦ elim (Option-cases (verdict id w.store)) [
        | inl y ↦ absurd (ground arith)
        | inr (v, y) ↦ (e, d, v, p, q, y)
      ]
    ]
  ]

  -- Where `resolve_dispute` returns `Ok`, the resolver is a registered signer, the votes gave a verdict, the
  -- escrow and its dispute have the states of that verdict, and the amount of the escrow went from the contract
  -- to the winner, to nobody else, and of no other asset.
  pub resolve_dispute_pays :
      (resolver : Address)
      → (Escrow.resolve_dispute tok env id resolver w).0 ≡ ok tt
      → (e : Escrow) × (d : Dispute) × (v : Verdict) × (w.store.escrows id ≡ some e)
        × (w.store.disputes id ≡ some d)
        × (is_signer resolver w.store ≡ true)
        × (verdict id w.store ≡ some v)
        × ((Escrow.resolve_dispute tok env id resolver w).1.store.escrows id
            ≡ some (record e { state = state_of v }))
        × ((Escrow.resolve_dispute tok env id resolver w).1.store.disputes id
            ≡ some (record d { status = status_of v }))
        × IsPayment holding e.asset env.contract
            (payee v e)
            e.amount
            w.tokens
            (Escrow.resolve_dispute tok env id resolver w).1.tokens
  resolve_dispute_pays resolver x =
      let (e, d, v, p, q, y) = resolve_found resolver x in
      let (pe, pd, pt, n, o, g) = resolved_store resolver e d v p q y x in
      let outside =
        payee_outside v env.contract e (rw p at (h.outsiders id))
          (open_disputed h.well_formed id e d p q o) in
      (e, d, v, p, q, g, y, pe, pd, rw pt (payment e v n (λ z. outside (sym z))))
    where
      payment :
          (e : Escrow) (v : Verdict)
          → (tok.transfer e.asset env.contract (payee v e) e.amount w.tokens).0 ≢ none
          → env.contract ≢ payee v e
          → IsPayment holding e.asset env.contract
              (payee v e)
              e.amount
              w.tokens
              (tok.transfer e.asset env.contract (payee v e) e.amount w.tokens).1
      payment e v n ne =
          elim (Option-cases (tok.transfer e.asset env.contract (payee v e) e.amount w.tokens).0) [
            | inl z ↦ absurd (n z)
            | inr (r, z) ↦
                transfer-IsPayment law e.asset env.contract (payee v e) e.amount w.tokens r z ne
          ]

module _ {L : Type 0} (tok : Tokens L) (env : Env) (id : ℕ) (w : State L) (h : IsWellFormed w.store)
    (e : Escrow) (p : w.store.escrows id ≡ some e) where
  -- On well-formed storage, a buyer who disputes a funded escrow with a window of 0 can have it refunded
  -- by `auto_refund` at the same time stamp, with no vote, if the token contract makes the transfer.
  pub zero_window_refund :
      e.state ≡ escrowed
      → env.signed e.buyer ≡ true
      → env.now ≤ u64_max
      → (tok.transfer e.asset env.contract e.buyer e.amount w.tokens).0 ≢ none
      → let raised = Escrow.raise_dispute env id e.buyer 0 w in
        let refunded' = Escrow.auto_refund tok env id raised.1 in
        (raised.0 ≡ ok tt)
        × (refunded'.0 ≡ ok tt)
        × (refunded'.1.tokens ≡ (tok.transfer e.asset env.contract e.buyer e.amount w.tokens).1)
        × (refunded'.1.store.escrows id ≡ some (record e { state = refunded }))
  unfolding Escrow.raise_dispute Escrow.auto_refund
  zero_window_refund c s b n =
      elim (Option-cases (tok.transfer e.asset env.contract e.buyer e.amount w.tokens).0) [
        | inl z ↦ absurd (n z)
        | inr (r, z) ↦
            let k = (filed h id e p).keyed in
            (ground arith, ground (arith, k), ground (arith, k), ground (arith, k))
      ]
