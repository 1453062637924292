-- ===== src/Governance/Sound.antt =====
-- The well-formedness of the storage of swaptrade-contracts/governance/src/storage.rs.
use swaptrade_contract.Prelude.{
  ℕ, ◌+◌, ◌≡◌, ◌<◌, ◌⊎◌, inl, inr, refl, true, Option, none, some, arith,
}
use swaptrade_contract.Prelude.Maps.{every-set}
use swaptrade_contract.Host.{invoke_cases}
use swaptrade_contract.Governance.Types.{Proposal}
use swaptrade_contract.Governance.Signers.{
  is_empty, Distinct, Distinct-push, Distinct-without_first,
}
use swaptrade_contract.Governance.Storage.{
  Store, load_signers, load_initialized, load_proposal_count,
}
use swaptrade_contract.Governance.Calls.{State, Reach, here}
use swaptrade_contract.Governance.Calls
use swaptrade_contract.Governance.Effects.{
  Effects, Rewrites, signed, withdrawn, settled, dropped, quiet, starting, adding, rewriting,
  governance_call-Effects,
}

-- A proposal has the id that it is filed under, this id has been given out, and nobody has signed it
-- twice.
abbrev pub Filed : ℕ → ℕ → Option Proposal → Type 0
Filed count id none = Unit
Filed count id (some p) = (p.id ≡ id) × (id < count) × Distinct p.signatures

-- A contract that was not initialized has no signers and no proposals.
pub record IsSound (s : Store) : Type 0 where
  pub filed : (id : ℕ) → Filed (load_proposal_count s) id (s.proposals id)
  pub blank :
      (load_initialized s ≡ true)
      ⊎ ((is_empty (load_signers s) ≡ true) × ((id : ℕ) → s.proposals id ≡ none))

Filed-suc : (count id : ℕ) (o : Option Proposal) → Filed count id o → Filed (count + 1) id o
Filed-suc count id none h = tt
Filed-suc count id (some p) h = (h.0, omega (arith, h.1), h.2)

Rewrites-Filed :
    {p p' : Proposal} (count id : ℕ)
    → Rewrites p p'
    → Filed count id (some p)
    → Filed count id (some p')
Rewrites-Filed {p} count id (signed a n c) h = (h.0, h.1, Distinct-push p.signatures a n h.2)
Rewrites-Filed {p} count id (withdrawn a) h = (h.0, h.1, Distinct-without_first p.signatures a h.2)
Rewrites-Filed count id (settled c) h = h
Rewrites-Filed count id dropped h = h

module _ {s s' : Store} (h : IsSound s) where
  Effects-Filed : Effects s s' → (id : ℕ) → Filed (load_proposal_count s') id (s'.proposals id)
  Effects-Filed (quiet p c i g) id = rw (p, c) (h.filed id)
  Effects-Filed (starting z p i) id = elim h.blank [
    | inl y ↦ absurd (ground arith)
    | inr (g, n) ↦ rw p (rw (n id) tt)
  ]
  Effects-Filed (adding p g k e ps c i) id =
      let old : (j : ℕ) → Filed (p.id + 1) j (s.proposals j) =
        λ j. rw k (Filed-suc (load_proposal_count s) j (s.proposals j) (h.filed j)) in
      rw (ps, c) (every-set (Filed (p.id + 1)) p.id p old (refl, omega arith, rw e tt) id)
  Effects-Filed (rewriting j p p' e x r ps c i) id =
      rw (ps, c)
        (every-set (Filed (load_proposal_count s)) j p' h.filed
          (Rewrites-Filed (load_proposal_count s) j r (rw e at (h.filed j))) id)

  Effects-blank :
      Effects s s'
      → (load_initialized s' ≡ true)
        ⊎ ((is_empty (load_signers s') ≡ true) × ((id : ℕ) → s'.proposals id ≡ none))
  Effects-blank (quiet p c i g) = rw (p, i, g) h.blank
  Effects-blank (starting z p i) = inl (ground arith)
  Effects-blank (adding p g k e ps c i) = elim h.blank [
    | inl y ↦ inl (ground arith)
    | inr (y, n) ↦ absurd (ground arith)
  ]
  Effects-blank (rewriting j p p' e x r ps c i) = elim h.blank [
    | inl y ↦ inl (ground arith)
    | inr (y, n) ↦ absurd (ground (arith, n j))
  ]

  pub Effects-IsSound : Effects s s' → IsSound s'
  Effects-IsSound c = record { filed = Effects-Filed c; blank = Effects-blank c }

module _ {L : Type 0} where
  -- Every sequence of invocations keeps the storage well formed: each proposal is filed under its own id, ids
  -- that have not been given out are free, nobody has signed a proposal twice, and without an initialization
  -- there are no signers and no proposals.
  pub governance-IsSound : {w w' : State L} → Reach w w' → IsSound w.store → IsSound w'.store
  governance-IsSound here h = h
  governance-IsSound (Calls.next {t} env c r) h = elim (invoke_cases (Calls.perform env c) t) [
    | inl same ↦ rw same (governance-IsSound r h)
    | inr (_, done, kept) ↦
        rw kept (Effects-IsSound (governance-IsSound r h) (governance_call-Effects env t c done))
  ]
