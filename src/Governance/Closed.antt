-- ===== src/Governance/Closed.antt =====
-- What becomes of one proposal over time.
use swaptrade_contract.Prelude.{
  ℕ, ◌≡◌, ◌≢◌, ◌<◌, ◌⊎◌, inl, inr, refl, true, false, some, arith, subst,
}
use native.Mathlib.Decide.{ℕ_discrete}
use swaptrade_contract.Prelude.Maps.{set_ne}
use swaptrade_contract.Host.{invoke_cases}
use swaptrade_contract.Governance.Types.{Proposal}
use swaptrade_contract.Governance.Storage.{Store, load_proposal_count}
use swaptrade_contract.Governance.Calls.{State, Reach, here}
use swaptrade_contract.Governance.Calls
use swaptrade_contract.Governance.Effects.{
  Effects, Rewrites, signed, withdrawn, settled, dropped, quiet, starting, adding, rewriting,
  governance_call-Effects,
}
use swaptrade_contract.Governance.Sound.{IsSound, governance-IsSound}

-- Only the signatures and the two marks change; an executed proposal does not change at all, and a
-- canceled one stays canceled and is not executed.
pub record Keeps (p p' : Proposal) : Type 0 where
  pub terms :
      p' ≡ record p { signatures = p'.signatures; executed = p'.executed; canceled = p'.canceled }
  pub final : (p.executed ≡ false) ⊎ (p' ≡ p)
  pub canceled : (p.canceled ≡ false) ⊎ ((p'.canceled ≡ true) × (p'.executed ≡ p.executed))

Keeps-refl : (p : Proposal) → Keeps p p
Keeps-refl p = record { terms = refl; final = inr refl; canceled = ground arith }

Keeps-trans : (p q r : Proposal) → Keeps p q → Keeps q r → Keeps p r
Keeps-trans p q r a b = record {
  terms = ground (arith, a.terms, b.terms);
  final = ground (arith, a.final, b.final);
  canceled = ground (arith, a.canceled, b.canceled);
}

Rewrites-Keeps : (p p' : Proposal) → p.executed ≡ false → Rewrites p p' → Keeps p p'
Rewrites-Keeps p p' x (signed a n c) = record { terms = refl; final = inl x; canceled = inl c }
Rewrites-Keeps p p' x (withdrawn a) = record {
  terms = refl;
  final = inl x;
  canceled = ground arith;
}
Rewrites-Keeps p p' x (settled c) = record { terms = refl; final = inl x; canceled = inl c }
Rewrites-Keeps p p' x dropped = record { terms = refl; final = inl x; canceled = ground arith }

abbrev pub Kept : Store → ℕ → Proposal → Type 0
Kept s id p = (p' : Proposal) × (s.proposals id ≡ some p') × Keeps p p'

module _ {s s' : Store} (h : IsSound s) (id : ℕ) (p : Proposal) (e : s.proposals id ≡ some p) where
  Effects-Kept : Effects s s' → Kept s' id p
  Effects-Kept (quiet q c i g) = (p, rw q e, Keeps-refl p)
  Effects-Kept (starting z q i) = (p, rw q e, Keeps-refl p)
  Effects-Kept (adding q g k x ps c i) =
      let b : id < load_proposal_count s = (rw e at (h.filed id)).1 in
      let n : q.id ≢ id = λ z. omega (arith, b, z, k) in
      (p, rw ps (rw (set_ne s.proposals q.id id q n) e), Keeps-refl p)
  Effects-Kept (rewriting j q q' f x r ps c i) = elim (ℕ_discrete j id) [
    | yes y ↦
        let same : q ≡ p = ground (arith, subst (λ i. s.proposals i ≡ some q) y f) in
        (q', rw ps (ground arith), subst (λ z. Keeps z q') same (Rewrites-Keeps q q' x r))
    | no n ↦ (p, rw ps (rw (set_ne s.proposals j id q' n) e), Keeps-refl p)
  ]

module _ {L : Type 0} where
  -- From well-formed storage on, whatever is invoked, a proposal keeps its terms (id, proposer, action,
  -- threshold, time of execution, nonce); once it is executed nothing of it changes, and once it is
  -- canceled it stays so and is not executed.
  pub Reach-Kept :
      {w w' : State L}
      → Reach w w'
      → IsSound w.store
      → (id : ℕ) (p : Proposal) → w.store.proposals id ≡ some p
      → Kept w'.store id p
  Reach-Kept here h id p e = (p, e, Keeps-refl p)
  Reach-Kept (Calls.next {t} env c r) h id p e =
      let (q, f, k) = Reach-Kept r h id p e in
      elim (invoke_cases (Calls.perform env c) t) [
        | inl same ↦ (q, rw same f, k)
        | inr (_, done, kept) ↦
            let (q', f', k') =
              Effects-Kept (governance-IsSound r h) id q f (governance_call-Effects env t c done) in
            (q', rw kept f', Keeps-trans p q q' k k')
      ]
