-- ===== src/Governance/Outcomes.antt =====
-- `execute`, `cancel` and the upgrades of swaptrade-contracts/governance/src.
use swaptrade_contract.Prelude.{
  ℕ, ◌≡◌, ◌≢◌, ◌≤◌, inl, inr, true, false, some, length, arith, Option-cases,
}
use swaptrade_contract.Host.{Address, Env, ok, err}
use swaptrade_contract.Governance.Types.{Proposal, proposal_already_executed, proposal_not_found}
use swaptrade_contract.Governance.Signers.{Distinct}
use swaptrade_contract.Governance.Storage.{load_paused}
use swaptrade_contract.Governance.Controller
use swaptrade_contract.Governance.Proxy
use swaptrade_contract.Governance.Calls.{State, Reach}
use swaptrade_contract.Governance.Changes.{execute-Changes, cancel-Changes}
use swaptrade_contract.Governance.Effects.{Changes-Effects}
use swaptrade_contract.Governance.Sound.{IsSound, Effects-IsSound}
use swaptrade_contract.Governance.Closed.{Reach-Kept}

module _ {L : Type 0} (env : Env) (id : ℕ) (w : State L) where
  -- Where `execute` returns `Ok` on well-formed storage, the proposal was there, neither executed nor canceled,
  -- its time had come, and at least as many different addresses as its threshold says had signed it; it is
  -- stored as executed then.
  pub execute_checks :
      (executor : Address)
      → IsSound w.store
      → (Controller.execute env executor id w).0 ≡ ok tt
      → (p : Proposal) × (w.store.proposals id ≡ some p)
        × (p.executed ≡ false)
        × (p.canceled ≡ false)
        × (p.execute_after ≤ env.now)
        × (p.threshold ≤ length p.signatures)
        × Distinct p.signatures
        × ((Controller.execute env executor id w).1.store.proposals id
            ≡ some (record p { executed = true }))
  unfolding Controller.execute
  execute_checks executor s h = elim (Option-cases (w.store.proposals id)) [
    | inl n ↦ absurd (ground arith)
    | inr (p, e) ↦ (
      p,
      e,
      ground arith,
      ground arith,
      ground arith,
      ground arith,
      (rw e at (s.filed id)).2,
      ground arith,
    )
  ]

  cancel_marks :
      (caller : Address)
      → (Controller.cancel env caller id w).0 ≡ ok tt
      → (p : Proposal) × ((Controller.cancel env caller id w).1.store.proposals id
          ≡ some (record p { canceled = true }))
        × (p.executed ≡ false)
  unfolding Controller.cancel
  cancel_marks caller h = elim (Option-cases (w.store.proposals id)) [
    | inl n ↦ absurd (ground arith)
    | inr (p, e) ↦ (p, ground arith, ground arith)
  ]

  refused_executed :
      (executor : Address) (p : Proposal)
      → w.store.proposals id ≡ some p
      → p.executed ≡ true
      → env.signed executor ≡ true
      → Controller.execute env executor id w ≡ (err proposal_already_executed, w)
  unfolding Controller.execute
  refused_executed executor p e x s = ground arith

  refused_canceled :
      (caller : Address) (p : Proposal)
      → w.store.proposals id ≡ some p
      → p.executed ≡ false
      → p.canceled ≡ true
      → env.signed caller ≡ true
      → (Controller.execute env caller id w ≡ (err proposal_not_found, w))
        × (Controller.approve env caller id w ≡ (err proposal_not_found, w))
  unfolding Controller.execute Controller.approve
  refused_canceled caller p e x c s = (ground arith, ground arith)

module _ {L : Type 0} (env env' : Env) (id : ℕ) (caller caller' : Address) (w w' : State L)
    (s : IsSound w.store) (u : env'.signed caller' ≡ true) where
  -- A proposal is executed at most once: after an execution on well-formed storage that returned `Ok`,
  -- whatever is invoked in between, another one that its executor has signed is refused because the
  -- proposal is executed already, and changes nothing.
  pub execute_once :
      (Controller.execute env caller id w).0 ≡ ok tt
      → Reach (Controller.execute env caller id w).1 w'
      → Controller.execute env' caller' id w' ≡ (err proposal_already_executed, w')
  execute_once h r =
      let (p, e, x, c, t, n, d, f) = execute_checks env id w caller s h in
      let (q, g, k) =
        Reach-Kept r (Effects-IsSound s (Changes-Effects (execute-Changes env w caller id h))) id
          (record p { executed = true }) f in
      refused_executed env' id w' caller' q g (ground (arith, k.final)) u

  -- A cancellation is final: after a `cancel` on well-formed storage that returned `Ok`, whatever is
  -- invoked in between, a signed `execute` or `approve` of the proposal is refused and changes nothing.
  pub cancel_final :
      (Controller.cancel env caller id w).0 ≡ ok tt
      → Reach (Controller.cancel env caller id w).1 w'
      → (Controller.execute env' caller' id w' ≡ (err proposal_not_found, w'))
        × (Controller.approve env' caller' id w' ≡ (err proposal_not_found, w'))
  cancel_final h r =
      let (p, f, x) = cancel_marks env id w caller h in
      let (q, g, k) =
        Reach-Kept r (Effects-IsSound s (Changes-Effects (cancel-Changes env w caller id h))) id
          (record p { canceled = true }) f in
      refused_canceled env' id w' caller' q g (ground (arith, k.canceled))
        (ground (arith, k.canceled)) u

module _ {L : Type 0} (env : Env) (w : State L) where
  -- Whoever invokes `schedule_upgrade` and then `execute_upgrade`, having signed nothing, replaces the
  -- implementation of a contract that is not paused by any other address, in one ledger and with no proposal.
  pub unsigned_upgrade :
      (old new : Address)
      → load_paused w.store ≡ false
      → w.store.implementation ≡ some old
      → old ≢ new
      → let (r, w1) = Proxy.schedule_upgrade new w in
        let (r', w2) = Proxy.execute_scheduled_upgrade env w1 in
        (r ≡ ok tt)
        × (r' ≡ ok new)
        × (w2.store.implementation ≡ some new)
        × (w2.store.proposals ≡ w.store.proposals)
  unfolding Proxy.schedule_upgrade Proxy.execute_scheduled_upgrade
  unsigned_upgrade old new p i n = (ground arith, ground arith, ground arith, ground arith)
