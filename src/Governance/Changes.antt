-- ===== src/Governance/Changes.antt =====
-- What a call that returns `Ok` does to the storage: a step of `Machine`.
use swaptrade_contract.Prelude.{ℕ, ◌≡◌, refl, true, arith, inl, inr, Option-cases, Bool-cases, List}
use swaptrade_contract.Host.{Address, Env, ok, pure, publish, ◌>>◌}
use swaptrade_contract.Governance
use swaptrade_contract.Governance.Types.{
  Proposal, ProposalAction, upgrade, add_signer, remove_signer, set_threshold, set_timelock_delay,
  Event, proposal_executed,
}
use swaptrade_contract.Governance.Signers.{contains}
use swaptrade_contract.Governance.Controller
use swaptrade_contract.Governance.Proxy
use swaptrade_contract.Governance.Calls.{State, Call, perform}
use swaptrade_contract.Governance.Machine.{
  Changes, initializing, proposing, approving, withdrawing, idling, executing, canceling,
  scheduling, upgrading, pausing, unpausing, applied, IsAppliable, filing,
}

module _ {L : Type 0} (env : Env) (w : State L) where
  initialize-Changes :
      (admin : Address) (signers : List Address) (threshold delay : ℕ) (implementation : Address)
      → (Governance.initialize env admin signers threshold delay implementation w).0 ≡ ok tt
      → Changes env w.store
          (Governance.initialize env admin signers threshold delay implementation w).1.store
  unfolding Governance.initialize
  initialize-Changes admin signers threshold delay implementation h =
      initializing admin signers threshold delay implementation (ground arith) (ground arith)
        (ground arith) (ground arith) (ground arith)

  propose-Changes :
      (proposer : Address) (action : ProposalAction)
      → ((Controller.propose env proposer action >> pure tt) w).0 ≡ ok tt
      → Changes env w.store ((Controller.propose env proposer action >> pure tt) w).1.store
  unfolding Controller.propose
  propose-Changes proposer action h =
      proposing proposer action (ground arith) (ground arith) (ground arith)

  approve-Changes :
      (signer : Address) (id : ℕ)
      → (Controller.approve env signer id w).0 ≡ ok tt
      → Changes env w.store (Controller.approve env signer id w).1.store
  unfolding Controller.approve
  approve-Changes signer id h = elim (Option-cases (w.store.proposals id)) [
    | inl n ↦ absurd (ground arith)
    | inr (p, e) ↦
        approving signer id p (ground arith) (ground arith) e (ground arith) (ground arith)
          (ground arith) (ground arith)
  ]

  revoke-Changes :
      (signer : Address) (id : ℕ)
      → (Controller.revoke env signer id w).0 ≡ ok tt
      → Changes env w.store (Controller.revoke env signer id w).1.store
  unfolding Controller.revoke
  revoke-Changes signer id h = elim (Option-cases (w.store.proposals id)) [
    | inl n ↦ absurd (ground arith)
    | inr (p, e) ↦ elim (Bool-cases (contains p.signatures signer)) [
      | inl c ↦ withdrawing signer id p (ground arith) e (ground arith) c (ground arith)
      | inr c ↦ idling signer id p (ground arith) e (ground arith) c (ground arith)
    ]
  ]

  -- What `execute` does once its checks are made.
  applied-filing :
      (executor : Address) (id : ℕ) (p : Proposal) (ev : Event) (a : ProposalAction)
      → let run =
          Controller.apply env executor id a >> (Controller.put_proposal id p >> publish ev) in
        (run w).0 ≡ ok tt
        → IsAppliable a w.store × ((run w).1.store ≡ filing id p (applied a w.store))
  applied-filing executor id p ev ProposalAction.pause h = (tt, refl)
  applied-filing executor id p ev ProposalAction.unpause h = (tt, refl)
  applied-filing executor id p ev (upgrade new) h = elim (Option-cases w.store.implementation) [
    | inl n ↦ absurd (ground arith)
    | inr (old, e) ↦ ((old, e), ground arith)
  ]
  applied-filing executor id p ev (add_signer a) h = (tt, ground arith)
  applied-filing executor id p ev (remove_signer a) h = (tt, ground arith)
  applied-filing executor id p ev (set_threshold n) h = (tt, refl)
  applied-filing executor id p ev (set_timelock_delay n) h = (tt, refl)

  pub execute-Changes :
      (executor : Address) (id : ℕ)
      → (Controller.execute env executor id w).0 ≡ ok tt
      → Changes env w.store (Controller.execute env executor id w).1.store
  unfolding Controller.execute
  execute-Changes executor id h = elim (Option-cases (w.store.proposals id)) [
    | inl n ↦ absurd (ground arith)
    | inr (p, e) ↦
        let run =
          Controller.apply env executor id p.action
          >> (Controller.put_proposal id (record p { executed = true })
              >> publish (proposal_executed env id executor)) in
        let same : Controller.execute env executor id w ≡ run w = ground arith in
        let (a, q) =
          applied-filing executor id (record p { executed = true })
            (proposal_executed env id executor) p.action (rw same at h) in
        executing executor id p (ground arith) e (ground arith) (ground arith) (ground arith)
          (ground arith) a (rw same q)
  ]

  pub cancel-Changes :
      (caller : Address) (id : ℕ)
      → (Controller.cancel env caller id w).0 ≡ ok tt
      → Changes env w.store (Controller.cancel env caller id w).1.store
  unfolding Controller.cancel
  cancel-Changes caller id h = elim (Option-cases (w.store.proposals id)) [
    | inl n ↦ absurd (ground arith)
    | inr (p, e) ↦ canceling id p (ground arith) e (ground arith) (ground arith)
  ]

  schedule_upgrade-Changes :
      (new : Address)
      → (Proxy.schedule_upgrade new w).0 ≡ ok tt
      → Changes env w.store (Proxy.schedule_upgrade new w).1.store
  unfolding Proxy.schedule_upgrade
  schedule_upgrade-Changes new h = elim (Option-cases w.store.implementation) [
    | inl n ↦ absurd (ground arith)
    | inr (old, e) ↦ scheduling old new (ground arith) e (λ z. absurd (ground arith)) (ground arith)
  ]

  execute_upgrade-Changes :
      ((Proxy.execute_scheduled_upgrade env >> pure tt) w).0 ≡ ok tt
      → Changes env w.store ((Proxy.execute_scheduled_upgrade env >> pure tt) w).1.store
  unfolding Proxy.execute_scheduled_upgrade
  execute_upgrade-Changes h = elim (Option-cases w.store.upgrade_scheduled) [
    | inl n ↦ absurd (ground arith)
    | inr (new, e) ↦ elim (Option-cases w.store.implementation) [
      | inl n ↦ absurd (ground arith)
      | inr (old, k) ↦ upgrading old new e k (ground arith)
    ]
  ]

  -- Every entry point of the governance contract that returns `Ok` makes one step of the machine `Changes`,
  -- each kind of which has its authorization and its guards (an execution: a proposal neither executed nor
  -- canceled, whose time has come and which as many have signed as its threshold says) and all that it writes.
  pub governance_call-Changes :
      (c : Call) → (perform env c w).0 ≡ ok tt → Changes env w.store (perform env c w).1.store
  unfolding perform Proxy.pause Proxy.unpause
  governance_call-Changes (Call.initialize admin signers threshold delay implementation) h =
      initialize-Changes admin signers threshold delay implementation h
  governance_call-Changes (Call.propose proposer action) h = propose-Changes proposer action h
  governance_call-Changes (Call.approve signer id) h = approve-Changes signer id h
  governance_call-Changes (Call.revoke signer id) h = revoke-Changes signer id h
  governance_call-Changes (Call.execute executor id) h = execute-Changes executor id h
  governance_call-Changes (Call.cancel caller id) h = cancel-Changes caller id h
  governance_call-Changes (Call.schedule_upgrade new) h = schedule_upgrade-Changes new h
  governance_call-Changes Call.execute_upgrade h = execute_upgrade-Changes h
  governance_call-Changes Call.pause h = pausing (ground arith) (ground arith)
  governance_call-Changes Call.unpause h = unpausing (ground arith) (ground arith)
