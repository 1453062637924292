-- ===== src/Governance/Thresholds.antt =====
-- What an executed `SetThreshold` means for the proposals after it: swaptrade-contracts/governance/src.
use swaptrade_contract.Prelude.{ℕ, ◌+◌, ◌<◌, ◌≤◌, ◌≡◌, refl, true, false, some, [], arith}
use swaptrade_contract.Prelude.Maps.{set_self}
use swaptrade_contract.Host.{Address, Env, u64_max, ok, saturating_add, publish, ◌>>◌}
use swaptrade_contract.Governance.Types.{
  Proposal, ProposalAction, upgrade, add_signer, remove_signer, set_threshold, set_timelock_delay,
  Event, proposal_executed,
}
use swaptrade_contract.Governance.Signers.{contains, is_empty-contains}
use swaptrade_contract.Governance.Storage.{
  Store, load_signers, load_proposal_count, load_nonce, load_timelock_delay,
}
use swaptrade_contract.Governance.Controller
use swaptrade_contract.Governance.Calls.{State}
use swaptrade_contract.Governance.Machine.{applied, IsAppliable, proposed, filing}

-- Only the implementation is looked at.
IsAppliable-of :
    (s s' : Store) (a : ProposalAction)
    → s'.implementation ≡ s.implementation
    → IsAppliable a s
    → IsAppliable a s'
IsAppliable-of s s' ProposalAction.pause e m = tt
IsAppliable-of s s' ProposalAction.unpause e m = tt
IsAppliable-of s s' (upgrade a) e (old, k) = (old, rw e k)
IsAppliable-of s s' (add_signer a) e m = tt
IsAppliable-of s s' (remove_signer a) e m = tt
IsAppliable-of s s' (set_threshold n) e m = tt
IsAppliable-of s s' (set_timelock_delay n) e m = tt

module _ {L : Type 0} where
  -- The actions do not fail, but for an upgrade that replaces nothing.
  applied_ok :
      (env : Env) (executor : Address) (id : ℕ) (p : Proposal) (ev : Event) (a : ProposalAction)
      (w : State L)
      → IsAppliable a w.store
      → let (r, w') =
          (Controller.apply env executor id a >> (Controller.put_proposal id p >> publish ev)) w in
        (r ≡ ok tt) × (w'.store ≡ filing id p (applied a w.store))
  applied_ok env executor id p ev ProposalAction.pause w m = (refl, refl)
  applied_ok env executor id p ev ProposalAction.unpause w m = (refl, refl)
  applied_ok env executor id p ev (upgrade new) w (old, e) = (ground arith, ground arith)
  applied_ok env executor id p ev (add_signer a) w m = (ground arith, ground arith)
  applied_ok env executor id p ev (remove_signer a) w m = (ground arith, ground arith)
  applied_ok env executor id p ev (set_threshold n) w m = (refl, refl)
  applied_ok env executor id p ev (set_timelock_delay n) w m = (refl, refl)

  -- With a threshold of 0 a proposal needs no signature.
  execute_unsigned :
      (env : Env) (executor : Address) (id : ℕ) (p : Proposal) (w : State L)
      → w.store.proposals id ≡ some p
      → p.executed ≡ false
      → p.canceled ≡ false
      → p.threshold ≡ 0
      → p.execute_after ≤ env.now
      → env.signed executor ≡ true
      → IsAppliable p.action w.store
      → let (r, w') = Controller.execute env executor id w in
        (r ≡ ok tt)
        × (w'.store ≡ filing id (record p { executed = true }) (applied p.action w.store))
  unfolding Controller.execute
  execute_unsigned env executor id p w e x c z t s m =
      let run =
        Controller.apply env executor id p.action
        >> (Controller.put_proposal id (record p { executed = true })
            >> publish (proposal_executed env id executor)) in
      let same : Controller.execute env executor id w ≡ run w = ground arith in
      rw same (
        applied_ok env executor id (record p { executed = true })
          (proposal_executed env id executor) p.action w m)

  execute_lowers :
      (env : Env) (executor : Address) (id : ℕ) (p : Proposal) (w : State L)
      → w.store.proposals id ≡ some p
      → p.action ≡ set_threshold 0
      → (Controller.execute env executor id w).0 ≡ ok tt
      → (Controller.execute env executor id w).1.store
        ≡ filing id (record p { executed = true }) (record w.store { threshold = some 0 })
  unfolding Controller.execute
  execute_lowers env executor id p w e a h = ground arith

  propose_files :
      (env : Env) (proposer : Address) (action : ProposalAction) (w : State L)
      → env.signed proposer ≡ true
      → contains (load_signers w.store) proposer ≡ true
      → load_nonce w.store < u64_max
      → load_proposal_count w.store < u64_max
      → let (r, w') = Controller.propose env proposer action w in
        (r ≡ ok (load_proposal_count w.store))
        × (w'.store
            ≡ filing
                (load_proposal_count w.store)
                (proposed env proposer action w.store)
                (record w.store {
                  nonce = some (load_nonce w.store + 1);
                  proposal_count = some (load_proposal_count w.store + 1);
                }))
  unfolding Controller.propose
  propose_files env proposer action w s c n k =
      let some_signer = is_empty-contains (load_signers w.store) proposer c in
      (ground arith, ground arith)

  -- Once a proposal to set the threshold to 0 is executed, one signer is enough for every action: what it
  -- proposes next, anyone executes after the delay, with no signature on the proposal (if the counters do not
  -- overflow, and an upgrade has an implementation to replace).
  pub zero_threshold_passes :
      (env env1 env2 : Env) (executor proposer executor' : Address) (id : ℕ) (p : Proposal)
      (action : ProposalAction) (w : State L)
      → w.store.proposals id ≡ some p
      → p.action ≡ set_threshold 0
      → (Controller.execute env executor id w).0 ≡ ok tt
      → env1.signed proposer ≡ true
      → contains (load_signers w.store) proposer ≡ true
      → load_nonce w.store < u64_max
      → load_proposal_count w.store < u64_max
      → saturating_add env1.now (load_timelock_delay w.store) ≤ env2.now
      → env2.signed executor' ≡ true
      → IsAppliable action w.store
      → let w1 = (Controller.execute env executor id w).1 in
        let (r, w2) = Controller.propose env1 proposer action w1 in
        let (r', w3) = Controller.execute env2 executor' (load_proposal_count w.store) w2 in
        (r ≡ ok (load_proposal_count w.store))
        × (r' ≡ ok tt)
        × ((q : Proposal) × (q.action ≡ action)
            × (q.signatures ≡ [])
            × (w3.store ≡ filing (load_proposal_count w.store) q (applied action w2.store)))
  zero_threshold_passes env env1 env2 executor proposer executor' id p action w e a h s c n k t s'
        m =
      let w1 = (Controller.execute env executor id w).1 in
      let w2 = (Controller.propose env1 proposer action w1).1 in
      let count = load_proposal_count w.store in
      let x = execute_lowers env executor id p w e a h in
      let s1 = filing id (record p { executed = true }) (record w.store { threshold = some 0 }) in
      let new = proposed env1 proposer action s1 in
      let (r, y) = propose_files env1 proposer action w1 s (rw x c) (rw x n) (rw x k) in
      let found : w2.store.proposals count ≡ some new =
        rw y (rw x (set_self s1.proposals count new)) in
      let here = IsAppliable-of w.store w2.store action (rw y (rw x refl)) m in
      let (r', z) = execute_unsigned env2 executor' count new w2 found refl refl refl t s' here in
      (rw x at r, r', (record new { executed = true }, refl, refl, z))
