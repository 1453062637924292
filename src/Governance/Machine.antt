-- ===== src/Governance/Machine.antt =====
-- The governance contract as an abstract machine on its storage: for each kind of step, who has to have
-- authorized it, which conditions hold before it, and everything that it writes.
use swaptrade_contract.Prelude.{
  ℕ, ◌+◌, ◌≤◌, ◌≡◌, ◌≢◌, true, false, none, some, [], ◌∷◌, ◌++◌, List, length, if◌then◌else◌,
}
use swaptrade_contract.Prelude.Maps.{set}
use swaptrade_contract.Host.{Address, Env, saturating_add}
use swaptrade_contract.Governance.Types.{
  Proposal, ProposalAction, upgrade, add_signer, remove_signer, set_threshold, set_timelock_delay,
}
use swaptrade_contract.Governance.Signers.{contains, without_first}
use swaptrade_contract.Governance.Storage.{
  Store, load_signers, load_initialized, load_proposal_count, load_nonce, load_threshold,
  load_timelock_delay, load_paused,
}

-- The storage after an action was executed.
abbrev pub applied : ProposalAction → Store → Store
applied ProposalAction.pause s = record s { paused = some true }
applied ProposalAction.unpause s = record s { paused = some false }
applied (upgrade a) s = record s { implementation = some a; upgrade_scheduled = none }
applied (add_signer a) s = record s {
  signers = if contains (load_signers s) a then s.signers else some (load_signers s ++ a ∷ []);
}
applied (remove_signer a) s = record s {
  signers =
      if contains (load_signers s) a then some (without_first (load_signers s) a) else s.signers;
}
applied (set_threshold n) s = record s { threshold = some n }
applied (set_timelock_delay n) s = record s { timelock_delay = some n }

-- An upgrade needs an implementation that it replaces.
abbrev pub IsAppliable : ProposalAction → Store → Type 0
IsAppliable ProposalAction.pause s = Unit
IsAppliable ProposalAction.unpause s = Unit
IsAppliable (upgrade a) s = (old : Address) × (s.implementation ≡ some old)
IsAppliable (add_signer a) s = Unit
IsAppliable (remove_signer a) s = Unit
IsAppliable (set_threshold n) s = Unit
IsAppliable (set_timelock_delay n) s = Unit

-- A new proposal.
abbrev pub proposed : Env → Address → ProposalAction → Store → Proposal
proposed env proposer action s = record {
  id = load_proposal_count s;
  proposer = proposer;
  action = action;
  signatures = [];
  threshold = load_threshold s;
  created_at = env.now;
  execute_after = saturating_add env.now (load_timelock_delay s);
  executed = false;
  canceled = false;
  nonce = load_nonce s + 1;
}

-- One proposal is written.
abbrev pub filing : ℕ → Proposal → Store → Store
filing id p s = record s { proposals = set s.proposals id p }

pub data Changes (env : Env) (s s' : Store) : Type 0 where
  initializing :
      (admin : Address) (signers : List Address) (threshold delay : ℕ) (implementation : Address)
      → env.signed admin ≡ true
      → load_initialized s ≡ false
      → 1 ≤ threshold
      → threshold ≤ length signers
      → s' ≡ record s {
        signers = some signers;
        threshold = some threshold;
        timelock_delay = some delay;
        initialized = some true;
        paused = some false;
        proposal_count = some 0;
        nonce = some 0;
        implementation = some implementation;
      }
      → Changes env s s'
  proposing :
      (proposer : Address) (action : ProposalAction)
      → env.signed proposer ≡ true
      → contains (load_signers s) proposer ≡ true
      → s'
        ≡ filing (load_proposal_count s) (proposed env proposer action s) (record s {
          nonce = some (load_nonce s + 1);
          proposal_count = some (load_proposal_count s + 1);
        })
      → Changes env s s'
  approving :
      (signer : Address) (id : ℕ) (p : Proposal)
      → env.signed signer ≡ true
      → contains (load_signers s) signer ≡ true
      → s.proposals id ≡ some p
      → p.executed ≡ false
      → p.canceled ≡ false
      → contains p.signatures signer ≡ false
      → s' ≡ filing id (record p { signatures = p.signatures ++ signer ∷ [] }) s
      → Changes env s s'
  withdrawing :
      (signer : Address) (id : ℕ) (p : Proposal)
      → env.signed signer ≡ true
      → s.proposals id ≡ some p
      → p.executed ≡ false
      → contains p.signatures signer ≡ true
      → s' ≡ filing id (record p { signatures = without_first p.signatures signer }) s
      → Changes env s s'
  -- There is no signature to withdraw.
  idling :
      (signer : Address) (id : ℕ) (p : Proposal)
      → env.signed signer ≡ true
      → s.proposals id ≡ some p
      → p.executed ≡ false
      → contains p.signatures signer ≡ false
      → s' ≡ s
      → Changes env s s'
  executing :
      (executor : Address) (id : ℕ) (p : Proposal)
      → env.signed executor ≡ true
      → s.proposals id ≡ some p
      → p.executed ≡ false
      → p.canceled ≡ false
      → p.execute_after ≤ env.now
      → p.threshold ≤ length p.signatures
      → IsAppliable p.action s
      → s' ≡ filing id (record p { executed = true }) (applied p.action s)
      → Changes env s s'
  canceling :
      (id : ℕ) (p : Proposal)
      → env.signed p.proposer ≡ true
      → s.proposals id ≡ some p
      → p.executed ≡ false
      → s' ≡ filing id (record p { canceled = true }) s
      → Changes env s s'
  scheduling :
      (old new : Address)
      → load_paused s ≡ false
      → s.implementation ≡ some old
      → old ≢ new
      → s' ≡ record s { upgrade_scheduled = some new }
      → Changes env s s'
  upgrading :
      (old new : Address)
      → s.upgrade_scheduled ≡ some new
      → s.implementation ≡ some old
      → s' ≡ record s { implementation = some new; upgrade_scheduled = none; paused = some false }
      → Changes env s s'
  pausing : load_paused s ≡ false → s' ≡ record s { paused = some true } → Changes env s s'
  unpausing : load_paused s ≡ true → s' ≡ record s { paused = some false } → Changes env s s'
