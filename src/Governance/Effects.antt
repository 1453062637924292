-- ===== src/Governance/Effects.antt =====
-- What a step of `Machine` means for the proposals, their count, the signers and the mark of
-- initialization.
use swaptrade_contract.Prelude.{ℕ, ◌+◌, ◌≡◌, refl, true, false, some, [], ◌∷◌, ◌++◌}
use swaptrade_contract.Prelude.Maps.{set}
use swaptrade_contract.Host.{Address, Env, ok}
use swaptrade_contract.Governance.Types.{
  Proposal, ProposalAction, upgrade, add_signer, remove_signer, set_threshold, set_timelock_delay,
}
use swaptrade_contract.Governance.Signers.{contains, without_first, is_empty, is_empty-contains}
use swaptrade_contract.Governance.Storage.{
  Store, load_signers, load_initialized, load_proposal_count,
}
use swaptrade_contract.Governance.Calls.{State, Call, perform}
use swaptrade_contract.Governance.Machine.{
  Changes, initializing, proposing, approving, withdrawing, idling, executing, canceling,
  scheduling, upgrading, pausing, unpausing, applied, proposed,
}
use swaptrade_contract.Governance.Changes.{governance_call-Changes}

-- What may happen to a proposal that is not executed yet.
pub data Rewrites (p : Proposal) : Proposal → Type 0 where
  signed :
      (a : Address)
      → contains p.signatures a ≡ false
      → p.canceled ≡ false
      → Rewrites p (record p { signatures = p.signatures ++ a ∷ [] })
  withdrawn : (a : Address) → Rewrites p (record p { signatures = without_first p.signatures a })
  settled : p.canceled ≡ false → Rewrites p (record p { executed = true })
  dropped : Rewrites p (record p { canceled = true })

pub data Effects (s s' : Store) : Type 0 where
  -- The proposals and the signers are left alone.
  quiet :
      s'.proposals ≡ s.proposals
      → s'.proposal_count ≡ s.proposal_count
      → s'.initialized ≡ s.initialized
      → s'.signers ≡ s.signers
      → Effects s s'
  -- The contract is initialized.
  starting :
      load_initialized s ≡ false
      → s'.proposals ≡ s.proposals
      → s'.initialized ≡ some true
      → Effects s s'
  -- A new proposal, with no signature.
  adding :
      (p : Proposal)
      → is_empty (load_signers s) ≡ false
      → p.id ≡ load_proposal_count s
      → p.signatures ≡ []
      → s'.proposals ≡ set s.proposals p.id p
      → s'.proposal_count ≡ some (p.id + 1)
      → s'.initialized ≡ s.initialized
      → Effects s s'
  -- One proposal is written anew.
  rewriting :
      (id : ℕ) (p p' : Proposal)
      → s.proposals id ≡ some p
      → p.executed ≡ false
      → Rewrites p p'
      → s'.proposals ≡ set s.proposals id p'
      → s'.proposal_count ≡ s.proposal_count
      → s'.initialized ≡ s.initialized
      → Effects s s'

applied_proposals :
    (a : ProposalAction) (s : Store)
    → ((applied a s).proposals ≡ s.proposals)
      × ((applied a s).proposal_count ≡ s.proposal_count)
      × ((applied a s).initialized ≡ s.initialized)
applied_proposals ProposalAction.pause s = (refl, refl, refl)
applied_proposals ProposalAction.unpause s = (refl, refl, refl)
applied_proposals (upgrade a) s = (refl, refl, refl)
applied_proposals (add_signer a) s = (refl, refl, refl)
applied_proposals (remove_signer a) s = (refl, refl, refl)
applied_proposals (set_threshold n) s = (refl, refl, refl)
applied_proposals (set_timelock_delay n) s = (refl, refl, refl)

pub Changes-Effects : {env : Env} {s s' : Store} → Changes env s s' → Effects s s'
Changes-Effects (initializing admin signers threshold delay implementation a i l h e) =
    starting i (rw e refl) (rw e refl)
Changes-Effects {env} {s} (proposing proposer action a c e) =
    adding (proposed env proposer action s) (is_empty-contains (load_signers s) proposer c) refl
      refl (rw e refl) (rw e refl) (rw e refl)
Changes-Effects (approving signer id p a m f x c n e) =
    rewriting id p (record p { signatures = p.signatures ++ signer ∷ [] }) f x (signed signer n c)
      (rw e refl) (rw e refl) (rw e refl)
Changes-Effects (withdrawing signer id p a f x c e) =
    rewriting id p (record p { signatures = without_first p.signatures signer }) f x
      (withdrawn signer) (rw e refl) (rw e refl) (rw e refl)
Changes-Effects (idling signer id p a f x c e) =
    quiet (rw e refl) (rw e refl) (rw e refl) (rw e refl)
Changes-Effects {s = s} (executing executor id p a f x c t k m e) =
    let (ps, n, i) = applied_proposals p.action s in
    rewriting id p (record p { executed = true }) f x (settled c) (rw (e, ps) refl) (rw (e, n) refl)
      (rw (e, i) refl)
Changes-Effects (canceling id p a f x e) =
    rewriting id p (record p { canceled = true }) f x dropped (rw e refl) (rw e refl) (rw e refl)
Changes-Effects (scheduling old new p i n e) = quiet (rw e refl) (rw e refl) (rw e refl) (rw e refl)
Changes-Effects (upgrading old new u i e) = quiet (rw e refl) (rw e refl) (rw e refl) (rw e refl)
Changes-Effects (pausing p e) = quiet (rw e refl) (rw e refl) (rw e refl) (rw e refl)
Changes-Effects (unpausing p e) = quiet (rw e refl) (rw e refl) (rw e refl) (rw e refl)

module _ {L : Type 0} (env : Env) (w : State L) where
  pub governance_call-Effects :
      (c : Call) → (perform env c w).0 ≡ ok tt → Effects w.store (perform env c w).1.store
  governance_call-Effects c h = Changes-Effects (governance_call-Changes env w c h)
