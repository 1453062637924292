-- ===== src/Governance/Controller.antt =====
-- Proposals: swaptrade-contracts/governance/src/governance_controller.rs.
use swaptrade_contract.Prelude.{
  ℕ, ◌+◌, Bool, true, false, not, none, [], ◌∷◌, ◌++◌, length, ltb, ◌==◌, if◌then◌else◌,
}
use swaptrade_contract.Prelude.Maps.{set}
use swaptrade_contract.Host.{
  Address, Env, u64_max, saturating_add, require_auth, raise_if, or_raise, trap_if, gets, modify,
  publish, pure, ◌>>=◌, ◌>>◌,
}
use swaptrade_contract.Governance.Types.{
  Proposal, ProposalAction, upgrade, add_signer, remove_signer, set_threshold, set_timelock_delay,
  action_symbol, proposal_created, proposal_signed, proposal_executed, proposal_canceled, paused,
  unpaused, upgraded, signer_added, signer_removed, threshold_updated, not_signer, not_proposer,
  insufficient_signatures, proposal_not_found, proposal_already_executed, already_signed,
  timelock_not_elapsed, empty_signers,
}
use swaptrade_contract.Governance.Signers.{contains, without_first, is_empty}
use swaptrade_contract.Governance.Storage.{
  Op, load_signers, load_threshold, load_timelock_delay, load_proposals, load_proposal_count,
  load_nonce, load_implementation, store_signers, store_threshold, store_paused,
  store_timelock_delay, store_implementation, store_proposals, store_proposal_count, store_nonce,
  store_upgrade_scheduled,
}

module _ {L : Type 0} where
  -- `load_proposals(env).get(proposal_id).ok_or(ProposalNotFound)?`
  abbrev pub get_proposal : ℕ → Op L Proposal
  get_proposal proposal_id = do
    proposals ← gets load_proposals
    or_raise (proposals proposal_id) proposal_not_found

  -- `proposals.set(proposal_id, proposal); store_proposals(env, &proposals)`
  abbrev pub put_proposal : ℕ → Proposal → Op L (Unit {0})
  put_proposal proposal_id proposal =
      modify (λ s. store_proposals (set (load_proposals s) proposal_id proposal) s)

  unfoldable pub is_signer : Address → Op L Bool
  unfolding contains
  is_signer address = do signers ← gets load_signers; pure (contains signers address)

  unfoldable pub propose : Env → Address → ProposalAction → Op L ℕ
  unfolding saturating_add contains
  propose env proposer action = do
    require_auth env proposer
    signers ← gets load_signers
    raise_if (is_empty signers) empty_signers
    raise_if (not (contains signers proposer)) not_signer
    last ← gets load_nonce
    trap_if (ltb u64_max (last + 1))
    modify (store_nonce (last + 1))
    proposal_id ← gets load_proposal_count
    threshold ← gets load_threshold
    timelock_delay ← gets load_timelock_delay
    let proposal : Proposal = record {
      id = proposal_id;
      proposer = proposer;
      action = action;
      signatures = [];
      threshold = threshold;
      created_at = env.now;
      execute_after = saturating_add env.now timelock_delay;
      executed = false;
      canceled = false;
      nonce = last + 1;
    }
    put_proposal proposal_id proposal
    trap_if (ltb u64_max (proposal_id + 1))
    modify (store_proposal_count (proposal_id + 1))
    publish (proposal_created env proposal_id proposer (action_symbol action))
    pure proposal_id

  unfoldable pub approve : Env → Address → ℕ → Op L (Unit {0})
  unfolding contains
  approve env signer proposal_id = do
    require_auth env signer
    proposal ← get_proposal proposal_id
    raise_if proposal.executed proposal_already_executed
    raise_if proposal.canceled proposal_not_found
    signers ← gets load_signers
    raise_if (not (contains signers signer)) not_signer
    raise_if (contains proposal.signatures signer) already_signed
    let proposal' : Proposal = record proposal { signatures = proposal.signatures ++ signer ∷ [] }
    put_proposal proposal_id proposal'
    publish (proposal_signed env proposal_id signer (length proposal'.signatures))

  -- Without a signature of the signer nothing is stored.
  unfoldable pub revoke : Env → Address → ℕ → Op L (Unit {0})
  unfolding contains without_first
  revoke env signer proposal_id = do
    require_auth env signer
    proposal ← get_proposal proposal_id
    raise_if proposal.executed proposal_already_executed
    if contains proposal.signatures signer
        then put_proposal proposal_id
            (record proposal { signatures = without_first proposal.signatures signer })
        else pure tt

  -- The `match` of `execute`.
  abbrev pub apply : Env → Address → ℕ → ProposalAction → Op L (Unit {0})
  apply env executor proposal_id ProposalAction.pause = do
    modify (store_paused true)
    publish (paused env executor)
  apply env executor proposal_id ProposalAction.unpause = do
    modify (store_paused false)
    publish (unpaused env executor)
  apply env executor proposal_id (upgrade new_impl) = do
    old_impl ← load_implementation
    modify (store_implementation new_impl)
    modify (store_upgrade_scheduled none)
    publish (upgraded env proposal_id old_impl new_impl)
  apply env executor proposal_id (add_signer signer) = do
    signers ← gets load_signers
    if contains signers signer then pure tt else modify (store_signers (signers ++ signer ∷ []))
    publish (signer_added env signer)
  apply env executor proposal_id (remove_signer signer) = do
    signers ← gets load_signers
    if contains signers signer
        then modify (store_signers (without_first signers signer))
        else pure tt
    publish (signer_removed env signer)
  apply env executor proposal_id (set_threshold new_threshold) = do
    old ← gets load_threshold
    modify (store_threshold new_threshold)
    publish (threshold_updated env old new_threshold)
  apply env executor proposal_id (set_timelock_delay new_delay) =
      modify (store_timelock_delay new_delay)

  unfoldable pub execute : Env → Address → ℕ → Op L (Unit {0})
  unfolding contains without_first
  execute env executor proposal_id = do
    require_auth env executor
    proposal ← get_proposal proposal_id
    raise_if proposal.executed proposal_already_executed
    raise_if proposal.canceled proposal_not_found
    raise_if (ltb env.now proposal.execute_after) timelock_not_elapsed
    raise_if (ltb (length proposal.signatures) proposal.threshold) insufficient_signatures
    apply env executor proposal_id proposal.action
    put_proposal proposal_id (record proposal { executed = true })
    publish (proposal_executed env proposal_id executor)

  unfoldable pub cancel : Env → Address → ℕ → Op L (Unit {0})
  cancel env caller proposal_id = do
    require_auth env caller
    proposal ← get_proposal proposal_id
    raise_if proposal.executed proposal_already_executed
    raise_if (not (proposal.proposer == caller)) not_proposer
    put_proposal proposal_id (record proposal { canceled = true })
    publish (proposal_canceled env proposal_id caller)
