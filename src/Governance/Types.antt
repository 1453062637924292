-- ===== src/Governance/Types.antt =====
-- The data of the governance contract: swaptrade-contracts/governance/src/storage.rs (types),
-- errors.rs and events.rs.
use swaptrade_contract.Prelude.{ℕ, Bool, List}
use swaptrade_contract.Host.{Address, Env}

pub data GovernanceError : Type 0 where
  not_initialized already_initialized not_governance not_signer not_proposer : GovernanceError
  invalid_threshold threshold_exceeded insufficient_signatures duplicate_signature : GovernanceError
  proposal_not_found proposal_already_executed proposal_expired already_signed : GovernanceError
  cannot_reclaim timelock_not_elapsed timelock_too_short invalid_implementation : GovernanceError
  upgrade_not_scheduled upgrade_already_executed implementation_unchanged : GovernanceError
  contract_paused contract_not_paused invalid_address invalid_nonce : GovernanceError
  zero_threshold empty_signers : GovernanceError

pub data ProposalAction : Type 0 where
  pause unpause : ProposalAction
  upgrade add_signer remove_signer : Address → ProposalAction
  set_threshold set_timelock_delay : ℕ → ProposalAction

pub record Proposal : Type 0 where
  pub id : ℕ
  pub proposer : Address
  pub action : ProposalAction
  pub signatures : List Address
  pub threshold : ℕ
  pub created_at : ℕ
  pub execute_after : ℕ
  pub executed : Bool
  pub canceled : Bool
  pub nonce : ℕ

-- The tag of an action that `propose` publishes.
pub data Tag : Type 0 where
  pause unpause upgrade add_sgnr rm_sgnr set_thr set_tl : Tag

abbrev pub action_symbol : ProposalAction → Tag
action_symbol ProposalAction.pause = Tag.pause
action_symbol ProposalAction.unpause = Tag.unpause
action_symbol (ProposalAction.upgrade a) = Tag.upgrade
action_symbol (add_signer a) = add_sgnr
action_symbol (remove_signer a) = rm_sgnr
action_symbol (set_threshold n) = set_thr
action_symbol (set_timelock_delay n) = set_tl

-- One constructor for each topic, with the topic's id and the payload's fields in order.
pub data Event : Type 0 where
  prop_crt : ℕ → Address → Tag → ℕ → Event
  prop_sign : ℕ → Address → ℕ → ℕ → Event
  prop_exec : ℕ → Address → ℕ → Event
  prop_can : ℕ → Address → ℕ → Event
  paused_by : Address → ℕ → Event
  unpaused_by : Address → ℕ → Event
  upgraded_to : ℕ → Address → Address → ℕ → Event
  signer_add : Address → ℕ → Event
  signer_rm : Address → ℕ → Event
  thresh_upd : ℕ → ℕ → ℕ → Event

abbrev pub proposal_created : Env → ℕ → Address → Tag → Event
proposal_created env id proposer tag = prop_crt id proposer tag env.now

abbrev pub proposal_signed : Env → ℕ → Address → ℕ → Event
proposal_signed env id signer signatures = prop_sign id signer signatures env.now

abbrev pub proposal_executed : Env → ℕ → Address → Event
proposal_executed env id executor = prop_exec id executor env.now

abbrev pub proposal_canceled : Env → ℕ → Address → Event
proposal_canceled env id canceler = prop_can id canceler env.now

abbrev pub paused : Env → Address → Event
paused env caller = paused_by caller env.now

abbrev pub unpaused : Env → Address → Event
unpaused env caller = unpaused_by caller env.now

abbrev pub upgraded : Env → ℕ → Address → Address → Event
upgraded env id old_impl new_impl = upgraded_to id old_impl new_impl env.now

abbrev pub signer_added : Env → Address → Event
signer_added env signer = signer_add signer env.now

abbrev pub signer_removed : Env → Address → Event
signer_removed env signer = signer_rm signer env.now

abbrev pub threshold_updated : Env → ℕ → ℕ → Event
threshold_updated env old_threshold new_threshold = thresh_upd old_threshold new_threshold env.now
