-- ===== src/Governance/Storage.antt =====
-- The storage of the governance contract: swaptrade-contracts/governance/src/storage.rs. A key that was
-- never written is `none`, or a map with no entry, and each reader has its default.
use swaptrade_contract.Prelude.{ℕ, Bool, false, Option, none, some, List, [], get_or}
use swaptrade_contract.Prelude.Maps.{Map, empty}
use swaptrade_contract.Host.{Address, Result, ok, trap, World, Action}
use swaptrade_contract.Governance.Types.{Proposal, GovernanceError, Event}

-- The proposals are one `Map<u64, Proposal>` under one key.
pub record Store : Type 0 where
  pub signers : Option (List Address)
  pub threshold : Option ℕ
  pub proposals : Map Proposal
  pub proposal_count : Option ℕ
  pub paused : Option Bool
  pub initialized : Option Bool
  pub timelock_delay : Option ℕ
  pub implementation : Option Address
  pub upgrade_scheduled : Option Address
  pub nonce : Option ℕ

-- A contract that has just been deployed.
abbrev pub deployed : Store
deployed = record {
  signers = none;
  threshold = none;
  proposals = empty;
  proposal_count = none;
  paused = none;
  initialized = none;
  timelock_delay = none;
  implementation = none;
  upgrade_scheduled = none;
  nonce = none;
}

abbrev pub load_signers : Store → List Address
load_signers s = get_or s.signers []

abbrev pub load_threshold : Store → ℕ
load_threshold s = get_or s.threshold 0

abbrev pub load_paused : Store → Bool
load_paused s = get_or s.paused false

abbrev pub load_initialized : Store → Bool
load_initialized s = get_or s.initialized false

abbrev pub load_timelock_delay : Store → ℕ
load_timelock_delay s = get_or s.timelock_delay 0

abbrev pub load_proposals : Store → Map Proposal
load_proposals s = s.proposals

abbrev pub load_proposal_count : Store → ℕ
load_proposal_count s = get_or s.proposal_count 0

abbrev pub load_nonce : Store → ℕ
load_nonce s = get_or s.nonce 0

abbrev pub load_upgrade_scheduled : Store → Option Address
load_upgrade_scheduled s = s.upgrade_scheduled

abbrev pub store_signers : List Address → Store → Store
store_signers signers s = record s { signers = some signers }

abbrev pub store_threshold : ℕ → Store → Store
store_threshold threshold s = record s { threshold = some threshold }

abbrev pub store_paused : Bool → Store → Store
store_paused paused s = record s { paused = some paused }

abbrev pub store_initialized : Bool → Store → Store
store_initialized initialized s = record s { initialized = some initialized }

abbrev pub store_timelock_delay : ℕ → Store → Store
store_timelock_delay delay s = record s { timelock_delay = some delay }

abbrev pub store_implementation : Address → Store → Store
store_implementation impl s = record s { implementation = some impl }

abbrev pub store_proposals : Map Proposal → Store → Store
store_proposals proposals s = record s { proposals = proposals }

abbrev pub store_proposal_count : ℕ → Store → Store
store_proposal_count count s = record s { proposal_count = some count }

abbrev pub store_nonce : ℕ → Store → Store
store_nonce nonce s = record s { nonce = some nonce }

-- A `None` removes the key.
abbrev pub store_upgrade_scheduled : Option Address → Store → Store
store_upgrade_scheduled impl s = record s { upgrade_scheduled = impl }

-- Every operation of the contract is such an action.
abbrev pub Op : Type 0 → Type 0 → Type 0
Op L A = Action GovernanceError (World Store Event L) A

-- `.expect("Implementation not set")`
abbrev pub expect : Option Address → Result GovernanceError Address
expect (some a) = ok a
expect none = trap

abbrev pub load_implementation : {L : Type 0} → Op L Address
load_implementation w = (expect w.store.implementation, w)
