-- ===== src/Escrow/Types.antt =====
-- The data of the escrow contract: swaptrade-contracts/escrow-dispute/src/types.rs and errors.rs.
use swaptrade_contract.Prelude.{ℕ, Bool, true, false, ◌||◌, ◌==◌}
use swaptrade_contract.Prelude.Int.{ℤ}
use swaptrade_contract.Host.{Address}

pub data EscrowState : Type 0 where
  created funded escrowed disputed released refunded : EscrowState

-- `opened` is the source's `Open`.
pub data DisputeStatus : Type 0 where
  opened resolved_release resolved_refund auto_refunded : DisputeStatus

pub data EscrowError : Type 0 where
  escrow_not_found unauthorized missing_trustline invalid_state invalid_amount : EscrowError
  invalid_timelock dispute_expired dispute_already_resolved no_evidence_submitted : EscrowError
  transfer_failed duplicate_vote insufficient_signatures deadline_not_reached : EscrowError

pub record Escrow : Type 0 where
  pub id : ℕ
  pub nonce : ℕ
  pub seller : Address
  pub buyer : Address
  pub asset : Address
  pub amount : ℤ
  pub state : EscrowState
  pub created_at : ℕ

pub record Dispute : Type 0 where
  pub escrow_id : ℕ
  pub raised_by : Address
  pub status : DisputeStatus
  pub raised_at : ℕ
  pub deadline : ℕ
  pub evidence_count : ℕ
  pub vote_count : ℕ

-- The hash and the symbol are kept as the numbers that their bytes spell.
pub record DisputeEvidence : Type 0 where
  pub hash : ℕ
  pub submitted_by : Address
  pub submitted_at : ℕ
  pub description : ℕ

pub record DisputeVote : Type 0 where
  pub signer : Address
  pub in_favour_of_release : Bool
  pub voted_at : ℕ

abbrev pub is_party : Escrow → Address → Bool
is_party e addr = addr == e.seller || addr == e.buyer

-- `state == EscrowState::Created`, and so on.
abbrev pub is_created : EscrowState → Bool
is_created created = true
is_created _ = false

abbrev pub is_escrowed : EscrowState → Bool
is_escrowed escrowed = true
is_escrowed _ = false

abbrev pub is_open : DisputeStatus → Bool
is_open opened = true
is_open _ = false
