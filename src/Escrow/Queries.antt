-- ===== src/Escrow/Queries.antt =====
-- The read-only entry points of `EscrowDisputeContract`: swaptrade-contracts/escrow-dispute/src/lib.rs.
use swaptrade_contract.Prelude.{ℕ, Bool, List}
use swaptrade_contract.Host.{Address, gets}
use swaptrade_contract.Escrow.Types.{Escrow, Dispute, DisputeEvidence, DisputeVote}
use swaptrade_contract.Escrow.Storage.{
  Op, load_escrow, load_dispute, count_release_votes, count_refund_votes, load_signers,
  load_threshold, dispute_window, min_timelock,
}
use swaptrade_contract.Escrow.Storage

module _ {L : Type 0} where
  abbrev pub get_escrow : ℕ → Op L Escrow
  get_escrow escrow_id = load_escrow escrow_id

  abbrev pub get_dispute : ℕ → Op L Dispute
  get_dispute escrow_id = load_dispute escrow_id

  abbrev pub get_evidence : ℕ → Op L (List DisputeEvidence)
  get_evidence escrow_id = gets (Storage.get_evidence escrow_id)

  abbrev pub get_votes : ℕ → Op L (List DisputeVote)
  get_votes escrow_id = gets (Storage.get_votes escrow_id)

  unfoldable pub get_release_vote_count : ℕ → Op L ℕ
  unfolding count_release_votes
  get_release_vote_count escrow_id = gets (count_release_votes escrow_id)

  unfoldable pub get_refund_vote_count : ℕ → Op L ℕ
  unfolding count_refund_votes
  get_refund_vote_count escrow_id = gets (count_refund_votes escrow_id)

  unfoldable pub is_signer : Address → Op L Bool
  unfolding Storage.is_signer
  is_signer address = gets (Storage.is_signer address)

  abbrev pub get_signers : Op L (List Address)
  get_signers = gets load_signers

  abbrev pub get_threshold : Op L ℕ
  get_threshold = gets load_threshold

  abbrev pub get_dispute_window : Op L ℕ
  get_dispute_window = gets dispute_window

  abbrev pub get_min_timelock : Op L ℕ
  get_min_timelock = gets min_timelock
