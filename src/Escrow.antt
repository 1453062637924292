-- ===== src/Escrow.antt =====
-- The entry points of `EscrowDisputeContract`: swaptrade-contracts/escrow-dispute/src/lib.rs.
pub mod Types
pub mod Events
pub mod Storage
pub mod Calls
pub mod Moves
pub mod Refinement
pub mod WellFormed
pub mod Preserved
pub mod Custody
pub mod Settled
pub mod Votes
pub mod Outcomes
pub mod Creation
pub mod Errors
pub mod Queries
mod Tests
use swaptrade_contract.Prelude.{
  ℕ, ◌+◌, ◌≡◌, Bool, true, false, not, Option, none, some, List, [], ◌∷◌, length, ltb, leb, ◌==◌,
  if◌then◌else◌, min,
}
use swaptrade_contract.Prelude.Int.{ℤ, pos, leb_ℤ}
use swaptrade_contract.Host.{
  Address, Env, u64_max, saturating_add, require_auth, raise_if, raise, trap_if, gets, modify,
  publish, pure, ◌>>=◌, ◌>>◌,
}
use swaptrade_contract.Host.Tokens.{Tokens}
use Types.{
  Escrow, Dispute, DisputeEvidence, DisputeVote, is_party, is_created, is_escrowed, is_open,
  escrowed, disputed, released, refunded, created, opened, resolved_release, resolved_refund,
  auto_refunded, unauthorized, missing_trustline, invalid_state, invalid_amount, invalid_timelock,
  dispute_already_resolved, insufficient_signatures, deadline_not_reached,
}
use Events.{
  escrow_created, escrow_funded, dispute_raised, evidence_submitted, dispute_resolved,
  escrow_released, escrow_refunded, dispute_auto_refunded,
}
use Storage.{
  Op, Store, load_escrow, load_dispute, next_id, save_escrow, update_escrow, save_dispute,
  update_dispute, append_evidence, store_signers, store_threshold, record_vote, find_by_nonce,
  min_timelock, is_signer, load_threshold, count_release_votes, count_refund_votes, has_trustline,
  transfer_token_no_auth,
}
use Storage

-- The loop of `initialize` that copies the signers and skips the admin.
unfoldable pub without_admin : Address → List Address → List Address
without_admin admin [] = []
without_admin admin (s ∷ ss) =
    let rest = without_admin admin ss in if s == admin then rest else s ∷ rest

-- A checked `count += 1` on a u64.
abbrev pub checked_suc : {L : Type 0} → ℕ → Op L ℕ
checked_suc n = do trap_if (ltb u64_max (n + 1)); pure (n + 1)

module _ {L : Type 0} where
  unfoldable pub initialize : Env → Address → List Address → ℕ → ℕ → Op L (Unit {0})
  unfolding without_admin
  initialize env admin signers threshold timelock_duration = do
    require_auth env admin
    trap_if (threshold == 0)
    let all_signers = admin ∷ without_admin admin signers
    trap_if (ltb (length all_signers) threshold)
    modify (store_signers all_signers)
    modify (store_threshold threshold)
    modify (Storage.set_dispute_window timelock_duration)

  unfoldable pub raise_dispute : Env → ℕ → Address → ℕ → Op L (Unit {0})
  unfolding saturating_add
  raise_dispute env escrow_id disputer dispute_window = do
    require_auth env disputer
    escrow ← load_escrow escrow_id
    raise_if (not (is_party escrow disputer)) unauthorized
    raise_if (not (is_escrowed escrow.state)) invalid_state
    let dispute : Dispute = record {
      escrow_id = escrow_id;
      raised_by = disputer;
      status = opened;
      raised_at = env.now;
      deadline = saturating_add env.now dispute_window;
      evidence_count = 0;
      vote_count = 0;
    }
    modify (update_escrow (record escrow { state = disputed }))
    modify (save_dispute dispute)
    publish (dispute_raised dispute)

  unfoldable pub submit_evidence : Env → ℕ → Address → ℕ → ℕ → Op L (Unit {0})
  submit_evidence env escrow_id submitter evidence_hash description = do
    require_auth env submitter
    dispute ← load_dispute escrow_id
    escrow ← load_escrow escrow_id
    raise_if (not (is_party escrow submitter)) unauthorized
    raise_if (not (is_open dispute.status)) dispute_already_resolved
    let evidence : DisputeEvidence = record {
      hash = evidence_hash;
      submitted_by = submitter;
      submitted_at = env.now;
      description = description;
    }
    count ← checked_suc dispute.evidence_count
    let dispute' : Dispute = record dispute { evidence_count = count }
    modify (update_dispute dispute')
    modify (append_evidence escrow_id evidence)
    publish (evidence_submitted dispute' evidence)

  unfoldable pub vote : Env → ℕ → Address → Bool → Op L (Unit {0})
  unfolding is_signer
  vote env escrow_id signer in_favour_of_release = do
    require_auth env signer
    dispute ← load_dispute escrow_id
    raise_if (not (is_open dispute.status)) dispute_already_resolved
    registered ← gets (is_signer signer)
    raise_if (not registered) unauthorized
    record_vote escrow_id (record {
      signer = signer;
      in_favour_of_release = in_favour_of_release;
      voted_at = env.now;
    })

  unfoldable pub cancel_escrow : Env → ℕ → Op L (Unit {0})
  cancel_escrow env escrow_id = do
    escrow ← load_escrow escrow_id
    require_auth env escrow.seller
    raise_if (not (is_created escrow.state)) invalid_state
    modify (update_escrow (record escrow { state = refunded }))

  unfoldable pub set_dispute_window : Env → Address → ℕ → Op L (Unit {0})
  set_dispute_window env caller seconds = do
    require_auth env caller
    modify (Storage.set_dispute_window seconds)

  unfoldable pub set_min_timelock : Env → Address → ℕ → Op L (Unit {0})
  set_min_timelock env caller seconds = do
    require_auth env caller
    modify (Storage.set_min_timelock seconds)

-- The tail of `create_escrow`, once no escrow has the nonce.
open_escrow : {L : Type 0} → Env → Address → Address → Address → ℤ → ℕ → Op L ℕ
open_escrow env seller buyer asset amount nonce = do
  id ← next_id
  let escrow : Escrow = record {
    id = id;
    nonce = nonce;
    seller = seller;
    buyer = buyer;
    asset = asset;
    amount = amount;
    state = created;
    created_at = env.now;
  }
  modify (save_escrow escrow)
  publish (escrow_created env escrow)
  pure id

module _ {L : Type 0} (tok : Tokens L) where
  unfoldable pub create_escrow : Env → Address → Address → Address → ℤ → ℕ → ℕ → Op L ℕ
  unfolding open_escrow
  create_escrow env seller buyer asset amount timelock nonce = do
    require_auth env seller
    raise_if (leb_ℤ amount (pos 0)) invalid_amount
    raise_if (seller == buyer) unauthorized
    min_tl ← gets min_timelock
    raise_if (ltb timelock min_tl) invalid_timelock
    trusted ← has_trustline tok seller asset
    raise_if (not trusted) missing_trustline
    existing ← gets (find_by_nonce seller nonce)
    elim existing [
      | some existing_id ↦ pure existing_id
      | none ↦ open_escrow env seller buyer asset amount nonce
    ]

  unfoldable pub fund_escrow : Env → ℕ → Address → Op L (Unit {0})
  fund_escrow env escrow_id funder = do
    require_auth env funder
    escrow ← load_escrow escrow_id
    raise_if (not (funder == escrow.buyer)) unauthorized
    raise_if (not (is_created escrow.state)) invalid_state
    trusted ← has_trustline tok funder escrow.asset
    raise_if (not trusted) missing_trustline
    transfer_token_no_auth tok escrow.asset funder env.contract escrow.amount
    let escrow' : Escrow = record escrow { state = escrowed }
    modify (update_escrow escrow')
    publish (escrow_funded env escrow')

  unfoldable pub resolve_dispute : Env → ℕ → Address → Op L (Unit {0})
  unfolding is_signer count_release_votes count_refund_votes
  resolve_dispute env escrow_id resolver = do
    require_auth env resolver
    dispute ← load_dispute escrow_id
    escrow ← load_escrow escrow_id
    raise_if (not (is_open dispute.status)) dispute_already_resolved
    registered ← gets (is_signer resolver)
    raise_if (not registered) unauthorized
    threshold ← gets load_threshold
    release_votes ← gets (count_release_votes escrow_id)
    refund_votes ← gets (count_refund_votes escrow_id)
    if leb threshold release_votes
        then (do
          let dispute' : Dispute = record dispute { status = resolved_release }
          let escrow' : Escrow = record escrow { state = released }
          transfer_token_no_auth tok escrow.asset env.contract escrow.seller escrow.amount
          modify (update_escrow escrow')
          modify (update_dispute dispute')
          publish (dispute_resolved env dispute' resolver)
          publish (escrow_released env escrow'))
        else if leb threshold refund_votes
        then (do
          let dispute' : Dispute = record dispute { status = resolved_refund }
          let escrow' : Escrow = record escrow { state = refunded }
          transfer_token_no_auth tok escrow.asset env.contract escrow.buyer escrow.amount
          modify (update_escrow escrow')
          modify (update_dispute dispute')
          publish (dispute_resolved env dispute' resolver)
          publish (escrow_refunded env escrow'))
        else raise insufficient_signatures

  unfoldable pub auto_refund : Env → ℕ → Op L (Unit {0})
  auto_refund env escrow_id = do
    dispute ← load_dispute escrow_id
    escrow ← load_escrow escrow_id
    raise_if (not (is_open dispute.status)) dispute_already_resolved
    raise_if (ltb env.now dispute.deadline) deadline_not_reached
    let dispute' : Dispute = record dispute { status = auto_refunded }
    let escrow' : Escrow = record escrow { state = refunded }
    transfer_token_no_auth tok escrow.asset env.contract escrow.buyer escrow.amount
    modify (update_escrow escrow')
    modify (update_dispute dispute')
    publish (dispute_auto_refunded env dispute')
    publish (escrow_refunded env escrow')
