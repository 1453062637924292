-- ===== src/Escrow/Moves.antt =====
-- What a call that returns `Ok` does to the contract's state, as one step of an abstract machine.
-- `Refinement` relates it to the entry points.
use swaptrade_contract.Prelude.{ℕ, ◌+◌, ◌≡◌, ◌≢◌, ◌≤◌, ◌<◌, true, false, none, some, [], ◌∷◌, ◌++◌}
use swaptrade_contract.Prelude.Int.{ℤ, pos, ◌≤ℤ◌}
use swaptrade_contract.Prelude.Maps.{set}
use swaptrade_contract.Host.{Address, Env}
use swaptrade_contract.Host.Tokens.{Tokens}
use swaptrade_contract.Escrow.Types.{
  Escrow, Dispute, DisputeEvidence, DisputeVote, EscrowState, DisputeStatus, created, escrowed,
  disputed, released, refunded, opened, resolved_release, resolved_refund, auto_refunded, is_party,
}
use swaptrade_contract.Escrow.Storage.{
  Store, next, save_escrow, update_escrow, save_dispute, update_dispute, append_evidence, get_votes,
  has_voted, is_signer, load_threshold, count_release_votes, count_refund_votes, find_by_nonce,
}
use swaptrade_contract.Escrow.Calls.{State}

-- How an open dispute ends: who may end it, the status that it gets, and who is paid.
pub data Verdict : Type 0 where
  release refund expire : Verdict

abbrev pub status_of : Verdict → DisputeStatus
status_of release = resolved_release
status_of refund = resolved_refund
status_of expire = auto_refunded

abbrev pub state_of : Verdict → EscrowState
state_of release = released
state_of refund = refunded
state_of expire = refunded

abbrev pub payee : Verdict → Escrow → Address
payee release e = e.seller
payee refund e = e.buyer
payee expire e = e.buyer

-- When a verdict may be given.
abbrev pub IsDue : Env → ℕ → Store → Dispute → Verdict → Type 0
IsDue env id s d release = load_threshold s ≤ count_release_votes id s
IsDue env id s d refund =
    (count_release_votes id s < load_threshold s) × (load_threshold s ≤ count_refund_votes id s)
IsDue env id s d expire = d.deadline ≤ env.now

module _ {L : Type 0} (tok : Tokens L) where
  pub data Moves (env : Env) (w w' : State L) : Type 0 where
    -- Settings change, or nothing does.
    configuring :
        w'.store.escrows ≡ w.store.escrows
        → w'.store.disputes ≡ w.store.disputes
        → w'.store.votes ≡ w.store.votes
        → w'.store.nonces ≡ w.store.nonces
        → w'.store.next_id ≡ w.store.next_id
        → w'.tokens ≡ w.tokens
        → Moves env w w'
    opening :
        (e : Escrow)
        → e.id ≡ next w.store
        → e.state ≡ created
        → pos 1 ≤ℤ e.amount
        → e.seller ≢ e.buyer
        → env.signed e.seller ≡ true
        → find_by_nonce e.seller e.nonce w.store ≡ none
        → w'.store ≡ save_escrow e (record w.store { next_id = some (e.id + 1) })
        → w'.tokens ≡ w.tokens
        → Moves env w w'
    funding :
        (id : ℕ) (e : Escrow) (r : ℤ)
        → w.store.escrows id ≡ some e
        → e.state ≡ created
        → env.signed e.buyer ≡ true
        → (tok.transfer e.asset e.buyer env.contract e.amount w.tokens).0 ≡ some r
        → w'.store ≡ update_escrow (record e { state = escrowed }) w.store
        → w'.tokens ≡ (tok.transfer e.asset e.buyer env.contract e.amount w.tokens).1
        → Moves env w w'
    disputing :
        (id : ℕ) (e : Escrow) (d : Dispute)
        → w.store.escrows id ≡ some e
        → e.state ≡ escrowed
        → is_party e d.raised_by ≡ true
        → env.signed d.raised_by ≡ true
        → d.escrow_id ≡ id
        → d.status ≡ opened
        → d.vote_count ≡ 0
        → w'.store ≡ save_dispute d (update_escrow (record e { state = disputed }) w.store)
        → w'.tokens ≡ w.tokens
        → Moves env w w'
    arguing :
        (id : ℕ) (e : Escrow) (d : Dispute) (v : DisputeEvidence)
        → w.store.escrows id ≡ some e
        → w.store.disputes id ≡ some d
        → d.status ≡ opened
        → is_party e v.submitted_by ≡ true
        → w'.store
          ≡ append_evidence id v
              (update_dispute (record d { evidence_count = d.evidence_count + 1 }) w.store)
        → w'.tokens ≡ w.tokens
        → Moves env w w'
    voting :
        (id : ℕ) (d : Dispute) (v : DisputeVote)
        → w.store.disputes id ≡ some d
        → d.status ≡ opened
        → is_signer v.signer w.store ≡ true
        → env.signed v.signer ≡ true
        → has_voted (get_votes id w.store) v.signer ≡ false
        → w'.store
          ≡ record w.store { votes = set w.store.votes id (get_votes id w.store ++ v ∷ []) }
        → w'.tokens ≡ w.tokens
        → Moves env w w'
    settling :
        (id : ℕ) (e : Escrow) (d : Dispute) (v : Verdict) (r : ℤ)
        → w.store.escrows id ≡ some e
        → w.store.disputes id ≡ some d
        → d.status ≡ opened
        → IsDue env id w.store d v
        → (tok.transfer e.asset env.contract (payee v e) e.amount w.tokens).0 ≡ some r
        → w'.store
          ≡ update_dispute
              (record d { status = status_of v })
              (update_escrow (record e { state = state_of v }) w.store)
        → w'.tokens ≡ (tok.transfer e.asset env.contract (payee v e) e.amount w.tokens).1
        → Moves env w w'
    cancelling :
        (id : ℕ) (e : Escrow)
        → w.store.escrows id ≡ some e
        → e.state ≡ created
        → env.signed e.seller ≡ true
        → w'.store ≡ update_escrow (record e { state = refunded }) w.store
        → w'.tokens ≡ w.tokens
        → Moves env w w'
