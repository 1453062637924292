-- ===== src/Escrow/Storage.antt =====
-- The storage of the escrow contract: swaptrade-contracts/escrow-dispute/src/storage.rs. A key
-- that was never written is `none`, or a map with no entry, and each reader has its default.
use swaptrade_contract.Prelude.{
  ℕ, ◌+◌, Bool, true, false, ◌||◌, Option, none, some, List, [], ◌∷◌, ◌++◌, get_or, ltb, ◌==◌,
  if◌then◌else◌,
}
use swaptrade_contract.Prelude.Int.{ℤ}
use swaptrade_contract.Prelude.Maps.{Map, PairMap, empty, set, set_pair}
use swaptrade_contract.Host.{
  Address, Result, ok, err, World, Action, u64_max, gets, or_raise, raise_if, modify, pure, trap_if,
  ◌>>=◌, ◌>>◌,
}
use swaptrade_contract.Host.Tokens.{Tokens}
use swaptrade_contract.Escrow.Types.{
  Escrow, Dispute, DisputeEvidence, DisputeVote, EscrowError, escrow_not_found, duplicate_vote,
  transfer_failed,
}
use swaptrade_contract.Escrow.Events.{Event}

pub record Store : Type 0 where
  pub escrows : Map Escrow
  pub disputes : Map Dispute
  pub evidence : Map (List DisputeEvidence)
  pub votes : Map (List DisputeVote)
  pub nonces : PairMap ℕ
  pub next_id : Option ℕ
  pub signers : Option (List Address)
  pub threshold : Option ℕ
  pub min_timelock : Option ℕ
  pub dispute_window : Option ℕ

abbrev pub default_min_timelock : ℕ
default_min_timelock = 3600

abbrev pub default_dispute_window : ℕ
default_dispute_window = 604800

-- A contract that has just been deployed.
abbrev pub deployed : Store
deployed = record {
  escrows = empty;
  disputes = empty;
  evidence = empty;
  votes = empty;
  nonces = λ a n. none;
  next_id = none;
  signers = none;
  threshold = none;
  min_timelock = none;
  dispute_window = none;
}

-- The readers.
abbrev pub next : Store → ℕ
next s = get_or s.next_id 1

abbrev pub find_by_nonce : Address → ℕ → Store → Option ℕ
find_by_nonce seller nonce s = s.nonces seller nonce

abbrev pub get_evidence : ℕ → Store → List DisputeEvidence
get_evidence escrow_id s = get_or (s.evidence escrow_id) []

abbrev pub get_votes : ℕ → Store → List DisputeVote
get_votes escrow_id s = get_or (s.votes escrow_id) []

abbrev pub load_signers : Store → List Address
load_signers s = get_or s.signers []

abbrev pub load_threshold : Store → ℕ
load_threshold s = get_or s.threshold 0

abbrev pub min_timelock : Store → ℕ
min_timelock s = get_or s.min_timelock default_min_timelock

abbrev pub dispute_window : Store → ℕ
dispute_window s = get_or s.dispute_window default_dispute_window

-- The loop of `is_signer`.
unfoldable pub contains : List Address → Address → Bool
contains [] a = false
contains (s ∷ ss) a = s == a || contains ss a

unfoldable pub is_signer : Address → Store → Bool
unfolding contains
is_signer a s = contains (load_signers s) a

-- The loops of `count_release_votes` and `count_refund_votes`; the counters are bounded by the
-- number of votes, so they are left unbounded.
unfoldable pub count_votes : Bool → List DisputeVote → ℕ
count_votes for [] = 0
count_votes for (v ∷ vs) =
    (if v.in_favour_of_release then (if for then 1 else 0) else if for then 0 else 1)
    + count_votes for vs

unfoldable pub count_release_votes : ℕ → Store → ℕ
unfolding count_votes
count_release_votes escrow_id s = count_votes true (get_votes escrow_id s)

unfoldable pub count_refund_votes : ℕ → Store → ℕ
unfolding count_votes
count_refund_votes escrow_id s = count_votes false (get_votes escrow_id s)

-- The loop of `record_vote`: is there a vote of the signer already?
unfoldable pub has_voted : List DisputeVote → Address → Bool
has_voted [] a = false
has_voted (v ∷ vs) a = v.signer == a || has_voted vs a

-- The writers.
abbrev pub save_escrow : Escrow → Store → Store
save_escrow e s = record s {
  escrows = set s.escrows e.id e;
  nonces = set_pair s.nonces e.seller e.nonce e.id;
}

abbrev pub update_escrow : Escrow → Store → Store
update_escrow e s = record s { escrows = set s.escrows e.id e }

abbrev pub save_dispute : Dispute → Store → Store
save_dispute d s = record s { disputes = set s.disputes d.escrow_id d }

abbrev pub update_dispute : Dispute → Store → Store
update_dispute d s = record s { disputes = set s.disputes d.escrow_id d }

abbrev pub append_evidence : ℕ → DisputeEvidence → Store → Store
append_evidence escrow_id v s = record s {
  evidence = set s.evidence escrow_id (get_evidence escrow_id s ++ v ∷ []);
}

abbrev pub store_signers : List Address → Store → Store
store_signers signers s = record s { signers = some signers }

abbrev pub store_threshold : ℕ → Store → Store
store_threshold threshold s = record s { threshold = some threshold }

abbrev pub set_min_timelock : ℕ → Store → Store
set_min_timelock seconds s = record s { min_timelock = some seconds }

abbrev pub set_dispute_window : ℕ → Store → Store
set_dispute_window seconds s = record s { dispute_window = some seconds }

-- Every operation of the contract is such an action.
abbrev pub Op : Type 0 → Type 0 → Type 0
Op L A = Action EscrowError (World Store Event L) A

module _ {L : Type 0} where
  abbrev pub load_escrow : ℕ → Op L Escrow
  load_escrow id = do s ← gets (λ s. s); or_raise (s.escrows id) escrow_not_found

  abbrev pub load_dispute : ℕ → Op L Dispute
  load_dispute id = do s ← gets (λ s. s); or_raise (s.disputes id) escrow_not_found

  -- `id + 1` is checked: the release profile has `overflow-checks = true`.
  abbrev pub next_id : Op L ℕ
  next_id = do
    id ← gets next
    trap_if (ltb u64_max (id + 1))
    modify (λ s. record s { next_id = some (id + 1) })
    pure id

  abbrev pub record_vote : ℕ → DisputeVote → Op L (Unit {0})
  record_vote escrow_id vote = do
    votes ← gets (get_votes escrow_id)
    raise_if (has_voted votes vote.signer) duplicate_vote
    modify (λ s. record s { votes = set s.votes escrow_id (votes ++ vote ∷ []) })

module _ {L : Type 0} (tok : Tokens L) where
  -- `matches!(try_invoke_contract(asset, "balance", [address]), Ok(Ok(_)))`
  abbrev pub has_trustline : Address → Address → Op L Bool
  has_trustline address asset w =
      (ok (elim (tok.balance asset address w.tokens) [ none ↦ false | some _ ↦ true ]), w)

  abbrev pub transferred : Option ℤ → Result EscrowError ℤ
  transferred (some x) = ok x
  transferred none = err transfer_failed

  abbrev pub invoke_transfer : Address → Address → Address → ℤ → Op L ℤ
  invoke_transfer asset from to amount w =
      let (r, l) = tok.transfer asset from to amount w.tokens in
      (transferred r, record w { tokens = l })

  abbrev pub transfer_token_no_auth : Address → Address → Address → ℤ → Op L ℤ
  transfer_token_no_auth = invoke_transfer
