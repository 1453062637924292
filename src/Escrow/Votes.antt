-- ===== src/Escrow/Votes.antt =====
-- `vote` of swaptrade-contracts/escrow-dispute/src/lib.rs, and the counts of storage.rs.
use swaptrade_contract.Prelude.{
  ℕ, ◌+◌, ◌≡◌, refl, Bool, true, false, some, List, [], ◌∷◌, ◌++◌, ◌||◌, length, ◌==◌,
  if◌then◌else◌, arith, get_or,
}
use swaptrade_contract.Prelude.Int.{ℤ}
use swaptrade_contract.Prelude.Maps.{set, set_self, every-set}
use swaptrade_contract.Host.{Address, Env, ok, err}
use swaptrade_contract.Host.Tokens.{Tokens}
use swaptrade_contract.Escrow
use swaptrade_contract.Escrow.Types.{Dispute, DisputeVote, opened, duplicate_vote}
use swaptrade_contract.Escrow.Storage.{
  Store, get_votes, has_voted, count_votes, count_release_votes, count_refund_votes, is_signer,
}
use swaptrade_contract.Escrow.Calls.{State, Reach, here}
use swaptrade_contract.Escrow.Calls
use swaptrade_contract.Escrow.Moves.{
  Moves, configuring, opening, funding, disputing, arguing, voting, settling, cancelling,
}
use swaptrade_contract.Escrow.Refinement.{Progress, stays, moves, outside, Step-Progress}

-- No signer has two votes.
abbrev pub Distinct : List DisputeVote → Type 0
Distinct [] = Unit
Distinct (v ∷ vs) = (has_voted vs v.signer ≡ false) × Distinct vs

has_voted-push :
    (vs : List DisputeVote) (v : DisputeVote) (a : Address)
    → has_voted (vs ++ v ∷ []) a ≡ (has_voted vs a || v.signer == a)
unfolding has_voted
has_voted-push [] v a = ground arith
has_voted-push (x ∷ vs) v a = ground (arith, has_voted-push vs v a)

Distinct-push :
    (vs : List DisputeVote) (v : DisputeVote)
    → has_voted vs v.signer ≡ false
    → Distinct vs
    → Distinct (vs ++ v ∷ [])
unfolding has_voted
Distinct-push [] v n d = (refl, tt)
Distinct-push (x ∷ vs) v n d =
    (ground (arith, has_voted-push vs v x.signer, d.0), Distinct-push vs v (ground arith) d.1)

count_votes-push :
    (for : Bool) (vs : List DisputeVote) (v : DisputeVote)
    → count_votes for (vs ++ v ∷ []) ≡ count_votes for vs + count_votes for (v ∷ [])
unfolding count_votes
count_votes-push for [] v = omega arith
count_votes-push for (x ∷ vs) v = omega (arith, count_votes-push for vs v)

count_votes-add : (vs : List DisputeVote) → count_votes true vs + count_votes false vs ≡ length vs
unfolding count_votes
count_votes-add [] = refl
count_votes-add (v ∷ vs) = ground (arith, count_votes-add vs)

-- The release votes and the refund votes of a dispute are all its votes.
pub counts-add :
    (id : ℕ) (s : Store)
    → count_release_votes id s + count_refund_votes id s ≡ length (get_votes id s)
unfolding count_release_votes count_refund_votes
counts-add id s = count_votes-add (get_votes id s)

module _ {L : Type 0} (env : Env) (id : ℕ) (signer : Address) (for : Bool) (w : State L) where
  -- The vote that `vote` records, and the votes with it.
  abbrev pub cast : DisputeVote
  cast = record { signer = signer; in_favour_of_release = for; voted_at = env.now }

  vote_store :
      (Escrow.vote env id signer for w).0 ≡ ok tt
      → (Escrow.vote env id signer for w).1.store
        ≡ record w.store { votes = set w.store.votes id (get_votes id w.store ++ cast ∷ []) }
  unfolding Escrow.vote
  vote_store h = ground arith

  vote_side :
      (side : Bool)
      → (Escrow.vote env id signer for w).0 ≡ ok tt
      → count_votes side (get_votes id (Escrow.vote env id signer for w).1.store)
        ≡ count_votes side (get_votes id w.store) + count_votes side (cast ∷ [])
  vote_side side h = rw (vote_store h) (
      rw (set_self w.store.votes id (get_votes id w.store ++ cast ∷ []))
        (count_votes-push side (get_votes id w.store) cast))

  -- A vote that is accepted adds one to the count of its side and leaves the other count as it is, and it is
  -- the last vote of its dispute then; the votes of every other dispute stay as they are.
  pub vote_counts :
      (Escrow.vote env id signer for w).0 ≡ ok tt
      → let s' = (Escrow.vote env id signer for w).1.store in
        (count_release_votes id s' ≡ count_release_votes id w.store + (if for then 1 else 0))
        × (count_refund_votes id s' ≡ count_refund_votes id w.store + (if for then 0 else 1))
        × ((j : ℕ)
            → get_votes j s'
              ≡ (if id == j then get_votes id w.store ++ cast ∷ [] else get_votes j w.store))
  unfolding count_release_votes count_refund_votes
  vote_counts h = (
    ground (arith, vote_side true h),
    ground (arith, vote_side false h),
    λ j. rw (vote_store h) (ground arith),
  )

  vote-has_voted :
      (Escrow.vote env id signer for w).0 ≡ ok tt
      → has_voted (get_votes id (Escrow.vote env id signer for w).1.store) signer ≡ true
  vote-has_voted h =
      rw (vote_store h) (ground (arith, has_voted-push (get_votes id w.store) cast signer))

  voted_duplicate :
      (d : Dispute)
      → has_voted (get_votes id w.store) signer ≡ true
      → w.store.disputes id ≡ some d
      → d.status ≡ opened
      → is_signer signer w.store ≡ true
      → env.signed signer ≡ true
      → Escrow.vote env id signer for w ≡ (err duplicate_vote, w)
  unfolding Escrow.vote
  voted_duplicate d v p o r s = ground arith

module _ {L : Type 0} {tok : Tokens L} {env : Env} {w w' : State L} where
  Moves-Distinct :
      Moves tok env w w'
      → ((id : ℕ) → Distinct (get_votes id w.store))
      → (id : ℕ) → Distinct (get_votes id w'.store)
  Moves-Distinct (configuring x d v o n t) h = rw v h
  Moves-Distinct (opening f k c a p g u s t) h = rw s h
  Moves-Distinct (funding j f r p c g x s t) h = rw s h
  Moves-Distinct (disputing j f d p c g1 g2 k o u s t) h = rw s h
  Moves-Distinct (arguing j f d v p r o g s t) h = rw s h
  Moves-Distinct (voting j d v p o g g2 n s t) h = rw s (
      every-set (λ i o. Distinct (get_or o [])) j (get_votes j w.store ++ v ∷ []) h
        (Distinct-push (get_votes j w.store) v n (h j)))
  Moves-Distinct (settling j f d v r p z o due x s t) h = rw s h
  Moves-Distinct (cancelling j f p c g s t) h = rw s h

  Moves-has_voted :
      Moves tok env w w'
      → (id : ℕ) (a : Address) → has_voted (get_votes id w.store) a ≡ true
      → has_voted (get_votes id w'.store) a ≡ true
  Moves-has_voted (configuring x d v o n t) id a h = rw v h
  Moves-has_voted (opening f k c b p g u s t) id a h = rw s h
  Moves-has_voted (funding j f r p c g x s t) id a h = rw s h
  Moves-has_voted (disputing j f d p c g1 g2 k o u s t) id a h = rw s h
  Moves-has_voted (arguing j f d v p r o g s t) id a h = rw s h
  Moves-has_voted (voting j d v p o g g2 n s t) id a h =
      rw s (ground (arith, has_voted-push (get_votes j w.store) v a))
  Moves-has_voted (settling j f d v r p z o due x s t) id a h = rw s h
  Moves-has_voted (cancelling j f p c g s t) id a h = rw s h

module _ {L : Type 0} {tok : Tokens L} {holding : Address → Address → L → ℤ} {self : Address} where
  Step-Distinct :
      {w w' : State L}
      → Progress tok holding self w w'
      → ((id : ℕ) → Distinct (get_votes id w.store))
      → (id : ℕ) → Distinct (get_votes id w'.store)
  Step-Distinct (stays e) h = rw e h
  Step-Distinct (moves env at unsigned m) h = Moves-Distinct m h
  Step-Distinct (outside l more e) h = rw e h

  -- In every sequence of invocations no dispute ever has two votes of one signer.
  pub Reach-Distinct :
      {w w' : State L}
      → Reach tok holding self w w'
      → ((id : ℕ) → Distinct (get_votes id w.store))
      → (id : ℕ) → Distinct (get_votes id w'.store)
  Reach-Distinct here h = h
  Reach-Distinct (Calls.next r s) h = Step-Distinct (Step-Progress s) (Reach-Distinct r h)

  Step-has_voted :
      {w w' : State L}
      → Progress tok holding self w w'
      → (id : ℕ) (a : Address) → has_voted (get_votes id w.store) a ≡ true
      → has_voted (get_votes id w'.store) a ≡ true
  Step-has_voted (stays e) id a h = rw e h
  Step-has_voted (moves env at unsigned m) id a h = Moves-has_voted m id a h
  Step-has_voted (outside l more e) id a h = rw e h

  Reach-has_voted :
      {w w' : State L}
      → Reach tok holding self w w'
      → (id : ℕ) (a : Address) → has_voted (get_votes id w.store) a ≡ true
      → has_voted (get_votes id w'.store) a ≡ true
  Reach-has_voted here id a h = h
  Reach-has_voted (Calls.next r s) id a h =
      Step-has_voted (Step-Progress s) id a (Reach-has_voted r id a h)

  -- After a vote that was accepted, whatever is invoked in between, a second vote of the same signer on the
  -- same dispute is refused as a duplicate and changes nothing, as long as the dispute is open and the signer
  -- is registered.
  pub vote_twice :
      (env env' : Env) (id : ℕ) (signer : Address) (for for' : Bool) (w w' : State L) (d : Dispute)
      → (Escrow.vote env id signer for w).0 ≡ ok tt
      → Reach tok holding self (Escrow.vote env id signer for w).1 w'
      → w'.store.disputes id ≡ some d
      → d.status ≡ opened
      → is_signer signer w'.store ≡ true
      → env'.signed signer ≡ true
      → Escrow.vote env' id signer for' w' ≡ (err duplicate_vote, w')
  vote_twice env env' id signer for for' w w' d h r p o g s =
      voted_duplicate env' id signer for' w' d
        (Reach-has_voted r id signer (vote-has_voted env id signer for w h)) p o g s
