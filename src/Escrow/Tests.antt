-- ===== src/Escrow/Tests.antt =====
-- Runs of the escrow contract, and its theorems at concrete inputs: one agreement over 100 of asset 5
-- between the seller 10 and the buyer 20, before the signers 30 and 31. The contract is 99.
use swaptrade_contract.Prelude.{
  ℕ, ◌+◌, ◌≡◌, ◌≤◌, ◌<◌, refl, Bool, true, false, not, some, [], ◌∷◌, length, ◌++◌, get_or, ◌==◌,
  ◌||◌, if◌then◌else◌, arith,
}
use swaptrade_contract.Prelude.Int.{pos, ◌+ℤ◌, ◌-ℤ◌}
use swaptrade_contract.Prelude.Maps.{set, empty, every-set, every-set_left, every-set_both}
use swaptrade_contract.Host.{Address, Env, ok, err, invoke}
use swaptrade_contract.Host.Tokens.{IsPayment}
use swaptrade_contract.Host.Ledger.{Ledger, ledger, holding, ledger-IsToken}
use swaptrade_contract.Escrow
use swaptrade_contract.Escrow.Types.{
  Escrow, Dispute, DisputeVote, EscrowState, created, escrowed, disputed, released, refunded,
  opened, duplicate_vote,
}
use swaptrade_contract.Escrow.Storage.{
  Store, deployed, get_votes, has_voted, is_signer, count_release_votes, count_refund_votes,
  load_threshold, load_signers, contains,
}
use swaptrade_contract.Escrow.Calls.{State, Call, perform, Reach, here, invoked}
use swaptrade_contract.Escrow.Calls
use swaptrade_contract.Escrow.Moves.{Moves}
use swaptrade_contract.Escrow.Refinement.{perform-Moves}
use swaptrade_contract.Escrow.WellFormed.{IsWellFormed, Entry}
use swaptrade_contract.Escrow.Preserved.{Reach-IsWellFormed}
use swaptrade_contract.Escrow.Custody.{IsSolvent, Outsiders, Reach-IsSolvent}
use swaptrade_contract.Prelude.Sums.{total}
use swaptrade_contract.Escrow.Settled.{Remains, Reach-Remains}
use swaptrade_contract.Escrow.Votes.{Distinct, Reach-Distinct, vote_counts, vote_twice}
use swaptrade_contract.Escrow.Creation.{create_twice, initialize_signers, initialize_again}
use swaptrade_contract.Escrow.Errors.{failed_writes_nothing}
use swaptrade_contract.Escrow.Moves.{Verdict, payee, state_of, status_of}
use swaptrade_contract.Escrow.Outcomes.{
  verdict, paid, resolve_dispute-answer, auto_refund_available, resolve_dispute_pays,
  zero_window_refund,
}

abbrev self : Address
self = 99

-- Everybody signs, but for the contract.
abbrev env : Env
env = record { now = 1000; contract = self; signed = λ a. not (a == 99) }

abbrev agreement : EscrowState → Escrow
agreement s = record {
  id = 1;
  nonce = 7;
  seller = 10;
  buyer = 20;
  asset = 5;
  amount = pos 100;
  state = s;
  created_at = 50;
}

abbrev dispute : Dispute
dispute = record {
  escrow_id = 1;
  raised_by = 20;
  status = opened;
  raised_at = 900;
  deadline = 950;
  evidence_count = 0;
  vote_count = 0;
}

abbrev vote_of : Address → Bool → DisputeVote
vote_of a for = record { signer = a; in_favour_of_release = for; voted_at = 910 }

-- Before and after the funding, and in dispute with one vote.
abbrev waiting : Store
waiting = record deployed { escrows = set empty 1 (agreement created); next_id = some 2 }

abbrev paid_in : Store
paid_in = record deployed { escrows = set empty 1 (agreement escrowed); next_id = some 2 }

abbrev in_dispute : Store
in_dispute = record deployed {
  escrows = set empty 1 (agreement disputed);
  disputes = set empty 1 dispute;
  votes = set empty 1 (vote_of 30 true ∷ []);
  next_id = some 2;
  signers = some (30 ∷ 31 ∷ []);
  threshold = some 1;
}

-- Everybody has 500 of every asset, and the contract 100.
abbrev balances : Ledger
balances asset holder = if holder == 99 then pos 100 else pos 500

abbrev world : Store → State Ledger
world s = record { store = s; tokens = balances; events = [] }

abbrev after : Call → State Ledger → State Ledger
after c w = (invoke (perform ledger env c) w).1

-- A whole life: create, fund, dispute, vote, resolve; the seller has 600 in the end.
abbrev life : State Ledger
life = after (Call.resolve_dispute 1 30) (
    after (Call.vote 1 30 true) (
      after (Call.raise_dispute 1 20 500) (
        after (Call.fund_escrow 1 20) (
          after (Call.create_escrow 10 20 5 (pos 100) 3600 7)
            (after (Call.initialize 30 (31 ∷ []) 1 9) (world deployed))))))

life_pays :
    (life.store.escrows 1 ≡ some (record (agreement released) { created_at = 1000 }))
    × (life.tokens 5 10 ≡ pos 600)
    × (life.tokens 5 99 ≡ pos 100)
unfolding invoke perform Escrow.initialize Escrow.create_escrow Escrow.fund_escrow
    Escrow.raise_dispute Escrow.vote Escrow.resolve_dispute has_voted ◌+ℤ◌ ◌-ℤ◌
life_pays = (refl, refl, refl)

waiting-IsWellFormed : IsWellFormed waiting
waiting-IsWellFormed = record {
  positive = omega arith;
  fresh = λ id h. ground arith;
  entries = every-set_left Entry 1 (agreement created) (λ i. tt) (omega arith);
}

paid_in-IsWellFormed : IsWellFormed paid_in
paid_in-IsWellFormed = record {
  positive = omega arith;
  fresh = λ id h. ground arith;
  entries = every-set_left Entry 1 (agreement escrowed) (λ i. tt) (omega arith);
}

in_dispute-IsWellFormed : IsWellFormed in_dispute
in_dispute-IsWellFormed = record {
  positive = omega arith;
  fresh = λ id h. ground arith;
  entries =
      every-set_both Entry 1 (agreement disputed) dispute (λ i. tt)
        (
          record { keyed = refl; positive = omega arith; parties = omega arith },
          record { keyed = refl; uncounted = refl; agrees = tt },
        );
}

in_dispute-IsSolvent : IsSolvent holding self (world in_dispute)
unfolding total
in_dispute-IsSolvent = record {
  well_formed = in_dispute-IsWellFormed;
  outsiders =
      every-set (λ i. Outsiders self) 1 (agreement disputed) (λ i. tt)
        (omega arith, λ h. omega arith);
  covered = λ asset. ground arith;
}

-- A refund that is due is invoked by somebody.
abbrev refund_now : Call
refund_now = Call.auto_refund 1

refunding : (w : State Ledger) → Reach ledger holding self w (after refund_now w)
refunding w = Calls.next here (invoked env refund_now refl refl refl)

Reach-IsSolvent_example : IsSolvent holding self (after refund_now (world in_dispute))
Reach-IsSolvent_example =
    Reach-IsSolvent ledger-IsToken (refunding (world in_dispute)) in_dispute-IsSolvent

perform-Moves_example :
    Moves ledger env (world in_dispute) (perform ledger env refund_now (world in_dispute)).1
unfolding perform Escrow.auto_refund
perform-Moves_example = perform-Moves ledger env (world in_dispute) refund_now refl

Reach-IsWellFormed_example : IsWellFormed (after refund_now (world in_dispute)).store
Reach-IsWellFormed_example =
    Reach-IsWellFormed (refunding (world in_dispute)) in_dispute-IsWellFormed

Reach-Remains_example : Remains (after refund_now (world in_dispute)).store 1 (agreement disputed)
Reach-Remains_example =
    Reach-Remains (refunding (world in_dispute)) in_dispute-IsWellFormed 1 (agreement disputed) refl

Reach-Distinct_example : Distinct (get_votes 1 (after refund_now (world in_dispute)).store)
unfolding has_voted
Reach-Distinct_example =
    Reach-Distinct (refunding (world in_dispute))
      (every-set (λ i o. Distinct (get_or o [])) 1 (vote_of 30 true ∷ []) (λ i. tt) (refl, tt)) 1

resolve_dispute_pays_example :
    (e : Escrow) × (d : Dispute) × (v : Verdict) × (in_dispute.escrows 1 ≡ some e)
    × (in_dispute.disputes 1 ≡ some d)
    × (is_signer 31 in_dispute ≡ true)
    × (verdict 1 in_dispute ≡ some v)
    × ((Escrow.resolve_dispute ledger env 1 31 (world in_dispute)).1.store.escrows 1
        ≡ some (record e { state = state_of v }))
    × ((Escrow.resolve_dispute ledger env 1 31 (world in_dispute)).1.store.disputes 1
        ≡ some (record d { status = status_of v }))
    × IsPayment holding e.asset 99
        (payee v e)
        e.amount
        balances
        (Escrow.resolve_dispute ledger env 1 31 (world in_dispute)).1.tokens
unfolding Escrow.resolve_dispute
resolve_dispute_pays_example =
    resolve_dispute_pays ledger-IsToken env 1 (world in_dispute) in_dispute-IsSolvent 31 refl

resolve_dispute-answer_example :
    (Escrow.resolve_dispute ledger env 1 31 (world in_dispute)).0 ≡ ok tt
unfolding is_signer count_release_votes
resolve_dispute-answer_example =
    resolve_dispute-answer ledger env 1 (world in_dispute) (agreement disputed) dispute refl refl
      refl 31 refl refl

auto_refund_available_example :
    (e : Escrow) × (in_dispute.escrows 1 ≡ some e)
    × ((Escrow.auto_refund ledger env 1 (world in_dispute)).0
        ≡ paid (ledger.transfer e.asset 99 e.buyer e.amount balances).0)
auto_refund_available_example =
    auto_refund_available ledger env 1 (world in_dispute) in_dispute-IsWellFormed dispute refl refl
      (omega arith)

zero_window_refund_example :
    let raised = Escrow.raise_dispute env 1 20 0 (world paid_in) in
    let refunded' = Escrow.auto_refund ledger env 1 raised.1 in
    (raised.0 ≡ ok tt)
    × (refunded'.0 ≡ ok tt)
    × (refunded'.1.tokens ≡ (ledger.transfer 5 99 20 (pos 100) balances).1)
    × (refunded'.1.store.escrows 1 ≡ some (agreement refunded))
zero_window_refund_example =
    zero_window_refund ledger env 1 (world paid_in) paid_in-IsWellFormed (agreement escrowed) refl
      refl refl (omega arith) (λ e. cc)

vote_counts_example :
    let s' = (Escrow.vote env 1 31 false (world in_dispute)).1.store in
    (count_release_votes 1 s' ≡ count_release_votes 1 in_dispute + 0)
    × (count_refund_votes 1 s' ≡ count_refund_votes 1 in_dispute + 1)
    × ((j : ℕ)
        → get_votes j s' ≡ (
            if 1 == j
            then get_votes 1 in_dispute
              ++ record { signer = 31; in_favour_of_release = false; voted_at = 1000 } ∷ []
            else get_votes j in_dispute))
unfolding Escrow.vote has_voted
vote_counts_example = vote_counts env 1 31 false (world in_dispute) refl

-- The world after the vote of 31.
abbrev second_vote : State Ledger
second_vote = (Escrow.vote env 1 31 false (world in_dispute)).1

vote_twice_example : Escrow.vote env 1 31 true second_vote ≡ (err duplicate_vote, second_vote)
unfolding Escrow.vote has_voted
vote_twice_example =
    vote_twice {tok = ledger} {holding = holding} {self = self} env env 1 31 false true
      (world in_dispute) second_vote dispute refl here refl refl refl refl

abbrev first_creation : State Ledger
first_creation = (Escrow.create_escrow ledger env 10 20 5 (pos 100) 3600 7 (world deployed)).1

create_twice_example :
    Escrow.create_escrow ledger env 10 21 6 (pos 1) 9999 7 first_creation ≡ (ok 1, first_creation)
unfolding Escrow.create_escrow
create_twice_example =
    create_twice {tok = ledger} {holding = holding} {self = self} env env 10 20 21 5 6 (pos 100)
      (pos 1) 3600 9999 7 1 (world deployed) first_creation refl here refl (omega arith)
      (omega arith) (omega arith) (λ e. cc)

initialize_signers_example :
    let s' = (Escrow.initialize env 30 (31 ∷ 30 ∷ []) 2 60 (world deployed)).1.store in
    ((a : Address) → is_signer a s' ≡ (30 == a || contains (31 ∷ 30 ∷ []) a))
    × (load_threshold s' ≡ 2)
    × (0 < load_threshold s')
    × (load_threshold s' ≤ length (load_signers s'))
unfolding Escrow.initialize
initialize_signers_example = initialize_signers env 30 (31 ∷ 30 ∷ []) 2 60 (world deployed) refl

initialize_again_example :
    let (r, w') = Escrow.initialize env 66 [] 1 0 (world in_dispute) in
    (r ≡ ok tt)
    × (is_signer 66 w'.store ≡ true)
    × (load_threshold w'.store ≡ 1)
    × (load_signers w'.store ≡ 66 ∷ [])
initialize_again_example = initialize_again env 66 [] 1 0 (world in_dispute) refl

failed_writes_nothing_example :
    ((perform ledger env (Call.vote 1 30 false) (world in_dispute)).1.store ≡ in_dispute)
    × ((perform ledger env (Call.vote 1 30 false) (world in_dispute)).1.events ≡ [])
unfolding perform Escrow.vote has_voted is_signer
failed_writes_nothing_example =
    failed_writes_nothing ledger env (world in_dispute) (Call.vote 1 30 false) (λ e. cc)
