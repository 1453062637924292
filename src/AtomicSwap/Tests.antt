-- ===== src/AtomicSwap/Tests.antt =====
-- Runs of the atomic swap contract, and its theorems at concrete inputs: 100 of asset 5 from the creator 10
-- against 40 of asset 6 from the counterparty 20, until the time 2000. The contract is 99.
use swaptrade_contract.Prelude.{
  ℕ, ◌≡◌, ◌≢◌, ◌⊎◌, refl, Bool, true, false, not, some, [], ◌==◌, if◌then◌else◌, arith,
}
use swaptrade_contract.Prelude.Int.{pos, ◌+ℤ◌, ◌-ℤ◌}
use swaptrade_contract.Prelude.Maps.{set, empty, every-set}
use swaptrade_contract.Prelude.Sums.{total}
use swaptrade_contract.Host.{Address, Env, ok, invoke}
use swaptrade_contract.Host.Ledger.{Ledger, ledger, holding, ledger-IsToken}
use swaptrade_contract.AtomicSwap
use swaptrade_contract.AtomicSwap.Types.{Swap, SwapState, created, funded, accepted}
use swaptrade_contract.AtomicSwap.Storage.{Store, deployed}
use swaptrade_contract.AtomicSwap.Calls.{State, Call, perform, Reach, here, invoked}
use swaptrade_contract.AtomicSwap.Calls
use swaptrade_contract.AtomicSwap.Moves.{Moves, side_a, side_b, closed, returned}
use swaptrade_contract.AtomicSwap.Refinement.{swap_call-Moves}
use swaptrade_contract.AtomicSwap.WellFormed.{IsWellFormed, Entry, swaps-IsWellFormed}
use swaptrade_contract.AtomicSwap.Custody.{IsSolvent, swaps-IsSolvent}
use swaptrade_contract.AtomicSwap.Liabilities.{Outsiders}
use swaptrade_contract.AtomicSwap.Settled.{Remains, swaps-Remains}
use swaptrade_contract.AtomicSwap.Outcomes.{
  IsExchange, accept_swap_atomic, accept_excludes_refund, refund_swap_available,
}

abbrev self : Address
self = 99

-- Everybody signs, but for the contract.
abbrev env_at : ℕ → Env
env_at t = record { now = t; contract = self; signed = λ a. not (a == 99) }

abbrev deal : SwapState → Bool → Bool → Swap
deal s a b = record {
  id = 1;
  nonce = 7;
  creator = 10;
  counterparty = 20;
  asset_a = 5;
  amount_a = pos 100;
  asset_b = 6;
  amount_b = pos 40;
  expiry = 2000;
  state = s;
  creator_funded = a;
  counterparty_funded = b;
  created_at = 50;
}

abbrev store : Swap → Store
store s = record deployed { swaps = set empty 1 s; next_id = some 2 }

-- Everybody has 500 of every asset, and the contract 100.
abbrev balances : Ledger
balances asset holder = if holder == 99 then pos 100 else pos 500

abbrev world : Store → State Ledger
world s = record { store = s; tokens = balances; events = [] }

abbrev ready : State Ledger
ready = world (store (deal funded true true))

abbrev half_way : State Ledger
half_way = world (store (deal created true false))

abbrev after : ℕ → Call → State Ledger → State Ledger
after t c w = (invoke (perform ledger (env_at t) c) w).1

-- A whole life: create, fund on both sides, accept.
abbrev life : State Ledger
life = after 1100 (Call.accept_swap 1 20) (
    after 1050 (Call.fund_swap 1 20) (
      after 1020 (Call.fund_swap 1 10)
        (after 1000 (Call.create_swap 10 20 5 (pos 100) 6 (pos 40) 2000 7) (world deployed))))

life_exchanges :
    (life.store.swaps 1 ≡ some (record (deal accepted true true) { created_at = 1000 }))
    × (life.tokens 5 20 ≡ pos 600)
    × (life.tokens 6 10 ≡ pos 540)
    × (life.tokens 5 99 ≡ pos 100)
unfolding invoke perform AtomicSwap.create_swap AtomicSwap.fund_swap AtomicSwap.accept_swap ◌+ℤ◌
    ◌-ℤ◌
life_exchanges = (refl, refl, refl, refl)

ready-IsWellFormed : IsWellFormed ready.store
ready-IsWellFormed = record {
  positive = omega arith;
  fresh = λ id h. ground arith;
  entries =
      every-set Entry 1 (deal funded true true) (λ i. tt)
        (record {
          keyed = refl;
          positive_a = omega arith;
          positive_b = omega arith;
          assets = omega arith;
          parties = omega arith;
          flags = tt;
        });
}

half_way-IsWellFormed : IsWellFormed half_way.store
half_way-IsWellFormed = record {
  positive = omega arith;
  fresh = λ id h. ground arith;
  entries =
      every-set Entry 1 (deal created true false) (λ i. tt)
        (record {
          keyed = refl;
          positive_a = omega arith;
          positive_b = omega arith;
          assets = omega arith;
          parties = omega arith;
          flags = tt;
        });
}

ready-IsSolvent : IsSolvent holding self ready
unfolding total
ready-IsSolvent = record {
  well_formed = ready-IsWellFormed;
  outsiders =
      every-set (λ i. Outsiders self) 1 (deal funded true true) (λ i. tt)
        (omega arith, λ h. omega arith);
  covered = λ a. ground arith;
}

abbrev acceptance : Call
acceptance = Call.accept_swap 1 20

accepting : Reach ledger holding self ready (after 1100 acceptance ready)
accepting = Calls.next here (invoked (env_at 1100) acceptance refl refl (omega arith) refl)

swaps-IsSolvent_example : IsSolvent holding self (after 1100 acceptance ready)
swaps-IsSolvent_example = swaps-IsSolvent ledger-IsToken accepting ready-IsSolvent

swap_call-Moves_example :
    Moves ledger (env_at 1100) ready (perform ledger (env_at 1100) acceptance ready).1
unfolding perform AtomicSwap.accept_swap ◌+ℤ◌ ◌-ℤ◌
swap_call-Moves_example = swap_call-Moves ledger (env_at 1100) (omega arith) ready acceptance refl

swaps-IsWellFormed_example : IsWellFormed (after 1100 acceptance ready).store
swaps-IsWellFormed_example = swaps-IsWellFormed accepting ready-IsWellFormed

swaps-Remains_example : Remains (after 1100 acceptance ready).store 1 (deal funded true true)
swaps-Remains_example = swaps-Remains accepting ready-IsWellFormed 1 (deal funded true true) refl

accept_swap_atomic_example :
    let w' = (invoke (AtomicSwap.accept_swap ledger (env_at 1100) 1 20) ready).1 in
    (w' ≡ ready) ⊎ IsExchange ledger holding (env_at 1100) ready 1 20 (deal funded true true) w'
accept_swap_atomic_example =
    accept_swap_atomic ledger-IsToken (env_at 1100) 1 ready ready-IsSolvent 20
      (deal funded true true) refl

accept_excludes_refund_example : (AtomicSwap.refund_swap ledger (env_at 1100) 1 ready).0 ≢ ok tt
unfolding AtomicSwap.accept_swap ◌+ℤ◌ ◌-ℤ◌
accept_excludes_refund_example =
    accept_excludes_refund ledger 1 ready (deal funded true true) refl (env_at 1100) (env_at 1100)
      20 (omega arith) refl

refund_swap_available_example :
    let (r, w') = AtomicSwap.refund_swap ledger (env_at 2000) 1 half_way in
    (r ≡ ok tt)
    × (w'.store.swaps 1 ≡ some (closed (deal created true false)))
    × (w'.tokens
        ≡ returned ledger side_b
            (deal created true false)
            99
            (returned ledger side_a (deal created true false) 99 balances))
refund_swap_available_example =
    refund_swap_available ledger 1 half_way (deal created true false) refl (env_at 2000)
      half_way-IsWellFormed refl refl (omega arith) refl (λ f. (pos 100, refl)) (λ f. cc)
