-- ===== src/Governance/Tests.antt =====
-- Runs of the governance contract, and its theorems at concrete inputs: the signers 10, 11 and 12 with a
-- threshold of 2 and a delay of 100, and the proposal 0 of signer 10 to add the signer 13.
use swaptrade_contract.Prelude.{
  ℕ, ◌≡◌, ◌≤◌, refl, true, false, not, some, List, [], ◌∷◌, length, ◌==◌, arith, inl,
}
use swaptrade_contract.Prelude.Maps.{empty, set, every-set}
use swaptrade_contract.Host.{Address, Env, ok, err, invoke, saturating_add}
use swaptrade_contract.Governance
use swaptrade_contract.Governance.Types.{
  Proposal, add_signer, proposal_already_executed, proposal_not_found,
}
use swaptrade_contract.Governance.Signers.{contains, Distinct}
use swaptrade_contract.Governance.Storage.{deployed}
use swaptrade_contract.Governance.Controller
use swaptrade_contract.Governance.Proxy
use swaptrade_contract.Governance.Calls.{State, Call, Reach, here, perform}
use swaptrade_contract.Governance.Calls
use swaptrade_contract.Governance.Machine.{Changes, filing, applied}
use swaptrade_contract.Governance.Changes.{governance_call-Changes}
use swaptrade_contract.Governance.Sound.{IsSound, Filed, governance-IsSound}
use swaptrade_contract.Governance.Closed.{Kept, Reach-Kept}
use swaptrade_contract.Governance.Started.{initialize_once}
use swaptrade_contract.Governance.Types.{already_initialized, set_threshold, remove_signer}
use swaptrade_contract.Governance.Thresholds.{zero_threshold_passes}
use swaptrade_contract.Governance.Outcomes.{
  execute_checks, execute_once, cancel_final, unsigned_upgrade,
}

abbrev env_at : ℕ → Env
env_at t = record { now = t; contract = 99; signed = λ a. not (a == 99) }

-- Nobody has signed.
abbrev unsigned : Env
unsigned = record { now = 5; contract = 99; signed = λ a. false }

abbrev addition : List Address → Proposal
addition signatures = record {
  id = 0;
  proposer = 10;
  action = add_signer 13;
  signatures = signatures;
  threshold = 2;
  created_at = 1000;
  execute_after = 1100;
  executed = false;
  canceled = false;
  nonce = 1;
}

abbrev signers : List Address
signers = 10 ∷ 11 ∷ 12 ∷ []

-- The proposal 0 with two signatures.
abbrev ready : State (Unit {0})
ready = record {
  store = record deployed {
    signers = some signers;
    threshold = some 2;
    proposals = set empty 0 (addition (10 ∷ 12 ∷ []));
    proposal_count = some 1;
    initialized = some true;
    paused = some false;
    timelock_delay = some 100;
    implementation = some 70;
    nonce = some 1;
  };
  tokens = tt;
  events = [];
}

abbrev after : ℕ → Call → State (Unit {0}) → State (Unit {0})
after t c w = (invoke (perform (env_at t) c) w).1

-- A whole life: the fourth signer is there in the end.
abbrev life : State (Unit {0})
life = after 1100 (Call.execute 77 0) (
    after 1020 (Call.approve 12 0) (
      after 1010 (Call.approve 10 0) (
        after 1000 (Call.propose 10 (add_signer 13)) (
          after 900 (Call.initialize 10 signers 2 100 70)
            (record { store = deployed; tokens = tt; events = [] })))))

life_adds : life.store.signers ≡ some (10 ∷ 11 ∷ 12 ∷ 13 ∷ [])
unfolding invoke perform Governance.initialize Controller.propose Controller.approve
    Controller.execute contains
life_adds = refl

ready-IsSound : IsSound ready.store
unfolding contains
ready-IsSound = record {
  filed =
      every-set (Filed 1) 0 (addition (10 ∷ 12 ∷ [])) (λ i. tt)
        (refl, omega arith, (refl, (refl, tt)));
  blank = inl refl;
}

abbrev execution : Call
execution = Call.execute 77 0

governance_call-Changes_example :
    Changes (env_at 1100) ready.store (perform (env_at 1100) execution ready).1.store
unfolding perform Controller.execute contains
governance_call-Changes_example = governance_call-Changes (env_at 1100) ready execution refl

governance-IsSound_example : IsSound (after 1100 execution ready).store
governance-IsSound_example =
    governance-IsSound (Calls.next (env_at 1100) execution here) ready-IsSound

Reach-Kept_example : Kept (after 1100 execution ready).store 0 (addition (10 ∷ 12 ∷ []))
Reach-Kept_example =
    Reach-Kept (Calls.next (env_at 1100) execution here) ready-IsSound 0 (addition (10 ∷ 12 ∷ []))
      refl

execute_checks_example :
    (p : Proposal) × (ready.store.proposals 0 ≡ some p)
    × (p.executed ≡ false)
    × (p.canceled ≡ false)
    × (p.execute_after ≤ 1100)
    × (p.threshold ≤ length p.signatures)
    × Distinct p.signatures
    × ((Controller.execute (env_at 1100) 77 0 ready).1.store.proposals 0
        ≡ some (record p { executed = true }))
unfolding Controller.execute contains
execute_checks_example = execute_checks (env_at 1100) 0 ready 77 ready-IsSound refl

abbrev done : State (Unit {0})
done = (Controller.execute (env_at 1100) 77 0 ready).1

execute_once_example :
    Controller.execute (env_at 1200) 78 0 done ≡ (err proposal_already_executed, done)
unfolding Controller.execute contains
execute_once_example =
    execute_once (env_at 1100) (env_at 1200) 0 77 78 ready done ready-IsSound refl refl here

abbrev dropped : State (Unit {0})
dropped = (Controller.cancel (env_at 1050) 10 0 ready).1

cancel_final_example :
    (Controller.execute (env_at 1200) 11 0 dropped ≡ (err proposal_not_found, dropped))
    × (Controller.approve (env_at 1200) 11 0 dropped ≡ (err proposal_not_found, dropped))
unfolding Controller.cancel
cancel_final_example =
    cancel_final (env_at 1050) (env_at 1200) 0 10 11 ready dropped ready-IsSound refl refl here

unsigned_upgrade_example :
    let (r, w1) = Proxy.schedule_upgrade 66 ready in
    let (r', w2) = Proxy.execute_scheduled_upgrade unsigned w1 in
    (r ≡ ok tt)
    × (r' ≡ ok 66)
    × (w2.store.implementation ≡ some 66)
    × (w2.store.proposals ≡ ready.store.proposals)
unsigned_upgrade_example = unsigned_upgrade unsigned ready 70 66 refl refl (λ e. omega (arith, e))

abbrev blank : State (Unit {0})
blank = record { store = deployed; tokens = tt; events = [] }

abbrev started : State (Unit {0})
started = (Governance.initialize (env_at 900) 10 signers 2 100 70 blank).1

initialize_once_example :
    Governance.initialize (env_at 950) 66 (66 ∷ []) 1 0 66 started
    ≡ (err already_initialized, started)
unfolding Governance.initialize
initialize_once_example =
    initialize_once (env_at 900) (env_at 950) 10 66 signers (66 ∷ []) 2 1 100 0 70 66 blank started
      refl here refl

-- The same proposal, to set the threshold to 0.
abbrev lowering : Proposal
lowering = record (addition (10 ∷ 12 ∷ [])) { action = set_threshold 0 }

abbrev to_lower : State (Unit {0})
to_lower = record ready { store = record ready.store { proposals = set empty 0 lowering } }

-- Signer 12 alone then proposes to remove the signer 10, and 77, no signer, executes it.
zero_threshold_passes_example :
    let w1 = (Controller.execute (env_at 1100) 77 0 to_lower).1 in
    let (r, w2) = Controller.propose (env_at 1150) 12 (remove_signer 10) w1 in
    let (r', w3) = Controller.execute (env_at 1250) 77 1 w2 in
    (r ≡ ok 1)
    × (r' ≡ ok tt)
    × ((q : Proposal) × (q.action ≡ remove_signer 10)
        × (q.signatures ≡ [])
        × (w3.store ≡ filing 1 q (applied (remove_signer 10) w2.store)))
unfolding Controller.execute contains saturating_add
zero_threshold_passes_example =
    zero_threshold_passes (env_at 1100) (env_at 1150) (env_at 1250) 77 12 77 0 lowering
      (remove_signer 10) to_lower refl refl refl refl refl (omega arith) (omega arith) (omega arith)
      refl tt
