-- ===== src/Governance/Started.antt =====
-- `initialize` of swaptrade-contracts/governance/src/lib.rs over time.
use swaptrade_contract.Prelude.{ℕ, ◌≡◌, inl, inr, true, List, arith}
use swaptrade_contract.Host.{Address, Env, ok, err, invoke_cases}
use swaptrade_contract.Governance
use swaptrade_contract.Governance.Types.{already_initialized}
use swaptrade_contract.Governance.Storage.{Store, load_initialized}
use swaptrade_contract.Governance.Calls.{State, Reach, here}
use swaptrade_contract.Governance.Calls
use swaptrade_contract.Governance.Effects.{
  Effects, quiet, starting, adding, rewriting, governance_call-Effects,
}

Effects-started :
    (s s' : Store) → Effects s s' → load_initialized s ≡ true → load_initialized s' ≡ true
Effects-started s s' (quiet p c i g) h = rw i h
Effects-started s s' (starting z p i) h = ground arith
Effects-started s s' (adding p g k e ps c i) h = rw i h
Effects-started s s' (rewriting j p p' e x r ps c i) h = rw i h

module _ {L : Type 0} where
  Reach-started :
      {w w' : State L}
      → Reach w w'
      → load_initialized w.store ≡ true
      → load_initialized w'.store ≡ true
  Reach-started here h = h
  Reach-started (Calls.next {t} env c r) h = elim (invoke_cases (Calls.perform env c) t) [
    | inl same ↦ rw same (Reach-started r h)
    | inr (_, done, kept) ↦ rw kept (
        Effects-started t.store (Calls.perform env c t).1.store
          (governance_call-Effects env t c done) (Reach-started r h))
  ]

  initialize_marks :
      (env : Env) (admin : Address) (signers : List Address) (threshold delay : ℕ)
      (implementation : Address) (w : State L)
      → (Governance.initialize env admin signers threshold delay implementation w).0 ≡ ok tt
      → load_initialized
          (Governance.initialize env admin signers threshold delay implementation w).1.store
        ≡ true
  unfolding Governance.initialize
  initialize_marks env admin signers threshold delay implementation w h = ground arith

  refused_started :
      (env : Env) (admin : Address) (signers : List Address) (threshold delay : ℕ)
      (implementation : Address) (w : State L)
      → load_initialized w.store ≡ true
      → env.signed admin ≡ true
      → Governance.initialize env admin signers threshold delay implementation w
        ≡ (err already_initialized, w)
  unfolding Governance.initialize
  refused_started env admin signers threshold delay implementation w h s = ground arith

  -- After an `initialize` that returned `Ok`, whatever is invoked in between, every other `initialize`, whoever
  -- signs it and whatever its arguments, is refused and changes nothing.
  pub initialize_once :
      (env env' : Env) (admin admin' : Address) (signers signers' : List Address)
      (threshold threshold' delay delay' : ℕ) (implementation implementation' : Address)
      (w w' : State L)
      → (Governance.initialize env admin signers threshold delay implementation w).0 ≡ ok tt
      → Reach (Governance.initialize env admin signers threshold delay implementation w).1 w'
      → env'.signed admin' ≡ true
      → Governance.initialize env' admin' signers' threshold' delay' implementation' w'
        ≡ (err already_initialized, w')
  initialize_once env env' admin admin' signers signers' threshold threshold' delay delay'
        implementation implementation' w w' h r s =
      refused_started env' admin' signers' threshold' delay' implementation' w'
        (Reach-started r (initialize_marks env admin signers threshold delay implementation w h)) s
