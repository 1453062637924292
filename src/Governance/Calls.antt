-- ===== src/Governance/Calls.antt =====
-- Invocations of the governance contract: any entry point that writes, by anyone, in any order.
use swaptrade_contract.Prelude.{ℕ, List}
use swaptrade_contract.Host.{Address, Env, World, invoke, pure, ◌>>◌}
use swaptrade_contract.Governance
use swaptrade_contract.Governance.Types.{ProposalAction, Event}
use swaptrade_contract.Governance.Storage.{Store, Op}
use swaptrade_contract.Governance.Controller
use swaptrade_contract.Governance.Proxy

abbrev pub State : Type 0 → Type 0
State L = World Store Event L

-- The entry points with their arguments, `env` apart.
pub data Call : Type 0 where
  initialize : Address → List Address → ℕ → ℕ → Address → Call
  propose : Address → ProposalAction → Call
  approve revoke execute cancel : Address → ℕ → Call
  schedule_upgrade : Address → Call
  execute_upgrade pause unpause : Call

module _ {L : Type 0} where
  -- The entry point that a call names; the values that `propose` and `execute_upgrade` return are
  -- dropped.
  unfoldable pub perform : Env → Call → Op L (Unit {0})
  perform env (initialize admin signers threshold timelock_delay implementation) =
      Governance.initialize env admin signers threshold timelock_delay implementation
  perform env (propose proposer action) = Controller.propose env proposer action >> pure tt
  perform env (approve signer id) = Controller.approve env signer id
  perform env (revoke signer id) = Controller.revoke env signer id
  perform env (execute executor id) = Controller.execute env executor id
  perform env (cancel caller id) = Controller.cancel env caller id
  perform env (schedule_upgrade new_implementation) = Proxy.schedule_upgrade new_implementation
  perform env execute_upgrade = Proxy.execute_scheduled_upgrade env >> pure tt
  perform env pause = Proxy.pause
  perform env unpause = Proxy.unpause

  -- The states that a sequence of invocations leads to.
  pub data Reach (w : State L) : State L → Type 0 where
    here : Reach w w
    next : {t : State L} (env : Env) (c : Call) → Reach w t → Reach w (invoke (perform env c) t).1
