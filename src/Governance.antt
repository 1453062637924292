-- ===== src/Governance.antt =====
-- The entry points of `GovernanceContract`: swaptrade-contracts/governance/src/lib.rs. Those that only
-- pass their arguments on are the functions of `Controller` and `Proxy`.
pub mod Types
pub mod Signers
pub mod Storage
pub mod Controller
pub mod Proxy
pub mod Calls
pub mod Machine
pub mod Changes
pub mod Effects
pub mod Sound
pub mod Closed
pub mod Started
pub mod Thresholds
pub mod Outcomes
mod Tests
use swaptrade_contract.Prelude.{ℕ, true, false, List, length, ltb, ◌==◌, if◌then◌else◌}
use swaptrade_contract.Host.{Address, Env, require_auth, raise_if, gets, modify, ◌>>=◌, ◌>>◌}
use Types.{already_initialized, zero_threshold, threshold_exceeded, empty_signers}
use Signers.{is_empty}
use Storage.{
  Op, load_signers, load_threshold, load_timelock_delay, load_initialized, store_signers,
  store_threshold, store_timelock_delay, store_initialized, store_paused, store_proposal_count,
  store_nonce, store_implementation,
}

module _ {L : Type 0} where
  unfoldable pub initialize : Env → Address → List Address → ℕ → ℕ → Address → Op L (Unit {0})
  initialize env admin signers threshold timelock_delay initial_implementation = do
    require_auth env admin
    initialized ← gets load_initialized
    raise_if initialized already_initialized
    raise_if (threshold == 0) zero_threshold
    raise_if (ltb (length signers) threshold) threshold_exceeded
    raise_if (is_empty signers) empty_signers
    modify (store_signers signers)
    modify (store_threshold threshold)
    modify (store_timelock_delay timelock_delay)
    modify (store_initialized true)
    modify (store_paused false)
    modify (store_proposal_count 0)
    modify (store_nonce 0)
    modify (store_implementation initial_implementation)

  abbrev pub get_signers : Op L (List Address)
  get_signers = gets load_signers

  abbrev pub get_threshold : Op L ℕ
  get_threshold = gets load_threshold

  abbrev pub get_timelock_delay : Op L ℕ
  get_timelock_delay = gets load_timelock_delay
