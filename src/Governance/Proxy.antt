-- ===== src/Governance/Proxy.antt =====
-- The proxy: swaptrade-contracts/governance/src/upgradeable_proxy.rs.
use swaptrade_contract.Prelude.{Bool, true, false, not, none, some, [], ◌==◌}
use swaptrade_contract.Host.{
  Address, Env, raise_if, or_raise, gets, modify, publish, pure, ◌>>=◌, ◌>>◌,
}
use swaptrade_contract.Governance.Types.{
  contract_paused, contract_not_paused, implementation_unchanged, upgrade_not_scheduled, upgraded,
}
use swaptrade_contract.Governance.Storage.{
  Op, load_paused, load_implementation, load_upgrade_scheduled, store_signers, store_threshold,
  store_paused, store_initialized, store_timelock_delay, store_implementation, store_proposal_count,
  store_nonce, store_upgrade_scheduled,
}

module _ {L : Type 0} where
  -- No entry point of the contract calls it.
  unfoldable pub initialize_proxy : Address → Address → Op L (Unit {0})
  initialize_proxy implementation admin = do
    modify (store_implementation implementation)
    modify (store_signers [])
    modify (store_threshold 0)
    modify (store_initialized true)
    modify (store_paused false)
    modify (store_timelock_delay 0)
    modify (store_proposal_count 0)
    modify (store_nonce 0)

  unfoldable pub schedule_upgrade : Address → Op L (Unit {0})
  schedule_upgrade new_implementation = do
    paused ← gets load_paused
    raise_if paused contract_paused
    current ← load_implementation
    raise_if (current == new_implementation) implementation_unchanged
    modify (store_upgrade_scheduled (some new_implementation))

  unfoldable pub execute_scheduled_upgrade : Env → Op L Address
  execute_scheduled_upgrade env = do
    pending ← gets load_upgrade_scheduled
    scheduled ← or_raise pending upgrade_not_scheduled
    old_impl ← load_implementation
    modify (store_implementation scheduled)
    modify (store_upgrade_scheduled none)
    modify (store_paused false)
    publish (upgraded env 0 old_impl scheduled)
    pure scheduled

  unfoldable pub pause : Op L (Unit {0})
  pause = do paused ← gets load_paused; raise_if paused contract_paused; modify (store_paused true)

  unfoldable pub unpause : Op L (Unit {0})
  unpause = do
    paused ← gets load_paused
    raise_if (not paused) contract_not_paused
    modify (store_paused false)

  abbrev pub get_implementation : Op L Address
  get_implementation = load_implementation

  abbrev pub is_paused : Op L Bool
  is_paused = gets load_paused
