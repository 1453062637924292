-- ===== src/AtomicSwap/Queries.antt =====
-- The read-only entry points of `AtomicSwapContract`: swaptrade-contracts/atomic-swap/src/lib.rs.
use swaptrade_contract.Prelude.{ℕ, Bool}
use swaptrade_contract.Host.{Address, gets}
use swaptrade_contract.Host.Tokens.{Tokens}
use swaptrade_contract.AtomicSwap.Types.{Swap}
use swaptrade_contract.AtomicSwap.Storage.{Op, load_swap, min_expiry, has_trustline}

module _ {L : Type 0} where
  abbrev pub get_swap : ℕ → Op L Swap
  get_swap swap_id = load_swap swap_id

  abbrev pub check_trustline : Tokens L → Address → Address → Op L Bool
  check_trustline tok address asset = has_trustline tok address asset

  abbrev pub get_min_expiry : Op L ℕ
  get_min_expiry = gets min_expiry
