-- ===== src/AtomicSwap/Storage.antt =====
-- The storage of the atomic swap contract: swaptrade-contracts/atomic-swap/src/storage.rs. A key that
-- was never written is `none`, or a map with no entry, and each reader has its default.
use swaptrade_contract.Prelude.{ℕ, ◌+◌, Bool, true, false, Option, none, some, get_or, ltb}
use swaptrade_contract.Prelude.Int.{ℤ}
use swaptrade_contract.Prelude.Maps.{Map, PairMap, empty, set, set_pair}
use swaptrade_contract.Host.{
  Address, Result, ok, err, World, Action, u64_max, gets, or_raise, modify, pure, trap_if, ◌>>=◌,
  ◌>>◌,
}
use swaptrade_contract.Host.Tokens.{Tokens}
use swaptrade_contract.AtomicSwap.Types.{Swap, SwapError, swap_not_found, transfer_mismatch, Event}

pub record Store : Type 0 where
  pub swaps : Map Swap
  pub nonces : PairMap ℕ
  pub next_id : Option ℕ
  pub min_expiry : Option ℕ

abbrev pub default_min_expiry : ℕ
default_min_expiry = 300

-- A contract that has just been deployed.
abbrev pub deployed : Store
deployed = record { swaps = empty; nonces = λ a n. none; next_id = none; min_expiry = none }

abbrev pub next : Store → ℕ
next s = get_or s.next_id 1

abbrev pub min_expiry : Store → ℕ
min_expiry s = get_or s.min_expiry default_min_expiry

abbrev pub set_min_expiry : ℕ → Store → Store
set_min_expiry seconds s = record s { min_expiry = some seconds }

abbrev pub find_by_nonce : Address → ℕ → Store → Option ℕ
find_by_nonce creator nonce s = s.nonces creator nonce

abbrev pub save_swap : Swap → Store → Store
save_swap x s = record s {
  swaps = set s.swaps x.id x;
  nonces = set_pair s.nonces x.creator x.nonce x.id;
}

abbrev pub update_swap : Swap → Store → Store
update_swap x s = record s { swaps = set s.swaps x.id x }

-- Every operation of the contract is such an action.
abbrev pub Op : Type 0 → Type 0 → Type 0
Op L A = Action SwapError (World Store Event L) A

module _ {L : Type 0} where
  abbrev pub load_swap : ℕ → Op L Swap
  load_swap id = do s ← gets (λ s. s); or_raise (s.swaps id) swap_not_found

  -- `id + 1` is checked: the release profile has `overflow-checks = true`.
  abbrev pub next_id : Op L ℕ
  next_id = do
    id ← gets next
    trap_if (ltb u64_max (id + 1))
    modify (λ s. record s { next_id = some (id + 1) })
    pure id

module _ {L : Type 0} (tok : Tokens L) where
  -- `matches!(try_invoke_contract(asset, "balance", [address]), Ok(Ok(_)))`
  abbrev pub has_trustline : Address → Address → Op L Bool
  has_trustline address asset w =
      (ok (elim (tok.balance asset address w.tokens) [ none ↦ false | some _ ↦ true ]), w)

  abbrev pub transferred : Option ℤ → Result SwapError ℤ
  transferred (some x) = ok x
  transferred none = err transfer_mismatch

  abbrev pub invoke_transfer : Address → Address → Address → ℤ → Op L ℤ
  invoke_transfer asset from to amount w =
      let (r, l) = tok.transfer asset from to amount w.tokens in
      (transferred r, record w { tokens = l })

  abbrev pub transfer_token_no_auth : Address → Address → Address → ℤ → Op L ℤ
  transfer_token_no_auth = invoke_transfer
