-- ===== src/TradeEngine/Storage.antt =====
-- The storage of the trade engine: swaptrade-contracts/trade-engine/src/storage.rs, and the token calls of
-- token.rs. A key that was never written is `none`, or a map with no entry.
use swaptrade_contract.Prelude.{ℕ, ◌+◌, Option, none, some, List, get_or, ltb, if◌then◌else◌}
use swaptrade_contract.Prelude.Int.{ℤ, pos, leb_ℤ}
use swaptrade_contract.Prelude.Maps.{Map, PairMap, empty}
use swaptrade_contract.Host.{
  Address, Result, ok, trap, World, Action, u64_max, gets, modify, pure, trap_if, ◌>>=◌, ◌>>◌,
}
use swaptrade_contract.Host.Tokens.{Tokens}
use swaptrade_contract.Host.Words.{is_i128}
use swaptrade_contract.TradeEngine.Types.{TradeError, Order, LiquidityPool, PairOrderBook, Event}

pub record Store : Type 0 where
  pub admin : Option Address
  pub next_order_id : Option ℕ
  pub next_pool_id : Option ℕ
  pub orders : Map Order
  pub books : PairMap PairOrderBook
  pub user_orders : Map (List ℕ)
  pub pools : Map LiquidityPool
  pub pair_pools : PairMap ℕ

-- A contract that has just been deployed.
abbrev pub deployed : Store
deployed = record {
  admin = none;
  next_order_id = none;
  next_pool_id = none;
  orders = empty;
  books = λ a b. none;
  user_orders = empty;
  pools = empty;
  pair_pools = λ a b. none;
}

abbrev pub next_order : Store → ℕ
next_order s = get_or s.next_order_id 1

abbrev pub next_pool : Store → ℕ
next_pool s = get_or s.next_pool_id 1

-- Every operation of the contract is such an action.
abbrev pub Op : Type 0 → Type 0 → Type 0
Op L A = Action TradeError (World Store Event L) A

module _ {L : Type 0} where
  -- `id + 1` is checked: the release profile has `overflow-checks = true`.
  abbrev pub get_next_order_id : Op L ℕ
  get_next_order_id = do
    id ← gets next_order
    trap_if (ltb u64_max (id + 1))
    modify (λ s. record s { next_order_id = some (id + 1) })
    pure id

  abbrev pub get_next_pool_id : Op L ℕ
  get_next_pool_id = do
    id ← gets next_pool
    trap_if (ltb u64_max (id + 1))
    modify (λ s. record s { next_pool_id = some (id + 1) })
    pure id

  -- The result of `+`, `-`, `+=` or `-=` on i128, which panics out of range.
  abbrev pub checked : ℤ → Op L ℤ
  checked z w = (if is_i128 z then ok z else trap, w)

module _ {L : Type 0} (tok : Tokens L) where
  -- `client.transfer` panics where the token contract refuses.
  abbrev pub transferred : Option ℤ → Result TradeError (Unit {0})
  transferred (some x) = ok tt
  transferred none = trap

  abbrev pub transfer_token : Address → Address → Address → ℤ → Op L (Unit {0})
  transfer_token asset from to amount w =
      if leb_ℤ amount (pos 0)
      then (ok tt, w)
      else (let (r, l) = tok.transfer asset from to amount w.tokens in
          (transferred r, record w { tokens = l }))
