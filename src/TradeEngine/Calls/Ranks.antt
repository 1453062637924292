-- ===== src/TradeEngine/Calls/Ranks.antt =====
-- The order of the books of the trade engine under every invocation.
use swaptrade_contract.Prelude.{◌+◌, ◌≡◌, refl, some, arith}
use swaptrade_contract.Host.{Address}
use swaptrade_contract.Host.Tokens.{Tokens}
use swaptrade_contract.TradeEngine.Types.{Order, buy, sell}
use swaptrade_contract.TradeEngine.Storage.{Store, next_order, deployed}
use swaptrade_contract.TradeEngine.OrderBook.{save_order, add_user_order, load_book, ids_of}
use swaptrade_contract.TradeEngine.Ranking.{
  IsRanked, new_order-IsRanked, save_order-IsRanked, remove_order_id-IsRanked, add_order-IsRanked,
  load_book-Below, load_book-Ranked,
}
use swaptrade_contract.TradeEngine.Ranking.Trades.{Leg-IsRanked}
use swaptrade_contract.TradeEngine.Calls.Keeps.{IsKept, Reach_keeps, placed, cancelled_order}
use swaptrade_contract.TradeEngine.Priority.{Ranked, prices}
use swaptrade_contract.TradeEngine.Calls.{State, Reach}

pub deployed-IsRanked : IsRanked deployed
deployed-IsRanked = record { entries = λ id. tt; shelves = λ a b. tt }

placed-IsRanked :
    {s : Store} → IsRanked s → (o : Order) → o.order_id ≡ next_order s → IsRanked (placed o s)
placed-IsRanked {s} h o k =
    let saved = new_order-IsRanked h o k in
    let listed : IsRanked (
        add_user_order o.owner o.order_id
          (save_order o (record s { next_order_id = some (o.order_id + 1) }))) =
      record { entries = saved.entries; shelves = saved.shelves } in
    add_order-IsRanked listed o (ground arith)
      (rw k (load_book-Below h o.side o.base_asset o.quote_asset))

pub IsRanked-IsKept : IsKept IsRanked
IsRanked-IsKept = record {
  placing = λ o h k _ _ _. placed-IsRanked h o k;
  cancelling = λ id o h e _.
      remove_order_id-IsRanked (save_order-IsRanked h id o (cancelled_order o) e refl refl)
        o.base_asset o.quote_asset o.side id;
  trading = λ {s} {s'} env trader leg fills h l. Leg-IsRanked env trader leg s s' fills h l;
  other = λ h (o, b, n). record { entries = rw (o, n) h.entries; shelves = rw (o, b) h.shelves };
}

module _ {L : Type 0} (tok : Tokens L) where
  -- After any sequence of invocations of a contract that has just been deployed, in each list of
  -- every stored book every id has a stored order, and of two ids the order of the earlier has the
  -- better price, or the same price and the smaller id.
  pub books-IsRanked :
      {w w' : State L}
      → w.store ≡ deployed
      → Reach tok w w'
      → (base quote : Address)
      → Ranked buy (prices w'.store.orders) (ids_of buy (load_book base quote w'.store))
        × Ranked sell (prices w'.store.orders) (ids_of sell (load_book base quote w'.store))
  books-IsRanked d r base quote =
      let h = Reach_keeps tok IsRanked IsRanked-IsKept r (rw d deployed-IsRanked) in
      (load_book-Ranked h buy base quote, load_book-Ranked h sell base quote)
