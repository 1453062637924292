-- ===== src/TradeEngine/Ranking/Trades.antt =====
-- The order of the books through `match_leg` and the legs of a trade.
use swaptrade_contract.Prelude.{
  ℕ, ◌≡◌, ◌∙◌, refl, Bool, true, false, not, Option, some, List, [], ◌∷◌, ◌++◌, if◌then◌else◌,
  arith,
}
use mathlib.Core.List.{append-nil, append_assoc}
use swaptrade_contract.Prelude.Int.{pos, leb_ℤ}
use swaptrade_contract.Prelude.Maps.{PairMap}
use swaptrade_contract.Host.{Address, Env}
use swaptrade_contract.TradeEngine.Types.{Order, OrderSide, PairOrderBook, TradeLeg, FillResult}
use swaptrade_contract.TradeEngine.Storage.{Store}
use swaptrade_contract.TradeEngine.OrderBook.{save_order, save_book, load_book, ids_of, with_ids}
use swaptrade_contract.TradeEngine.Matching.{Tally, with_fill, fill_base_of, opposite}
use swaptrade_contract.TradeEngine.Matching.Rounds.{
  after_fill, Round, Rounds, drop, pass, fill, done, stop, round,
}
use swaptrade_contract.TradeEngine.Matching.Legs.{Fallback, unused, beyond, pooled, Leg}
use swaptrade_contract.TradeEngine.Priority.{Known, prices, Ranked, Ranked-drop}
use swaptrade_contract.TradeEngine.Ranking.{
  IsRanked, Shelf, Shelf-with_ids, load_book-Shelf, load_book-Ranked, save_book-IsRanked,
  save_order-IsRanked, Ranked-at,
}

-- The ids that are kept and those that are still to come are in order, as are all books; no book
-- is written.
record InOrder (side : OrderSide) (books : PairMap PairOrderBook) (ids : List ℕ) (s : Store)
    : Type 0 where
  stored : IsRanked s
  listed : Ranked side (prices s.orders) ids
  same : s.books ≡ books

-- An order that keeps its id and price leaves the prices as they were.
prices-save_order :
    {s : Store} (h : IsRanked s) (id : ℕ) (o o' : Order)
    → s.orders id ≡ some o
    → o'.order_id ≡ o.order_id
    → o'.price ≡ o.price
    → (i : ℕ) → Known (prices s.orders i)
    → prices (save_order o' s).orders i ≡ prices s.orders i
prices-save_order {s} h id o o' e k p i n =
    let (own, below) = rw e at (h.entries id) in
    let here : o'.order_id ≡ id = k ∙ own in ground arith

load_book-same :
    (s s' : Store) (x y : Address) → s'.books ≡ s.books → load_book x y s' ≡ load_book x y s
load_book-same s s' x y e = rw e refl

-- An order that is filled up leaves the list, any other stays.
Ranked-kept :
    (side : OrderSide) (at : ℕ → Option ℕ) (full : Bool) (kept : List ℕ) (id : ℕ) (ids : List ℕ)
    → Ranked side at (kept ++ id ∷ ids)
    → Ranked side at ((if not full then kept ++ id ∷ [] else kept) ++ ids)
Ranked-kept side at true kept id ids h = Ranked-drop side at kept id ids h
Ranked-kept side at false kept id ids h = rw (append_assoc kept (id ∷ []) ids) h

module _ (env : Env) (trader : Address) (leg : TradeLeg) (side : OrderSide)
    (books : PairMap PairOrderBook) where
  fill-InOrder :
      (id : ℕ) (ids : List ℕ) (t : Tally) (s : Store) (o : Order)
      → InOrder side books (t.kept ++ id ∷ ids) s
      → s.orders id ≡ some o
      → InOrder side books
          ((after_fill trader leg id o t).kept ++ ids)
          (save_order (with_fill (fill_base_of t.remaining o) o) s)
  fill-InOrder id ids t s o h e =
      let o' : Order = with_fill (fill_base_of t.remaining o) o in
      let listed : Ranked side (prices (save_order o' s).orders) (t.kept ++ id ∷ ids) =
        Ranked-at side (prices s.orders) (prices (save_order o' s).orders)
          (prices-save_order h.stored id o o' e refl refl) (t.kept ++ id ∷ ids) h.listed in
      record {
        stored = save_order-IsRanked h.stored id o o' e refl refl;
        listed =
            Ranked-kept side (prices (save_order o' s).orders) (leb_ℤ o.amount o'.filled_amount)
              t.kept id ids listed;
        same = h.same;
      }

  Round-InOrder :
      (id : ℕ) (ids : List ℕ) (t t1 : Tally) (s s1 : Store)
      → InOrder side books (t.kept ++ id ∷ ids) s
      → Round env trader leg id t s t1 s1
      → InOrder side books (t1.kept ++ ids) s1
  Round-InOrder id ids t t1 s s1 h (drop e k) =
      rw (e, k)
        (record {
          stored = h.stored;
          listed = Ranked-drop side (prices s.orders) t.kept id ids h.listed;
          same = h.same;
        })
  Round-InOrder id ids t t1 s s1 h (pass e k) =
      rw (e, k)
        (record {
          stored = h.stored;
          listed = rw (append_assoc t.kept (id ∷ []) ids) h.listed;
          same = h.same;
        })
  Round-InOrder id ids t t1 s s1 h (fill o e d b k l) = rw (k, l) (fill-InOrder id ids t s o h e)

  Rounds-InOrder :
      (ids : List ℕ) (t t' : Tally) (s s' : Store)
      → InOrder side books (t.kept ++ ids) s
      → Rounds env trader leg t' s' ids t s
      → InOrder side books t'.kept s'
  Rounds-InOrder [] t t' s s' h (done e k) =
      rw (e, k)
        (record { stored = h.stored; listed = rw (append-nil t.kept) at h.listed; same = h.same })
  Rounds-InOrder (id ∷ ids) t t' s s' h (stop e k) = rw (e, k) h
  Rounds-InOrder (id ∷ ids) t t' s s' h (round {t1 = t1} {s1 = s1} z r rs) =
      Rounds-InOrder ids t1 t' s1 s' (Round-InOrder id ids t t1 s s1 h r) rs

module _ (env : Env) (trader : Address) where
  Fallback-IsRanked :
      (leg : TradeLeg) (t t' : Tally) (s s' : Store)
      → IsRanked s
      → Fallback leg t s t' s'
      → IsRanked s'
  Fallback-IsRanked leg t t' s s' h (unused e k) = rw k h
  Fallback-IsRanked leg t t' s s' h (beyond p e k) =
      rw k (record { entries = h.entries; shelves = h.shelves })
  Fallback-IsRanked leg t t' s s' h (pooled p f q b v e k) =
      rw k (record { entries = h.entries; shelves = h.shelves })

  -- The book that is written is the one that was read, in order under the prices after the fills.
  pub Leg-IsRanked :
      (leg : TradeLeg) (s s' : Store) (fills : List FillResult)
      → IsRanked s
      → Leg env trader leg s s' fills
      → IsRanked s'
  Leg-IsRanked leg s s' fills h l =
      let side = opposite leg.side in
      let book = load_book leg.base_asset leg.quote_asset s in
      let start : Tally = record {
        remaining = leg.amount;
        base = pos 0;
        quote = pos 0;
        fills = [];
        kept = [];
      } in
      let first : InOrder side s.books (ids_of side book) s = record {
        stored = h;
        listed = load_book-Ranked h side leg.base_asset leg.quote_asset;
        same = refl;
      } in
      let o =
        Rounds-InOrder env trader leg side s.books (ids_of side book) start l.matched s l.filled
          first l.rounds in
      let shelf : Shelf l.filled.orders (some book) =
        rw (load_book-same s l.filled leg.base_asset leg.quote_asset o.same) at
          (load_book-Shelf o.stored leg.base_asset leg.quote_asset) in
      Fallback-IsRanked leg l.matched l.total
        (save_book (with_ids side l.matched.kept book) l.filled) s'
        (save_book-IsRanked o.stored (with_ids side l.matched.kept book)
          (Shelf-with_ids l.filled.orders side l.matched.kept book shelf o.listed))
        l.fallback
