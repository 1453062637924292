-- ===== src/TradeEngine/Ranking.antt =====
-- The order of all books in the storage of the trade engine, and the writes that keep it.
pub mod Trades
use swaptrade_contract.Prelude.{
  ℕ, ◌+◌, ◌≡◌, ◌∙◌, ◌≤◌, ◌<◌, refl, inl, inr, Bool, true, false, ◌&&◌, Option, none, some, List, [],
  ◌∷◌, ◌++◌, ◌==◌, if◌then◌else◌, arith, Bool-cases, get_or, not,
}
use mathlib.Core.List.{append-nil, append_assoc}
use swaptrade_contract.Prelude.Int.{ℤ, leb_ℤ}
use swaptrade_contract.Prelude.Maps.{Map, PairMap, set, set_pair, every-set}
use swaptrade_contract.Host.{Address, Env}
use swaptrade_contract.TradeEngine.Types.{Order, OrderSide, PairOrderBook, TradeLeg, buy, sell}
use swaptrade_contract.TradeEngine.Storage.{Store, next_order}
use swaptrade_contract.TradeEngine.OrderBook.{
  save_order, save_book, load_book, get_pair_key, new_book, ids_of, with_ids, insert_id, without_id,
  add_order, remove_order_id,
}
use swaptrade_contract.TradeEngine.Matching.{with_fill}
use swaptrade_contract.TradeEngine.Priority.{
  Known, Before, price_of, prices, Ahead, Ranked, Ranked-drop, Below, Ranked-insert, Ranked-without,
}
use swaptrade_contract.TradeEngine.Matching.{Tally}
use swaptrade_contract.TradeEngine.Matching.Rounds.{
  Round, Rounds, drop, pass, fill, done, stop, round,
}

abbrev pub Entry : ℕ → ℕ → Option Order → Type 0
Entry count id none = Unit
Entry count id (some o) = (o.order_id ≡ id) × (id < count)

-- Both lists of a book are in order.
abbrev pub Shelf : Map Order → Option PairOrderBook → Type 0
Shelf orders none = Unit
Shelf orders (some book) =
    Ranked buy (prices orders) book.bid_order_ids × Ranked sell (prices orders) book.ask_order_ids

-- Each order is filed under its own id, which has been given out, and every book is in order.
pub record IsRanked (s : Store) : Type 0 where
  pub entries : (id : ℕ) → Entry (next_order s) id (s.orders id)
  pub shelves : (a b : Address) → Shelf s.orders (s.books a b)

-- What is in order stays so where the prices of the known orders do.
module _ (side : OrderSide) (at at' : ℕ → Option ℕ)
    (same : (i : ℕ) → Known (at i) → at' i ≡ at i) where
  Before-Known : (p q : Option ℕ) (i j : ℕ) → Before side p i q j → Known q
  Before-Known none q i j b = absurd b
  Before-Known (some p) none i j b = absurd b
  Before-Known (some p) (some q) i j b = tt

  Ahead-at : (i : ℕ) (xs : List ℕ) → Known (at i) → Ahead side at i xs → Ahead side at' i xs
  Ahead-at i [] k h = tt
  Ahead-at i (j ∷ js) k h =
      (rw (same i k, same j (Before-Known (at i) (at j) i j h.0)) h.0, Ahead-at i js k h.1)

  pub Ranked-at : (xs : List ℕ) → Ranked side at xs → Ranked side at' xs
  Ranked-at [] h = tt
  Ranked-at (x ∷ xs) h = (rw (same x h.0) h.0, Ahead-at x xs h.0 h.1, Ranked-at xs h.2)

Ranked-Below :
    (side : OrderSide) (at : ℕ → Option ℕ) (n : ℕ)
    → ((i : ℕ) → Known (at i) → i < n)
    → (xs : List ℕ) → Ranked side at xs
    → Below n xs
Ranked-Below side at n f [] h = tt
Ranked-Below side at n f (x ∷ xs) h = (f x h.0, Ranked-Below side at n f xs h.2)

Entry-Below : (count id : ℕ) (o : Option Order) → Entry count id o → Known (price_of o) → id < count
Entry-Below count id none e k = absurd k
Entry-Below count id (some o) e k = e.1

Entry-suc : (count id : ℕ) (o : Option Order) → Entry count id o → Entry (count + 1) id o
Entry-suc count id none e = tt
Entry-suc count id (some o) e = (e.0, omega (arith, e.1))

Shelf-at :
    (orders orders' : Map Order) (o : Option PairOrderBook)
    → ((i : ℕ) → Known (prices orders i) → prices orders' i ≡ prices orders i)
    → Shelf orders o
    → Shelf orders' o
Shelf-at orders orders' none f h = tt
Shelf-at orders orders' (some book) f h = (
  Ranked-at buy (prices orders) (prices orders') f book.bid_order_ids h.0,
  Ranked-at sell (prices orders) (prices orders') f book.ask_order_ids h.1,
)

-- A list of a book, by its side.
Shelf-ids :
    (orders : Map Order) (side : OrderSide) (book : PairOrderBook)
    → Shelf orders (some book)
    → Ranked side (prices orders) (ids_of side book)
Shelf-ids orders buy book h = h.0
Shelf-ids orders sell book h = h.1

pub Shelf-with_ids :
    (orders : Map Order) (side : OrderSide) (ids : List ℕ) (book : PairOrderBook)
    → Shelf orders (some book)
    → Ranked side (prices orders) ids
    → Shelf orders (some (with_ids side ids book))
Shelf-with_ids orders buy ids book h r = (r, h.1)
Shelf-with_ids orders sell ids book h r = (h.0, r)

Shelf-get_or :
    (orders : Map Order) (o : Option PairOrderBook) (x y : Address)
    → Shelf orders o
    → Shelf orders (some (get_or o (new_book x y)))
Shelf-get_or orders none x y h = (tt, tt)
Shelf-get_or orders (some book) x y h = h

module _ {s : Store} (h : IsRanked s) where
  pub load_book-Shelf : (x y : Address) → Shelf s.orders (some (load_book x y s))
  load_book-Shelf x y =
      let (a, b) = get_pair_key x y in Shelf-get_or s.orders (s.books a b) x y (h.shelves a b)

  pub load_book-Ranked :
      (side : OrderSide) (x y : Address)
      → Ranked side (prices s.orders) (ids_of side (load_book x y s))
  load_book-Ranked side x y = Shelf-ids s.orders side (load_book x y s) (load_book-Shelf x y)

  pub save_book-IsRanked :
      (book : PairOrderBook) → Shelf s.orders (some book) → IsRanked (save_book book s)
  save_book-IsRanked book k = record {
    entries = h.entries;
    shelves = λ a b.
        let (x, y) = get_pair_key book.base_asset book.quote_asset in
        elim (Bool-cases (x == a && y == b)) [ inl e ↦ rw e k | inr e ↦ rw e (h.shelves a b) ];
  }

  -- An order that keeps its id and its price can be written anew.
  pub save_order-IsRanked :
      (id : ℕ) (o o' : Order)
      → s.orders id ≡ some o
      → o'.order_id ≡ o.order_id
      → o'.price ≡ o.price
      → IsRanked (save_order o' s)
  save_order-IsRanked id o o' e k p =
      let (own, below) = rw e at (h.entries id) in
      let here : o'.order_id ≡ id = k ∙ own in
      record {
        entries =
            every-set (Entry (next_order s)) o'.order_id o' h.entries
              (refl, omega (arith, here, below));
        shelves = λ a b.
            Shelf-at s.orders (set s.orders o'.order_id o') (s.books a b) (λ i n. ground arith)
              (h.shelves a b);
      }

  -- A new order, under the next id.
  pub new_order-IsRanked :
      (o : Order)
      → o.order_id ≡ next_order s
      → IsRanked (save_order o (record s { next_order_id = some (o.order_id + 1) }))
  new_order-IsRanked o k =
      let old : (i : ℕ) → Entry (o.order_id + 1) i (s.orders i) =
        λ i. rw k (Entry-suc (next_order s) i (s.orders i) (h.entries i)) in
      record {
        entries = every-set (Entry (o.order_id + 1)) o.order_id o old (refl, omega arith);
        shelves = λ a b.
            Shelf-at s.orders (set s.orders o.order_id o) (s.books a b)
              (λ i n.
                let b : i < next_order s =
                  Entry-Below (next_order s) i (s.orders i) (h.entries i) n in
                ground arith)
              (h.shelves a b);
      }

  pub remove_order_id-IsRanked :
      (base quote : Address) (side : OrderSide) (id : ℕ)
      → IsRanked (remove_order_id base quote side id s)
  remove_order_id-IsRanked base quote side id =
      let book = load_book base quote s in
      save_book-IsRanked (with_ids side (without_id id (ids_of side book)) book) (
        Shelf-with_ids s.orders side (without_id id (ids_of side book)) book
          (load_book-Shelf base quote)
          (Ranked-without side (prices s.orders) id (ids_of side book)
            (load_book-Ranked side base quote)))

-- The order is stored, and every other id of the book is smaller.
pub add_order-IsRanked :
    {s : Store} (h : IsRanked s) (o : Order)
    → s.orders o.order_id ≡ some o
    → Below o.order_id (ids_of o.side (load_book o.base_asset o.quote_asset s))
    → IsRanked (add_order o s)
add_order-IsRanked {s} h o e l =
    let book = load_book o.base_asset o.quote_asset s in
    let ids = insert_id o.side s.orders o.price o.order_id false (ids_of o.side book) in
    save_book-IsRanked h (with_ids o.side ids book) (
      Shelf-with_ids s.orders o.side ids book (load_book-Shelf h o.base_asset o.quote_asset) (
        Ranked-insert o.side s.orders o.price o.order_id (rw e refl) (ids_of o.side book) l
          (load_book-Ranked h o.side o.base_asset o.quote_asset)))

-- The ids of a book are smaller than the next id.
pub load_book-Below :
    {s : Store} (h : IsRanked s) (side : OrderSide) (x y : Address)
    → Below (next_order s) (ids_of side (load_book x y s))
load_book-Below {s} h side x y =
    Ranked-Below side (prices s.orders) (next_order s)
      (λ i k. Entry-Below (next_order s) i (s.orders i) (h.entries i) k)
      (ids_of side (load_book x y s)) (load_book-Ranked h side x y)
