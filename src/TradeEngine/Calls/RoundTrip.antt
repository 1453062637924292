-- ===== src/TradeEngine/Calls/RoundTrip.antt =====
-- `place_order` and then `cancel_order`: the book is as before.
use swaptrade_contract.Prelude.{
  ℕ, ◌≡◌, ◌∙◌, refl, inl, inr, false, some, List, [], ◌∷◌, arith, Bool-cases, ap,
}
use swaptrade_contract.Prelude.Int.{ℤ}
use swaptrade_contract.Prelude.Maps.{Map, set}
use swaptrade_contract.Host.{Address, Env, ok}
use swaptrade_contract.Host.Tokens.{Tokens}
use swaptrade_contract.TradeEngine
use swaptrade_contract.TradeEngine.Types.{Order, OrderSide, OrderType, PairOrderBook, buy, sell}
use swaptrade_contract.TradeEngine.Storage.{Store, deployed, next_order}
use swaptrade_contract.TradeEngine.OrderBook.{
  get_pair_key, load_book, save_book, save_order, remove_order_id, ids_of, with_ids, insert_id,
  without_id, beats,
}
use swaptrade_contract.TradeEngine.Priority.{Below, insert_id-done}
use swaptrade_contract.TradeEngine.Ranking.{IsRanked, load_book-Below}
use swaptrade_contract.TradeEngine.Calls.{State, Reach}
use swaptrade_contract.TradeEngine.Calls.Keeps.{
  Reach_keeps, placed, cancelled_order, new_order, place_order_store, cancel_order_store,
}
use swaptrade_contract.TradeEngine.Calls.Filed.{IsFiled, load_book_key, IsFiled-IsKept}
use swaptrade_contract.TradeEngine.Calls.Ranks.{IsRanked-IsKept, deployed-IsRanked}

load_book-save_book :
    (s : Store) (book : PairOrderBook) (x y : Address)
    → get_pair_key book.base_asset book.quote_asset ≡ get_pair_key x y
    → load_book x y (save_book book s) ≡ book
load_book-save_book s book x y e = rw e (ground arith)

without_id-insert_id-done : (id : ℕ) (es : List ℕ) → Below id es → without_id id es ≡ es
unfolding without_id
without_id-insert_id-done id [] l = refl
without_id-insert_id-done id (e ∷ es) (l, ls) =
    let ih = without_id-insert_id-done id es ls in ground arith

without_id-insert_id :
    (side : OrderSide) (orders : Map Order) (price id : ℕ) (es : List ℕ)
    → Below id es
    → without_id id (insert_id side orders price id false es) ≡ es
unfolding without_id insert_id
without_id-insert_id side orders price id [] l = ground arith
without_id-insert_id side orders price id (e ∷ es) (l, ls) =
    let ih = without_id-insert_id side orders price id es ls in
    let same = without_id-insert_id-done id es ls in
    let rest = insert_id-done side orders price id es in
    elim (Bool-cases (beats side price (orders e))) [
      | inl c ↦ rw (c, rest) (ground arith)
      | inr c ↦ rw c (ground arith)
    ]

with_ids-ids_of :
    (side : OrderSide) (book : PairOrderBook) → with_ids side (ids_of side book) book ≡ book
with_ids-ids_of buy book = refl
with_ids-ids_of sell book = refl

with_ids-with_ids :
    (side : OrderSide) (xs ys : List ℕ) (book : PairOrderBook)
    → with_ids side xs (with_ids side ys book) ≡ with_ids side xs book
with_ids-with_ids buy xs ys book = refl
with_ids-with_ids sell xs ys book = refl

ids_of-with_ids :
    (side : OrderSide) (xs : List ℕ) (book : PairOrderBook)
    → ids_of side (with_ids side xs book) ≡ xs
ids_of-with_ids buy xs book = refl
ids_of-with_ids sell xs book = refl

with_ids_key :
    (side : OrderSide) (xs : List ℕ) (book : PairOrderBook)
    → get_pair_key (with_ids side xs book).base_asset (with_ids side xs book).quote_asset
      ≡ get_pair_key book.base_asset book.quote_asset
with_ids_key buy xs book = refl
with_ids_key sell xs book = refl

-- An id that is taken out of a book.
load_book-remove_order_id :
    (s : Store) (side : OrderSide) (x y : Address) (id : ℕ) (xs es : List ℕ) (book : PairOrderBook)
    → get_pair_key book.base_asset book.quote_asset ≡ get_pair_key x y
    → load_book x y s ≡ with_ids side xs book
    → without_id id xs ≡ es
    → load_book x y (remove_order_id x y side id s) ≡ with_ids side es book
load_book-remove_order_id s side x y id xs es book k e w =
    let out : with_ids side (without_id id (ids_of side (load_book x y s))) (load_book x y s)
        ≡ with_ids side es book =
      rw (e, ids_of-with_ids side xs book, w) (with_ids-with_ids side es xs book) in
    let p : load_book x y (save_book (with_ids side es book) s) ≡ with_ids side es book =
      load_book-save_book s (with_ids side es book) x y (with_ids_key side es book ∙ k) in
    ap (λ (b : PairOrderBook). load_book x y (save_book b s)) out ∙ p

-- An id that is put into a book and taken out of it, where all its ids are smaller.
remove_order_id-placed :
    (s : Store)
    → IsRanked s
    → IsFiled s
    → (o o' : Order) → o.order_id ≡ next_order s
    → load_book o.base_asset o.quote_asset
        (remove_order_id o.base_asset o.quote_asset o.side o.order_id (save_order o' (placed o s)))
      ≡ load_book o.base_asset o.quote_asset s
remove_order_id-placed s h f o o' k =
    let x : Address = o.base_asset in
    let y : Address = o.quote_asset in
    let book = load_book x y s in
    let orders = set s.orders o.order_id o in
    let ids = insert_id o.side orders o.price o.order_id false (ids_of o.side book) in
    let key = load_book_key s x y f in
    let below : Below o.order_id (ids_of o.side book) = rw k (load_book-Below h o.side x y) in
    load_book-remove_order_id (save_order o' (placed o s)) o.side x y o.order_id ids
      (ids_of o.side book) book key
      (load_book-save_book s (with_ids o.side ids book) x y (with_ids_key o.side ids book ∙ key))
      (without_id-insert_id o.side orders o.price o.order_id (ids_of o.side book) below)
    ∙ with_ids-ids_of o.side book

module _ {L : Type 0} (tok : Tokens L) where
  -- In any state that invocations of a contract that has just been deployed lead to: where an order
  -- is placed, and the order of the id that was returned is then cancelled by its owner, at whatever
  -- later time, the book of the pair is what it was before the order was placed.
  pub place_order-cancel_order :
      {w v : State L}
      → w.store ≡ deployed
      → Reach tok w v
      → (env env' : Env) (owner base quote : Address) (side : OrderSide) (order_type : OrderType)
        (price : ℕ) (amount : ℤ) (expires_at id : ℕ)
      → (TradeEngine.place_order tok env owner base quote side order_type price amount expires_at
          v).0
        ≡ ok id
      → (TradeEngine.cancel_order tok env' owner id
          (TradeEngine.place_order tok env owner base quote side order_type price amount expires_at
            v).1).0
        ≡ ok tt
      → load_book base quote
          (TradeEngine.cancel_order tok env' owner id
            (TradeEngine.place_order tok env owner base quote side order_type price amount
              expires_at v).1).1.store
        ≡ load_book base quote v.store
  place_order-cancel_order {w} {v} d r env env' owner base quote side order_type price amount
        expires_at id p c =
      let h = Reach_keeps tok IsRanked IsRanked-IsKept r (rw d deployed-IsRanked) in
      let f = Reach_keeps tok IsFiled IsFiled-IsKept r (rw d (λ a b. tt)) in
      let o = new_order tok env owner base quote side order_type price amount expires_at v.store in
      let v' =
        (TradeEngine.place_order tok env owner base quote side order_type price amount expires_at
          v).1 in
      let (z, i, q) =
        place_order_store tok env owner base quote side order_type price amount expires_at id v p in
      let found : v'.store.orders id ≡ some o = rw (q, i) (ground arith) in
      let (a, q') = cancel_order_store tok env' owner id o v' found c in
      rw (q', q, i) (remove_order_id-placed v.store h f o (cancelled_order o) refl)
