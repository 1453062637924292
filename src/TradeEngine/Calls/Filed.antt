-- ===== src/TradeEngine/Calls/Filed.antt =====
-- The keys of the stored books, under every invocation.
use swaptrade_contract.Prelude.{
  ℕ, ◌≡◌, refl, inl, inr, true, false, ◌&&◌, Option, none, some, List, [], ◌∷◌, ◌==◌, arith,
  Bool-cases, get_or,
}
use swaptrade_contract.Prelude.Int.{pos}
use swaptrade_contract.Prelude.Maps.{set}
use swaptrade_contract.Host.{Address, Env}
use swaptrade_contract.TradeEngine.Types.{PairOrderBook, TradeLeg, FillResult}
use swaptrade_contract.TradeEngine.Storage.{Store}
use swaptrade_contract.TradeEngine.OrderBook.{
  get_pair_key, new_book, load_book, save_book, ids_of, with_ids, insert_id, without_id,
}
use swaptrade_contract.TradeEngine.Matching.{Tally, opposite}
use swaptrade_contract.TradeEngine.Matching.Rounds.{Rounds, drop, pass, fill, done, stop, round}
use swaptrade_contract.TradeEngine.Matching.Legs.{Fallback, unused, beyond, pooled, Leg}
use swaptrade_contract.TradeEngine.Calls.Keeps.{IsKept}

-- A book is stored under the key of its own assets.
abbrev pub FiledAt : Address → Address → Option PairOrderBook → Type 0
FiledAt a b none = Unit
FiledAt a b (some book) = get_pair_key book.base_asset book.quote_asset ≡ (a, b)

abbrev pub IsFiled : Store → Type 0
IsFiled s = (a b : Address) → FiledAt a b (s.books a b)

pair_eq : (p : Address × Address) (a b : Address) → (p.0 == a && p.1 == b) ≡ true → p ≡ (a, b)
pair_eq (x, y) a b h = ground arith

save_book-IsFiled : (s : Store) (book : PairOrderBook) → IsFiled s → IsFiled (save_book book s)
save_book-IsFiled s book h a b =
    let (x, y) = get_pair_key book.base_asset book.quote_asset in
    elim (Bool-cases (x == a && y == b)) [
      | inl e ↦ rw e (pair_eq (get_pair_key book.base_asset book.quote_asset) a b e)
      | inr e ↦ rw e (h a b)
    ]

get_or-key :
    (x y : Address) (o : Option PairOrderBook)
    → FiledAt (get_pair_key x y).0 (get_pair_key x y).1 o
    → get_pair_key (get_or o (new_book x y)).base_asset (get_or o (new_book x y)).quote_asset
      ≡ get_pair_key x y
get_or-key x y none h = refl
get_or-key x y (some book) h = h

pub load_book_key :
    (s : Store) (x y : Address)
    → IsFiled s
    → get_pair_key (load_book x y s).base_asset (load_book x y s).quote_asset ≡ get_pair_key x y
load_book_key s x y f =
    get_or-key x y (s.books (get_pair_key x y).0 (get_pair_key x y).1)
      (f (get_pair_key x y).0 (get_pair_key x y).1)

module _ (env : Env) (trader : Address) (leg : TradeLeg) where
  Rounds-IsFiled :
      (ids : List ℕ) (t t' : Tally) (s s' : Store)
      → IsFiled s
      → Rounds env trader leg t' s' ids t s
      → IsFiled s'
  Rounds-IsFiled [] t t' s s' h (done e k) = rw k h
  Rounds-IsFiled (id ∷ ids) t t' s s' h (stop e k) = rw k h
  Rounds-IsFiled (id ∷ ids) t t' s s' h (round {t1 = t1} {s1 = s1} z (drop e k) rs) =
      Rounds-IsFiled ids t1 t' s1 s' (rw k h) rs
  Rounds-IsFiled (id ∷ ids) t t' s s' h (round {t1 = t1} {s1 = s1} z (pass e k) rs) =
      Rounds-IsFiled ids t1 t' s1 s' (rw k h) rs
  Rounds-IsFiled (id ∷ ids) t t' s s' h (round {t1 = t1} {s1 = s1} z (fill o e d b m k) rs) =
      Rounds-IsFiled ids t1 t' s1 s' (rw k h) rs

  Fallback-IsFiled : (t t' : Tally) (s s' : Store) → IsFiled s → Fallback leg t s t' s' → IsFiled s'
  Fallback-IsFiled t t' s s' h (unused e k) = rw k h
  Fallback-IsFiled t t' s s' h (beyond p e k) = rw k h
  Fallback-IsFiled t t' s s' h (pooled p f q b v e k) = rw k h

  Leg-IsFiled :
      (s s' : Store) (fills : List FillResult)
      → IsFiled s
      → Leg env trader leg s s' fills
      → IsFiled s'
  Leg-IsFiled s s' fills h l =
      let start : Tally = record {
        remaining = leg.amount;
        base = pos 0;
        quote = pos 0;
        fills = [];
        kept = [];
      } in
      let book = load_book leg.base_asset leg.quote_asset s in
      let after = with_ids (opposite leg.side) l.matched.kept book in
      Fallback-IsFiled l.matched l.total (save_book after l.filled) s'
        (save_book-IsFiled l.filled after
          (Rounds-IsFiled (ids_of (opposite leg.side) book) start l.matched s l.filled h l.rounds))
        l.fallback

pub IsFiled-IsKept : IsKept IsFiled
IsFiled-IsKept = record {
  placing = λ {s} o h _ _ _ _.
      let book = load_book o.base_asset o.quote_asset s in
      let ids =
        insert_id o.side (set s.orders o.order_id o) o.price o.order_id false
          (ids_of o.side book) in
      save_book-IsFiled s (with_ids o.side ids book) h;
  cancelling = λ {s} id o h _ _.
      let book = load_book o.base_asset o.quote_asset s in
      save_book-IsFiled s (with_ids o.side (without_id id (ids_of o.side book)) book) h;
  trading = λ {s} {s'} env trader leg fills h l. Leg-IsFiled env trader leg s s' fills h l;
  other = λ h (o, b, n). rw b h;
}
