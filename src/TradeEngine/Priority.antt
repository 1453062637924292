-- ===== src/TradeEngine/Priority.antt =====
-- The order of a book: by price, and by id at one price; ids grow with time.
use swaptrade_contract.Prelude.{
  ℕ, ◌≡◌, ◌<◌, ◌⊎◌, inl, inr, refl, true, false, Option, none, some, List, [], ◌∷◌, ◌++◌, ◌==◌,
  arith, Bool-cases,
}
use swaptrade_contract.Prelude.Maps.{Map}
use swaptrade_contract.TradeEngine.Types.{Order, OrderSide, buy, sell}
use swaptrade_contract.TradeEngine.OrderBook.{beats, insert_id, without_id}

-- An order at price p with id i goes before one at price q with id j.
abbrev pub Precedes : OrderSide → ℕ → ℕ → ℕ → ℕ → Type 0
Precedes buy p i q j = (q < p) ⊎ ((p ≡ q) × (i < j))
Precedes sell p i q j = (p < q) ⊎ ((p ≡ q) × (i < j))

abbrev pub Before : OrderSide → Option ℕ → ℕ → Option ℕ → ℕ → Type 0
Before side (some p) i (some q) j = Precedes side p i q j
Before side _ i _ j = ⊥

abbrev pub Known : Option ℕ → Type 0
Known none = ⊥
Known (some p) = Unit

abbrev pub price_of : Option Order → Option ℕ
price_of none = none
price_of (some o) = some o.price

Precedes-trans :
    (side : OrderSide) (p i q j r k : ℕ)
    → Precedes side p i q j
    → Precedes side q j r k
    → Precedes side p i r k
Precedes-trans buy p i q j r k a b = ground (arith, a, b)
Precedes-trans sell p i q j r k a b = ground (arith, a, b)

Before-trans :
    (side : OrderSide) (p q r : Option ℕ) (i j k : ℕ)
    → Before side p i q j
    → Before side q j r k
    → Before side p i r k
Before-trans side (some p) (some q) (some r) i j k a b = Precedes-trans side p i q j r k a b
Before-trans side none q r i j k a b = absurd a
Before-trans side (some p) none r i j k a b = absurd a
Before-trans side (some p) (some q) none i j k a b = absurd b

-- `at` is the price of the order with an id.
module _ (side : OrderSide) (at : ℕ → Option ℕ) where
  abbrev pub Ahead : ℕ → List ℕ → Type 0
  Ahead i [] = Unit
  Ahead i (j ∷ js) = Before side (at i) i (at j) j × Ahead i js

  -- Every id has an order, which goes before those of all later ids.
  abbrev pub Ranked : List ℕ → Type 0
  Ranked [] = Unit
  Ranked (i ∷ is) = Known (at i) × Ahead i is × Ranked is

  Ahead-drop :
      (i : ℕ) (xs : List ℕ) (y : ℕ) (ys : List ℕ) → Ahead i (xs ++ y ∷ ys) → Ahead i (xs ++ ys)
  Ahead-drop i [] y ys h = h.1
  Ahead-drop i (x ∷ xs) y ys h = (h.0, Ahead-drop i xs y ys h.1)

  pub Ranked-drop : (xs : List ℕ) (y : ℕ) (ys : List ℕ) → Ranked (xs ++ y ∷ ys) → Ranked (xs ++ ys)
  Ranked-drop [] y ys h = h.2
  Ranked-drop (x ∷ xs) y ys h = (h.0, Ahead-drop x xs y ys h.1, Ranked-drop xs y ys h.2)

  Ahead-trans : (i j : ℕ) (js : List ℕ) → Before side (at i) i (at j) j → Ahead j js → Ahead i js
  Ahead-trans i j [] b h = tt
  Ahead-trans i j (k ∷ ks) b h =
      (Before-trans side (at i) (at j) (at k) i j k b h.0, Ahead-trans i j ks b h.1)

  Ahead-without : (i k : ℕ) (xs : List ℕ) → Ahead i xs → Ahead i (without_id k xs)
  unfolding without_id
  Ahead-without i k [] h = tt
  Ahead-without i k (x ∷ xs) h = elim (Bool-cases (x == k)) [
    | inl e ↦ rw e (Ahead-without i k xs h.1)
    | inr e ↦ rw e (h.0, Ahead-without i k xs h.1)
  ]

  pub Ranked-without : (k : ℕ) (xs : List ℕ) → Ranked xs → Ranked (without_id k xs)
  unfolding without_id
  Ranked-without k [] h = tt
  Ranked-without k (x ∷ xs) h = elim (Bool-cases (x == k)) [
    | inl e ↦ rw e (Ranked-without k xs h.2)
    | inr e ↦ rw e (h.0, Ahead-without x k xs h.1, Ranked-without k xs h.2)
  ]

abbrev pub Below : ℕ → List ℕ → Type 0
Below n [] = Unit
Below n (i ∷ is) = (i < n) × Below n is

abbrev pub prices : Map Order → ℕ → Option ℕ
prices orders i = price_of (orders i)

pub insert_id-done :
    (side : OrderSide) (orders : Map Order) (price id : ℕ) (es : List ℕ)
    → insert_id side orders price id true es ≡ es
unfolding insert_id
insert_id-done side orders price id [] = refl
insert_id-done side orders price id (e ∷ es) =
    ground (arith, insert_id-done side orders price id es)

-- The order of a new id against an order that it beats, and against one that it does not beat.
beats-Before :
    (side : OrderSide) (price id e : ℕ) (o : Option Order)
    → beats side price o ≡ true
    → Before side (some price) id (price_of o) e
beats-Before buy price id e none h = cc
beats-Before sell price id e none h = cc
beats-Before buy price id e (some o) h = ground arith
beats-Before sell price id e (some o) h = ground arith

unbeaten-Before :
    (side : OrderSide) (price id e : ℕ) (o : Option Order)
    → beats side price o ≡ false
    → Known (price_of o)
    → e < id
    → Before side (price_of o) e (some price) id
unbeaten-Before side price id e none h k l = absurd k
unbeaten-Before buy price id e (some o) h k l = ground arith
unbeaten-Before sell price id e (some o) h k l = ground arith

module _ (side : OrderSide) (orders : Map Order) (price id : ℕ)
    (new : prices orders id ≡ some price) where
  Ahead-insert :
      (i : ℕ) (es : List ℕ)
      → Before side (prices orders i) i (some price) id
      → Ahead side (prices orders) i es
      → Ahead side (prices orders) i (insert_id side orders price id false es)
  unfolding insert_id
  Ahead-insert i [] b h = (rw new b, tt)
  Ahead-insert i (e ∷ es) b h = elim (Bool-cases (beats side price (orders e))) [
    | inl c ↦ rw (c, insert_id-done side orders price id es) (rw new b, h)
    | inr c ↦ rw c (h.0, Ahead-insert i es b h.1)
  ]

  pub Ranked-insert :
      (es : List ℕ)
      → Below id es
      → Ranked side (prices orders) es
      → Ranked side (prices orders) (insert_id side orders price id false es)
  unfolding insert_id
  Ranked-insert [] l h = (rw new tt, tt, tt)
  Ranked-insert (e ∷ es) l h = elim (Bool-cases (beats side price (orders e))) [
    | inl c ↦
        let b = beats-Before side price id e (orders e) c in
        rw (c, insert_id-done side orders price id es)
          (rw new tt, (rw new b, Ahead-trans side (prices orders) id e es (rw new b) h.1), h)
    | inr c ↦
        let b = unbeaten-Before side price id e (orders e) c h.0 l.0 in
        rw c (h.0, Ahead-insert e es b h.1, Ranked-insert es l.1 h.2)
  ]
