-- ===== src/TradeEngine/Calls/Fillings.antt =====
-- How far the orders of the trade engine are filled, under every invocation.
use swaptrade_contract.Prelude.{
  ℕ, ◌≡◌, refl, inl, inr, true, false, Option, none, some, List, [], ◌∷◌, arith, Bool-cases,
}
use swaptrade_contract.Prelude.Int.{ℤ, pos, ◌+ℤ◌, ◌-ℤ◌, ◌≤ℤ◌, leb_ℤ, min_ℤ, int_laws}
use swaptrade_contract.Prelude.Maps.{every-set}
use swaptrade_contract.Host.{Address, Env}
use swaptrade_contract.Host.Tokens.{Tokens}
use swaptrade_contract.Host.Words.{clamp, saturating_add_i128, saturating_sub_i128}
use swaptrade_contract.TradeEngine.Types.{
  Order, OrderStatus, TradeLeg, FillResult, pending, partially_filled, filled, cancelled, expired,
  is_active,
}
use swaptrade_contract.TradeEngine.Storage.{Store, deployed}
use swaptrade_contract.TradeEngine.OrderBook.{save_order, save_book, with_ids, load_book, ids_of}
use swaptrade_contract.TradeEngine.Matching.{
  Tally, is_dropped, with_fill, fill_base_of, fill_status, opposite,
}
use swaptrade_contract.TradeEngine.Matching.Rounds.{
  Round, Rounds, drop, pass, fill, done, stop, round,
}
use swaptrade_contract.TradeEngine.Matching.Legs.{Fallback, unused, beyond, pooled, Leg}
use swaptrade_contract.TradeEngine.Calls.{State, Reach}
use swaptrade_contract.TradeEngine.Calls.Keeps.{IsKept, Reach_keeps, cancelled_order}

-- How far an order with a status is filled.
abbrev pub Filling : OrderStatus → ℤ → ℤ → Type 0
Filling pending x total = (x ≡ pos 0) × (leb_ℤ total x ≡ false)
Filling partially_filled x total = (leb_ℤ x (pos 0) ≡ false) × (leb_ℤ total x ≡ false)
Filling filled x total = (leb_ℤ x (pos 0) ≡ false) × (x ≡ total)
Filling cancelled x total = (pos 0 ≤ℤ x) × (leb_ℤ total x ≡ false)
Filling expired x total = ⊥

abbrev pub FillingOf : Option Order → Type 0
FillingOf none = Unit
FillingOf (some o) = Filling o.status o.filled_amount o.amount

abbrev IsFilling : Store → Type 0
IsFilling s = (id : ℕ) → FillingOf (s.orders id)

-- An order that can be filled.
Filling-open :
    (st : OrderStatus) (x a : ℤ)
    → is_active st ≡ true
    → Filling st x a
    → (pos 0 ≤ℤ x) × (leb_ℤ a x ≡ false)
Filling-open pending x a h f = (ground arith, f.1)
Filling-open partially_filled x a h f = (ground arith, f.1)
Filling-open filled x a h f = cc
Filling-open cancelled x a h f = cc
Filling-open expired x a h f = cc

clamp_lem : (z : ℤ) → leb_ℤ z (pos 0) ≡ false → (leb_ℤ (clamp z) (pos 0) ≡ false) × (clamp z ≤ℤ z)
clamp_lem z h = (ground arith, ground arith)

-- A part of what is missing, added with `saturating_add` and `saturating_sub`.
added :
    (r x a : ℤ)
    → leb_ℤ r (pos 0) ≡ false
    → pos 0 ≤ℤ x
    → leb_ℤ a x ≡ false
    → (leb_ℤ (saturating_add_i128 x (min_ℤ r (saturating_sub_i128 a x))) (pos 0) ≡ false)
      × (saturating_add_i128 x (min_ℤ r (saturating_sub_i128 a x)) ≤ℤ a)
unfolding saturating_add_i128 saturating_sub_i128
added r x a p q h =
    let d : leb_ℤ (a -ℤ x) (pos 0) ≡ false = grind int_laws in
    let (m, l) = clamp_lem (a -ℤ x) d in
    let part : leb_ℤ (min_ℤ r (clamp (a -ℤ x))) (pos 0) ≡ false = ground arith in
    let most : min_ℤ r (clamp (a -ℤ x)) ≤ℤ clamp (a -ℤ x) = ground arith in
    let e : leb_ℤ (x +ℤ min_ℤ r (clamp (a -ℤ x))) (pos 0) ≡ false = grind int_laws in
    let (n, k) = clamp_lem (x +ℤ min_ℤ r (clamp (a -ℤ x))) e in
    let sum : x +ℤ min_ℤ r (clamp (a -ℤ x)) ≤ℤ a = grind int_laws in (n, omega (arith, k, sum))

fill_status-Filling : (x a : ℤ) → leb_ℤ x (pos 0) ≡ false → x ≤ℤ a → Filling (fill_status x a) x a
fill_status-Filling x a p l = elim (Bool-cases (leb_ℤ a x)) [
  | inl e ↦ let same : x ≡ a = grind int_laws in rw e (p, same)
  | inr e ↦ rw e (p, e)
]

save_order-IsFilling :
    (s : Store) (o : Order)
    → IsFilling s
    → Filling o.status o.filled_amount o.amount
    → IsFilling (save_order o s)
save_order-IsFilling s o h f = every-set (λ id. FillingOf) o.order_id o h f

is_dropped-active : (now : ℕ) (o : Order) → is_dropped now o ≡ false → is_active o.status ≡ true
is_dropped-active now o h = elim (Bool-cases (is_active o.status)) [
  | inl a ↦ a
  | inr a ↦ absurd (ground arith)
]

module _ (env : Env) (trader : Address) (leg : TradeLeg) where
  Round-IsFilling :
      (id : ℕ) (t t1 : Tally) (s s1 : Store)
      → leb_ℤ t.remaining (pos 0) ≡ false
      → IsFilling s
      → Round env trader leg id t s t1 s1
      → IsFilling s1
  Round-IsFilling id t t1 s s1 z h (drop e k) = rw k h
  Round-IsFilling id t t1 s s1 z h (pass e k) = rw k h
  Round-IsFilling id t t1 s s1 z h (fill o e d b k l) =
      let f : Filling o.status o.filled_amount o.amount = rw e at (h id) in
      let (p, q) =
        Filling-open o.status o.filled_amount o.amount (is_dropped-active env.now o d) f in
      let (m, n) = added t.remaining o.filled_amount o.amount z p q in
      rw l (
        save_order-IsFilling s (with_fill (fill_base_of t.remaining o) o) h (
          fill_status-Filling (with_fill (fill_base_of t.remaining o) o).filled_amount o.amount m
            n))

  Rounds-IsFilling :
      (ids : List ℕ) (t t' : Tally) (s s' : Store)
      → IsFilling s
      → Rounds env trader leg t' s' ids t s
      → IsFilling s'
  Rounds-IsFilling [] t t' s s' h (done e k) = rw k h
  Rounds-IsFilling (id ∷ ids) t t' s s' h (stop e k) = rw k h
  Rounds-IsFilling (id ∷ ids) t t' s s' h (round {t1 = t1} {s1 = s1} z r rs) =
      Rounds-IsFilling ids t1 t' s1 s' (Round-IsFilling id t t1 s s1 z h r) rs

  Fallback-IsFilling :
      (t t' : Tally) (s s' : Store) → IsFilling s → Fallback leg t s t' s' → IsFilling s'
  Fallback-IsFilling t t' s s' h (unused e k) = rw k h
  Fallback-IsFilling t t' s s' h (beyond p e k) = rw k h
  Fallback-IsFilling t t' s s' h (pooled p f q b v e k) = rw k h

  Leg-IsFilling :
      (s s' : Store) (fills : List FillResult)
      → IsFilling s
      → Leg env trader leg s s' fills
      → IsFilling s'
  Leg-IsFilling s s' fills h l =
      let start : Tally = record {
        remaining = leg.amount;
        base = pos 0;
        quote = pos 0;
        fills = [];
        kept = [];
      } in
      let book = load_book leg.base_asset leg.quote_asset s in
      Fallback-IsFilling l.matched l.total
        (save_book (with_ids (opposite leg.side) l.matched.kept book) l.filled) s'
        (Rounds-IsFilling (ids_of (opposite leg.side) book) start l.matched s l.filled h l.rounds)
        l.fallback

IsFilling-IsKept : IsKept IsFilling
IsFilling-IsKept = record {
  placing = λ {s} o h k p q z. save_order-IsFilling s o h (rw (p, q) (refl, z));
  cancelling = λ {s} id o h e a.
      let (x, y) = Filling-open o.status o.filled_amount o.amount a (rw e at (h id)) in
      save_order-IsFilling s (cancelled_order o) h (x, y);
  trading = λ {s} {s'} env trader leg fills h l. Leg-IsFilling env trader leg s s' fills h l;
  other = λ h (o, b, n). rw o h;
}

module _ {L : Type 0} (tok : Tokens L) where
  -- After any sequence of invocations of a contract that has just been deployed, each stored order
  -- is filled as its status says: a pending one not at all, a partially filled one between 0 and
  -- its amount, both excluded, a filled one up to its positive amount, a cancelled one by at
  -- least 0 and less than its amount. No order has the status `Expired`.
  pub orders-Filling :
      {w w' : State L}
      → w.store ≡ deployed
      → Reach tok w w'
      → (id : ℕ) → FillingOf (w'.store.orders id)
  orders-Filling d r id = Reach_keeps tok IsFilling IsFilling-IsKept r (rw d (λ id. tt)) id
