-- ===== src/TradeEngine/Calls/Keeps.antt =====
-- What every invocation of the trade engine keeps: induction over the entry points.
use swaptrade_contract.Prelude.{
  ℕ, ◌+◌, ltb, ◌≡◌, refl, inl, inr, true, false, none, some, List, [], ◌∷◌, ◌++◌, arith,
  Option-cases,
}
use swaptrade_contract.Prelude.Int.{ℤ, pos, leb_ℤ}
use swaptrade_contract.Host.{
  Address, Env, ok, invoke, invoke_cases, pure, u32_max, trap_if, ◌>>◌, >>=-eq-ok,
}
use swaptrade_contract.Host.Tokens.{Tokens}
use swaptrade_contract.TradeEngine
use swaptrade_contract.TradeEngine.Types.{
  Order, OrderSide, OrderType, TradeLeg, FillResult, pending, cancelled, is_active,
}
use swaptrade_contract.TradeEngine.Storage.{Store, next_order}
use swaptrade_contract.TradeEngine.OrderBook.{
  save_order, add_user_order, add_order, remove_order_id,
}
use swaptrade_contract.TradeEngine.Matching.{match_leg, match_legs}
use swaptrade_contract.TradeEngine.Matching.Legs.{Leg, match_leg-Leg}
use swaptrade_contract.TradeEngine.Outcomes.{trade_lem}
use swaptrade_contract.TradeEngine.Calls.{
  State, Call, initialize, place_order, cancel_order, execute_multi_pair_trade, add_liquidity_pool,
  perform, Reach, here,
}
use swaptrade_contract.TradeEngine.Calls

-- The store after an order was placed.
abbrev pub placed : Order → Store → Store
placed o s = add_order o (
    add_user_order o.owner o.order_id
      (save_order o (record s { next_order_id = some (o.order_id + 1) })))

abbrev pub cancelled_order : Order → Order
cancelled_order o = record o { status = cancelled }

-- No order and no book is written.
abbrev pub SameBooks : Store → Store → Type 0
SameBooks s s' =
    (s'.orders ≡ s.orders) × (s'.books ≡ s.books) × (s'.next_order_id ≡ s.next_order_id)

module _ {L : Type 0} (tok : Tokens L) (env : Env) where
  abbrev pub new_order :
      Address → Address → Address → OrderSide → OrderType → ℕ → ℤ → ℕ → Store → Order
  new_order owner base quote side order_type price amount expires_at s = record {
    order_id = next_order s;
    owner = owner;
    base_asset = base;
    quote_asset = quote;
    side = side;
    order_type = order_type;
    price = price;
    amount = amount;
    filled_amount = pos 0;
    status = pending;
    created_at = env.now;
    expires_at = expires_at;
  }

  pub place_order_store :
      (owner base quote : Address) (side : OrderSide) (order_type : OrderType) (price : ℕ)
      (amount : ℤ) (expires_at id : ℕ) (w : State L)
      → (TradeEngine.place_order tok env owner base quote side order_type price amount expires_at
          w).0
        ≡ ok id
      → (leb_ℤ amount (pos 0) ≡ false)
        × (id ≡ next_order w.store)
        × ((TradeEngine.place_order tok env owner base quote side order_type price amount expires_at
              w).1.store
            ≡ placed
                (new_order owner base quote side order_type price amount expires_at w.store)
                w.store)
  unfolding TradeEngine.place_order
  place_order_store owner base quote side order_type price amount expires_at id w h =
      (ground arith, ground arith, ground arith)

  pub cancel_order_store :
      (owner : Address) (id : ℕ) (o : Order) (w : State L)
      → w.store.orders id ≡ some o
      → (TradeEngine.cancel_order tok env owner id w).0 ≡ ok tt
      → (is_active o.status ≡ true)
        × ((TradeEngine.cancel_order tok env owner id w).1.store
            ≡ remove_order_id o.base_asset o.quote_asset o.side id
                (save_order (cancelled_order o) w.store))
  unfolding TradeEngine.cancel_order
  cancel_order_store owner id o w k h = (ground arith, ground arith)

  cancel_order_unknown :
      (owner : Address) (id : ℕ) (w : State L)
      → w.store.orders id ≡ none
      → ¬ (TradeEngine.cancel_order tok env owner id w).0 ≡ ok tt
  unfolding TradeEngine.cancel_order
  cancel_order_unknown owner id w k h = ground arith

  initialize-SameBooks :
      (admin : Address) (w : State L)
      → SameBooks w.store (TradeEngine.initialize env admin w).1.store
  unfolding TradeEngine.initialize
  initialize-SameBooks admin w = (ground arith, ground arith, ground arith)

  add_liquidity_pool-SameBooks :
      (admin a b : Address) (x y : ℤ) (fee : ℕ) (w : State L)
      → SameBooks w.store (TradeEngine.add_liquidity_pool tok env admin a b x y fee w).1.store
  unfolding TradeEngine.add_liquidity_pool
  add_liquidity_pool-SameBooks admin a b x y fee w = (ground arith, ground arith, ground arith)

-- A property of the storage that the writes of each entry point keep.
pub record IsKept (P : Store → Type 0) : Type 0 where
  pub placing :
      {s : Store} (o : Order)
      → P s
      → o.order_id ≡ next_order s
      → o.status ≡ pending
      → o.filled_amount ≡ pos 0
      → leb_ℤ o.amount (pos 0) ≡ false
      → P (placed o s)
  pub cancelling :
      {s : Store} (id : ℕ) (o : Order)
      → P s
      → s.orders id ≡ some o
      → is_active o.status ≡ true
      → P (remove_order_id o.base_asset o.quote_asset o.side id (save_order (cancelled_order o) s))
  pub trading :
      {s s' : Store} (env : Env) (trader : Address) (leg : TradeLeg) (fills : List FillResult)
      → P s
      → Leg env trader leg s s' fills
      → P s'
  pub other : {s s' : Store} → P s → SameBooks s s' → P s'

module _ {L : Type 0} (tok : Tokens L) (P : Store → Type 0) (k : IsKept P) where
  match_legs_keeps :
      (env : Env) (trader : Address) (legs : List TradeLeg) (n : ℕ) (fills : List FillResult)
      (result : ℕ × List FillResult) (w : State L)
      → P w.store
      → (match_legs tok env trader legs n fills w).0 ≡ ok result
      → P (match_legs tok env trader legs n fills w).1.store
  unfolding match_legs
  match_legs_keeps env trader [] n fills result w h e = h
  match_legs_keeps env trader (leg ∷ legs) n fills result w h e =
      let rest = match_legs tok env trader legs (n + 1) in
      let (more, a, b, q) =
        >>=-eq-ok (match_leg tok env trader leg)
          (λ more. trap_if (ltb u32_max (n + 1)) >> rest (fills ++ more)) w result e in
      let w1 = (match_leg tok env trader leg w).1 in
      let here : P w1.store =
        k.trading env trader leg more h (match_leg-Leg tok env trader leg more w a) in
      let (_, _, b', q') =
        >>=-eq-ok (trap_if (ltb u32_max (n + 1))) (λ _. rest (fills ++ more)) w1 result b in
      rw (q, q') (match_legs_keeps env trader legs (n + 1) (fills ++ more) result w1 here b')

  cancel_order_keeps :
      (env : Env) (owner : Address) (id : ℕ) (w : State L)
      → P w.store
      → (TradeEngine.cancel_order tok env owner id w).0 ≡ ok tt
      → P (TradeEngine.cancel_order tok env owner id w).1.store
  cancel_order_keeps env owner id w h e = elim (Option-cases (w.store.orders id)) [
    | inl n ↦ absurd (cancel_order_unknown tok env owner id w n e)
    | inr (o, n) ↦
        let (a, q) = cancel_order_store tok env owner id o w n e in rw q (k.cancelling id o h n a)
  ]

  perform_keeps :
      (env : Env) (c : Call) (w : State L)
      → P w.store
      → (perform tok env c w).0 ≡ ok tt
      → P (perform tok env c w).1.store
  unfolding perform
  perform_keeps env (initialize admin) w h e = k.other h (initialize-SameBooks tok env admin w)
  perform_keeps env (place_order owner base quote side order_type price amount expires_at) w h e =
      let (id, a, b, q) =
        >>=-eq-ok
          (TradeEngine.place_order tok env owner base quote side order_type price amount expires_at)
          (λ _. pure tt) w tt e in
      let (z, _, p) =
        place_order_store tok env owner base quote side order_type price amount expires_at id w a in
      rw (q, p)
        (k.placing
          (new_order tok env owner base quote side order_type price amount expires_at w.store) h
          refl refl refl z)
  perform_keeps env (cancel_order owner id) w h e = cancel_order_keeps env owner id w h e
  perform_keeps env (execute_multi_pair_trade trader legs) w h e =
      let (r, a, b, q) =
        >>=-eq-ok (TradeEngine.execute_multi_pair_trade tok env trader legs) (λ _. pure tt) w tt
          e in
      let (n, fills, m, l, _) = trade_lem tok env trader legs r w a in
      rw (q, l) (match_legs_keeps env trader legs 0 [] (n, fills) w h m)
  perform_keeps env (add_liquidity_pool admin a b x y fee) w h e =
      let (id, m, n, q) =
        >>=-eq-ok (TradeEngine.add_liquidity_pool tok env admin a b x y fee) (λ _. pure tt) w tt
          e in
      rw q (k.other h (add_liquidity_pool-SameBooks tok env admin a b x y fee w))

  invoke_keeps :
      (env : Env) (c : Call) (w : State L) → P w.store → P (invoke (perform tok env c) w).1.store
  invoke_keeps env c w h = elim (invoke_cases (perform tok env c) w) [
    | inl q ↦ rw q h
    | inr (tt, e, q) ↦ rw q (perform_keeps env c w h e)
  ]

  pub Reach_keeps : {w w' : State L} → Reach tok w w' → P w.store → P w'.store
  Reach_keeps here h = h
  Reach_keeps (Calls.next {t} env c r) h = invoke_keeps env c t (Reach_keeps r h)
