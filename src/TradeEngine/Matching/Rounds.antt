-- ===== src/TradeEngine/Matching/Rounds.antt =====
-- What the loop of `match_leg` does to the tally and to the storage, round by round.
use swaptrade_contract.Prelude.{
  ℕ, ◌≡◌, refl, inl, inr, false, not, some, List, [], ◌∷◌, ◌++◌, if◌then◌else◌, arith, Bool-cases,
  Option-cases,
}
use swaptrade_contract.Prelude.Int.{pos, ◌+ℤ◌, ◌-ℤ◌, leb_ℤ}
use swaptrade_contract.Host.{Address, Env, World, ok, >>=-eq-ok}
use swaptrade_contract.Host.Tokens.{Tokens}
use swaptrade_contract.TradeEngine.Types.{Order, TradeLeg, Event}
use swaptrade_contract.TradeEngine.Storage.{Store}
use swaptrade_contract.TradeEngine.OrderBook.{save_order}
use swaptrade_contract.TradeEngine.Matching.{
  Tally, is_dropped, beyond_limit, with_fill, fill_base_of, fill_quote_of, book_fill, fill_order,
  match_order, match_orders,
}

-- The tally after a fill.
abbrev pub after_fill : Address → TradeLeg → ℕ → Order → Tally → Tally
after_fill trader leg id o t =
    let fill_base = fill_base_of t.remaining o in
    let fill_quote = fill_quote_of fill_base o in
    record t {
      remaining = t.remaining -ℤ fill_base;
      base = t.base +ℤ fill_base;
      quote = t.quote +ℤ fill_quote;
      fills = t.fills ++ book_fill trader leg o id fill_base fill_quote ∷ [];
      kept =
          if not (leb_ℤ o.amount (with_fill fill_base o).filled_amount)
          then t.kept ++ id ∷ []
          else t.kept;
    }

module _ (env : Env) (trader : Address) (leg : TradeLeg) where
  -- One round: the id is dropped, or it is kept and its order left alone, or its order is filled.
  pub data Round (id : ℕ) (t : Tally) (s : Store) (t' : Tally) (s' : Store) : Type 0 where
    drop : t' ≡ t → s' ≡ s → Round id t s t' s'
    pass : t' ≡ record t { kept = t.kept ++ id ∷ [] } → s' ≡ s → Round id t s t' s'
    fill :
        (o : Order)
        → s.orders id ≡ some o
        → is_dropped env.now o ≡ false
        → beyond_limit leg o.price ≡ false
        → t' ≡ after_fill trader leg id o t
        → s' ≡ save_order (with_fill (fill_base_of t.remaining o) o) s
        → Round id t s t' s'

  pub data Rounds (t' : Tally) (s' : Store) : List ℕ → Tally → Store → Type 0 where
    done : {t : Tally} {s : Store} → t' ≡ t → s' ≡ s → Rounds t' s' [] t s
    stop :
        {id : ℕ} {ids : List ℕ} {t : Tally} {s : Store}
        → t' ≡ record t { kept = t.kept ++ id ∷ ids }
        → s' ≡ s
        → Rounds t' s' (id ∷ ids) t s
    round :
        {id : ℕ} {ids : List ℕ} {t t1 : Tally} {s s1 : Store}
        → leb_ℤ t.remaining (pos 0) ≡ false
        → Round id t s t1 s1
        → Rounds t' s' ids t1 s1
        → Rounds t' s' (id ∷ ids) t s

module _ {L : Type 0} (tok : Tokens L) (env : Env) (trader : Address) (leg : TradeLeg) where
  fill_order_lem :
      (id : ℕ) (o : Order) (t t' : Tally) (w : World Store Event L)
      → (fill_order tok env trader leg id o t w).0 ≡ ok t'
      → (t' ≡ after_fill trader leg id o t)
        × ((fill_order tok env trader leg id o t w).1.store
            ≡ save_order (with_fill (fill_base_of t.remaining o) o) w.store)
  unfolding fill_order
  fill_order_lem id o t t' w h = ground arith

  match_order-Round :
      (id : ℕ) (t t' : Tally) (w : World Store Event L)
      → (match_order tok env trader leg id (w.store.orders id) t w).0 ≡ ok t'
      → Round env trader leg id t w.store t'
          (match_order tok env trader leg id (w.store.orders id) t w).1.store
  unfolding match_order
  match_order-Round id t t' w h = elim (Option-cases (w.store.orders id)) [
    | inl n ↦ drop (ground arith) (ground arith)
    | inr (o, e) ↦ elim (Bool-cases (is_dropped env.now o)) [
      | inl d ↦ drop (ground arith) (ground arith)
      | inr d ↦ elim (Bool-cases (beyond_limit leg o.price)) [
        | inl b ↦ pass (ground arith) (ground arith)
        | inr b ↦
            let f = fill_order_lem id o t t' w (rw (e, d, b) at h) in
            fill o e d b f.0 (rw (e, d, b) f.1)
      ]
    ]
  ]

  pub match_orders-Rounds :
      (ids : List ℕ) (t t' : Tally) (w : World Store Event L)
      → (match_orders tok env trader leg ids t w).0 ≡ ok t'
      → Rounds env trader leg t' (match_orders tok env trader leg ids t w).1.store ids t w.store
  unfolding match_orders
  match_orders-Rounds [] t t' w h = done (ground arith) refl
  match_orders-Rounds (id ∷ ids) t t' w h = elim (Bool-cases (leb_ℤ t.remaining (pos 0))) [
    | inl z ↦ stop (ground arith) (ground arith)
    | inr z ↦
        let (t1, e, h', k) =
          >>=-eq-ok (match_order tok env trader leg id (w.store.orders id) t)
            (match_orders tok env trader leg ids) w t' (rw z at h) in
        round z (match_order-Round id t t1 w e) (
          rw (z, k)
            (match_orders-Rounds ids t1 t'
              (match_order tok env trader leg id (w.store.orders id) t w).1 h'))
  ]
