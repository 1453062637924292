-- ===== src/TradeEngine/Matching/Legs.antt =====
-- What `match_leg` does, as the rounds of its loop, the write of the book, and the pool.
use swaptrade_contract.Prelude.{
  ℕ, ◌≡◌, refl, inl, inr, Bool, true, false, ◌&&◌, Option, none, some, List, [], ◌∷◌, ◌++◌, ◌/◌,
  ◌==◌, arith, Bool-cases,
}
use swaptrade_contract.Prelude.Int.{ℤ, pos, ◌+ℤ◌, ◌-ℤ◌, leb_ℤ, ltb_ℤ}
use swaptrade_contract.Host.{Address, Env, World, ◌>>=◌, ok, >>=-eq-ok, Result-cases, Result}
use swaptrade_contract.Host.Tokens.{Tokens}
use swaptrade_contract.TradeEngine.Types.{
  OrderSide, TradeLeg, FillResult, LiquidityPool, PairOrderBook, TradeError, Event, buy, sell,
  on_side, price_precision,
}
use swaptrade_contract.TradeEngine.Storage.{Store}
use swaptrade_contract.TradeEngine.OrderBook.{save_book, load_book, ids_of, with_ids}
use swaptrade_contract.TradeEngine.Pools.{save_pool, get_pool_by_pair, get_amount_out}
use swaptrade_contract.Host.Words.{as_u128, saturating_mul_u128}
use swaptrade_contract.TradeEngine.Matching.{
  Tally, opposite, beyond_limit, match_orders, match_reserves, match_found, with_quote, pool_fill,
  pool_sides, pool_quote_in, trade_with_pool, match_fallback, finish_leg, untouched, match_leg,
}
use swaptrade_contract.TradeEngine.Matching.Rounds.{Rounds, match_orders-Rounds}

-- The pool is not used, or it is used at a price out of the limit, or it gives what remains.
pub data Fallback (leg : TradeLeg) (t : Tally) (s : Store) (t' : Tally) (s' : Store) : Type 0 where
  unused : t' ≡ t → s' ≡ s → Fallback leg t s t' s'
  beyond : (p : LiquidityPool) → t' ≡ t → s' ≡ save_pool p s → Fallback leg t s t' s'
  pooled :
      (p : LiquidityPool) (f : FillResult)
      → f.filled_base ≡ t.remaining
      → beyond_limit leg f.price ≡ false
      → f.filled_via_pool ≡ true
      → t' ≡ record t {
        remaining = pos 0;
        base = t.base +ℤ f.filled_base;
        quote = t.quote +ℤ f.filled_quote;
        fills = t.fills ++ f ∷ [];
      }
      → s' ≡ save_pool p s
      → Fallback leg t s t' s'

module _ {L : Type 0} (tok : Tokens L) (env : Env) (trader : Address) (leg : TradeLeg) where
  -- The pool after its reserves have moved.
  abbrev moved : Bool → LiquidityPool → ℤ → ℤ → LiquidityPool
  moved true p amount_in amount_out = record p {
    reserve_a = p.reserve_a +ℤ amount_in;
    reserve_b = p.reserve_b -ℤ amount_out;
  }
  moved false p amount_in amount_out = record p {
    reserve_b = p.reserve_b +ℤ amount_in;
    reserve_a = p.reserve_a -ℤ amount_out;
  }

  abbrev price_of_fill : ℤ → ℤ → ℕ
  price_of_fill base quote = saturating_mul_u128 (as_u128 quote) price_precision / as_u128 base

  trade_with_pool-Fallback :
      (a : Bool) (p : LiquidityPool) (base quote : ℤ) (t t' : Tally) (w : World Store Event L)
      → base ≡ t.remaining
      → (trade_with_pool tok env trader leg a p base quote t w).0 ≡ ok t'
      → Fallback leg t w.store t' (trade_with_pool tok env trader leg a p base quote t w).1.store
  trade_with_pool-Fallback true p base quote t t' w k h =
      elim (Bool-cases (beyond_limit leg (price_of_fill base quote))) [
        | inl b ↦
            beyond (moved true p (on_side leg.side quote base) (on_side leg.side base quote))
              (ground arith) (ground arith)
        | inr b ↦
            pooled (moved true p (on_side leg.side quote base) (on_side leg.side base quote))
              (pool_fill env trader leg p.pool_id (price_of_fill base quote) base quote) k b refl
              (ground arith) (ground arith)
      ]
  trade_with_pool-Fallback false p base quote t t' w k h =
      elim (Bool-cases (beyond_limit leg (price_of_fill base quote))) [
        | inl b ↦
            beyond (moved false p (on_side leg.side quote base) (on_side leg.side base quote))
              (ground arith) (ground arith)
        | inr b ↦
            pooled (moved false p (on_side leg.side quote base) (on_side leg.side base quote))
              (pool_fill env trader leg p.pool_id (price_of_fill base quote) base quote) k b refl
              (ground arith) (ground arith)
      ]

  with_quote-Fallback :
      (a : Bool) (p : LiquidityPool) (q : Option ℤ) (t t' : Tally) (w : World Store Event L)
      → (with_quote tok env trader leg a p t q w).0 ≡ ok t'
      → Fallback leg t w.store t' (with_quote tok env trader leg a p t q w).1.store
  with_quote-Fallback a p none t t' w h = unused (ground arith) refl
  with_quote-Fallback a p (some q) t t' w h =
      trade_with_pool-Fallback a p t.remaining q t t' w refl h

  pool_quote_in_world :
      (p : LiquidityPool) (i o r : ℤ) (w : World Store Event L)
      → (pool_quote_in tok env trader leg p i o r w).1 ≡ w
  pool_quote_in_world p i o r w = ground arith

  match_reserves-Fallback :
      (side : OrderSide) (a : Bool) (p : LiquidityPool) (i o : ℤ) (t t' : Tally)
      (w : World Store Event L)
      → (match_reserves tok env trader leg side a p i o t w).0 ≡ ok t'
      → Fallback leg t w.store t' (match_reserves tok env trader leg side a p i o t w).1.store
  match_reserves-Fallback buy a p i o t t' w h =
      elim (Bool-cases (ltb_ℤ (pos 0) i && leb_ℤ t.remaining o)) [
        | inr n ↦ unused (ground arith) (ground arith)
        | inl y ↦
            let (q, e, h', k) =
              >>=-eq-ok (pool_quote_in tok env trader leg p i o t.remaining)
                (with_quote tok env trader leg a p t) w t' (rw y at h) in
            let same = pool_quote_in_world p i o t.remaining w in
            rw (y, k, same) (with_quote-Fallback a p q t t' w (rw same at h'))
      ]
  match_reserves-Fallback sell a p i o t t' w h =
      elim (Bool-cases (ltb_ℤ (pos 0) i && ltb_ℤ (pos 0) o)) [
        | inr n ↦ unused (ground arith) (ground arith)
        | inl y ↦
            let (q, e, h', k) =
              >>=-eq-ok (λ w. (get_amount_out t.remaining i o p.fee_bps, w))
                (λ (q : ℤ). trade_with_pool tok env trader leg a p t.remaining q t) w t'
                (rw y at h) in
            rw (y, k) (trade_with_pool-Fallback a p t.remaining q t t' w refl h')
      ]

  match_found-Fallback :
      (p : Option LiquidityPool) (t t' : Tally) (w : World Store Event L)
      → (match_found tok env trader leg p t w).0 ≡ ok t'
      → Fallback leg t w.store t' (match_found tok env trader leg p t w).1.store
  match_found-Fallback none t t' w h = unused (ground arith) refl
  match_found-Fallback (some p) t t' w h =
      let (a, i, o) = pool_sides tok env trader leg leg.side p in
      match_reserves-Fallback leg.side a p i o t t' w h

  match_fallback-Fallback :
      (t t' : Tally) (w : World Store Event L)
      → (match_fallback tok env trader leg t w).0 ≡ ok t'
      → Fallback leg t w.store t' (match_fallback tok env trader leg t w).1.store
  unfolding match_fallback
  match_fallback-Fallback t t' w h = elim (Bool-cases (leb_ℤ t.remaining (pos 0))) [
    | inl z ↦ unused (ground arith) (ground arith)
    | inr z ↦ rw z (
        match_found-Fallback (get_pool_by_pair leg.base_asset leg.quote_asset w.store) t t' w
          (rw z at h))
  ]

-- A leg that was executed: the rounds of its loop, the book, the pool, and the tests at the end.
pub record Leg (env : Env) (trader : Address) (leg : TradeLeg) (s s' : Store)
    (fills : List FillResult) : Type 0 where
  pub matched : Tally
  pub filled : Store
  pub total : Tally
  pub positive : leb_ℤ leg.amount (pos 0) ≡ false
  pub distinct : (leg.base_asset == leg.quote_asset) ≡ false
  pub rounds :
      Rounds env trader leg matched filled
        (ids_of (opposite leg.side) (load_book leg.base_asset leg.quote_asset s))
        (record { remaining = leg.amount; base = pos 0; quote = pos 0; fills = []; kept = [] })
        s
  pub fallback :
      Fallback leg matched
        (save_book
          (with_ids (opposite leg.side) matched.kept (load_book leg.base_asset leg.quote_asset s))
          filled)
        total
        s'
  pub complete : ltb_ℤ (pos 0) total.remaining ≡ false
  pub enough :
      (ltb_ℤ (pos 0) leg.min_output_amount
        && ltb_ℤ (on_side leg.side total.base total.quote) leg.min_output_amount)
      ≡ false
  pub result : fills ≡ total.fills

module _ {L : Type 0} (tok : Tokens L) (env : Env) (trader : Address) (leg : TradeLeg) where
  finish_leg_lem :
      (book : PairOrderBook) (t : Tally) (fills : List FillResult) (w : World Store Event L)
      → (finish_leg tok env trader leg book t w).0 ≡ ok fills
      → (t' : Tally) × Fallback leg t
          (save_book (with_ids (opposite leg.side) t.kept book) w.store)
          t'
          (finish_leg tok env trader leg book t w).1.store
        × (ltb_ℤ (pos 0) t'.remaining ≡ false)
        × ((ltb_ℤ (pos 0) leg.min_output_amount
              && ltb_ℤ (on_side leg.side t'.base t'.quote) leg.min_output_amount)
            ≡ false)
        × (fills ≡ t'.fills)
  finish_leg_lem book t fills w h =
      let w1 : World Store Event L = record w {
        store = save_book (with_ids (opposite leg.side) t.kept book) w.store;
      } in
      elim (Result-cases (match_fallback tok env trader leg t w1).0) [
        | inl (t', e) ↦
            let same : (finish_leg tok env trader leg book t w).1.store
                ≡ (match_fallback tok env trader leg t w1).1.store =
              ground arith in
            (
              t',
              rw same (match_fallback-Fallback tok env trader leg t t' w1 e),
              ground arith,
              ground arith,
              ground arith,
            )
        | inr (inl (x, e)) ↦ absurd (ground arith)
        | inr (inr e) ↦ absurd (ground arith)
      ]

  -- `match_leg` past its first two tests.
  abbrev rest : World Store Event L → Result TradeError (List FillResult) × World Store Event L
  rest w =
      let book = load_book leg.base_asset leg.quote_asset w.store in
      (match_orders tok env trader leg (ids_of (opposite leg.side) book)
            (untouched tok env trader leg)
          >>= finish_leg tok env trader leg book)
        w

  rest-Leg :
      (fills : List FillResult) (w : World Store Event L)
      → leb_ℤ leg.amount (pos 0) ≡ false
      → (leg.base_asset == leg.quote_asset) ≡ false
      → (rest w).0 ≡ ok fills
      → Leg env trader leg w.store (rest w).1.store fills
  rest-Leg fills w z y h =
      let book = load_book leg.base_asset leg.quote_asset w.store in
      let ids = ids_of (opposite leg.side) book in
      let start = untouched tok env trader leg in
      let (t, e, h', k) =
        >>=-eq-ok (match_orders tok env trader leg ids start) (finish_leg tok env trader leg book) w
          fills h in
      let (t', f, c, o, r) =
        finish_leg_lem book t fills (match_orders tok env trader leg ids start w).1 h' in
      record {
        matched = t;
        filled = (match_orders tok env trader leg ids start w).1.store;
        total = t';
        positive = z;
        distinct = y;
        rounds = match_orders-Rounds tok env trader leg ids start t w e;
        fallback = rw k f;
        complete = c;
        enough = o;
        result = r;
      }

  match_leg_rest :
      (fills : List FillResult) (w : World Store Event L)
      → (match_leg tok env trader leg w).0 ≡ ok fills
      → (leb_ℤ leg.amount (pos 0) ≡ false)
        × ((leg.base_asset == leg.quote_asset) ≡ false)
        × (match_leg tok env trader leg w ≡ rest w)
  unfolding match_leg
  match_leg_rest fills w h = elim (Bool-cases (leb_ℤ leg.amount (pos 0))) [
    | inl z ↦ absurd (ground arith)
    | inr z ↦ elim (Bool-cases (leg.base_asset == leg.quote_asset)) [
      | inl y ↦ absurd (ground arith)
      | inr y ↦ (z, y, rw (z, y) refl)
    ]
  ]

  pub match_leg-Leg :
      (fills : List FillResult) (w : World Store Event L)
      → (match_leg tok env trader leg w).0 ≡ ok fills
      → Leg env trader leg w.store (match_leg tok env trader leg w).1.store fills
  match_leg-Leg fills w h =
      let (z, y, same) = match_leg_rest fills w h in rw same (rest-Leg fills w z y (rw same at h))
