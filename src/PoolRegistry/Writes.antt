-- ===== src/PoolRegistry/Writes.antt =====
-- What the methods of the pool registry write where they return a value.
use swaptrade_contract.Prelude.{
  ℕ, ◌+◌, ◌*◌, ◌/◌, ◌≡◌, ◌∙◌, refl, inl, inr, Bool, true, false, ◌||◌, none, some, ◌==◌,
  if◌then◌else◌, arith, ap,
}
use swaptrade_contract.Prelude.Int.{ℤ, pos, leb_ℤ, ◌+ℤ◌, ◌-ℤ◌}
use swaptrade_contract.Prelude.Maps.{set, set_pair}
use swaptrade_contract.Host.{
  Address, Env, World, ok, Result, Result-cases, or_raise, or_raise-some, >>=-eq-ok, raise_if,
  ◌>>=◌, ◌>>◌,
}
use swaptrade_contract.Host.Triples.{or_raise-Silent}
use swaptrade_contract.Host.Words.{as_u128, as_i128}
use swaptrade_contract.PoolRegistry.Types.{
  Symbol, LiquidityPool, Registry, Store, Event, ContractError, invalid_token_symbol,
  invalid_amount, lp_position_not_found, ◌==ℤ◌, is_fee_tier, normalize_pair,
}
use swaptrade_contract.PoolRegistry.{
  claim_fees, withdraw_treasury_fees, update_fee_tier, add_liquidity, deposited, withdrawn,
  register_pool, registered, swap, swap_reserves, sides, lp_balance_of, swapped, lp_tokens_for,
  root_of,
}

abbrev pub Alike : LiquidityPool → LiquidityPool → Type 0
Alike p p' = (p'.pool_id ≡ p.pool_id) × (p'.token_a ≡ p.token_a) × (p'.token_b ≡ p.token_b)

abbrev pub with_pool : ℕ → LiquidityPool → Store → Store
with_pool id p s = record s { registry = record s.registry { pools = set s.registry.pools id p } }

abbrev pub with_balance : ℕ → Address → ℤ → Store → Store
with_balance id who x s = record s {
  registry = record s.registry { lp_balances = set_pair s.registry.lp_balances id who x };
}

abbrev pub with_new : ℕ → LiquidityPool → Registry → Registry
with_new id p r = record r {
  pools = set r.pools id p;
  pair_to_pool = set_pair r.pair_to_pool p.token_a p.token_b id;
  next_pool_id = id + 1;
}

-- The writes of the methods that return a value.
module _ {L : Type 0} (env : Env) (id : ℕ) where
  pub claim_fees_store :
      (who : Address) (p : LiquidityPool) (r : ℤ × ℤ) (w : World Store Event L)
      → w.store.registry.pools id ≡ some p
      → (claim_fees env id who w).0 ≡ ok r
      → (claim_fees env id who w).1.store
        ≡ with_pool id
            (record p {
              accumulated_fees_a = p.accumulated_fees_a -ℤ r.0;
              accumulated_fees_b = p.accumulated_fees_b -ℤ r.1;
            })
            w.store
  unfolding claim_fees
  claim_fees_store who p r w k h = ground arith

  pub withdraw_store :
      (who : Address) (p : LiquidityPool) (r : ℤ × ℤ) (w : World Store Event L)
      → w.store.registry.pools id ≡ some p
      → (withdraw_treasury_fees env id who w).0 ≡ ok r
      → (withdraw_treasury_fees env id who w).1.store
        ≡ with_pool id (record p { accumulated_fees_a = pos 0; accumulated_fees_b = pos 0 }) w.store
  unfolding withdraw_treasury_fees
  withdraw_store who p r w k h = ground arith

  pub update_fee_tier_store :
      (tier : ℕ) (who : Address) (p : LiquidityPool) (w : World Store Event L)
      → w.store.registry.pools id ≡ some p
      → (update_fee_tier env id tier who w).0 ≡ ok tt
      → (is_fee_tier tier ≡ true)
        × ((update_fee_tier env id tier who w).1.store
            ≡ with_pool id (record p { fee_tier = tier }) w.store)
  unfolding update_fee_tier
  update_fee_tier_store tier who p w k h = (ground arith, ground arith)

  deposited_store :
      (a b : ℤ) (who : Address) (p : LiquidityPool) (lp r : ℤ) (w : World Store Event L)
      → (deposited {L = L} id a b who p lp w).0 ≡ ok r
      → (deposited {L = L} id a b who p lp w).1.store
        ≡ with_balance id who (lp_balance_of id who w.store +ℤ lp) (
            with_pool id
              (record p {
                reserve_a = p.reserve_a +ℤ a;
                reserve_b = p.reserve_b +ℤ b;
                total_lp_tokens = p.total_lp_tokens +ℤ lp;
              })
              w.store)
  deposited_store a b who p lp r w h = ground arith

  lp_tokens_for_world :
      (p : LiquidityPool) (a b : ℤ) (w : World Store Event L)
      → (lp_tokens_for {L = L} p a b w).1 ≡ w
  lp_tokens_for_world p a b w = ground arith

  -- The two writes of `add_liquidity`.
  pub add_liquidity_store :
      (a b : ℤ) (who : Address) (p : LiquidityPool) (r : ℤ) (w : World Store Event L)
      → w.store.registry.pools id ≡ some p
      → (add_liquidity {L = L} id a b who w).0 ≡ ok r
      → (lp : ℤ) × ((add_liquidity {L = L} id a b who w).1.store
          ≡ with_balance id who (lp_balance_of id who w.store +ℤ lp) (
              with_pool id
                (record p {
                  reserve_a = p.reserve_a +ℤ a;
                  reserve_b = p.reserve_b +ℤ b;
                  total_lp_tokens = p.total_lp_tokens +ℤ lp;
                })
                w.store))
  unfolding add_liquidity
  add_liquidity_store a b who p r w k h =
      let rest = λ (q : LiquidityPool). lp_tokens_for {L = L} q a b >>= deposited id a b who q in
      let check = λ (q : LiquidityPool).
        raise_if {W = World Store Event L}
          (leb_ℤ a (pos 0) || leb_ℤ b (pos 0) || q.reserve_a ==ℤ pos 0 || q.reserve_b ==ℤ pos 0)
          invalid_amount in
      let e =
        or_raise-some (w.store.registry.pools id) p lp_position_not_found (λ q. check q >> rest q) w
          k in
      let (_, _, h1, e1) = >>=-eq-ok (check p) (λ _. rest p) w r (rw e at h) in
      let (lp, _, h2, e2) = >>=-eq-ok (lp_tokens_for p a b) (deposited id a b who p) w r h1 in
      let same = lp_tokens_for_world p a b w in
      (
        lp,
        ap (λ (v : Result ContractError ℤ × World Store Event L). v.1.store) e
            ∙ ap (λ (v : World Store Event L). v.store) (e1 ∙ e2)
            ∙ rw same (deposited_store a b who p lp r w (rw same at h2)),
      )

  pub withdrawn_store :
      (lp : ℤ) (who : Address) (p : LiquidityPool) (r : ℤ × ℤ) (w : World Store Event L)
      → w.store.registry.pools id ≡ some p
      → (withdrawn {L = L} id lp who w).0 ≡ ok r
      → (withdrawn {L = L} id lp who w).1.store
        ≡ with_balance id who (lp_balance_of id who w.store -ℤ lp) (
            with_pool id
              (record p {
                reserve_a = p.reserve_a -ℤ r.0;
                reserve_b = p.reserve_b -ℤ r.1;
                total_lp_tokens = p.total_lp_tokens -ℤ lp;
              })
              w.store)
  withdrawn_store lp who p r w k h = ground arith

  swapped-Alike :
      (p p' : LiquidityPool) (is_a : Bool) (f x y : ℤ) (w : World Store Event L)
      → (swapped {L = L} p is_a f x y w).0 ≡ ok p'
      → Alike p p' × (p'.fee_tier ≡ p.fee_tier) × ((swapped {L = L} p is_a f x y w).1 ≡ w)
  swapped-Alike p p' true f x y w h =
      ((ground arith, ground arith, ground arith), ground arith, ground arith)
  swapped-Alike p p' false f x y w h =
      ((ground arith, ground arith, ground arith), ground arith, ground arith)

  pub swap_reserves_store :
      (token : Symbol) (x m : ℤ) (p : LiquidityPool) (i o : ℤ) (is_a : Bool) (r : ℤ)
      (w : World Store Event L)
      → (swap_reserves env id token x m p (i, o, is_a) w).0 ≡ ok r
      → (p' : LiquidityPool) × Alike p p'
        × (p'.fee_tier ≡ p.fee_tier)
        × ((swap_reserves env id token x m p (i, o, is_a) w).1.store ≡ with_pool id p' w.store)
  swap_reserves_store token x m p i o is_a r w h =
      let fee = as_i128 (as_u128 x * p.fee_tier / 10000) in
      elim (Result-cases (swapped {L = L} p is_a fee (x -ℤ fee) r w).0) [
        | inl (p', e) ↦
            let (a, t, same) = swapped-Alike p p' is_a fee (x -ℤ fee) r w e in
            (p', a, t, ground arith)
        | inr (inl (z, e)) ↦ absurd (ground arith)
        | inr (inr e) ↦ absurd (ground arith)
      ]

  pub swap_store :
      (token : Symbol) (x m : ℤ) (p : LiquidityPool) (r : ℤ) (w : World Store Event L)
      → w.store.registry.pools id ≡ some p
      → (swap env id token x m w).0 ≡ ok r
      → (p' : LiquidityPool) × Alike p p'
        × (p'.fee_tier ≡ p.fee_tier)
        × ((swap env id token x m w).1.store ≡ with_pool id p' w.store)
  unfolding swap
  swap_store token x m p r w k h =
      let look = or_raise {W = World Store Event L} (sides p token) invalid_token_symbol in
      let rest = λ (q : LiquidityPool).
        or_raise {W = World Store Event L} (sides q token) invalid_token_symbol
        >>= swap_reserves env id token x m q in
      let check = raise_if {W = World Store Event L} (leb_ℤ x (pos 0)) invalid_amount in
      let e =
        or_raise-some (w.store.registry.pools id) p lp_position_not_found (λ q. check >> rest q) w
          k in
      let (_, _, h1, e1) = >>=-eq-ok check (λ _. rest p) w r (rw e at h) in
      let ((i, o, is_a), _, h2, e2) = >>=-eq-ok look (swap_reserves env id token x m p) w r h1 in
      let (p', a, t, q) = swap_reserves_store token x m p i o is_a r (look w).1 h2 in
      let same =
        or_raise-Silent {S = Store} {Ev = Event} {L = L} (sides p token) invalid_token_symbol w in
      (
        p',
        a,
        t,
        ap (λ (v : Result ContractError ℤ × World Store Event L). v.1.store) e
            ∙ ap (λ (v : World Store Event L). v.store) (e1 ∙ e2)
            ∙ q
            ∙ ap (with_pool id p') same,
      )

  root_of_world : (x y : ℤ) (w : World Store Event L) → (root_of {L = L} x y w).1 ≡ w
  root_of_world x y w = ground arith

  registered_store :
      (new : ℕ) (a b : Symbol) (x y : ℤ) (tier : ℕ) (lp : ℤ) (r : ℕ) (w : World Store Event L)
      → (registered {L = L} new a b x y tier lp w).0 ≡ ok r
      → (r ≡ new)
        × ((registered {L = L} new a b x y tier lp w).1.store.registry
            ≡ with_new new
                (record {
                  pool_id = new;
                  token_a = a;
                  token_b = b;
                  reserve_a = x;
                  reserve_b = y;
                  total_lp_tokens = lp;
                  fee_tier = tier;
                  accumulated_fees_a = pos 0;
                  accumulated_fees_b = pos 0;
                })
                w.store.registry)
  registered_store new a b x y tier lp r w h = (ground arith, ground arith)

  pub register_pool_store :
      (who : Address) (a b : Symbol) (x y : ℤ) (tier new : ℕ) (w : World Store Event L)
      → (register_pool env who a b x y tier w).0 ≡ ok new
      → (new ≡ w.store.registry.next_pool_id)
        × (is_fee_tier tier ≡ true)
        × ((a == b) ≡ false)
        × (w.store.registry.pair_to_pool (normalize_pair a b).0 (normalize_pair a b).1 ≡ none)
        × ((p : LiquidityPool) × (p.pool_id ≡ w.store.registry.next_pool_id)
            × (p.token_a ≡ (normalize_pair a b).0)
            × (p.token_b ≡ (normalize_pair a b).1)
            × (p.fee_tier ≡ tier)
            × ((register_pool env who a b x y tier w).1.store.registry
                ≡ with_new w.store.registry.next_pool_id p w.store.registry))
  unfolding register_pool
  register_pool_store who a b x y tier new w h =
      let (na, nb) = normalize_pair a b in
      let ra = if a == na then x else y in
      let rb = if a == na then y else x in
      let go = λ (lp : ℤ). registered {L = L} w.store.registry.next_pool_id na nb ra rb tier lp in
      let e : register_pool env who a b x y tier w ≡ (root_of ra rb >>= go) w = ground arith in
      let (lp, _, h1, k) = >>=-eq-ok (root_of ra rb) go w new (rw e at h) in
      let same = root_of_world ra rb w in
      let p : LiquidityPool = record {
        pool_id = w.store.registry.next_pool_id;
        token_a = na;
        token_b = nb;
        reserve_a = ra;
        reserve_b = rb;
        total_lp_tokens = lp;
        fee_tier = tier;
        accumulated_fees_a = pos 0;
        accumulated_fees_b = pos 0;
      } in
      let (n, q) =
        registered_store w.store.registry.next_pool_id na nb ra rb tier lp new w (rw same at h1) in
      (
        n,
        ground arith,
        ground arith,
        ground arith,
        (
          p,
          refl,
          refl,
          refl,
          refl,
          ap (λ (v : Result ContractError ℕ × World Store Event L). v.1.store.registry) e
              ∙ ap (λ (v : World Store Event L). v.store.registry) k
              ∙ rw same q,
        ),
      )
