-- ===== src/PoolRegistry/Trade.antt =====
-- What a swap does to a pool of the registry.
use swaptrade_contract.Prelude.{
  ℕ, ◌+◌, ◌-◌, ◌*◌, ◌/◌, ◌≡◌, ◌≤◌, ◌⊎◌, refl, inl, inr, Bool, true, false, Option, none, some, ◌==◌,
  if◌then◌else◌, arith, Bool-cases, ap, ◌∙◌,
}
use native.Mathlib.Nat.{mul-le-mul_left, div-mul-le_self, div-le_of_le-mul}
use swaptrade_contract.Prelude.Int.{ℤ, pos, leb_ℤ, ltb_ℤ, ◌+ℤ◌, ◌-ℤ◌}
use swaptrade_contract.Host.{
  Env, World, Result, Result-cases, ok, err, or_raise, or_raise-some, raise_if, ◌>>=◌, ◌>>◌,
}
use swaptrade_contract.Host.Words.{as_i128}
use swaptrade_contract.PoolRegistry.Types.{
  Symbol, LiquidityPool, Store, Event, Op, ContractError, invalid_token_symbol, invalid_amount,
  lp_position_not_found,
}
use swaptrade_contract.PoolRegistry.{swap, swap_reserves, sides, swapped}

abbrev max : ℕ
max = 170141183460469231731687303715884105727

sub-pos : (a b : ℕ) → b ≤ a → pos a -ℤ pos b ≡ pos (a - b)
unfolding ◌-ℤ◌
sub-pos a b h = ground arith

add-pos : (a b : ℕ) → pos a +ℤ pos b ≡ pos (a + b)
unfolding ◌+ℤ◌
add-pos a b = ground arith

as_i128-pos : (n : ℕ) → n ≤ max → as_i128 n ≡ pos n
as_i128-pos n h = ground arith

-- The fee on x, what is left of x, and what it is exchanged for, rounded down.
abbrev fee_of : ℕ → ℕ → ℕ
fee_of x tier = x * tier / 10000

abbrev out_of : ℕ → ℕ → ℕ → ℕ
out_of i o y = o * y / (i + y)

fee_le : (x tier : ℕ) → tier ≤ 10000 → fee_of x tier ≤ x
fee_le x tier h = let l : x * tier ≤ x * 10000 = mul-le-mul_left x h in omega arith

out_le : (i o y : ℕ) → out_of i o y ≤ o
out_le i o y = div-le_of_le-mul (i + y) (omega arith)

out_product : (i o y : ℕ) → i * o ≤ (i + y) * (o - out_of i o y)
out_product i o y =
    let q = out_of i o y in
    let l : q * (i + y) ≤ o * y = div-mul-le_self (o * y) (i + y) in
    let m : q ≤ o = out_le i o y in let e : o ≡ q + (o - q) = omega arith in rest q (o - q) o e l
  where
    rest : (q d o : ℕ) → o ≡ q + d → q * (i + y) ≤ o * y → i * o ≤ (i + y) * d
    rest q d o e l = omega (arith, l, ap (λ (t : ℕ). i * t) e, ap (λ (t : ℕ). t * y) e)

product_of_sides :
    (is_a : Bool) (a b y : ℕ)
    → a * b
      ≤ (if is_a then a + y else a - out_of b a y) * (if is_a then b - out_of a b y else b + y)
product_of_sides true a b y = out_product a b y
product_of_sides false a b y = let l = out_product b a y in omega arith

sides-cases :
    (pool : LiquidityPool) (token_in : Symbol)
    → ((is_a : Bool) × (sides pool token_in
          ≡ some (
            if is_a then pool.reserve_a else pool.reserve_b,
            if is_a then pool.reserve_b else pool.reserve_a,
            is_a,
          )))
      ⊎ (sides pool token_in ≡ none)
sides-cases pool token_in = elim (Bool-cases (token_in == pool.token_a)) [
  | inl t ↦ inl (true, rw t refl)
  | inr t ↦ elim (Bool-cases (token_in == pool.token_b)) [
    | inl u ↦ inl (false, rw (t, u) refl)
    | inr u ↦ inr (rw (t, u) refl)
  ]
]

cc_err : {A : Type 0} {e : ContractError} {a : A} → ¬ err e ≡ ok a
cc_err h = cc

module _ {L : Type 0} (env : Env) (pool_id : ℕ) (token_in : Symbol) (x : ℕ) (min_amount_out : ℤ)
    (pool : LiquidityPool) where
  -- The amounts that `swap_reserves` goes on with.
  swap_reserves_lem :
      (i o : ℕ) (is_a : Bool) (r : ℤ) (w : World Store Event L)
      → x ≤ max
      → o ≤ max
      → pool.fee_tier ≤ 10000
      → (swap_reserves env pool_id token_in (pos x) min_amount_out pool (pos i, pos o, is_a) w).0
        ≡ ok r
      → (pool' : LiquidityPool) × ((swapped {L = L} pool is_a
            (pos (fee_of x pool.fee_tier))
            (pos (x - fee_of x pool.fee_tier))
            (pos (out_of i o (x - fee_of x pool.fee_tier)))
            w).0
          ≡ ok pool')
        × (r ≡ pos (out_of i o (x - fee_of x pool.fee_tier)))
        × (ltb_ℤ r min_amount_out ≡ false)
        × ((swap_reserves env pool_id token_in
                (pos x)
                min_amount_out
                pool
                (pos i, pos o, is_a)
                w).1.store.registry.pools
              pool_id
            ≡ some pool')
  swap_reserves_lem i o is_a r w lx lo lt h =
      let fee = fee_of x pool.fee_tier in
      let y = x - fee in
      let f = fee_le x pool.fee_tier lt in
      let f1 = as_i128-pos fee (omega (arith, f, lx)) in
      let f2 = sub-pos x fee f in
      let f3 = as_i128-pos (out_of i o y) (omega (arith, out_le i o y, lo)) in
      elim (Result-cases (swapped {L = L} pool is_a (pos fee) (pos y) (pos (out_of i o y)) w).0) [
        | inl (pool', e) ↦ (pool', e, ground arith, ground arith, ground arith)
        | inr (inl (z, e)) ↦ absurd (ground arith)
        | inr (inr e) ↦ absurd (ground arith)
      ]

  -- Both reserves after a swap, by the side of the token that comes in.
  swapped_lem :
      (is_a : Bool) (a b : ℕ) (fee : ℤ) (y q : ℕ) (pool' : LiquidityPool) (w : World Store Event L)
      → pool.reserve_a ≡ pos a
      → pool.reserve_b ≡ pos b
      → q ≤ (if is_a then b else a)
      → (swapped {L = L} pool is_a fee (pos y) (pos q) w).0 ≡ ok pool'
      → (pool'.reserve_a ≡ pos (if is_a then a + y else a - q))
        × (pool'.reserve_b ≡ pos (if is_a then b - q else b + y))
  swapped_lem true a b fee y q pool' w p k l h =
      let s = sub-pos b q l in let t = add-pos a y in (ground arith, ground arith)
  swapped_lem false a b fee y q pool' w p k l h =
      let s = sub-pos a q l in let t = add-pos b y in (ground arith, ground arith)

  -- `swap` past the read of the pool.
  abbrev pool_found : Op L ℤ
  pool_found =
      raise_if (leb_ℤ (pos x) (pos 0)) invalid_amount
      >> (or_raise (sides pool token_in) invalid_token_symbol
          >>= swap_reserves env pool_id token_in (pos x) min_amount_out pool)

  swap_found :
      (w : World Store Event L)
      → w.store.registry.pools pool_id ≡ some pool
      → swap env pool_id token_in (pos x) min_amount_out w ≡ pool_found w
  unfolding swap
  swap_found w k =
      or_raise-some (w.store.registry.pools pool_id) pool lp_position_not_found
        (λ p.
          raise_if (leb_ℤ (pos x) (pos 0)) invalid_amount
          >> (or_raise (sides p token_in) invalid_token_symbol
              >>= swap_reserves env pool_id token_in (pos x) min_amount_out p))
        w k

  swap_started :
      (r : ℤ) (w : World Store Event L)
      → w.store.registry.pools pool_id ≡ some pool
      → (swap env pool_id token_in (pos x) min_amount_out w).0 ≡ ok r
      → swap env pool_id token_in (pos x) min_amount_out w
        ≡ (or_raise (sides pool token_in) invalid_token_symbol
              >>= swap_reserves env pool_id token_in (pos x) min_amount_out pool)
            w
  swap_started r w k h =
      let e = swap_found w k in
      elim (Bool-cases (leb_ℤ (pos x) (pos 0))) [
        | inl z ↦
            let f : (pool_found w).0 ≡ err invalid_amount = rw z refl in
            absurd (cc_err (rw f at (rw e at h)))
        | inr z ↦ e ∙ rw z refl
      ]

  -- `swap` from the reserves on, and the reserves by the side of the token that comes in.
  swap_lem :
      (r : ℤ) (w : World Store Event L)
      → w.store.registry.pools pool_id ≡ some pool
      → (swap env pool_id token_in (pos x) min_amount_out w).0 ≡ ok r
      → (is_a : Bool) × (swap env pool_id token_in (pos x) min_amount_out w
          ≡ swap_reserves env pool_id token_in
              (pos x)
              min_amount_out
              pool
              (
                if is_a then pool.reserve_a else pool.reserve_b,
                if is_a then pool.reserve_b else pool.reserve_a,
                is_a,
              )
              w)
  swap_lem r w k h =
      let e = swap_started r w k h in
      let go = swap_reserves env pool_id token_in (pos x) min_amount_out pool in
      elim (sides-cases pool token_in) [
        | inl (is_a, s) ↦ (
          is_a,
          e ∙ ap (λ (o : Option (ℤ × ℤ × Bool)). (or_raise o invalid_token_symbol >>= go) w) s,
        )
        | inr s ↦ absurd (
            cc_err (
              rw
                (e
                  ∙ ap (λ (o : Option (ℤ × ℤ × Bool)). (or_raise o invalid_token_symbol >>= go) w)
                      s)
                at h))
      ]

  swap_reserves_at :
      (i o : ℤ) (n m : ℕ) (is_a : Bool) (w : World Store Event L)
      → i ≡ pos n
      → o ≡ pos m
      → swap_reserves env pool_id token_in (pos x) min_amount_out pool (i, o, is_a) w
        ≡ swap_reserves env pool_id token_in (pos x) min_amount_out pool (pos n, pos m, is_a) w
  swap_reserves_at i o n m is_a w p q = rw (p, q) refl

  -- The reserves after a swap in which token A comes in, or token B.
  abbrev Grown : ℕ → ℕ → ℤ → World Store Event L → Type 0
  Grown a b r w =
      (pool' : LiquidityPool) × (a' : ℕ) × (b' : ℕ) × ((swap env pool_id token_in (pos x)
            min_amount_out w).1.store.registry.pools
          pool_id
        ≡ some pool')
      × (pool'.reserve_a ≡ pos a')
      × (pool'.reserve_b ≡ pos b')
      × (a * b ≤ a' * b')
      × (ltb_ℤ r min_amount_out ≡ false)

  module _ (a b : ℕ) (r : ℤ) (w : World Store Event L) (p : pool.reserve_a ≡ pos a)
      (q : pool.reserve_b ≡ pos b) (lx : x ≤ max) (la : a ≤ max) (lb : b ≤ max)
      (lt : pool.fee_tier ≤ 10000)
      (h : (swap env pool_id token_in (pos x) min_amount_out w).0 ≡ ok r) where
    Grown-swap :
        (is_a : Bool)
        → swap env pool_id token_in (pos x) min_amount_out w
          ≡ swap_reserves env pool_id token_in
              (pos x)
              min_amount_out
              pool
              (
                if is_a then pool.reserve_a else pool.reserve_b,
                if is_a then pool.reserve_b else pool.reserve_a,
                is_a,
              )
              w
        → Grown a b r w
    Grown-swap true e =
        let y = x - fee_of x pool.fee_tier in
        let e' = e ∙ swap_reserves_at pool.reserve_a pool.reserve_b a b true w p q in
        let (pool', s, _, m, l) = swap_reserves_lem a b true r w lx lb lt (rw e' at h) in
        let (u, v) =
          swapped_lem true a b (pos (fee_of x pool.fee_tier)) y (out_of a b y) pool' w p q
            (out_le a b y) s in
        (
          pool',
          a + y,
          b - out_of a b y,
          ap
                (λ (v : Result ContractError ℤ × World Store Event L).
                  v.1.store.registry.pools pool_id)
                e'
              ∙ l,
          u,
          v,
          product_of_sides true a b y,
          m,
        )
    Grown-swap false e =
        let y = x - fee_of x pool.fee_tier in
        let e' = e ∙ swap_reserves_at pool.reserve_b pool.reserve_a b a false w q p in
        let (pool', s, _, m, l) = swap_reserves_lem b a false r w lx la lt (rw e' at h) in
        let (u, v) =
          swapped_lem false a b (pos (fee_of x pool.fee_tier)) y (out_of b a y) pool' w p q
            (out_le b a y) s in
        (
          pool',
          a - out_of b a y,
          b + y,
          ap
                (λ (v : Result ContractError ℤ × World Store Event L).
                  v.1.store.registry.pools pool_id)
                e'
              ∙ l,
          u,
          v,
          product_of_sides false a b y,
          m,
        )

  -- Where `swap` returns `Ok` on a pool whose reserves are not negative, with i128 amounts and a fee
  -- of at most 10000 basis points, the output is at least the minimum that was asked for, the
  -- stored reserves are not negative, and their product is at least what it was before.
  pub swap_product :
      (a b : ℕ) (r : ℤ) (w : World Store Event L)
      → w.store.registry.pools pool_id ≡ some pool
      → pool.reserve_a ≡ pos a
      → pool.reserve_b ≡ pos b
      → x ≤ max
      → a ≤ max
      → b ≤ max
      → pool.fee_tier ≤ 10000
      → (swap env pool_id token_in (pos x) min_amount_out w).0 ≡ ok r
      → (pool' : LiquidityPool) × (a' : ℕ) × (b' : ℕ) × ((swap env pool_id token_in
              (pos x)
              min_amount_out
              w).1.store.registry.pools
            pool_id
          ≡ some pool')
        × (pool'.reserve_a ≡ pos a')
        × (pool'.reserve_b ≡ pos b')
        × (a * b ≤ a' * b')
        × (ltb_ℤ r min_amount_out ≡ false)
  swap_product a b r w k p q lx la lb lt h =
      let (is_a, e) = swap_lem r w k h in Grown-swap a b r w p q lx la lb lt h is_a e
