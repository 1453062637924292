-- ===== src/PoolRegistry/Sound.antt =====
-- The registry under every sequence of its methods.
use swaptrade_contract.Prelude.{
  ℕ, ◌≡◌, ◌∙◌, ◌<◌, inl, inr, true, ◌&&◌, Option, none, some, ◌==◌, arith, Bool-cases,
}
use swaptrade_contract.Prelude.Maps.{every-set}
use swaptrade_contract.Host.{Address}
use swaptrade_contract.PoolRegistry.Types.{Symbol, LiquidityPool, Registry, Store, is_fee_tier}
use swaptrade_contract.PoolRegistry.Writes.{Alike, with_pool, with_new}

-- A pool is filed under its own id, which has been given out; its tokens are in order, its fee tier
-- is one of the three, and its pair leads to it.
abbrev pub PoolAt : Registry → ℕ → Option LiquidityPool → Type 0
PoolAt r id none = Unit
PoolAt r id (some p) =
    (p.pool_id ≡ id)
    × (id < r.next_pool_id)
    × (p.token_a < p.token_b)
    × (is_fee_tier p.fee_tier ≡ true)
    × (r.pair_to_pool p.token_a p.token_b ≡ some id)

-- A pair leads to a pool with its tokens.
abbrev pub PairAt : Registry → Symbol → Symbol → Option ℕ → Type 0
PairAt r a b none = Unit
PairAt r a b (some id) =
    (p : LiquidityPool) × (r.pools id ≡ some p) × (p.token_a ≡ a) × (p.token_b ≡ b)

pub record IsSound (s : Store) : Type 0 where
  pub pools : (id : ℕ) → PoolAt s.registry id (s.registry.pools id)
  pub pairs : (a b : Symbol) → PairAt s.registry a b (s.registry.pair_to_pool a b)

-- The storage is sound and has this pool at the id.
pub record At (id : ℕ) (pool : LiquidityPool) (s : Store) : Type 0 where
  pub sound : IsSound s
  pub found : s.registry.pools id ≡ some pool

with_pool-pairs :
    (s : Store) (id : ℕ) (p p' : LiquidityPool) (a b : Symbol) (o : Option ℕ)
    → s.registry.pools id ≡ some p
    → Alike p p'
    → PairAt s.registry a b o
    → PairAt (with_pool id p' s).registry a b o
with_pool-pairs s id p p' a b none e k h = tt
with_pool-pairs s id p p' a b (some j) e k (q, f, x, y) = elim (Bool-cases (id == j)) [
  | inl c ↦ (p', ground arith, ground arith, ground arith)
  | inr c ↦ (q, ground arith, x, y)
]

-- A pool is written anew that keeps its id and its tokens.
pub with_pool-IsSound :
    (s : Store) (id : ℕ) (p p' : LiquidityPool)
    → At id p s
    → Alike p p'
    → is_fee_tier p'.fee_tier ≡ true
    → IsSound (with_pool id p' s)
with_pool-IsSound s id p p' h k f =
    let (own, given, order, tier, pair) = rw h.found at (h.sound.pools id) in
    record {
      pools =
          every-set (PoolAt s.registry) id p' h.sound.pools
            (k.0 ∙ own, given, rw (k.1, k.2) order, f, rw (k.1, k.2) pair);
      pairs = λ a b.
          with_pool-pairs s id p p' a b (s.registry.pair_to_pool a b) h.found k (h.sound.pairs a b);
    }

pub tier_of : (s : Store) (id : ℕ) (p : LiquidityPool) → At id p s → is_fee_tier p.fee_tier ≡ true
tier_of s id p h = let (own, given, order, tier, pair) = rw h.found at (h.sound.pools id) in tier

-- A new pool under the next id, for a pair that has none.
with_new-PoolAt :
    (r : Registry) (p : LiquidityPool) (j : ℕ) (o : Option LiquidityPool)
    → r.pair_to_pool p.token_a p.token_b ≡ none
    → PoolAt r j o
    → PoolAt (with_new r.next_pool_id p r) j o
with_new-PoolAt r p j none e h = tt
with_new-PoolAt r p j (some q) e (own, given, order, tier, pair) =
    (own, omega (arith, given), order, tier, ground arith)

with_new-PairAt :
    (r : Registry) (p : LiquidityPool) (a b : Symbol) (o : Option ℕ)
    → ((j : ℕ) → PoolAt r j (r.pools j))
    → PairAt r a b o
    → PairAt (with_new r.next_pool_id p r) a b o
with_new-PairAt r p a b none f h = tt
with_new-PairAt r p a b (some j) f (q, e, x, y) =
    let (own, given, _, _, _) = rw e at (f j) in (q, ground arith, x, y)

pub with_new-IsSound :
    (s : Store) (p : LiquidityPool) (a : Option Address)
    → IsSound s
    → p.pool_id ≡ s.registry.next_pool_id
    → p.token_a < p.token_b
    → is_fee_tier p.fee_tier ≡ true
    → s.registry.pair_to_pool p.token_a p.token_b ≡ none
    → IsSound (record { registry = with_new s.registry.next_pool_id p s.registry; admin = a })
with_new-IsSound s p a h k l f e =
    let r = s.registry in
    let n = r.next_pool_id in
    record {
      pools =
          every-set (PoolAt (with_new n p r)) n p
            (λ j. with_new-PoolAt r p j (r.pools j) e (h.pools j))
            (k, omega arith, l, f, ground arith);
      pairs = λ x y. elim (Bool-cases (p.token_a == x && p.token_b == y)) [
        | inl c ↦ rw c (p, ground arith, ground arith, ground arith)
        | inr c ↦ rw c (with_new-PairAt r p x y (r.pair_to_pool x y) h.pools (h.pairs x y))
      ];
    }
