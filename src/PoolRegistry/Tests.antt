-- ===== src/PoolRegistry/Tests.antt =====
-- Runs of the pool registry, and its theorems at concrete inputs: pools for the pairs (3, 4), (4, 5),
-- (3, 6) and (5, 6), so that 3 is exchanged for 5 through 4 or through 6.
use swaptrade_contract.Prelude.{
  ℕ, ◌+◌, ◌*◌, ◌≡◌, ◌≤◌, ◌<◌, refl, true, false, none, some, [], ◌∷◌, ◌==◌, if◌then◌else◌, arith,
}
use swaptrade_contract.Prelude.Int.{pos, ltb_ℤ, ◌+ℤ◌, ◌-ℤ◌}
use swaptrade_contract.Host.{Env, World, ok, invoke}
use swaptrade_contract.PoolRegistry.Types.{
  new_registry, LiquidityPool, Registry, Route, Store, Event,
}
use swaptrade_contract.PoolRegistry.Root.{sqrt, sqrt_loop, sqrt-IsRoot}
use swaptrade_contract.PoolRegistry.Quotes.{
  find_best_route, search_routes, calculate_output, calculate_price_impact,
}
use swaptrade_contract.PoolRegistry.Routes.{output_via, NoneBetter, find_best_route_best}
use swaptrade_contract.PoolRegistry.Trade.{swap_product}
use swaptrade_contract.PoolRegistry.{swap, register_pool}
use swaptrade_contract.PoolRegistry.Sound.{IsSound}
use swaptrade_contract.PoolRegistry.Calls.{State, Call, perform, Reach, here, pools-IsSound}
use swaptrade_contract.PoolRegistry.Calls

sqrt_1000003 : sqrt 1000003 ≡ some 1000
unfolding sqrt
sqrt_1000003 = refl

sqrt-IsRoot_example :
    (r : ℕ) × (sqrt 1000003 ≡ some r) × (r * r ≤ 1000003) × (1000003 < (r + 1) * (r + 1))
sqrt-IsRoot_example = sqrt-IsRoot 1000003

abbrev env : Env
env = record { now = 100; contract = 99; signed = λ a. true }

abbrev pool : ℕ → ℕ → ℕ → ℕ → ℕ → LiquidityPool
pool id a b reserve_a reserve_b = record {
  pool_id = id;
  token_a = a;
  token_b = b;
  reserve_a = pos reserve_a;
  reserve_b = pos reserve_b;
  total_lp_tokens = pos 10000;
  fee_tier = 30;
  accumulated_fees_a = pos 0;
  accumulated_fees_b = pos 0;
}

abbrev registry : Registry
registry = record {
  pools = λ id.
      if id == 1
      then some (pool 1 3 4 10000 20000)
      else if id == 2
      then some (pool 2 4 5 20000 10000)
      else if id == 3
      then some (pool 3 3 6 10000 10000)
      else if id == 4
      then some (pool 4 5 6 15000 10000)
      else none;
  pair_to_pool = λ a b.
      if a == 3
      then (if b == 4 then some 1 else if b == 6 then some 3 else none)
      else if a == 4
      then (if b == 5 then some 2 else none)
      else if a == 5
      then (if b == 6 then some 4 else none)
      else none;
  next_pool_id = 5;
  lp_balances = λ a b. none;
  max_hops = 2;
}

abbrev world : World Store Event (Unit {0})
world = record { store = record { registry = registry; admin = some 1 }; tokens = tt; events = [] }

swap_lem : (swap env 1 3 (pos 1000) (pos 1800) world).0 ≡ ok (pos 1813)
unfolding swap ◌+ℤ◌ ◌-ℤ◌
swap_lem = refl

abbrev after : World Store Event (Unit {0})
after = (swap env 1 3 (pos 1000) (pos 1800) world).1

swap_product_example :
    (pool' : LiquidityPool) × (a' : ℕ) × (b' : ℕ) × (after.store.registry.pools 1 ≡ some pool')
    × (pool'.reserve_a ≡ pos a')
    × (pool'.reserve_b ≡ pos b')
    × (10000 * 20000 ≤ a' * b')
    × (ltb_ℤ (pos 1813) (pos 1800) ≡ false)
swap_product_example =
    swap_product env 1 3 1000 (pos 1800) (pool 1 3 4 10000 20000) 10000 20000 (pos 1813) world refl
      refl refl (omega arith) (omega arith) (omega arith) (omega arith) swap_lem

abbrev route : Route
route = record {
  pools = 3 ∷ 4 ∷ [];
  tokens = 3 ∷ 6 ∷ 5 ∷ [];
  expected_output = pos 1242;
  total_price_impact_bps = 1906;
}

route_lem : find_best_route registry 3 5 (pos 1000) ≡ ok (some route)
unfolding find_best_route search_routes calculate_output calculate_price_impact
route_lem = refl

-- The other way, through 4.
other_lem : output_via registry 3 5 (pos 1000) (registry.pools 1) ≡ some (pos 828)
unfolding calculate_output
other_lem = refl

find_best_route_best_example :
    ((i : ℕ) × (i < 5) × (output_via registry 3 5 (pos 1000) (registry.pools i) ≡ some (pos 1242)))
    × NoneBetter registry 3 5 (pos 1000) 5 (pos 1242)
find_best_route_best_example = find_best_route_best registry 3 5 (pos 1000) route refl route_lem

abbrev start : State (Unit {0})
start = record {
  store = record { registry = new_registry; admin = some 1 };
  tokens = tt;
  events = [];
}

abbrev registering : Call
registering = Calls.register_pool 1 4 3 (pos 20000) (pos 10000) 30

abbrev swapping : Call
swapping = Calls.swap 1 3 (pos 1000) (pos 1800)

abbrev ended : State (Unit {0})
ended = (invoke (perform env swapping) (invoke (perform env registering) start).1).1

pools-IsSound_example : IsSound ended.store
pools-IsSound_example =
    pools-IsSound refl (Reach.next env swapping (Reach.next env registering here))

-- Both calls were made: the pool has the tokens in order, and the input less its fee.
ended_lem :
    ended.store.registry.pools 1
    ≡ some (record (pool 1 3 4 10997 18187) {
      total_lp_tokens = pos 14142;
      accumulated_fees_a = pos 3;
    })
unfolding perform invoke register_pool swap sqrt sqrt_loop ◌+ℤ◌ ◌-ℤ◌
ended_lem = refl
