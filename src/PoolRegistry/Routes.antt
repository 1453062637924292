-- ===== src/PoolRegistry/Routes.antt =====
-- The route that `find_best_route` gives where no pool has the pair.
use swaptrade_contract.Prelude.{
  ℕ, zero, suc, ◌+◌, ◌≡◌, ◌≤◌, ◌<◌, ◌⊎◌, refl, inl, inr, Option, none, some, [], ◌∷◌, min, ◌==◌,
  if◌then◌else◌, arith, Bool-cases, Option-cases, subst, sym, ap, ◌∙◌,
}
use swaptrade_contract.Prelude.Int.{ℤ, ltb_ℤ, ◌≤ℤ◌}
use swaptrade_contract.Host.{ok, err, trap, u32_max}
use swaptrade_contract.PoolRegistry.Types.{Symbol, LiquidityPool, Registry, Route}
use swaptrade_contract.PoolRegistry.Quotes.{
  Quote, ◌>>=◌, or_none, calculate_output, calculate_price_impact, pool_of, across, best_output,
  try_pools, try_intermediate, try_pool, search_routes, find_best_route,
}

-- A quote that is given, and what was done with it.
or_none-some :
    {A : Type 0} (q : Quote A) (f : A → Quote (Option Route)) (route : Route)
    → or_none q f ≡ ok (some route)
    → (a : A) × (q ≡ ok a) × (f a ≡ ok (some route))
or_none-some (ok a) f route h = (a, refl, h)
or_none-some (err e) f route h = absurd (ground arith)
or_none-some trap f route h = absurd (ground arith)

none-some : {route : Route} → ¬ none ≡ some route
none-some h = cc

quote-ok :
    {A B : Type 0} (q : Quote A) (f : A → Quote B) (b : B)
    → q >>= f ≡ ok b
    → (a : A) × (q ≡ ok a) × (f a ≡ ok b)
quote-ok (ok a) f b h = (a, refl, h)
quote-ok (err e) f b h = absurd (ground arith)
quote-ok trap f b h = absurd (ground arith)

-- What is done with a quote, if there is one.
abbrev hop : Quote ℤ → (ℤ → Option ℤ) → Option ℤ
hop (ok a) f = f a
hop (err e) f = none
hop trap f = none

module _ (registry : Registry) (token_in token_out : Symbol) (amount_in : ℤ) where
  -- The output of a swap at one pool and then at another, where both have a quote.
  abbrev two_hops : LiquidityPool → Symbol → LiquidityPool → Option ℤ
  two_hops pool1 intermediate pool2 =
      hop (calculate_output pool1 token_in amount_in)
        (λ out1. hop (calculate_output pool2 intermediate out1) some)

  abbrev through : LiquidityPool → Option Symbol → Option ℤ
  through pool1 none = none
  through pool1 (some intermediate) =
      if intermediate == token_out then none else elim (pool_of registry intermediate token_out) [
        | none ↦ none
        | some (id, pool2) ↦ two_hops pool1 intermediate pool2
      ]

  -- The output of the route whose first pool has the id, if there is one.
  abbrev pub output_via : Option LiquidityPool → Option ℤ
  output_via none = none
  output_via (some pool1) = through pool1 (across pool1 token_in)

  -- An output, where there is one, is not above the number.
  abbrev pub Below : Option ℤ → ℤ → Type 0
  Below none x = Unit
  Below (some out) x = out ≤ℤ x

  -- No route whose first pool has an id under the bound gives more.
  abbrev pub NoneBetter : ℕ → ℤ → Type 0
  NoneBetter zero x = Unit
  NoneBetter (suc n) x = Below (output_via (registry.pools n)) x × NoneBetter n x

  -- The best route so far before and after a pool with this output was tried.
  abbrev Taken : Option ℤ → Option Route → Option Route → Type 0
  Taken none best best' = best' ≡ best
  Taken (some out) best best' =
      (out ≤ℤ best_output best')
      × (best_output best ≤ℤ best_output best')
      × ((best' ≡ best) ⊎ ((route : Route) × (best' ≡ some route) × (route.expected_output ≡ out)))

  abbrev Tried : Option ℤ → Option Route → (Option Route → Quote (Option Route)) → Route → Type 0
  Tried out best rest route =
      (best' : Option Route) × (rest best' ≡ ok (some route)) × Taken out best best'

  Tried-better :
      (out : ℤ) (best : Option Route) (new route : Route)
      (rest : Option Route → Quote (Option Route))
      → new.expected_output ≡ out
      → rest (if ltb_ℤ (best_output best) out then some new else best) ≡ ok (some route)
      → Tried (some out) best rest route
  Tried-better out best new route rest e h = elim (Bool-cases (ltb_ℤ (best_output best) out)) [
    | inl c ↦ (some new, rw c at h, (ground arith, ground arith, inr (new, refl, e)))
    | inr c ↦ (best, rw c at h, (ground arith, omega arith, inl refl))
  ]

  two_hops-some :
      (pool1 : LiquidityPool) (mid : Symbol) (pool2 : LiquidityPool) (out1 out2 : ℤ)
      → calculate_output pool1 token_in amount_in ≡ ok out1
      → calculate_output pool2 mid out1 ≡ ok out2
      → two_hops pool1 mid pool2 ≡ some out2
  two_hops-some pool1 mid pool2 out1 out2 e1 e2 =
      ap (λ (q : Quote ℤ). hop q (λ x. hop (calculate_output pool2 mid x) some)) e1
      ∙ ap (λ (q : Quote ℤ). hop q some) e2

  try_pools-Tried :
      (i : ℕ) (pool1 : LiquidityPool) (mid : Symbol) (id : ℕ) (pool2 : LiquidityPool)
      (best : Option Route) (rest : Option Route → Quote (Option Route)) (route : Route)
      → try_pools registry token_in token_out amount_in i pool1 mid id pool2 best rest
        ≡ ok (some route)
      → Tried (two_hops pool1 mid pool2) best rest route
  try_pools-Tried i pool1 mid id pool2 best rest route h =
      let (out1, e1, h1) = or_none-some (calculate_output pool1 token_in amount_in) _ route h in
      let (out2, e2, h2) = or_none-some (calculate_output pool2 mid out1) _ route h1 in
      let (impact1, e3, h3) =
        quote-ok (calculate_price_impact pool1 token_in amount_in) _ (some route) h2 in
      let (impact2, e4, h4) = quote-ok (calculate_price_impact pool2 mid out1) _ (some route) h3 in
      let both = two_hops-some pool1 mid pool2 out1 out2 e1 e2 in
      subst (λ o. Tried o best rest route) (sym both)
        (Tried-better out2 best
          (record {
            pools = i ∷ id ∷ [];
            tokens = token_in ∷ mid ∷ token_out ∷ [];
            expected_output = out2;
            total_price_impact_bps = min (impact1 + impact2) u32_max;
          })
          route rest refl h4)

  Tried-none :
      (best : Option Route) (rest : Option Route → Quote (Option Route)) (route : Route)
      → rest best ≡ ok (some route)
      → Tried none best rest route
  Tried-none best rest route h = (best, h, refl)

  through-Tried :
      (i : ℕ) (pool1 : LiquidityPool) (mid : Option Symbol) (best : Option Route)
      (rest : Option Route → Quote (Option Route)) (route : Route)
      → try_intermediate registry token_in token_out amount_in i pool1 mid best rest
        ≡ ok (some route)
      → Tried (through pool1 mid) best rest route
  through-Tried i pool1 none best rest route h = Tried-none best rest route h
  through-Tried i pool1 (some mid) best rest route h = elim (Bool-cases (mid == token_out)) [
    | inl c ↦
        let e : through pool1 (some mid) ≡ none = rw c refl in
        subst (λ o. Tried o best rest route) (sym e) (Tried-none best rest route (rw c at h))
    | inr c ↦ elim (Option-cases (pool_of registry mid token_out)) [
      | inl k ↦
          let e : through pool1 (some mid) ≡ none = rw (c, k) refl in
          subst (λ o. Tried o best rest route) (sym e) (Tried-none best rest route (rw (c, k) at h))
      | inr ((id, pool2), k) ↦
          let e : through pool1 (some mid) ≡ two_hops pool1 mid pool2 = rw (c, k) refl in
          subst (λ o. Tried o best rest route) (sym e)
            (try_pools-Tried i pool1 mid id pool2 best rest route (rw (c, k) at h))
    ]
  ]

  try_pool-Tried :
      (i : ℕ) (o : Option LiquidityPool) (best : Option Route)
      (rest : Option Route → Quote (Option Route)) (route : Route)
      → try_pool registry token_in token_out amount_in i o best rest ≡ ok (some route)
      → Tried (output_via o) best rest route
  try_pool-Tried i none best rest route h = Tried-none best rest route h
  try_pool-Tried i (some pool1) best rest route h =
      through-Tried i pool1 (across pool1 token_in) best rest route h

  -- An output that was tried is not above the best after it, and nor is the best before it.
  Taken_le :
      (out : Option ℤ) (best best' : Option Route)
      → Taken out best best'
      → best_output best ≤ℤ best_output best'
  Taken_le none best best' t = ground (arith, t)
  Taken_le (some out) best best' t = t.1

  Taken_out :
      (o : Option ℤ) (best best' : Option Route) (out : ℤ)
      → Taken o best best'
      → o ≡ some out
      → out ≤ℤ best_output best'
  Taken_out none best best' out t e = absurd (ground arith)
  Taken_out (some x) best best' out t e = ground (arith, t.0)

  search_le :
      (count i : ℕ) (best : Option Route) (route : Route)
      → search_routes registry token_in token_out amount_in count i best ≡ ok (some route)
      → best_output best ≤ℤ route.expected_output
  unfolding search_routes
  search_le zero i best route h = ground arith
  search_le (suc count) i best route h =
      let (best', k, t) =
        try_pool-Tried i (registry.pools i) best
          (search_routes registry token_in token_out amount_in count (i + 1)) route h in
      let m = Taken_le (output_via (registry.pools i)) best best' t in
      let l = search_le count (i + 1) best' route k in omega (arith, m, l)

  search_best :
      (count i : ℕ) (best : Option Route) (route : Route) (j : ℕ) (out : ℤ)
      → search_routes registry token_in token_out amount_in count i best ≡ ok (some route)
      → i ≤ j
      → j < i + count
      → output_via (registry.pools j) ≡ some out
      → out ≤ℤ route.expected_output
  unfolding search_routes
  search_best zero i best route j out h l m e = absurd (omega arith)
  search_best (suc count) i best route j out h l m e =
      let (best', k, t) =
        try_pool-Tried i (registry.pools i) best
          (search_routes registry token_in token_out amount_in count (i + 1)) route h in
      elim (Bool-cases (i == j)) [
        | inl c ↦
            let same : j ≡ i = ground arith in
            let n = Taken_out (output_via (registry.pools i)) best best' out t (rw same at e) in
            let r = search_le count (i + 1) best' route k in omega (arith, n, r)
        | inr c ↦ search_best count (i + 1) best' route j out k (ground arith) (omega arith) e
      ]

  -- The route was there, or it goes through one of the ids.
  abbrev Through : ℕ → ℕ → Route → Type 0
  Through i n route =
      (j : ℕ) × (i ≤ j) × (j < n) × (output_via (registry.pools j) ≡ some route.expected_output)

  Taken-Through :
      (o : Option ℤ) (best best' : Option Route) (route : Route)
      → Taken o best best'
      → best' ≡ some route
      → (best ≡ some route) ⊎ (o ≡ some route.expected_output)
  Taken-Through none best best' route t e = inl (ground (arith, t))
  Taken-Through (some x) best best' route (a, b, inl s) e = inl (ground arith)
  Taken-Through (some x) best best' route (a, b, inr (new, s, k)) e = inr (ground arith)

  search-Through :
      (count i : ℕ) (best : Option Route) (route : Route)
      → search_routes registry token_in token_out amount_in count i best ≡ ok (some route)
      → (best ≡ some route) ⊎ Through i (i + count) route
  unfolding search_routes
  search-Through zero i best route h = inl (ground arith)
  search-Through (suc count) i best route h =
      let (best', k, t) =
        try_pool-Tried i (registry.pools i) best
          (search_routes registry token_in token_out amount_in count (i + 1)) route h in
      elim (search-Through count (i + 1) best' route k) [
        | inr (j, l, m, e) ↦ inr (j, omega (arith, l), omega (arith, m), e)
        | inl s ↦ elim (Taken-Through (output_via (registry.pools i)) best best' route t s) [
          | inl e ↦ inl e
          | inr e ↦ inr (i, omega arith, omega arith, e)
        ]
      ]

  Below-of : (o : Option ℤ) (x : ℤ) → ((out : ℤ) → o ≡ some out → out ≤ℤ x) → Below o x
  Below-of none x h = tt
  Below-of (some out) x h = h out refl

  NoneBetter-of :
      (n : ℕ) (x : ℤ)
      → ((j : ℕ) (out : ℤ) → j < n → output_via (registry.pools j) ≡ some out → out ≤ℤ x)
      → NoneBetter n x
  NoneBetter-of zero x h = tt
  NoneBetter-of (suc n) x h = (
    Below-of (output_via (registry.pools n)) x (λ out e. h n out (omega arith) e),
    NoneBetter-of n x (λ j out l e. h j out (omega (arith, l)) e),
  )

  -- Where no pool has the pair and `find_best_route` gives a route, its expected output is what one
  -- of the routes through two pools gives, and no route through two pools gives more.
  pub find_best_route_best :
      (route : Route)
      → pool_of registry token_in token_out ≡ none
      → find_best_route registry token_in token_out amount_in ≡ ok (some route)
      → ((i : ℕ) × (i < registry.next_pool_id)
          × (output_via (registry.pools i) ≡ some route.expected_output))
        × NoneBetter registry.next_pool_id route.expected_output
  unfolding find_best_route
  find_best_route_best route n h =
      let k : search_routes registry token_in token_out amount_in registry.next_pool_id 0 none
          ≡ ok (some route) =
        rw (find_best_route, n) at h in
      (
        elim (search-Through registry.next_pool_id 0 none route k) [
          | inl s ↦ absurd (none-some s)
          | inr (i, _, m, x) ↦ (i, omega (arith, m), x)
        ],
        NoneBetter-of registry.next_pool_id route.expected_output (λ j out l e.
            search_best registry.next_pool_id 0 none route j out k (omega arith) (omega (arith, l))
              e),
      )
