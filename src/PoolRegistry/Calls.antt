-- ===== src/PoolRegistry/Calls.antt =====
-- Sequences of calls of the methods of the pool registry, by anyone, in any order.
use swaptrade_contract.Prelude.{
  ℕ, ◌≡◌, ◌<◌, refl, inl, inr, false, none, some, ◌==◌, arith, Option-cases,
}
use swaptrade_contract.Prelude.Int.{ℤ, pos, ◌+ℤ◌, ◌-ℤ◌}
use swaptrade_contract.Host.{Address, Env, World, ok, invoke, invoke_cases, pure, ◌>>◌, >>=-eq-ok}
use swaptrade_contract.PoolRegistry
use swaptrade_contract.PoolRegistry.Types.{
  Symbol, LiquidityPool, Store, Event, Op, new_registry, normalize_pair,
}
use swaptrade_contract.PoolRegistry.{load_pool, sides, swap_reserves, withdrawn, lp_balance_of}
use swaptrade_contract.PoolRegistry.Writes.{
  with_balance, Alike, with_pool, claim_fees_store, withdraw_store, update_fee_tier_store,
  add_liquidity_store, withdrawn_store, swap_store, with_new, register_pool_store,
}
use swaptrade_contract.PoolRegistry.Sound.{
  IsSound, At, with_pool-IsSound, with_new-IsSound, tier_of,
}

abbrev pub State : Type 0 → Type 0
State L = World Store Event L

-- The methods that write, with their arguments, `env` apart.
pub data Call : Type 0 where
  register_pool : Address → Symbol → Symbol → ℤ → ℤ → ℕ → Call
  add_liquidity : ℕ → ℤ → ℤ → Address → Call
  claim_fees withdraw_treasury_fees : ℕ → Address → Call
  update_fee_tier : ℕ → ℕ → Address → Call
  remove_liquidity : ℕ → ℤ → Address → Call
  swap : ℕ → Symbol → ℤ → ℤ → Call
  set_max_hops : ℕ → Call

-- The balances are not part of what makes a registry sound.
balance-IsSound :
    (s : Store) (id : ℕ) (who : Address) (x : ℤ) → IsSound s → IsSound (with_balance id who x s)
balance-IsSound s id who x h = record { pools = h.pools; pairs = h.pairs }

-- A pool is written that keeps its id, its tokens and its fee tier.
kept-IsSound :
    (s : Store) (id : ℕ) (p p' : LiquidityPool)
    → IsSound s
    → s.registry.pools id ≡ some p
    → Alike p p'
    → p'.fee_tier ≡ p.fee_tier
    → IsSound (with_pool id p' s)
kept-IsSound s id p p' h k a t =
    let here : At id p s = record { sound = h; found = k } in
    with_pool-IsSound s id p p' here a (rw t (tier_of s id p here))

registry-IsSound : (s s' : Store) → s'.registry ≡ s.registry → IsSound s → IsSound s'
registry-IsSound s s' e h = record { pools = rw e h.pools; pairs = rw e h.pairs }

normalize_pair_lt :
    (a b : Symbol) → (a == b) ≡ false → (normalize_pair a b).0 < (normalize_pair a b).1
normalize_pair_lt a b h = ground arith

module _ {L : Type 0} where
  unfoldable pub perform : Env → Call → Op L (Unit {0})
  perform env (register_pool admin a b x y tier) =
      PoolRegistry.register_pool env admin a b x y tier >> pure tt
  perform env (add_liquidity id a b provider) =
      PoolRegistry.add_liquidity id a b provider >> pure tt
  perform env (claim_fees id provider) = PoolRegistry.claim_fees env id provider >> pure tt
  perform env (withdraw_treasury_fees id treasury) =
      PoolRegistry.withdraw_treasury_fees env id treasury >> pure tt
  perform env (update_fee_tier id tier admin) = PoolRegistry.update_fee_tier env id tier admin
  perform env (remove_liquidity id lp provider) =
      PoolRegistry.remove_liquidity env id lp provider >> pure tt
  perform env (swap id token x m) = PoolRegistry.swap env id token x m >> pure tt
  perform env (set_max_hops n) = PoolRegistry.set_max_hops n

  pub data Reach (w : State L) : State L → Type 0 where
    here : Reach w w
    next : {t : State L} (env : Env) (c : Call) → Reach w t → Reach w (invoke (perform env c) t).1

  claim_fees-IsSound :
      (env : Env) (id : ℕ) (who : Address) (r : ℤ × ℤ) (w : State L)
      → IsSound w.store
      → (PoolRegistry.claim_fees env id who w).0 ≡ ok r
      → IsSound (PoolRegistry.claim_fees env id who w).1.store
  unfolding PoolRegistry.claim_fees
  claim_fees-IsSound env id who r w h e = elim (Option-cases (w.store.registry.pools id)) [
    | inl k ↦ absurd (ground (arith, k, e))
    | inr (p, k) ↦ rw (claim_fees_store env id who p r w k e) (
        kept-IsSound w.store id p
          (record p {
            accumulated_fees_a = p.accumulated_fees_a -ℤ r.0;
            accumulated_fees_b = p.accumulated_fees_b -ℤ r.1;
          })
          h k (refl, refl, refl) refl)
  ]

  withdraw_treasury_fees-IsSound :
      (env : Env) (id : ℕ) (who : Address) (r : ℤ × ℤ) (w : State L)
      → IsSound w.store
      → (PoolRegistry.withdraw_treasury_fees env id who w).0 ≡ ok r
      → IsSound (PoolRegistry.withdraw_treasury_fees env id who w).1.store
  unfolding PoolRegistry.withdraw_treasury_fees
  withdraw_treasury_fees-IsSound env id who r w h e =
      elim (Option-cases (w.store.registry.pools id)) [
        | inl k ↦ absurd (ground (arith, k, e))
        | inr (p, k) ↦ rw (withdraw_store env id who p r w k e) (
            kept-IsSound w.store id p
              (record p { accumulated_fees_a = pos 0; accumulated_fees_b = pos 0 }) h k
              (refl, refl, refl) refl)
      ]

  update_fee_tier-IsSound :
      (env : Env) (id tier : ℕ) (who : Address) (w : State L)
      → IsSound w.store
      → (PoolRegistry.update_fee_tier env id tier who w).0 ≡ ok tt
      → IsSound (PoolRegistry.update_fee_tier env id tier who w).1.store
  unfolding PoolRegistry.update_fee_tier
  update_fee_tier-IsSound env id tier who w h e = elim (Option-cases (w.store.registry.pools id)) [
    | inl k ↦ absurd (ground (arith, k, e))
    | inr (p, k) ↦
        let (t, q) = update_fee_tier_store env id tier who p w k e in
        rw q (
          with_pool-IsSound w.store id p (record p { fee_tier = tier })
            (record { sound = h; found = k }) (refl, refl, refl) t)
  ]

  add_liquidity-none :
      (id : ℕ) (a b : ℤ) (who : Address) (r : ℤ) (w : State L)
      → w.store.registry.pools id ≡ none
      → ¬ (PoolRegistry.add_liquidity id a b who w).0 ≡ ok r
  unfolding PoolRegistry.add_liquidity
  add_liquidity-none id a b who r w k h = ground (arith, k, h)

  add_liquidity-IsSound :
      (env : Env) (id : ℕ) (a b : ℤ) (who : Address) (r : ℤ) (w : State L)
      → IsSound w.store
      → (PoolRegistry.add_liquidity id a b who w).0 ≡ ok r
      → IsSound (PoolRegistry.add_liquidity id a b who w).1.store
  add_liquidity-IsSound env id a b who r w h e = elim (Option-cases (w.store.registry.pools id)) [
    | inl k ↦ absurd (add_liquidity-none id a b who r w k e)
    | inr (p, k) ↦
        let (lp, q) = add_liquidity_store env id a b who p r w k e in
        let p' : LiquidityPool = record p {
          reserve_a = p.reserve_a +ℤ a;
          reserve_b = p.reserve_b +ℤ b;
          total_lp_tokens = p.total_lp_tokens +ℤ lp;
        } in
        rw q (
          balance-IsSound (with_pool id p' w.store) id who (lp_balance_of id who w.store +ℤ lp)
            (kept-IsSound w.store id p p' h k (refl, refl, refl) refl))
  ]

  withdrawn-IsSound :
      (env : Env) (id : ℕ) (lp : ℤ) (who : Address) (r : ℤ × ℤ) (w : State L)
      → IsSound w.store
      → (withdrawn id lp who w).0 ≡ ok r
      → IsSound (withdrawn id lp who w).1.store
  withdrawn-IsSound env id lp who r w h e = elim (Option-cases (w.store.registry.pools id)) [
    | inl k ↦ absurd (ground (arith, k, e))
    | inr (p, k) ↦
        let p' : LiquidityPool = record p {
          reserve_a = p.reserve_a -ℤ r.0;
          reserve_b = p.reserve_b -ℤ r.1;
          total_lp_tokens = p.total_lp_tokens -ℤ lp;
        } in
        rw (withdrawn_store env id lp who p r w k e) (
          balance-IsSound (with_pool id p' w.store) id who (lp_balance_of id who w.store -ℤ lp)
            (kept-IsSound w.store id p p' h k (refl, refl, refl) refl))
  ]

  remove_liquidity-IsSound :
      (env : Env) (id : ℕ) (lp : ℤ) (who : Address) (r : ℤ × ℤ) (w : State L)
      → IsSound w.store
      → (PoolRegistry.remove_liquidity env id lp who w).0 ≡ ok r
      → IsSound (PoolRegistry.remove_liquidity env id lp who w).1.store
  unfolding PoolRegistry.remove_liquidity
  remove_liquidity-IsSound env id lp who r w h e =
      let (fees, a, b, k) =
        >>=-eq-ok (PoolRegistry.claim_fees env id who) (λ _. withdrawn id lp who) w r e in
      let w1 = (PoolRegistry.claim_fees env id who w).1 in
      rw k (withdrawn-IsSound env id lp who r w1 (claim_fees-IsSound env id who fees w h a) b)

  register_pool-IsSound :
      (env : Env) (who : Address) (a b : Symbol) (x y : ℤ) (tier r : ℕ) (w : State L)
      → IsSound w.store
      → (PoolRegistry.register_pool env who a b x y tier w).0 ≡ ok r
      → IsSound (PoolRegistry.register_pool env who a b x y tier w).1.store
  register_pool-IsSound env who a b x y tier r w h e =
      let (n, t, d, u, (p, i, ta, tb, f, q)) = register_pool_store env 0 who a b x y tier r w e in
      let lt : p.token_a < p.token_b = rw (ta, tb) (normalize_pair_lt a b d) in
      let free : w.store.registry.pair_to_pool p.token_a p.token_b ≡ none = rw (ta, tb) u in
      registry-IsSound
        (record {
          registry = with_new w.store.registry.next_pool_id p w.store.registry;
          admin = w.store.admin;
        })
        (PoolRegistry.register_pool env who a b x y tier w).1.store q
        (with_new-IsSound w.store p w.store.admin h i lt (rw f t) free)

  swap-none :
      (env : Env) (id : ℕ) (token : Symbol) (x m r : ℤ) (w : State L)
      → w.store.registry.pools id ≡ none
      → ¬ (PoolRegistry.swap env id token x m w).0 ≡ ok r
  unfolding PoolRegistry.swap
  swap-none env id token x m r w k h = ground (arith, k, h)

  swap-IsSound :
      (env : Env) (id : ℕ) (token : Symbol) (x m r : ℤ) (w : State L)
      → IsSound w.store
      → (PoolRegistry.swap env id token x m w).0 ≡ ok r
      → IsSound (PoolRegistry.swap env id token x m w).1.store
  swap-IsSound env id token x m r w h e = elim (Option-cases (w.store.registry.pools id)) [
    | inl k ↦ absurd (swap-none env id token x m r w k e)
    | inr (p, k) ↦
        let (p', a, t, q) = swap_store env id token x m p r w k e in
        rw q (kept-IsSound w.store id p p' h k a t)
  ]

  perform-IsSound :
      (env : Env) (c : Call) (w : State L)
      → IsSound w.store
      → (perform env c w).0 ≡ ok tt
      → IsSound (perform env c w).1.store
  unfolding perform
  perform-IsSound env (register_pool who a b x y tier) w h e =
      let (r, k, _, q) =
        >>=-eq-ok (PoolRegistry.register_pool env who a b x y tier) (λ _. pure tt) w tt e in
      rw q (register_pool-IsSound env who a b x y tier r w h k)
  perform-IsSound env (add_liquidity id a b who) w h e =
      let (r, k, _, q) = >>=-eq-ok (PoolRegistry.add_liquidity id a b who) (λ _. pure tt) w tt e in
      rw q (add_liquidity-IsSound env id a b who r w h k)
  perform-IsSound env (claim_fees id who) w h e =
      let (r, k, _, q) = >>=-eq-ok (PoolRegistry.claim_fees env id who) (λ _. pure tt) w tt e in
      rw q (claim_fees-IsSound env id who r w h k)
  perform-IsSound env (withdraw_treasury_fees id who) w h e =
      let (r, k, _, q) =
        >>=-eq-ok (PoolRegistry.withdraw_treasury_fees env id who) (λ _. pure tt) w tt e in
      rw q (withdraw_treasury_fees-IsSound env id who r w h k)
  perform-IsSound env (update_fee_tier id tier who) w h e =
      update_fee_tier-IsSound env id tier who w h e
  perform-IsSound env (remove_liquidity id lp who) w h e =
      let (r, k, _, q) =
        >>=-eq-ok (PoolRegistry.remove_liquidity env id lp who) (λ _. pure tt) w tt e in
      rw q (remove_liquidity-IsSound env id lp who r w h k)
  perform-IsSound env (swap id token x m) w h e =
      let (r, k, _, q) = >>=-eq-ok (PoolRegistry.swap env id token x m) (λ _. pure tt) w tt e in
      rw q (swap-IsSound env id token x m r w h k)
  perform-IsSound env (set_max_hops n) w h e = record { pools = h.pools; pairs = h.pairs }

  invoke-IsSound :
      (env : Env) (c : Call) (w : State L)
      → IsSound w.store
      → IsSound (invoke (perform env c) w).1.store
  invoke-IsSound env c w h = elim (invoke_cases (perform env c) w) [
    | inl q ↦ rw q h
    | inr (tt, e, q) ↦ rw q (perform-IsSound env c w h e)
  ]

  Reach-IsSound : {w w' : State L} → Reach w w' → IsSound w.store → IsSound w'.store
  Reach-IsSound here h = h
  Reach-IsSound (next {t} env c r) h = invoke-IsSound env c t (Reach-IsSound r h)

  -- Every sequence of calls on a new registry keeps it sound: each pool is filed under its own id,
  -- which has been given out, has its two tokens in order and one of the three fee tiers, and is
  -- the one pool of its pair; a pair that leads to an id leads to a pool of its tokens.
  pub pools-IsSound :
      {w w' : State L} → w.store.registry ≡ new_registry → Reach w w' → IsSound w'.store
  pools-IsSound {w} n r = Reach-IsSound r (
      registry-IsSound (record { registry = new_registry; admin = w.store.admin }) w.store n
        (record { pools = λ id. tt; pairs = λ a b. tt }))
