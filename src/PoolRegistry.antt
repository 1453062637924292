-- ===== src/PoolRegistry.antt =====
-- `PoolRegistry`: swaptrade-contracts/counter/src/liquidity_pool.rs. The entry points of counter/src/lib.rs
-- load the registry, call one of these methods, and save it; here the registry is a field of the
-- storage, and the host takes back what a call has written that ends in an error.
pub mod Types
pub mod Root
pub mod Quotes
pub mod Trade
pub mod Routes
pub mod Writes
pub mod Sound
pub mod Calls
pub mod Tests
use swaptrade_contract.Prelude.{
  ℕ, ◌+◌, ◌*◌, ◌/◌, Bool, true, false, not, ◌&&◌, ◌||◌, Option, none, some, get_or, ltb, ◌==◌,
  if◌then◌else◌, min,
}
use swaptrade_contract.Prelude.Int.{ℤ, pos, ◌+ℤ◌, ◌-ℤ◌, leb_ℤ, ltb_ℤ}
use swaptrade_contract.Prelude.Maps.{set, set_pair}
use swaptrade_contract.Host.{
  Address, Env, Result, ok, err, trap, u64_max, require_auth, raise_if, trap_if, or_raise, gets,
  modify, publish, pure, ◌>>=◌, ◌>>◌,
}
use swaptrade_contract.Host.Words.{as_u128, as_i128, checked_u128, checked_i128}
use Types.{
  Symbol, LiquidityPool, Registry, Route, Store, Event, ContractError, Op, min_lp_tokens,
  is_fee_tier, normalize_pair, div_u128, checked, mul_u128, add_u128, add_i128, sub_i128,
  sub_or_trap, ◌==ℤ◌, invalid_amount, amount_overflow, invalid_token_symbol, invalid_swap_pair,
  insufficient_balance, slippage_exceeded, lp_position_not_found, insufficient_lp_tokens, not_admin,
  fees_distributed, fees_collected, fee_parameters_updated,
}
use Root.{sqrt}

abbrev pub lp_balance_of : ℕ → Address → Store → ℤ
lp_balance_of pool_id provider s = get_or (s.registry.lp_balances pool_id provider) (pos 0)

-- `is_admin` and `require_admin` of counter/src/admin.rs.
abbrev pub is_admin : Address → Store → Bool
is_admin user s = elim s.admin [ none ↦ false | some admin ↦ admin == user ]

-- The reserves in and out, and whether token A comes in.
abbrev pub sides : LiquidityPool → Symbol → Option (ℤ × ℤ × Bool)
sides pool token_in =
    if token_in == pool.token_a
    then some (pool.reserve_a, pool.reserve_b, true)
    else if token_in == pool.token_b
    then some (pool.reserve_b, pool.reserve_a, false)
    else none

module _ {L : Type 0} where
  -- `self.pools.get(pool_id).ok_or(…)?` and `self.pools.set(pool_id, pool)`
  abbrev pub load_pool : ℕ → Op L LiquidityPool
  load_pool pool_id = do
    found ← gets (λ s. s.registry.pools pool_id)
    or_raise found lp_position_not_found

  abbrev pub store_pool : ℕ → LiquidityPool → Op L (Unit {0})
  store_pool pool_id pool =
      modify (λ s. record s {
        registry = record s.registry { pools = set s.registry.pools pool_id pool };
      })

  abbrev pub store_balance : ℕ → Address → ℤ → Op L (Unit {0})
  store_balance pool_id provider balance = modify (λ s. record s {
    registry = record s.registry {
      lp_balances = set_pair s.registry.lp_balances pool_id provider balance;
    };
  })

  -- The square root of a product of two amounts.
  abbrev pub root_of : ℤ → ℤ → Op L ℤ
  root_of a b = do
    y ← mul_u128 (as_u128 a) (as_u128 b)
    let r = sqrt y
    elim r [ none ↦ (λ w. (trap, w)) | some n ↦ pure (as_i128 n) ]

  abbrev pub set_max_hops : ℕ → Op L (Unit {0})
  set_max_hops max_hops =
      modify (λ s. record s { registry = record s.registry { max_hops = max_hops } })

  -- `register_pool` from the LP tokens on.
  abbrev pub registered : ℕ → Symbol → Symbol → ℤ → ℤ → ℕ → ℤ → Op L ℕ
  registered pool_id norm_a norm_b reserve_a reserve_b fee_tier initial_lp = do
    let pool : LiquidityPool = record {
      pool_id = pool_id;
      token_a = norm_a;
      token_b = norm_b;
      reserve_a = reserve_a;
      reserve_b = reserve_b;
      total_lp_tokens = initial_lp;
      fee_tier = fee_tier;
      accumulated_fees_a = pos 0;
      accumulated_fees_b = pos 0;
    }
    store_pool pool_id pool
    modify (λ s. record s {
      registry = record s.registry {
        pair_to_pool = set_pair s.registry.pair_to_pool norm_a norm_b pool_id;
      };
    })
    trap_if (ltb u64_max (pool_id + 1))
    modify (λ s. record s { registry = record s.registry { next_pool_id = pool_id + 1 } })
    pure pool_id

  unfoldable pub register_pool : Env → Address → Symbol → Symbol → ℤ → ℤ → ℕ → Op L ℕ
  register_pool env admin token_a token_b initial_a initial_b fee_tier = do
    require_auth env admin
    raise_if (not (is_fee_tier fee_tier)) invalid_amount
    raise_if (token_a == token_b || leb_ℤ initial_a (pos 0) || leb_ℤ initial_b (pos 0))
        invalid_swap_pair
    let norm_a = (normalize_pair token_a token_b).0
    let norm_b = (normalize_pair token_a token_b).1
    known ← gets (λ s. s.registry.pair_to_pool norm_a norm_b)
    raise_if (elim known [ none ↦ false | some _ ↦ true ]) invalid_swap_pair
    pool_id ← gets (λ s. s.registry.next_pool_id)
    let reserve_a = if token_a == norm_a then initial_a else initial_b
    let reserve_b = if token_a == norm_a then initial_b else initial_a
    initial_lp ← root_of reserve_a reserve_b
    registered pool_id norm_a norm_b reserve_a reserve_b fee_tier initial_lp

  -- The LP tokens for a deposit.
  abbrev pub lp_tokens_for : LiquidityPool → ℤ → ℤ → Op L ℤ
  lp_tokens_for pool amount_a amount_b =
      if pool.total_lp_tokens ==ℤ pos 0 then root_of amount_a amount_b else (do
        product_a ← mul_u128 (as_u128 amount_a) (as_u128 pool.total_lp_tokens)
        lp_a ← div_u128 product_a (as_u128 pool.reserve_a)
        product_b ← mul_u128 (as_u128 amount_b) (as_u128 pool.total_lp_tokens)
        lp_b ← div_u128 product_b (as_u128 pool.reserve_b)
        pure (as_i128 (min lp_a lp_b)))

  -- `add_liquidity` from the LP tokens on.
  abbrev pub deposited : ℕ → ℤ → ℤ → Address → LiquidityPool → ℤ → Op L ℤ
  deposited pool_id amount_a amount_b provider pool lp_tokens = do
    raise_if (leb_ℤ lp_tokens (pos 0) || ltb_ℤ lp_tokens min_lp_tokens) invalid_amount
    reserve_a ← add_i128 pool.reserve_a amount_a amount_overflow
    reserve_b ← add_i128 pool.reserve_b amount_b amount_overflow
    total ← add_i128 pool.total_lp_tokens lp_tokens amount_overflow
    store_pool pool_id
        (record pool { reserve_a = reserve_a; reserve_b = reserve_b; total_lp_tokens = total })
    current ← gets (lp_balance_of pool_id provider)
    balance ← add_i128 current lp_tokens amount_overflow
    store_balance pool_id provider balance
    pure lp_tokens

  unfoldable pub add_liquidity : ℕ → ℤ → ℤ → Address → Op L ℤ
  add_liquidity pool_id amount_a amount_b provider = do
    pool ← load_pool pool_id
    raise_if
        (leb_ℤ amount_a (pos 0)
          || leb_ℤ amount_b (pos 0)
          || pool.reserve_a ==ℤ pos 0
          || pool.reserve_b ==ℤ pos 0)
        invalid_amount
    lp_tokens ← lp_tokens_for pool amount_a amount_b
    deposited pool_id amount_a amount_b provider pool lp_tokens

  abbrev pub publish_if : Bool → Event → Op L (Unit {0})
  publish_if c e = if c then publish e else pure tt

  unfoldable pub claim_fees : Env → ℕ → Address → Op L (ℤ × ℤ)
  claim_fees env pool_id provider = do
    pool ← load_pool pool_id
    lp_balance ← gets (lp_balance_of pool_id provider)
    raise_if (leb_ℤ lp_balance (pos 0)) insufficient_lp_tokens
    share ← div_u128 (as_u128 lp_balance) (as_u128 pool.total_lp_tokens)
    product_a ← checked (as_u128 pool.accumulated_fees_a * share)
    product_b ← checked (as_u128 pool.accumulated_fees_b * share)
    let fees_a = as_i128 product_a
    let fees_b = as_i128 product_b
    rest_a ← sub_or_trap pool.accumulated_fees_a fees_a
    rest_b ← sub_or_trap pool.accumulated_fees_b fees_b
    store_pool pool_id (record pool { accumulated_fees_a = rest_a; accumulated_fees_b = rest_b })
    publish_if (ltb_ℤ (pos 0) fees_a)
        (fees_distributed pool.token_a pool_id provider fees_a env.now)
    publish_if (ltb_ℤ (pos 0) fees_b)
        (fees_distributed pool.token_b pool_id provider fees_b env.now)
    pure (fees_a, fees_b)

  unfoldable pub withdraw_treasury_fees : Env → ℕ → Address → Op L (ℤ × ℤ)
  withdraw_treasury_fees env pool_id treasury = do
    require_auth env treasury
    pool ← load_pool pool_id
    store_pool pool_id (record pool { accumulated_fees_a = pos 0; accumulated_fees_b = pos 0 })
    publish_if (ltb_ℤ (pos 0) pool.accumulated_fees_a)
        (fees_distributed pool.token_a pool_id treasury pool.accumulated_fees_a env.now)
    publish_if (ltb_ℤ (pos 0) pool.accumulated_fees_b)
        (fees_distributed pool.token_b pool_id treasury pool.accumulated_fees_b env.now)
    pure (pool.accumulated_fees_a, pool.accumulated_fees_b)

  abbrev pub require_admin : Address → Op L (Unit {0})
  require_admin caller = do allowed ← gets (is_admin caller); raise_if (not allowed) not_admin

  unfoldable pub update_fee_tier : Env → ℕ → ℕ → Address → Op L (Unit {0})
  update_fee_tier env pool_id new_fee_tier admin = do
    require_auth env admin
    require_admin admin
    raise_if (not (is_fee_tier new_fee_tier)) invalid_amount
    pool ← load_pool pool_id
    store_pool pool_id (record pool { fee_tier = new_fee_tier })
    publish (fee_parameters_updated pool_id new_fee_tier none env.now)

  -- The part of a reserve for some of the LP tokens.
  abbrev pub redeemed : ℤ → ℤ → ℤ → Op L ℤ
  redeemed lp_tokens reserve total = do
    product ← mul_u128 (as_u128 lp_tokens) (as_u128 reserve)
    amount ← div_u128 product (as_u128 total)
    pure (as_i128 amount)

  -- `remove_liquidity` after the fees were claimed.
  abbrev pub withdrawn : ℕ → ℤ → Address → Op L (ℤ × ℤ)
  withdrawn pool_id lp_tokens provider = do
    pool ← load_pool pool_id
    balance ← gets (lp_balance_of pool_id provider)
    raise_if (ltb_ℤ balance lp_tokens) insufficient_lp_tokens
    amount_a ← redeemed lp_tokens pool.reserve_a pool.total_lp_tokens
    amount_b ← redeemed lp_tokens pool.reserve_b pool.total_lp_tokens
    reserve_a ← sub_i128 pool.reserve_a amount_a insufficient_balance
    reserve_b ← sub_i128 pool.reserve_b amount_b insufficient_balance
    total ← sub_i128 pool.total_lp_tokens lp_tokens insufficient_lp_tokens
    store_pool pool_id
        (record pool { reserve_a = reserve_a; reserve_b = reserve_b; total_lp_tokens = total })
    rest ← sub_i128 balance lp_tokens insufficient_lp_tokens
    store_balance pool_id provider rest
    pure (amount_a, amount_b)

  unfoldable pub remove_liquidity : Env → ℕ → ℤ → Address → Op L (ℤ × ℤ)
  unfolding claim_fees
  remove_liquidity env pool_id lp_tokens provider = do
    claim_fees env pool_id provider
    withdrawn pool_id lp_tokens provider

  -- The pool after a swap.
  abbrev pub swapped : LiquidityPool → Bool → ℤ → ℤ → ℤ → Op L LiquidityPool
  swapped pool true fee_amount amount_in amount_out = do
    fees ← add_i128 pool.accumulated_fees_a fee_amount amount_overflow
    a ← add_i128 pool.reserve_a amount_in amount_overflow
    b ← sub_i128 pool.reserve_b amount_out insufficient_balance
    pure (record pool { accumulated_fees_a = fees; reserve_a = a; reserve_b = b })
  swapped pool false fee_amount amount_in amount_out = do
    fees ← add_i128 pool.accumulated_fees_b fee_amount amount_overflow
    b ← add_i128 pool.reserve_b amount_in amount_overflow
    a ← sub_i128 pool.reserve_a amount_out insufficient_balance
    pure (record pool { accumulated_fees_b = fees; reserve_a = a; reserve_b = b })

  -- `swap` from the reserves in and out on.
  abbrev pub swap_reserves : Env → ℕ → Symbol → ℤ → ℤ → LiquidityPool → ℤ × ℤ × Bool → Op L ℤ
  swap_reserves env pool_id token_in amount_in min_amount_out pool
        (reserve_in, reserve_out, is_token_a) =
      do
        product ← checked (as_u128 amount_in * pool.fee_tier)
        let fee_amount = as_i128 (product / 10000)
        amount_in_after_fee ← sub_or_trap amount_in fee_amount
        numerator ← mul_u128 (as_u128 reserve_out) (as_u128 amount_in_after_fee)
        denominator ← add_u128 (as_u128 reserve_in) (as_u128 amount_in_after_fee)
        quotient ← div_u128 numerator denominator
        let amount_out = as_i128 quotient
        raise_if (ltb_ℤ amount_out min_amount_out) slippage_exceeded
        pool' ← swapped pool is_token_a fee_amount amount_in_after_fee amount_out
        publish (fees_collected token_in pool_id fee_amount env.now)
        store_pool pool_id pool'
        pure amount_out

  unfoldable pub swap : Env → ℕ → Symbol → ℤ → ℤ → Op L ℤ
  swap env pool_id token_in amount_in min_amount_out = do
    pool ← load_pool pool_id
    raise_if (leb_ℤ amount_in (pos 0)) invalid_amount
    reserves ← or_raise (sides pool token_in) invalid_token_symbol
    swap_reserves env pool_id token_in amount_in min_amount_out pool reserves
