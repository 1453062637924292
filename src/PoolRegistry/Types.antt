-- ===== src/PoolRegistry/Types.antt =====
-- The data of counter/src/liquidity_pool.rs, its errors (counter/src/errors.rs) and events
-- (counter/src/events.rs), and its arithmetic.
use swaptrade_contract.Prelude.{
  ℕ, ◌+◌, ◌*◌, ◌/◌, Bool, false, ◌||◌, Option, none, List, ltb, ◌==◌, if◌then◌else◌,
}
use swaptrade_contract.Prelude.Int.{ℤ, pos, negsuc, ◌+ℤ◌, ◌-ℤ◌}
use swaptrade_contract.Prelude.Maps.{Map, PairMap, empty}
use swaptrade_contract.Host.{Address, ok, trap, World, Action, or_raise}
use swaptrade_contract.Host.Words.{checked_u128, checked_i128, u128_max, is_i128}

-- Symbols are compared, and ordered by `<`.
abbrev pub Symbol : Type 0
Symbol = ℕ

-- `SwapTradeError`, which liquidity_pool.rs calls `ContractError`.
pub data ContractError : Type 0 where
  not_admin not_authorized invalid_address invalid_multi_sig_config : ContractError
  multi_sig_not_configured proposal_not_found proposal_already_executed already_approved :
      ContractError
  insufficient_approvals timelock_not_elapsed already_voted insufficient_signatures : ContractError
  quorum_not_reached proposal_failed proposal_canceled voting_ended not_in_council : ContractError
  trading_paused user_frozen circuit_breaker_tripped invalid_private_transaction : ContractError
  invalid_amount amount_overflow invalid_token_symbol invalid_swap_pair : ContractError
  insufficient_balance zero_amount_swap invariant_violation stale_price invalid_price :
      ContractError
  price_not_set oracle_not_configured oracle_not_active circuit_breaker_active : ContractError
  circuit_breaker_triggered invalid_config rate_limit_exceeded slippage_exceeded expired :
      ContractError
  lp_position_not_found insufficient_lp_tokens kyc_verification_required not_kyc_operator :
      ContractError
  invalid_kyc_state_transition kyc_terminal_state_immutable self_verification_not_allowed :
      ContractError
  kyc_override_not_found kyc_timelock_not_elapsed kyc_override_already_executed : ContractError
  invalid_timelock_duration kyc_request_expired invalid_expiry_duration kyc_data_too_large :
      ContractError
  kyc_operator_limit_reached invalid_stake_duration stake_not_found stake_not_active : ContractError
  stake_locked no_claimable_bonuses distribution_too_early farming_pool_not_found : ContractError
  insufficient_staked_lp not_emergency_admin self_referral already_referred : ContractError
  circular_referral faucet_rate_limited faucet_not_configured : ContractError

pub record LiquidityPool : Type 0 where
  pub pool_id : ℕ
  pub token_a : Symbol
  pub token_b : Symbol
  pub reserve_a : ℤ
  pub reserve_b : ℤ
  pub total_lp_tokens : ℤ
  pub fee_tier : ℕ
  pub accumulated_fees_a : ℤ
  pub accumulated_fees_b : ℤ

pub record Route : Type 0 where
  pub pools : List ℕ
  pub tokens : List Symbol
  pub expected_output : ℤ
  pub total_price_impact_bps : ℕ

-- `PoolRegistry`
pub record Registry : Type 0 where
  pub pools : Map LiquidityPool
  pub pair_to_pool : PairMap ℕ
  pub next_pool_id : ℕ
  pub lp_balances : PairMap ℤ
  pub max_hops : ℕ

abbrev pub new_registry : Registry
new_registry = record {
  pools = empty;
  pair_to_pool = λ a b. none;
  next_pool_id = 1;
  lp_balances = λ a b. none;
  max_hops = 2;
}

-- One constructor for each topic, with the ids and the payload's fields.
pub data Event : Type 0 where
  fees_collected : Symbol → ℕ → ℤ → ℕ → Event
  fees_distributed : Symbol → ℕ → Address → ℤ → ℕ → Event
  fee_parameters_updated : ℕ → ℕ → Option Address → ℕ → Event

pub record Store : Type 0 where
  pub registry : Registry
  pub admin : Option Address

abbrev pub Op : Type 0 → Type 0 → Type 0
Op L A = Action ContractError (World Store Event L) A

abbrev pub min_lp_tokens : ℤ
min_lp_tokens = pos 1000

-- `[1, 5, 30].contains(&fee_tier)`
abbrev pub is_fee_tier : ℕ → Bool
is_fee_tier fee_tier = fee_tier == 1 || fee_tier == 5 || fee_tier == 30

abbrev pub normalize_pair : Symbol → Symbol → Symbol × Symbol
normalize_pair token_a token_b =
    if ltb token_a token_b then (token_a, token_b) else (token_b, token_a)

infix 50 ◌==ℤ◌
abbrev pub ◌==ℤ◌ : ℤ → ℤ → Bool
pos a ==ℤ pos b = a == b
negsuc a ==ℤ negsuc b = a == b
_ ==ℤ _ = false

module _ {L : Type 0} where
  -- `a.checked_mul(b).ok_or(AmountOverflow)?` and `a.checked_add(b)…` on u128.
  abbrev pub mul_u128 : ℕ → ℕ → Op L ℕ
  mul_u128 a b = or_raise (checked_u128 (a * b)) amount_overflow

  abbrev pub add_u128 : ℕ → ℕ → Op L ℕ
  add_u128 a b = or_raise (checked_u128 (a + b)) amount_overflow

  -- `a.checked_add(b).ok_or(e)?` and `a.checked_sub(b).ok_or(e)?` on i128.
  abbrev pub add_i128 : ℤ → ℤ → ContractError → Op L ℤ
  add_i128 a b e = or_raise (checked_i128 (a +ℤ b)) e

  abbrev pub sub_i128 : ℤ → ℤ → ContractError → Op L ℤ
  sub_i128 a b e = or_raise (checked_i128 (a -ℤ b)) e

  -- `a / b` panics where b is 0; `a * b` on u128 and `a - b` on i128 panic out of range.
  abbrev pub div_u128 : ℕ → ℕ → Op L ℕ
  div_u128 a b w = (if b == 0 then trap else ok (a / b), w)

  abbrev pub checked : ℕ → Op L ℕ
  checked n w = (if ltb u128_max n then trap else ok n, w)

  abbrev pub sub_or_trap : ℤ → ℤ → Op L ℤ
  sub_or_trap a b w = (if is_i128 (a -ℤ b) then ok (a -ℤ b) else trap, w)
