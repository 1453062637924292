-- ===== src/AtomicSwap.antt =====
-- The entry points of `AtomicSwapContract`: swaptrade-contracts/atomic-swap/src/lib.rs.
pub mod Types
pub mod Storage
pub mod Calls
pub mod Moves
pub mod Refinement
pub mod WellFormed
pub mod Liabilities
pub mod Custody
pub mod Settled
pub mod Outcomes
pub mod Errors
pub mod Queries
mod Tests
use swaptrade_contract.Prelude.{
  ℕ, ◌+◌, ◌≡◌, Bool, true, false, not, ◌&&◌, ◌||◌, Option, none, some, ltb, leb, ◌==◌,
  if◌then◌else◌,
}
use swaptrade_contract.Prelude.Int.{ℤ, pos, leb_ℤ}
use swaptrade_contract.Host.{
  Address, Env, saturating_add, require_auth, raise_if, raise, gets, modify, publish, pure, ok,
  ◌>>=◌, ◌>>◌,
}
use swaptrade_contract.Host.Tokens.{Tokens}
use Types.{
  Swap, SwapState, is_party, is_created, is_over, unauthorized, missing_trustline, invalid_state,
  invalid_amount, invalid_expiry, expired, same_asset, swap_created, swap_funded, swap_accepted,
  swap_cancelled, swap_refunded,
}
use Storage.{
  Op, load_swap, next_id, save_swap, update_swap, find_by_nonce, min_expiry, has_trustline,
  transfer_token_no_auth,
}
use Storage

-- The tail of `create_swap`, once no swap has the nonce.
open_swap : {L : Type 0} → Env → Address → Address → Address → ℤ → Address → ℤ → ℕ → ℕ → Op L ℕ
open_swap env creator counterparty asset_a amount_a asset_b amount_b expiry nonce = do
  id ← next_id
  let swap : Swap = record {
    id = id;
    nonce = nonce;
    creator = creator;
    counterparty = counterparty;
    asset_a = asset_a;
    amount_a = amount_a;
    asset_b = asset_b;
    amount_b = amount_b;
    expiry = expiry;
    state = SwapState.created;
    creator_funded = false;
    counterparty_funded = false;
    created_at = env.now;
  }
  modify (save_swap swap)
  publish (swap_created env swap)
  pure id

-- Which side a funder covers: the asset, the amount, and whether it is funded already.
abbrev pub covered : Swap → Address → Address × ℤ × Bool
covered swap funder =
    if funder == swap.creator
    then (swap.asset_a, swap.amount_a, swap.creator_funded)
    else (swap.asset_b, swap.amount_b, swap.counterparty_funded)

-- `*flag = true`, and `Funded` once both flags are set.
abbrev pub with_flag : Swap → Address → Swap
with_flag swap funder =
    let swap' : Swap =
      if funder == swap.creator
      then record swap { creator_funded = true }
      else record swap { counterparty_funded = true } in
    if swap'.creator_funded && swap'.counterparty_funded
    then record swap' { state = SwapState.funded }
    else swap'

module _ {L : Type 0} (tok : Tokens L) where
  unfoldable pub create_swap : Env → Address → Address → Address → ℤ → Address → ℤ → ℕ → ℕ → Op L ℕ
  unfolding open_swap saturating_add
  create_swap env creator counterparty asset_a amount_a asset_b amount_b expiry nonce = do
    require_auth env creator
    raise_if (leb_ℤ amount_a (pos 0) || leb_ℤ amount_b (pos 0)) invalid_amount
    raise_if (asset_a == asset_b) same_asset
    raise_if (creator == counterparty) unauthorized
    min_exp ← gets min_expiry
    raise_if (leb expiry (saturating_add env.now min_exp)) invalid_expiry
    trusted ← has_trustline tok creator asset_a
    raise_if (not trusted) missing_trustline
    existing ← gets (find_by_nonce creator nonce)
    elim existing [
      | some existing_id ↦ pure existing_id
      | none ↦ open_swap env creator counterparty asset_a amount_a asset_b amount_b expiry nonce
    ]

  unfoldable pub fund_swap : Env → ℕ → Address → Op L (Unit {0})
  fund_swap env swap_id funder = do
    require_auth env funder
    swap ← load_swap swap_id
    raise_if (not (is_party swap funder)) unauthorized
    raise_if (not (is_created swap.state)) invalid_state
    let (asset, amount, already_funded) = covered swap funder
    raise_if already_funded invalid_state
    trusted ← has_trustline tok funder asset
    raise_if (not trusted) missing_trustline
    transfer_token_no_auth tok asset funder env.contract amount
    let swap' : Swap = with_flag swap funder
    modify (update_swap swap')
    publish (swap_funded env swap' funder)

  unfoldable pub accept_swap : Env → ℕ → Address → Op L (Unit {0})
  accept_swap env swap_id acceptor = do
    require_auth env acceptor
    swap ← load_swap swap_id
    raise_if (not (acceptor == swap.counterparty)) unauthorized
    raise_if (is_over swap.state) invalid_state
    raise_if (not swap.creator_funded || not swap.counterparty_funded) invalid_state
    raise_if (leb swap.expiry env.now) expired
    trusted_a ← has_trustline tok swap.counterparty swap.asset_a
    raise_if (not trusted_a) missing_trustline
    trusted_b ← has_trustline tok swap.creator swap.asset_b
    raise_if (not trusted_b) missing_trustline
    transfer_token_no_auth tok swap.asset_a env.contract swap.counterparty swap.amount_a
    transfer_token_no_auth tok swap.asset_b env.contract swap.creator swap.amount_b
    let swap' : Swap = record swap { state = SwapState.accepted }
    modify (update_swap swap')
    publish (swap_accepted env swap')

  -- One of the two deposits goes back, if it was made.
  abbrev pub refund_side : Env → Bool → Address → Address → ℤ → Op L (Unit {0})
  refund_side env flag asset to amount w =
      if flag
      then (transfer_token_no_auth tok asset env.contract to amount >> pure tt) w
      else (ok tt, w)

  unfoldable pub refund_swap : Env → ℕ → Op L (Unit {0})
  refund_swap env swap_id = do
    swap ← load_swap swap_id
    require_auth env swap.creator
    raise_if (is_over swap.state) invalid_state
    raise_if (not swap.creator_funded && not swap.counterparty_funded) invalid_state
    raise_if (ltb env.now swap.expiry) invalid_state
    refund_side env swap.creator_funded swap.asset_a swap.creator swap.amount_a
    refund_side env swap.counterparty_funded swap.asset_b swap.counterparty swap.amount_b
    let swap' : Swap = record swap {
      state = SwapState.refunded;
      creator_funded = false;
      counterparty_funded = false;
    }
    modify (update_swap swap')
    publish (swap_refunded env swap')

module _ {L : Type 0} where
  unfoldable pub cancel_swap : Env → ℕ → Op L (Unit {0})
  cancel_swap env swap_id = do
    swap ← load_swap swap_id
    require_auth env swap.creator
    raise_if (not (is_created swap.state)) invalid_state
    raise_if swap.counterparty_funded invalid_state
    raise_if swap.creator_funded invalid_state
    let swap' : Swap = record swap { state = SwapState.cancelled }
    modify (update_swap swap')
    publish (swap_cancelled env swap')

  unfoldable pub set_min_expiry : Env → Address → ℕ → Op L (Unit {0})
  set_min_expiry env caller seconds = do
    require_auth env caller
    modify (Storage.set_min_expiry seconds)
