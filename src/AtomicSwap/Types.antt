-- ===== src/AtomicSwap/Types.antt =====
-- The data of the atomic swap contract: swaptrade-contracts/atomic-swap/src/types.rs, errors.rs and events.rs.
use swaptrade_contract.Prelude.{ℕ, Bool, true, false, ◌||◌, ◌==◌}
use swaptrade_contract.Prelude.Int.{ℤ}
use swaptrade_contract.Host.{Address, Env}

pub data SwapState : Type 0 where
  created funded accepted cancelled refunded : SwapState

pub data SwapError : Type 0 where
  swap_not_found unauthorized missing_trustline invalid_state invalid_amount invalid_expiry :
      SwapError
  expired same_asset transfer_mismatch trustline_check_failed : SwapError

pub record Swap : Type 0 where
  pub id : ℕ
  pub nonce : ℕ
  pub creator : Address
  pub counterparty : Address
  pub asset_a : Address
  pub amount_a : ℤ
  pub asset_b : Address
  pub amount_b : ℤ
  pub expiry : ℕ
  pub state : SwapState
  pub creator_funded : Bool
  pub counterparty_funded : Bool
  pub created_at : ℕ

abbrev pub is_party : Swap → Address → Bool
is_party s addr = addr == s.creator || addr == s.counterparty

-- `state == SwapState::Created`.
abbrev pub is_created : SwapState → Bool
is_created created = true
is_created _ = false

-- `state == Accepted || state == Cancelled || state == Refunded`.
abbrev pub is_over : SwapState → Bool
is_over accepted = true
is_over cancelled = true
is_over refunded = true
is_over _ = false

pub data Topic : Type 0 where
  created funded accepted cancelled refunded : Topic

pub record SwapEvent : Type 0 where
  pub swap_id : ℕ
  pub actor : Address
  pub timestamp : ℕ

-- What `publish` hands to the host: the topic and the event's fields.
abbrev pub Event : Type 0
Event = Topic × SwapEvent

abbrev pub event : Env → Topic → Swap → Address → Event
event env topic s actor = (topic, record { swap_id = s.id; actor = actor; timestamp = env.now })

abbrev pub swap_created : Env → Swap → Event
swap_created env s = event env Topic.created s s.creator

abbrev pub swap_funded : Env → Swap → Address → Event
swap_funded env s funder = event env Topic.funded s funder

abbrev pub swap_accepted : Env → Swap → Event
swap_accepted env s = event env Topic.accepted s s.counterparty

abbrev pub swap_cancelled : Env → Swap → Event
swap_cancelled env s = event env Topic.cancelled s s.creator

abbrev pub swap_refunded : Env → Swap → Event
swap_refunded env s = event env Topic.refunded s s.creator
