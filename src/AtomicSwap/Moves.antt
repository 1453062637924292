-- ===== src/AtomicSwap/Moves.antt =====
-- What a call that returns `Ok` does to the contract's state, as one step of an abstract machine.
-- `Refinement` relates it to the entry points.
use swaptrade_contract.Prelude.{
  ℕ, ◌+◌, ◌≡◌, ◌≢◌, ◌≤◌, ◌<◌, Bool, true, false, none, some, if◌then◌else◌,
}
use swaptrade_contract.Prelude.Int.{ℤ, pos, ◌≤ℤ◌}
use swaptrade_contract.Host.{Address, Env}
use swaptrade_contract.Host.Tokens.{Tokens}
use swaptrade_contract.AtomicSwap.Types.{
  Swap, created, funded, accepted, cancelled, refunded, is_over,
}
use swaptrade_contract.AtomicSwap.Storage.{next, save_swap, update_swap, find_by_nonce}
use swaptrade_contract.AtomicSwap.Calls.{State}

-- The two sides of a swap: who deposits, of what, how much, and whether it was done.
pub data Side : Type 0 where
  side_a side_b : Side

abbrev pub depositor : Side → Swap → Address
depositor side_a s = s.creator
depositor side_b s = s.counterparty

abbrev pub asset : Side → Swap → Address
asset side_a s = s.asset_a
asset side_b s = s.asset_b

abbrev pub amount : Side → Swap → ℤ
amount side_a s = s.amount_a
amount side_b s = s.amount_b

abbrev pub is_funded : Side → Swap → Bool
is_funded side_a s = s.creator_funded
is_funded side_b s = s.counterparty_funded

abbrev pub other : Side → Side
other side_a = side_b
other side_b = side_a

-- The swap with one side's deposit made.
abbrev pub deposited : Side → Swap → Swap
deposited side_a s = record s {
  creator_funded = true;
  state = if s.counterparty_funded then funded else created;
}
deposited side_b s = record s {
  counterparty_funded = true;
  state = if s.creator_funded then funded else created;
}

abbrev pub closed : Swap → Swap
closed s = record s { state = refunded; creator_funded = false; counterparty_funded = false }

module _ {L : Type 0} (tok : Tokens L) where
  -- The tokens after one side's deposit has gone from the contract to a receiver, and whether it does.
  abbrev pub paid_out : Side → Swap → Address → Address → L → L
  paid_out x s self to l = (tok.transfer (asset x s) self to (amount x s) l).1

  abbrev pub Pays : Side → Swap → Address → Address → L → Type 0
  Pays x s self to l = (r : ℤ) × ((tok.transfer (asset x s) self to (amount x s) l).0 ≡ some r)

  -- The same where it happens only if the side was funded.
  abbrev pub returned : Side → Swap → Address → L → L
  returned x s self l = if is_funded x s then paid_out x s self (depositor x s) l else l

  abbrev pub Returns : Side → Swap → Address → L → Type 0
  Returns x s self l = is_funded x s ≡ true → Pays x s self (depositor x s) l

  pub data Moves (env : Env) (w w' : State L) : Type 0 where
    -- The minimum expiry changes, or nothing does.
    configuring :
        w'.store.swaps ≡ w.store.swaps
        → w'.store.nonces ≡ w.store.nonces
        → w'.store.next_id ≡ w.store.next_id
        → w'.tokens ≡ w.tokens
        → Moves env w w'
    opening :
        (s : Swap)
        → s.id ≡ next w.store
        → s.state ≡ created
        → s.creator_funded ≡ false
        → s.counterparty_funded ≡ false
        → pos 1 ≤ℤ s.amount_a
        → pos 1 ≤ℤ s.amount_b
        → s.asset_a ≢ s.asset_b
        → s.creator ≢ s.counterparty
        → env.now < s.expiry
        → env.signed s.creator ≡ true
        → find_by_nonce s.creator s.nonce w.store ≡ none
        → w'.store ≡ save_swap s (record w.store { next_id = some (s.id + 1) })
        → w'.tokens ≡ w.tokens
        → Moves env w w'
    depositing :
        (id : ℕ) (s : Swap) (x : Side) (r : ℤ)
        → w.store.swaps id ≡ some s
        → s.state ≡ created
        → is_funded x s ≡ false
        → env.signed (depositor x s) ≡ true
        → (tok.transfer (asset x s) (depositor x s) env.contract (amount x s) w.tokens).0 ≡ some r
        → w'.store ≡ update_swap (deposited x s) w.store
        → w'.tokens
          ≡ (tok.transfer (asset x s) (depositor x s) env.contract (amount x s) w.tokens).1
        → Moves env w w'
    accepting :
        (id : ℕ) (s : Swap)
        → w.store.swaps id ≡ some s
        → is_over s.state ≡ false
        → s.creator_funded ≡ true
        → s.counterparty_funded ≡ true
        → env.now < s.expiry
        → env.signed s.counterparty ≡ true
        → Pays side_a s env.contract s.counterparty w.tokens
        → Pays side_b s env.contract s.creator
            (paid_out side_a s env.contract s.counterparty w.tokens)
        → w'.store ≡ update_swap (record s { state = accepted }) w.store
        → w'.tokens
          ≡ paid_out side_b s env.contract s.creator
              (paid_out side_a s env.contract s.counterparty w.tokens)
        → Moves env w w'
    cancelling :
        (id : ℕ) (s : Swap)
        → w.store.swaps id ≡ some s
        → s.state ≡ created
        → s.creator_funded ≡ false
        → s.counterparty_funded ≡ false
        → env.signed s.creator ≡ true
        → w'.store ≡ update_swap (record s { state = cancelled }) w.store
        → w'.tokens ≡ w.tokens
        → Moves env w w'
    refunding :
        (id : ℕ) (s : Swap)
        → w.store.swaps id ≡ some s
        → is_over s.state ≡ false
        → s.expiry ≤ env.now
        → env.signed s.creator ≡ true
        → Returns side_a s env.contract w.tokens
        → Returns side_b s env.contract (returned side_a s env.contract w.tokens)
        → w'.store ≡ update_swap (closed s) w.store
        → w'.tokens ≡ returned side_b s env.contract (returned side_a s env.contract w.tokens)
        → Moves env w w'
