-- ===== src/AtomicSwap/Liabilities.antt =====
-- What the swaps are owed of an asset, and how a call changes it.
use swaptrade_contract.Prelude.{
  ℕ, ◌+◌, ◌≡◌, ◌≢◌, ◌<◌, subst, inl, inr, Bool-cases, true, false, Option, none, some, ◌==◌,
  if◌then◌else◌, arith,
}
use swaptrade_contract.Prelude.Int.{ℤ, pos, pos_part, ◌≤ℤ◌, ◌-ℤ◌, int_laws}
use swaptrade_contract.Prelude.Maps.{set}
use swaptrade_contract.Prelude.Sums.{total, total-set, total-set_next}
use swaptrade_contract.Host.{Address, Env}
use swaptrade_contract.Host.Tokens.{Tokens, IsToken, holding_paid}
use swaptrade_contract.AtomicSwap.Types.{Swap, created, is_over}
use swaptrade_contract.AtomicSwap.Storage.{Store, next, save_swap}
use swaptrade_contract.AtomicSwap.Moves.{
  Side, side_a, side_b, asset, amount, depositor, is_funded, deposited, Pays, paid_out, Returns,
  returned,
}

-- What one side of a swap has paid in and not got back, of an asset.
abbrev pub kept : Side → Address → Swap → ℕ
kept x a s =
    if is_over s.state
    then 0
    else if is_funded x s
    then (if asset x s == a then pos_part (amount x s) else 0)
    else 0

abbrev pub owed : Address → Option Swap → ℕ
owed a none = 0
owed a (some s) = kept side_a a s + kept side_b a s

-- The sum of what all swaps are owed of an asset.
abbrev pub liabilities : Store → Address → ℕ
liabilities s a = total (owed a) (next s) s.swaps

-- The contract itself has made no deposit: it signs nothing.
abbrev pub Outsiders : Address → Option Swap → Type 0
Outsiders self none = Unit
Outsiders self (some s) =
    (s.creator ≢ self) × (s.counterparty_funded ≡ true → s.counterparty ≢ self)

-- How the liabilities change when the swap under an id in use is written anew.
pub liabilities-put :
    (st : Store) (s s' : Swap) (id : ℕ) (a : Address)
    → st.swaps id ≡ some s
    → id < next st
    → total (owed a) (next st) (set st.swaps id s') + owed a (some s)
      ≡ liabilities st a + owed a (some s')
liabilities-put st s s' id a p b =
    subst
      (λ o.
        total (owed a) (next st) (set st.swaps id s') + owed a o
        ≡ liabilities st a + owed a (some s'))
      p (total-set (owed a) (next st) id s' st.swaps b)

-- A new swap, not yet funded, is owed nothing.
pub liabilities-open :
    (st : Store) (s : Swap) (a : Address)
    → s.id ≡ next st
    → s.creator_funded ≡ false
    → s.counterparty_funded ≡ false
    → liabilities (save_swap s (record st { next_id = some (s.id + 1) })) a ≡ liabilities st a
liabilities-open st s a k fa fb = ground (arith, total-set_next (owed a) s.id s st.swaps)

-- A deposit adds its amount to what the swap is owed of its asset.
pub owed-deposited :
    (x : Side) (s : Swap) (a : Address)
    → s.state ≡ created
    → is_funded x s ≡ false
    → owed a (some (deposited x s))
      ≡ owed a (some s) + (if asset x s == a then pos_part (amount x s) else 0)
owed-deposited side_a s a c f = ground arith
owed-deposited side_b s a c f = ground arith

pub not_self :
    (self : Address) (env : Env) (a : Address)
    → env.signed self ≡ false
    → env.signed a ≡ true
    → a ≢ self
not_self self env a u s = λ e. cc

-- What the contract holds after it has paid the two sides of a swap that is not over out.
module _ {L : Type 0} {tok : Tokens L} {holding : Address → Address → L → ℤ}
    (law : IsToken tok holding) (self : Address) (s : Swap) (a : Address) (l : L)
    (live : is_over s.state ≡ false) where
  pub holding-paid_out :
      (x : Side) (to : Address)
      → to ≢ self
      → pos 1 ≤ℤ amount x s
      → Pays tok x s self to l
      → is_funded x s ≡ true
      → holding a self (paid_out tok x s self to l) ≡ holding a self l -ℤ pos (kept x a s)
  holding-paid_out side_a to ne b (r, p) f =
      grind (int_laws, holding_paid law self s.asset_a to s.amount_a l r ne p a)
  holding-paid_out side_b to ne b (r, p) f =
      grind (int_laws, holding_paid law self s.asset_b to s.amount_b l r ne p a)

  pub holding-returned :
      (x : Side)
      → (is_funded x s ≡ true → depositor x s ≢ self)
      → pos 1 ≤ℤ amount x s
      → Returns tok x s self l
      → holding a self (returned tok x s self l) ≡ holding a self l -ℤ pos (kept x a s)
  holding-returned side_a ne b r = elim (Bool-cases s.creator_funded) [
    | inl f ↦ rw f (grind (int_laws, holding-paid_out side_a s.creator (ne f) b (r f) f))
    | inr f ↦ rw f (grind int_laws)
  ]
  holding-returned side_b ne b r = elim (Bool-cases s.counterparty_funded) [
    | inl f ↦ rw f (grind (int_laws, holding-paid_out side_b s.counterparty (ne f) b (r f) f))
    | inr f ↦ rw f (grind int_laws)
  ]
