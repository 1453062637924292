-- ===== src/Host.antt =====
-- The Soroban host as the contracts use it: the invocation's environment, results of a call,
-- storage and events as explicit state. `Host.Tokens` has the token contracts that are called.
pub mod Tokens
pub mod Ledger
pub mod Words
pub mod Triples
use swaptrade_contract.Prelude.{
  ℕ, ◌+◌, min, ◌≡◌, refl, ◌⊎◌, inl, inr, Bool, Option, none, some, List, [], ◌∷◌, ◌++◌,
  if◌then◌else◌, arith,
}

-- Addresses are only compared, so they are numbers.
abbrev pub Address : Type 0
Address = ℕ

abbrev pub u64_max : ℕ
u64_max = 18446744073709551615

abbrev pub u32_max : ℕ
u32_max = 4294967295

-- `a.saturating_add(b)` on a u64.
unfoldable pub saturating_add : ℕ → ℕ → ℕ
saturating_add a b = min (a + b) u64_max

-- `env.ledger().timestamp()`, `env.current_contract_address()`, and which addresses have
-- authorized the invocation.
pub record Env : Type 0 where
  pub now : ℕ
  pub contract : Address
  pub signed : Address → Bool

-- How a call ends: `Ok`, `Err`, or a panic (a failed `require_auth`, an overflow, `panic!`).
pub data Result (E A : Type 0) : Type 0 where
  ok : A → Result E A
  err : E → Result E A
  trap : Result E A

pub Result-cases :
    {E A : Type 0} (r : Result E A)
    → ((a : A) × (r ≡ ok a)) ⊎ (((e : E) × (r ≡ err e)) ⊎ (r ≡ trap))
Result-cases (ok a) = inl (a, refl)
Result-cases (err e) = inr (inl (e, refl))
Result-cases trap = inr (inr refl)

-- What a call reads and writes: the contract's storage, the state of the token contracts, and the
-- events that it publishes, in order.
pub record World (S Ev L : Type 0) : Type 0 where
  pub store : S
  pub tokens : L
  pub events : List Ev

-- The writes that were made before an error are still there: only the host takes them back.
abbrev pub Action : Type 0 → Type 0 → Type 0 → Type 0
Action E W A = W → Result E A × W

module _ {E W : Type 0} where
  abbrev pub pure : {A : Type 0} → A → Action E W A
  pure a w = (ok a, w)

  abbrev pub raise : {A : Type 0} → E → Action E W A
  raise e w = (err e, w)

  infixl 5 ◌>>=◌ ◌>>◌
  abbrev pub ◌>>=◌ : {A B : Type 0} → Action E W A → (A → Action E W B) → Action E W B
  ◌>>=◌ m f w =
      let (r, w') = m w in elim r [ ok a ↦ f a w' | err e ↦ (err e, w') | trap ↦ (trap, w') ]

  abbrev pub ◌>>◌ : {A B : Type 0} → Action E W A → Action E W B → Action E W B
  m >> k = m >>= λ _. k

  abbrev pub raise_if : Bool → E → Action E W (Unit {0})
  raise_if c e w = (if c then err e else ok tt, w)

  abbrev pub trap_if : Bool → Action E W (Unit {0})
  trap_if c w = (if c then trap else ok tt, w)

  abbrev pub or_raise : {A : Type 0} → Option A → E → Action E W A
  or_raise none e = raise e
  or_raise (some a) e = pure a

  -- `address.require_auth()`
  abbrev pub require_auth : Env → Address → Action E W (Unit {0})
  require_auth env a w = (if env.signed a then ok tt else trap, w)

  -- The host keeps what a call has written only if the call returns `Ok`.
  unfoldable pub invoke : {A : Type 0} → Action E W A → Action E W A
  invoke m w =
      let (r, w') = m w in elim r [ ok a ↦ (ok a, w') | err e ↦ (err e, w) | trap ↦ (trap, w) ]

  -- An invocation has changed nothing, or it returned a value and its writes stand.
  pub invoke_cases :
      {A : Type 0} (m : Action E W A) (w : W)
      → ((invoke m w).1 ≡ w) ⊎ ((a : A) × ((m w).0 ≡ ok a) × ((invoke m w).1 ≡ (m w).1))
  unfolding invoke
  invoke_cases m w = ground arith

  -- A sequence that returned a value: its first part did, and the rest went on from there.
  pub >>=-eq-ok :
      {A B : Type 0} (m : Action E W A) (f : A → Action E W B) (w : W) (b : B)
      → ((m >>= f) w).0 ≡ ok b
      → (a : A) × ((m w).0 ≡ ok a) × ((f a (m w).1).0 ≡ ok b) × (((m >>= f) w).1 ≡ (f a (m w).1).1)
  >>=-eq-ok m f w b h = elim (Result-cases (m w).0) [
    | inl (a, e) ↦ (a, e, ground arith, ground arith)
    | inr (inl (x, e)) ↦ absurd (ground arith)
    | inr (inr e) ↦ absurd (ground arith)
  ]

  -- What is read under a key that is there.
  pub or_raise-some :
      {A B : Type 0} (o : Option A) (a : A) (e : E) (f : A → Action E W B) (w : W)
      → o ≡ some a
      → (or_raise o e >>= f) w ≡ f a w
  or_raise-some o a e f w k = rw k refl

module _ {E S Ev L : Type 0} where
  -- Reads of the contract's storage, and writes to it.
  abbrev pub gets : {A : Type 0} → (S → A) → Action E (World S Ev L) A
  gets f w = (ok (f w.store), w)

  abbrev pub modify : (S → S) → Action E (World S Ev L) (Unit {0})
  modify f w = (ok tt, record w { store = f w.store })

  abbrev pub publish : Ev → Action E (World S Ev L) (Unit {0})
  publish x w = (ok tt, record w { events = w.events ++ x ∷ [] })
