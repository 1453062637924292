-- ===== src/Prelude/Maps.antt =====
-- A `Map` of the host as the function that `get` is: every key that was never set gives `none`.
use Prim.Native.Nat.{ℕ}
use mathlib.Core.Bool.{◌&&◌}
use mathlib.Core.Option.{Option, none, some}
use mathlib.Core.Path.{◌≡◌, subst}
use mathlib.Core.Logic.{◌≢◌}
use native.Mathlib.Omega.{arith}
use native.Mathlib.Decide.{ℕ_discrete}
use swaptrade_contract.Prelude.Tests.{◌==◌, if◌then◌else◌}

abbrev pub Map : Type 0 → Type 0
Map V = ℕ → Option V

-- `Map<(Address, u64), V>`
abbrev pub PairMap : Type 0 → Type 0
PairMap V = ℕ → ℕ → Option V

module _ {V : Type 0} where
  abbrev pub empty : Map V
  empty k = none

  abbrev pub set : Map V → ℕ → V → Map V
  set m k v j = if k == j then some v else m j

  abbrev pub set_pair : PairMap V → ℕ → ℕ → V → PairMap V
  set_pair m k l v i j = if k == i && l == j then some v else m i j

  pub set_self : (m : Map V) (k : ℕ) (v : V) → set m k v k ≡ some v
  set_self m k v = ground arith

  pub set_ne : (m : Map V) (k j : ℕ) (v : V) → k ≢ j → set m k v j ≡ m j
  set_ne m k j v h = ground arith

-- What holds of the entries at every key holds after a write, if it holds of the entry written.
module _ {V W : Type 0} (P : ℕ → Option V → Option W → Type 0) {m : Map V} {n : Map W} where
  pub every-set_left :
      (k : ℕ) (v : V)
      → ((i : ℕ) → P i (m i) (n i))
      → P k (some v) (n k)
      → (i : ℕ) → P i (set m k v i) (n i)
  every-set_left k v h p i = elim (ℕ_discrete k i) [
    | yes e ↦ subst (λ j. P j (set m k v j) (n j)) e (rw (set_self m k v) p)
    | no d ↦ rw (set_ne m k i v d) (h i)
  ]

  pub every-set_right :
      (k : ℕ) (w : W)
      → ((i : ℕ) → P i (m i) (n i))
      → P k (m k) (some w)
      → (i : ℕ) → P i (m i) (set n k w i)
  every-set_right k w h p i = elim (ℕ_discrete k i) [
    | yes e ↦ subst (λ j. P j (m j) (set n k w j)) e (rw (set_self n k w) p)
    | no d ↦ rw (set_ne n k i w d) (h i)
  ]

  pub every-set_both :
      (k : ℕ) (v : V) (w : W)
      → ((i : ℕ) → P i (m i) (n i))
      → P k (some v) (some w)
      → (i : ℕ) → P i (set m k v i) (set n k w i)
  every-set_both k v w h p i = elim (ℕ_discrete k i) [
    | yes e ↦ subst (λ j. P j (set m k v j) (set n k w j)) e (rw (set_self m k v, set_self n k w) p)
    | no d ↦ rw (set_ne m k i v d, set_ne n k i w d) (h i)
  ]

pub every-set :
    {A : Type 0} (P : ℕ → Option A → Type 0) {m : Map A} (k : ℕ) (v : A)
    → ((i : ℕ) → P i (m i))
    → P k (some v)
    → (i : ℕ) → P i (set m k v i)
every-set {A} P {m} k v h p i =
    every-set_left (λ j (o : Option A) (u : Option A). P j o) {n = m} k v h p i
