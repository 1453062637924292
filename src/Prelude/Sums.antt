-- ===== src/Prelude/Sums.antt =====
-- Sums of a measure over the entries of a map below a key.
use Prim.Native.Nat.{ℕ, zero, suc, ◌+◌, ◌≤◌, ◌<◌}
use mathlib.Core.Path.{◌≡◌, refl}
use mathlib.Core.Option.{Option, some}
use native.Mathlib.Omega.{arith}
use swaptrade_contract.Prelude.Maps.{Map, set, set_self}
use native.Mathlib.Numerals.{add-one}

module _ {V : Type 0} (measure : Option V → ℕ) where
  -- The measures of the entries at 0, …, n - 1, added up.
  unfoldable pub total : ℕ → Map V → ℕ
  total zero m = 0
  total (suc n) m = measure (m n) + total n m

  -- A write at or above `n` does not count.
  pub total-set_above : (n k : ℕ) (v : V) (m : Map V) → n ≤ k → total n (set m k v) ≡ total n m
  unfolding total
  total-set_above zero k v m h = refl
  total-set_above (suc n) k v m h = ground (arith, total-set_above n k v m)

  -- A write below `n` puts the new entry's measure in the place of the old one's.
  pub total-set :
      (n k : ℕ) (v : V) (m : Map V)
      → k < n
      → total n (set m k v) + measure (m k) ≡ total n m + measure (some v)
  unfolding total
  total-set zero k v m h = absurd (omega arith)
  total-set (suc n) k v m h = ground (arith, total-set n k v m, total-set_above n k v m)

  total-suc : (n : ℕ) (m : Map V) → total (suc n) m ≡ measure (m n) + total n m
  unfolding total
  total-suc n m = refl

  -- A new entry at the end adds its measure.
  pub total-set_next :
      (k : ℕ) (v : V) (m : Map V) → total (k + 1) (set m k v) ≡ measure (some v) + total k m
  total-set_next k v m =
      rw (add-one k)
        (rw (total-suc k (set m k v), set_self m k v, total-set_above k k v m (omega arith)) refl)
