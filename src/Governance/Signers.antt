-- ===== src/Governance/Signers.antt =====
-- Lists of addresses, as the governance contract uses `Vec<Address>`: `contains`, and `position`
-- followed by `remove`.
use swaptrade_contract.Prelude.{
  ◌≡◌, refl, Bool, true, false, ◌||◌, List, [], ◌∷◌, ◌++◌, ◌==◌, if◌then◌else◌, arith,
}
use swaptrade_contract.Host.{Address}

unfoldable pub contains : List Address → Address → Bool
contains [] a = false
contains (x ∷ xs) a = x == a || contains xs a

-- `if let Some(pos) = v.iter().position(|s| s == a) { v.remove(pos) }`
unfoldable pub without_first : List Address → Address → List Address
without_first [] a = []
without_first (x ∷ xs) a = let rest = without_first xs a in if x == a then xs else x ∷ rest

abbrev pub is_empty : List Address → Bool
is_empty [] = true
is_empty (x ∷ xs) = false

-- No address occurs twice.
abbrev pub Distinct : List Address → Type 0
Distinct [] = Unit
Distinct (x ∷ xs) = (contains xs x ≡ false) × Distinct xs

-- Where an address is found there is one.
pub is_empty-contains :
    (xs : List Address) (a : Address) → contains xs a ≡ true → is_empty xs ≡ false
unfolding contains
is_empty-contains [] a h = absurd (ground arith)
is_empty-contains (x ∷ xs) a h = refl

contains-push :
    (xs : List Address) (y a : Address) → contains (xs ++ y ∷ []) a ≡ (contains xs a || y == a)
unfolding contains
contains-push [] y a = ground arith
contains-push (x ∷ xs) y a = ground (arith, contains-push xs y a)

pub Distinct-push :
    (xs : List Address) (y : Address)
    → contains xs y ≡ false
    → Distinct xs
    → Distinct (xs ++ y ∷ [])
unfolding contains
Distinct-push [] y n d = (refl, tt)
Distinct-push (x ∷ xs) y n d =
    (ground (arith, contains-push xs y x, d.0), Distinct-push xs y (ground arith) d.1)

-- Nothing that was not there is there after a removal.
contains-without_first :
    (xs : List Address) (y a : Address)
    → contains xs a ≡ false
    → contains (without_first xs y) a ≡ false
unfolding contains without_first
contains-without_first [] y a n = refl
contains-without_first (x ∷ xs) y a n = ground (arith, contains-without_first xs y a)

pub Distinct-without_first :
    (xs : List Address) (y : Address) → Distinct xs → Distinct (without_first xs y)
unfolding contains without_first
Distinct-without_first [] y d = tt
Distinct-without_first (x ∷ xs) y d = removed (x == y) (Distinct-without_first xs y d.1)
  where
    removed :
        (b : Bool)
        → Distinct (without_first xs y)
        → Distinct (if b then xs else x ∷ without_first xs y)
    removed true h = d.1
    removed false h = (contains-without_first xs y x d.0, h)
