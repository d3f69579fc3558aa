-- ===== src/Prelude/Lists.antt =====
-- Lists measured by native numbers, and sets of numbers kept as lists.
use mathlib.Core.Logic.{inl, inr}
use Prim.Native.Nat.{ℕ, suc, ◌+◌, ◌≤◌}
use mathlib.Core.Path.{◌≡◌, refl}
use mathlib.Core.Bool.{Bool, true, false, ◌||◌}
use mathlib.Core.List.{List, [], ◌∷◌, ◌++◌}
use native.Mathlib.Omega.{arith}
use netconnpool.Prelude.Tests.{◌==◌, if◌then◌else◌}
use netconnpool.Prelude.Tests.{Bool-cases}

module _ {ℓ} {A : Type ℓ} where
  abbrev pub length : List A → ℕ
  length [] = 0
  length (x ∷ xs) = suc (length xs)

  pub length-append : (xs ys : List A) → length (xs ++ ys) ≡ length xs + length ys
  length-append [] ys = omega arith
  length-append (x ∷ xs) ys = omega (arith, length-append xs ys)

  -- The number of entries that pass a test.
  unfoldable pub count : (A → Bool) → List A → ℕ
  count f [] = 0
  count f (x ∷ xs) = (if f x then 1 else 0) + count f xs

  abbrev pub All {κ} : (A → Type κ) → List A → Type κ
  All P [] = Unit
  All P (x ∷ xs) = P x × All P xs

  pub count-cons :
      (f : A → Bool) (x : A) (xs : List A) → count f (x ∷ xs) ≡ (if f x then 1 else 0) + count f xs
  unfolding count
  count-cons f x xs = refl

unfoldable pub member : ℕ → List ℕ → Bool
member a [] = false
member a (x ∷ xs) = (x == a) || member a xs

-- Without the first occurrence.
unfoldable pub erase : ℕ → List ℕ → List ℕ
erase a [] = []
erase a (x ∷ xs) = if x == a then xs else x ∷ erase a xs

abbrev pub Distinct : List ℕ → Type 0
Distinct [] = Unit {0}
Distinct (x ∷ xs) = (member x xs ≡ false) × Distinct xs

pub length-erase : (a : ℕ) (xs : List ℕ) → member a xs ≡ true → length xs ≡ length (erase a xs) + 1
unfolding member erase
length-erase a [] h = ground arith
length-erase a (x ∷ xs) h = ground (arith, length-erase a xs)

pub length-erase-le : (a : ℕ) (xs : List ℕ) → length (erase a xs) ≤ length xs
unfolding erase
length-erase-le a [] = omega arith
length-erase-le a (x ∷ xs) = ground (arith, length-erase-le a xs)

pub erase_absent : (a : ℕ) (xs : List ℕ) → member a xs ≡ false → erase a xs ≡ xs
unfolding member erase
erase_absent a [] h = refl
erase_absent a (x ∷ xs) h = ground (arith, erase_absent a xs)

pub count-erase :
    (f : ℕ → Bool) (a : ℕ) (xs : List ℕ)
    → member a xs ≡ true
    → count f xs ≡ (if f a then 1 else 0) + count f (erase a xs)
unfolding member erase count
count-erase f a [] h = ground arith
count-erase f a (x ∷ xs) h = ground (arith, count-erase f a xs)

pub member-erase_ne :
    (a b : ℕ) (xs : List ℕ) → (b == a) ≡ false → member a (erase b xs) ≡ member a xs
unfolding member erase
member-erase_ne a b [] h = refl
member-erase_ne a b (x ∷ xs) h = ground (arith, member-erase_ne a b xs h)

pub member-erase_self : (a : ℕ) (xs : List ℕ) → Distinct xs → member a (erase a xs) ≡ false
unfolding member erase
member-erase_self a [] d = refl
member-erase_self a (x ∷ xs) d = ground (arith, member-erase_self a xs d.1)

pub member_of_member-erase :
    (a b : ℕ) (xs : List ℕ) → member a (erase b xs) ≡ true → member a xs ≡ true
unfolding member erase
member_of_member-erase a b [] h = h
member_of_member-erase a b (x ∷ xs) h = ground (arith, member_of_member-erase a b xs)

pub erase-Distinct : (a : ℕ) (xs : List ℕ) → Distinct xs → Distinct (erase a xs)
unfolding member erase
erase-Distinct a [] d = tt
erase-Distinct a (x ∷ xs) d = ground (arith, erase-Distinct a xs d.1, member_of_member-erase x a xs)

-- Two tests that agree on the members count the same.
pub count_congr :
    (f g : ℕ → Bool) (xs : List ℕ)
    → ((a : ℕ) → member a xs ≡ true → f a ≡ g a)
    → count f xs ≡ count g xs
unfolding count member
count_congr f g [] h = refl
count_congr f g (x ∷ xs) h = ground (arith, h x, count_congr f g xs (λ a m. h a (ground arith)))

-- A number above all of a list is not in it.
pub member_beyond :
    (n : ℕ) (ids : List ℕ) → ((id : ℕ) → member id ids ≡ true → id ≤ n) → member (suc n) ids ≡ false
member_beyond n ids h = elim (Bool-cases (member (suc n) ids)) [
  | inl m ↦ absurd (omega (arith, h (suc n) m))
  | inr m ↦ m
]
