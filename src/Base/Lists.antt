-- ===== src/Base/Lists.antt =====
-- Lists of addresses: length, last element, membership and distinctness.
use Prim.Native.Nat.{ℕ, suc, ◌+◌}
use mathlib.Core.Path.{◌≡◌, refl, ap}
use mathlib.Core.Logic.{◌≢◌}
use mathlib.Core.Bool.{Bool, true, false, ◌||◌}
use mathlib.Core.List.{List, [], ◌∷◌, ◌++◌, append-nil}
use native.Mathlib.Omega.{arith}
use ccevents.Base.Tests.{◌==◌}

module _ {ℓ} {A : Type ℓ} where
  abbrev pub length : List A → ℕ
  length [] = 0
  length (x ∷ xs) = suc (length xs)

  pub length-append : (xs ys : List A) → length (xs ++ ys) ≡ length xs + length ys
  length-append [] ys = omega arith
  length-append (x ∷ xs) ys = omega (arith, length-append xs ys)

  -- The last element of `a ∷ xs`.
  abbrev pub last : A → List A → A
  last a [] = a
  last a (x ∷ xs) = last x xs

  pub last-append : (a b : A) (xs ys : List A) → last a (xs ++ b ∷ ys) ≡ last b ys
  last-append a b [] ys = refl
  last-append a b (x ∷ xs) ys = last-append x b xs ys

-- Whether an address occurs in a list.
abbrev pub has : ℕ → List ℕ → Bool
has a [] = false
has a (x ∷ xs) = (a == x) || has a xs

infix 40 ◌∉◌
abbrev pub ◌∉◌ : ℕ → List ℕ → Type 0
a ∉ xs = has a xs ≡ false

-- No address occurs twice.
abbrev pub Distinct : List ℕ → Type 0
Distinct [] = Unit {0}
Distinct (x ∷ xs) = (x ∉ xs) × Distinct xs

pub has-append : (a : ℕ) (xs ys : List ℕ) → has a (xs ++ ys) ≡ (has a xs || has a ys)
has-append a [] ys = refl
has-append a (x ∷ xs) ys = ground (arith, has-append a xs ys)

pub has-last : (a : ℕ) (xs : List ℕ) → has (last a xs) (a ∷ xs) ≡ true
has-last a [] = ground arith
has-last a (x ∷ xs) = ground (arith, has-last x xs)

-- An element taken out of the middle is not left behind.
pub Distinct-remove :
    (xs : List ℕ) (a : ℕ) (ys : List ℕ)
    → Distinct (xs ++ a ∷ ys)
    → (a ∉ xs ++ ys) × Distinct (xs ++ ys)
Distinct-remove [] a ys d = d
Distinct-remove (x ∷ xs) a ys d =
    ground (arith, Distinct-remove xs a ys d.1, has-append x xs (a ∷ ys), has-append x xs ys)

pub Distinct-insert :
    (xs : List ℕ) (a : ℕ) (ys : List ℕ)
    → a ∉ xs ++ ys
    → Distinct (xs ++ ys)
    → Distinct (xs ++ a ∷ ys)
Distinct-insert [] a ys o d = (o, d)
Distinct-insert (x ∷ xs) a ys o d =
    ground (arith, Distinct-insert xs a ys, has-append x xs (a ∷ ys), has-append x xs ys)

pub Distinct-rotate : (xs ys : List ℕ) → Distinct (xs ++ ys) → Distinct (ys ++ xs)
Distinct-rotate [] ys d = rw append-nil d
Distinct-rotate (x ∷ xs) ys d =
    Distinct-insert ys x xs (ground (arith, has-append x xs ys, has-append x ys xs))
      (Distinct-rotate xs ys d.1)

pub ne_of_has : {a b : ℕ} (xs : List ℕ) → has b xs ≡ true → a ∉ xs → a ≢ b
ne_of_has xs i o e = absurd (ground (arith, ap (λ c. has c xs) e))
