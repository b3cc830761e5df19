-- ===== src/Outcome.antt =====
-- How a call of the library ends, and the C type `long` on a 64-bit machine. A call returns, exits to
-- its `cce_location_t` with an exceptional condition, stops at a failed `assert`, or computes a value
-- that does not fit a `long`, which C leaves undefined.
use ccevents.Base.{
  ℕ, suc, ◌+◌, ◌-◌, ◌/◌, ◌%◌, ◌^◌, ◌≤◌, ◌≡◌, Bool, true, false, arith, leb, if◌then◌else◌,
}
use ccevents.Base.Int.{ℤ, pos, negsuc, sub_ℕ, ◌+ℤ◌, ◌-ℤ◌, ◌*ℤ◌}

-- The conditions that the timeval and timeout modules raise.
pub data Raised : Type 0 where
  timeval_invalid timeval_overflow timeout_invalid timeout_overflow : Raised

pub data Outcome {ℓ} (A : Type ℓ) : Type ℓ where
  ok : A → Outcome A
  raise : Raised → Outcome A
  assert_failed : Outcome A
  overflowed : Outcome A

infixl 5 ◌>>=◌ ◌>>◌
abbrev pub ◌>>=◌ {ℓ κ} : {A : Type ℓ} {B : Type κ} → Outcome A → (A → Outcome B) → Outcome B
ok a >>= f = f a
raise c >>= f = raise c
assert_failed >>= f = assert_failed
overflowed >>= f = overflowed

abbrev pub ◌>>◌ {ℓ} : {B : Type ℓ} → Outcome (Unit {0}) → Outcome B → Outcome B
m >> k = m >>= λ _. k

-- `if (test) cce_raise (there, c)`
abbrev pub raise_if : Bool → Raised → Outcome (Unit {0})
raise_if true c = raise c
raise_if false c = ok tt

-- `assert (test)`
abbrev pub assert : Bool → Outcome (Unit {0})
assert true = ok tt
assert false = assert_failed

abbrev pub long_max : ℕ
long_max = 2 ^ 63 - 1

-- LONG_MIN is -LONG_MAX - 1.
abbrev pub long_min : ℤ
long_min = negsuc long_max

-- The values of a `long`.
abbrev pub IsLong : ℤ → Type 0
IsLong (pos n) = n ≤ long_max
IsLong (negsuc n) = n ≤ long_max

abbrev pub fits_long : ℤ → Bool
fits_long (pos n) = leb n long_max
fits_long (negsuc n) = leb n long_max

-- Signed arithmetic: the exact result, where it fits.
unfoldable pub to_long : ℤ → Outcome ℤ
to_long z = if fits_long z then ok z else overflowed

unfoldable pub add_long : ℤ → ℤ → Outcome ℤ
unfolding to_long ◌+ℤ◌
add_long a b = to_long (a +ℤ b)

unfoldable pub sub_long : ℤ → ℤ → Outcome ℤ
unfolding to_long ◌-ℤ◌
sub_long a b = to_long (a -ℤ b)

unfoldable pub mul_long : ℕ → ℤ → Outcome ℤ
unfolding to_long ◌*ℤ◌
mul_long k a = to_long (k *ℤ a)

-- C division by a positive constant truncates towards 0, and the remainder has the dividend's sign.
abbrev pub div_long : ℤ → ℕ → ℤ
div_long (pos n) d = pos (n / d)
div_long (negsuc n) d = sub_ℕ 0 (suc n / d)

abbrev pub mod_long : ℤ → ℕ → ℤ
mod_long (pos n) d = pos (n % d)
mod_long (negsuc n) d = sub_ℕ 0 (suc n % d)

pub sub_long-pos : (a b : ℕ) → a ≤ long_max → b ≤ a → sub_long (pos a) (pos b) ≡ ok (pos (a - b))
unfolding sub_long
sub_long-pos a b ha hb = ground arith

pub add_long-pos : (a b : ℕ) → a + b ≤ long_max → add_long (pos a) (pos b) ≡ ok (pos (a + b))
unfolding add_long
add_long-pos a b h = ground arith

-- The difference of two values that are not negative always fits.
pub sub_long_lem :
    (a b : ℕ) → a ≤ long_max → b ≤ long_max → sub_long (pos a) (pos b) ≡ ok (sub_ℕ a b)
unfolding sub_long
sub_long_lem a b ha hb = ground arith

-- The call does not go wrong, and its result, if it returns one, has the property.
abbrev pub Ends {ℓ} : {A : Type ℓ} → (A → Type 0) → Outcome A → Type 0
Ends P (ok a) = P a
Ends P (raise c) = Unit
Ends P assert_failed = ⊥
Ends P overflowed = ⊥

pub Ends->>= {ℓ κ} :
    {A : Type ℓ} {B : Type κ} (P : A → Type 0) (Q : B → Type 0) (m : Outcome A) (f : A → Outcome B)
    → Ends P m
    → ((a : A) → P a → Ends Q (f a))
    → Ends Q (m >>= f)
Ends->>= P Q (ok a) f h k = k a h
Ends->>= P Q (raise c) f h k = tt
Ends->>= P Q assert_failed f h k = h
Ends->>= P Q overflowed f h k = h
