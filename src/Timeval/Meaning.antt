-- ===== src/Timeval/Meaning.antt =====
-- What a `struct timeval` of src/ccevents-timevals.c stands for, a number of microseconds, and what
-- `ccevents_timeval_normalise` makes of it.
use ccevents.Base.{ℕ, ◌/◌, ◌%◌, ◌<◌, ◌≡◌, arith}
use ccevents.Base.Int.{ℤ, pos, negsuc, ◌+ℤ◌, ◌*ℤ◌, ◌≤ℤ◌, ◌<ℤ◌}
use ccevents.Outcome.{ok, raise, timeval_invalid, timeval_overflow, long_max, IsLong, Ends}
use ccevents.Timeval.{Timeval, timeval, normalise}
use ccevents.Timeval.Normal.{normalise-pos, normalise-negsuc}

unfoldable pub micros : Timeval → ℤ
unfolding ◌+ℤ◌ ◌*ℤ◌
micros t = 1000000 *ℤ t.tv_sec +ℤ t.tv_usec

-- The canonical representation of a number of microseconds.
abbrev pub of_micros : ℕ → Timeval
of_micros m = timeval (pos (m / 1000000)) (pos (m % 1000000))

-- The fields fit the C type.
abbrev pub IsTimeval : Timeval → Type 0
IsTimeval t = IsLong t.tv_sec × IsLong t.tv_usec

-- What `ccevents_timeval_t` promises of its fields.
pub record IsNormalised (t : Timeval) : Type 0 where
  pub sec_low : pos 0 ≤ℤ t.tv_sec
  pub sec_high : t.tv_sec ≤ℤ pos long_max
  pub usec_low : pos 0 ≤ℤ t.tv_usec
  pub usec_high : t.tv_usec ≤ℤ pos 999999

pub normalise_invalid : (s u : ℤ) → s <ℤ pos 0 → normalise (timeval s u) ≡ raise timeval_invalid
unfolding normalise
normalise_invalid s u h = ground arith

-- For any two fields of the C type `ccevents_timeval_normalise` overflows no `long`, and a time
-- that it returns is normalised and stands for the same number of microseconds.
pub normalise-Ends :
    (s u : ℤ)
    → IsTimeval (timeval s u)
    → Ends (λ r. IsNormalised r × (micros r ≡ micros (timeval s u))) (normalise (timeval s u))
unfolding micros
normalise-Ends (pos s) (pos u) h = ground (arith, normalise-pos s u h.0 h.1)
normalise-Ends (pos s) (negsuc k) h = ground (arith, normalise-negsuc s k h.0 h.1)
normalise-Ends (negsuc s) u h = ground (arith, normalise_invalid (negsuc s) u (omega arith))

-- A positive time of less than `LONG_MAX` seconds is normalised to its canonical representation,
-- however its microseconds are distributed over two fields of the C type, if the seconds are not
-- negative.
pub normalise_complete :
    (s u : ℤ) (m : ℕ)
    → IsTimeval (timeval s u)
    → pos 0 ≤ℤ s
    → micros (timeval s u) ≡ pos m
    → 0 < m
    → m / 1000000 < long_max
    → normalise (timeval s u) ≡ ok (of_micros m)
unfolding micros
normalise_complete (pos s) (pos u) m h p e q l = ground (arith, normalise-pos s u h.0 h.1)
normalise_complete (pos s) (negsuc k) m h p e q l = ground (arith, normalise-negsuc s k h.0 h.1)
normalise_complete (negsuc s) u m h p e q l = absurd (omega arith)

-- With negative microseconds and seconds that are not negative, both of the C type, a time of zero
-- or less is an overflow: so is zero itself, though it can be represented.
pub normalise_not_positive :
    (s u : ℤ)
    → IsTimeval (timeval s u)
    → pos 0 ≤ℤ s
    → u <ℤ pos 0
    → micros (timeval s u) ≤ℤ pos 0
    → normalise (timeval s u) ≡ raise timeval_overflow
unfolding micros
normalise_not_positive (pos s) (pos u) h p q l = absurd (omega arith)
normalise_not_positive (pos s) (negsuc k) h p q l = ground (arith, normalise-negsuc s k h.0 h.1)
normalise_not_positive (negsuc s) u h p q l = absurd (omega arith)
