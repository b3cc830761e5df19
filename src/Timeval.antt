-- ===== src/Timeval.antt =====
-- Operations on `struct timeval` (src/ccevents-timevals.c).
pub mod Normal
pub mod Meaning
pub mod Arithmetic
pub mod Order
mod Tests
use ccevents.Base.{ℕ, ◌+◌, ◌*◌, ◌≤◌, ◌≡◌, Bool, true, false, ◌&&◌, ◌||◌, not, if◌then◌else◌, arith}
use ccevents.Base.Int.{ℤ, pos, negsuc, ◌+ℤ◌, ◌*ℤ◌, ltb_ℤ}
use ccevents.Outcome.{
  Outcome, ok, raise, timeval_invalid, timeval_overflow, ◌>>=◌, ◌>>◌, raise_if, assert, long_max,
  long_min, add_long, sub_long, div_long, mod_long,
}

-- `ccevents_timeval_t`, a wrapper of `struct timeval`, which is the same type here.
pub record Timeval : Type 0 where
  pub tv_sec : ℤ
  pub tv_usec : ℤ

abbrev pub timeval : ℤ → ℤ → Timeval
timeval s u = record { tv_sec = s; tv_usec = u }

-- `CCEVENTS_TIMEVAL_NEVER`
abbrev pub timeval_never : Timeval
timeval_never = timeval (pos long_max) (pos long_max)

-- `ASSERT_NORMALISED_TIMEVAL`
unfoldable pub assert_normalised : Timeval → Outcome (Unit {0})
assert_normalised t = do
  assert (not (ltb_ℤ t.tv_sec (pos 0)))
  assert (not (ltb_ℤ (pos long_max) t.tv_sec))
  assert (not (ltb_ℤ t.tv_usec (pos 0)))
  assert (not (ltb_ℤ (pos 999999) t.tv_usec))

-- The branch of `ccevents_timeval_normalise` for negative microseconds.
unfoldable pub borrow_seconds : Timeval → Outcome Timeval
unfolding add_long sub_long
borrow_seconds t = do
  let div = div_long t.tv_usec 1000000
  let mod_ = mod_long t.tv_usec 1000000
  less ← sub_long div (pos 1)
  sec ← add_long t.tv_sec less
  usec ← add_long mod_ (pos 1000000)
  raise_if (ltb_ℤ sec (pos 0)) timeval_overflow
  ok (timeval sec usec)

-- The branch of `ccevents_timeval_normalise` for a million microseconds or more.
unfoldable pub carry_seconds : Timeval → Outcome Timeval
unfolding add_long sub_long
carry_seconds t = do
  let div = div_long t.tv_usec 1000000
  let mod_ = mod_long t.tv_usec 1000000
  room ← sub_long (pos long_max) t.tv_sec
  sec ← (if ltb_ℤ div room then add_long t.tv_sec div else raise timeval_overflow)
  ok (timeval sec mod_)

unfoldable pub normalise : Timeval → Outcome Timeval
normalise t = do
  raise_if
      (ltb_ℤ t.tv_sec (pos 0)
        || ltb_ℤ (pos long_max) t.tv_sec
        || ltb_ℤ t.tv_usec long_min
        || ltb_ℤ (pos long_max) t.tv_usec)
      timeval_invalid
  lent ← (if ltb_ℤ t.tv_usec (pos 0) then borrow_seconds t else ok t)
  if ltb_ℤ (pos 999999) lent.tv_usec then carry_seconds lent else ok lent

unfoldable pub init : (seconds microseconds : ℤ) → Outcome Timeval
init seconds microseconds = do
  raise_if (ltb_ℤ seconds (pos 0)) timeval_invalid
  normalise (timeval seconds microseconds)

unfoldable pub add : Timeval → Timeval → Outcome Timeval
add a b = do
  assert_normalised a
  assert_normalised b
  room ← sub_long (pos long_max) a.tv_sec
  sec ← (if ltb_ℤ b.tv_sec room then add_long a.tv_sec b.tv_sec else raise timeval_overflow)
  usec ← add_long a.tv_usec b.tv_usec
  let secs = div_long usec 1000000
  left ← sub_long (pos long_max) sec
  sec' ← (if ltb_ℤ secs left then add_long sec secs else raise timeval_overflow)
  ok (timeval sec' (mod_long usec 1000000))

unfoldable pub sub : Timeval → Timeval → Outcome Timeval
sub a b = do
  assert_normalised a
  assert_normalised b
  sec ← sub_long a.tv_sec b.tv_sec
  usec ← sub_long a.tv_usec b.tv_usec
  init sec usec

-- The `int` that `ccevents_timeval_compare` returns.
unfoldable pub compare : Timeval → Timeval → ℤ
compare a b =
    if ltb_ℤ a.tv_sec b.tv_sec
    then negsuc 0
    else if ltb_ℤ b.tv_sec a.tv_sec
    then pos 1
    else if ltb_ℤ a.tv_usec b.tv_usec
    then negsuc 0
    else if ltb_ℤ b.tv_usec a.tv_usec
    then pos 1
    else pos 0

unfoldable pub is_infinite_timeout : Timeval → Bool
is_infinite_timeout t = not (ltb_ℤ t.tv_sec (pos long_max)) && not (ltb_ℤ (pos long_max) t.tv_sec)

-- `now` is what `gettimeofday` gives.
unfoldable pub is_expired_timeout : (now expiration_time : Timeval) → Bool
unfolding is_infinite_timeout
is_expired_timeout now expiration_time =
    if is_infinite_timeout expiration_time
    then false
    else if ltb_ℤ now.tv_sec expiration_time.tv_sec
    then false
    else if not (ltb_ℤ expiration_time.tv_sec now.tv_sec)
        && not (ltb_ℤ expiration_time.tv_usec now.tv_usec)
    then false
    else true
