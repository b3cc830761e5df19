-- ===== src/Timeout.antt =====
-- Timeouts (src/ccevents-timeouts.c): time spans of seconds, milliseconds and microseconds.
pub mod Normal
pub mod Levels
pub mod Meaning
pub mod Start
mod Tests
use ccevents.Base.{ℕ, ◌≡◌, Bool, ◌&&◌, ◌||◌, not, if◌then◌else◌}
use ccevents.Base.Int.{ℤ, pos, negsuc, ltb_ℤ}
use ccevents.Outcome.{
  Outcome, ok, raise, timeval_overflow, timeout_invalid, timeout_overflow, ◌>>=◌, ◌>>◌, raise_if,
  long_max, long_min, add_long, sub_long, mul_long, div_long, mod_long,
}
use ccevents.Timeval
use ccevents.Timeval.{Timeval, timeval}

-- `ccevents_timeout_t`
pub record Timeout : Type 0 where
  pub seconds : ℤ
  pub milliseconds : ℤ
  pub microseconds : ℤ

abbrev pub timeout : ℤ → ℤ → ℤ → Timeout
timeout s m u = record { seconds = s; milliseconds = m; microseconds = u }

-- `CCEVENTS_TIMEOUT_NEVER`
abbrev pub timeout_never : Timeout
timeout_never = timeout (pos long_max) (pos 0) (pos 0)

-- `CCEVENTS_TIMEOUT_NOW`
abbrev pub timeout_now : Timeout
timeout_now = timeout (pos 0) (pos 0) (pos 0)

-- The body of `normalise_little_into_big`. What happens to a negative number of bigs depends on
-- `hugep`: `distribute` is that branch, and gives the new huge and the new bigs.
module _ {H : Type 0} (distribute : H → ℤ → Outcome (H × ℤ)) where
  -- The branch for negative littles.
  unfoldable pub borrow_bigs : H → (bigs littles : ℤ) → Outcome (H × ℤ × ℤ)
  borrow_bigs huge bigs littles = do
    let div = div_long littles 1000
    let mod_ = mod_long littles 1000
    less ← sub_long div (pos 1)
    bigs' ← add_long bigs less
    littles' ← add_long mod_ (pos 1000)
    (huge', bigs'') ← (if ltb_ℤ bigs' (pos 0) then distribute huge bigs' else ok (huge, bigs'))
    ok (huge', bigs'', littles')

  -- The branch for a thousand littles or more.
  unfoldable pub carry_bigs : H → (bigs littles : ℤ) → Outcome (H × ℤ × ℤ)
  carry_bigs huge bigs littles = do
    let div = div_long littles 1000
    room ← sub_long (pos long_max) bigs
    bigs' ← (if ltb_ℤ div room then add_long bigs div else raise timeout_overflow)
    ok (huge, bigs', mod_long littles 1000)

  unfoldable pub distribute_littles : H → (bigs littles : ℤ) → Outcome (H × ℤ × ℤ)
  distribute_littles huge bigs littles = do
    (huge', bigs', littles') ←
        (if ltb_ℤ littles (pos 0) then borrow_bigs huge bigs littles else ok (huge, bigs, littles))
    if ltb_ℤ (pos 999) littles'
        then carry_bigs huge' bigs' littles'
        else ok (huge', bigs', littles')

-- `normalise_little_into_big (there, NULL, …)`
unfoldable pub normalise_two : (bigs littles : ℤ) → Outcome (Unit {0} × ℤ × ℤ)
normalise_two bigs littles = distribute_littles (λ _ _. raise timeval_overflow) tt bigs littles

-- The call of itself that `normalise_little_into_big` makes.
unfoldable pub distribute_bigs : ℤ → ℤ → Outcome (ℤ × ℤ)
distribute_bigs huge bigs = do (_, huge', bigs') ← normalise_two huge bigs; ok (huge', bigs')

-- `normalise_little_into_big (there, hugep, …)` with a `hugep` that is not `NULL`.
unfoldable pub normalise_three : (huge bigs littles : ℤ) → Outcome (ℤ × ℤ × ℤ)
normalise_three huge bigs littles = distribute_littles distribute_bigs huge bigs littles

-- The range check of `ccevents_timeout_init`.
unfoldable pub is_out_of_range : (seconds milliseconds microseconds : ℤ) → Bool
is_out_of_range seconds milliseconds microseconds =
    ltb_ℤ seconds (pos 0)
    || ltb_ℤ (pos long_max) seconds
    || ltb_ℤ milliseconds long_min
    || ltb_ℤ (pos long_max) milliseconds
    || ltb_ℤ microseconds long_min
    || ltb_ℤ (pos long_max) microseconds

unfoldable pub init : (seconds milliseconds microseconds : ℤ) → Outcome Timeout
init seconds milliseconds microseconds = do
  raise_if (is_out_of_range seconds milliseconds microseconds) timeout_invalid
  (_, s, ms) ← normalise_two seconds milliseconds
  (s', ms', us) ← normalise_three s ms microseconds
  (_, s'', ms'') ← normalise_two s' ms'
  ok (timeout s'' ms'' us)

-- The `int` that `ccevents_timeout_compare` returns.
unfoldable pub compare : Timeout → Timeout → ℤ
compare a b =
    if ltb_ℤ a.seconds b.seconds
    then negsuc 0
    else if ltb_ℤ b.seconds a.seconds
    then pos 1
    else if ltb_ℤ a.milliseconds b.milliseconds
    then negsuc 0
    else if ltb_ℤ b.milliseconds a.milliseconds
    then pos 1
    else if ltb_ℤ a.microseconds b.microseconds
    then negsuc 0
    else if ltb_ℤ b.microseconds a.microseconds
    then pos 1
    else pos 0

unfoldable pub is_infinite : Timeout → Bool
is_infinite t = not (ltb_ℤ t.seconds (pos long_max)) && not (ltb_ℤ (pos long_max) t.seconds)

-- `now` is what `gettimeofday` gives.
unfoldable pub start : (now : Timeval) → Timeout → Outcome Timeval
unfolding is_infinite
start now to = if is_infinite to then ok (timeval (pos long_max) (pos 0)) else do
  millis ← mul_long 1000 to.milliseconds
  usec ← add_long millis to.microseconds
  Timeval.add now (timeval to.seconds usec)
