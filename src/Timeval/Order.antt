-- ===== src/Timeval/Order.antt =====
-- `ccevents_timeval_compare` and the expiration tests.
use ccevents.Base.{◌≡◌, ◌≢◌, ◌↔◌, true, arith, if◌then◌else◌}
use ccevents.Base.Int.{ℤ, pos, negsuc, ltb_ℤ, ◌<ℤ◌}
use ccevents.Outcome.{long_max}
use ccevents.Timeval.{Timeval, compare, is_expired_timeout}
use ccevents.Timeval.Meaning.{micros, IsNormalised}

-- -1, 0 or 1, as the first time is before, at or after the second.
abbrev pub sign_of_difference : ℤ → ℤ → ℤ
sign_of_difference a b = if ltb_ℤ a b then negsuc 0 else if ltb_ℤ b a then pos 1 else pos 0

-- Comparing normalised times is comparing their numbers of microseconds.
pub compare-micros :
    (a b : Timeval)
    → IsNormalised a
    → IsNormalised b
    → compare a b ≡ sign_of_difference (micros a) (micros b)
unfolding compare micros
compare-micros a b ha hb = ground arith

-- At a normalised current time, a normalised expiration time has passed exactly if its seconds are
-- not `LONG_MAX` and the current time is later.
pub is_expired_timeout_iff :
    (now e : Timeval)
    → IsNormalised now
    → IsNormalised e
    → (is_expired_timeout now e ≡ true) ↔ ((e.tv_sec ≢ pos long_max) × (micros e <ℤ micros now))
unfolding is_expired_timeout micros
is_expired_timeout_iff now e hn he = ground arith
