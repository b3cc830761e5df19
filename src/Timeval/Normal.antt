-- ===== src/Timeval/Normal.antt =====
-- `ccevents_timeval_normalise` and `ccevents_timeval_init`.
use ccevents.Base.{ℕ, suc, ◌+◌, ◌-◌, ◌/◌, ◌%◌, ◌≤◌, ◌≡◌, leb, ltb, if◌then◌else◌, arith}
use ccevents.Base.Int.{pos, negsuc}
use ccevents.Outcome.{ok, raise, timeval_overflow, long_max}
use ccevents.Timeval.{timeval, borrow_seconds, carry_seconds, normalise}

pub normalise-pos :
    (s u : ℕ)
    → s ≤ long_max
    → u ≤ long_max
    → normalise (timeval (pos s) (pos u)) ≡ (
        if leb u 999999
        then ok (timeval (pos s) (pos u))
        else if ltb (u / 1000000) (long_max - s)
        then ok (timeval (pos (s + u / 1000000)) (pos (u % 1000000)))
        else raise timeval_overflow)
unfolding normalise carry_seconds
normalise-pos s u hs hu = ground arith

-- With `suc k` microseconds to take away, the seconds fall by one more than the whole seconds in it.
borrow_seconds-negsuc :
    (s k : ℕ)
    → s ≤ long_max
    → k ≤ long_max
    → borrow_seconds (timeval (pos s) (negsuc k)) ≡ (
        if ltb (suc k / 1000000) s
        then ok (timeval (pos (s - suc k / 1000000 - 1)) (pos (1000000 - suc k % 1000000)))
        else raise timeval_overflow)
unfolding borrow_seconds
borrow_seconds-negsuc s k hs hk = ground arith

carry_seconds-pos :
    (s u : ℕ)
    → s ≤ long_max
    → u ≤ long_max
    → carry_seconds (timeval (pos s) (pos u)) ≡ (
        if ltb (u / 1000000) (long_max - s)
        then ok (timeval (pos (s + u / 1000000)) (pos (u % 1000000)))
        else raise timeval_overflow)
unfolding carry_seconds
carry_seconds-pos s u hs hu = ground arith

pub normalise-negsuc :
    (s k : ℕ)
    → s ≤ long_max
    → k ≤ long_max
    → normalise (timeval (pos s) (negsuc k)) ≡ (
        if ltb (suc k / 1000000) s
        then (if leb (suc k % 1000000) 0
            then ok (timeval (pos (s - suc k / 1000000)) (pos 0))
            else ok (timeval (pos (s - suc k / 1000000 - 1)) (pos (1000000 - suc k % 1000000))))
        else raise timeval_overflow)
unfolding normalise
normalise-negsuc s k hs hk = ground (
  arith,
  borrow_seconds-negsuc s k hs hk,
  carry_seconds-pos (s - suc k / 1000000 - 1) (1000000 - suc k % 1000000),
)
