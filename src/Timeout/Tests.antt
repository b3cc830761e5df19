-- ===== src/Timeout/Tests.antt =====
-- Runs of src/ccevents-timeouts.c, and its theorems at concrete timeouts.
use ccevents.Base.{◌+◌, ◌*◌, ◌<◌, ◌≡◌, refl, ◌↔◌, true, arith}
use ccevents.Base.Int.{pos, negsuc}
use ccevents.Outcome.{ok, raise, timeval_overflow, Ends, add_long, sub_long, mul_long}
use ccevents.Timeval.{Timeval, timeval, is_expired_timeout}
use ccevents.Timeval
use ccevents.Timeout.{
  timeout, timeout_never, init, start, is_infinite, is_out_of_range, normalise_two, normalise_three,
  distribute_littles, borrow_bigs, carry_bigs, distribute_bigs,
}
use ccevents.Timeout.Meaning.{
  span, of_span, IsNormalised, init-Ends, init_of_nonnegative, init_of_positive_refused,
}
use ccevents.Timeout.Start.{is_expired-start}

-- Milliseconds and microseconds are taken from the seconds.
borrows_twice : init (pos 2) (negsuc 1499) (negsuc 499) ≡ ok (timeout (pos 0) (pos 499) (pos 500))
unfolding init is_out_of_range normalise_two normalise_three distribute_littles borrow_bigs
    carry_bigs distribute_bigs add_long sub_long
borrows_twice = refl

init-Ends_example :
    Ends
      (λ t. IsNormalised t × (span t ≡ span (timeout (pos 2) (negsuc 1499) (negsuc 499))))
      (init (pos 2) (negsuc 1499) (negsuc 499))
init-Ends_example =
    init-Ends (pos 2) (negsuc 1499) (negsuc 499) (omega arith) (omega arith) (omega arith)

init_of_nonnegative_example : init (pos 0) (pos 1001) (pos 2500) ≡ ok (of_span 1003500)
init_of_nonnegative_example =
    init_of_nonnegative 0 1001 2500 (omega arith) (omega arith) (omega arith) (omega arith)

init_of_positive_refused_example :
    (span (timeout (pos 1) (pos 0) (negsuc 999997)) ≡ pos 2)
    × (init (pos 1) (pos 0) (negsuc 999997) ≡ raise timeval_overflow)
init_of_positive_refused_example =
    init_of_positive_refused 1 998 (omega arith) (omega arith) (omega arith) (omega arith)
      (omega arith)

started :
    start (timeval (pos 100) (pos 999000)) (timeout (pos 1) (pos 2) (pos 3))
    ≡ ok (timeval (pos 102) (pos 1003))
unfolding start is_infinite mul_long add_long sub_long Timeval.add Timeval.assert_normalised
started = refl

is_expired-start_example :
    (is_expired_timeout (timeval (pos 102) (pos 1004)) (timeval (pos 102) (pos 1003)) ≡ true)
    ↔ (100 * 1000000 + 999000 + (1 * 1000000 + (1000 * 2 + 3)) < 102 * 1000000 + 1004)
is_expired-start_example =
    is_expired-start 100 999000 1 2 3 (omega arith) (omega arith) (omega arith) (omega arith) 102
      1004 (omega arith) (omega arith) (omega arith) started

never-is_infinite : is_infinite timeout_never ≡ true
unfolding is_infinite
never-is_infinite = refl
