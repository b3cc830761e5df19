-- ===== src/Timeval/Tests.antt =====
-- Runs of src/ccevents-timevals.c, and its theorems at concrete times.
use ccevents.Base.{◌≡◌, refl, arith}
use ccevents.Base.Int.{pos, negsuc}
use ccevents.Outcome.{ok, raise, timeval_invalid, timeval_overflow, assert_failed, long_max, Ends}
use ccevents.Timeval.{
  timeval, timeval_never, normalise, init, add, sub, borrow_seconds, carry_seconds,
  assert_normalised,
}
use ccevents.Outcome.{add_long, sub_long}
use ccevents.Timeval.Meaning.{
  micros, of_micros, IsNormalised, normalise-Ends, normalise_complete, normalise_not_positive,
}
use ccevents.Timeval.Arithmetic.{add_lem, sub_lem, sub-add, bounded_sum, difference}

carries : init (pos 2) (pos 3500000) ≡ ok (timeval (pos 5) (pos 500000))
unfolding init normalise carry_seconds add_long sub_long
carries = refl

borrows : init (pos 2) (negsuc 499999) ≡ ok (timeval (pos 1) (pos 500000))
unfolding init normalise borrow_seconds add_long sub_long
borrows = refl

-- The constant that never expires is not a normalised time.
never_is_not_normalised : add timeval_never (timeval (pos 0) (pos 0)) ≡ assert_failed
unfolding add assert_normalised
never_is_not_normalised = refl

subtracts_to_nothing :
    sub (timeval (pos 3) (pos 4)) (timeval (pos 5) (pos 0)) ≡ raise timeval_invalid
unfolding sub init assert_normalised sub_long
subtracts_to_nothing = refl

normalise-Ends_example :
    Ends
      (λ r. IsNormalised r × (micros r ≡ micros (timeval (pos long_max) (negsuc long_max))))
      (normalise (timeval (pos long_max) (negsuc long_max)))
normalise-Ends_example = normalise-Ends (pos long_max) (negsuc long_max) (omega arith)

normalise_complete_example : normalise (timeval (pos 2) (negsuc 499999)) ≡ ok (of_micros 1500000)
unfolding micros
normalise_complete_example =
    normalise_complete (pos 2) (negsuc 499999) 1500000 (omega arith) (omega arith) refl
      (omega arith) (omega arith)

normalise_not_positive_example :
    normalise (timeval (pos 1) (negsuc 999999)) ≡ raise timeval_overflow
unfolding micros
normalise_not_positive_example =
    normalise_not_positive (pos 1) (negsuc 999999) (omega arith) (omega arith) (omega arith)
      (omega arith)

add_lem_example :
    add (timeval (pos 1) (pos 700000)) (timeval (pos 2) (pos 400000)) ≡ bounded_sum 1700000 2400000
add_lem_example = add_lem 1 700000 2 400000 (omega arith) (omega arith) (omega arith) (omega arith)

sub_lem_example :
    sub (timeval (pos 3) (pos 100000)) (timeval (pos 1) (pos 400000)) ≡ difference 3100000 1400000
sub_lem_example = sub_lem 3 100000 1 400000 (omega arith) (omega arith) (omega arith) (omega arith)

sum_of_two :
    add (timeval (pos 1) (pos 700000)) (timeval (pos 2) (pos 400000))
    ≡ ok (timeval (pos 4) (pos 100000))
unfolding add assert_normalised add_long sub_long
sum_of_two = refl

sub-add_example :
    sub (timeval (pos 4) (pos 100000)) (timeval (pos 2) (pos 400000))
    ≡ ok (timeval (pos 1) (pos 700000))
sub-add_example =
    sub-add 1 700000 2 400000 (omega arith) (omega arith) (omega arith) (omega arith) sum_of_two

two_seconds-IsNormalised : IsNormalised (timeval (pos 2) (pos 5))
two_seconds-IsNormalised = omega arith

three_seconds-IsNormalised : IsNormalised (timeval (pos 3) (pos 1))
three_seconds-IsNormalised = omega arith
