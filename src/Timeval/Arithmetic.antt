-- ===== src/Timeval/Arithmetic.antt =====
-- `ccevents_timeval_add` and `ccevents_timeval_sub` of src/ccevents-timevals.c.
use ccevents.Base.{
  ℕ, ◌+◌, ◌-◌, ◌*◌, ◌/◌, ◌%◌, ◌≤◌, ◌≡◌, leb, ltb, if◌then◌else◌, arith, Bool-cases, inl, inr,
}
use ccevents.Base.Int.{pos, sub_ℕ}
use ccevents.Outcome.{
  Outcome, ok, raise, timeval_invalid, timeval_overflow, long_max, sub_long-pos, add_long-pos,
  sub_long_lem,
}
use ccevents.Timeval.{Timeval, timeval, init, add, sub, assert_normalised}
use ccevents.Timeval.Normal.{normalise-pos, normalise-negsuc}
use ccevents.Timeval.Meaning.{of_micros}

-- The sum, as far as `LONG_MAX` seconds, which stands for an infinite time.
abbrev pub bounded_sum : ℕ → ℕ → Outcome Timeval
bounded_sum m n =
    if ltb ((m + n) / 1000000) long_max then ok (of_micros (m + n)) else raise timeval_overflow

-- The difference, where it is not negative; the two kinds of error tell by how much.
abbrev pub difference : ℕ → ℕ → Outcome Timeval
difference m n =
    if leb n m
    then ok (of_micros (m - n))
    else if ltb (m / 1000000) (n / 1000000)
    then raise timeval_invalid
    else raise timeval_overflow

assert_normalised-pos :
    (s u : ℕ) → s ≤ long_max → u ≤ 999999 → assert_normalised (timeval (pos s) (pos u)) ≡ ok tt
unfolding assert_normalised
assert_normalised-pos s u hs hu = ground arith

module _ (s u s' u' : ℕ) (hs : s ≤ long_max) (hu : u ≤ 999999) (hs' : s' ≤ long_max)
    (hu' : u' ≤ 999999) where
  -- On normalised times `ccevents_timeval_add` is the sum of the microseconds, and an overflow
  -- exactly from `LONG_MAX` seconds on.
  pub add_lem :
      add (timeval (pos s) (pos u)) (timeval (pos s') (pos u'))
      ≡ bounded_sum (s * 1000000 + u) (s' * 1000000 + u')
  unfolding add
  add_lem = ground (
    arith,
    assert_normalised-pos s u hs hu,
    assert_normalised-pos s' u' hs' hu',
    sub_long-pos long_max s,
    add_long-pos s s',
    add_long-pos u u',
    sub_long-pos long_max (s + s'),
    add_long-pos (s + s') ((u + u') / 1000000),
  )

  -- What is normalised after the fieldwise subtraction.
  init-sub_ℕ : init (sub_ℕ s s') (sub_ℕ u u') ≡ difference (s * 1000000 + u) (s' * 1000000 + u')
  unfolding init
  init-sub_ℕ = elim (Bool-cases (leb s' s)) [
    | inl e ↦ elim (Bool-cases (leb u' u)) [
      | inl f ↦ rw (e, f) (ground (arith, normalise-pos (s - s') (u - u')))
      | inr f ↦ rw (e, f) (ground (arith, normalise-negsuc (s - s') (u' - u - 1)))
    ]
    | inr e ↦ rw e (ground arith)
  ]

  -- On normalised times `ccevents_timeval_sub` is the difference of the microseconds, and an error
  -- exactly where it is negative: an invalid time if the seconds are fewer, an overflow if only the
  -- microseconds are.
  pub sub_lem :
      sub (timeval (pos s) (pos u)) (timeval (pos s') (pos u'))
      ≡ difference (s * 1000000 + u) (s' * 1000000 + u')
  unfolding sub
  sub_lem =
      rw
        (
          assert_normalised-pos s u hs hu,
          assert_normalised-pos s' u' hs' hu',
          sub_long_lem s s' hs hs',
          sub_long_lem u u' (omega arith) (omega arith),
        )
        init-sub_ℕ

-- If the sum of two normalised times raises nothing, subtracting the second from it gives the first
-- back.
pub sub-add :
    (s u s' u' : ℕ) {r : Timeval}
    → s ≤ long_max
    → u ≤ 999999
    → s' ≤ long_max
    → u' ≤ 999999
    → add (timeval (pos s) (pos u)) (timeval (pos s') (pos u')) ≡ ok r
    → sub r (timeval (pos s') (pos u')) ≡ ok (timeval (pos s) (pos u))
sub-add s u s' u' hs hu hs' hu' e =
    let m : ℕ = s * 1000000 + u + (s' * 1000000 + u') in
    ground (arith, add_lem s u s' u' hs hu hs' hu', sub_lem (m / 1000000) (m % 1000000) s' u')
