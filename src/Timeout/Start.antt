-- ===== src/Timeout/Start.antt =====
-- `ccevents_timeout_start` and `ccevents_timeout_compare` of src/ccevents-timeouts.c, against the
-- expiration test of src/ccevents-timevals.c.
use ccevents.Base.{ℕ, ◌+◌, ◌*◌, ◌≤◌, ◌<◌, ◌≡◌, ◌↔◌, true, false, ◌∙◌, arith}
use ccevents.Base.Int.{pos, pos_part}
use ccevents.Outcome.{ok, long_max, mul_long, add_long-pos}
use mathlib.Core.Path.{ap₂}
use ccevents.Timeval.{Timeval, timeval, is_expired_timeout}
use ccevents.Timeval.Arithmetic.{bounded_sum, add_lem}
use ccevents.Timeval.Order.{sign_of_difference}
use ccevents.Timeout.{Timeout, timeout, compare, is_infinite, start}
use ccevents.Timeout.Meaning.{span, IsNormalised}

compare-pos :
    (s m u s' m' u' : ℕ)
    → m ≤ 999
    → u ≤ 999
    → m' ≤ 999
    → u' ≤ 999
    → compare (timeout (pos s) (pos m) (pos u)) (timeout (pos s') (pos m') (pos u'))
      ≡ sign_of_difference
          (pos (s * 1000000 + (1000 * m + u)))
          (pos (s' * 1000000 + (1000 * m' + u')))
unfolding compare
compare-pos s m u s' m' u' hm hu hm' hu' = ground arith

timeout_of_parts :
    (t : Timeout)
    → IsNormalised t
    → t
      ≡ timeout
          (pos (pos_part t.seconds))
          (pos (pos_part t.milliseconds))
          (pos (pos_part t.microseconds))
timeout_of_parts t h = ground arith

span_of_parts :
    (t : Timeout)
    → IsNormalised t
    → span t
      ≡ pos (
          pos_part t.seconds * 1000000 + (1000 * pos_part t.milliseconds + pos_part t.microseconds))
unfolding span
span_of_parts t h = ground arith

-- Comparing normalised timeouts is comparing their time spans.
pub compare-span :
    (a b : Timeout)
    → IsNormalised a
    → IsNormalised b
    → compare a b ≡ sign_of_difference (span a) (span b)
compare-span a b ha hb =
    rw (span_of_parts a ha, span_of_parts b hb)
      (ap₂ compare (timeout_of_parts a ha) (timeout_of_parts b hb)
        ∙ compare-pos (pos_part a.seconds) (pos_part a.milliseconds) (pos_part a.microseconds)
            (pos_part b.seconds) (pos_part b.milliseconds) (pos_part b.microseconds) (ground arith)
            (ground arith) (ground arith) (ground arith))

mul_long-1000 : (m : ℕ) → m ≤ 999 → mul_long 1000 (pos m) ≡ ok (pos (1000 * m))
unfolding mul_long
mul_long-1000 m h = ground arith

module _ (ns nu s m u : ℕ) (hns : ns ≤ long_max) (hnu : nu ≤ 999999) (hm : m ≤ 999)
    (hu : u ≤ 999) where
  -- A finite timeout expires at the sum of the current time and the span, if there is one.
  pub start_finite :
      s < long_max
      → start (timeval (pos ns) (pos nu)) (timeout (pos s) (pos m) (pos u))
        ≡ bounded_sum (ns * 1000000 + nu) (s * 1000000 + (1000 * m + u))
  unfolding start
  start_finite hs =
      ground (
        arith,
        mul_long-1000 m hm,
        add_long-pos (1000 * m) u,
        add_lem ns nu s (1000 * m + u) hns hnu,
      )

  -- If a finite normalised timeout was started at a normalised time, and the start raised nothing,
  -- it has expired at a later reading of the clock exactly when more than its span has passed.
  pub is_expired-start :
      (ls lu : ℕ) {e : Timeval}
      → s < long_max
      → ls ≤ long_max
      → lu ≤ 999999
      → start (timeval (pos ns) (pos nu)) (timeout (pos s) (pos m) (pos u)) ≡ ok e
      → (is_expired_timeout (timeval (pos ls) (pos lu)) e ≡ true)
        ↔ (ns * 1000000 + nu + (s * 1000000 + (1000 * m + u)) < ls * 1000000 + lu)
  unfolding is_expired_timeout
  is_expired-start ls lu hs hls hlu h = ground (arith, start_finite hs)

-- An infinite timeout can be started at any time, and has expired at no time.
pub is_expired-start_infinite :
    (now later : Timeval) (to : Timeout)
    → is_infinite to ≡ true
    → (e : Timeval) × (start now to ≡ ok e) × (is_expired_timeout later e ≡ false)
unfolding start is_expired_timeout
is_expired-start_infinite now later to h =
    (timeval (pos long_max) (pos 0), ground arith, ground arith)
