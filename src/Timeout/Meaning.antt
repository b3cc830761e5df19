-- ===== src/Timeout/Meaning.antt =====
-- What a timeout of src/ccevents-timeouts.c stands for, a number of microseconds, and what
-- `ccevents_timeout_init` makes of one.
use ccevents.Base.{
  ℕ, suc, ◌+◌, ◌-◌, ◌*◌, ◌/◌, ◌%◌, ◌≤◌, ◌<◌, ◌≡◌, false, ltb, Bool-cases, inl, inr, arith,
}
use ccevents.Base.Int.{ℤ, pos, negsuc, pos_part, neg_part, ◌+ℤ◌, ◌*ℤ◌, ◌≤ℤ◌, ◌<ℤ◌}
use ccevents.Outcome.{
  ok, raise, timeval_overflow, timeout_invalid, long_max, IsLong, Ends, Ends->>=,
}
use ccevents.Timeout.{Timeout, timeout, normalise_two, normalise_three, is_out_of_range, init}
use ccevents.Timeout.Levels.{
  normalise_two-pos, normalise_two-enough, normalise_two-refused, normalise_three-pos,
  normalise_three-enough, normalise_three-refused, normalise_three-debt,
}

unfoldable pub span : Timeout → ℤ
unfolding ◌+ℤ◌ ◌*ℤ◌
span t = 1000000 *ℤ t.seconds +ℤ (1000 *ℤ t.milliseconds +ℤ t.microseconds)

-- What the header promises of the fields after normalisation.
pub record IsNormalised (t : Timeout) : Type 0 where
  pub seconds_low : pos 0 ≤ℤ t.seconds
  pub seconds_high : t.seconds ≤ℤ pos long_max
  pub milliseconds_low : pos 0 ≤ℤ t.milliseconds
  pub milliseconds_high : t.milliseconds ≤ℤ pos 999
  pub microseconds_low : pos 0 ≤ℤ t.microseconds
  pub microseconds_high : t.microseconds ≤ℤ pos 999

-- A count that a step has settled.
abbrev InRange : ℕ → ℤ → Type 0
InRange n z = (neg_part z ≡ 0) × (pos_part z ≤ n)

InRange-IsLong : (z : ℤ) → InRange long_max z → IsLong z
InRange-IsLong (pos n) h = h.1
InRange-IsLong (negsuc n) h = absurd (omega arith)

-- The littles are in range and the value is kept.
abbrev Settled : (b l b' l' : ℤ) → Type 0
Settled b l b' l' =
    InRange long_max b'
    × InRange 999 l'
    × (1000 * pos_part b' + pos_part l' + neg_part l ≡ 1000 * pos_part b + pos_part l)

normalise_two-Ends :
    (b l : ℤ) → InRange long_max b → IsLong l → Ends (λ r. Settled b l r.1 r.2) (normalise_two b l)
normalise_two-Ends (pos b) (pos l) hb hl = ground (arith, normalise_two-pos b l hb.1 hl)
normalise_two-Ends (pos b) (negsuc k) hb hl = elim (Bool-cases (ltb (suc k / 1000) b)) [
  | inl e ↦ ground (arith, normalise_two-enough b k hb.1 hl e)
  | inr e ↦ rw (normalise_two-refused b k hb.1 hl e) tt
]
normalise_two-Ends (negsuc b) l hb hl = absurd (omega arith)

abbrev SettledThree : (h b l h' b' l' : ℤ) → Type 0
SettledThree h b l h' b' l' =
    InRange long_max h'
    × InRange long_max b'
    × InRange 999 l'
    × (1000000 * pos_part h' + 1000 * pos_part b' + pos_part l' + neg_part l
        ≡ 1000000 * pos_part h + 1000 * pos_part b + pos_part l)

normalise_three-Ends :
    (h b l : ℤ)
    → InRange long_max h
    → InRange 999 b
    → IsLong l
    → Ends (λ r. SettledThree h b l r.0 r.1 r.2) (normalise_three h b l)
normalise_three-Ends (pos h) (pos b) (pos l) hh hb hl =
    ground (arith, normalise_three-pos h b l (omega arith) hl)
normalise_three-Ends (pos h) (pos b) (negsuc k) hh hb hl =
    elim (Bool-cases (ltb (suc k / 1000) b)) [
      | inl e ↦ ground (arith, normalise_three-enough h b k (omega arith) hl e)
      | inr e ↦ elim (Bool-cases (ltb (suc (suc k / 1000 - b) / 1000) h)) [
        | inl f ↦ ground (arith, normalise_three-debt h b k hh.1 hb.1 hl e f)
        | inr f ↦ rw (normalise_three-refused h b k hh.1 hb.1 hl e f) tt
      ]
    ]
normalise_three-Ends (pos h) (negsuc b) l hh hb hl = absurd (omega arith)
normalise_three-Ends (negsuc h) b l hh hb hl = absurd (omega arith)

in_range : (s m u : ℤ) → pos 0 ≤ℤ s → IsLong s → IsLong m → IsLong u → is_out_of_range s m u ≡ false
unfolding is_out_of_range
in_range s m u p hs hm hu = ground arith

-- Negative seconds are refused.
pub init-negative : (s m u : ℤ) → s <ℤ pos 0 → init s m u ≡ raise timeout_invalid
unfolding init is_out_of_range
init-negative s m u p = ground arith

-- The three steps keep the value, and leave every count in its range.
init_settles :
    (s m u : ℤ)
    → pos 0 ≤ℤ s
    → IsLong s
    → IsLong m
    → IsLong u
    → Ends (λ t. IsNormalised t × (span t ≡ span (timeout s m u))) (init s m u)
unfolding init span
init_settles s m u p hs hm hu = rw (in_range s m u p hs hm hu) (
    Ends->>= (λ r. Settled s m r.1 r.2) _ (normalise_two s m) _
      (normalise_two-Ends s m (ground arith) hm)
      λ r1 e1.
        Ends->>= (λ r. SettledThree r1.1 r1.2 u r.0 r.1 r.2) _ (normalise_three r1.1 r1.2 u) _
          (normalise_three-Ends r1.1 r1.2 u e1.0 e1.1 hu)
          λ r2 e2.
            Ends->>= (λ r. Settled r2.0 r2.1 r.1 r.2) _ (normalise_two r2.0 r2.1) _
              (normalise_two-Ends r2.0 r2.1 e2.0 (InRange-IsLong r2.1 e2.1)) λ r3 e3. ground arith)

-- For any three counts of the C type `ccevents_timeout_init` overflows no `long`, and a timeout
-- that it returns is normalised and stands for the same number of microseconds.
pub init-Ends :
    (s m u : ℤ)
    → IsLong s
    → IsLong m
    → IsLong u
    → Ends (λ t. IsNormalised t × (span t ≡ span (timeout s m u))) (init s m u)
init-Ends (pos s) m u hs hm hu = init_settles (pos s) m u (omega arith) hs hm hu
init-Ends (negsuc s) m u hs hm hu = rw (init-negative (negsuc s) m u (omega arith)) tt

-- The canonical timeout of a number of microseconds.
abbrev pub of_span : ℕ → Timeout
of_span n = timeout (pos (n / 1000000)) (pos (n / 1000 % 1000)) (pos (n % 1000))

-- Counts of the C type that are not negative and stand for less than `LONG_MAX` seconds are
-- accepted, and their timeout is the canonical one.
pub init_of_nonnegative :
    (s m u : ℕ)
    → s ≤ long_max
    → m ≤ long_max
    → u ≤ long_max
    → (s * 1000000 + m * 1000 + u) / 1000000 < long_max
    → init (pos s) (pos m) (pos u) ≡ ok (of_span (s * 1000000 + m * 1000 + u))
unfolding init
init_of_nonnegative s m u hs hm hu l =
    rw (in_range (pos s) (pos m) (pos u) (omega arith) hs hm hu) (
      ground (
        arith,
        normalise_two-pos s m hs hm,
        normalise_three-pos (s + m / 1000) (m % 1000) u,
        normalise_two-pos (s + m / 1000) (m % 1000 + u / 1000),
      ))

-- Some seconds less all of their microseconds but 1000 - `r`, for an `r` between 1 and 999 and
-- counts of the C type, are a positive time span, and `ccevents_timeout_init` raises
-- `timeval_overflow` for it.
pub init_of_positive_refused :
    (s r : ℕ)
    → 0 < s
    → s ≤ long_max
    → 0 < r
    → r < 1000
    → s * 1000000 ≤ long_max
    → (span (timeout (pos s) (pos 0) (negsuc (s * 1000000 - 1001 + r))) ≡ pos (1000 - r))
      × (init (pos s) (pos 0) (negsuc (s * 1000000 - 1001 + r)) ≡ raise timeval_overflow)
unfolding init span
init_of_positive_refused s r hs h hr hr' l = (
  ground arith,
  rw
      (in_range (pos s) (pos 0) (negsuc (s * 1000000 - 1001 + r)) (omega arith) h (omega arith)
        (omega arith))
      (ground
        (arith, normalise_two-pos s 0 h, normalise_three-refused s 0 (s * 1000000 - 1001 + r))),
)
