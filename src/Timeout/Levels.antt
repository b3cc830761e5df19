-- ===== src/Timeout/Levels.antt =====
-- The two uses of `normalise_little_into_big` in src/ccevents-timeouts.c: two levels, with `NULL` for
-- the huges, and three.
use ccevents.Base.{
  ℕ, suc, ◌+◌, ◌-◌, ◌/◌, ◌%◌, ◌≤◌, ◌≡◌, leb, ltb, if◌then◌else◌, arith, true, false,
}
use ccevents.Base.Int.{pos, negsuc}
use ccevents.Outcome.{ok, raise, timeval_overflow, timeout_overflow, long_max}
use ccevents.Timeout.{normalise_two, distribute_bigs, normalise_three}
use ccevents.Timeout.Normal.{
  distribute_littles-pos, distribute_littles-enough, distribute_littles-refused,
  distribute_littles-debt,
}

pub normalise_two-pos :
    (b l : ℕ)
    → b ≤ long_max
    → l ≤ long_max
    → normalise_two (pos b) (pos l) ≡ (
        if leb l 999
        then ok (tt, pos b, pos l)
        else if ltb (l / 1000) (long_max - b)
        then ok (tt, pos (b + l / 1000), pos (l % 1000))
        else raise timeout_overflow)
unfolding normalise_two
normalise_two-pos b l hb hl = distribute_littles-pos _ tt b l hb hl

pub normalise_two-enough :
    (b k : ℕ)
    → b ≤ long_max
    → k ≤ long_max
    → ltb (suc k / 1000) b ≡ true
    → normalise_two (pos b) (negsuc k) ≡ (
        if leb (suc k % 1000) 0
        then ok (tt, pos (b - suc k / 1000), pos 0)
        else ok (tt, pos (b - suc k / 1000 - 1), pos (1000 - suc k % 1000)))
unfolding normalise_two
normalise_two-enough b k hb hk e = distribute_littles-enough _ tt b k hb hk e

pub normalise_two-refused :
    (b k : ℕ)
    → b ≤ long_max
    → k ≤ long_max
    → ltb (suc k / 1000) b ≡ false
    → normalise_two (pos b) (negsuc k) ≡ raise timeval_overflow
unfolding normalise_two
normalise_two-refused b k hb hk e = distribute_littles-refused _ tt b k hb hk e (ground arith)

pub normalise_three-pos :
    (h b l : ℕ)
    → b ≤ long_max
    → l ≤ long_max
    → normalise_three (pos h) (pos b) (pos l) ≡ (
        if leb l 999
        then ok (pos h, pos b, pos l)
        else if ltb (l / 1000) (long_max - b)
        then ok (pos h, pos (b + l / 1000), pos (l % 1000))
        else raise timeout_overflow)
unfolding normalise_three
normalise_three-pos h b l hb hl = distribute_littles-pos _ (pos h) b l hb hl

pub normalise_three-enough :
    (h b k : ℕ)
    → b ≤ long_max
    → k ≤ long_max
    → ltb (suc k / 1000) b ≡ true
    → normalise_three (pos h) (pos b) (negsuc k) ≡ (
        if leb (suc k % 1000) 0
        then ok (pos h, pos (b - suc k / 1000), pos 0)
        else ok (pos h, pos (b - suc k / 1000 - 1), pos (1000 - suc k % 1000)))
unfolding normalise_three
normalise_three-enough h b k hb hk e = distribute_littles-enough _ (pos h) b k hb hk e

-- The debt of bigs in whole huges is more than there is.
pub normalise_three-refused :
    (h b k : ℕ)
    → h ≤ long_max
    → b ≤ 999
    → k ≤ long_max
    → ltb (suc k / 1000) b ≡ false
    → ltb (suc (suc k / 1000 - b) / 1000) h ≡ false
    → normalise_three (pos h) (pos b) (negsuc k) ≡ raise timeval_overflow
unfolding normalise_three distribute_bigs
normalise_three-refused h b k hh hb hk e f =
    distribute_littles-refused _ (pos h) b k (omega arith) hk e
      (rw (normalise_two-refused h (suc k / 1000 - b) hh (omega arith) f))

-- What the huges pay of a debt of `suc d` bigs, and the bigs that are left over.
abbrev pub paid_huges : ℕ → ℕ → ℕ
paid_huges h d = if leb (suc d % 1000) 0 then h - suc d / 1000 else h - suc d / 1000 - 1

abbrev pub left_bigs : ℕ → ℕ
left_bigs d = if leb (suc d % 1000) 0 then 0 else 1000 - suc d % 1000

distribute_bigs-enough :
    (h d : ℕ)
    → h ≤ long_max
    → d ≤ long_max
    → ltb (suc d / 1000) h ≡ true
    → distribute_bigs (pos h) (negsuc d) ≡ ok (pos (paid_huges h d), pos (left_bigs d))
unfolding distribute_bigs
distribute_bigs-enough h d hh hd f = ground (arith, normalise_two-enough h d hh hd f)

pub normalise_three-debt :
    (h b k : ℕ)
    → h ≤ long_max
    → b ≤ 999
    → k ≤ long_max
    → ltb (suc k / 1000) b ≡ false
    → ltb (suc (suc k / 1000 - b) / 1000) h ≡ true
    → normalise_three (pos h) (pos b) (negsuc k) ≡ (
        let d = suc k / 1000 - b in
        if leb (suc k % 1000) 0
        then ok (pos (paid_huges h d), pos (left_bigs d + 1), pos 0)
        else ok (pos (paid_huges h d), pos (left_bigs d), pos (1000 - suc k % 1000)))
unfolding normalise_three
normalise_three-debt h b k hh hb hk e f =
    let d = suc k / 1000 - b in
    distribute_littles-debt _ (pos h) b k (left_bigs d) (omega arith) hk (ground arith) e _
      (distribute_bigs-enough h d hh (omega arith) f)
