-- ===== src/Timeout/Normal.antt =====
-- `normalise_little_into_big` of src/ccevents-timeouts.c, branch by branch.
use ccevents.Base.{
  ℕ, suc, ◌+◌, ◌-◌, ◌/◌, ◌%◌, ◌≤◌, ◌≡◌, leb, ltb, if◌then◌else◌, arith, true, false,
}
use ccevents.Base.Int.{ℤ, pos, negsuc}
use ccevents.Outcome.{
  Outcome, ok, raise, Raised, timeout_overflow, ◌>>=◌, long_max, sub_long, add_long,
}
use ccevents.Timeout.{borrow_bigs, carry_bigs, distribute_littles}

module _ {H : Type 0} (distribute : H → ℤ → Outcome (H × ℤ)) (h : H) where
  carry_bigs-pos :
      (b l : ℕ)
      → b ≤ long_max
      → l ≤ long_max
      → carry_bigs distribute h (pos b) (pos l) ≡ (
          if ltb (l / 1000) (long_max - b)
          then ok (h, pos (b + l / 1000), pos (l % 1000))
          else raise timeout_overflow)
  unfolding carry_bigs sub_long add_long
  carry_bigs-pos b l hb hl = ground arith

  -- Enough bigs to pay for the negative littles.
  borrow_bigs-enough :
      (b k : ℕ)
      → b ≤ long_max
      → k ≤ long_max
      → ltb (suc k / 1000) b ≡ true
      → borrow_bigs distribute h (pos b) (negsuc k)
        ≡ ok (h, pos (b - suc k / 1000 - 1), pos (1000 - suc k % 1000))
  unfolding borrow_bigs sub_long add_long
  borrow_bigs-enough b k hb hk e = ground arith

  -- Otherwise the debt is left to `distribute`.
  borrow_bigs-debt :
      (b k : ℕ)
      → b ≤ long_max
      → k ≤ long_max
      → ltb (suc k / 1000) b ≡ false
      → borrow_bigs distribute h (pos b) (negsuc k) ≡ (
          distribute h (negsuc (suc k / 1000 - b)) >>= λ r.
          ok (r.0, r.1, pos (1000 - suc k % 1000)))
  unfolding borrow_bigs sub_long add_long
  borrow_bigs-debt b k hb hk e = ground arith

  pub distribute_littles-pos :
      (b l : ℕ)
      → b ≤ long_max
      → l ≤ long_max
      → distribute_littles distribute h (pos b) (pos l) ≡ (
          if leb l 999
          then ok (h, pos b, pos l)
          else if ltb (l / 1000) (long_max - b)
          then ok (h, pos (b + l / 1000), pos (l % 1000))
          else raise timeout_overflow)
  unfolding distribute_littles
  distribute_littles-pos b l hb hl = ground (arith, carry_bigs-pos b l hb hl)

  -- A loan of whole bigs is given back at once.
  pub distribute_littles-enough :
      (b k : ℕ)
      → b ≤ long_max
      → k ≤ long_max
      → ltb (suc k / 1000) b ≡ true
      → distribute_littles distribute h (pos b) (negsuc k) ≡ (
          if leb (suc k % 1000) 0
          then ok (h, pos (b - suc k / 1000), pos 0)
          else ok (h, pos (b - suc k / 1000 - 1), pos (1000 - suc k % 1000)))
  unfolding distribute_littles
  distribute_littles-enough b k hb hk e = ground (
    arith,
    borrow_bigs-enough b k hb hk e,
    carry_bigs-pos (b - suc k / 1000 - 1) (1000 - suc k % 1000),
  )

  pub distribute_littles-refused :
      (b k : ℕ) {c : Raised}
      → b ≤ long_max
      → k ≤ long_max
      → ltb (suc k / 1000) b ≡ false
      → distribute h (negsuc (suc k / 1000 - b)) ≡ raise c
      → distribute_littles distribute h (pos b) (negsuc k) ≡ raise c
  unfolding distribute_littles
  distribute_littles-refused b k hb hk e r = ground (arith, borrow_bigs-debt b k hb hk e)

  pub distribute_littles-debt :
      (b k b' : ℕ)
      → b ≤ long_max
      → k ≤ long_max
      → b' ≤ 999
      → ltb (suc k / 1000) b ≡ false
      → (g : H) → distribute h (negsuc (suc k / 1000 - b)) ≡ ok (g, pos b')
      → distribute_littles distribute h (pos b) (negsuc k) ≡ (
          if leb (suc k % 1000) 0
          then ok (g, pos (b' + 1), pos 0)
          else ok (g, pos b', pos (1000 - suc k % 1000)))
  unfolding distribute_littles carry_bigs sub_long add_long
  distribute_littles-debt b k b' hb hk hb' e g r = ground (arith, borrow_bigs-debt b k hb hk e)
