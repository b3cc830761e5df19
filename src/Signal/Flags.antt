-- ===== src/Signal/Flags.antt =====
-- The flags of src/ccevents-sources-signal.c: which signals are reported as arrived, and for how long.
use ccevents.Base.{
  ℕ, suc, ◌<◌, ◌==◌, ◌≡◌, refl, ◌≢◌, if◌then◌else◌, Bool, true, false, not, ◌||◌, List, [], ◌∷◌,
  has, arith, ltb_of_<, ==_of_ne, ◌&&◌, Bool-cases, inl, inr,
}
use ccevents.Memory.{update}
use ccevents.World.{World, Disposition, unset, ignored, bub_handler, done, ◌>>◌, Env, Returned}
use ccevents.Signal.{
  set_arrived, signal_bub_handler, on_delivery, block_all, deliver_all, unblock_all, bub_acquire,
  bub_delivered,
}

-- Every signal of the list has a flag.
abbrev pub Known : ℕ → List ℕ → Type 0
Known n [] = Unit {0}
Known n (s ∷ ss) = (s < n) × Known n ss

abbrev pub is_handled : Disposition → Bool
is_handled unset = false
is_handled ignored = false
is_handled bub_handler = true

-- The flags after each signal of the list was delivered.
abbrev pub flagged : (ℕ → Disposition) → (ℕ → ℕ) → List ℕ → ℕ → ℕ
flagged d f [] = f
flagged d f (s ∷ ss) = flagged d (if is_handled (d s) then update f s 1 else f) ss

abbrev pub has_flag : World → ℕ → Bool
has_flag w signum = not (w.arrived_signals signum == 0)

-- Whether the next unblocking delivers the signal to the handler.
abbrev pub arrives : Env → World → ℕ → Bool
arrives env w signum =
    has signum (env.delivered_by_unblock w.unblocks) && is_handled (w.dispositions signum)

module _ (env : Env) where
  pub set_arrived-ok :
      (s v : ℕ) (w : World)
      → s < env.nsig
      → set_arrived env s v w
        ≡ done tt (record w { arrived_signals = update w.arrived_signals s v })
  unfolding set_arrived
  set_arrived-ok s v w h = ground arith

  on_delivery-ok :
      (d : Disposition) (s : ℕ) (w : World)
      → s < env.nsig
      → on_delivery env d s w
        ≡ done tt (record w {
          arrived_signals =
              if is_handled d then update w.arrived_signals s 1 else w.arrived_signals;
        })
  unfolding on_delivery signal_bub_handler
  on_delivery-ok unset s w h = refl
  on_delivery-ok ignored s w h = refl
  on_delivery-ok bub_handler s w h = set_arrived-ok s 1 w h

  deliver_all-flagged :
      (ss : List ℕ) (w : World)
      → Known env.nsig ss
      → deliver_all env ss w
        ≡ done tt (record w { arrived_signals = flagged w.dispositions w.arrived_signals ss })
  unfolding deliver_all
  deliver_all-flagged [] w k = refl
  deliver_all-flagged (s ∷ ss) w k = rw (on_delivery-ok (w.dispositions s) s w k.0) (
      deliver_all-flagged ss
        (record w {
          arrived_signals =
              if is_handled (w.dispositions s)
              then update w.arrived_signals s 1
              else w.arrived_signals;
        })
        k.1)

pub flagged-has :
    (d : ℕ → Disposition) (f : ℕ → ℕ) (ss : List ℕ) (t : ℕ)
    → not (flagged d f ss t == 0) ≡ (has t ss && is_handled (d t) || not (f t == 0))
unfolding update
flagged-has d f [] t = refl
flagged-has d f (s ∷ ss) t = elim (Bool-cases (is_handled (d s))) [
  | inl e ↦ rw e (ground (arith, e, flagged-has d (update f s 1) ss t))
  | inr e ↦ rw e (ground (arith, e, flagged-has d f ss t))
]

module _ (env : Env) where
  pub unblock_all-ok :
      (w : World)
      → Known env.nsig (env.delivered_by_unblock w.unblocks)
      → unblock_all env w
        ≡ done tt (record w {
          arrived_signals =
              flagged w.dispositions w.arrived_signals (env.delivered_by_unblock w.unblocks);
          signals_blocked = false;
          unblocks = suc w.unblocks;
        })
  unfolding unblock_all
  unblock_all-ok w k =
      deliver_all-flagged env (env.delivered_by_unblock w.unblocks)
        (record w { signals_blocked = false; unblocks = suc w.unblocks }) k

  pub bub_acquire-ok :
      (w : World)
      → Known env.nsig (env.delivered_by_unblock w.unblocks)
      → bub_acquire env w
        ≡ done tt (record w {
          arrived_signals =
              flagged w.dispositions w.arrived_signals (env.delivered_by_unblock w.unblocks);
          signals_blocked = true;
          unblocks = suc w.unblocks;
        })
  unfolding bub_acquire block_all
  bub_acquire-ok w k = rw (unblock_all-ok w k) refl

  -- After signals were acquired, each of them below NSIG, a signal below NSIG is reported exactly
  -- if it was delivered to the handler then, or if its flag was still set, from whenever it was:
  -- acquiring does not clear the flags. The report clears its flag and no other, and the signals
  -- are blocked.
  pub delivered-acquire :
      (w : World) (t : ℕ)
      → Known env.nsig (env.delivered_by_unblock w.unblocks)
      → t < env.nsig
      → let seen : ℕ → Bool = λ s. arrives env w s || has_flag w s in
        Returned
          (λ b w'.
            (b ≡ seen t)
            × (has_flag w' t ≡ false)
            × ((s : ℕ) → s ≢ t → has_flag w' s ≡ seen s)
            × (w'.signals_blocked ≡ true))
          ((bub_acquire env >> bub_delivered env t) w)
  unfolding bub_delivered update
  delivered-acquire w t k h =
      let ss : List ℕ = env.delivered_by_unblock w.unblocks in
      rw (bub_acquire-ok w k, ltb_of_< h)
        (
          flagged-has w.dispositions w.arrived_signals ss t,
          ground arith,
          λ s ne. ground (arith, ==_of_ne ne, flagged-has w.dispositions w.arrived_signals ss s),
          refl,
        )
