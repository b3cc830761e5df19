-- ===== src/Signal/Registration.antt =====
-- The initialisation and the finalisation of the BUB API of src/ccevents-sources-signal.c.
use ccevents.Base.{
  ℕ, zero, suc, ◌+◌, ◌≤◌, ◌<◌, ltb, ◌≡◌, refl, if◌then◌else◌, Bool, true, false, not, ◌||◌, has,
  arith, ◌&&◌, ◌∙◌, Bool-cases, inl, inr,
}
use ccevents.Memory.{update}
use ccevents.World.{World, Disposition, ignored, bub_handler, done, Env, Returned}
use ccevents.Signal.{set_action, block_all, register_from, bub_init, bub_final}
use ccevents.Signal.Flags.{
  Known, is_handled, has_flag, arrives, set_arrived-ok, flagged-has, unblock_all-ok,
}

-- `v` for those of the `n` signals from `s` on that `p` has.
registered : {A : Type 0} → (ℕ → Bool) → (ℕ → A) → A → (n s : ℕ) → ℕ → A
registered p f v zero s = f
registered p f v (suc n) s = registered p (if p s then update f s v else f) v n (suc s)

registered_lem :
    {A : Type 0} (p : ℕ → Bool) (f : ℕ → A) (v : A) (n s t : ℕ)
    → registered p f v n s t ≡ (if not (ltb t s) && ltb t (s + n) && p t then v else f t)
unfolding registered update
registered_lem p f v zero s t = ground arith
registered_lem p f v (suc n) s t = elim (Bool-cases (p s)) [
  | inl e ↦ rw e (ground (arith, e, registered_lem p (update f s v) v n (suc s) t))
  | inr e ↦ rw e (ground (arith, e, registered_lem p f v n (suc s) t))
]

module _ (env : Env) where
  -- The world after the registrations.
  abbrev with_actions : Disposition → (n s : ℕ) → World → World
  with_actions a n s w = record w {
    arrived_signals = registered (λ _. true) w.arrived_signals 0 n s;
    dispositions = registered env.accepts_action w.dispositions a n s;
  }

  set_action-ok :
      (a : Disposition) (s : ℕ) (w : World)
      → set_action env a s w
        ≡ done tt (record w {
          dispositions = if env.accepts_action s then update w.dispositions s a else w.dispositions;
        })
  unfolding set_action
  set_action-ok a s w = elim (Bool-cases (env.accepts_action s)) [
    | inl e ↦ rw e refl
    | inr e ↦ rw e refl
  ]

  register_from-registered :
      (a : Disposition) (n s : ℕ) (w : World)
      → s + n ≤ env.nsig
      → register_from env a n s w ≡ done tt (with_actions a n s w)
  unfolding register_from registered
  register_from-registered a zero s w h = refl
  register_from-registered a (suc n) s w h =
      let w1 : World = record w { arrived_signals = update w.arrived_signals s 0 } in
      rw (set_arrived-ok env s 0 w (omega arith), set_action-ok a s w1)
        (register_from-registered a n (suc s)
          (record w1 {
            dispositions =
                if env.accepts_action s then update w.dispositions s a else w.dispositions;
          })
          (omega arith))

  -- Each signal below NSIG for which `sigaction` succeeds has the disposition, and each other one
  -- the same as before.
  abbrev pub AllRegistered : Disposition → (w w' : World) → Type 0
  AllRegistered a w w' =
      (s : ℕ)
      → s < env.nsig
      → w'.dispositions s ≡ (if env.accepts_action s then a else w.dispositions s)

  with_actions-AllRegistered :
      (a : Disposition) (w : World) → AllRegistered a w (with_actions a env.nsig 0 w)
  with_actions-AllRegistered a w s h =
      registered_lem env.accepts_action w.dispositions a env.nsig 0 s ∙ ground arith

  with_actions-no_flag :
      (a : Disposition) (w : World) (s : ℕ)
      → s < env.nsig
      → has_flag (with_actions a env.nsig 0 w) s ≡ false
  with_actions-no_flag a w s h =
      ground (arith, registered_lem (λ _. true) w.arrived_signals 0 env.nsig 0 s)

  bub_init-AllRegistered :
      (w : World)
      → Returned
          (λ _ w'.
            AllRegistered bub_handler w w'
            × ((s : ℕ) → s < env.nsig → has_flag w' s ≡ false)
            × (w'.signals_blocked ≡ true))
          (bub_init env w)
  unfolding bub_init block_all
  bub_init-AllRegistered w =
      let v : World = record w { signals_blocked = true } in
      rw (register_from-registered bub_handler env.nsig 0 v (omega arith))
        (with_actions-AllRegistered bub_handler v, with_actions-no_flag bub_handler v, refl)

  -- A signal whose disposition could not be changed can still set its flag.
  abbrev pub still_arrives : World → ℕ → Bool
  still_arrives w s = not (env.accepts_action s) && arrives env w s

  bub_final-AllRegistered :
      (w : World)
      → Known env.nsig (env.delivered_by_unblock w.unblocks)
      → Returned
          (λ _ w'.
            AllRegistered ignored w w'
            × ((s : ℕ) → s < env.nsig → has_flag w' s ≡ still_arrives w s)
            × (w'.signals_blocked ≡ false))
          (bub_final env w)
  unfolding bub_final
  bub_final-AllRegistered w k =
      let v : World = with_actions ignored env.nsig 0 w in
      rw (register_from-registered ignored env.nsig 0 w (omega arith), unblock_all-ok env v k)
        (
          with_actions-AllRegistered ignored w,
          λ s h.
              flagged-has v.dispositions v.arrived_signals (env.delivered_by_unblock w.unblocks) s
              ∙ left s (with_actions-no_flag ignored w s h)
                  (with_actions-AllRegistered ignored w s h),
          refl,
        )
    where
      left :
          (s : ℕ)
          → has_flag (with_actions ignored env.nsig 0 w) s ≡ false
          → (with_actions ignored env.nsig 0 w).dispositions s
            ≡ (if env.accepts_action s then ignored else w.dispositions s)
          → (has s (env.delivered_by_unblock w.unblocks)
                && is_handled ((with_actions ignored env.nsig 0 w).dispositions s)
              || has_flag (with_actions ignored env.nsig 0 w) s)
            ≡ still_arrives w s
      left s f d = elim (Bool-cases (env.accepts_action s)) [
        | inl e ↦ rw (f, d, e) (ground arith)
        | inr e ↦ rw (f, d, e) (ground arith)
      ]

  -- Initialising the BUB API blocks the signals, clears the flag of every signal below NSIG and
  -- registers its handler for each for which `sigaction` succeeds. Finalising it, where the signals
  -- then delivered are below NSIG, ignores each for which `sigaction` succeeds, leaves the signals
  -- unblocked, and leaves a flag set exactly for a signal that is delivered then and still has the
  -- handler, since `sigaction` failed. Where `sigaction` fails the disposition stays.
  pub bub-AllRegistered :
      (w : World)
      → Known env.nsig (env.delivered_by_unblock w.unblocks)
      → Returned
          (λ _ w'.
            AllRegistered bub_handler w w'
            × ((s : ℕ) → s < env.nsig → has_flag w' s ≡ false)
            × (w'.signals_blocked ≡ true))
          (bub_init env w)
        × Returned
            (λ _ w'.
              AllRegistered ignored w w'
              × ((s : ℕ) → s < env.nsig → has_flag w' s ≡ still_arrives w s)
              × (w'.signals_blocked ≡ false))
            (bub_final env w)
  bub-AllRegistered w k = (bub_init-AllRegistered w, bub_final-AllRegistered w k)
