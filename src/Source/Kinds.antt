-- ===== src/Source/Kinds.antt =====
-- What one event of a source is from its methods table on, and what it is for a signal source from its
-- initialisation on: src/ccevents-sources-base.c and src/ccevents-sources-signal.c.
use ccevents.Base.{
  ℕ, ◌≡◌, refl, ◌≢◌, ◌<◌, true, false, Bool-cases, inl, inr, ltb_of_<, ==_of_ne, ==_of_eq, ◌∙◌,
  ◌==◌,
}
use ccevents.Base.Int.{ℤ}
use ccevents.Memory.{Ptr, null, update}
use ccevents.Timeval.{timeval_never, is_infinite_timeout}
use ccevents.Signal.{bub_acquire, bub_delivered}
use ccevents.Signal.Flags.{Known, bub_acquire-ok, set_arrived-ok}
use ccevents.World.{
  World, Inquirer, Handler, Etable, fd_methods, timer_methods, signal_methods, done, ◌>>◌, return,
  Env,
}
use ccevents.Source.Expiry.{served_if}
use ccevents.Source.Setup.{initialised, init-ok, update-same, fresh_fd}
use ccevents.Source.{
  fresh_source, put_fd, put_signal, do_one_event, servicing_is_enabled, is_expired_now, query,
  handle_event, call_inquirer, call_handler, inquire_by, handle_by, timer_init, fd_init,
  signal_init, signal_set,
}

-- A signal source with its number set.
abbrev watched : Ptr → ℕ → World → World
watched src signum w =
    let w' : World = initialised src signal_methods w in
    put_signal src (record (w'.signal_sources src) { signum = signum }) w'

-- A signal source that is set up.
abbrev listening : Ptr → ℕ → Handler → World → World
listening src signum h w =
    let w' : World = watched src signum w in
    let w'' : World = record w' { arrived_signals = update w'.arrived_signals signum 0 } in
    put_signal src (record (w''.signal_sources src) { event_handler = h }) w''

pub disabled-is_idle :
    (env : Env) {src : Ptr} (w : World)
    → src ≢ null
    → (w.sources src).enabled ≡ false
    → do_one_event env src w ≡ done false w
unfolding do_one_event servicing_is_enabled
disabled-is_idle env w ne d = rw (==_of_ne ne, d) refl

module _ (env : Env) {src : Ptr} (ne : src ≢ null) where
  never-is_idle : (w : World) → is_expired_now env timeval_never w ≡ done false w
  unfolding is_expired_now is_infinite_timeout
  never-is_idle w = refl

  -- An enabled source that never expires.
  do_one_event-never :
      (w : World)
      → (w.sources src).enabled ≡ true
      → (w.sources src).expiration_time ≡ timeval_never
      → do_one_event env src w
        ≡ served_if (inquire_by env (w.sources src).etable src) (handle_event env src) w
  unfolding do_one_event servicing_is_enabled query
  do_one_event-never w e t = rw (==_of_ne ne, e, t, never-is_idle w, ==_of_ne ne) refl

  -- A source that is as `ccevents_source_init` left it.
  pub do_one_event-fresh :
      (e : Etable) (w : World)
      → w.sources src ≡ fresh_source e
      → do_one_event env src w ≡ served_if (inquire_by env e src) (handle_event env src) w
  do_one_event-fresh e w h = rw (do_one_event-never w (rw h refl) (rw h refl), h) refl

  -- A source that was just initialised for a file descriptor, or as a timer, has no event.
  pub fresh-is_idle :
      (fd : ℤ) (w : World)
      → ((fd_init src fd >> do_one_event env src) w ≡ (fd_init src fd >> return false) w)
        × ((timer_init src >> do_one_event env src) w ≡ (timer_init src >> return false) w)
  unfolding fd_init timer_init inquire_by call_inquirer update
  fresh-is_idle fd w = (
    rw (init-ok src fd_methods w ne) (
        do_one_event-fresh fd_methods (put_fd src (fresh_fd fd) (initialised src fd_methods w))
          (update-same w.sources src (fresh_source fd_methods))
        ∙ rw (==_of_eq {a = src} refl) refl),
    rw (init-ok src timer_methods w ne) (
        do_one_event-fresh timer_methods (initialised src timer_methods w)
          (update-same w.sources src (fresh_source timer_methods))),
  )

  pub fd_event :
      (i : Inquirer) (w : World)
      → w.sources src ≡ fresh_source fd_methods
      → (w.fd_sources src).event_inquirer ≡ i
      → do_one_event env src w ≡ served_if (call_inquirer env i src) (handle_event env src) w
  unfolding inquire_by
  fd_event i w e f = rw (do_one_event-fresh fd_methods w e, f) refl

  signal_event :
      (signum : ℕ) (h : Handler) (w : World)
      → signum < env.nsig
      → w.sources src ≡ fresh_source signal_methods
      → w.signal_sources src ≡ record { signum = signum; event_handler = h }
      → do_one_event env src w ≡ served_if (bub_delivered env signum) (call_handler env h src) w
  unfolding inquire_by bub_delivered handle_event handle_by
  signal_event signum h w l e f =
      do_one_event-fresh signal_methods w e ∙ (elim (Bool-cases (w.arrived_signals signum == 0)) [
        | inl x ↦ rw (f, ltb_of_< l, x) refl
        | inr x ↦ rw (f, ltb_of_< l, x, ==_of_ne ne, e, f) refl
      ])

  -- A signal source that was initialised for a signal below NSIG and set up calls its handler
  -- exactly if its signal is reported as delivered after signals were acquired, each of them below
  -- NSIG, and has no other event.
  pub signal-served_if :
      (signum : ℕ) (h : Handler) (w : World)
      → signum < env.nsig
      → Known env.nsig (env.delivered_by_unblock w.unblocks)
      → (signal_init env src signum >> signal_set src h >> bub_acquire env >> do_one_event env src)
          w
        ≡ (signal_init env src signum
              >> signal_set src h
              >> bub_acquire env
              >> served_if (bub_delivered env signum) (call_handler env h src))
            w
  unfolding signal_init signal_set update
  signal-served_if signum h w l k =
      rw
        (
          init-ok src signal_methods w ne,
          set_arrived-ok env signum 0 (watched src signum w) l,
          ==_of_ne ne,
          bub_acquire-ok env (listening src signum h w) k,
        )
        (signal_event signum h _ l (update-same w.sources src (fresh_source signal_methods))
          (rw (==_of_eq {a = src} refl) refl))
