-- ===== src/Source/Inquired.antt =====
-- What one event of a source for a file descriptor, and of a task, is, from its initialisation on:
-- src/ccevents-sources-fd.c and src/ccevents-sources-task.c.
use ccevents.Base.{
  ℕ, ◌≡◌, refl, ◌≢◌, if◌then◌else◌, Bool, true, false, Bool-cases, inl, inr, ==_of_ne, ==_of_eq,
  ◌∙◌,
}
use ccevents.Base.Int.{ℤ, pos}
use ccevents.Memory.{Ptr, null, update}
use ccevents.World.{
  World, fits, fd_readability, fd_writability, fd_exception, Inquirer, Handler, fd_methods,
  task_methods, done, Prog, ◌>>◌, Env,
}
use ccevents.Source.Expiry.{served_if, served_when}
use ccevents.Source.Kinds.{do_one_event-fresh, fd_event}
use ccevents.Source.Setup.{init-ok, update-same}
use ccevents.Source.{
  fresh_source, do_one_event, query_fd_readability, query_fd_writability, query_fd_exception,
  in_fd_set, is_one, handle_event, call_inquirer, call_handler, inquire_by, handle_by, fd_init,
  fd_set, task_init, task_set,
}

-- What the inquirer of a source for the descriptor `fd` finds: it only looks, as `cce_sys_select` does,
-- which says 1 of a descriptor that has an event and 0 of one that has none, or as a client's does.
pub data Looks (env : Env) (src : Ptr) (fd : ℤ) (finds : World → Bool) : Inquirer → Type 0 where
  readable :
      fits env fd ≡ true
      → ((w : World) → env.select_read fd w ≡ done (if finds w then pos 1 else pos 0) w)
      → Looks env src fd finds fd_readability
  writable :
      fits env fd ≡ true
      → ((w : World) → env.select_write fd w ≡ done (if finds w then pos 1 else pos 0) w)
      → Looks env src fd finds fd_writability
  exceptional :
      fits env fd ≡ true
      → ((w : World) → env.select_except fd w ≡ done (if finds w then pos 1 else pos 0) w)
      → Looks env src fd finds fd_exception
  asked :
      (k : ℕ)
      → ((w : World) → env.inquire k src w ≡ done (finds w) w)
      → Looks env src fd finds (Inquirer.client k)

module _ (env : Env) {src : Ptr} (ne : src ≢ null) where
  is_one-test : (b : Bool) → is_one env (if b then pos 1 else pos 0) ≡ b
  is_one-test true = refl
  is_one-test false = refl

  call_inquirer-Looks :
      {fd : ℤ} {finds : World → Bool} {i : Inquirer} (w : World)
      → Looks env src fd finds i
      → (w.fd_sources src).fd ≡ fd
      → call_inquirer env i src w ≡ done (finds w) w
  unfolding call_inquirer query_fd_readability query_fd_writability query_fd_exception in_fd_set
  call_inquirer-Looks {finds = finds} w (readable f l) e =
      rw (==_of_ne ne, e, f, l w, is_one-test (finds w)) refl
  call_inquirer-Looks {finds = finds} w (writable f l) e =
      rw (==_of_ne ne, e, f, l w, is_one-test (finds w)) refl
  call_inquirer-Looks {finds = finds} w (exceptional f l) e =
      rw (==_of_ne ne, e, f, l w, is_one-test (finds w)) refl
  call_inquirer-Looks w (asked k l) e = l w

  -- A source whose methods call its own inquirer and a client's handler.
  served_if-when :
      (inquirer : Prog Bool) (handler serve : Prog (Unit {0})) (finds : World → Bool) (w : World)
      → inquirer w ≡ done (finds w) w
      → handler w ≡ serve w
      → served_if inquirer handler w ≡ served_when finds serve w
  served_if-when inquirer handler serve finds w e f = elim (Bool-cases (finds w)) [
    | inl b ↦ rw (e, b, f) refl
    | inr b ↦ rw (e, b) refl
  ]

  fd_handle :
      (k : ℕ) (w : World)
      → w.sources src ≡ fresh_source fd_methods
      → (w.fd_sources src).event_handler ≡ Handler.client k
      → handle_event env src w ≡ env.handle k src w
  unfolding handle_event handle_by call_handler
  fd_handle k w e f = rw (==_of_ne ne, e, f) refl

  task_handle :
      (k : ℕ) (w : World)
      → w.sources src ≡ fresh_source task_methods
      → (w.task_sources src).event_handler ≡ Handler.client k
      → handle_event env src w ≡ env.handle k src w
  unfolding handle_event handle_by call_handler
  task_handle k w e f = rw (==_of_ne ne, e, f) refl

  fd-served_if :
      (fd : ℤ) (i : Inquirer) (k : ℕ) (finds : World → Bool) (w : World)
      → Looks env src fd finds i
      → (fd_init src fd >> fd_set src i (Handler.client k) >> do_one_event env src) w
        ≡ (fd_init src fd
              >> fd_set src i (Handler.client k)
              >> served_when finds (env.handle k src))
            w
  unfolding fd_init fd_set update
  fd-served_if fd i k finds w l =
      let same = ==_of_eq {a = src} refl in
      rw (init-ok src fd_methods w ne, ==_of_ne ne)
        (fd_event env ne i _ (update-same w.sources src (fresh_source fd_methods)) (rw same refl)
          ∙ served_if-when (call_inquirer env i src) (handle_event env src) (env.handle k src) finds
              _ (call_inquirer-Looks _ l (rw same refl))
              (fd_handle k _ (update-same w.sources src (fresh_source fd_methods)) (rw same refl)))

  task_event :
      (i : Inquirer) (w : World)
      → w.sources src ≡ fresh_source task_methods
      → (w.task_sources src).event_inquirer ≡ i
      → do_one_event env src w ≡ served_if (call_inquirer env i src) (handle_event env src) w
  unfolding inquire_by
  task_event i w e f = rw (do_one_event-fresh env ne task_methods w e, f) refl

  task-served_if :
      (j k : ℕ) (finds : World → Bool) (w : World)
      → ((v : World) → env.inquire j src v ≡ done (finds v) v)
      → (task_init src
            >> task_set src (Inquirer.client j) (Handler.client k)
            >> do_one_event env src)
          w
        ≡ (task_init src
              >> task_set src (Inquirer.client j) (Handler.client k)
              >> served_when finds (env.handle k src))
            w
  unfolding task_init task_set update call_inquirer
  task-served_if j k finds w l =
      let same = ==_of_eq {a = src} refl in
      let i = Inquirer.client j in
      rw (init-ok src task_methods w ne, ==_of_ne ne)
        (task_event i _ (update-same w.sources src (fresh_source task_methods)) (rw same refl)
          ∙ served_if-when (call_inquirer env i src) (handle_event env src) (env.handle k src) finds
              _ (l _)
              (task_handle k _ (update-same w.sources src (fresh_source task_methods))
                (rw same refl)))

  -- Let a source be initialised for a file descriptor, or as a task, and be set up with an inquirer
  -- that only looks and a handler of a client, where the inquirer is one of the three on a
  -- descriptor, which then fits into an `fd_set`, or one of a client. Then it calls the handler
  -- exactly if the inquirer finds an event, which it does for a descriptor if `cce_sys_select` says
  -- 1 and not 0; it has no other event.
  pub inquired-served_if :
      (fd : ℤ) (i : Inquirer) (j k : ℕ) (finds finds' : World → Bool) (w : World)
      → Looks env src fd finds i
      → ((v : World) → env.inquire j src v ≡ done (finds' v) v)
      → ((fd_init src fd >> fd_set src i (Handler.client k) >> do_one_event env src) w
          ≡ (fd_init src fd
                >> fd_set src i (Handler.client k)
                >> served_when finds (env.handle k src))
              w)
        × ((task_init src
                >> task_set src (Inquirer.client j) (Handler.client k)
                >> do_one_event env src)
              w
            ≡ (task_init src
                  >> task_set src (Inquirer.client j) (Handler.client k)
                  >> served_when finds' (env.handle k src))
                w)
  inquired-served_if fd i j k finds finds' w l l' =
      (fd-served_if fd i k finds w l, task-served_if j k finds' w l')
