-- ===== src/Source/Events.antt =====
-- `ccevents_source_do_one_event` of src/ccevents-sources-base.c: what it does for a source of any kind.
use ccevents.Base.{
  ℕ, ◌≢◌, ◌≡◌, refl, if◌then◌else◌, Bool, true, false, Bool-cases, inl, inr, ltb_of_<, ==_of_ne,
  ◌<◌,
}
use ccevents.Base.Int.{ℤ}
use ccevents.Memory.{Ptr, null}
use ccevents.Timeval.{Timeval, is_infinite_timeout}
use ccevents.Signal.{bub_delivered}
use ccevents.World.{
  World, Inquirer, Handler, Etable, fd_methods, task_methods, timer_methods, signal_methods,
  client_methods, dummy_true, dummy_false, fd_default, fd_readability, fd_writability, fd_exception,
  dummy_handler, dummy_timeout, fd_default_handler, Prog, ◌>>◌, return, Env, fits, done,
}
use ccevents.World.Rules.{Keeps, Keeps-and_then, CanInquire, CanHandle, HasMethods, Contract}
use ccevents.Source.{
  do_one_event, servicing_is_enabled, is_expired_now, query, handle_event, handle_expiration,
  call_inquirer, call_handler, inquire_by, handle_by, query_fd_readability, query_fd_writability,
  query_fd_exception, in_fd_set,
}

module _ (env : Env) {I : World → Type 0} (c : Contract env I) where
  in_fd_set-ok : (fd : ℤ) (w : World) → fits env fd ≡ true → in_fd_set env fd w ≡ done tt w
  unfolding in_fd_set
  in_fd_set-ok fd w f = rw f refl

  call_inquirer-Keeps :
      (i : Inquirer) {src : Ptr} (w : World)
      → src ≢ null
      → CanInquire env (w.fd_sources src).fd i
      → I w
      → Keeps I (call_inquirer env i src w)
  unfolding call_inquirer query_fd_readability query_fd_writability query_fd_exception
  call_inquirer-Keeps Inquirer.not_set w ne s k = s
  call_inquirer-Keeps dummy_true w ne s k = k
  call_inquirer-Keeps dummy_false w ne s k = k
  call_inquirer-Keeps fd_default w ne s k = k
  call_inquirer-Keeps fd_readability {src} w ne s k =
      let fd = (w.fd_sources src).fd in
      rw (==_of_ne ne, in_fd_set-ok fd w s) (Keeps-and_then I _ _ (c.reads fd w k) λ rv w' k'. k')
  call_inquirer-Keeps fd_writability {src} w ne s k =
      let fd = (w.fd_sources src).fd in
      rw (==_of_ne ne, in_fd_set-ok fd w s) (Keeps-and_then I _ _ (c.writes fd w k) λ rv w' k'. k')
  call_inquirer-Keeps fd_exception {src} w ne s k =
      let fd = (w.fd_sources src).fd in
      rw (==_of_ne ne, in_fd_set-ok fd w s) (Keeps-and_then I _ _ (c.excepts fd w k) λ rv w' k'. k')
  call_inquirer-Keeps (Inquirer.client n) w ne s k = c.inquires n _ w k

  call_handler-Keeps :
      (h : Handler) (src : Ptr) (w : World) → CanHandle h → I w → Keeps I (call_handler env h src w)
  unfolding call_handler
  call_handler-Keeps Handler.not_set src w s k = s
  call_handler-Keeps dummy_handler src w s k = k
  call_handler-Keeps dummy_timeout src w s k = k
  call_handler-Keeps fd_default_handler src w s k = k
  call_handler-Keeps (Handler.client n) src w s k = c.handles n src w k

  bub_delivered-Keeps : (s : ℕ) (w : World) → s < env.nsig → I w → Keeps I (bub_delivered env s w)
  unfolding bub_delivered
  bub_delivered-Keeps s w l k = rw (ltb_of_< l) (c.cleared w s k)

  inquire_by-Keeps :
      (e : Etable) {src : Ptr} (w : World)
      → src ≢ null
      → HasMethods env w src e
      → I w
      → Keeps I (inquire_by env e src w)
  unfolding inquire_by
  inquire_by-Keeps fd_methods w ne s k = call_inquirer-Keeps _ w ne s.0 k
  inquire_by-Keeps task_methods w ne s k = call_inquirer-Keeps _ w ne s.0 k
  inquire_by-Keeps timer_methods w ne s k = k
  inquire_by-Keeps signal_methods w ne s k = bub_delivered-Keeps _ w s.0 k
  inquire_by-Keeps (client_methods i h) w ne s k = call_inquirer-Keeps i w ne s.0 k

  handle_by-Keeps :
      (e : Etable) (src : Ptr) (w : World)
      → HasMethods env w src e
      → I w
      → Keeps I (handle_by env e src w)
  unfolding handle_by
  handle_by-Keeps fd_methods src w s k = call_handler-Keeps _ src w s.1 k
  handle_by-Keeps task_methods src w s k = call_handler-Keeps _ src w s.1 k
  handle_by-Keeps timer_methods src w s k = k
  handle_by-Keeps signal_methods src w s k = call_handler-Keeps _ src w s.1 k
  handle_by-Keeps (client_methods i h) src w s k = call_handler-Keeps h src w s.1 k

  is_expired_now-Keeps : (t : Timeval) (w : World) → I w → Keeps I (is_expired_now env t w)
  unfolding is_expired_now
  is_expired_now-Keeps t w k = elim (Bool-cases (is_infinite_timeout t)) [
    | inl e ↦ rw e k
    | inr e ↦ rw e (c.clock w k)
  ]

  query-Keeps : {src : Ptr} (w : World) → src ≢ null → I w → Keeps I (query env src w)
  unfolding query
  query-Keeps w ne k = rw (==_of_ne ne) (inquire_by-Keeps _ w ne (c.set_up w _ k).0 k)

  -- Serving an event and serving an expiration.
  serves : (m : Prog (Unit {0})) (w : World) → Keeps I (m w) → Keeps I ((m >> return true) w)
  serves m w k = Keeps-and_then I _ _ k λ u w' k'. k'

  handle_event-Keeps : {src : Ptr} (w : World) → src ≢ null → I w → Keeps I (handle_event env src w)
  unfolding handle_event
  handle_event-Keeps {src} w ne k =
      rw (==_of_ne ne) (handle_by-Keeps (w.sources src).etable src w (c.set_up w src k).0 k)

  handle_expiration-Keeps :
      {src : Ptr} (w : World) → src ≢ null → I w → Keeps I (handle_expiration env src w)
  unfolding handle_expiration
  handle_expiration-Keeps {src} w ne k =
      rw (==_of_ne ne)
        (call_handler-Keeps (w.sources src).expiration_handler src w (c.set_up w src k).1 k)

  Keeps-if :
      {A : Type 0} (b : Bool) (m n : Prog A) (w : World)
      → Keeps I (m w)
      → Keeps I (n w)
      → Keeps I ((if b then m else n) w)
  Keeps-if true m n w k l = k
  Keeps-if false m n w k l = l

  enabled-Keeps : {src : Ptr} (w : World) → src ≢ null → I w → Keeps I (servicing_is_enabled src w)
  unfolding servicing_is_enabled
  enabled-Keeps w ne k = rw (==_of_ne ne) k

  -- If the callbacks, readings of the clock and cleared flags keep a property of the world, under
  -- which each source is set up, so does one event of a source that is not NULL.
  pub do_one_event-Keeps :
      {src : Ptr} (w : World) → src ≢ null → I w → Keeps I (do_one_event env src w)
  unfolding do_one_event
  do_one_event-Keeps {src} w ne k =
      Keeps-and_then I (servicing_is_enabled src w) _ (enabled-Keeps w ne k) λ enabled w1 k1.
        Keeps-if enabled _ _ w1
          (Keeps-and_then I _ _ (is_expired_now-Keeps (w1.sources src).expiration_time w1 k1)
            λ expired w2 k2.
              Keeps-if expired _ _ w2
                (serves (handle_expiration env src) w2 (handle_expiration-Keeps w2 ne k2))
                (Keeps-and_then I _ _ (query-Keeps w2 ne k2) λ pending w3 k3.
                  Keeps-if pending _ _ w3
                    (serves (handle_event env src) w3 (handle_event-Keeps w3 ne k3)) k3))
          k1
