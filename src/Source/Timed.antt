-- ===== src/Source/Timed.antt =====
-- One event of a timer, and of a source with a client's methods and an expiration time:
-- src/ccevents-sources-timer.c and src/ccevents-sources-base.c.
use ccevents.Base.{
  ℕ, ◌≡◌, refl, ◌≢◌, ◌∙◌, if◌then◌else◌, Bool, true, false, Bool-cases, inl, inr, ==_of_ne,
}
use ccevents.Memory.{Ptr, null}
use ccevents.Timeval.{Timeval}
use ccevents.Timeval.Meaning.{IsNormalised}
use ccevents.World.{
  World, Inquirer, Handler, timer_methods, client_methods, Otable, Source, done, Prog, ◌>>◌, return,
  Env,
}
use ccevents.Source.Setup.{initialised, init-ok, update-same}
use ccevents.Source.Expiry.{
  served_if, served_when, served_after, served_after-cong, do_one_event-enabled,
}
use ccevents.Source.Kinds.{disabled-is_idle}
use ccevents.Source.{
  fresh_source, put_source, do_one_event, query, handle_event, call_handler, call_inquirer,
  inquire_by, handle_by, set_timeout, timer_init,
}

-- A timer as `ccevents_source_set_timeout` leaves it.
abbrev timer_source : Timeval → Handler → Source
timer_source t h = record (fresh_source timer_methods) {
  expiration_time = t;
  expiration_handler = h;
}

-- A source with a client's methods `i` and `h`, which calls the client's handler `x` when it expires.
abbrev pub client_source : Bool → Otable → Timeval → (x i h : ℕ) → Source
client_source b o t x i h = record {
  otable = o;
  etable = client_methods (Inquirer.client i) (Handler.client h);
  expiration_time = t;
  expiration_handler = Handler.client x;
  enabled = b;
}

module _ (env : Env) {src : Ptr} (ne : src ≢ null) where
  -- An enabled source, with its fields.
  enabled_event :
      (b : Source) (k : ℕ) (otherwise : Prog Bool) (w : World)
      → w.sources src ≡ b
      → b.enabled ≡ true
      → b.expiration_handler ≡ Handler.client k
      → IsNormalised b.expiration_time
      → IsNormalised (env.time_at w.clock_reads)
      → ((n : ℕ)
          → served_if (query env src) (handle_event env src) (record w { clock_reads = n })
            ≡ otherwise (record w { clock_reads = n }))
      → do_one_event env src w ≡ served_after env b.expiration_time (env.handle k src) otherwise w
  unfolding call_handler
  enabled_event b k otherwise w e on h n m f =
      do_one_event-enabled env ne w (rw (e, on) refl) (rw e n) m
      ∙ (rw (e, h)
          (served_after-cong env b.expiration_time (env.handle k src) (env.handle k src)
            (served_if (query env src) (handle_event env src)) otherwise w (λ c. refl) f))

  timer_event :
      (t : Timeval) (k : ℕ) (w : World)
      → w.sources src ≡ timer_source t (Handler.client k)
      → IsNormalised t
      → IsNormalised (env.time_at w.clock_reads)
      → do_one_event env src w ≡ served_after env t (env.handle k src) (return false) w
  unfolding query inquire_by
  timer_event t k w e n m =
      enabled_event (timer_source t (Handler.client k)) k (return false) w e refl refl n m
        λ c. rw (==_of_ne ne, e) refl

  client_event :
      (o : Otable) (t : Timeval) (x i h : ℕ) (finds : World → Bool) (w : World)
      → w.sources src ≡ client_source true o t x i h
      → IsNormalised t
      → IsNormalised (env.time_at w.clock_reads)
      → ((v : World) → env.inquire i src v ≡ done (finds v) v)
      → do_one_event env src w
        ≡ served_after env t (env.handle x src) (served_when finds (env.handle h src)) w
  unfolding query inquire_by handle_event handle_by call_handler call_inquirer
  client_event o t x i h finds w e n m l =
      enabled_event (client_source true o t x i h) x (served_when finds (env.handle h src)) w e refl
        refl n m
        λ c.
          let v : World = record w { clock_reads = c } in
          elim (Bool-cases (finds v)) [
            | inl y ↦ rw (==_of_ne ne, e, l v, y, ==_of_ne ne, e) refl
            | inr y ↦ rw (==_of_ne ne, e, l v, y) refl
          ]

  -- Let a source have an inquirer and handlers of a client, of which the inquirer only looks, and
  -- let its expiration time and the clock be normalised. If it is disabled, it has no event, and
  -- nothing changes. Else, unless its time is LONG_MAX seconds, the clock is read once; if it shows
  -- more microseconds than the expiration time, the expiration handler is called; if not, the event
  -- handler is called exactly if the inquirer finds an event. The result says whether a handler was
  -- called.
  pub do_one_event_lem :
      (b : Bool) (o : Otable) (t : Timeval) (x i h : ℕ) (finds : World → Bool) (w : World)
      → w.sources src ≡ client_source b o t x i h
      → IsNormalised t
      → IsNormalised (env.time_at w.clock_reads)
      → ((v : World) → env.inquire i src v ≡ done (finds v) v)
      → do_one_event env src w ≡ (
          if b
          then served_after env t (env.handle x src) (served_when finds (env.handle h src)) w
          else done false w)
  do_one_event_lem true o t x i h finds w e n m l = client_event o t x i h finds w e n m l
  do_one_event_lem false o t x i h finds w e n m l = disabled-is_idle env w ne (rw e refl)

  -- Let a timer be initialised and given an expiration time and a handler of a client, and let this
  -- time and the clock be normalised. Then its event is a call of the handler exactly if the time
  -- is not LONG_MAX seconds and the clock shows more microseconds; it has no other event.
  pub timer-served_if :
      (t : Timeval) (k : ℕ) (w : World)
      → IsNormalised t
      → IsNormalised (env.time_at w.clock_reads)
      → (timer_init src >> set_timeout src t (Handler.client k) >> do_one_event env src) w
        ≡ (timer_init src
              >> set_timeout src t (Handler.client k)
              >> served_after env t (env.handle k src) (return false))
            w
  unfolding timer_init set_timeout
  timer-served_if t k w n m =
      rw (init-ok src timer_methods w ne, ==_of_ne ne, update-same w.sources src)
        (timer_event t k
          (put_source src (timer_source t (Handler.client k)) (initialised src timer_methods w))
          (update-same (initialised src timer_methods w).sources src
            (timer_source t (Handler.client k)))
          n m)
