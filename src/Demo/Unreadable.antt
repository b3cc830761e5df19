-- ===== src/Demo/Unreadable.antt =====
-- The loop of the slave of demos/processes-communicating-through-pipes.c when its pipe cannot be read,
-- from `ccevents_loop_enter` through the group, whose first source is disabled, down to the event
-- handler of the second one, and back.
use ccevents.Base.{
  ◌≡◌, refl, sym, subst, ◌≢◌, ◌+◌, ◌%◌, ◌<◌, ℕ, suc, true, false, List, [], ◌∷◌, arith, ==_of_ne,
  inr, ltb_of_<,
}
use ccevents.Base.Int.{ℤ, pos}
use ccevents.Memory.{Ptr, null, Memory, update}
use ccevents.Queue
use ccevents.Queue.{size_mod}
use ccevents.Queue.Holds.{Holds, base_of}
use ccevents.Queue.Frame.{Spares, Holds-Spares}
use ccevents.Queue.Advance.{advance_current-Holds}
use ccevents.World.{
  Group as GroupState, Loop as LoopState, World, fault, out_of_fuel, Result, Returned, done, raised,
  and_then, on_memory, ◌>>◌, Env, fits,
}
use ccevents.World.Rules.{Returned-and_then, Returned-on_memory}
use ccevents.Group
use ccevents.Group.Enter.{wants_more}
use ccevents.Loop
use ccevents.Demo.System.{System, Unregistered, buf_size}
use ccevents.Demo.Messages.{read_message}
use ccevents.Demo.Pair.{with_memory}
use ccevents.Demo.Station.{Enlisted, Station, with_enabled, disable_servicing-ok}
use ccevents.Demo.Dialogue.{demo_env, demo_handle}
use ccevents.Source.Kinds.{disabled-is_idle}
use ccevents.Demo.Dialogue.Events.{read_source-has_event}
use ccevents.Demo.Slave.{read_event_handler, failed}
use ccevents.Demo.Slave.Diagram.{from_read_source}
use ccevents.Demo.Slave.Leaving.{HasLeft, failed-HasLeft}
use ccevents.Demo.Slave.Start.{Started, ends}
use ccevents.Demo.Exit.{stops}

-- A kernel whose pipe is always ready to be read and never can be.
pub record Unreadable (sys : System) (env : Env) (read_fd : ℤ) (condition : Ptr) : Type 0 where
  pub in_set : fits env read_fd ≡ true
  pub ready : (w : World) → env.select_read read_fd w ≡ done (pos 1) w
  pub read : (w : World) → sys.sys_read read_fd buf_size w ≡ raised w
  pub raises : (w : World) → sys.condition w ≡ condition

-- The loop at `s` holds its group, and this one the sources `xs`.
record Queues (s : Ptr) (xs : List Ptr) (h : Memory) : Type 0 where
  loop_queue : Holds h s ((s + 1) ∷ [])
  group_queue : Holds h (s + 1) xs

-- The loop still holds its group, which is empty, and the sources are free.
pub record Departed (s : Ptr) (h : Memory) : Type 0 where
  pub loop_queue : Holds h s ((s + 1) ∷ [])
  pub group_queue : Holds h (s + 1) []
  pub read_source_free : base_of h (s + 2) ≡ null
  pub write_source_free : base_of h (s + 3) ≡ null

-- The sources are gone, and the loop is asked to end.
abbrev Left : Ptr → World → Type 0
Left s w = Departed s w.memory × ((w.loops s).request_to_leave ≡ true)

HasLeft-Left : {s condition : Ptr} (w : World) → HasLeft s condition w → Left s w
HasLeft-Left w k = (
  record {
    loop_queue = k.loop_queue;
    group_queue = k.group_queue;
    read_source_free = k.read_source_free;
    write_source_free = k.write_source_free;
  },
  k.asked,
)

-- Neither the loop nor the group is asked to end, and the group serves two events.
record Unasked (s : Ptr) (groups : Ptr → GroupState) (loops : Ptr → LoopState) : Type 0 where
  group : groups (s + 1) ≡ record { request_to_leave = false; servicing_attempts_watermark = 2 }
  loop : loops s ≡ record { request_to_leave = false }

Queues-turned :
    {s : Ptr} {xs ys : List Ptr} (h h' : Memory)
    → Queues s xs h
    → Holds h' (s + 1) ys
    → Spares h h' (s + 1) []
    → Queues s ys h'
Queues-turned h h' k q sp = record {
  loop_queue = Holds-Spares sp k.loop_queue (omega arith) (λ p i. ground arith);
  group_queue = q;
}

module _ (sys : System) (quiet : Unregistered sys) (env : Env)
    (nothing : (w : World) → env.run_cleanup_handlers w ≡ w) (fuel : ℕ) (s : Ptr) (ne : s ≢ null)
    (read_fd write_fd : ℤ) (condition : Ptr)
    (unreadable : Unreadable sys env read_fd condition) where
  abbrev handlers : Env
  handlers = demo_env sys env fuel

  -- The sources are set up, and only the one to read from is enabled.
  abbrev Waiting : World → Type 0
  Waiting w = Station s (ends read_fd write_fd) true false w.sources w.fd_sources

  read_message-unreadable :
      (w : World)
      → Waiting w
      → read_message sys (s + 2) (with_enabled (s + 2) false w)
        ≡ raised (with_enabled (s + 2) false w)
  unfolding read_message
  read_message-unreadable w k = rw (k.read_end, unreadable.read _) refl

  handler-HasLeft :
      (w : World)
      → Waiting w
      → Enlisted s w.memory
      → Returned (λ _. HasLeft s condition) (read_event_handler sys (s + 2) w)
  unfolding read_event_handler
  handler-HasLeft w k n =
      let v = with_enabled (s + 2) false w in
      rw
        (
          from_read_source s,
          disable_servicing-ok {p = s + 2} w (omega arith),
          read_message-unreadable w k,
        )
        (subst (λ c. Returned (λ _. HasLeft s c) (failed sys s v)) (unreadable.raises v)
          (failed-HasLeft sys quiet ne v n))

  caught-served :
      (r : Result (Unit {0}))
      → Returned (λ _. HasLeft s condition) r
      → Returned (λ _. Left s) (Group.caught handlers (and_then r (λ _. done true)))
  unfolding Group.caught
  caught-served (done a w) k = rw (nothing w) (HasLeft-Left w k)
  caught-served (raised w) k = absurd k
  caught-served fault k = k
  caught-served out_of_fuel k = k

  service_read-Left :
      (w : World)
      → Waiting w
      → Enlisted s w.memory
      → Returned (λ _. Left s) (Group.service handlers (s + 2) w)
  unfolding Group.service demo_handle
  service_read-Left w k n =
      rw (read_source-has_event handlers w k 2 refl unreadable.in_set (unreadable.ready w))
        (caught-served (read_event_handler sys (s + 2) w) (handler-HasLeft w k n))

  -- The source to write to is disabled.
  service_write-ok : (w : World) → Waiting w → Group.service handlers (s + 3) w ≡ done tt w
  unfolding Group.service Group.caught
  service_write-ok w k =
      rw
        (
          disabled-is_idle handlers {src = s + 3} w (omega arith) (rw k.write_source refl),
          nothing w,
        )
        refl

  goes_on :
      (count : ℕ) (x y : Ptr) (w : World)
      → Queues s (x ∷ y ∷ []) w.memory
      → Unasked s w.groups w.loops
      → count < 2
      → wants_more (s + 1) count (x ∷ y ∷ []) w ≡ true
  goes_on count x y w k u l =
      rw (u.group, k.loop_queue.members (s + 1) (ground arith), ==_of_ne ne, u.loop, ltb_of_< l)
        refl

  -- One round: the queue is advanced, and its first source served.
  round-Left :
      (group_fuel count : ℕ) (x y : Ptr) (w : World)
      → Queues s (x ∷ y ∷ []) w.memory
      → Unasked s w.groups w.loops
      → count < 2
      → ((h : Memory)
          → Queues s (y ∷ x ∷ []) h
          → Returned
              (λ _. Left s)
              ((Group.service handlers x
                  >> Group.enter_loop handlers group_fuel (s + 1) ((count + 1) % size_mod))
                (with_memory w h)))
      → Returned (λ _. Left s) (Group.enter_loop handlers (suc group_fuel) (s + 1) count w)
  round-Left group_fuel count x y w k u l next =
      rw
        (Group.Enter.enter_loop-round handlers group_fuel count w k.group_queue
          (goes_on count x y w k u l))
        (Returned-and_then _ _ (on_memory (Queue.advance_current (s + 1)) w) _
          (Returned-on_memory _ (Queue.advance_current (s + 1)) w
            (advance_current-Holds (x ∷ y ∷ []) k.group_queue))
          λ _ v (h, (q, sp), i).
            subst
              (λ v.
                Returned (λ _. Left s)
                  ((Group.service handlers x
                      >> Group.enter_loop handlers group_fuel (s + 1) ((count + 1) % size_mod))
                    v))
              (sym i) (next h (Queues-turned w.memory h k q sp)))

  -- The first round of the group serves no event, and the event of the second ends the rounds.
  rounds-Left :
      (group_fuel : ℕ) (w : World)
      → Waiting w
      → Queues s ((s + 3) ∷ (s + 2) ∷ []) w.memory
      → Unasked s w.groups w.loops
      → Returned (λ _. Left s) (Group.enter_loop handlers (suc (suc (suc group_fuel))) (s + 1) 0 w)
  rounds-Left group_fuel w k q u =
      round-Left (suc (suc group_fuel)) 0 (s + 3) (s + 2) w q u (omega arith) λ h q'.
        rw (service_write-ok (with_memory w h) k) (
          round-Left (suc group_fuel) 1 (s + 2) (s + 3) (with_memory w h) q' u (omega arith)
            λ h' q''.
              let v = with_memory w h' in
              Returned-and_then (λ _. Left s) (λ _. Left s) (Group.service handlers (s + 2) v) _
                (service_read-Left v k
                  (record { loop_queue = q''.loop_queue; group_queue = inr q''.group_queue }))
                λ _ v' (d, asked).
                  rw (stops handlers v' d.loop_queue d.group_queue asked 2 group_fuel 0).0
                    (d, asked))

  group-Left :
      (group_fuel : ℕ) (w : World)
      → Waiting w
      → Queues s ((s + 3) ∷ (s + 2) ∷ []) w.memory
      → Unasked s w.groups w.loops
      → Returned (λ _. Left s) (Group.enter handlers (suc (suc (suc group_fuel))) (s + 1) w)
  unfolding Group.enter Group.set_request update
  group-Left group_fuel w k q u =
      let grp_ne : s + 1 ≢ null = omega arith in
      let v = Group.put_group (s + 1) (record (w.groups (s + 1)) { request_to_leave = false }) w in
      rw (==_of_ne grp_ne) (
        Returned-and_then (λ _. Left s) (λ _. Left s)
          (Group.enter_loop handlers (suc (suc (suc group_fuel))) (s + 1) 0 v) _
          (rounds-Left group_fuel v k q (record { group = ground (arith, u.group); loop = u.loop }))
          λ _ v' l. rw (==_of_ne grp_ne) l)

  loop_rounds-Left :
      (fuel' group_fuel : ℕ) (w : World)
      → Waiting w
      → Queues s ((s + 3) ∷ (s + 2) ∷ []) w.memory
      → Unasked s w.groups w.loops
      → Returned
          (λ _. Left s)
          (Loop.enter_loop handlers (suc (suc fuel')) (suc (suc (suc group_fuel))) s w)
  loop_rounds-Left fuel' group_fuel w k q u =
      let gf = suc (suc (suc group_fuel)) in
      rw (Loop.Enter.enter_loop-round handlers (suc fuel') gf w q.loop_queue (rw u.loop refl)) (
        Returned-and_then _ _ (on_memory (Queue.advance_current s) w) _
          (Returned-on_memory _ (Queue.advance_current s) w
            (advance_current-Holds ((s + 1) ∷ []) q.loop_queue))
          λ _ v (h, (q', sp), i).
            Returned-and_then (λ _. Left s) (λ _. Left s) (Group.enter handlers gf (s + 1) v) _
              (subst (λ v. Returned (λ _. Left s) (Group.enter handlers gf (s + 1) v)) (sym i)
                (group-Left group_fuel (with_memory w h) k
                  (record {
                    loop_queue = q';
                    group_queue = Holds-Spares sp q.group_queue (omega arith) (λ p i. ground arith);
                  })
                  u))
              λ _ v' (d, asked).
                rw (stops handlers v' d.loop_queue d.group_queue asked 0 fuel' gf).1 (d, asked))

  pub enter-Departed :
      (fuel' group_fuel : ℕ) (w : World)
      → Started s (ends read_fd write_fd) w
      → Returned
          (λ _ w'. Departed s w'.memory)
          (Loop.enter handlers (suc (suc fuel')) (suc (suc (suc group_fuel))) s w)
  unfolding Loop.enter Loop.set_request update
  enter-Departed fuel' group_fuel w k =
      let v = Loop.put_loop s (record { request_to_leave = false }) w in
      rw (==_of_ne ne) (
        Returned-and_then (λ _. Left s) (λ _ w'. Departed s w'.memory)
          (Loop.enter_loop handlers (suc (suc fuel')) (suc (suc (suc group_fuel))) s v) _
          (loop_rounds-Left fuel' group_fuel v k.standing.station
            (record { loop_queue = k.standing.enlisted.loop_queue; group_queue = k.order })
            (record { group = k.group; loop = ground arith }))
          λ _ v' l. rw (==_of_ne ne) l.0)
