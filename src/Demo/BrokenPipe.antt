-- ===== src/Demo/BrokenPipe.antt =====
-- The loop of the master of demos/processes-communicating-through-pipes.c when its pipe is broken, from
-- `ccevents_loop_enter` through the group and its first source down to the event handler, and back.
use ccevents.Base.{
  ◌≡◌, refl, sym, subst, ◌≢◌, ◌+◌, ℕ, suc, true, false, List, [], ◌∷◌, arith, ==_of_ne,
}
use ccevents.Base.Int.{ℤ, pos}
use ccevents.Memory.{Ptr, null}
use ccevents.Queue
use ccevents.Queue.Advance.{advance_current-Holds}
use ccevents.World.{
  World, MasterStateCode, fault, out_of_fuel, Result, Returned, done, raised, and_then, on_memory,
  Env, fits,
}
use ccevents.World.Rules.{Returned-and_then, Returned-on_memory}
use ccevents.Group
use ccevents.Group.Enter.{is_free}
use ccevents.Loop
use ccevents.Demo.System.{System, Unregistered, greetings}
use ccevents.Demo.Messages.{write_message}
use ccevents.Demo.Station.{Ends, Enlisted, with_enabled, disable_servicing-ok}
use ccevents.Demo.Dialogue.{demo_env, demo_handle}
use ccevents.Demo.Dialogue.Events.{write_source-has_event}
use ccevents.Demo.Master.{write_event_handler, failed}
use ccevents.Demo.Master.Diagram.{greets, message-Sends, from_write_source}
use ccevents.Demo.Master.Leaving.{HasLeft, failed-HasLeft}
use ccevents.Demo.Master.Start.{Started, ends}
use ccevents.Demo.Exit.{stops}
use ccevents.Demo.Reset.{
  Quit, Standing-turned, Started-advanced, Started-group_reset, Started-loop_reset,
  HasLeft-group_reset, Quit-HasLeft,
}
use ccevents.Demo.Master.Turns.{Standing}

-- A kernel whose pipe is always ready to be written and never can be.
pub record BrokenPipe (sys : System) (env : Env) (write_fd : ℤ) (condition : Ptr) : Type 0 where
  pub in_set : fits env write_fd ≡ true
  pub ready : (w : World) → env.select_write write_fd w ≡ done (pos 1) w
  pub write : (bytes : List ℕ) (w : World) → sys.sys_write write_fd bytes w ≡ raised w
  pub raises : (w : World) → sys.condition w ≡ condition

module _ (sys : System) (quiet : Unregistered sys) (env : Env)
    (nothing : (w : World) → env.run_cleanup_handlers w ≡ w) (fuel : ℕ) (s : Ptr)
    (read_fd write_fd : ℤ) (condition : Ptr) (broken : BrokenPipe sys env write_fd condition) where
  abbrev e : Ends
  e = ends read_fd write_fd

  abbrev handlers : Env
  handlers = demo_env sys env (suc fuel)

  -- Writing fails at once.
  write_message-broken :
      (src : Ptr) (w : World)
      → (w.fd_sources src).fd ≡ write_fd
      → write_message sys (suc fuel) src greetings 0 w ≡ raised w
  unfolding write_message
  write_message-broken src w i = rw (i, broken.write _ w) refl

  handler-HasLeft :
      (w : World)
      → (w.master_states s).state ≡ MasterStateCode.send_greetings
      → (w.fd_sources (s + 3)).fd ≡ write_fd
      → s ≢ null
      → Enlisted s w.memory
      → Returned (λ _. HasLeft s condition) (write_event_handler sys (suc fuel) (s + 3) w)
  unfolding write_event_handler
  handler-HasLeft w st i ne k =
      let v = with_enabled (s + 3) false w in
      rw
        (
          from_write_source s,
          disable_servicing-ok {p = s + 3} w (omega arith),
          st,
          message-Sends greets,
          write_message-broken (s + 3) v i,
        )
        (subst (λ c. Returned (λ _. HasLeft s c) (failed sys s v)) (broken.raises v)
          (failed-HasLeft sys quiet ne v k))

  caught-served :
      (r : Result (Unit {0}))
      → Returned (λ _. HasLeft s condition) r
      → Returned (λ _. HasLeft s condition) (Group.caught handlers (and_then r (λ _. done true)))
  unfolding Group.caught
  caught-served (done a w) k = rw (nothing w) k
  caught-served (raised w) k = absurd k
  caught-served fault k = k
  caught-served out_of_fuel k = k

  service-HasLeft :
      (w : World)
      → Standing s e MasterStateCode.send_greetings w
      → Returned (λ _. HasLeft s condition) (Group.service handlers (s + 3) w)
  unfolding Group.service demo_handle
  service-HasLeft w k =
      rw (write_source-has_event handlers w k.station 1 refl broken.in_set (broken.ready w)) (
        caught-served (write_event_handler sys (suc fuel) (s + 3) w)
          (handler-HasLeft w (rw k.state refl) (rw k.station.write_end refl) k.ne k.enlisted))

  wants_first :
      (w : World)
      → Started s e w
      → Group.Enter.wants_more (s + 1) 0 ((s + 3) ∷ (s + 2) ∷ []) w ≡ true
  wants_first w k =
      rw
        (
          k.group,
          k.standing.enlisted.loop_queue.members (s + 1) (ground arith),
          ==_of_ne k.standing.ne,
          k.loop,
        )
        refl

  -- The first round of the group: the source to write to comes first, and its event ends the rounds.
  rounds-HasLeft :
      (group_fuel : ℕ) (w : World)
      → Started s e w
      → Returned
          (λ _. HasLeft s condition)
          (Group.enter_loop handlers (suc (suc group_fuel)) (s + 1) 0 w)
  rounds-HasLeft group_fuel w k =
      rw (Group.Enter.enter_loop-round handlers (suc group_fuel) 0 w k.order (wants_first w k)) (
        Returned-and_then _ _ (on_memory (Queue.advance_current (s + 1)) w) _
          (Returned-on_memory _ (Queue.advance_current (s + 1)) w
            (advance_current-Holds ((s + 3) ∷ (s + 2) ∷ []) k.order))
          λ _ v (h, (q, sp), i).
            let k' : Standing s e MasterStateCode.send_greetings v =
              subst (Standing s e MasterStateCode.send_greetings) (sym i)
                (Standing-turned w h k.standing q sp) in
            Returned-and_then _ _ (Group.service handlers (s + 3) v) _ (service-HasLeft v k')
              λ _ v' l.
                rw (stops handlers v' l.loop_queue l.group_queue l.asked 1 group_fuel 0).0 l)

  group-HasLeft :
      (group_fuel : ℕ) (w : World)
      → Started s e w
      → Returned (λ _. HasLeft s condition) (Group.enter handlers (suc (suc group_fuel)) (s + 1) w)
  unfolding Group.enter Group.set_request
  group-HasLeft group_fuel w k =
      let ne : s + 1 ≢ null = omega arith in
      let v = Group.put_group (s + 1) (record (w.groups (s + 1)) { request_to_leave = false }) w in
      rw (==_of_ne ne) (
        Returned-and_then (λ _. HasLeft s condition) _
          (Group.enter_loop handlers (suc (suc group_fuel)) (s + 1) 0 v) _
          (rounds-HasLeft group_fuel v (Started-group_reset w k))
          λ _ v' l. rw (==_of_ne ne) (HasLeft-group_reset v' (s + 1) _ l))

  loop_rounds-HasLeft :
      (fuel' group_fuel : ℕ) (w : World)
      → Started s e w
      → Returned
          (λ _. HasLeft s condition)
          (Loop.enter_loop handlers (suc (suc fuel')) (suc (suc group_fuel)) s w)
  loop_rounds-HasLeft fuel' group_fuel w k =
      let q = k.standing.enlisted.loop_queue in
      rw
        (Loop.Enter.enter_loop-round handlers (suc fuel') (suc (suc group_fuel)) w q
          (rw k.loop refl))
        (Returned-and_then _ _ (on_memory (Queue.advance_current s) w) _
          (Returned-on_memory _ (Queue.advance_current s) w
            (advance_current-Holds ((s + 1) ∷ []) q))
          λ _ v (h, (q', sp), i).
            let k' : Started s e v = subst (Started s e) (sym i) (Started-advanced w h k q' sp) in
            Returned-and_then (λ _. HasLeft s condition) _
              (Group.enter handlers (suc (suc group_fuel)) (s + 1) v) _
              (group-HasLeft group_fuel v k')
              λ _ v' l.
                rw
                  (stops handlers v' l.loop_queue l.group_queue l.asked 0 fuel'
                    (suc (suc group_fuel))).1
                  l)

  pub enter-Quit :
      (fuel' group_fuel : ℕ) (w : World)
      → Started s e w
      → Returned
          (λ _. Quit s condition)
          (Loop.enter handlers (suc (suc fuel')) (suc (suc group_fuel)) s w)
  unfolding Loop.enter Loop.set_request
  enter-Quit fuel' group_fuel w k =
      let v = Loop.put_loop s (record { request_to_leave = false }) w in
      rw (==_of_ne k.standing.ne) (
        Returned-and_then (λ _. HasLeft s condition) _
          (Loop.enter_loop handlers (suc (suc fuel')) (suc (suc group_fuel)) s v) _
          (loop_rounds-HasLeft fuel' group_fuel v (Started-loop_reset w k))
          λ _ v' l. rw (==_of_ne k.standing.ne) (Quit-HasLeft v' l))
