-- ===== src/Demo/Slave/Leaving.antt =====
-- How the slave of demos/processes-communicating-through-pipes.c leaves its loop, at the end of the
-- dialogue and after an error.
use ccevents.Base.{◌≡◌, ℕ, refl, ◌≢◌, true, false, List, [], ◌∷◌, ◌+◌, arith, ==_of_ne, sym, subst}
use ccevents.Memory.{Ptr, null, Memory, update}
use ccevents.Queue.Holds.{Holds, base_of}
use ccevents.Demo.Pair.{BothLeft, dequeue-both, with_memory, Holds-BothLeft}
use ccevents.Demo.Slave.Diagram.{Sends, message-Sends, from_read_source, from_write_source}
use ccevents.Demo.Station.{Enlisted, with_enabled, disable_servicing-ok}
use ccevents.Demo.System.{System, Unregistered}
use ccevents.Demo.Slave.{
  put_slave, task_final, failed, sent, set_state, set_condition, read_event_handler,
  write_event_handler,
}
use ccevents.Demo.Messages.{read_message, write_message}
use ccevents.Loop.{post_request_to_leave, set_request, put_loop}
use ccevents.World.{World, SlaveStateCode, Returned, raised}
use ccevents.World.SlaveStateCode.{finished, send_farewell}
use ccevents.World.Rules.{Returned-weaken}

-- The world after the sources of the slave at `s` left its group, with memory `h`.
abbrev pub departed : Ptr → Memory → World → World
departed s h w =
    put_loop s (record { request_to_leave = true })
      (with_memory (put_slave s (record (w.slave_states s) { state = finished }) w) h)

-- The sources are in no group, the group is empty, and the loop is asked to end.
pub record HasLeft (s : Ptr) (condition : Ptr) (w : World) : Type 0 where
  pub state : w.slave_states s ≡ record { state = finished; exceptional_condition = condition }
  pub loop_queue : Holds w.memory s ((s + 1) ∷ [])
  pub group_queue : Holds w.memory (s + 1) []
  pub read_source_free : base_of w.memory (s + 2) ≡ null
  pub write_source_free : base_of w.memory (s + 3) ≡ null
  pub asked : (w.loops s).request_to_leave ≡ true

-- `w'` is `w` after the slave left its loop.
abbrev pub Leaves : Ptr → World → World → Type 0
Leaves s w w' = (h : Memory) × BothLeft w.memory (s + 1) (s + 2) (s + 3) h × (w' ≡ departed s h w)

pub task_final-Returned :
    {s : Ptr} (w : World)
    → s ≢ null
    → Enlisted s w.memory
    → Returned (λ _. Leaves s w) (task_final s w)
unfolding task_final set_state post_request_to_leave set_request
task_final-Returned {s} w ne k =
    dequeue-both _ _ w (omega arith) k.group_queue λ h left. rw (==_of_ne ne) (h, left, refl)

-- The end of the dialogue takes the same steps in another order.
pub sent-Returned :
    {s : Ptr} (w : World)
    → s ≢ null
    → Enlisted s w.memory
    → Returned (λ _. Leaves s w) (sent s send_farewell w)
unfolding sent set_state post_request_to_leave set_request
sent-Returned {s} w ne k =
    dequeue-both _ _ (put_slave s (record (w.slave_states s) { state = finished }) w) (omega arith)
      k.group_queue λ h left. rw (==_of_ne ne) (h, left, refl)

pub HasLeft-Leaves :
    {s condition : Ptr} (w : World) {w' : World}
    → s ≢ null
    → (w.slave_states s).exceptional_condition ≡ condition
    → Enlisted s w.memory
    → Leaves s w w'
    → HasLeft s condition w'
unfolding update
HasLeft-Leaves {s} w ne c k (h, left, e) = subst (HasLeft s _) (sym e) (record {
  state = ground (arith, c);
  loop_queue = Holds-BothLeft k.group_queue left k.loop_queue (omega arith);
  group_queue = left.empty;
  read_source_free = left.first_free;
  write_source_free = left.second_free;
  asked = ground arith;
})

module _ (sys : System) (quiet : Unregistered sys) {s : Ptr} (ne : s ≢ null) where
  -- After an error the slave keeps the condition and leaves its loop.
  pub failed-HasLeft :
      (w : World)
      → Enlisted s w.memory
      → Returned (λ _. HasLeft s (sys.condition w)) (failed sys s w)
  unfolding failed set_condition update
  failed-HasLeft w k =
      let w' =
        put_slave s (record (w.slave_states s) { exceptional_condition = sys.condition w }) w in
      rw (quiet.on_error w) (
        Returned-weaken _ _ (task_final s w') (task_final-Returned w' ne k)
          (λ _ w''. HasLeft-Leaves w' ne (ground arith) k))

  -- Let a location with no registered handlers run none, and let the slave be set up in its loop,
  -- where a message cannot be read, or, in a state to send one that does not end the dialogue, not
  -- all of it be written. Then its event handlers return, the slave is done and keeps the
  -- condition, its sources have left the group, which is empty, and its loop is asked to end.
  pub slave_event_handlers-HasLeft :
      (fuel : ℕ) {next : SlaveStateCode} {text : List ℕ} (w w' v v' : World)
      → read_message sys (s + 2) (with_enabled (s + 2) false w) ≡ raised w'
      → Enlisted s w'.memory
      → Sends (v.slave_states s).state text next
      → write_message sys fuel (s + 3) text 0 (with_enabled (s + 3) false v) ≡ raised v'
      → Enlisted s v'.memory
      → Returned (λ _. HasLeft s (sys.condition w')) (read_event_handler sys (s + 2) w)
        × Returned (λ _. HasLeft s (sys.condition v')) (write_event_handler sys fuel (s + 3) v)
  unfolding read_event_handler write_event_handler
  slave_event_handlers-HasLeft fuel w w' v v' r k m q l = (
    rw (from_read_source s, disable_servicing-ok {p = s + 2} w (omega arith), r)
        (failed-HasLeft w' k),
    rw (from_write_source s, disable_servicing-ok {p = s + 3} v (omega arith), message-Sends m, q)
        (failed-HasLeft v' l),
  )
