-- ===== src/Demo/Master/Turns.antt =====
-- The turns of the master of demos/processes-communicating-through-pipes.c in the dialogue.
use ccevents.Base.{◌≡◌, ℕ, suc, refl, ap, ◌≢◌, Bool, true, false, List, [], length, ◌+◌, arith, ◌<◌}
use ccevents.Memory.{Ptr, null, update}
use ccevents.Demo.Station.{
  with_pipes, Station, Ends, Enlisted, with_enabled, enable_servicing-ok, disable_servicing-ok,
  Station-read_enabled, Station-write_enabled,
}
use ccevents.Demo.System.{System, Unregistered, buf_size, farewell, Returned-or_else}
use ccevents.Demo.Transfer.{write_message-whole, read_message-short}
use ccevents.Demo.Master.{
  put_master, set_state, read_event_handler, write_event_handler, failed, task_final,
}
use ccevents.Demo.Master.Diagram.{
  Sends, greets, parts, Receives, greeted, message-Sends, sent-Sends, received-Receives,
  received-farewell, from_read_source, from_write_source,
}
use ccevents.Demo.Master.Leaving.{Leaves, HasLeft, HasLeft-Leaves, task_final-Returned}
use ccevents.World.{World, MasterStateCode, Prog, Returned, done, and_then}
use ccevents.World.MasterStateCode.{
  read_greetings, send_greetings, read_farewell, send_farewell, finished,
}
use ccevents.World.Rules.{Returned-and_then}

-- Which of the sources is enabled in a state.
abbrev pub reads : MasterStateCode → Bool
reads read_greetings = true
reads read_farewell = true
reads send_greetings = false
reads send_farewell = false
reads finished = false

abbrev pub writes : MasterStateCode → Bool
writes send_greetings = true
writes send_farewell = true
writes read_greetings = false
writes read_farewell = false
writes finished = false

-- The master at `s` is in the state `code`, and waits for what comes next in it.
pub record Standing (s : Ptr) (e : Ends) (code : MasterStateCode) (w : World) : Type 0 where
  pub ne : s ≢ null
  pub state : w.master_states s ≡ record { state = code; exceptional_condition = null }
  pub station : Station s e (reads code) (writes code) w.sources w.fd_sources
  pub enlisted : Enlisted s w.memory

Sends-enables :
    {code next : MasterStateCode} {text : List ℕ}
    → Sends code text next
    → (reads next ≡ true) × (writes next ≡ false)
Sends-enables greets = (refl, refl)
Sends-enables parts = (refl, refl)

Receives-enables :
    {code next : MasterStateCode} {text : List ℕ}
    → Receives code text next
    → (reads next ≡ false) × (writes next ≡ true)
Receives-enables greeted = (refl, refl)

Receives-short :
    {code next : MasterStateCode} {text : List ℕ} → Receives code text next → length text < buf_size
Receives-short greeted = omega arith

module _ (sys : System) (quiet : Unregistered sys) {s : Ptr} {e : Ends} where
  pub write_event_handler-Standing :
      (fuel : ℕ) {code next : MasterStateCode} {text : List ℕ} (w : World) (p : ℕ → List ℕ)
      → Standing s e code w
      → Sends code text next
      → sys.sys_write e.write_fd text (with_enabled (s + 3) false w)
        ≡ done (length text) (with_pipes (with_enabled (s + 3) false w) p)
      → Returned
          (λ _ w'. Standing s e next w' × (w'.pipes ≡ p))
          (write_event_handler sys (suc fuel) (s + 3) w)
  unfolding write_event_handler set_state update
  write_event_handler-Standing fuel {next = next} {text = text} w p k m h =
      let w1 = with_enabled (s + 3) false w in
      let w2 = with_pipes w1 p in
      let w3 = put_master s (record { state = next; exceptional_condition = null }) w2 in
      rw
        (
          from_write_source s,
          disable_servicing-ok {p = s + 3} w (omega arith),
          k.state,
          message-Sends m,
          write_message-whole sys fuel (s + 3) text w1 w2 (rw k.station.write_end h),
          k.state,
          sent-Sends m s w2,
          k.state,
          enable_servicing-ok {p = s + 2} w3 (omega arith),
          quiet.on_success,
        )
        (
          record {
            ne = k.ne;
            state = ground arith;
            station =
                rw ((Sends-enables m).0, (Sends-enables m).1)
                  (Station-read_enabled w3 (Station-write_enabled w k.station false) true);
            enlisted = k.enlisted;
          },
          refl,
        )

  pub read_event_handler-Standing :
      {code next : MasterStateCode} {text : List ℕ} (w : World) (p : ℕ → List ℕ)
      → Standing s e code w
      → Receives code text next
      → sys.sys_read e.read_fd buf_size w ≡ done text (with_pipes w p)
      → Returned (λ _ w'. Standing s e next w' × (w'.pipes ≡ p)) (read_event_handler sys (s + 2) w)
  unfolding read_event_handler set_state update
  read_event_handler-Standing {next = next} {text = text} w p k m h =
      let w1 = with_pipes w p in
      let w2 = put_master s (record { state = next; exceptional_condition = null }) w1 in
      let w3 = with_enabled (s + 2) false w2 in
      rw
        (
          from_read_source s,
          read_message-short sys (s + 2) text w w1 (Receives-short m) (rw k.station.read_end h),
          k.state,
          received-Receives m s w1,
          k.state,
          disable_servicing-ok {p = s + 2} w2 (omega arith),
          enable_servicing-ok {p = s + 3} w3 (omega arith),
          quiet.on_success,
        )
        (
          record {
            ne = k.ne;
            state = ground arith;
            station =
                rw ((Receives-enables m).0, (Receives-enables m).1)
                  (Station-write_enabled w3 (Station-read_enabled w2 k.station false) true);
            enlisted = k.enlisted;
          },
          refl,
        )

  pub read_event_handler-HasLeft :
      (w : World) (p : ℕ → List ℕ)
      → Standing s e read_farewell w
      → sys.sys_read e.read_fd buf_size w ≡ done farewell (with_pipes w p)
      → Returned (λ _ w'. HasLeft s null w' × (w'.pipes ≡ p)) (read_event_handler sys (s + 2) w)
  unfolding read_event_handler
  read_event_handler-HasLeft w p k h =
      let w1 = with_pipes w p in
      let out : Unit {0} → World → Type 0 = λ _ w'. HasLeft s null w' × (w'.pipes ≡ p) in
      let f : Unit {0} → Prog (Unit {0}) = λ _. sys.run_cleanup_handlers [] in
      rw
        (
          from_read_source s,
          read_message-short sys (s + 2) farewell w w1 (omega arith) (rw k.station.read_end h),
          k.state,
          received-farewell s w1,
        )
        (Returned-or_else out (and_then (task_final s w1) f) (failed sys s) (
          Returned-and_then (λ _. Leaves s w1) out (task_final s w1) f
            (task_final-Returned w1 k.ne k.enlisted)
            λ _ w' l.
              rw (quiet.on_success w')
                (HasLeft-Leaves w1 k.ne (rw k.state refl) k.enlisted l, ap (λ v. v.pipes) l.2)))
