-- ===== src/Demo/Master.antt =====
-- The parent process of demos/processes-communicating-through-pipes.c, which starts the dialogue: the
-- state of the master, and its event handlers.
pub mod Diagram
pub mod Leaving
pub mod Turns
pub mod Start
pub mod Status
use ccevents.Base.{ℕ, ◌+◌, ◌-◌, List, [], length}
use ccevents.Base.Int.{ℤ}
use ccevents.Memory.{Ptr, null, update}
use ccevents.Source
use ccevents.Group
use ccevents.Loop
use ccevents.Timeval.{timeval_never}
use ccevents.World.{
  World, Handler, dummy_timeout, fd_readability, fd_writability, MasterStateCode, MasterState,
  fault, Prog, return, ◌>>=◌, ◌>>◌, modify, Env,
}
use ccevents.World.MasterStateCode.{
  read_greetings, send_greetings, read_farewell, send_farewell, finished,
}
use ccevents.Demo.Messages.{read_message, write_message}
use ccevents.Demo.System.{System, catch, assert, same_prefix, greetings, farewell}

-- The members of a `master_state_t` at `s`, which begins with its loop, and the way back.
abbrev pub grp : Ptr → Ptr
grp s = s + 1

abbrev pub read_source : Ptr → Ptr
read_source s = s + 2

abbrev pub write_source : Ptr → Ptr
write_source s = s + 3

abbrev pub state_pointer_from_read_source_pointer : Ptr → Ptr
state_pointer_from_read_source_pointer src = src - 2

abbrev pub state_pointer_from_write_source_pointer : Ptr → Ptr
state_pointer_from_write_source_pointer src = src - 3

-- The event handlers, as the environment of the demo names them.
abbrev pub read_handler : Handler
read_handler = Handler.client 0

abbrev pub write_handler : Handler
write_handler = Handler.client 1

abbrev pub put_master : Ptr → MasterState → World → World
put_master s m w = record w { master_states = update w.master_states s m }

-- `S->state = code`, `S->exceptional_condition = condition`
unfoldable pub set_state : Ptr → MasterStateCode → Prog (Unit {0})
set_state s code = modify λ w. put_master s (record (w.master_states s) { state = code }) w

unfoldable pub set_condition : Ptr → Ptr → Prog (Unit {0})
set_condition s condition =
    modify λ w. put_master s (record (w.master_states s) { exceptional_condition = condition }) w

unfoldable pub init : Ptr → ℤ → ℤ → Prog (Unit {0})
init s parent_read_fd parent_write_fd = do
  Source.fd_init (read_source s) parent_read_fd
  Source.fd_init (write_source s) parent_write_fd
  Source.fd_set (read_source s) fd_readability read_handler
  Source.fd_set (write_source s) fd_writability write_handler
  Source.set_timeout (read_source s) timeval_never dummy_timeout
  Source.set_timeout (write_source s) timeval_never dummy_timeout
  Group.init (grp s) 2
  Loop.init s
  Group.enqueue_source (grp s) (read_source s)
  Group.enqueue_source (grp s) (write_source s)
  Loop.enqueue_group s (grp s)
  Source.disable_servicing (read_source s)
  set_state s send_greetings
  set_condition s null

unfoldable pub task_final : Ptr → Prog (Unit {0})
task_final s = do
  set_state s finished
  Source.dequeue_itself (read_source s)
  Source.dequeue_itself (write_source s)
  Loop.post_request_to_leave s

-- The `switch` of `master_read_event_handler`.
unfoldable pub received : Ptr → List ℕ → MasterStateCode → Prog (Unit {0})
received s buf read_greetings = do
  assert (same_prefix (length greetings) greetings buf)
  set_state s send_farewell
  Source.disable_servicing (read_source s)
  Source.enable_servicing (write_source s)
received s buf read_farewell = do assert (same_prefix (length farewell) farewell buf); task_final s
received s buf send_greetings = λ w. fault
received s buf send_farewell = λ w. fault
received s buf finished = λ w. fault

-- The first `switch` of `master_write_event_handler`.
unfoldable pub message : MasterStateCode → Prog (List ℕ)
message send_greetings = return greetings
message send_farewell = return farewell
message read_greetings = λ w. fault
message read_farewell = λ w. fault
message finished = λ w. fault

-- The second one.
unfoldable pub sent : Ptr → MasterStateCode → Prog (Unit {0})
sent s send_greetings = do set_state s read_greetings; Source.enable_servicing (read_source s)
sent s send_farewell = do set_state s read_farewell; Source.enable_servicing (read_source s)
sent s read_greetings = λ w. fault
sent s read_farewell = λ w. fault
sent s finished = λ w. fault

module _ (sys : System) where
  unfoldable pub final : Env → (fuel group_fuel : ℕ) → Ptr → Prog (Unit {0})
  final env fuel group_fuel s = do
    Loop.final env fuel group_fuel s
    modify λ w. sys.close (w.fd_sources (read_source s)).fd w
    modify λ w. sys.close (w.fd_sources (write_source s)).fd w

  -- The branch of an event handler that a non-local exit of its scope enters.
  unfoldable pub failed : Ptr → Prog (Unit {0})
  failed s = do sys.run_error_handlers []; (λ w. set_condition s (sys.condition w) w); task_final s

  unfoldable pub read_event_handler : Ptr → Prog (Unit {0})
  read_event_handler src =
      let s = state_pointer_from_read_source_pointer src in
      catch
        (do
          buf ← read_message sys (read_source s)
          (λ w. received s buf (w.master_states s).state w)
          sys.run_cleanup_handlers [])
        (failed s)

  unfoldable pub write_event_handler : (fuel : ℕ) → Ptr → Prog (Unit {0})
  write_event_handler fuel src =
      let s = state_pointer_from_write_source_pointer src in
      catch
        (do
          Source.disable_servicing (write_source s)
          text ← (λ w. message (w.master_states s).state w)
          write_message sys fuel (write_source s) text 0
          (λ w. sent s (w.master_states s).state w)
          sys.run_cleanup_handlers [])
        (failed s)
