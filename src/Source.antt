-- ===== src/Source.antt =====
-- Event sources of every kind: src/ccevents-sources-base.c, -fd.c, -task.c, -timer.c and -signal.c.
pub mod Events
pub mod Setup
pub mod Expiry
pub mod Kinds
pub mod Inquired
pub mod Timed
mod Tests
use ccevents.Base.{ℕ, suc, ◌==◌, if◌then◌else◌, Bool, true, false, not, ◌&&◌}
use ccevents.Base.Int.{ℤ, pos, ltb_ℤ}
use ccevents.Memory.{Ptr, null, update}
use ccevents.Queue
use ccevents.Timeval.{Timeval, timeval_never, is_infinite_timeout, is_expired_timeout}
use ccevents.Signal.{set_arrived, bub_delivered}
use ccevents.World.{
  fault, fits, World, Inquirer, dummy_true, dummy_false, fd_default, fd_readability, fd_writability,
  fd_exception, Handler, dummy_handler, dummy_timeout, fd_default_handler, Etable, fd_methods,
  task_methods, timer_methods, signal_methods, client_methods, Otable, default_otable,
  client_otable, Source, FdSource, TaskSource, SignalSource, done, Prog, return, ◌>>=◌, ◌>>◌,
  on_memory, modify, at, Env,
}

-- Writes to the structs.
abbrev pub put_source : Ptr → Source → World → World
put_source src s w = record w { sources = update w.sources src s }

abbrev pub put_fd : Ptr → FdSource → World → World
put_fd src s w = record w { fd_sources = update w.fd_sources src s }

abbrev pub put_task : Ptr → TaskSource → World → World
put_task src s w = record w { task_sources = update w.task_sources src s }

abbrev pub put_signal : Ptr → SignalSource → World → World
put_signal src s w = record w { signal_sources = update w.signal_sources src s }

-- A source as `ccevents_source_init` leaves it.
abbrev pub fresh_source : Etable → Source
fresh_source etable = record {
  otable = default_otable;
  etable = etable;
  expiration_time = timeval_never;
  expiration_handler = dummy_timeout;
  enabled = true;
}

unfoldable pub init : Ptr → Etable → Prog (Unit {0})
init src etable = do on_memory (Queue.node_init src); modify (put_source src (fresh_source etable))

unfoldable pub set_otable : Ptr → Otable → Prog (Unit {0})
set_otable src otable =
    at src (modify λ w. put_source src (record (w.sources src) { otable = otable }) w)

unfoldable pub set_timeout : Ptr → Timeval → Handler → Prog (Unit {0})
set_timeout src time handler = at src (
    modify λ w.
      put_source src
        (record (w.sources src) { expiration_time = time; expiration_handler = handler }) w)

unfoldable pub enable_servicing : Ptr → Prog (Unit {0})
enable_servicing src =
    at src (modify λ w. put_source src (record (w.sources src) { enabled = true }) w)

unfoldable pub disable_servicing : Ptr → Prog (Unit {0})
disable_servicing src =
    at src (modify λ w. put_source src (record (w.sources src) { enabled = false }) w)

unfoldable pub servicing_is_enabled : Ptr → Prog Bool
servicing_is_enabled src = at src (λ w. done (w.sources src).enabled w)

unfoldable pub dequeue_itself : Ptr → Prog (Unit {0})
dequeue_itself src = on_memory (Queue.node_dequeue_itself src)

unfoldable pub is_enqueued : Ptr → Prog Bool
is_enqueued src = on_memory (Queue.node_is_enqueued src)

-- The group whose queue the node is in; NULL if there is none.
unfoldable pub get_group : Ptr → Prog Ptr
get_group src = at src (λ w. done (w.memory.nodes src).base w)

unfoldable pub fd_init : Ptr → ℤ → Prog (Unit {0})
fd_init src fd = do
  init src fd_methods
  modify (
      put_fd src
        (record { fd = fd; event_inquirer = fd_default; event_handler = fd_default_handler }))

unfoldable pub fd_set : Ptr → Inquirer → Handler → Prog (Unit {0})
fd_set src inquirer handler = at src (
    modify λ w.
      put_fd src (record (w.fd_sources src) { event_inquirer = inquirer; event_handler = handler })
        w)

-- The fields that `ccevents_task_source_set` sets are left as they are.
unfoldable pub task_init : Ptr → Prog (Unit {0})
task_init src = init src task_methods

unfoldable pub task_set : Ptr → Inquirer → Handler → Prog (Unit {0})
task_set src inquirer handler =
    at src (modify (put_task src (record { event_inquirer = inquirer; event_handler = handler })))

unfoldable pub timer_init : Ptr → Prog (Unit {0})
timer_init src = init src timer_methods

unfoldable pub signal_init : Env → Ptr → ℕ → Prog (Unit {0})
signal_init env src signum = do
  init src signal_methods
  modify (λ w. put_signal src (record (w.signal_sources src) { signum = signum }) w)
  set_arrived env signum 0

unfoldable pub signal_set : Ptr → Handler → Prog (Unit {0})
signal_set src handler =
    at src
      (modify λ w. put_signal src (record (w.signal_sources src) { event_handler = handler }) w)

module _ (env : Env) where
  abbrev pub is_one : ℤ → Bool
  is_one rv = not (ltb_ℤ rv (pos 1)) && not (ltb_ℤ (pos 1) rv)

  -- `FD_ZERO` and `FD_SET`: the set has `FD_SETSIZE` bits, and another bit is out of bounds.
  unfoldable pub in_fd_set : ℤ → Prog (Unit {0})
  in_fd_set fd w = if fits env fd then done tt w else fault

  unfoldable pub query_fd_readability : Ptr → Prog Bool
  query_fd_readability src = at src λ w.
      (do
        in_fd_set (w.fd_sources src).fd
        rv ← env.select_read (w.fd_sources src).fd
        return (is_one rv))
        w

  unfoldable pub query_fd_writability : Ptr → Prog Bool
  query_fd_writability src = at src λ w.
      (do
        in_fd_set (w.fd_sources src).fd
        rv ← env.select_write (w.fd_sources src).fd
        return (is_one rv))
        w

  unfoldable pub query_fd_exception : Ptr → Prog Bool
  query_fd_exception src = at src λ w.
      (do
        in_fd_set (w.fd_sources src).fd
        rv ← env.select_except (w.fd_sources src).fd
        return (is_one rv))
        w

  -- The call of an event inquirer through a pointer.
  unfoldable pub call_inquirer : Inquirer → Ptr → Prog Bool
  call_inquirer Inquirer.not_set src = λ w. fault
  call_inquirer dummy_true src = return true
  call_inquirer dummy_false src = return false
  call_inquirer fd_default src = return false
  call_inquirer fd_readability src = query_fd_readability src
  call_inquirer fd_writability src = query_fd_writability src
  call_inquirer fd_exception src = query_fd_exception src
  call_inquirer (Inquirer.client k) src = env.inquire k src

  -- The call of an event handler or of an expiration handler through a pointer.
  unfoldable pub call_handler : Handler → Ptr → Prog (Unit {0})
  call_handler Handler.not_set src = λ w. fault
  call_handler dummy_handler src = return tt
  call_handler dummy_timeout src = return tt
  call_handler fd_default_handler src = return tt
  call_handler (Handler.client k) src = env.handle k src

  -- The methods of each kind of source.
  abbrev pub fd_event_inquirer : Ptr → Prog Bool
  fd_event_inquirer src w = call_inquirer (w.fd_sources src).event_inquirer src w

  abbrev pub fd_event_handler : Ptr → Prog (Unit {0})
  fd_event_handler src w = call_handler (w.fd_sources src).event_handler src w

  abbrev pub task_event_inquirer : Ptr → Prog Bool
  task_event_inquirer src w = call_inquirer (w.task_sources src).event_inquirer src w

  abbrev pub task_event_handler : Ptr → Prog (Unit {0})
  task_event_handler src w = call_handler (w.task_sources src).event_handler src w

  abbrev pub timer_event_inquirer : Ptr → Prog Bool
  timer_event_inquirer src w = done false w

  abbrev pub timer_event_handler : Ptr → Prog (Unit {0})
  timer_event_handler src w = done tt w

  abbrev pub signal_event_inquirer : Ptr → Prog Bool
  signal_event_inquirer src w = bub_delivered env (w.signal_sources src).signum w

  abbrev pub signal_event_handler : Ptr → Prog (Unit {0})
  signal_event_handler src w = call_handler (w.signal_sources src).event_handler src w

  -- The `event_inquirer` of a methods table.
  unfoldable pub inquire_by : Etable → Ptr → Prog Bool
  inquire_by fd_methods src w = fd_event_inquirer src w
  inquire_by task_methods src w = task_event_inquirer src w
  inquire_by timer_methods src w = timer_event_inquirer src w
  inquire_by signal_methods src w = signal_event_inquirer src w
  inquire_by (client_methods inquirer _) src w = call_inquirer inquirer src w

  -- The `event_handler` of a methods table.
  unfoldable pub handle_by : Etable → Ptr → Prog (Unit {0})
  handle_by fd_methods src w = fd_event_handler src w
  handle_by task_methods src w = task_event_handler src w
  handle_by timer_methods src w = timer_event_handler src w
  handle_by signal_methods src w = signal_event_handler src w
  handle_by (client_methods _ handler) src w = call_handler handler src w

  unfoldable pub query : Ptr → Prog Bool
  query src = at src λ w. inquire_by (w.sources src).etable src w

  unfoldable pub handle_event : Ptr → Prog (Unit {0})
  handle_event src = at src λ w. handle_by (w.sources src).etable src w

  unfoldable pub handle_expiration : Ptr → Prog (Unit {0})
  handle_expiration src = at src λ w. call_handler (w.sources src).expiration_handler src w

  unfoldable pub final_by : Otable → Ptr → Prog (Unit {0})
  final_by default_otable src = return tt
  final_by (client_otable k) src = env.finalise k src

  unfoldable pub final : Ptr → Prog (Unit {0})
  final src = at src λ w. final_by (w.sources src).otable src w

  -- `ccevents_timeval_is_expired_timeout`, which reads the clock unless the time is infinite.
  unfoldable pub is_expired_now : Timeval → Prog Bool
  is_expired_now time w =
      if is_infinite_timeout time
      then done false w
      else done (is_expired_timeout (env.time_at w.clock_reads) time)
          (record w { clock_reads = suc w.clock_reads })

  unfoldable pub do_one_event : Ptr → Prog Bool
  do_one_event src = do
    enabled ← servicing_is_enabled src
    if enabled
        then (do
          expired ← (λ w. is_expired_now (w.sources src).expiration_time w)
          if expired then handle_expiration src >> return true else (do
            pending ← query src
            if pending then handle_event src >> return true else return false))
        else return false
