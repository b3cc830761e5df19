-- ===== src/Demo/Dialogue.antt =====
-- The dialogue of the two processes of demos/processes-communicating-through-pipes.c, one event of one
-- process at a time.
pub mod Events
pub mod Turn
pub mod Parent
pub mod Child
pub mod Phases
pub mod ParentTurns
pub mod ChildTurns
pub mod Beginning
pub mod Invariant
pub mod Liveness
use ccevents.Base.{◌≡◌, ◌≢◌, ◌≤◌, ℕ, zero, suc, ◌+◌, Bool, true, false, List, [], length}
use ccevents.Base.Int.{ℤ, pos}
use ccevents.Memory.{Ptr, null, update}
use ccevents.Queue
use ccevents.Queue.Holds.{base_of}
use ccevents.World.{World, Prog, done, on_memory, Env}
use ccevents.Source.{do_one_event}
use ccevents.Demo.System.{System, buf_size}
use ccevents.Demo.Station.{with_pipes}
use ccevents.Demo.Master
use ccevents.Demo.Slave

module _ (sys : System) (env : Env) (fuel : ℕ) where
  -- The event handlers of the demo, as its processes name them.
  unfoldable pub demo_handle : ℕ → Ptr → Prog (Unit {0})
  demo_handle zero src = Master.read_event_handler sys src
  demo_handle (suc zero) src = Master.write_event_handler sys fuel src
  demo_handle (suc (suc zero)) src = Slave.read_event_handler sys src
  demo_handle (suc (suc (suc zero))) src = Slave.write_event_handler sys fuel src
  demo_handle (suc (suc (suc (suc k)))) src = env.handle (k + 4) src

  abbrev pub demo_env : Env
  demo_env = record env { handle = demo_handle }

-- What POSIX says of a pipe that is not closed, of a message of at most as many bytes as the buffer
-- has, and of a write of at most 512 bytes, which is atomic.
pub record Kernel (sys : System) (env : Env) (pipe_of : ℤ → ℕ) : Type 0 where
  pub reads :
      (fd : ℤ) (text : List ℕ) (w : World)
      → w.pipes (pipe_of fd) ≡ text
      → text ≢ []
      → length text ≤ buf_size
      → sys.sys_read fd buf_size w ≡ done text (with_pipes w (update w.pipes (pipe_of fd) []))
  pub writes :
      (fd : ℤ) (text : List ℕ) (w : World)
      → w.pipes (pipe_of fd) ≡ []
      → length text ≤ 512
      → sys.sys_write fd text w
        ≡ done (length text) (with_pipes w (update w.pipes (pipe_of fd) text))
  pub is_readable :
      (fd : ℤ) (w : World) → w.pipes (pipe_of fd) ≢ [] → env.select_read fd w ≡ done (pos 1) w
  pub is_not_readable :
      (fd : ℤ) (w : World) → w.pipes (pipe_of fd) ≡ [] → env.select_read fd w ≡ done (pos 0) w
  pub is_writable :
      (fd : ℤ) (w : World) → w.pipes (pipe_of fd) ≡ [] → env.select_write fd w ≡ done (pos 1) w

-- The worlds of both processes, and the pipes, which they share.
pub record Config : Type 0 where
  pub parent : World
  pub child : World
  pub pipes : ℕ → List ℕ

-- The processes run in any order, each from one step of its group to the next, which turns to its next
-- source or tries to serve an event of one of its sources; the number counts the events that were
-- served.
pub data Run (env : Env) (m s : Ptr) : Config → ℕ → Config → Type 0 where
  start : {c : Config} → Run env m s c 0 c
  parent_turned :
      {c d : Config} {n : ℕ} (w : World)
      → Run env m s c n d
      → on_memory (Queue.advance_current (m + 1)) d.parent ≡ done tt w
      → Run env m s c n (record { parent = w; child = d.child; pipes = d.pipes })
  child_turned :
      {c d : Config} {n : ℕ} (w : World)
      → Run env m s c n d
      → on_memory (Queue.advance_current (s + 1)) d.child ≡ done tt w
      → Run env m s c n (record { parent = d.parent; child = w; pipes = d.pipes })
  parent_idle :
      {c d : Config} {n : ℕ} (src : Ptr) (w : World)
      → Run env m s c n d
      → src ≢ null
      → base_of d.parent.memory src ≡ m + 1
      → do_one_event env src (with_pipes d.parent d.pipes) ≡ done false w
      → Run env m s c n (record { parent = w; child = d.child; pipes = w.pipes })
  parent_served :
      {c d : Config} {n : ℕ} (src : Ptr) (w : World)
      → Run env m s c n d
      → src ≢ null
      → base_of d.parent.memory src ≡ m + 1
      → do_one_event env src (with_pipes d.parent d.pipes) ≡ done true w
      → Run env m s c (suc n) (record { parent = w; child = d.child; pipes = w.pipes })
  child_idle :
      {c d : Config} {n : ℕ} (src : Ptr) (w : World)
      → Run env m s c n d
      → src ≢ null
      → base_of d.child.memory src ≡ s + 1
      → do_one_event env src (with_pipes d.child d.pipes) ≡ done false w
      → Run env m s c n (record { parent = d.parent; child = w; pipes = w.pipes })
  child_served :
      {c d : Config} {n : ℕ} (src : Ptr) (w : World)
      → Run env m s c n d
      → src ≢ null
      → base_of d.child.memory src ≡ s + 1
      → do_one_event env src (with_pipes d.child d.pipes) ≡ done true w
      → Run env m s c (suc n) (record { parent = d.parent; child = w; pipes = w.pipes })
