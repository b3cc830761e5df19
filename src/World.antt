-- ===== src/World.antt =====
-- The state that event sources, groups and loops share, and the programs over it. A struct of
-- src/ccevents.h is a record at its address; a node and the struct that begins with it have the same
-- address, and so have a group or a loop and the queue that it holds.
pub mod Rules
pub mod Samples
use ccevents.Base.{ℕ, ◌==◌, ◌&&◌, not, if◌then◌else◌, Bool, List, Option, none, some}
use ccevents.Base.Int.{ℤ, pos, ltb_ℤ}
use ccevents.Memory.{Ptr, null, Memory, Cmd, update}
use ccevents.Timeval.{Timeval}

-- The event inquirers that a pointer can name: those of the library, and a client's own. A pointer that
-- is NULL or was never written is `not_set`, and a call through it is a fault.
pub data Inquirer : Type 0 where
  not_set dummy_true dummy_false fd_default : Inquirer
  fd_readability fd_writability fd_exception : Inquirer
  client : ℕ → Inquirer

-- The event handlers and the expiration handlers, in the same way.
pub data Handler : Type 0 where
  not_set dummy_handler dummy_timeout fd_default_handler : Handler
  client : ℕ → Handler

-- `ccevents_source_etable_t`: the methods table of each kind of source, or one of a client's.
pub data Etable : Type 0 where
  fd_methods task_methods timer_methods signal_methods : Etable
  client_methods : Inquirer → Handler → Etable

-- `ccevents_source_otable_t`: the default one, or one of a client's.
pub data Otable : Type 0 where
  default_otable : Otable
  client_otable : ℕ → Otable

-- `ccevents_source_t`, without its node.
pub record Source : Type 0 where
  pub otable : Otable
  pub etable : Etable
  pub expiration_time : Timeval
  pub expiration_handler : Handler
  pub enabled : Bool

-- `ccevents_fd_source_t`, without its source.
pub record FdSource : Type 0 where
  pub fd : ℤ
  pub event_inquirer : Inquirer
  pub event_handler : Handler

-- `ccevents_task_source_t`, without its source.
pub record TaskSource : Type 0 where
  pub event_inquirer : Inquirer
  pub event_handler : Handler

-- `ccevents_signal_bub_source_t`, without its source.
pub record SignalSource : Type 0 where
  pub signum : ℕ
  pub event_handler : Handler

-- `ccevents_group_t`, without its node and its queue of sources.
pub record Group : Type 0 where
  pub request_to_leave : Bool
  pub servicing_attempts_watermark : ℕ

-- `ccevents_loop_t`, without its queue of groups.
pub record Loop : Type 0 where
  pub request_to_leave : Bool

-- The state codes of the processes of demos/processes-communicating-through-pipes.c.
pub data MasterStateCode : Type 0 where
  read_greetings send_greetings read_farewell send_farewell finished : MasterStateCode

pub data SlaveStateCode : Type 0 where
  read_greetings send_greetings read_farewell send_farewell finished : SlaveStateCode

-- `master_state_t` and `slave_state_t`, without their loop, group and sources.
pub record MasterState : Type 0 where
  pub state : MasterStateCode
  pub exceptional_condition : Ptr

pub record SlaveState : Type 0 where
  pub state : SlaveStateCode
  pub exceptional_condition : Ptr

-- What the process does on a signal.
pub data Disposition : Type 0 where
  unset ignored bub_handler : Disposition

pub record World : Type 0 where
  pub memory : Memory
  pub sources : Ptr → Source
  pub fd_sources : Ptr → FdSource
  pub task_sources : Ptr → TaskSource
  pub signal_sources : Ptr → SignalSource
  pub groups : Ptr → Group
  pub loops : Ptr → Loop
  pub master_states : Ptr → MasterState
  pub slave_states : Ptr → SlaveState
  -- The static array of src/ccevents-sources-signal.c.
  pub arrived_signals : ℕ → ℕ
  pub dispositions : ℕ → Disposition
  pub signals_blocked : Bool
  -- How often the clock was read, and how often signals were unblocked.
  pub clock_reads : ℕ
  pub unblocks : ℕ
  -- The bytes in the pipes, which no function of the library or of the demo reads or writes itself.
  pub pipes : ℕ → List ℕ

-- A call returns, exits to its `cce_location_t`, goes wrong (it reads or writes out of bounds, or fails
-- an `assert`), or is cut off by the model's fuel. What was written before a non-local exit stays written.
pub data Result (A : Type 0) : Type 0 where
  done : A → World → Result A
  raised : World → Result A
  fault : Result A
  out_of_fuel : Result A

abbrev pub Prog : Type 0 → Type 0
Prog A = World → Result A

abbrev pub return : {A : Type 0} → A → Prog A
return = done

abbrev pub and_then : {A B : Type 0} → Result A → (A → Prog B) → Result B
and_then (done a w) f = f a w
and_then (raised w) f = raised w
and_then fault f = fault
and_then out_of_fuel f = out_of_fuel

infixl 5 ◌>>=◌ ◌>>◌
abbrev pub ◌>>=◌ : {A B : Type 0} → Prog A → (A → Prog B) → Prog B
m >>= f = λ w. and_then (m w) f

abbrev pub ◌>>◌ : {B : Type 0} → Prog (Unit {0}) → Prog B → Prog B
m >> k = m >>= λ _. k

-- The result of a queue command in the world.
abbrev pub from_memory : {A : Type 0} → World → Option (A × Memory) → Result A
from_memory w none = fault
from_memory w (some (a, h)) = done a (record w { memory = h })

-- A queue command, on the nodes and queues of the world.
abbrev pub on_memory : {A : Type 0} → Cmd A → Prog A
on_memory c w = from_memory w (c w.memory)

abbrev pub modify : (World → World) → Prog (Unit {0})
modify f w = done tt (f w)

-- A write to a struct at `p`; NULL is a fault.
abbrev pub at : {A : Type 0} → Ptr → Prog A → Prog A
at p m w = if p == null then fault else m w

-- The call returns, and its result and the world that it leaves have the property.
abbrev pub Returned : {A : Type 0} → (A → World → Type 0) → Result A → Type 0
Returned P (done a w) = P a w
Returned P (raised w) = ⊥
Returned P fault = ⊥
Returned P out_of_fuel = ⊥

-- The functions that the library calls and does not define: a client's callbacks, `gettimeofday`,
-- `cce_sys_select`, the handlers of ccexceptions, and the kernel: which descriptors fit into an `fd_set`,
-- for which signals `sigaction` succeeds, and the signals that it delivers, of which none has a default
-- action that ends the process.
pub record Env : Type 0 where
  pub inquire : ℕ → Ptr → Prog Bool
  pub handle : ℕ → Ptr → Prog (Unit {0})
  pub finalise : ℕ → Ptr → Prog (Unit {0})
  pub time_at : ℕ → Timeval
  pub select_read : ℤ → Prog ℤ
  pub select_write : ℤ → Prog ℤ
  pub select_except : ℤ → Prog ℤ
  pub run_error_handlers_final : World → World
  pub run_cleanup_handlers : World → World
  pub fd_setsize : ℕ
  pub nsig : ℕ
  pub accepts_action : ℕ → Bool
  pub delivered_by_unblock : ℕ → List ℕ

-- Whether the descriptor has a bit in an `fd_set`.
abbrev pub fits : Env → ℤ → Bool
fits env fd = not (ltb_ℤ fd (pos 0)) && ltb_ℤ fd (pos env.fd_setsize)
