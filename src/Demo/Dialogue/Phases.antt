-- ===== src/Demo/Dialogue/Phases.antt =====
-- The phases of the dialogue of demos/processes-communicating-through-pipes.c, from the states of both
-- processes to the bytes in both pipes.
use ccevents.Base.{
  arith, ◌≤◌, ◌≡◌, refl, sym, subst, ◌≢◌, ◌≤◌, ℕ, suc, Bool, true, false, List, [], arith, ==_of_eq,
  ==_of_ne,
}
use ccevents.Base.Int.{ℤ}
use ccevents.Memory.{Ptr, update}
use ccevents.World.{World, MasterStateCode, SlaveStateCode, Result, Returned, Env, fits}
use ccevents.World.Rules.{Returned-weaken}
use ccevents.Demo.System.{greetings, farewell}
use ccevents.Demo.Station.{Ends}
use ccevents.Demo.Dialogue.{Config}
use ccevents.Demo.Dialogue.Turn.{Turn}
use ccevents.Demo.Master
use ccevents.Demo.Slave

-- After how many events which states are reached, and what is then in the pipe to the parent and in the
-- one to the child.
pub data Phase : ℕ → MasterStateCode → SlaveStateCode → (to_parent to_child : List ℕ) → Type 0 where
  opening : Phase 0 MasterStateCode.send_greetings SlaveStateCode.read_greetings [] []
  greetings_sent : Phase 1 MasterStateCode.read_greetings SlaveStateCode.read_greetings [] greetings
  greetings_read : Phase 2 MasterStateCode.read_greetings SlaveStateCode.send_greetings [] []
  answer_sent : Phase 3 MasterStateCode.read_greetings SlaveStateCode.read_farewell greetings []
  answer_read : Phase 4 MasterStateCode.send_farewell SlaveStateCode.read_farewell [] []
  farewell_sent : Phase 5 MasterStateCode.read_farewell SlaveStateCode.read_farewell [] farewell
  farewell_read : Phase 6 MasterStateCode.read_farewell SlaveStateCode.send_farewell [] []
  reply_sent : Phase 7 MasterStateCode.read_farewell SlaveStateCode.finished farewell []
  closed : Phase 8 MasterStateCode.finished SlaveStateCode.finished [] []

-- There are nine phases.
pub Phase-bound :
    {n : ℕ} {code : MasterStateCode} {slave_code : SlaveStateCode} {a b : List ℕ}
    → Phase n code slave_code a b
    → n ≤ 8
Phase-bound opening = omega arith
Phase-bound greetings_sent = omega arith
Phase-bound greetings_read = omega arith
Phase-bound answer_sent = omega arith
Phase-bound answer_read = omega arith
Phase-bound farewell_sent = omega arith
Phase-bound farewell_read = omega arith
Phase-bound reply_sent = omega arith
Phase-bound closed = omega arith

-- Where the states of the processes are, and which pipe each of their descriptors is an end of.
pub record Setting : Type 0 where
  pub pipe_of : ℤ → ℕ
  pub m : Ptr
  pub m_read : ℤ
  pub m_write : ℤ
  pub s : Ptr
  pub s_read : ℤ
  pub s_write : ℤ

abbrev pub master_ends : Setting → Ends
master_ends z = Master.Start.ends z.m_read z.m_write

abbrev pub slave_ends : Setting → Ends
slave_ends z = Slave.Start.ends z.s_read z.s_write

-- One pipe leads from the child to the parent, and another back, and the descriptors of their ends fit
-- into an `fd_set`.
pub record Wired (env : Env) (z : Setting) : Type 0 where
  pub to_parent : z.pipe_of z.s_write ≡ z.pipe_of z.m_read
  pub to_child : z.pipe_of z.s_read ≡ z.pipe_of z.m_write
  pub apart : z.pipe_of z.m_read ≢ z.pipe_of z.m_write
  pub parent_in_set : (fits env z.m_read ≡ true) × (fits env z.m_write ≡ true)
  pub child_in_set : (fits env z.s_read ≡ true) × (fits env z.s_write ≡ true)

abbrev pub Pipes : Setting → (to_parent to_child : List ℕ) → (ℕ → List ℕ) → Type 0
Pipes z a b pipes = (pipes (z.pipe_of z.m_read) ≡ a) × (pipes (z.pipe_of z.m_write) ≡ b)

-- The configuration is in the phase that follows `n` events.
pub record InPhase (z : Setting) (n : ℕ) (c : Config) : Type 0 where
  pub code : MasterStateCode
  pub slave_code : SlaveStateCode
  pub to_parent : List ℕ
  pub to_child : List ℕ
  pub phase : Phase n code slave_code to_parent to_child
  pub master : Master.Status.Status z.m (master_ends z) code c.parent
  pub slave : Slave.Status.Status z.s (slave_ends z) slave_code c.child
  pub pipes : Pipes z to_parent to_child c.pipes

-- It is in the next phase if an event was served.
abbrev pub After : Setting → Bool → ℕ → Config → Type 0
After z true n c = InPhase z (suc n) c
After z false n c = InPhase z n c

pub in_phase :
    (z : Setting) {n : ℕ} {code : MasterStateCode} {slave_code : SlaveStateCode} {a b : List ℕ}
    (c : Config)
    → Phase n code slave_code a b
    → Master.Status.Status z.m (master_ends z) code c.parent
    → Slave.Status.Status z.s (slave_ends z) slave_code c.child
    → Pipes z a b c.pipes
    → InPhase z n c
in_phase z {code = code} {slave_code = slave_code} {a = a} {b = b} c p k sl pipes = record {
  code = code;
  slave_code = slave_code;
  to_parent = a;
  to_child = b;
  phase = p;
  master = k;
  slave = sl;
  pipes = pipes;
}

-- From an event to the next phase, in a process whose world stands in a configuration.
pub from_Turn :
    (z : Setting) (P : World → Type 0) (n : ℕ) (w : World) (r : Result Bool) (c : World → Config)
    → Returned (Turn P w) r
    → InPhase z n (c w)
    → ((w' : World) → P w' → InPhase z (suc n) (c w'))
    → Returned (λ served w'. After z served n (c w')) r
from_Turn z P n w r c k stay step = Returned-weaken (Turn P w) _ r k go
  where
    go : (served : Bool) (w' : World) → Turn P w served w' → After z served n (c w')
    go true w' p = step w' p
    go false w' i = subst (λ v. InPhase z n (c v)) (sym i) stay

-- The pipe to the parent is written or read, and then the other one.
module _ (env : Env) (z : Setting) (wired : Wired env z) (f g : ℕ → List ℕ) {a b text : List ℕ}
    (k : Pipes z a b g) where
  pub parent_pipe-changed : f ≡ update g (z.pipe_of z.m_read) text → Pipes z text b f
  unfolding update
  parent_pipe-changed e = (
    rw (e, ==_of_eq {a = z.pipe_of z.m_read} refl) refl,
    rw (e, ==_of_ne (λ i. wired.apart (sym i))) k.1,
  )

  pub child_pipe-changed : f ≡ update g (z.pipe_of z.m_write) text → Pipes z a text f
  unfolding update
  child_pipe-changed e =
      (rw (e, ==_of_ne wired.apart) k.0, rw (e, ==_of_eq {a = z.pipe_of z.m_write} refl) refl)

-- Both processes are initialised, and nothing was written.
pub record Opening (z : Setting) (c : Config) : Type 0 where
  pub parent : Master.Start.Started z.m (master_ends z) c.parent
  pub child : Slave.Start.Started z.s (slave_ends z) c.child
  pub pipes : Pipes z [] [] c.pipes

pub Opening-InPhase : (z : Setting) {c : Config} → Opening z c → InPhase z 0 c
Opening-InPhase z {c} o = in_phase z c opening o.parent.standing o.child.standing o.pipes
