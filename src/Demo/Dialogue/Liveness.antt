-- ===== src/Demo/Dialogue/Liveness.antt =====
-- The dialogue of demos/processes-communicating-through-pipes.c does not stop before its end.
use ccevents.Base.{
  ◌≡◌, ◌≢◌, ◌≤◌, ◌<◌, ◌+◌, ℕ, zero, suc, Bool, true, List, arith, ◌⊎◌, inl, inr, ◌∙◌, ap,
}
use ccevents.Memory.{Ptr, null, Memory}
use ccevents.Queue.Holds.{base_of}
use ccevents.World.{
  World, MasterStateCode, SlaveStateCode, Result, Returned, done, raised, fault, out_of_fuel, Env,
}
use ccevents.Source.{do_one_event}
use ccevents.Demo.System.{System, Unregistered}
use ccevents.Demo.Station.{Enlisted, with_pipes}
use ccevents.Demo.Master
use ccevents.Demo.Slave
use ccevents.Demo.Dialogue.{Kernel, demo_env, Config, Run, start, parent_served, child_served}
use ccevents.Demo.Dialogue.Turn.{Served}
use ccevents.Demo.Dialogue.Parent
use ccevents.Demo.Dialogue.Child
use ccevents.Demo.Dialogue.Invariant.{run-InPhase}
use ccevents.Demo.Dialogue.Phases.{
  Opening, Opening-InPhase, Phase, opening, greetings_sent, greetings_read, answer_sent,
  answer_read, farewell_sent, farewell_read, reply_sent, closed, Setting, master_ends, slave_ends,
  Wired, Pipes,
}

-- A call that returns true.
Returned-true :
    (P : World → Type 0) (r : Result Bool) → Returned (Served P) r → (w : World) × (r ≡ done true w)
Returned-true P (done b w) (e, p) = (w, ap (λ x. done x w) e)
Returned-true P (raised w) k = absurd k
Returned-true P fault k = absurd k
Returned-true P out_of_fuel k = absurd k

-- The group at `grp` holds both sources.
pub Enlisted-bases :
    {s : Ptr} {h : Memory}
    → Enlisted s h
    → (base_of h (s + 2) ≡ s + 1) × (base_of h (s + 3) ≡ s + 1)
Enlisted-bases k = elim k.group_queue [
  | inl q ↦ (q.members _ (ground arith), q.members _ (ground arith))
  | inr q ↦ (q.members _ (ground arith), q.members _ (ground arith))
]

-- A source in the group at `grp` that has an event.
abbrev pub HasEvent : Env → Ptr → World → Type 0
HasEvent env grp w =
    (src : Ptr) × (src ≢ null)
    × (base_of w.memory src ≡ grp)
    × ((w' : World) × (do_one_event env src w ≡ done true w'))

module _ (sys : System) (quiet : Unregistered sys) (env : Env) (z : Setting) (wired : Wired env z)
    (kernel : Kernel sys env z.pipe_of) (fuel : ℕ) where
  abbrev handlers : Env
  handlers = demo_env sys env (suc fuel)

  has_event :
      {n : ℕ} {code : MasterStateCode} {slave_code : SlaveStateCode} {a b : List ℕ} (d : Config)
      → n < 8
      → Phase n code slave_code a b
      → Master.Status.Status z.m (master_ends z) code (with_pipes d.parent d.pipes)
      → Slave.Status.Status z.s (slave_ends z) slave_code (with_pipes d.child d.pipes)
      → Pipes z a b d.pipes
      → HasEvent handlers (z.m + 1) (with_pipes d.parent d.pipes)
        ⊎ HasEvent handlers (z.s + 1) (with_pipes d.child d.pipes)
  has_event d l opening k sl pipes = inl (
    z.m + 3,
    omega arith,
    (Enlisted-bases k.enlisted).1,
    Returned-true _ _ (
        Parent.Sends-Served sys quiet env z.pipe_of kernel fuel z.m z.m_read z.m_write
          wired.parent_in_set (with_pipes d.parent d.pipes) k Master.Diagram.greets pipes.1),
  )
  has_event d l greetings_sent k sl pipes = inr (
    z.s + 2,
    omega arith,
    (Enlisted-bases sl.enlisted).0,
    Returned-true _ _ (
        Child.Receives-Served sys quiet env z.pipe_of kernel fuel z.s z.s_read z.s_write
          wired.child_in_set (with_pipes d.child d.pipes) sl Slave.Diagram.greeted
          (ap d.pipes wired.to_child ∙ pipes.1)),
  )
  has_event d l greetings_read k sl pipes = inr (
    z.s + 3,
    omega arith,
    (Enlisted-bases sl.enlisted).1,
    Returned-true _ _ (
        Child.Sends-Served sys quiet env z.pipe_of kernel fuel z.s z.s_read z.s_write
          wired.child_in_set (with_pipes d.child d.pipes) sl Slave.Diagram.greets
          (ap d.pipes wired.to_parent ∙ pipes.0)),
  )
  has_event d l answer_sent k sl pipes = inl (
    z.m + 2,
    omega arith,
    (Enlisted-bases k.enlisted).0,
    Returned-true _ _ (
        Parent.Receives-Served sys quiet env z.pipe_of kernel fuel z.m z.m_read z.m_write
          wired.parent_in_set (with_pipes d.parent d.pipes) k Master.Diagram.greeted pipes.0),
  )
  has_event d l answer_read k sl pipes = inl (
    z.m + 3,
    omega arith,
    (Enlisted-bases k.enlisted).1,
    Returned-true _ _ (
        Parent.Sends-Served sys quiet env z.pipe_of kernel fuel z.m z.m_read z.m_write
          wired.parent_in_set (with_pipes d.parent d.pipes) k Master.Diagram.parts pipes.1),
  )
  has_event d l farewell_sent k sl pipes = inr (
    z.s + 2,
    omega arith,
    (Enlisted-bases sl.enlisted).0,
    Returned-true _ _ (
        Child.Receives-Served sys quiet env z.pipe_of kernel fuel z.s z.s_read z.s_write
          wired.child_in_set (with_pipes d.child d.pipes) sl Slave.Diagram.parted
          (ap d.pipes wired.to_child ∙ pipes.1)),
  )
  has_event d l farewell_read k sl pipes = inr (
    z.s + 3,
    omega arith,
    (Enlisted-bases sl.enlisted).1,
    Returned-true _ _ (
        Child.ends-Served sys quiet env z.pipe_of kernel fuel z.s z.s_read z.s_write
          wired.child_in_set (with_pipes d.child d.pipes) sl
          (ap d.pipes wired.to_parent ∙ pipes.0)),
  )
  has_event d l reply_sent k sl pipes = inl (
    z.m + 2,
    omega arith,
    (Enlisted-bases k.enlisted).0,
    Returned-true _ _ (
        Parent.ends-Served sys quiet env z.pipe_of kernel fuel z.m z.m_read z.m_write
          wired.parent_in_set (with_pipes d.parent d.pipes) k pipes.0),
  )
  has_event d l closed k sl pipes = absurd (omega arith)

  -- Under the same conditions the processes do not wait for one another: in every configuration
  -- that is reached by fewer than eight served events, in whatever order, a source in the group of
  -- the parent or of the child has an event, whose call returns.
  pub run-continues :
      {c d : Config} {n : ℕ}
      → Opening z c
      → Run handlers z.m z.s c n d
      → n < 8
      → HasEvent handlers (z.m + 1) (with_pipes d.parent d.pipes)
        ⊎ HasEvent handlers (z.s + 1) (with_pipes d.child d.pipes)
  run-continues {d = d} o r l =
      let k = run-InPhase sys quiet env z wired kernel fuel (Opening-InPhase z o) r in
      has_event d l k.phase
        (Master.Status.Status-pipes z.m (master_ends z) k.code d.parent d.pipes k.master)
        (Slave.Status.Status-pipes z.s (slave_ends z) k.slave_code d.child d.pipes k.slave) k.pipes

  -- From the opening on, any number of events up to eight can be served.
  pub run-completes :
      {c : Config} → Opening z c → (n : ℕ) → n ≤ 8 → (d : Config) × Run handlers z.m z.s c n d
  run-completes {c = c} o zero l = (c, start)
  run-completes o (suc n) l =
      let (d, r) = run-completes o n (omega arith) in
      elim (run-continues o r (omega arith)) [
        | inl (src, ne, b, (w, e)) ↦ (_, parent_served src w r ne b e)
        | inr (src, ne, b, (w, e)) ↦ (_, child_served src w r ne b e)
      ]
