-- ===== src/Demo/Dialogue/Invariant.antt =====
-- What holds throughout the dialogue of demos/processes-communicating-through-pipes.c.
use ccevents.Base.{[], refl, ◌≡◌, ◌≢◌, ◌≤◌, ◌+◌, ℕ, suc, List, subst, arith}
use ccevents.Memory.{Ptr, null}
use ccevents.Queue.Holds.{base_of}
use ccevents.World.{World, MasterStateCode, SlaveStateCode, Returned, Env}
use ccevents.Source.{do_one_event}
use ccevents.Demo.System.{System, Unregistered}
use ccevents.Demo.Station.{with_pipes}
use ccevents.Demo.Dialogue.{
  Kernel, demo_env, Config, Run, parent_turned, child_turned, start, parent_idle, parent_served,
  child_idle, child_served,
}
use ccevents.Demo.Master
use ccevents.Demo.Slave
use ccevents.Demo.Dialogue.ParentTurns.{parent_turn}
use ccevents.Demo.Dialogue.ChildTurns.{child_turn}
use ccevents.World.Rules.{Returned-weaken}
use ccevents.Demo.Dialogue.Phases.{
  Opening, Opening-InPhase, Phase-bound, Pipes, Phase, opening, greetings_sent, greetings_read,
  answer_sent, answer_read, farewell_sent, farewell_read, reply_sent, closed, Setting, master_ends,
  slave_ends, Wired, InPhase, in_phase, After,
}

-- One of the two processes.
pub data Process : Type 0 where
  the_parent the_child : Process

abbrev pub world_of : Process → Config → World
world_of the_parent d = d.parent
world_of the_child d = d.child

abbrev pub grp_of : Setting → Process → Ptr
grp_of z the_parent = z.m + 1
grp_of z the_child = z.s + 1

module _ (sys : System) (quiet : Unregistered sys) (env : Env) (z : Setting) (wired : Wired env z)
    (kernel : Kernel sys env z.pipe_of) (fuel : ℕ) where
  -- An event of a source that is in the group of the parent, or of the child.
  parent_event :
      (n : ℕ) (d : Config) (src : Ptr)
      → InPhase z n d
      → src ≢ null
      → base_of d.parent.memory src ≡ z.m + 1
      → Returned
          (λ served w. After z served n (record { parent = w; child = d.child; pipes = w.pipes }))
          (do_one_event (demo_env sys env (suc fuel)) src (with_pipes d.parent d.pipes))
  parent_event n d src k ne b =
      parent_turn sys quiet env z wired kernel fuel d.child src (with_pipes d.parent d.pipes) ne b
        k.phase (Master.Status.Status-pipes z.m (master_ends z) k.code d.parent d.pipes k.master)
        k.slave k.pipes

  child_event :
      (n : ℕ) (d : Config) (src : Ptr)
      → InPhase z n d
      → src ≢ null
      → base_of d.child.memory src ≡ z.s + 1
      → Returned
          (λ served w. After z served n (record { parent = d.parent; child = w; pipes = w.pipes }))
          (do_one_event (demo_env sys env (suc fuel)) src (with_pipes d.child d.pipes))
  child_event n d src k ne b =
      child_turn sys quiet env z wired kernel fuel d.parent src (with_pipes d.child d.pipes) ne b
        k.phase k.master
        (Slave.Status.Status-pipes z.s (slave_ends z) k.slave_code d.child d.pipes k.slave) k.pipes

  pub run-InPhase :
      {c d : Config} {n : ℕ}
      → InPhase z 0 c
      → Run (demo_env sys env (suc fuel)) z.m z.s c n d
      → InPhase z n d
  run-InPhase k start = k
  run-InPhase k (parent_turned w r e) =
      let q = run-InPhase k r in
      in_phase z _ q.phase
        (subst (Returned _) e (Master.Status.Status-advanced z.m (master_ends z) q.code _ q.master))
        q.slave q.pipes
  run-InPhase k (child_turned w r e) =
      let q = run-InPhase k r in
      in_phase z _ q.phase q.master
        (subst (Returned _) e
          (Slave.Status.Status-advanced z.s (slave_ends z) q.slave_code _ q.slave))
        q.pipes
  run-InPhase k (parent_idle src w r ne b e) =
      subst (Returned _) e (parent_event _ _ src (run-InPhase k r) ne b)
  run-InPhase k (parent_served src w r ne b e) =
      subst (Returned _) e (parent_event _ _ src (run-InPhase k r) ne b)
  run-InPhase k (child_idle src w r ne b e) =
      subst (Returned _) e (child_event _ _ src (run-InPhase k r) ne b)
  run-InPhase k (child_served src w r ne b e) =
      subst (Returned _) e (child_event _ _ src (run-InPhase k r) ne b)

  -- Let the kernel do as POSIX says of two pipes, one from each process to the other, whose
  -- descriptors fit into an `fd_set`, and let a location with no registered handlers run none. Then
  -- in every run of both processes from their initialisation, in any order of the processes, of the
  -- turns of their groups and of their sources, at most eight events are served, and one event of
  -- any source in the group of either process returns: it fails no assertion, reads and writes
  -- nothing out of bounds, exits to no location and writes its message in one round.
  pub run-IsSafe :
      {c d : Config} {n : ℕ} (p : Process) (src : Ptr)
      → Opening z c
      → Run (demo_env sys env (suc fuel)) z.m z.s c n d
      → src ≢ null
      → base_of (world_of p d).memory src ≡ grp_of z p
      → (n ≤ 8)
        × Returned
            (λ _ _. Unit {0})
            (do_one_event (demo_env sys env (suc fuel)) src (with_pipes (world_of p d) d.pipes))
  run-IsSafe the_parent src o r ne b =
      let k = run-InPhase (Opening-InPhase z o) r in
      (Phase-bound k.phase, Returned-weaken _ _ _ (parent_event _ _ src k ne b) (λ _ _ _. tt))
  run-IsSafe the_child src o r ne b =
      let k = run-InPhase (Opening-InPhase z o) r in
      (Phase-bound k.phase, Returned-weaken _ _ _ (child_event _ _ src k ne b) (λ _ _ _. tt))

  closed-Phase :
      {n : ℕ} {code : MasterStateCode} {slave_code : SlaveStateCode} {a b : List ℕ} (d : Config)
      → n ≡ 8
      → Phase n code slave_code a b
      → Master.Status.Status z.m (master_ends z) code d.parent
      → Slave.Status.Status z.s (slave_ends z) slave_code d.child
      → Pipes z a b d.pipes
      → Master.Leaving.HasLeft z.m null d.parent
        × Slave.Leaving.HasLeft z.s null d.child
        × Pipes z [] [] d.pipes
  closed-Phase d e closed k sl pipes = (k, sl, pipes)
  closed-Phase d e opening k sl pipes = absurd (omega arith)
  closed-Phase d e greetings_sent k sl pipes = absurd (omega arith)
  closed-Phase d e greetings_read k sl pipes = absurd (omega arith)
  closed-Phase d e answer_sent k sl pipes = absurd (omega arith)
  closed-Phase d e answer_read k sl pipes = absurd (omega arith)
  closed-Phase d e farewell_sent k sl pipes = absurd (omega arith)
  closed-Phase d e farewell_read k sl pipes = absurd (omega arith)
  closed-Phase d e reply_sent k sl pipes = absurd (omega arith)

  -- Under the same conditions, after eight served events both processes are done, with no
  -- exceptional condition: the sources have left the groups, both groups are empty, both loops are
  -- asked to end, and both pipes are empty.
  pub run-HasLeft :
      {c d : Config}
      → Opening z c
      → Run (demo_env sys env (suc fuel)) z.m z.s c 8 d
      → Master.Leaving.HasLeft z.m null d.parent
        × Slave.Leaving.HasLeft z.s null d.child
        × Pipes z [] [] d.pipes
  run-HasLeft {d = d} o r =
      let k = run-InPhase (Opening-InPhase z o) r in
      closed-Phase d refl k.phase k.master k.slave k.pipes
