-- ===== src/Demo/ChildProcess.antt =====
-- The whole child process of demos/processes-communicating-through-pipes.c with a pipe that cannot be
-- read.
use ccevents.Base.{◌≡◌, refl, ◌≢◌, ◌+◌, ℕ, suc, List, ◌∷◌, arith}
use ccevents.Base.Int.{ℤ}
use ccevents.Memory.{Ptr, null}
use ccevents.Queue.Itself.{dequeue_itself-free}
use ccevents.World.{World, Prog, Returned, and_then, Env, return, ◌>>◌}
use ccevents.World.Rules.{Returned-and_then}
use ccevents.Group.Final.{Finalises}
use ccevents.Loop
use ccevents.Source.{dequeue_itself}
use ccevents.Demo.System.{System, RunsHandlers, CceHandler, Returned-either_way, Returned-or_else}
use ccevents.Demo.Setup.{Vacant}
use ccevents.Demo.Dialogue.{demo_env}
use ccevents.Demo.Slave
use ccevents.Demo.Processes.{
  child_process, process_failed, delete_condition, cleanup_handler_slave_state, exit_success,
  exit_failure,
}
use ccevents.Demo.Cleanup.{
  SparesMemory, BothEmpty, deleted, handled_both, closing_both, wind_down-BothEmpty,
}
use ccevents.Demo.Unreadable.{Unreadable, Departed, enter-Departed}

module _ (sys : System) (runs : RunsHandlers sys) (spares : SparesMemory sys) (s : Ptr) where
  -- The sources, which are in no queue, are not taken out again.
  finalised :
      (env : Env) (f : Finalises env) (fuel group_fuel : ℕ) (w : World)
      → Departed s w.memory
      → Returned
          (λ _ w'. BothEmpty s w'.memory)
          (Slave.final sys env (suc (suc fuel)) (suc group_fuel) s w)
  unfolding Slave.final dequeue_itself
  finalised env f fuel group_fuel w d =
      rw
        (
          dequeue_itself-free w.memory {n = s + 2} (omega arith) d.read_source_free,
          dequeue_itself-free w.memory {n = s + 3} (omega arith) d.write_source_free,
        )
        (wind_down-BothEmpty sys runs spares s env f fuel group_fuel w d.loop_queue d.group_queue)

  module _ (env : Env) (f : Finalises env) (nothing : (w : World) → env.run_cleanup_handlers w ≡ w)
      (fuel fuel' group_fuel : ℕ) (read_fd write_fd : ℤ) (condition : Ptr)
      (unreadable : Unreadable sys env read_fd condition) where
    abbrev handlers : Env
    handlers = demo_env sys env fuel

    handlers-Finalises : Finalises handlers
    handlers-Finalises = record { untouched = f.untouched }

    abbrev registered : List CceHandler
    registered =
        cleanup_handler_slave_state sys handlers (suc (suc fuel')) (suc (suc (suc group_fuel))) s
        ∷ closing_both sys runs spares read_fd write_fd

    -- What the process is to end with.
    abbrev Succeeds : ℕ → World → Type 0
    Succeeds status w = (status ≡ exit_success) × BothEmpty s w.memory

    -- What follows the loop.
    abbrev tidy : Prog ℕ
    tidy =
        (λ w. delete_condition sys (w.slave_states s).exceptional_condition w)
        >> (sys.run_cleanup_handlers registered >> return exit_success)

    -- The handlers that run at the end, from a loop that was left.
    cleaned_up : (w : World) → Departed s w.memory → Returned Succeeds (tidy w)
    cleaned_up w d =
        Returned-and_then _ Succeeds
          (delete_condition sys (w.slave_states s).exceptional_condition w) _
          (deleted sys runs spares (w.slave_states s).exceptional_condition w (Departed s) d)
          λ _ v d'.
            Returned-and_then (λ _ w'. BothEmpty s w'.memory) Succeeds
              (sys.run_cleanup_handlers registered v) _
              (rw (runs.cleanup_on_success) (
                Returned-and_then _ _
                  (Slave.final sys handlers (suc (suc fuel')) (suc (suc (suc group_fuel))) s v) _
                  (finalised handlers handlers-Finalises fuel' (suc (suc group_fuel)) v d')
                  λ _ u e. handled_both sys runs spares read_fd write_fd u (BothEmpty s) e))
              λ _ u e. (refl, e)

    -- Let handlers run as ccexceptions says, let finalisers, and what closes descriptors and
    -- deletes conditions, return and leave the nodes and the queues alone, let no node claim to be
    -- in the queues of the loop and of the group, and let the pipe from the parent have a
    -- descriptor that fits into an `fd_set` and be ready to be read while every read of it fails,
    -- always with the same condition. Then the child process returns, with two rounds of its loop
    -- and three of its group, leaves both empty, and its exit status is that of a success.
    pub child_process-Succeeds :
        (w : World)
        → s ≢ null
        → Vacant s w
        → Returned
            (λ status w'. (status ≡ exit_success) × BothEmpty s w'.memory)
            (child_process sys handlers
              (suc (suc fuel'))
              (suc (suc (suc group_fuel)))
              s
              read_fd
              write_fd
              w)
    unfolding child_process
    child_process-Succeeds w ne u =
        Returned-either_way _ _ (Slave.init s read_fd write_fd w) _ _
          (Slave.Start.slave_init-Started s read_fd write_fd w ne u)
          λ _ v (k, _).
            let entered = Loop.enter handlers (suc (suc fuel')) (suc (suc (suc group_fuel))) s v in
            Returned-or_else Succeeds (and_then entered (λ _. tidy))
              (process_failed sys registered >> return exit_failure)
              (Returned-and_then (λ _ w'. Departed s w'.memory) Succeeds entered (λ _. tidy)
                (enter-Departed sys runs.nothing env nothing fuel s ne read_fd write_fd condition
                  unreadable fuel' group_fuel v k)
                λ _ v' d. cleaned_up v' d)
