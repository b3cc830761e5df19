-- ===== src/Demo/ParentProcess.antt =====
-- The whole parent process of demos/processes-communicating-through-pipes.c with a broken pipe.
use ccevents.Base.{◌≡◌, ◌≢◌, ◌+◌, ℕ, suc, List, [], ◌∷◌}
use ccevents.Base.Int.{ℤ}
use ccevents.Memory.{Ptr, null}
use ccevents.Queue.Holds.{Holds}
use ccevents.World.{World, Prog, Returned, and_then, Env, ◌>>◌}
use ccevents.World.Rules.{Returned-and_then}
use ccevents.Group.Final.{Finalises}
use ccevents.Loop
use ccevents.Demo.System.{System, RunsHandlers, CceHandler, Returned-either_way, Returned-or_else}
use ccevents.Demo.Setup.{Vacant}
use ccevents.Demo.Dialogue.{demo_env}
use ccevents.Demo.Master
use ccevents.Demo.Processes.{
  parent_process, process_failed, delete_condition, cleanup_handler_master_state,
}
use ccevents.Demo.Cleanup.{
  SparesMemory, BothEmpty, deleted, handled_both, closing_both, wind_down-BothEmpty,
}
use ccevents.Demo.Reset.{Quit}
use ccevents.Demo.BrokenPipe.{BrokenPipe, enter-Quit}

module _ (sys : System) (runs : RunsHandlers sys) (spares : SparesMemory sys) (s : Ptr) where
  finalised :
      (env : Env) (f : Finalises env) (fuel group_fuel : ℕ) (w : World)
      → Holds w.memory s ((s + 1) ∷ [])
      → Holds w.memory (s + 1) []
      → Returned
          (λ _ w'. BothEmpty s w'.memory)
          (Master.final sys env (suc (suc fuel)) (suc group_fuel) s w)
  unfolding Master.final
  finalised env f fuel group_fuel w k g =
      wind_down-BothEmpty sys runs spares s env f fuel group_fuel w k g

  module _ (env : Env) (f : Finalises env) (nothing : (w : World) → env.run_cleanup_handlers w ≡ w)
      (fuel fuel' group_fuel : ℕ) (read_fd write_fd : ℤ) (condition : Ptr)
      (broken : BrokenPipe sys env write_fd condition) where
    abbrev handlers : Env
    handlers = demo_env sys env (suc fuel)

    handlers-Finalises : Finalises handlers
    handlers-Finalises = record { untouched = f.untouched }

    abbrev registered : List CceHandler
    registered =
        cleanup_handler_master_state sys handlers (suc (suc fuel')) (suc (suc group_fuel)) s
        ∷ closing_both sys runs spares read_fd write_fd

    -- What follows the loop.
    abbrev tidy : Prog (Unit {0})
    tidy =
        (λ w. delete_condition sys (w.master_states s).exceptional_condition w)
        >> sys.run_cleanup_handlers registered

    -- The handlers that run at the end, from a loop that was left.
    cleaned_up :
        (w : World) → Quit s condition w → Returned (λ _ w'. BothEmpty s w'.memory) (tidy w)
    cleaned_up w q =
        Returned-and_then _ _ (delete_condition sys (w.master_states s).exceptional_condition w) _
          (deleted sys runs spares (w.master_states s).exceptional_condition w
            (λ h. Holds h s ((s + 1) ∷ []) × Holds h (s + 1) []) (q.loop_queue, q.group_queue))
          λ _ v (k, g). rw (runs.cleanup_on_success) (
            Returned-and_then _ _
              (Master.final sys handlers (suc (suc fuel')) (suc (suc group_fuel)) s v) _
              (finalised handlers handlers-Finalises fuel' (suc group_fuel) v k g)
              λ _ u e. handled_both sys runs spares read_fd write_fd u (BothEmpty s) e)

    -- Let handlers run as ccexceptions says, let finalisers, and what closes descriptors and
    -- deletes conditions, return and leave the nodes and the queues alone, let no node claim to be
    -- in the queues of the loop and of the group, and let the pipe to the child have a descriptor
    -- that fits into an `fd_set` and be ready to be written while every write to it fails, always
    -- with the same condition. Then the parent process returns, from the initialisation of its
    -- state over its loop and the handler that fails to the cleanup handlers, with two rounds of
    -- its loop and of its group, and leaves both empty.
    pub parent_process-Returned :
        (w : World)
        → s ≢ null
        → Vacant s w
        → Returned
            (λ _ w'. BothEmpty s w'.memory)
            (parent_process sys handlers
              (suc (suc fuel'))
              (suc (suc group_fuel))
              s
              read_fd
              write_fd
              w)
    unfolding parent_process
    parent_process-Returned w ne u =
        Returned-either_way _ _ (Master.init s read_fd write_fd w) _ _
          (Master.Start.init-Started s read_fd write_fd w ne u)
          λ _ v (k, _).
            let out : Unit {0} → World → Type 0 = λ _ w'. BothEmpty s w'.memory in
            let entered = Loop.enter handlers (suc (suc fuel')) (suc (suc group_fuel)) s v in
            Returned-or_else out (and_then entered (λ _. tidy)) (process_failed sys registered) (
              Returned-and_then (λ _. Quit s condition) out entered (λ _. tidy)
                (enter-Quit sys runs.nothing env nothing fuel s read_fd write_fd condition broken
                  fuel' group_fuel v k)
                λ _ v' q. cleaned_up v' q)
