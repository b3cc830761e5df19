-- ===== src/Demo/Failures.antt =====
-- How `main` of demos/processes-communicating-through-pipes.c ends when it cannot make its pipes or its
-- child process.
use ccevents.Base.{◌≡◌, refl, ◌∙◌, ℕ, ◌==◌, if◌then◌else◌, [], ◌∷◌}
use ccevents.Memory.{Ptr}
use ccevents.World.{
  World, Prog, Result, done, raised, fault, out_of_fuel, and_then, return, Env, modify, ◌>>=◌, ◌>>◌,
}
use ccevents.Demo.System.{System, Pipedes, RunsHandlers, scope, either_way}
use ccevents.Demo.Processes.{
  AllFiledes, all_filedes_close, process_failed, child_process, main_parent, main, exit_failure,
  error_handler_all_filedes,
}
use ccevents.Demo.Allocation.{filedes_of, allocate_all_filedes_lem, either_way-cong}

either_way_assoc :
    {A B C : Type 0} (r : Result A) (h : Prog B) (k : A → Prog B) (h' : Prog C) (f : B → Prog C)
    → either_way (either_way r h k) h' f ≡ either_way r (scope h h' f) (λ a. scope (k a) h' f)
either_way_assoc (done a w) h k h' f = refl
either_way_assoc (raised w) h k h' f = refl
either_way_assoc fault h k h' f = refl
either_way_assoc out_of_fuel h k h' f = refl

module _ (sys : System) where
  -- The condition is deleted, and the process exits.
  abbrev pub give_up : Prog ℕ
  give_up = modify (λ w. sys.condition_delete (sys.condition w) w) >> return exit_failure

  -- The pipe is closed first.
  abbrev pub give_up_pipe : Pipedes → Prog ℕ
  give_up_pipe pipe = scope (sys.pipedes_handler pipe) give_up (λ _. give_up)

  -- Both ends of both pipes are closed.
  abbrev pub closing_all : (forwards backwards : Pipedes) → Prog (Unit {0})
  closing_all forwards backwards = modify λ w.
      sys.close backwards.readable
        (sys.close forwards.readable (sys.close forwards.writable (sys.close backwards.writable w)))

  module _ (env : Env) (fuel group_fuel : ℕ) (s : Ptr) where
    -- What `main` does in both processes.
    abbrev pub both_processes : AllFiledes → ℕ → Prog ℕ
    both_processes fds pid =
        if pid == 0
        then child_process sys env fuel group_fuel s fds.child_read_parent_write
            fds.child_write_parent_read
        else main_parent sys env fuel group_fuel s fds pid

module _ (sys : System) (runs : RunsHandlers sys) (env : Env) (fuel group_fuel : ℕ) (s : Ptr) where
  failed-nothing : (w : World) → (process_failed sys [] >> return exit_failure) w ≡ give_up sys w
  unfolding process_failed
  failed-nothing w = rw (runs.nothing.on_error w) refl

  failed-pipe :
      (pipe : Pipedes) (f : AllFiledes → Prog ℕ) (w : World)
      → scope
          (sys.pipedes_handler pipe >> raised)
          (process_failed sys [] >> return exit_failure)
          f
          w
        ≡ give_up_pipe sys pipe w
  failed-pipe pipe f w = go (sys.pipedes_handler pipe w)
    where
      go :
          (r : Result (Unit {0}))
          → either_way (and_then r (λ _. raised)) (process_failed sys [] >> return exit_failure) f
            ≡ either_way r (give_up sys) (λ _. give_up sys)
      go (done a v) = failed-nothing v
      go (raised v) = failed-nothing v
      go fault = refl
      go out_of_fuel = refl

  forked :
      (forwards backwards : Pipedes) (w : World)
      → let fds : AllFiledes = filedes_of forwards backwards in
        scope
          (do
            pid ← sys.sys_fork
            sys.run_cleanup_handlers (error_handler_all_filedes sys fds ∷ [])
            return pid)
          (process_failed sys (error_handler_all_filedes sys fds ∷ []) >> return exit_failure)
          (both_processes sys env fuel group_fuel s fds)
          w
        ≡ scope sys.sys_fork
            (closing_all sys forwards backwards >> (give_up sys))
            (both_processes sys env fuel group_fuel s fds)
            w
  unfolding process_failed all_filedes_close
  forked forwards backwards w = go (sys.sys_fork w)
    where
      go :
          (r : Result ℕ)
          → either_way
              (and_then r (λ pid.
                sys.run_cleanup_handlers
                  (error_handler_all_filedes sys (filedes_of forwards backwards) ∷ [])
                >> return pid))
              (process_failed sys
                  (error_handler_all_filedes sys (filedes_of forwards backwards) ∷ [])
                >> return exit_failure)
              (both_processes sys env fuel group_fuel s (filedes_of forwards backwards))
            ≡ either_way r
                (closing_all sys forwards backwards >> (give_up sys))
                (both_processes sys env fuel group_fuel s (filedes_of forwards backwards))
      go (done a v) = rw (runs.error_on_success, runs.nothing.on_success v) refl
      go (raised v) = rw (runs.error_on_error, runs.nothing.on_error) refl
      go fault = refl
      go out_of_fuel = refl

  -- Let handlers run as ccexceptions says. If the first pipe cannot be made, `main` deletes the
  -- condition and exits with a failure; if the second cannot, it runs the handler of the first pipe
  -- before, and if the child process cannot, it closes each of the four descriptors of the pipes
  -- once before. Else it runs no handler, and goes on in both processes with these descriptors.
  pub main_lem :
      (w : World)
      → main sys env fuel group_fuel s w
        ≡ scope sys.sys_pipe
            (give_up sys)
            (λ forwards. scope sys.sys_pipe (give_up_pipe sys forwards) λ backwards.
              scope sys.sys_fork
                (closing_all sys forwards backwards >> (give_up sys))
                (both_processes sys env fuel group_fuel s (filedes_of forwards backwards)))
            w
  unfolding main
  main_lem w = rw (allocate_all_filedes_lem sys runs w) (
      either_way_assoc (sys.sys_pipe w) _ _ _ _
      ∙ either_way-cong (sys.sys_pipe w) _ _ _ _ failed-nothing λ forwards v.
        either_way_assoc (sys.sys_pipe v) _ _ _ _
        ∙ either_way-cong (sys.sys_pipe v) _ _ _ _ (failed-pipe forwards _)
            λ backwards u. forked forwards backwards u)
