-- ===== src/Demo/Processes.antt =====
-- The two processes of demos/processes-communicating-through-pipes.c, from `main` on, and the file
-- descriptors that they share.
use ccevents.Base.{ℕ, ◌==◌, if◌then◌else◌, List, [], ◌∷◌}
use ccevents.Base.Int.{ℤ}
use ccevents.Memory.{Ptr, null}
use ccevents.Loop
use ccevents.World.{raised, Prog, return, ◌>>=◌, ◌>>◌, modify, Env}
use ccevents.Demo.System.{System, CceHandler, cleanup, error, catch, scope, assert}
use ccevents.Demo.Master
use ccevents.Demo.Slave

-- `all_filedes_t`
pub record AllFiledes : Type 0 where
  pub parent_write_child_read : ℤ
  pub child_write_parent_read : ℤ
  pub parent_read_child_write : ℤ
  pub child_read_parent_write : ℤ

abbrev pub exit_success : ℕ
exit_success = 0

abbrev pub exit_failure : ℕ
exit_failure = 1

module _ (sys : System) where
  unfoldable pub all_filedes_close : AllFiledes → Prog (Unit {0})
  all_filedes_close fds = modify λ w. sys.close fds.child_read_parent_write (
      sys.close fds.parent_read_child_write
        (sys.close fds.child_write_parent_read (sys.close fds.parent_write_child_read w)))

  -- The handlers that are registered for the descriptors, by what they do and when.
  abbrev pub cleanup_handler_all_filedes : AllFiledes → CceHandler
  cleanup_handler_all_filedes fds = cleanup (all_filedes_close fds)

  abbrev pub error_handler_all_filedes : AllFiledes → CceHandler
  error_handler_all_filedes fds = error (all_filedes_close fds)

  -- The handler of a non-local exit in `allocate_all_filedes`, which exits to the caller's location.
  unfoldable pub allocation_failed : List CceHandler → Prog AllFiledes
  allocation_failed handlers = do sys.run_error_handlers handlers; raised

  unfoldable pub allocate_all_filedes : Prog AllFiledes
  allocate_all_filedes = scope sys.sys_pipe (allocation_failed []) λ forwards_pipe.
      let forwards_pipe_H = error (sys.pipedes_handler forwards_pipe) in
      scope sys.sys_pipe (allocation_failed (forwards_pipe_H ∷ [])) λ backwards_pipe.
        let backwards_pipe_H = error (sys.pipedes_handler backwards_pipe) in
        catch
          (do
            sys.run_cleanup_handlers (backwards_pipe_H ∷ forwards_pipe_H ∷ [])
            return (record {
              parent_read_child_write = forwards_pipe.readable;
              child_write_parent_read = forwards_pipe.writable;
              child_read_parent_write = backwards_pipe.readable;
              parent_write_child_read = backwards_pipe.writable;
            }))
          (allocation_failed (backwards_pipe_H ∷ forwards_pipe_H ∷ []))

  -- `if (condition) cce_condition_delete (condition)`
  unfoldable pub delete_condition : Ptr → Prog (Unit {0})
  delete_condition condition =
      if condition == null then return tt else modify (sys.condition_delete condition)

  -- What the processes do on a non-local exit to their location, but for exiting.
  unfoldable pub process_failed : List CceHandler → Prog (Unit {0})
  process_failed handlers = do
    sys.run_error_handlers handlers
    modify λ w. sys.condition_delete (sys.condition w) w

  module _ (env : Env) (fuel group_fuel : ℕ) (s : Ptr) where
    -- The handlers that are registered for the states of the processes.
    abbrev pub cleanup_handler_master_state : CceHandler
    cleanup_handler_master_state = cleanup (Master.final sys env fuel group_fuel s)

    abbrev pub error_handler_master_state : CceHandler
    error_handler_master_state = error (Master.final sys env fuel group_fuel s)

    abbrev pub cleanup_handler_slave_state : CceHandler
    cleanup_handler_slave_state = cleanup (Slave.final sys env fuel group_fuel s)

    abbrev pub error_handler_slave_state : CceHandler
    error_handler_slave_state = error (Slave.final sys env fuel group_fuel s)

    -- The state of the master is at `s`.
    unfoldable pub parent_process : (parent_read_fd parent_write_fd : ℤ) → Prog (Unit {0})
    parent_process parent_read_fd parent_write_fd =
        let fd_handlers =
          cleanup (sys.filedes_handler parent_write_fd)
          ∷ cleanup (sys.filedes_handler parent_read_fd)
          ∷ [] in
        scope (Master.init s parent_read_fd parent_write_fd) (process_failed fd_handlers) λ _.
          let handlers = cleanup_handler_master_state ∷ fd_handlers in
          catch
            (do
              Loop.enter env fuel group_fuel s
              (λ w. delete_condition (w.master_states s).exceptional_condition w)
              sys.run_cleanup_handlers handlers)
            (process_failed handlers)

    -- The state of the slave is at `s`; the result is the exit status of the process.
    unfoldable pub child_process : (child_read_fd child_write_fd : ℤ) → Prog ℕ
    child_process child_read_fd child_write_fd =
        let fd_handlers =
          cleanup (sys.filedes_handler child_write_fd)
          ∷ cleanup (sys.filedes_handler child_read_fd)
          ∷ [] in
        scope (Slave.init s child_read_fd child_write_fd)
          (process_failed fd_handlers >> return exit_failure)
          λ _.
            let handlers = cleanup_handler_slave_state ∷ fd_handlers in
            catch
              (do
                Loop.enter env fuel group_fuel s
                (λ w. delete_condition (w.slave_states s).exceptional_condition w)
                sys.run_cleanup_handlers handlers
                return exit_success)
              (process_failed handlers >> return exit_failure)

    -- The branch of `main` in the parent process.
    unfoldable pub main_parent : AllFiledes → (pid : ℕ) → Prog ℕ
    main_parent fds pid =
        catch
          (do
            parent_process fds.parent_read_child_write fds.parent_write_child_read
            (exited, status) ← sys.sys_waitpid pid
            assert exited
            assert (status == 0)
            sys.run_cleanup_handlers []
            return exit_success)
          (process_failed [] >> return exit_failure)

    -- `main` after `ccevents_init`, whose state it does not use; the result is the exit status of the
    -- process that returns from `fork`.
    unfoldable pub main : Prog ℕ
    main = scope (allocate_all_filedes) (process_failed [] >> return exit_failure) λ fds.
        let handlers = error_handler_all_filedes fds ∷ [] in
        scope (do pid ← sys.sys_fork; sys.run_cleanup_handlers handlers; return pid)
          (process_failed handlers >> return exit_failure)
          λ pid.
            if pid == 0
            then child_process fds.child_read_parent_write fds.child_write_parent_read
            else main_parent fds pid
