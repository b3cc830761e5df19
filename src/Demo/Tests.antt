-- ===== src/Demo/Tests.antt =====
-- Runs of demos/processes-communicating-through-pipes.c, and the theorems at them.
use ccevents.Base.{◌⊎◌, ◌≡◌, refl, ◌≤◌, ℕ, true, false, List, [], ◌∷◌, ◌++◌, arith}
use ccevents.Base.Int.{pos}
use ccevents.Memory.{Ptr, null}
use ccevents.Source.{do_one_event}
use ccevents.World.{World, MasterStateCode, Returned, done, raised, fault, out_of_fuel, ◌>>◌, Env}
use ccevents.World.Samples.{quiet}
use ccevents.Demo.System.{System, Unregistered, RunsHandlers, scope, same_prefix, greetings}
use ccevents.Demo.Messages.{read_message, write_message}
use ccevents.Demo.Station.{with_pipes, with_enabled}
use ccevents.Demo.Transfer.{read_message_lem, write_message-endless}
use ccevents.Demo.Processes.{parent_process, child_process, main, exit_success}
use ccevents.Demo.Unreadable.{Unreadable}
use ccevents.Demo.ChildProcess.{child_process-Succeeds}
use ccevents.Demo.Failures.{closing_all, give_up, give_up_pipe, both_processes, main_lem}
use ccevents.Demo.BrokenPipe.{BrokenPipe}
use ccevents.Demo.Cleanup.{SparesMemory, BothEmpty}
use ccevents.Demo.ParentProcess.{parent_process-Returned}
use ccevents.Demo.Allocation.{filedes_of}
use ccevents.Demo.Master
use ccevents.Demo.Slave
use ccevents.Demo.Dialogue.{Config, Run, start, demo_env}
use ccevents.Demo.Dialogue.Phases.{Pipes, Opening}
use ccevents.Demo.Dialogue.Beginning.{init-Opening}
use ccevents.Demo.Dialogue.Invariant.{the_parent, run-IsSafe, run-HasLeft}
use ccevents.Demo.Dialogue.Liveness.{HasEvent, Enlisted-bases, run-continues, run-completes}
use ccevents.Demo.Samples.{
  kernel_sample, env_sample, kernel_sample-Unregistered, kernel_sample-RunsHandlers,
  kernel_sample-Kernel, setting, setting-Wired, opening_sample, opening_sample-Opening,
}

-- Only the first bytes are compared, and a string that is too short differs.
same_prefix-longer : same_prefix 6 greetings (greetings ++ 33 ∷ []) ≡ true
unfolding same_prefix
same_prefix-longer = refl

same_prefix-shorter : same_prefix 6 greetings (104 ∷ 101 ∷ []) ≡ false
unfolding same_prefix
same_prefix-shorter = refl

init-Opening_example :
    Returned
      (λ _ p.
        Returned
          (λ _ c. Opening setting (record { parent = p; child = c; pipes = λ n. [] }))
          (Slave.init 200 (pos 5) (pos 4) quiet))
      (Master.init 100 (pos 3) (pos 6) quiet)
init-Opening_example =
    init-Opening setting quiet quiet (λ n. []) (omega arith)
      (λ p ne e. omega (arith, e), λ p ne e. omega (arith, e)) (omega arith)
      (λ p ne e. omega (arith, e), λ p ne e. omega (arith, e)) (refl, refl)

run-IsSafe_example :
    (0 ≤ 8)
    × Returned
        (λ _ _. Unit {0})
        (do_one_event
          (demo_env kernel_sample env_sample 1)
          103
          (with_pipes opening_sample.parent opening_sample.pipes))
run-IsSafe_example =
    run-IsSafe kernel_sample kernel_sample-Unregistered env_sample setting setting-Wired
      kernel_sample-Kernel 0 the_parent 103 opening_sample-Opening start (omega arith)
      (Enlisted-bases opening_sample-Opening.parent.standing.enlisted).1

run-continues_example :
    HasEvent
      (demo_env kernel_sample env_sample 1)
      101
      (with_pipes opening_sample.parent opening_sample.pipes)
    ⊎ HasEvent
        (demo_env kernel_sample env_sample 1)
        201
        (with_pipes opening_sample.child opening_sample.pipes)
run-continues_example =
    run-continues kernel_sample kernel_sample-Unregistered env_sample setting setting-Wired
      kernel_sample-Kernel 0 opening_sample-Opening start (omega arith)

-- A whole dialogue.
whole : (d : Config) × Run (demo_env kernel_sample env_sample 1) 100 200 opening_sample 8 d
whole =
    run-completes kernel_sample kernel_sample-Unregistered env_sample setting setting-Wired
      kernel_sample-Kernel 0 opening_sample-Opening 8 (omega arith)

run-HasLeft_example :
    Master.Leaving.HasLeft 100 null whole.0.parent
    × Slave.Leaving.HasLeft 200 null whole.0.child
    × Pipes setting [] [] whole.0.pipes
run-HasLeft_example =
    run-HasLeft kernel_sample kernel_sample-Unregistered env_sample setting setting-Wired
      kernel_sample-Kernel 0 opening_sample-Opening whole.1

-- A kernel whose pipes are broken, one that takes three bytes at a time, and one that gives ten.
abbrev broken : System
broken = record kernel_sample { sys_read = λ fd n. raised; sys_write = λ fd bytes. raised }

abbrev slow : System
slow = record kernel_sample { sys_write = λ fd bytes. done 3 }

abbrev ten : List ℕ
ten = 1 ∷ 2 ∷ 3 ∷ 4 ∷ 5 ∷ 6 ∷ 7 ∷ 8 ∷ 9 ∷ 10 ∷ []

abbrev full : System
full = record kernel_sample { sys_read = λ fd n. done ten }

-- Ten bytes leave no room for the terminator.
full_buffer : read_message full 102 quiet ≡ fault
full_buffer = read_message_lem full 102 ten quiet quiet refl

write_message-endless_example : write_message slow 5 103 greetings 0 quiet ≡ out_of_fuel
write_message-endless_example =
    write_message-endless slow 3 (λ fd bytes w. omega arith) 5 103 greetings 0 quiet (omega arith)
      (omega arith)

main_lem_example :
    main kernel_sample env_sample 2 2 100 quiet
    ≡ scope kernel_sample.sys_pipe
        (give_up kernel_sample)
        (λ forwards. scope kernel_sample.sys_pipe (give_up_pipe kernel_sample forwards) λ backwards.
          scope kernel_sample.sys_fork
            (closing_all kernel_sample forwards backwards >> give_up kernel_sample)
            (both_processes kernel_sample env_sample 2 2 100 (filedes_of forwards backwards)))
        quiet
main_lem_example = main_lem kernel_sample kernel_sample-RunsHandlers env_sample 2 2 100 quiet

broken-Unregistered : Unregistered broken
broken-Unregistered = record { on_success = λ w. refl; on_error = λ w. refl }

broken_reads : (src : Ptr) (w : World) → read_message broken src w ≡ raised w
unfolding read_message
broken_reads src w = refl

broken_writes : (src : Ptr) (w : World) → write_message broken 1 src greetings 0 w ≡ raised w
unfolding write_message
broken_writes src w = refl

opening-Sends :
    Master.Diagram.Sends
      (opening_sample.parent.master_states 100).state
      greetings
      MasterStateCode.read_greetings
opening-Sends = rw opening_sample-Opening.parent.standing.state Master.Diagram.greets

event_handlers-HasLeft_example :
    Returned
      (λ _. Master.Leaving.HasLeft 100 77)
      (Master.read_event_handler broken 102 opening_sample.parent)
    × Returned
        (λ _. Master.Leaving.HasLeft 100 77)
        (Master.write_event_handler broken 1 103 opening_sample.parent)
event_handlers-HasLeft_example =
    let w = opening_sample.parent in
    let k = opening_sample-Opening.parent.standing in
    Master.Leaving.event_handlers-HasLeft broken broken-Unregistered k.ne 1 w w w
      (with_enabled 103 false w) (broken_reads 102 w) k.enlisted opening-Sends
      (broken_writes 103 (with_enabled 103 false w)) k.enlisted

broken-RunsHandlers : RunsHandlers broken
broken-RunsHandlers = record {
  nothing = broken-Unregistered;
  cleanup_on_success = λ h hs w. refl;
  error_on_success = λ h hs w. refl;
  error_on_error = λ h hs w. refl;
}

broken-SparesMemory : SparesMemory broken
broken-SparesMemory = record {
  closing = λ fd w. refl;
  deletion = λ c w. refl;
  handler = λ fd w. refl;
}

broken-BrokenPipe : BrokenPipe broken env_sample (pos 6) 77
broken-BrokenPipe = record {
  in_set = refl;
  ready = λ w. refl;
  write = λ bytes w. refl;
  raises = λ w. refl;
}

parent_process-Returned_example :
    Returned
      (λ _ w. BothEmpty 100 w.memory)
      (parent_process broken (demo_env broken env_sample 1) 2 2 100 (pos 3) (pos 6) quiet)
parent_process-Returned_example =
    parent_process-Returned broken broken-RunsHandlers broken-SparesMemory 100 env_sample
      (record { untouched = λ n p w. refl }) (λ w. refl) 0 0 0 (pos 3) (pos 6) 77 broken-BrokenPipe
      quiet (omega arith) (λ p ne e. omega (arith, e), λ p ne e. omega (arith, e))

-- The descriptors look ready to be read.
abbrev env_ready : Env
env_ready = record env_sample { select_read = λ fd w. done (pos 1) w }

broken-Unreadable : Unreadable broken env_ready (pos 5) 77
broken-Unreadable = record {
  in_set = refl;
  ready = λ w. refl;
  read = λ w. refl;
  raises = λ w. refl;
}

child_process-Succeeds_example :
    Returned
      (λ status w. (status ≡ exit_success) × BothEmpty 200 w.memory)
      (child_process broken (demo_env broken env_ready 1) 2 3 200 (pos 5) (pos 4) quiet)
child_process-Succeeds_example =
    child_process-Succeeds broken broken-RunsHandlers broken-SparesMemory 200 env_ready
      (record { untouched = λ n p w. refl }) (λ w. refl) 1 0 0 (pos 5) (pos 4) 77 broken-Unreadable
      quiet (omega arith) (λ p ne e. omega (arith, e), λ p ne e. omega (arith, e))
