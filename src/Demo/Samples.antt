-- ===== src/Demo/Samples.antt =====
-- A kernel with two pipes for the tests on demos/processes-communicating-through-pipes.c, and both
-- processes of the demo after their initialisation.
use ccevents.Base.{
  ◌≡◌, refl, ◌≢◌, ◌≤◌, ℕ, zero, suc, if◌then◌else◌, List, [], ◌∷◌, ◌++◌, length, arith,
}
use ccevents.Base.Int.{ℤ, pos, ltb_ℤ}
use ccevents.Memory.{update}
use ccevents.World.{World, Result, done, raised, fault, out_of_fuel, Returned, Env, Prog, ◌>>◌}
use ccevents.World.Samples.{sample, quiet}
use ccevents.Demo.System.{
  System, Pipedes, Unregistered, RunsHandlers, CceHandler, cleanup, error, drop, buf_size,
}
use ccevents.Demo.Station.{with_pipes}
use ccevents.Demo.Dialogue.{Kernel, Config}
use ccevents.Demo.Dialogue.Phases.{Setting, Wired, Opening}
use ccevents.Demo.Master
use ccevents.Demo.Slave

abbrev pub take : ℕ → List ℕ → List ℕ
take zero xs = []
take (suc n) [] = []
take (suc n) (x ∷ xs) = x ∷ take n xs

-- The parent reads from 3 what the child writes to 4, and the child from 5 what the parent writes to 6.
abbrev pub pipe_sample : ℤ → ℕ
pipe_sample fd = if ltb_ℤ fd (pos 5) then 0 else 1

abbrev pub number_ready : List ℕ → ℤ
number_ready [] = pos 0
number_ready (x ∷ xs) = pos 1

-- The handlers that are registered, the last one first.
abbrev pub run_cleanup : List CceHandler → Prog (Unit {0})
run_cleanup [] = done tt
run_cleanup (cleanup h ∷ hs) = h >> run_cleanup hs
run_cleanup (error h ∷ hs) = run_cleanup hs

abbrev pub run_error : List CceHandler → Prog (Unit {0})
run_error [] = done tt
run_error (cleanup h ∷ hs) = h >> run_error hs
run_error (error h ∷ hs) = h >> run_error hs

-- Two calls of `pipe` succeed, and the next ones fail.
abbrev pub pipes_made : ℕ → Prog Pipedes
pipes_made zero = done (record { readable = pos 3; writable = pos 4 })
pipes_made (suc zero) = done (record { readable = pos 5; writable = pos 6 })
pipes_made (suc (suc n)) = raised

abbrev pub kernel_sample : System
kernel_sample = record {
  sys_read = λ fd n w.
      let bytes = w.pipes (pipe_sample fd) in
      done (take n bytes) (with_pipes w (update w.pipes (pipe_sample fd) (drop n bytes)));
  sys_write = λ fd bytes w.
      done (length bytes)
        (with_pipes w (update w.pipes (pipe_sample fd) (w.pipes (pipe_sample fd) ++ bytes)));
  close = λ fd w. w;
  sys_pipe = λ w. pipes_made w.clock_reads (record w { clock_reads = suc w.clock_reads });
  sys_fork = raised;
  sys_waitpid = λ pid. raised;
  filedes_handler = λ fd. done tt;
  pipedes_handler = λ p. done tt;
  run_cleanup_handlers = run_cleanup;
  run_error_handlers = run_error;
  condition = λ w. 77;
  condition_delete = λ c w. w;
}

abbrev pub env_sample : Env
env_sample = record sample {
  select_read = λ fd w. done (number_ready (w.pipes (pipe_sample fd))) w;
  select_write = λ fd w. done (pos 1) w;
}

pub kernel_sample-Unregistered : Unregistered kernel_sample
kernel_sample-Unregistered = record { on_success = λ w. refl; on_error = λ w. refl }

pub kernel_sample-RunsHandlers : RunsHandlers kernel_sample
kernel_sample-RunsHandlers = record {
  nothing = kernel_sample-Unregistered;
  cleanup_on_success = λ h hs w. refl;
  error_on_success = λ h hs w. refl;
  error_on_error = λ h hs w. refl;
}

take-all : (n : ℕ) (xs : List ℕ) → length xs ≤ n → take n xs ≡ xs
take-all zero [] l = refl
take-all zero (x ∷ xs) l = absurd (omega arith)
take-all (suc n) [] l = refl
take-all (suc n) (x ∷ xs) l = rw (take-all n xs (omega arith)) refl

drop-all : (n : ℕ) (xs : List ℕ) → length xs ≤ n → drop n xs ≡ []
unfolding drop
drop-all zero [] l = refl
drop-all zero (x ∷ xs) l = absurd (omega arith)
drop-all (suc n) [] l = refl
drop-all (suc n) (x ∷ xs) l = drop-all n xs (omega arith)

number_ready-some : (xs : List ℕ) → xs ≢ [] → number_ready xs ≡ pos 1
number_ready-some [] ne = absurd (ne refl)
number_ready-some (x ∷ xs) ne = refl

pub kernel_sample-Kernel : Kernel kernel_sample env_sample pipe_sample
kernel_sample-Kernel = record {
  reads = λ fd text w e ne l. rw (e, take-all buf_size text l, drop-all buf_size text l) refl;
  writes = λ fd text w e l. rw e refl;
  is_readable = λ fd w ne. rw (number_ready-some (w.pipes (pipe_sample fd)) ne) refl;
  is_not_readable = λ fd w e. rw e refl;
  is_writable = λ fd w e. refl;
}

abbrev pub setting : Setting
setting = record {
  pipe_of = pipe_sample;
  m = 100;
  m_read = pos 3;
  m_write = pos 6;
  s = 200;
  s_read = pos 5;
  s_write = pos 4;
}

pub setting-Wired : Wired env_sample setting
setting-Wired = record {
  to_parent = refl;
  to_child = refl;
  apart = omega arith;
  parent_in_set = (refl, refl);
  child_in_set = (refl, refl);
}

abbrev pub world_after : Result (Unit {0}) → World
world_after (done a w) = w
world_after (raised w) = w
world_after fault = quiet
world_after out_of_fuel = quiet

world_after-Returned :
    (P : World → Type 0) (r : Result (Unit {0})) → Returned (λ _. P) r → P (world_after r)
world_after-Returned P (done a w) k = k
world_after-Returned P (raised w) k = absurd k
world_after-Returned P fault k = absurd k
world_after-Returned P out_of_fuel k = absurd k

abbrev pub opening_sample : Config
opening_sample = record {
  parent = world_after (Master.init 100 (pos 3) (pos 6) quiet);
  child = world_after (Slave.init 200 (pos 5) (pos 4) quiet);
  pipes = λ n. [];
}

parent-Started :
    Master.Start.Started 100 (Master.Start.ends (pos 3) (pos 6)) opening_sample.parent
    × (opening_sample.parent.pipes ≡ quiet.pipes)
parent-Started =
    world_after-Returned
      (λ w.
        Master.Start.Started 100 (Master.Start.ends (pos 3) (pos 6)) w × (w.pipes ≡ quiet.pipes))
      (Master.init 100 (pos 3) (pos 6) quiet)
      (Master.Start.init-Started 100 (pos 3) (pos 6) quiet (omega arith)
        (λ p ne e. omega (arith, e), λ p ne e. omega (arith, e)))

child-Started :
    Slave.Start.Started 200 (Slave.Start.ends (pos 5) (pos 4)) opening_sample.child
    × (opening_sample.child.pipes ≡ quiet.pipes)
child-Started =
    world_after-Returned
      (λ w. Slave.Start.Started 200 (Slave.Start.ends (pos 5) (pos 4)) w × (w.pipes ≡ quiet.pipes))
      (Slave.init 200 (pos 5) (pos 4) quiet)
      (Slave.Start.slave_init-Started 200 (pos 5) (pos 4) quiet (omega arith)
        (λ p ne e. omega (arith, e), λ p ne e. omega (arith, e)))

pub opening_sample-Opening : Opening setting opening_sample
opening_sample-Opening = record {
  parent = parent-Started.0;
  child = child-Started.0;
  pipes = (refl, refl);
}
