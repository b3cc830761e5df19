-- ===== src/World/Samples.antt =====
-- A world and an environment for the tests on the sources, the groups and the loops of
-- src/ccevents-sources-base.c, src/ccevents-groups.c and src/ccevents-loops.c.
use ccevents.Base.{Bool, not, ◌||◌, ◌==◌, ℕ, ◌+◌, zero, suc, true, false, List, [], ◌∷◌}
use ccevents.Base.Int.{pos}
use ccevents.Memory.{Memory}
use ccevents.Timeval.{timeval, timeval_never}
use ccevents.World.{
  World, dummy_true, dummy_false, dummy_handler, dummy_timeout, default_otable, timer_methods,
  unset, MasterStateCode, SlaveStateCode, done, raised, Prog, Env, Handler,
}

-- The first inquirer finds an event and the others none; the second handler exits to its location.
abbrev pub inquire_sample : ℕ → Prog Bool
inquire_sample zero = done true
inquire_sample (suc k) = done false

abbrev pub handle_sample : ℕ → Prog (Unit {0})
handle_sample zero = done tt
handle_sample (suc k) = raised

-- Two signals are delivered when they are first unblocked.
abbrev pub delivered_sample : ℕ → List ℕ
delivered_sample zero = 10 ∷ 12 ∷ []
delivered_sample (suc n) = []

abbrev pub sample : Env
sample = record {
  inquire = λ k p. inquire_sample k;
  handle = λ k p. handle_sample k;
  finalise = λ k p. done tt;
  time_at = λ n. timeval (pos (100 + n)) (pos 0);
  select_read = λ fd. done (pos 1);
  select_write = λ fd. done (pos 0);
  select_except = λ fd. raised;
  run_error_handlers_final = λ w. w;
  run_cleanup_handlers = λ w. w;
  fd_setsize = 1024;
  nsig = 65;
  accepts_action = λ s. not (s == 0 || s == 9 || s == 19);
  delivered_by_unblock = delivered_sample;
}

abbrev pub blank : Memory
blank = record {
  nodes = λ p. record { base = 0; next = 0; prev = 0 };
  queues = λ p. record { current = 0; number_of_nodes = 0 };
}

-- Nothing is enqueued, and every source is an enabled timer that never expires.
abbrev pub quiet : World
quiet = record {
  memory = blank;
  sources = λ p. record {
    otable = default_otable;
    etable = timer_methods;
    expiration_time = timeval_never;
    expiration_handler = dummy_timeout;
    enabled = true;
  };
  fd_sources =
      λ p. record { fd = pos 3; event_inquirer = dummy_false; event_handler = dummy_handler };
  task_sources = λ p. record { event_inquirer = dummy_true; event_handler = dummy_handler };
  signal_sources = λ p. record { signum = 10; event_handler = Handler.client 0 };
  groups = λ p. record { request_to_leave = false; servicing_attempts_watermark = 4 };
  loops = λ p. record { request_to_leave = false };
  master_states = λ p. record { state = MasterStateCode.finished; exceptional_condition = 0 };
  slave_states = λ p. record { state = SlaveStateCode.finished; exceptional_condition = 0 };
  arrived_signals = λ s. 0;
  dispositions = λ s. unset;
  signals_blocked = false;
  clock_reads = 0;
  unblocks = 0;
  pipes = λ n. [];
}
