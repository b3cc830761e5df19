-- ===== src/Source/Tests.antt =====
-- The theorems on the event sources of src/ccevents-sources-base.c and its kinds, on sample sources.
use ccevents.Base.{◌≡◌, refl, true, false, arith, ◌∙◌}
use ccevents.Base.Int.{pos}
use ccevents.Memory.{update}
use ccevents.Timeval.{Timeval, timeval}
use ccevents.Timeval.Meaning.{IsNormalised}
use ccevents.Signal.{bub_acquire, bub_delivered}
use ccevents.World.{
  World, Inquirer, Handler, fd_readability, default_otable, task_methods, fault, return, ◌>>◌,
}
use ccevents.World.Samples.{sample, quiet}
use ccevents.Source.{
  do_one_event, fd_init, fd_set, task_init, task_set, timer_init, set_timeout, signal_init,
  signal_set, call_handler, put_source, fresh_source, inquire_by, call_inquirer,
}
use ccevents.Source.Expiry.{served_if, served_when, served_after}
use ccevents.Source.Kinds.{do_one_event-fresh, signal-served_if}
use ccevents.Source.Inquired.{readable, inquired-served_if}
use ccevents.Source.Timed.{client_source, timer-served_if, do_one_event_lem}

-- The clock is at 100 seconds.
abbrev before : Timeval
before = timeval (pos 99) (pos 0)

abbrev now : Timeval
now = timeval (pos 100) (pos 0)

before-IsNormalised : IsNormalised before
before-IsNormalised = record {
  sec_low = omega arith;
  sec_high = omega arith;
  usec_low = omega arith;
  usec_high = omega arith;
}

now-IsNormalised : IsNormalised now
now-IsNormalised = record {
  sec_low = omega arith;
  sec_high = omega arith;
  usec_low = omega arith;
  usec_high = omega arith;
}

timer-served_if_example :
    (timer_init 10 >> set_timeout 10 before (Handler.client 0) >> do_one_event sample 10) quiet
    ≡ (timer_init 10
          >> set_timeout 10 before (Handler.client 0)
          >> served_after sample before (sample.handle 0 10) (return false))
        quiet
timer-served_if_example =
    timer-served_if sample (omega arith) before 0 quiet before-IsNormalised now-IsNormalised

-- Its time has not come, and it finds an event.
abbrev ready : World
ready = put_source 10 (client_source true default_otable now 1 0 0) quiet

ready-source : ready.sources 10 ≡ client_source true default_otable now 1 0 0
unfolding update
ready-source = refl

do_one_event_lem_example :
    do_one_event sample 10 ready
    ≡ served_after sample now
        (sample.handle 1 10)
        (served_when (λ w. true) (sample.handle 0 10))
        ready
do_one_event_lem_example =
    do_one_event_lem sample (omega arith) true default_otable now 1 0 0 (λ w. true) ready
      ready-source now-IsNormalised now-IsNormalised (λ w. refl)

inquired-served_if_example :
    ((fd_init 10 (pos 3) >> fd_set 10 fd_readability (Handler.client 0) >> do_one_event sample 10)
        quiet
      ≡ (fd_init 10 (pos 3)
            >> fd_set 10 fd_readability (Handler.client 0)
            >> served_when (λ w. true) (sample.handle 0 10))
          quiet)
    × ((task_init 10
            >> task_set 10 (Inquirer.client 0) (Handler.client 0)
            >> do_one_event sample 10)
          quiet
        ≡ (task_init 10
              >> task_set 10 (Inquirer.client 0) (Handler.client 0)
              >> served_when (λ w. true) (sample.handle 0 10))
            quiet)
inquired-served_if_example =
    inquired-served_if sample (omega arith) (pos 3) fd_readability 0 0 (λ w. true) (λ w. true) quiet
      (readable refl (λ w. refl)) (λ w. refl)

-- A task that is initialised and not set up calls through a pointer that was never written.
abbrev not_set_up : World
not_set_up = put_source 10 (fresh_source task_methods) (record quiet {
  task_sources = λ p. record { event_inquirer = Inquirer.not_set; event_handler = Handler.not_set };
})

do_one_event-not_set : do_one_event sample 10 not_set_up ≡ fault
unfolding inquire_by call_inquirer update
do_one_event-not_set = do_one_event-fresh sample (omega arith) task_methods not_set_up refl ∙ refl

signal-served_if_example :
    (signal_init sample 10 12
        >> signal_set 10 (Handler.client 0)
        >> bub_acquire sample
        >> do_one_event sample 10)
      quiet
    ≡ (signal_init sample 10 12
          >> signal_set 10 (Handler.client 0)
          >> bub_acquire sample
          >> served_if (bub_delivered sample 12) (call_handler sample (Handler.client 0) 10))
        quiet
signal-served_if_example =
    signal-served_if sample (omega arith) 12 (Handler.client 0) quiet (omega arith) (omega arith)
