-- ===== src/Group/Tests.antt =====
-- The theorems on src/ccevents-groups.c, on a group of three timers.
use ccevents.Base.{◌≡◌, refl, ◌≢◌, true, false, List, [], ◌∷◌, has, arith, ap}
use ccevents.Memory.{Ptr, null, update, load_queue, store_queue, set_current, load, write_current}
use ccevents.Queue
use ccevents.Queue.Holds.{Holds}
use ccevents.Timeval.{is_infinite_timeout}
use ccevents.World.{
  World, Handler, client_methods, dummy_true, timer_methods, done, Returned, on_memory, ◌>>◌, Env,
}
use ccevents.World.Samples.{sample, blank}
use ccevents.Source
use ccevents.Source.{fresh_source, put_source, inquire_by}
use ccevents.Source.Kinds.{do_one_event-fresh}
use ccevents.Group.{set_request, service, caught, enter_loop, enter, final, put_group}
use ccevents.Group.Enter.{is_free, wants_more, enter-Returned}
use ccevents.Group.Rounds.{
  schedule, serve_each, Undisturbed, IsCalm, unasked, enter-turn, enter_loop-leaves,
}
use ccevents.Group.Final.{Emptied, finalise_each, final-Emptied}
use ccevents.Group.Samples.{
  stage, stage-group, theatre, IsReady, theatre-IsReady, sample-Serves, sample-Finalises,
}

enter-Returned_example :
    Returned
      (λ _ w. IsReady (λ _. Unit) w × ((w.groups 5).request_to_leave ≡ false))
      (enter sample 5 5 theatre)
enter-Returned_example =
    enter-Returned sample (sample-Serves (λ _. Unit)) 5 theatre (omega arith) (omega arith)
      (theatre-IsReady (λ _. Unit) tt)

-- Every source is a timer as it was initialised.
abbrev AreTimers : World → Type 0
AreTimers w = (p : Ptr) → w.sources p ≡ fresh_source timer_methods

AreTimers-service :
    (x : Ptr) (xs : List Ptr) (w : World)
    → has x xs ≡ true
    → IsCalm 5 4 xs w
    → AreTimers w
    → Returned (λ _ w'. IsCalm 5 4 xs w' × AreTimers w') (service sample x w)
unfolding service caught inquire_by
AreTimers-service x xs w i c e =
    rw (do_one_event-fresh sample (x_ne x xs i c.order.null_out) timer_methods w (e x)) (c, e)
  where
    x_ne : (x : Ptr) (xs : List Ptr) → has x xs ≡ true → has null xs ≡ false → x ≢ null
    x_ne x xs i o = λ e. absurd (ground (arith, ap (λ y. has y xs) e))

sample-Undisturbed : Undisturbed sample AreTimers 5 4
sample-Undisturbed = record { moved = λ xs w h k k' s e. e; serve = AreTimers-service }

theatre-IsCalm : IsCalm 5 4 (10 ∷ 20 ∷ 30 ∷ []) (unasked 5 theatre)
unfolding update
theatre-IsCalm = record { order = stage-group; free = refl; watermark = refl }

-- The fourth event is the first source's again.
enter-turn_example :
    enter sample 5 5 theatre
    ≡ (set_request 5 false
          >> (serve_each sample 5 (10 ∷ 20 ∷ 30 ∷ schedule 1 (10 ∷ 20 ∷ 30 ∷ []))
              >> set_request 5 false))
        theatre
enter-turn_example =
    enter-turn sample (omega arith) sample-Undisturbed 5 1 (10 ∷ 20 ∷ 30 ∷ []) theatre refl
      (omega arith) (omega arith) theatre-IsCalm (λ p. refl)

final-Emptied_example :
    (final sample 4 5 theatre ≡ finalise_each sample (10 ∷ 20 ∷ 30 ∷ []) theatre)
    × Returned (λ _ w. Emptied stage 5 (10 ∷ 20 ∷ 30 ∷ []) w.memory) (final sample 4 5 theatre)
final-Emptied_example =
    final-Emptied sample sample-Finalises 4 (10 ∷ 20 ∷ 30 ∷ []) theatre stage-group (omega arith)

blank-Holds : Holds blank 7 []
blank-Holds = record {
  queue_ne = omega arith;
  current = refl;
  number = refl;
  small = omega arith;
  null_out = refl;
  distinct = tt;
  ring = tt;
  members = λ p i. ground arith;
  owned = λ p pn e. ground arith;
}

-- The first handler asks the group at 5 to leave.
abbrev leaving : Env
leaving = record sample {
  handle = λ k p w.
      done tt
        (put_group 5 (record { request_to_leave = true; servicing_attempts_watermark = 4 }) w);
}

-- The source at 10 has an event.
abbrev eager : World
eager = put_source 10 (fresh_source (client_methods dummy_true (Handler.client 0))) theatre

-- After its event.
abbrev left : World
left =
    put_group 5 (record { request_to_leave = true; servicing_attempts_watermark = 4 })
      (record eager { memory = write_current stage 5 20 })

left-Holds : Holds left.memory 5 (20 ∷ 30 ∷ 10 ∷ [])
unfolding update
left-Holds = record {
  queue_ne = omega arith;
  current = refl;
  number = refl;
  small = omega arith;
  null_out = refl;
  distinct = (refl, (refl, (refl, tt)));
  ring = ground arith;
  members = λ p i. ground arith;
  owned = λ p pn e. ground arith;
}

eager_leaves : (on_memory (Queue.advance_current 5) >> service leaving 10) eager ≡ done tt left
unfolding update Queue.advance_current Queue.is_not_empty Queue.current_node load load_queue
    store_queue set_current service caught Source.do_one_event Source.servicing_is_enabled
    Source.is_expired_now is_infinite_timeout Source.query inquire_by Source.call_inquirer
    Source.handle_event Source.handle_by Source.call_handler
eager_leaves = refl

wants_more-eager : wants_more 5 0 (10 ∷ 20 ∷ 30 ∷ []) eager ≡ true
unfolding update
wants_more-eager = refl

left_is_asked : is_free 5 left ≡ false
unfolding update
left_is_asked = refl

enter_loop-leaves_example : enter_loop leaving 2 5 0 eager ≡ done tt left
enter_loop-leaves_example =
    enter_loop-leaves leaving 0 0 eager left stage-group wants_more-eager eager_leaves left-Holds
      left_is_asked
