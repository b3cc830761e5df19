-- ===== src/Loop/Tests.antt =====
-- The theorems on src/ccevents-loops.c, on a loop with one group of three timers.
use ccevents.Base.{
  ◌+◌, ◌≡◌, ◌∙◌, refl, true, false, List, [], ◌∷◌, has, arith, subst, sym, ap, eq_of_==,
}
use ccevents.Memory.{Memory, Ptr, update, load_queue, store_queue, set_current, load, write_current}
use ccevents.Queue
use ccevents.Queue.Holds.{Holds}
use ccevents.Queue.Frame.{Holds-Spares}
use ccevents.Queue.Advance.{rotated, advance_current-Holds}
use ccevents.Timeval.{is_infinite_timeout}
use ccevents.World.{
  World, Loop, Handler, client_methods, dummy_true, done, out_of_fuel, Returned, on_memory, ◌>>◌,
  Env,
}
use ccevents.World.Rules.{Returned-weaken, Returned-on_memory, IsSafe}
use ccevents.World.Samples.{sample}
use ccevents.Source
use ccevents.Source.{fresh_source, put_source}
use ccevents.Group
use ccevents.Group.{put_group}
use ccevents.Group.Enter.{Serves, enter-Returned}
use ccevents.Group.Samples.{
  stage, stage-loop, theatre, IsReady, theatre-IsReady, sample-Serves, sample-Finalises,
  stage-group,
}
use ccevents.Loop.{put_loop, enter_loop, enter, final}
use ccevents.Loop.Final.{loop-emptied}
use ccevents.Loop.Enter.{Runs, loop-IsSafe}
use ccevents.Loop.Rounds.{Undisturbed, IsCalm, enter_each, loop-schedule, loop-endless}

advanced :
    (E : (Ptr → Loop) → Type 0) (w : World)
    → IsReady E w
    → Returned (λ _. IsReady E) (on_memory (Queue.advance_current 1) w)
advanced E w r =
    let (xs, h) = r.group_queue in
    Returned-weaken _ _ (on_memory (Queue.advance_current 1) w)
      (Returned-on_memory _ (Queue.advance_current 1) w
        (advance_current-Holds (5 ∷ []) r.loop_queue))
      λ a w' (m, k, e). subst (IsReady E) (sym e) (record {
        loop_queue = k.0;
        group_queue = (xs, Holds-Spares k.1 h (omega arith) (λ p i. ground arith));
        at_most = r.at_most;
        set_up = r.set_up;
        loops = r.loops;
      })

sample-Runs : Runs sample (IsReady (λ _. Unit)) 1 4
sample-Runs = record {
  queue = λ w r. (
    5 ∷ [],
    r.loop_queue,
    λ g i.
        subst (λ n. Serves sample (IsReady (λ _. Unit)) n 4) (sym (eq_of_== g 5 (ground arith)))
          (sample-Serves (λ _. Unit)),
  );
  advance = advanced (λ _. Unit);
  request = λ w b r. record {
    loop_queue = r.loop_queue;
    group_queue = r.group_queue;
    at_most = r.at_most;
    set_up = r.set_up;
    loops = tt;
  };
}

loop-IsSafe_example :
    IsSafe
      (λ w. IsReady (λ _. Unit) w × ((w.loops 1).request_to_leave ≡ false))
      (enter sample 100 5 1 theatre)
loop-IsSafe_example =
    loop-IsSafe sample sample-Runs 100 5 theatre (omega arith) (omega arith)
      (theatre-IsReady (λ _. Unit) tt)

-- The loop at 1 is not asked to leave.
abbrev NotAsked : (Ptr → Loop) → Type 0
NotAsked loops = (loops 1).request_to_leave ≡ false

-- A queue that holds one node holds no other list.
Holds-single :
    {h : Memory} {q x : Ptr} (ys : List Ptr) → Holds h q (x ∷ []) → Holds h q ys → ys ≡ x ∷ []
Holds-single [] k l = absurd (ground (arith, k.number, l.number))
Holds-single (y ∷ []) k l = ap (λ z. z ∷ []) (sym l.current ∙ k.current)
Holds-single (y ∷ z ∷ zs) k l = absurd (ground (arith, k.number, l.number))

IsReady-enter :
    (g : Ptr) (gs : List Ptr) (w : World)
    → has g gs ≡ true
    → IsCalm 1 gs w
    → IsReady NotAsked w
    → Returned (λ _ w'. IsCalm 1 gs w' × IsReady NotAsked w') (Group.enter sample 5 g w)
IsReady-enter g gs w i c r =
    let e : gs ≡ 5 ∷ [] = Holds-single gs r.loop_queue c.order in
    Returned-weaken _ _ (Group.enter sample 5 g w)
      (subst (λ n. Returned (λ _. IsReady NotAsked) (Group.enter sample 5 n w))
        (sym (eq_of_== g 5 (ground (arith, ap (has g) e))))
        (Returned-weaken _ _ (Group.enter sample 5 5 w)
          (enter-Returned sample (sample-Serves NotAsked) 5 w (omega arith) (omega arith) r)
          λ a w' s. s.0))
      λ a w' s.
        (record { order = subst (Holds w'.memory 1) (sym e) s.loop_queue; free = s.loops }, s)

sample-Undisturbed : Undisturbed sample (IsReady NotAsked) 1 5
sample-Undisturbed = record {
  moved = λ gs w h k k' s r. record {
    loop_queue = subst (λ hs. Holds h 1 (rotated hs)) (Holds-single gs r.loop_queue k) k';
    group_queue =
        (r.group_queue.0, Holds-Spares s r.group_queue.1 (omega arith) (λ p i. ground arith));
    at_most = r.at_most;
    set_up = r.set_up;
    loops = r.loops;
  };
  serve = IsReady-enter;
}

theatre-IsCalm : IsCalm 1 (5 ∷ []) theatre × IsReady NotAsked theatre
theatre-IsCalm = (record { order = stage-loop; free = refl }, theatre-IsReady NotAsked refl)

loop-schedule_example :
    enter_loop sample (2 + 7) 5 1 theatre
    ≡ (enter_each sample 5 1 (5 ∷ 5 ∷ []) >> enter_loop sample 7 5 1) theatre
loop-schedule_example =
    loop-schedule sample sample-Undisturbed 2 7 (5 ∷ []) theatre refl theatre-IsCalm

loop-endless_example : enter_loop sample 1000 5 1 theatre ≡ out_of_fuel
loop-endless_example =
    loop-endless sample sample-Undisturbed 1000 (5 ∷ []) theatre refl theatre-IsCalm

-- The first handler asks the loop at 1 to leave.
abbrev leaving : Env
leaving = record sample {
  handle = λ k p w. done tt (put_loop 1 (record { request_to_leave = true }) w);
}

-- The source at 10 has an event.
abbrev eager : World
eager = put_source 10 (fresh_source (client_methods dummy_true (Handler.client 0))) theatre

abbrev calm_group : World → World
calm_group = put_group 5 (record { request_to_leave = false; servicing_attempts_watermark = 4 })

-- After the group was left.
abbrev left : World
left = calm_group (
    put_loop 1 (record { request_to_leave = true })
      (record (calm_group eager) { memory = write_current (write_current stage 1 5) 5 20 }))

left-Holds : Holds left.memory 1 (5 ∷ [])
unfolding update
left-Holds = record {
  queue_ne = omega arith;
  current = refl;
  number = refl;
  small = omega arith;
  null_out = refl;
  distinct = (refl, tt);
  ring = ground arith;
  members = λ p i. ground arith;
  owned = λ p pn e. ground arith;
}

eager_leaves : (on_memory (Queue.advance_current 1) >> Group.enter leaving 2 5) eager ≡ done tt left
unfolding update Queue.advance_current Queue.is_not_empty Queue.current_node load load_queue
    store_queue set_current Group.service Group.caught Source.do_one_event
    Source.servicing_is_enabled Source.is_expired_now is_infinite_timeout Source.query
    Source.inquire_by Source.call_inquirer Source.handle_event Source.handle_by Source.call_handler
    Group.enter Group.enter_loop Group.goes_on Group.no_request_to_leave Group.loop_allows
    Group.queue_is_not_empty Group.watermark_not_reached Group.set_request
eager_leaves = refl

left_is_asked : (left.loops 1).request_to_leave ≡ true
unfolding update
left_is_asked = refl

loop-emptied_example :
    Returned
      (λ _ w. Holds w.memory 1 [] × ((g : Ptr) → has g (5 ∷ []) ≡ true → Holds w.memory g []))
      (final sample 2 4 1 theatre)
loop-emptied_example =
    loop-emptied sample sample-Finalises 2 4 (5 ∷ []) (λ g. 10 ∷ 20 ∷ 30 ∷ []) theatre stage-loop
      refl
      (λ g i.
        subst (λ n. Holds stage n (10 ∷ 20 ∷ 30 ∷ [])) (sym (eq_of_== g 5 (ground arith)))
          stage-group)
      (λ g i. omega arith) (omega arith)
