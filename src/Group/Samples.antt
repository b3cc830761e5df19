-- ===== src/Group/Samples.antt =====
-- A loop at 1 with a group at 5 of three timers at 10, 20 and 30, which never expire, for the tests on
-- src/ccevents-groups.c and src/ccevents-loops.c.
use ccevents.Base.{ℕ, zero, suc, ◌≤◌, refl, List, [], ◌∷◌, arith, subst, sym}
use ccevents.Memory.{Ptr, Memory, update}
use ccevents.Queue
use ccevents.Queue.Holds.{Holds}
use ccevents.Queue.Frame.{Holds-Spares}
use ccevents.Queue.Advance.{rotated, advance_current-Holds}
use ccevents.World.{World, Loop, Returned, on_memory}
use ccevents.World.Rules.{Keeps, Contract, IsSetUp, Returned-weaken, Returned-on_memory}
use ccevents.World.Samples.{sample, quiet, inquire_sample, handle_sample}
use ccevents.Group.Enter.{Serves}
use ccevents.Group.Final.{Finalises}

abbrev pub stage : Memory
stage = record {
  nodes =
      update
        (update
          (update
            (update (λ _. record { base = 0; next = 0; prev = 0 }) 10
              (record { base = 5; next = 20; prev = 30 }))
            20 (record { base = 5; next = 30; prev = 10 }))
          30 (record { base = 5; next = 10; prev = 20 }))
        5 (record { base = 1; next = 5; prev = 5 });
  queues =
      update
        (update (λ _. record { current = 0; number_of_nodes = 0 }) 5
          (record { current = 10; number_of_nodes = 3 }))
        1 (record { current = 5; number_of_nodes = 1 });
}

pub stage-group : Holds stage 5 (10 ∷ 20 ∷ 30 ∷ [])
unfolding update
stage-group = record {
  queue_ne = omega arith;
  current = refl;
  number = refl;
  small = omega arith;
  null_out = refl;
  distinct = (refl, (refl, (refl, tt)));
  ring = ground arith;
  members = λ p i. ground arith;
  owned = λ p pn e. ground arith;
}

pub stage-loop : Holds stage 1 (5 ∷ [])
unfolding update
stage-loop = record {
  queue_ne = omega arith;
  current = refl;
  number = refl;
  small = omega arith;
  null_out = refl;
  distinct = (refl, tt);
  ring = ground arith;
  members = λ p i. ground arith;
  owned = λ p pn e. ground arith;
}

abbrev pub theatre : World
theatre = record quiet { memory = stage }

-- The queues are well-formed, the group's watermark is at most 4, every source is set up and
-- the loops are as `E` says.
pub record IsReady (E : (Ptr → Loop) → Type 0) (w : World) : Type 0 where
  pub loop_queue : Holds w.memory 1 (5 ∷ [])
  pub group_queue : (xs : List Ptr) × Holds w.memory 5 xs
  pub at_most : (w.groups 5).servicing_attempts_watermark ≤ 4
  pub set_up : (p : Ptr) → IsSetUp sample w p
  pub loops : E w.loops

pub theatre-IsReady : (E : (Ptr → Loop) → Type 0) → E quiet.loops → IsReady E theatre
theatre-IsReady E e = record {
  loop_queue = stage-loop;
  group_queue = (10 ∷ 20 ∷ 30 ∷ [], stage-group);
  at_most = omega arith;
  set_up = λ p. (tt, tt);
  loops = e;
}

module _ (E : (Ptr → Loop) → Type 0) where
  sample_inquires : (k : ℕ) (w : World) → IsReady E w → Keeps (IsReady E) (inquire_sample k w)
  sample_inquires zero w r = r
  sample_inquires (suc k) w r = r

  sample_handles : (k : ℕ) (w : World) → IsReady E w → Keeps (IsReady E) (handle_sample k w)
  sample_handles zero w r = r
  sample_handles (suc k) w r = r

  pub sample-Contract : Contract sample (IsReady E)
  sample-Contract = record {
    inquires = λ k p. sample_inquires k;
    handles = λ k p. sample_handles k;
    reads = λ fd w r. r;
    writes = λ fd w r. r;
    excepts = λ fd w r. r;
    on_error = λ w r. r;
    on_success = λ w r. r;
    clock = λ w r. record {
      loop_queue = r.loop_queue;
      group_queue = r.group_queue;
      at_most = r.at_most;
      set_up = r.set_up;
      loops = r.loops;
    };
    cleared = λ w s r. record {
      loop_queue = r.loop_queue;
      group_queue = r.group_queue;
      at_most = r.at_most;
      set_up = r.set_up;
      loops = r.loops;
    };
    set_up = λ w p r. r.set_up p;
  }

  advanced :
      (w : World) → IsReady E w → Returned (λ _. IsReady E) (on_memory (Queue.advance_current 5) w)
  advanced w r =
      let (xs, h) = r.group_queue in
      Returned-weaken _ _ (on_memory (Queue.advance_current 5) w)
        (Returned-on_memory _ (Queue.advance_current 5) w (advance_current-Holds xs h))
        λ a w' (m, k, e). subst (IsReady E) (sym e) (record {
          loop_queue = Holds-Spares k.1 r.loop_queue (omega arith) (λ p i. ground arith);
          group_queue = (rotated xs, k.0);
          at_most = r.at_most;
          set_up = r.set_up;
          loops = r.loops;
        })

  pub sample-Serves : Serves sample (IsReady E) 5 4
  unfolding update
  sample-Serves = record {
    contract = sample-Contract;
    queue = λ w r. r.group_queue;
    watermark = λ w r. r.at_most;
    advance = advanced;
    request = λ w b r. record {
      loop_queue = r.loop_queue;
      group_queue = r.group_queue;
      at_most = r.at_most;
      set_up = r.set_up;
      loops = r.loops;
    };
  }

pub sample-Finalises : Finalises sample
sample-Finalises = record { untouched = λ n p w. refl }
