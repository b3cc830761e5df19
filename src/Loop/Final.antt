-- ===== src/Loop/Final.antt =====
-- `ccevents_loop_final` of src/ccevents-loops.c.
use ccevents.Base.{
  ℕ, zero, suc, ◌<◌, ◌≡◌, refl, ◌≢◌, ◌==◌, true, arith, List, [], ◌∷◌, length, has, ◌∉◌, Bool-cases,
  inl, inr, eq_of_==, ne_of_==, subst, sym, ap,
}
use ccevents.Memory.{Ptr, Memory, update}
use ccevents.Queue
use ccevents.Queue.Holds.{Holds}
use ccevents.Queue.Frame.{Spares, Holds-Spares}
use ccevents.Queue.Dequeue.{Dequeued, dequeue-Holds}
use ccevents.World.{World, Returned, on_memory, Env}
use ccevents.World.Rules.{Returned-and_then, Returned-weaken, Returned-on_memory}
use ccevents.Group
use ccevents.Group.Final.{Finalises, Emptied, final-Emptied}
use ccevents.Loop.{dequeue_group, final}
use ccevents.Loop.Enter.{not_empty-Holds}

-- The loop holds `gs`, which are among the groups `groups`, and each of these holds its `content`.
record IsStocked (groups : List Ptr) (loop : Ptr) (gs : List Ptr) (content : Ptr → List Ptr)
    (h : Memory) : Type 0 where
  loop_queue : Holds h loop gs
  apart : loop ∉ groups
  queues : (r : Ptr) → has r groups ≡ true → Holds h r (content r)
  within : (r : Ptr) → has r gs ≡ true → has r groups ≡ true

loop-ne : {loop r : Ptr} (groups : List Ptr) → loop ∉ groups → has r groups ≡ true → loop ≢ r
loop-ne groups o i e = absurd (ground (arith, ap (λ p. has p groups) e))

Emptied-Spares : {h h' : Memory} {g : Ptr} {xs : List Ptr} → Emptied h g xs h' → Spares h h' g xs
Emptied-Spares {h'} e = record {
  nodes = λ p o. e.2 p o;
  queues = λ r ne. e.3 r ne;
  bases = λ p i. inr (ap (λ n. n.base) (e.1 p i));
}

module _ {groups gs : List Ptr} {loop g : Ptr} {content : Ptr → List Ptr} {h h' : Memory} where
  -- A group taken out of the loop keeps its sources, and so do the others.
  Dequeued-IsStocked :
      IsStocked groups loop (g ∷ gs) content h
      → Dequeued h loop g gs h'
      → IsStocked groups loop gs content h'
  Dequeued-IsStocked s (k, spares, f) = record {
    loop_queue = k;
    apart = s.apart;
    queues = λ r i.
        Holds-Spares spares (s.queues r i) (loop-ne groups s.apart i)
          (λ p j. inl (s.loop_queue.members p j));
    within = λ r i. s.within r (ground arith);
  }

  -- A group that is finalised is empty, and the other groups and the loop are as before.
  Emptied-IsStocked :
      IsStocked groups loop gs content h
      → has g groups ≡ true
      → Emptied h g (content g) h'
      → IsStocked groups loop gs (update content g []) h'
  unfolding update
  Emptied-IsStocked s i e = record {
    loop_queue =
        Holds-Spares (Emptied-Spares e) s.loop_queue (λ q. loop-ne groups s.apart i (sym q))
          (λ p j. inl ((s.queues g i).members p j));
    apart = s.apart;
    queues = λ r j. elim (Bool-cases (r == g)) [
      | inl q ↦ rw q (subst (λ r. Holds h' r []) (sym (eq_of_== r g q)) e.0)
      | inr q ↦ rw q (
          Holds-Spares (Emptied-Spares e) (s.queues r j) (λ x. ne_of_== r g q (sym x))
            (λ p j. inl ((s.queues g i).members p j)))
    ];
    within = s.within;
  }

-- The contents after the groups were finalised.
emptied : List Ptr → (Ptr → List Ptr) → Ptr → List Ptr
emptied [] content = content
emptied (g ∷ gs) content = emptied gs (update content g [])

emptied-nil :
    (gs : List Ptr) (content : Ptr → List Ptr) (r : Ptr)
    → content r ≡ []
    → emptied gs content r ≡ []
unfolding emptied update
emptied-nil [] content r e = e
emptied-nil (g ∷ gs) content r e = emptied-nil gs (update content g []) r (ground (arith, e))

emptied-has :
    (gs : List Ptr) (content : Ptr → List Ptr) (r : Ptr)
    → has r gs ≡ true
    → emptied gs content r ≡ []
unfolding emptied update
emptied-has [] content r i = cc
emptied-has (g ∷ gs) content r i = elim (Bool-cases (r == g)) [
  | inl e ↦ emptied-nil gs (update content g []) r (rw e refl)
  | inr e ↦ emptied-has gs (update content g []) r (ground arith)
]

length-emptied :
    (groups : List Ptr) (n : ℕ) (g : Ptr) (content : Ptr → List Ptr)
    → ((r : Ptr) → has r groups ≡ true → length (content r) < n)
    → (r : Ptr) → has r groups ≡ true
    → length (update content g [] r) < n
unfolding update
length-emptied groups n g content l r i = elim (Bool-cases (r == g)) [
  | inl e ↦ rw e (omega (arith, l r i))
  | inr e ↦ rw e (l r i)
]

module _ (env : Env) (f : Finalises env) {groups : List Ptr} {loop : Ptr} (group_fuel : ℕ) where
  dequeue_group-IsStocked :
      (g : Ptr) (gs : List Ptr) (content : Ptr → List Ptr) (w : World)
      → IsStocked groups loop (g ∷ gs) content w.memory
      → Returned
          (λ p w'. (p ≡ g) × IsStocked groups loop gs content w'.memory)
          (dequeue_group loop w)
  unfolding dequeue_group
  dequeue_group-IsStocked g gs content w s =
      Returned-weaken _ _ (on_memory (Queue.dequeue loop) w)
        (Returned-on_memory _ (Queue.dequeue loop) w (dequeue-Holds gs s.loop_queue))
        λ p w' (h, (e, d), q). (
          e,
          subst (λ v. IsStocked groups loop gs content v.memory) (sym q) (Dequeued-IsStocked s d),
        )

  final_group-IsStocked :
      (g : Ptr) (gs : List Ptr) (content : Ptr → List Ptr) (w : World)
      → IsStocked groups loop gs content w.memory
      → has g groups ≡ true
      → length (content g) < group_fuel
      → Returned
          (λ _ w'. IsStocked groups loop gs (update content g []) w'.memory)
          (Group.final env group_fuel g w)
  final_group-IsStocked g gs content w s i l =
      Returned-weaken _ _ (Group.final env group_fuel g w)
        (final-Emptied env f group_fuel (content g) w (s.queues g i) l).1
        λ a w' e. Emptied-IsStocked s i e

  final-IsStocked :
      (fuel : ℕ) (gs : List Ptr) (content : Ptr → List Ptr) (w : World)
      → IsStocked groups loop gs content w.memory
      → ((r : Ptr) → has r groups ≡ true → length (content r) < group_fuel)
      → length gs < fuel
      → Returned
          (λ _ w'. IsStocked groups loop [] (emptied gs content) w'.memory)
          (final env fuel group_fuel loop w)
  unfolding final emptied
  final-IsStocked zero gs content w s l m = absurd (omega arith)
  final-IsStocked (suc fuel) [] content w s l m = rw (not_empty-Holds w s.loop_queue) s
  final-IsStocked (suc fuel) (g ∷ gs) content w s l m = rw (not_empty-Holds w s.loop_queue) (
      Returned-and_then _ _ (dequeue_group loop w) _ (dequeue_group-IsStocked g gs content w s)
        λ p w1 (e, s1).
          let i : has g groups ≡ true = s.within g (ground arith) in
          Returned-and_then (λ _ w'. IsStocked groups loop gs (update content g []) w'.memory) _
            (Group.final env group_fuel p w1) _
            (subst
              (λ n.
                Returned (λ _ w'. IsStocked groups loop gs (update content g []) w'.memory)
                  (Group.final env group_fuel n w1))
              (sym e) (final_group-IsStocked g gs content w1 s1 i (l g i)))
            λ a w2 s2.
              final-IsStocked fuel gs (update content g []) w2 s2
                (length-emptied groups group_fuel g content l) (omega arith))

-- With finalisers that leave the nodes and the queues alone, finalising a loop with a well-formed
-- queue, which is none of its groups, ends within one round more than it has groups, and leaves the
-- loop and each of its groups empty, if the queue of every group is well-formed and holds fewer
-- sources than the fuel of a group.
pub loop-emptied :
    (env : Env) (f : Finalises env) {loop : Ptr} (fuel group_fuel : ℕ) (gs : List Ptr)
    (content : Ptr → List Ptr) (w : World)
    → Holds w.memory loop gs
    → loop ∉ gs
    → ((g : Ptr) → has g gs ≡ true → Holds w.memory g (content g))
    → ((g : Ptr) → has g gs ≡ true → length (content g) < group_fuel)
    → length gs < fuel
    → Returned
        (λ _ w'. Holds w'.memory loop [] × ((g : Ptr) → has g gs ≡ true → Holds w'.memory g []))
        (final env fuel group_fuel loop w)
loop-emptied env f {loop} fuel group_fuel gs content w k o q l m =
    Returned-weaken _ _ (final env fuel group_fuel loop w)
      (final-IsStocked env f group_fuel fuel gs content w
        (record { loop_queue = k; apart = o; queues = q; within = λ r i. i }) l m)
      λ a w' s.
        (s.loop_queue, λ g i. subst (Holds w'.memory g) (emptied-has gs content g i) (s.queues g i))
