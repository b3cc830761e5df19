-- ===== src/Group/Final.antt =====
-- `ccevents_group_final` of src/ccevents-groups.c and `ccevents_group_dequeue_source` of
-- src/ccevents.h.
use ccevents.Base.{
  ℕ, zero, suc, ◌<◌, ◌≡◌, refl, ◌≢◌, ◌∙◌, true, arith, Option, none, some, List, [], ◌∷◌, length,
  has, ◌∉◌, Bool-cases, inl, inr, eq_of_==, ==_of_ne, subst, sym,
}
use ccevents.Memory.{Ptr, null, Memory, load, Returns}
use ccevents.Memory.Access.{load_queue-ok}
use ccevents.Queue.{current_node, node_dequeue_itself}
use ccevents.Queue.Holds.{Holds}
use ccevents.Queue.Unlink.{free_node}
use ccevents.Queue.Dequeue.{Dequeued}
use ccevents.Queue.Itself.{dequeue_itself-current}
use ccevents.World.{
  World, Otable, default_otable, client_otable, fault, Prog, from_memory, Returned, ◌>>◌, return,
  Env,
}
use ccevents.World.Rules.{Returned-and_then, and_then-cong, and_then_assoc, Returned-weaken}
use ccevents.Source
use ccevents.Source.{dequeue_itself, final_by}
use ccevents.Group.{dequeue_source, final}
use ccevents.Group.Enter.{current_node-Holds, queue_is_not_empty-Holds}

-- Dequeueing a source from an empty group reads through NULL: it does not return NULL.
pub dequeue_source-empty :
    {grp : Ptr} (w : World) → Holds w.memory grp [] → dequeue_source grp w ≡ fault
unfolding dequeue_source current_node dequeue_itself node_dequeue_itself load
dequeue_source-empty w k = rw (load_queue-ok k.queue_ne, k.current) refl

first-ne : {h : Memory} {q x : Ptr} {xs : List Ptr} → Holds h q (x ∷ xs) → x ≢ null
first-ne k = ground (arith, k.null_out)

-- Finalisers that leave the nodes and the queues alone.
pub record Finalises (env : Env) : Type 0 where
  pub untouched :
      (n : ℕ) (p : Ptr) (w : World) → Returned (λ _ w'. w'.memory ≡ w.memory) (env.finalise n p w)

-- The group is empty, the nodes that it held are in no queue, and no other node or queue was written.
abbrev pub Emptied : Memory → Ptr → List Ptr → Memory → Type 0
Emptied h grp xs h' =
    Holds h' grp []
    × ((p : Ptr) → has p xs ≡ true → h'.nodes p ≡ free_node)
    × ((p : Ptr) → p ∉ xs → h'.nodes p ≡ h.nodes p)
    × ((r : Ptr) → r ≢ grp → h'.queues r ≡ h.queues r)

Emptied-Dequeued :
    {h h1 h2 : Memory} {grp x : Ptr} {xs : List Ptr}
    → Dequeued h grp x xs h1
    → x ∉ xs
    → Emptied h1 grp xs h2
    → Emptied h grp (x ∷ xs) h2
Emptied-Dequeued {h} {h1} {h2} {x} {xs} d o e = (
  e.0,
  λ p i. elim (Bool-cases (has p xs)) [
    | inl j ↦ e.1 p j
    | inr j ↦ e.2 p j ∙ subst (λ q. h1.nodes q ≡ free_node) (sym (eq_of_== p x (ground arith))) d.2
  ],
  λ p i. e.2 p (ground arith) ∙ d.1.nodes p i,
  λ r ne. e.3 r ne ∙ d.1.queues r ne,
)

-- Each source out of its group, and finalised.
abbrev pub finalise_each : Env → List Ptr → Prog (Unit {0})
finalise_each env [] = return tt
finalise_each env (x ∷ xs) = Source.dequeue_itself x >> (Source.final env x >> finalise_each env xs)

dequeue_source-Holds :
    {grp x : Ptr} {xs : List Ptr} (w : World)
    → Holds w.memory grp (x ∷ xs)
    → dequeue_source grp w ≡ (Source.dequeue_itself x >> return x) w
unfolding dequeue_source
dequeue_source-Holds w k = rw (current_node-Holds w k) refl

dequeue_itself-Returned :
    {grp x : Ptr} (xs : List Ptr) (w : World)
    → Holds w.memory grp (x ∷ xs)
    → Returned (λ _ w'. Dequeued w.memory grp x xs w'.memory) (Source.dequeue_itself x w)
unfolding Source.dequeue_itself
dequeue_itself-Returned {grp} {x} xs w k =
    go (node_dequeue_itself x w.memory) (dequeue_itself-current xs k)
  where
    go :
        (r : Option (Unit {0} × Memory))
        → Returns (λ _. Dequeued w.memory grp x xs) r
        → Returned (λ _ w'. Dequeued w.memory grp x xs w'.memory) (from_memory w r)
    go none e = e
    go (some (a, h)) e = e

module _ (env : Env) (f : Finalises env) where
  final_by-untouched :
      (o : Otable) (p : Ptr) (w : World)
      → Returned (λ _ w'. w'.memory ≡ w.memory) (final_by env o p w)
  unfolding final_by
  final_by-untouched default_otable p w = refl
  final_by-untouched (client_otable n) p w = f.untouched n p w

  final-untouched :
      {p : Ptr} (w : World)
      → p ≢ null
      → Returned (λ _ w'. w'.memory ≡ w.memory) (Source.final env p w)
  unfolding Source.final
  final-untouched {p} w ne = rw (==_of_ne ne) (final_by-untouched (w.sources p).otable p w)

  -- The first source out of the group and finalised.
  first_gone :
      {grp x : Ptr} (xs : List Ptr) (w : World)
      → Holds w.memory grp (x ∷ xs)
      → Returned
          (λ _ w'. Dequeued w.memory grp x xs w'.memory)
          ((Source.dequeue_itself x >> Source.final env x) w)
  first_gone {grp} {x} xs w k =
      Returned-and_then (λ _ w'. Dequeued w.memory grp x xs w'.memory) _ (Source.dequeue_itself x w)
        _ (dequeue_itself-Returned xs w k)
        λ a w1 d.
          Returned-weaken (λ _ w'. w'.memory ≡ w1.memory) _ (Source.final env x w1)
            (final-untouched w1 (first-ne k)) λ b w2 e. subst (Dequeued w.memory grp x xs) (sym e) d

  -- Finalising a group takes out and finalises its sources, one after the other from the current one.
  final-finalise_each :
      {grp : Ptr} (fuel : ℕ) (xs : List Ptr) (w : World)
      → Holds w.memory grp xs
      → length xs < fuel
      → final env fuel grp w ≡ finalise_each env xs w
  unfolding final
  final-finalise_each zero xs w k l = absurd (omega arith)
  final-finalise_each (suc fuel) [] w k l = rw (queue_is_not_empty-Holds w k) refl
  final-finalise_each {grp} (suc fuel) (x ∷ xs) w k l =
      rw (queue_is_not_empty-Holds w k, dequeue_source-Holds w k)
        (and_then_assoc (Source.dequeue_itself x w) _ _
          ∙ sym (and_then_assoc (Source.dequeue_itself x w) _ _)
          ∙ and_then-cong (λ _ w'. Dequeued w.memory grp x xs w'.memory) _ (λ _. final env fuel grp)
              (λ _. finalise_each env xs) (first_gone xs w k)
              (λ a w1 d. final-finalise_each fuel xs w1 d.0 (omega arith))
          ∙ and_then_assoc (Source.dequeue_itself x w) _ _)

  finalise_each-Emptied :
      {grp : Ptr} (xs : List Ptr) (w : World)
      → Holds w.memory grp xs
      → Returned (λ _ w'. Emptied w.memory grp xs w'.memory) (finalise_each env xs w)
  finalise_each-Emptied [] w k = (k, λ p i. ground arith, λ p o. refl, λ r ne. refl)
  finalise_each-Emptied {grp} (x ∷ xs) w k =
      subst (Returned (λ _ w'. Emptied w.memory grp (x ∷ xs) w'.memory))
        (and_then_assoc (Source.dequeue_itself x w) _ _)
        (Returned-and_then (λ _ w'. Dequeued w.memory grp x xs w'.memory) _ _ _ (first_gone xs w k)
          λ a w1 d.
            Returned-weaken (λ _ w'. Emptied w1.memory grp xs w'.memory) _ (finalise_each env xs w1)
              (finalise_each-Emptied xs w1 d.0) λ b w2 e. Emptied-Dequeued d k.distinct.0 e)

  -- With finalisers that leave the nodes and the queues alone, finalising a group with a well-
  -- formed queue ends within one round more than it has sources: it takes out and finalises the
  -- sources in order, from the current one on, and leaves the group empty, each source in no group,
  -- and other nodes and queues as they were.
  pub final-Emptied :
      {grp : Ptr} (fuel : ℕ) (xs : List Ptr) (w : World)
      → Holds w.memory grp xs
      → length xs < fuel
      → (final env fuel grp w ≡ finalise_each env xs w)
        × Returned (λ _ w'. Emptied w.memory grp xs w'.memory) (final env fuel grp w)
  final-Emptied {grp} fuel xs w k l =
      let e : final env fuel grp w ≡ finalise_each env xs w = final-finalise_each fuel xs w k l in
      (
        e,
        subst (Returned (λ _ w'. Emptied w.memory grp xs w'.memory)) (sym e)
            (finalise_each-Emptied xs w k),
      )
