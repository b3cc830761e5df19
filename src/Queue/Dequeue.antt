-- ===== src/Queue/Dequeue.antt =====
-- `ccevents_queue_dequeue` of src/ccevents-queues.c.
use ccevents.Base.{
  ◌+◌, ◌-◌, ◌%◌, ◌≡◌, refl, ◌≢◌, List, [], ◌∷◌, has-last, arith, some, ==_of_ne, ==_of_eq,
}
use ccevents.Memory.{Ptr, null, Memory, Returns, update, write_current, write_number}
use ccevents.Memory.Access.{load-ok, load_queue-ok, set_current-ok, set_number-ok}
use ccevents.Queue.{size_mod, current_node, number_of_items, dequeue_node, dequeue}
use ccevents.Queue.Frame.{Spares}
use ccevents.Queue.Holds.{next_of, prev_of, Holds}
use ccevents.Queue.Unlink.{bypassed, cleared, free_node, bypass-ok, node_init-ok, Ring-unlink}

-- One node fewer.
abbrev pub counted_down : Memory → Ptr → Memory
counted_down h q = write_number h q (((h.queues q).number_of_nodes + size_mod - 1) % size_mod)

dequeue_node-last :
    (h : Memory) {q x : Ptr}
    → q ≢ null
    → x ≢ null
    → (h.queues q).number_of_nodes ≡ 1
    → dequeue_node q x h ≡ some (x, cleared (write_current (counted_down h q) q null) x)
unfolding dequeue_node number_of_items update
dequeue_node-last h {q} {x} hq hx e = rw (
  load_queue-ok hq,
  set_number-ok hq,
  load_queue-ok hq,
  ==_of_eq {a = q} refl,
  ==_of_eq {a = ((h.queues q).number_of_nodes + size_mod - 1) % size_mod} {b = 0} (omega arith),
  set_current-ok hq,
  node_init-ok (write_current (counted_down h q) q null) hx,
  ==_of_eq {a = q} refl,
)

dequeue_node-more :
    (h : Memory) {q x : Ptr}
    → q ≢ null
    → x ≢ null
    → next_of h x ≢ null
    → prev_of h x ≢ null
    → x ≢ next_of h x
    → ((h.queues q).number_of_nodes + size_mod - 1) % size_mod ≢ 0
    → dequeue_node q x h
      ≡ some (x, cleared (bypassed (write_current (counted_down h q) q (next_of h x)) x) x)
unfolding dequeue_node number_of_items update
dequeue_node-more h {q} {x} hq hx hn hp ne e = rw (
  load_queue-ok hq,
  set_number-ok hq,
  load_queue-ok hq,
  ==_of_eq {a = q} refl,
  ==_of_ne e,
  load-ok hx,
  set_current-ok hq,
  bypass-ok (write_current (counted_down h q) q (next_of h x)) hx hn hp ne,
  node_init-ok (bypassed (write_current (counted_down h q) q (next_of h x)) x) hx,
  ==_of_eq {a = q} refl,
)

-- On an empty queue there is no node, and nothing changes.
pub dequeue-empty : {h : Memory} {q : Ptr} → Holds h q [] → dequeue q h ≡ some (null, h)
unfolding dequeue current_node
dequeue-empty {h} k = rw (load_queue-ok k.queue_ne, k.current)

dequeue-nonempty :
    (h : Memory) {q x : Ptr}
    → q ≢ null
    → (h.queues q).current ≡ x
    → x ≢ null
    → dequeue q h ≡ dequeue_node q x h
unfolding dequeue current_node
dequeue-nonempty h hq e hx = rw (load_queue-ok hq, e, ==_of_ne hx)

-- The node comes back in no queue.
abbrev pub Dequeued : Memory → (q x : Ptr) → List Ptr → Memory → Type 0
Dequeued h q x xs h' = Holds h' q xs × Spares h h' q (x ∷ xs) × (h'.nodes x ≡ free_node)

Dequeued-last :
    (h : Memory) {q x : Ptr}
    → Holds h q (x ∷ [])
    → Dequeued h q x [] (cleared (write_current (counted_down h q) q null) x)
unfolding update
Dequeued-last h k = (
  record {
    queue_ne = k.queue_ne;
    current = ground arith;
    number = ground (arith, k.number);
    small = omega arith;
    null_out = refl;
    distinct = tt;
    ring = tt;
    members = λ p i. ground arith;
    owned = λ p pn e. ground (arith, k.owned p pn, k.queue_ne);
  },
  record {
    nodes = λ p i. ground arith;
    queues = λ p ne. ground arith;
    bases = λ p i. ground arith;
  },
  ground arith,
)

Dequeued-more :
    (h : Memory) {q : Ptr} (x y : Ptr) (ys : List Ptr)
    → Holds h q (x ∷ y ∷ ys)
    → let h' = cleared (bypassed (write_current (counted_down h q) q (next_of h x)) x) x in
      Dequeued h q x (y ∷ ys) h'
unfolding update
Dequeued-more h x y ys k = (
  record {
    queue_ne = k.queue_ne;
    current = ground (arith, k.ring);
    number = ground (arith, k.number, k.small);
    small = ground (arith, k.small);
    null_out = ground (arith, k.null_out);
    distinct = k.distinct.1;
    ring = Ring-unlink h x y ys k.distinct k.ring;
    members = λ p i. ground (arith, k.members p, k.distinct);
    owned = λ p pn e. ground (arith, k.owned p pn, k.queue_ne);
  },
  record {
    nodes = λ p i. ground (arith, k.ring, has-last y ys);
    queues = λ p ne. ground arith;
    bases = λ p i. ground (arith, k.members p);
  },
  ground arith,
)

-- Dequeueing from a well-formed queue that is not empty gives the current node, which is then in no
-- queue, and leaves a well-formed queue of the others in their order, the next one current. No
-- other queue is written.
pub dequeue-Holds :
    {h : Memory} {q x : Ptr} (xs : List Ptr)
    → Holds h q (x ∷ xs)
    → Returns (λ p h'. (p ≡ x) × Dequeued h q x xs h') (dequeue q h)
dequeue-Holds {h} {x} [] k =
    let hx : x ≢ null = ground (arith, k.null_out) in
    rw (dequeue-nonempty h k.queue_ne k.current hx, dequeue_node-last h k.queue_ne hx k.number)
      (refl, Dequeued-last h k)
dequeue-Holds {h} {x} (y ∷ ys) k =
    let hx : x ≢ null = ground (arith, k.null_out) in
    let hn : next_of h x ≢ null = ground (arith, k.null_out, k.ring) in
    let hp : prev_of h x ≢ null = ground (arith, k.null_out, k.ring, has-last y ys) in
    let ne : x ≢ next_of h x = ground (arith, k.distinct, k.ring) in
    rw
      (
        dequeue-nonempty h k.queue_ne k.current hx,
        dequeue_node-more h k.queue_ne hx hn hp ne (ground (arith, k.number, k.small)),
      )
      (refl, Dequeued-more h x y ys k)
