-- ===== src/Queue/Enqueue.antt =====
-- `ccevents_queue_init` and `ccevents_queue_enqueue` of src/ccevents-queues.c.
use ccevents.Base.{
  ◌+◌, ◌%◌, ◌<◌, ◌≡◌, refl, ◌≢◌, List, [], ◌∷◌, length, last, has-last, has, ◌∉◌, arith, some,
  Bool-cases, inl, inr, ==_of_ne, ==_of_eq,
}
use ccevents.Memory.{
  Ptr, null, Memory, Returns, update, write_next, write_prev, write_base, write_current,
  write_number,
}
use ccevents.Memory.Access.{
  load-ok, load_queue-ok, set_next-ok, set_prev-ok, set_base-ok, set_current-ok, set_number-ok,
}
use ccevents.Queue.{
  size_mod, link_nodes_prev_next, is_not_empty, current_node, number_of_items, enqueue,
}
use ccevents.Queue.Ring.{Ring-insert, Ring-frame, prev-Ring, inserted_next, inserted_prev}
use ccevents.Queue.Frame.{Spares}
use ccevents.Queue.Holds.{next_of, prev_of, base_of, Holds}

-- `new` linked before `x`, the current node, and after `l`, the one before it.
abbrev linked_between : Memory → (new x l : Ptr) → Memory
linked_between h new x l =
    write_prev (write_next (write_prev (write_next h new x) x new) l new) new l

-- `new` made the current node of `q`.
abbrev made_current : Memory → (q new : Ptr) → Memory
made_current h q new =
    let h' = write_current (write_base h new q) q new in
    write_number h' q (((h'.queues q).number_of_nodes + 1) % size_mod)

link_nodes-ok :
    (h : Memory) {p n : Ptr}
    → p ≢ null
    → n ≢ null
    → link_nodes_prev_next p n h ≡ some (tt, write_prev (write_next h p n) n p)
unfolding link_nodes_prev_next
link_nodes-ok h {p} {n} hp hn = rw (set_next-ok hp h n, set_prev-ok hn (write_next h p n) p)

enqueue-nonempty :
    (h : Memory) {q new x : Ptr}
    → q ≢ null
    → new ≢ null
    → (h.queues q).current ≡ x
    → x ≢ null
    → prev_of h x ≢ null
    → enqueue q new h ≡ some (tt, made_current (linked_between h new x (prev_of h x)) q new)
unfolding enqueue is_not_empty current_node number_of_items
enqueue-nonempty h {q} {new} {x} hq hn e hx hl = rw (
  load_queue-ok hq,
  e,
  ==_of_ne hx,
  load_queue-ok hq,
  e,
  load-ok hx,
  link_nodes-ok h hn hx,
  link_nodes-ok (write_prev (write_next h new x) x new) hl hn,
  set_base-ok hn,
  set_current-ok hq,
  load_queue-ok hq,
  set_number-ok hq,
)

enqueue-empty :
    (h : Memory) {q new : Ptr}
    → q ≢ null
    → new ≢ null
    → (h.queues q).current ≡ null
    → enqueue q new h ≡ some (tt, made_current (write_prev (write_next h new new) new new) q new)
unfolding enqueue is_not_empty current_node number_of_items
enqueue-empty h {q} {new} hq hn e = rw (
  load_queue-ok hq,
  e,
  link_nodes-ok h hn hn,
  set_base-ok hn,
  set_current-ok hq,
  load_queue-ok hq,
  set_number-ok hq,
)

module _ {h : Memory} {q new : Ptr} (hn : new ≢ null) (free : base_of h new ≡ null) where
  new_out : (xs : List Ptr) → Holds h q xs → new ∉ xs
  new_out xs k = elim (Bool-cases (has new xs)) [
    | inl i ↦ absurd (ground (arith, k.members new i, k.queue_ne))
    | inr i ↦ i
  ]

  Holds-linked :
      (x : Ptr) (xs : List Ptr)
      → Holds h q (x ∷ xs)
      → length (x ∷ xs) + 1 < size_mod
      → let h' = made_current (linked_between h new x (last x xs)) q new in
        Holds h' q (new ∷ x ∷ xs) × Spares h h' q (new ∷ x ∷ xs)
  unfolding update
  Holds-linked x xs k l =
      let out = new_out (x ∷ xs) k in
      (
        record {
          queue_ne = k.queue_ne;
          current = ground arith;
          number = ground (arith, k.number);
          small = ground arith;
          null_out = ground (arith, k.null_out);
          distinct = (out, k.distinct);
          ring =
              Ring-frame (inserted_next (next_of h) (prev_of h) new x xs)
                (inserted_prev (next_of h) (prev_of h) new x xs) _ _ (new ∷ x ∷ xs)
                (λ p i. (ground arith, ground arith)) (out, k.distinct)
                (Ring-insert (next_of h) (prev_of h) new x xs (out, k.distinct) k.ring);
          members = λ p i. ground (arith, k.members p);
          owned = λ p pn e.
              ground (arith, k.owned p pn, has-last x xs, ==_of_eq {a = p} {b = last x xs});
        },
        record {
          nodes = λ p i. ground (arith, has-last x xs);
          queues = λ p ne. ground arith;
          bases = λ p i. ground (arith, k.members p);
        },
      )

  Holds-alone :
      Holds h q []
      → let h' = made_current (write_prev (write_next h new new) new new) q new in
        Holds h' q (new ∷ []) × Spares h h' q (new ∷ [])
  unfolding update
  Holds-alone k = (
    record {
      queue_ne = k.queue_ne;
      current = ground arith;
      number = ground (arith, k.number);
      small = omega arith;
      null_out = ground arith;
      distinct = (refl, tt);
      ring = ground arith;
      members = λ p i. ground arith;
      owned = λ p pn e. ground (arith, k.owned p pn);
    },
    record {
      nodes = λ p i. ground arith;
      queues = λ p ne. ground arith;
      bases = λ p i. ground arith;
    },
  )

  -- Enqueueing a node that is not NULL and in no queue on a well-formed queue, with room for one
  -- more node below 2 ^ 64, makes it the current node, before the nodes that were there. The queue
  -- is well-formed again, and no other queue or node is written.
  pub enqueue-Holds :
      (xs : List Ptr)
      → Holds h q xs
      → length xs + 1 < size_mod
      → Returns (λ _ h'. Holds h' q (new ∷ xs) × Spares h h' q (new ∷ xs)) (enqueue q new h)
  enqueue-Holds [] k l = rw (enqueue-empty h k.queue_ne hn k.current) (Holds-alone k)
  enqueue-Holds (x ∷ xs) k l =
      let e = prev-Ring (next_of h) (prev_of h) x xs k.ring in
      let hx : x ≢ null = ground (arith, k.null_out) in
      let hl : prev_of h x ≢ null = ground (arith, k.null_out, has-last x xs) in
      rw (enqueue-nonempty h k.queue_ne hn k.current hx hl, e) (Holds-linked x xs k l)
