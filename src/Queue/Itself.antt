-- ===== src/Queue/Itself.antt =====
-- `ccevents_queue_node_dequeue_itself` of src/ccevents-queues.c.
use ccevents.Base.{
  ◌≡◌, sym, ◌≢◌, true, List, [], ◌∷◌, ◌++◌, ◌||◌, ◌==◌, ◌∉◌, Distinct, length-append, has,
  has-append, ne_of_has, Distinct-remove, Distinct-rotate, arith, Option, none, some, ==_of_ne,
  ==_of_eq, refl,
}
use ccevents.Memory.{Ptr, null, Memory, Returns, and_then, update}
use ccevents.Memory.Access.{load-ok, load_queue-ok, set_number-ok}
use ccevents.Queue.{current_node, number_of_items, extract_node, dequeue, node_dequeue_itself}
use ccevents.Queue.Ring.{Ring, Ring-rotate}
use ccevents.Queue.Holds.{next_of, prev_of, base_of, Holds}
use ccevents.Queue.Unlink.{bypassed, cleared, bypass-ok, node_init-ok, Ring-unlink_any, neighbours}
use ccevents.Queue.Dequeue.{counted_down, Dequeued, dequeue-Holds}

-- A node in no queue is left alone.
pub dequeue_itself-free :
    (h : Memory) {n : Ptr} → n ≢ null → base_of h n ≡ null → node_dequeue_itself n h ≡ some (tt, h)
unfolding node_dequeue_itself
dequeue_itself-free h hn e = rw (load-ok hn, e)

itself-current :
    (h : Memory) {q n : Ptr}
    → n ≢ null
    → q ≢ null
    → base_of h n ≡ q
    → (h.queues q).current ≡ n
    → node_dequeue_itself n h ≡ and_then (dequeue q h) (λ _ h'. some (tt, h'))
unfolding node_dequeue_itself current_node
itself-current h {n} hn hq e c =
    rw (load-ok hn, e, ==_of_ne hq, load_queue-ok hq, c, ==_of_eq {a = n} refl)

itself-other :
    (h : Memory) {q n x : Ptr}
    → n ≢ null
    → q ≢ null
    → base_of h n ≡ q
    → (h.queues q).current ≡ x
    → x ≢ n
    → node_dequeue_itself n h ≡ extract_node q n h
unfolding node_dequeue_itself current_node
itself-other h hn hq e c ne = rw (load-ok hn, e, ==_of_ne hq, load_queue-ok hq, c, ==_of_ne ne)

extract_node-ok :
    (h : Memory) {q n : Ptr}
    → q ≢ null
    → n ≢ null
    → next_of h n ≢ null
    → prev_of h n ≢ null
    → n ≢ next_of h n
    → extract_node q n h ≡ some (tt, cleared (counted_down (bypassed h n) q) n)
unfolding extract_node number_of_items
extract_node-ok h {q} {n} hq hn hx hp ne = rw (
  bypass-ok h hn hx hp ne,
  load_queue-ok hq,
  set_number-ok hq,
  node_init-ok (counted_down (bypassed h n) q) hn,
)

append-ne-nil : (bs : List Ptr) (x : Ptr) (xs : List Ptr) → bs ++ x ∷ xs ≢ []
append-ne-nil [] x xs e = cc
append-ne-nil (b ∷ bs) x xs e = cc

-- The node `n` stands behind the current node `x` and `front`, and before `back`.
module _ {h : Memory} {q x : Ptr} (n : Ptr) (front back : List Ptr)
    (k : Holds h q (x ∷ front ++ n ∷ back)) where
  -- The same ring, entered at `n`.
  from_n : Ring (next_of h) (prev_of h) (n ∷ back ++ x ∷ front)
  from_n = Ring-rotate (next_of h) (prev_of h) (x ∷ front) (n ∷ back) k.ring

  others :
      (has (next_of h n) (x ∷ front ++ back) ≡ true)
      × (has (prev_of h n) (x ∷ front ++ back) ≡ true)
  others =
      let e = neighbours h n (back ++ x ∷ front) (append-ne-nil back x front) from_n in
      ground (
        arith,
        e,
        has-append (next_of h n) back (x ∷ front),
        has-append (next_of h n) front back,
        has-append (prev_of h n) back (x ∷ front),
        has-append (prev_of h n) front back,
      )

  apart_from_n : (n ∉ x ∷ front ++ back) × Distinct (x ∷ front ++ back)
  apart_from_n = Distinct-remove (x ∷ front) n back k.distinct

  -- The nodes that stay.
  has-left : (p : Ptr) → has p (x ∷ front ++ n ∷ back) ≡ (p == n || has p (x ∷ front ++ back))
  has-left p = ground (arith, has-append p front (n ∷ back), has-append p front back)

  Dequeued-other : Dequeued h q n (x ∷ front ++ back) (cleared (counted_down (bypassed h n) q) n)
  unfolding update
  Dequeued-other = (
    record {
      queue_ne = k.queue_ne;
      current = ground (arith, k.current);
      number = ground (
        arith,
        k.number,
        k.small,
        length-append {0} front (n ∷ back),
        length-append {0} front back,
      );
      small =
          ground (arith, k.small, length-append {0} front (n ∷ back), length-append {0} front back);
      null_out = ground (arith, k.null_out, has-left null);
      distinct = apart_from_n.1;
      ring = Ring-rotate _ _ back (x ∷ front) (
          Ring-unlink_any h n (back ++ x ∷ front)
            (Distinct-rotate (x ∷ front) (n ∷ back) k.distinct) from_n);
      members = λ p i. ground (arith, k.members p, has-left p, apart_from_n.0);
      owned = λ p pn e. ground (arith, k.owned p pn, k.queue_ne, has-left p);
    },
    record {
      nodes = λ p o. ground (
        arith,
        ne_of_has {a = p} (x ∷ front ++ back) others.0,
        ne_of_has {a = p} (x ∷ front ++ back) others.1,
      );
      queues = λ p ne. ground arith;
      bases = λ p i. ground (arith, k.members p, has-left p, k.queue_ne);
    },
    ground arith,
  )

  -- A node of a well-formed queue that is not its current node takes itself out: the others stay in
  -- their order, with the same current node, and the node is in no queue. No other queue is
  -- written.
  pub dequeue_itself-other :
      Returns (λ _ h'. Dequeued h q n (x ∷ front ++ back) h') (node_dequeue_itself n h)
  dequeue_itself-other =
      let hn : n ≢ null = ground (arith, k.null_out, has-left null) in
      let out = apart_from_n.0 in
      let null_out : null ∉ x ∷ front ++ back = ground (arith, k.null_out, has-left null) in
      rw
        (
          itself-other h hn k.queue_ne (k.members n (ground (arith, has-left n))) k.current
              (ground (arith, out)),
          extract_node-ok h k.queue_ne hn
              (λ e. ne_of_has (x ∷ front ++ back) others.0 null_out (sym e))
              (λ e. ne_of_has (x ∷ front ++ back) others.1 null_out (sym e))
              (ne_of_has (x ∷ front ++ back) others.0 out),
        )
        Dequeued-other

-- A command that forgets the result of another.
forget_result :
    {A : Type 0} (Q : A → Memory → Type 0) (P : Memory → Type 0) (r : Option (A × Memory))
    → Returns Q r
    → ((a : A) (h : Memory) → Q a h → P h)
    → Returns (λ _. P) (and_then r (λ _ h. some (tt, h)))
forget_result Q P none e f = e
forget_result Q P (some (a, h)) e f = f a h e

-- The current node leaves its queue as by `ccevents_queue_dequeue`.
pub dequeue_itself-current :
    {h : Memory} {q x : Ptr} (xs : List Ptr)
    → Holds h q (x ∷ xs)
    → Returns (λ _. Dequeued h q x xs) (node_dequeue_itself x h)
dequeue_itself-current {h} {q} {x} xs k =
    let hx : x ≢ null = ground (arith, k.null_out) in
    let base : base_of h x ≡ q = k.members x (ground arith) in
    rw (itself-current h hx k.queue_ne base k.current) (
      forget_result (λ p h'. (p ≡ x) × Dequeued h q x xs h') (Dequeued h q x xs) (dequeue q h)
        (dequeue-Holds xs k) (λ p h' e. e.1))
