-- ===== src/Queue/Advance.antt =====
-- `ccevents_queue_advance_current` of src/ccevents-queues.c.
use ccevents.Base.{
  ◌≡◌, refl, ◌≢◌, List, [], ◌∷◌, ◌++◌, length-append, has-append, Distinct-rotate, arith, some,
  ==_of_ne,
}
use ccevents.Memory.{Ptr, null, Memory, Returns, update, write_current}
use ccevents.Memory.Access.{load-ok, load_queue-ok, set_current-ok}
use ccevents.Queue.{is_not_empty, current_node, advance_current}
use ccevents.Queue.Ring.{Ring-rotate}
use ccevents.Queue.Frame.{Spares}
use ccevents.Queue.Holds.{first, next_of, prev_of, Holds}

-- The first node goes to the end.
abbrev pub rotated : List Ptr → List Ptr
rotated [] = []
rotated (x ∷ xs) = xs ++ x ∷ []

advance-nonempty :
    (h : Memory) {q x : Ptr}
    → q ≢ null
    → (h.queues q).current ≡ x
    → x ≢ null
    → advance_current q h ≡ some (tt, write_current h q (next_of h x))
unfolding advance_current is_not_empty current_node
advance-nonempty h hq e hx =
    rw (load_queue-ok hq, e, ==_of_ne hx, load_queue-ok hq, e, load-ok hx, set_current-ok hq)

advance-empty :
    (h : Memory) {q : Ptr}
    → q ≢ null
    → (h.queues q).current ≡ null
    → advance_current q h ≡ some (tt, h)
unfolding advance_current is_not_empty current_node
advance-empty h hq e = rw (load_queue-ok hq, e)

next-Holds :
    {h : Memory} {q : Ptr} (x : Ptr) (xs : List Ptr)
    → Holds h q (x ∷ xs)
    → next_of h x ≡ first (xs ++ x ∷ [])
next-Holds x [] k = k.ring.1.0
next-Holds x (y ∷ ys) k = k.ring.0.0.0

-- Advancing a well-formed queue makes the next node the current one and moves the current one to
-- the end. No node and no other queue is written.
pub advance_current-Holds :
    {h : Memory} {q : Ptr} (xs : List Ptr)
    → Holds h q xs
    → Returns (λ _ h'. Holds h' q (rotated xs) × Spares h h' q []) (advance_current q h)
unfolding update
advance_current-Holds {h} [] k =
    rw (advance-empty h k.queue_ne k.current)
      (k, record { nodes = λ p i. refl; queues = λ p ne. refl; bases = λ p i. ground arith })
advance_current-Holds {h} (x ∷ xs) k =
    rw (advance-nonempty h k.queue_ne k.current (ground (arith, k.null_out))) (
      record {
        queue_ne = k.queue_ne;
        current = ground (arith, next-Holds x xs k);
        number = ground (arith, k.number, length-append {0} xs (x ∷ []));
        small = ground (arith, k.small, length-append {0} xs (x ∷ []));
        null_out = ground (arith, k.null_out, has-append null xs (x ∷ []));
        distinct = Distinct-rotate (x ∷ []) xs k.distinct;
        ring = Ring-rotate (next_of h) (prev_of h) (x ∷ []) xs k.ring;
        members = λ p i. ground (arith, k.members p, has-append p xs (x ∷ []));
        owned = λ p pn e. ground (arith, k.owned p pn e, has-append p xs (x ∷ []));
      },
      record { nodes = λ p i. refl; queues = λ p ne. ground arith; bases = λ p i. ground arith },
    )
