-- ===== src/Queue/Inspect.antt =====
-- What the inspectors of src/ccevents.h say of a queue, and an enqueued node taken out again.
use ccevents.Base.{
  ◌≡◌, refl, ◌≢◌, Bool, true, false, not, List, [], ◌∷◌, length, has, ◌==◌, arith, some, Bool-cases,
  inl, inr, ==_of_eq, ==_of_ne,
}
use ccevents.Memory.{Ptr, null, Memory}
use ccevents.Memory.Access.{load-ok, load_queue-ok}
use ccevents.Queue.{is_not_empty, number_of_items, contains_item}
use ccevents.Queue.Holds.{base_of, Holds}

abbrev pub is_cons : List Ptr → Bool
is_cons [] = false
is_cons (x ∷ xs) = true

first_is_null :
    {h : Memory} {q : Ptr} (xs : List Ptr)
    → Holds h q xs
    → not ((h.queues q).current == null) ≡ is_cons xs
first_is_null [] k = ground (arith, k.current)
first_is_null (x ∷ xs) k = ground (arith, k.current, k.null_out)

-- On a well-formed queue the inspectors give the number of nodes, whether there is one, and whether
-- a node that is not NULL is in the queue, and they write nothing.
pub inspect-Holds :
    {h : Memory} {q : Ptr} (xs : List Ptr) (n : Ptr)
    → Holds h q xs
    → n ≢ null
    → (number_of_items q h ≡ some (length xs, h))
      × (is_not_empty q h ≡ some (is_cons xs, h))
      × (contains_item q n h ≡ some (has n xs, h))
unfolding number_of_items is_not_empty contains_item
inspect-Holds {h} {q} xs n k hn = (
  rw (load_queue-ok k.queue_ne, k.number),
  rw (load_queue-ok k.queue_ne, first_is_null xs k),
  rw (load-ok hn) (elim (Bool-cases (has n xs)) [
    | inl e ↦ rw (e, k.members n e, ==_of_eq {a = q} refl)
    | inr e ↦ rw (e, ==_of_ne {a = base_of h n} {b = q} (λ b. ground (arith, k.owned n hn b)))
  ]),
)
