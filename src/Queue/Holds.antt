-- ===== src/Queue/Holds.antt =====
-- The invariant of a queue of src/ccevents-queues.c: the nodes that it holds, current node first.
use ccevents.Base.{◌<◌, ◌≡◌, ◌≢◌, true, List, [], ◌∷◌, length, has, ◌∉◌, Distinct}
use ccevents.Memory.{Ptr, null, Memory}
use ccevents.Queue.{size_mod}
use ccevents.Queue.Ring.{Ring}

abbrev pub first : List Ptr → Ptr
first [] = null
first (x ∷ xs) = x

abbrev pub next_of : Memory → Ptr → Ptr
next_of h p = (h.nodes p).next

abbrev pub prev_of : Memory → Ptr → Ptr
prev_of h p = (h.nodes p).prev

abbrev pub base_of : Memory → Ptr → Ptr
base_of h p = (h.nodes p).base

-- The queue at `q` holds the nodes `xs`, and no other node has it for its base.
pub record Holds (h : Memory) (q : Ptr) (xs : List Ptr) : Type 0 where
  pub queue_ne : q ≢ null
  pub current : (h.queues q).current ≡ first xs
  pub number : (h.queues q).number_of_nodes ≡ length xs
  pub small : length xs < size_mod
  pub null_out : null ∉ xs
  pub distinct : Distinct xs
  pub ring : Ring (next_of h) (prev_of h) xs
  pub members : (p : Ptr) → has p xs ≡ true → base_of h p ≡ q
  pub owned : (p : Ptr) → p ≢ null → base_of h p ≡ q → has p xs ≡ true
