-- ===== src/Queue/Frame.antt =====
-- What an operation of src/ccevents-queues.c on one queue leaves alone.
use ccevents.Base.{◌≡◌, ◌≢◌, ◌⊎◌, true, List, has, ◌∉◌, arith, Bool-cases, inl, inr}
use ccevents.Memory.{Ptr, null, Memory}
use ccevents.Queue.Ring.{Ring-frame}
use ccevents.Queue.Holds.{next_of, prev_of, base_of, Holds}

-- From `h` to `h'` only the queue at `q` and the nodes `xs` have changed, and these belong to the queue
-- or to none.
pub record Spares (h h' : Memory) (q : Ptr) (xs : List Ptr) : Type 0 where
  pub nodes : (p : Ptr) → p ∉ xs → h'.nodes p ≡ h.nodes p
  pub queues : (p : Ptr) → p ≢ q → h'.queues p ≡ h.queues p
  pub bases : (p : Ptr) → has p xs ≡ true → (base_of h' p ≡ q) ⊎ (base_of h' p ≡ null)

-- Nodes of one queue, or of none, are not nodes of another.
apart :
    {h : Memory} {q r : Ptr} (xs : List Ptr) {ys : List Ptr}
    → Holds h r ys
    → q ≢ r
    → ((p : Ptr) → has p xs ≡ true → (base_of h p ≡ q) ⊎ (base_of h p ≡ null))
    → (p : Ptr) → has p ys ≡ true
    → p ∉ xs
apart xs k ne old p i = elim (Bool-cases (has p xs)) [
  | inl j ↦ absurd (ground (arith, old p j, k.members p i, k.queue_ne))
  | inr j ↦ j
]

module _ {h h' : Memory} {q r : Ptr} {xs ys : List Ptr} where
  -- Another queue holds what it held.
  pub Holds-Spares :
      Spares h h' q xs
      → Holds h r ys
      → q ≢ r
      → ((p : Ptr) → has p xs ≡ true → (base_of h p ≡ q) ⊎ (base_of h p ≡ null))
      → Holds h' r ys
  Holds-Spares s k ne old =
      let same : (p : Ptr) → has p ys ≡ true → h'.nodes p ≡ h.nodes p =
        λ p i. s.nodes p (apart xs k ne old p i) in
      record {
        queue_ne = k.queue_ne;
        current = ground (arith, s.queues r, k.current);
        number = ground (arith, s.queues r, k.number);
        small = k.small;
        null_out = k.null_out;
        distinct = k.distinct;
        ring =
            Ring-frame (next_of h) (prev_of h) (next_of h') (prev_of h') ys
              (λ p i. (ground (arith, same p i), ground (arith, same p i))) k.distinct k.ring;
        members = λ p i. ground (arith, same p i, k.members p i);
        owned = λ p pn e. elim (Bool-cases (has p xs)) [
          | inl j ↦ absurd (ground (arith, s.bases p j, k.queue_ne))
          | inr j ↦ k.owned p pn (ground (arith, s.nodes p j))
        ];
      }
