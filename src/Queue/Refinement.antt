-- ===== src/Queue/Refinement.antt =====
-- Sequences of operations of src/ccevents-queues.c on one queue refine the same operations on a list.
use ccevents.Base.{
  ◌≡◌, refl, ◌≢◌, ◌∙◌, ◌==◌, true, List, [], ◌∷◌, ◌++◌, has, has-append, ◌∉◌, Bool-cases, inl, inr,
  eq_of_==, ne_of_==, arith, subst, sym, ap,
}
use mathlib.Core.Path.{ap₂}
use ccevents.Memory.{Ptr, null, Memory, pure, ◌>>◌, Returns}
use ccevents.Memory.Access.{Returns-and_then, Returns-weaken}
use ccevents.Queue.{enqueue, dequeue, advance_current, node_dequeue_itself}
use ccevents.Queue.Holds.{base_of, Holds}
use ccevents.Queue.Enqueue.{enqueue-Holds}
use ccevents.Queue.Advance.{rotated, advance_current-Holds}
use ccevents.Queue.Dequeue.{Dequeued, dequeue-Holds, dequeue-empty}
use ccevents.Queue.Itself.{dequeue_itself-free, dequeue_itself-current, dequeue_itself-other}
use ccevents.Queue.Sequences.{
  Step, put_first, take, turn, leave, perform, run, without, next, answer, answers, after,
  IsAllowed, AreAllowed, Represents,
}

ne_null : {p : Ptr} (pool : List Ptr) → null ∉ pool → has p pool ≡ true → p ≢ null
ne_null pool o i e = absurd (ground (arith, ap (λ p. has p pool) e))

without_absent : (n : Ptr) (xs : List Ptr) → n ∉ xs → without n xs ≡ xs
without_absent n [] o = refl
without_absent n (x ∷ xs) o = ground (arith, without_absent n xs)

-- Where an address stands in a list.
pub split_at :
    (n : Ptr) (xs : List Ptr)
    → has n xs ≡ true
    → (front back : List Ptr) × (xs ≡ front ++ n ∷ back) × (without n xs ≡ front ++ back)
split_at n [] i = cc
split_at n (x ∷ xs) i = elim (Bool-cases (n == x)) [
  | inl e ↦ ([], xs, ap (λ y. y ∷ xs) (sym (eq_of_== n x e)), rw e refl)
  | inr e ↦
      let (front, back, p, w) = split_at n xs (ground arith) in
      (x ∷ front, back, ap (λ ys. x ∷ ys) p, rw e (ap (λ ys. x ∷ ys) w))
]

not_rotated : (p : Ptr) (xs : List Ptr) → p ∉ rotated xs → p ∉ xs
not_rotated p [] m = m
not_rotated p (x ∷ xs) m = ground (arith, has-append p xs (x ∷ []))

not_between :
    (p n : Ptr) (front back : List Ptr) → p ≢ n → p ∉ front ++ back → p ∉ front ++ n ∷ back
not_between p n front back ne o =
    ground (arith, ne, has-append p front back, has-append p front (n ∷ back))

-- The property of the result of one operation.
abbrev Performed : List Ptr → Ptr → Step → List Ptr → Ptr → Memory → Type 0
Performed pool q s xs a h' = (a ≡ answer s xs) × Represents pool h' q (next s xs)

leave-Dequeued :
    (h : Memory) (q n : Ptr) (xs front back : List Ptr)
    → xs ≡ front ++ n ∷ back
    → Holds h q xs
    → Returns (λ _. Dequeued h q n (front ++ back)) (node_dequeue_itself n h)
leave-Dequeued h q n xs [] back e k = dequeue_itself-current back (subst (Holds h q) e k)
leave-Dequeued h q n xs (x ∷ front) back e k =
    dequeue_itself-other n front back (subst (Holds h q) e k)

module _ (pool : List Ptr) (q : Ptr) where
  put_first-Performed :
      (h : Memory) (n : Ptr) (xs : List Ptr)
      → Represents pool h q xs
      → IsAllowed pool (put_first n) xs
      → Returns (Performed pool q (put_first n) xs) ((enqueue q n >> pure null) h)
  put_first-Performed h n xs r (i, o, l) =
      Returns-and_then _ _ (enqueue q n h) _
        (enqueue-Holds (ne_null pool r.null_apart i) (r.free n i o) xs r.holds l)
        λ a h' (k, s). (
          refl,
          record {
            holds = k;
            null_apart = r.null_apart;
            free = λ p j m. ap (λ node. node.base) (s.nodes p m) ∙ r.free p j (ground arith);
          },
        )

  -- A node was taken out, and the others are left.
  left_out :
      {h h' : Memory} {n : Ptr} {xs ys : List Ptr}
      → Represents pool h q xs
      → Dequeued h q n ys h'
      → ((p : Ptr) → p ≢ n → p ∉ ys → p ∉ xs)
      → Represents pool h' q ys
  left_out {h} {h'} {n} {xs} {ys} r (k, s, f) out = record {
    holds = k;
    null_apart = r.null_apart;
    free = λ p j m. elim (Bool-cases (p == n)) [
      | inl e ↦ subst (λ m. base_of h' m ≡ null) (sym (eq_of_== p n e)) (ap (λ node. node.base) f)
      | inr e ↦
          ap (λ node. node.base) (s.nodes p (ground arith)) ∙ r.free p j (out p (ne_of_== p n e) m)
    ];
  }

  take-Performed :
      (h : Memory) (xs : List Ptr)
      → Represents pool h q xs
      → Returns (Performed pool q take xs) (dequeue q h)
  take-Performed h [] r = rw (dequeue-empty r.holds) (refl, r)
  take-Performed h (x ∷ xs) r =
      Returns-weaken _ _ (dequeue q h) (dequeue-Holds xs r.holds)
        λ a h' (e, d). (e, left_out r d λ p ne o. ground (arith, ne))

  turn-Performed :
      (h : Memory) (xs : List Ptr)
      → Represents pool h q xs
      → Returns (Performed pool q turn xs) ((advance_current q >> pure null) h)
  turn-Performed h xs r =
      Returns-and_then _ _ (advance_current q h) _ (advance_current-Holds xs r.holds) λ a h' (k, s).
        (
          refl,
          record {
            holds = k;
            null_apart = r.null_apart;
            free =
                λ p j m. ap (λ node. node.base) (s.nodes p refl) ∙ r.free p j (not_rotated p xs m);
          },
        )

  leave-Performed :
      (h : Memory) (n : Ptr) (xs : List Ptr)
      → Represents pool h q xs
      → has n pool ≡ true
      → Returns (Performed pool q (leave n) xs) ((node_dequeue_itself n >> pure null) h)
  leave-Performed h n xs r i = elim (Bool-cases (has n xs)) [
    | inl j ↦
        let (front, back, e, w) = split_at n xs j in
        Returns-and_then _ _ (node_dequeue_itself n h) _
          (leave-Dequeued h q n xs front back e r.holds)
          λ a h' d. (
            refl,
            subst (Represents pool h' q) (sym w)
                (left_out r d λ p ne o. ap (has p) e ∙ not_between p n front back ne o),
          )
    | inr j ↦
        rw
          (
            dequeue_itself-free h (ne_null pool r.null_apart i) (r.free n i j),
            without_absent n xs j,
          )
          (refl, r)
  ]

  perform-Performed :
      (h : Memory) (s : Step) (xs : List Ptr)
      → Represents pool h q xs
      → IsAllowed pool s xs
      → Returns (Performed pool q s xs) (perform q s h)
  unfolding perform
  perform-Performed h (put_first n) xs r i = put_first-Performed h n xs r i
  perform-Performed h take xs r i = take-Performed h xs r
  perform-Performed h turn xs r i = turn-Performed h xs r
  perform-Performed h (leave n) xs r i = leave-Performed h n xs r i

  -- A sequence of operations on a queue, with nodes of a pool of which those that are not in the
  -- queue are in none, each enqueued only while it is not in the queue and there is room for it,
  -- gives the answers of the same operations on the list that the queue represents. It faults
  -- nowhere, and leaves the queue representing the list that they leave.
  pub run-Represents :
      (h : Memory) (ss : List Step) (xs : List Ptr)
      → Represents pool h q xs
      → AreAllowed pool ss xs
      → Returns (λ out h'. (out ≡ answers ss xs) × Represents pool h' q (after ss xs)) (run q ss h)
  unfolding run
  run-Represents h [] xs r i = (refl, r)
  run-Represents h (s ∷ ss) xs r i =
      Returns-and_then _ _ (perform q s h) _ (perform-Performed h s xs r i.0) λ a h1 (e, r1).
        Returns-and_then _ _ (run q ss h1) _ (run-Represents h1 ss (next s xs) r1 i.1)
          λ out h2 (es, r2). (ap₂ (λ a out. a ∷ out) e es, r2)
