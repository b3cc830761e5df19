-- ===== src/Queue/Ring.antt =====
-- The shape of a queue of src/ccevents-queues.c: a ring of distinct addresses, for any two functions
-- that give the next and the previous address. Insertion, removal and rotation of a ring.
use ccevents.Base.{
  ◌≡◌, ◌≢◌, subst, true, List, [], ◌∷◌, ◌++◌, last, last-append, has, has-last, Distinct, ==_of_ne,
  ==_of_eq, eq_of_==, arith,
}
use mathlib.Core.List.{append_assoc, append-nil}
use ccevents.Memory.{Ptr, update}

module _ (next prev : Ptr → Ptr) where
  -- `a` is followed by `b`, and `b` preceded by `a`.
  abbrev pub Link : Ptr → Ptr → Type 0
  Link a b = (next a ≡ b) × (prev b ≡ a)

  -- From `a` the links lead through `xs`.
  abbrev pub Chain : Ptr → List Ptr → Type 0
  Chain a [] = Unit {0}
  Chain a (x ∷ xs) = Link a x × Chain x xs

  -- A path whose last address is linked to its first.
  abbrev pub Ring : List Ptr → Type 0
  Ring [] = Unit {0}
  Ring (x ∷ xs) = Chain x xs × Link (last x xs) x

  Chain-snoc :
      (a b : Ptr) (xs : List Ptr) → Chain a xs → Link (last a xs) b → Chain a (xs ++ b ∷ [])
  Chain-snoc a b [] p l = (l, tt)
  Chain-snoc a b (x ∷ xs) p l = (p.0, Chain-snoc x b xs p.1 l)

  Ring-rotate_one : (x : Ptr) (xs : List Ptr) → Ring (x ∷ xs) → Ring (xs ++ x ∷ [])
  Ring-rotate_one x [] r = r
  Ring-rotate_one x (y ∷ ys) r = (Chain-snoc y x ys r.0.1 r.1, rw (last-append y x ys []) r.0.0)

  -- A ring may be entered anywhere.
  pub Ring-rotate : (xs ys : List Ptr) → Ring (xs ++ ys) → Ring (ys ++ xs)
  Ring-rotate [] ys r = rw append-nil r
  Ring-rotate (x ∷ xs) ys r = subst Ring (append_assoc ys (x ∷ []) xs) (
      Ring-rotate xs (ys ++ x ∷ [])
        (subst Ring (append_assoc xs ys (x ∷ [])) (Ring-rotate_one x (xs ++ ys) r)))

  pub prev-Ring : (x : Ptr) (xs : List Ptr) → Ring (x ∷ xs) → prev x ≡ last x xs
  prev-Ring x xs r = r.1.1

module _ (next prev next' prev' : Ptr → Ptr) where
  -- A path does not depend on what follows its last address and what precedes its first.
  Chain-frame :
      (a : Ptr) (xs : List Ptr)
      → Distinct (a ∷ xs)
      → ((p : Ptr) → has p (a ∷ xs) ≡ true → p ≢ last a xs → next' p ≡ next p)
      → ((p : Ptr) → has p xs ≡ true → prev' p ≡ prev p)
      → Chain next prev a xs
      → Chain next' prev' a xs
  Chain-frame a [] d f g p = tt
  Chain-frame a (x ∷ xs) d f g p = (
    (
      ground (arith, f a, has-last x xs, ==_of_eq {a = a} {b = last x xs}, eq_of_== (last x xs) a),
      ground (arith, g x),
    ),
    Chain-frame x xs d.1 (λ q h ne. f q (ground arith) ne) (λ q h. g q (ground arith)) p.1,
  )

  pub Ring-frame :
      (xs : List Ptr)
      → ((p : Ptr) → has p xs ≡ true → (next' p ≡ next p) × (prev' p ≡ prev p))
      → Distinct xs
      → Ring next prev xs
      → Ring next' prev' xs
  Ring-frame [] same d r = tt
  Ring-frame (x ∷ xs) same d r = (
    Chain-frame x xs d (λ p h ne. (same p h).0) (λ p h. (same p (ground arith)).1) r.0,
    (ground (arith, same (last x xs) (has-last x xs)), ground (arith, same x)),
  )

module _ (next prev : Ptr → Ptr) (new x : Ptr) (xs : List Ptr) where
  -- The links of `new` between the last address and the first.
  abbrev pub inserted_next : Ptr → Ptr
  inserted_next = update (update next new x) (last x xs) new

  abbrev pub inserted_prev : Ptr → Ptr
  inserted_prev = update (update prev x new) new (last x xs)

  pub Ring-insert :
      Distinct (new ∷ x ∷ xs)
      → Ring next prev (x ∷ xs)
      → Ring inserted_next inserted_prev (new ∷ x ∷ xs)
  unfolding update
  Ring-insert d r = (
    (
      (ground (arith, has-last x xs), ground arith),
      Chain-frame next prev inserted_next inserted_prev x xs d.1
          (λ p h ne. ground (arith, ==_of_ne ne)) (λ p h. ground arith) r.0,
    ),
    (ground arith, ground arith),
  )

module _ (next prev : Ptr → Ptr) (a : Ptr) where
  -- The links that pass by `a`.
  abbrev pub removed_next : Ptr → Ptr
  removed_next = update next (prev a) (next a)

  abbrev pub removed_prev : Ptr → Ptr
  removed_prev = update prev (next a) (prev a)

  pub Ring-remove :
      (y : Ptr) (ys : List Ptr)
      → Distinct (a ∷ y ∷ ys)
      → Ring next prev (a ∷ y ∷ ys)
      → Ring removed_next removed_prev (y ∷ ys)
  unfolding update
  Ring-remove y ys d r = (
    Chain-frame next prev removed_next removed_prev y ys d.1 (λ p h ne. ground (arith, ==_of_ne ne))
        (λ p h. ground arith) r.0.1,
    (ground arith, ground arith),
  )
