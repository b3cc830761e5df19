-- ===== src/Demo/Pair.antt =====
-- A group with two event sources: how demos/processes-communicating-through-pipes.c takes both out of
-- it, with src/ccevents-sources-base.c.
use ccevents.Base.{
  ◌≡◌, sym, ap, ◌∙◌, subst, ◌≢◌, ◌⊎◌, inl, inr, true, List, [], ◌∷◌, has, arith, ==_of_ne,
}
use ccevents.Memory.{Ptr, null, Memory, Returns}
use ccevents.Queue.{node_dequeue_itself}
use ccevents.Queue.Holds.{Holds, base_of}
use ccevents.Queue.Frame.{Holds-Spares, Spares}
use ccevents.Queue.Dequeue.{Dequeued}
use ccevents.Queue.Itself.{dequeue_itself-current, dequeue_itself-other}
use ccevents.World.{World, Returned, Prog, on_memory, ◌>>◌}
use ccevents.World.Rules.{Returned-and_then, Returned-on_memory}
use ccevents.Source.{dequeue_itself}

-- The queue at `q` holds `a` and `b`, in one order or the other.
abbrev pub HoldsBoth : Memory → (q a b : Ptr) → Type 0
HoldsBoth h q a b = Holds h q (a ∷ b ∷ []) ⊎ Holds h q (b ∷ a ∷ [])

first_leaves :
    {h : Memory} {q a b : Ptr}
    → HoldsBoth h q a b
    → Returns (λ _ h'. Dequeued h q a (b ∷ []) h') (node_dequeue_itself a h)
first_leaves {b} (inl k) = dequeue_itself-current (b ∷ []) k
first_leaves {a} (inr k) = dequeue_itself-other a [] [] k

base_of_both :
    {h : Memory} {q a b : Ptr}
    → HoldsBoth h q a b
    → (p : Ptr) → has p (a ∷ b ∷ []) ≡ true
    → base_of h p ≡ q
base_of_both (inl k) p i = k.members p i
base_of_both (inr k) p i = k.members p (ground arith)

-- The queue at `q` is empty, no node but `a` and `b` and no other queue has changed, and these two are
-- in no queue.
pub record BothLeft (h : Memory) (q a b : Ptr) (h' : Memory) : Type 0 where
  pub empty : Holds h' q []
  pub spares : Spares h h' q (a ∷ b ∷ [])
  pub first_free : base_of h' a ≡ null
  pub second_free : base_of h' b ≡ null

BothLeft-Dequeued :
    {h h' h'' : Memory} {q a b : Ptr}
    → a ≢ b
    → Dequeued h q a (b ∷ []) h'
    → Dequeued h' q b [] h''
    → BothLeft h q a b h''
BothLeft-Dequeued {a = a} {b = b} ne (k, s, f) (k', s', f') = record {
  empty = k';
  spares = record {
    nodes = λ p o. ground (arith, s.nodes p, s'.nodes p);
    queues = λ p o. ground (arith, s.queues p, s'.queues p);
    bases = λ p i. ground (arith, s.bases p, s'.bases p, s'.nodes p, s.nodes p);
  };
  first_free = ground (arith, s'.nodes a, f, ==_of_ne ne);
  second_free = ground (arith, f');
}

-- The world with another memory.
abbrev pub with_memory : World → Memory → World
with_memory w h = record w { memory = h }

-- A program that takes two event sources out of their group and goes on.
pub dequeue-both :
    {A : Type 0} (Q : A → World → Type 0) (f : Prog A) (w : World) {q a b : Ptr}
    → a ≢ b
    → HoldsBoth w.memory q a b
    → ((h : Memory) → BothLeft w.memory q a b h → Returned Q (f (with_memory w h)))
    → Returned Q ((dequeue_itself a >> (dequeue_itself b >> f)) w)
unfolding dequeue_itself
dequeue-both Q f w {q} {a} {b} ne k go =
    Returned-and_then _ Q (on_memory (node_dequeue_itself a) w) _
      (Returned-on_memory _ (node_dequeue_itself a) w (first_leaves k))
      λ _ w' (h, d, e).
        let d' : Dequeued w.memory q a (b ∷ []) w'.memory =
          subst (λ v. Dequeued w.memory q a (b ∷ []) v.memory) (sym e) d in
        Returned-and_then _ Q (on_memory (node_dequeue_itself b) w') _
          (Returned-on_memory _ (node_dequeue_itself b) w' (dequeue_itself-current [] d'.0))
          λ _ w'' (h', d'', e').
            subst (λ v. Returned Q (f v)) (sym (e' ∙ ap (λ v. with_memory v h') e))
              (go h' (BothLeft-Dequeued ne d' d''))

-- Another queue, with one node that is not either of them, holds it still.
pub Holds-BothLeft :
    {h h' : Memory} {q a b r : Ptr} {ys : List Ptr}
    → HoldsBoth h q a b
    → BothLeft h q a b h'
    → Holds h r ys
    → q ≢ r
    → Holds h' r ys
Holds-BothLeft both left k ne = Holds-Spares left.spares k ne (λ p i. inl (base_of_both both p i))
