-- ===== src/Queue/Unlink.antt =====
-- How src/ccevents-queues.c takes a node out of its ring, the current one or another.
use ccevents.Base.{
  ◌≡◌, refl, ◌≢◌, true, List, [], ◌∷◌, has, has-last, Distinct, arith, some, ==_of_ne,
}
use ccevents.Memory.{Ptr, null, Node, Memory, update, write_next, write_prev, write_base}
use ccevents.Memory.Access.{load-ok, set_next-ok, set_prev-ok, set_base-ok}
use ccevents.Queue.{node_init, bypass}
use ccevents.Queue.Ring.{Ring, Ring-remove, Ring-frame, removed_next, removed_prev}
use ccevents.Queue.Holds.{next_of, prev_of}

-- The neighbours of `n` linked to one another.
abbrev pub bypassed : Memory → Ptr → Memory
bypassed h n = write_next (write_prev h (next_of h n) (prev_of h n)) (prev_of h n) (next_of h n)

-- `n` in no queue.
abbrev pub cleared : Memory → Ptr → Memory
cleared h n = write_prev (write_next (write_base h n null) n null) n null

abbrev pub free_node : Node
free_node = record { base = null; next = null; prev = null }

pub bypass-ok :
    (h : Memory) {n : Ptr}
    → n ≢ null
    → next_of h n ≢ null
    → prev_of h n ≢ null
    → n ≢ next_of h n
    → bypass n h ≡ some (tt, bypassed h n)
unfolding bypass update
bypass-ok h {n} hn hx hp ne =
    rw (load-ok hn, set_prev-ok hx, load-ok hn, ==_of_ne ne, set_next-ok hp)

pub node_init-ok : (h : Memory) {n : Ptr} → n ≢ null → node_init n h ≡ some (tt, cleared h n)
unfolding node_init
node_init-ok h {n} hn = rw (set_base-ok hn, set_next-ok hn (write_base h n null), set_prev-ok hn)

-- What is left of the ring.
pub Ring-unlink :
    (h : Memory) (n y : Ptr) (ys : List Ptr)
    → Distinct (n ∷ y ∷ ys)
    → Ring (next_of h) (prev_of h) (n ∷ y ∷ ys)
    → let h' = cleared (bypassed h n) n in Ring (next_of h') (prev_of h') (y ∷ ys)
unfolding update
Ring-unlink h n y ys d r =
    Ring-frame (removed_next (next_of h) (prev_of h) n) (removed_prev (next_of h) (prev_of h) n) _ _
      (y ∷ ys) (λ p i. (ground arith, ground arith)) d.1
      (Ring-remove (next_of h) (prev_of h) n y ys d r)

-- So too if no other node is left.
pub Ring-unlink_any :
    (h : Memory) (n : Ptr) (zs : List Ptr)
    → Distinct (n ∷ zs)
    → Ring (next_of h) (prev_of h) (n ∷ zs)
    → let h' = cleared (bypassed h n) n in Ring (next_of h') (prev_of h') zs
Ring-unlink_any h n [] d r = tt
Ring-unlink_any h n (y ∷ ys) d r = Ring-unlink h n y ys d r

-- The neighbours of a node that is not alone are other nodes of the ring.
pub neighbours :
    (h : Memory) (n : Ptr) (zs : List Ptr)
    → zs ≢ []
    → Ring (next_of h) (prev_of h) (n ∷ zs)
    → (has (next_of h n) zs ≡ true) × (has (prev_of h n) zs ≡ true)
neighbours h n [] ne r = absurd (ne refl)
neighbours h n (y ∷ ys) ne r = (ground arith, ground (arith, has-last y ys))
