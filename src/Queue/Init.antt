-- ===== src/Queue/Init.antt =====
-- `ccevents_queue_init` of src/ccevents-queues.c.
use ccevents.Base.{◌≡◌, refl, ◌≢◌, [], some, arith}
use ccevents.Memory.{Ptr, null, Memory, update, write_current, write_number}
use ccevents.Memory.Access.{set_current-ok, set_number-ok}
use ccevents.Queue.{init}
use ccevents.Queue.Holds.{base_of, Holds}
use ccevents.Queue.Frame.{Spares}

-- The queue at `q` with no nodes.
abbrev pub emptied : Memory → Ptr → Memory
emptied h q = write_number (write_current h q null) q 0

pub init-ok : (h : Memory) {q : Ptr} → q ≢ null → init q h ≡ some (tt, emptied h q)
unfolding init
init-ok h hq = rw (set_current-ok hq, set_number-ok hq)

-- No node says that it is in the queue at `q`.
abbrev pub Unused : Memory → Ptr → Type 0
Unused h q = (p : Ptr) → p ≢ null → base_of h p ≢ q

pub init-Holds :
    (h : Memory) {q : Ptr}
    → q ≢ null
    → Unused h q
    → Holds (emptied h q) q [] × Spares h (emptied h q) q []
unfolding update
init-Holds h {q} hq u = (
  record {
    queue_ne = hq;
    current = ground arith;
    number = ground arith;
    small = omega arith;
    null_out = refl;
    distinct = tt;
    ring = tt;
    members = λ p i. ground arith;
    owned = λ p pn e. absurd (u p pn e);
  },
  record { nodes = λ p o. refl; queues = λ p ne. ground arith; bases = λ p i. ground arith },
)
