-- ===== src/Memory/Access.antt =====
-- Reads and writes through pointers that are not NULL.
use ccevents.Base.{ℕ, ◌≡◌, ◌≢◌, ==_of_ne, Option, none, some}
use ccevents.Memory.{
  Ptr, null, Memory, Cmd, Returns, and_then, load, store, load_queue, store_queue, set_next,
  set_prev, set_base, set_current, set_number, write_next, write_prev, write_base, write_current,
  write_number,
}

module _ {p : Ptr} (ne : p ≢ null) (h : Memory) where
  pub load-ok : load p h ≡ some (h.nodes p, h)
  unfolding load
  load-ok = rw (==_of_ne ne)

  pub load_queue-ok : load_queue p h ≡ some (h.queues p, h)
  unfolding load_queue
  load_queue-ok = rw (==_of_ne ne)

  pub set_next-ok : (v : Ptr) → set_next p v h ≡ some (tt, write_next h p v)
  unfolding set_next load store
  set_next-ok v = rw (==_of_ne ne, ==_of_ne ne)

  pub set_prev-ok : (v : Ptr) → set_prev p v h ≡ some (tt, write_prev h p v)
  unfolding set_prev load store
  set_prev-ok v = rw (==_of_ne ne, ==_of_ne ne)

  pub set_base-ok : (v : Ptr) → set_base p v h ≡ some (tt, write_base h p v)
  unfolding set_base load store
  set_base-ok v = rw (==_of_ne ne, ==_of_ne ne)

  pub set_current-ok : (v : Ptr) → set_current p v h ≡ some (tt, write_current h p v)
  unfolding set_current load_queue store_queue
  set_current-ok v = rw (==_of_ne ne, ==_of_ne ne)

  pub set_number-ok : (v : ℕ) → set_number p v h ≡ some (tt, write_number h p v)
  unfolding set_number load_queue store_queue
  set_number-ok v = rw (==_of_ne ne, ==_of_ne ne)

pub Returns-and_then :
    {A B : Type 0} (P : A → Memory → Type 0) (Q : B → Memory → Type 0) (r : Option (A × Memory))
    (f : A → Cmd B)
    → Returns P r
    → ((a : A) (h : Memory) → P a h → Returns Q (f a h))
    → Returns Q (and_then r f)
Returns-and_then P Q none f k g = k
Returns-and_then P Q (some (a, h)) f k g = g a h k

pub Returns-weaken :
    {A : Type 0} (P Q : A → Memory → Type 0) (r : Option (A × Memory))
    → Returns P r
    → ((a : A) (h : Memory) → P a h → Q a h)
    → Returns Q r
Returns-weaken P Q none k f = k
Returns-weaken P Q (some (a, h)) k f = f a h k
