-- ===== src/Memory.antt =====
-- The memory that src/ccevents-queues.c works on: queue structs and node structs at addresses, and
-- commands over it that fault at a read or a write through NULL.
pub mod Access
use ccevents.Base.{ℕ, ◌==◌, if◌then◌else◌, Option, none, some}

abbrev pub Ptr : Type 0
Ptr = ℕ

abbrev pub null : Ptr
null = 0

-- `ccevents_queue_node_t`
pub record Node : Type 0 where
  pub base : Ptr
  pub next : Ptr
  pub prev : Ptr

-- `ccevents_queue_t`
pub record Queue : Type 0 where
  pub current : Ptr
  pub number_of_nodes : ℕ

pub record Memory : Type 0 where
  pub nodes : Ptr → Node
  pub queues : Ptr → Queue

-- `a`, but `v` at `p`
unfoldable pub update {ℓ} : {A : Type ℓ} → (Ptr → A) → Ptr → A → Ptr → A
update f p v q = if q == p then v else f q

-- `none` is a fault.
abbrev pub Cmd : Type 0 → Type 0
Cmd A = Memory → Option (A × Memory)

abbrev pub pure : {A : Type 0} → A → Cmd A
pure a h = some (a, h)

abbrev pub and_then : {A B : Type 0} → Option (A × Memory) → (A → Cmd B) → Option (B × Memory)
and_then none f = none
and_then (some (a, h)) f = f a h

infixl 5 ◌>>=◌ ◌>>◌
abbrev pub ◌>>=◌ : {A B : Type 0} → Cmd A → (A → Cmd B) → Cmd B
m >>= f = λ h. and_then (m h) f

abbrev pub ◌>>◌ : {B : Type 0} → Cmd (Unit {0}) → Cmd B → Cmd B
m >> k = m >>= λ _. k

unfoldable pub load : Ptr → Cmd Node
load p h = if p == null then none else some (h.nodes p, h)

unfoldable pub store : Ptr → Node → Cmd (Unit {0})
store p n h = if p == null then none else some (tt, record h { nodes = update h.nodes p n })

unfoldable pub load_queue : Ptr → Cmd Queue
load_queue q h = if q == null then none else some (h.queues q, h)

unfoldable pub store_queue : Ptr → Queue → Cmd (Unit {0})
store_queue q v h = if q == null then none else some (tt, record h { queues = update h.queues q v })

-- The memory after a write to a field.
abbrev pub write_next : Memory → Ptr → Ptr → Memory
write_next h p v = record h { nodes = update h.nodes p (record (h.nodes p) { next = v }) }

abbrev pub write_prev : Memory → Ptr → Ptr → Memory
write_prev h p v = record h { nodes = update h.nodes p (record (h.nodes p) { prev = v }) }

abbrev pub write_base : Memory → Ptr → Ptr → Memory
write_base h p v = record h { nodes = update h.nodes p (record (h.nodes p) { base = v }) }

abbrev pub write_current : Memory → Ptr → Ptr → Memory
write_current h q v = record h { queues = update h.queues q (record (h.queues q) { current = v }) }

abbrev pub write_number : Memory → Ptr → ℕ → Memory
write_number h q v = record h {
  queues = update h.queues q (record (h.queues q) { number_of_nodes = v });
}

-- `p->next = v`, `p->prev = v`, `p->base = v`
unfoldable pub set_next : Ptr → Ptr → Cmd (Unit {0})
set_next p v = do n ← load p; store p (record n { next = v })

unfoldable pub set_prev : Ptr → Ptr → Cmd (Unit {0})
set_prev p v = do n ← load p; store p (record n { prev = v })

unfoldable pub set_base : Ptr → Ptr → Cmd (Unit {0})
set_base p v = do n ← load p; store p (record n { base = v })

-- `q->current = v`, `q->number_of_nodes = v`
unfoldable pub set_current : Ptr → Ptr → Cmd (Unit {0})
set_current q v = do s ← load_queue q; store_queue q (record s { current = v })

unfoldable pub set_number : Ptr → ℕ → Cmd (Unit {0})
set_number q v = do s ← load_queue q; store_queue q (record s { number_of_nodes = v })

-- The command returns, with no fault, and its result and the memory that it leaves have the property.
abbrev pub Returns : {A : Type 0} → (A → Memory → Type 0) → Option (A × Memory) → Type 0
Returns P none = ⊥
Returns P (some (a, h)) = P a h
