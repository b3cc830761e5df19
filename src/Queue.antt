-- ===== src/Queue.antt =====
-- The queue functions of src/ccevents-queues.c: doubly linked circular lists of nodes.
pub mod Ring
pub mod Holds
pub mod Init
pub mod Enqueue
pub mod Frame
pub mod Advance
pub mod Unlink
pub mod Dequeue
pub mod Itself
pub mod Inspect
pub mod Samples
pub mod Sequences
pub mod Refinement
mod Tests
use ccevents.Base.{ℕ, ◌+◌, ◌-◌, ◌%◌, ◌^◌, ◌==◌, if◌then◌else◌, Bool, not}
use ccevents.Memory.{
  Ptr, null, Cmd, pure, ◌>>=◌, ◌>>◌, load, load_queue, set_next, set_prev, set_base, set_current,
  set_number,
}

-- `size_t` arithmetic wraps.
abbrev pub size_mod : ℕ
size_mod = 2 ^ 64

unfoldable pub link_nodes_prev_next : (prev next : Ptr) → Cmd (Unit {0})
link_nodes_prev_next prev next = set_next prev next >> set_prev next prev

unfoldable pub init : Ptr → Cmd (Unit {0})
init q = set_current q null >> set_number q 0

unfoldable pub current_node : Ptr → Cmd Ptr
current_node q = do s ← load_queue q; pure s.current

unfoldable pub is_not_empty : Ptr → Cmd Bool
is_not_empty q = do s ← load_queue q; pure (not (s.current == null))

unfoldable pub number_of_items : Ptr → Cmd ℕ
number_of_items q = do s ← load_queue q; pure s.number_of_nodes

unfoldable pub contains_item : (q n : Ptr) → Cmd Bool
contains_item q n = do s ← load n; pure (s.base == q)

unfoldable pub advance_current : Ptr → Cmd (Unit {0})
advance_current q = do
  some_node ← is_not_empty q
  if some_node then (do p ← current_node q; n ← load p; set_current q n.next) else pure tt

unfoldable pub enqueue : (q new_current : Ptr) → Cmd (Unit {0})
enqueue q new_current = do
  some_node ← is_not_empty q
  (if some_node
      then (do
        old_current ← current_node q
        old ← load old_current
        link_nodes_prev_next new_current old_current
        link_nodes_prev_next old.prev new_current)
      else link_nodes_prev_next new_current new_current)
  set_base new_current q
  set_current q new_current
  n ← number_of_items q
  set_number q ((n + 1) % size_mod)

unfoldable pub node_init : Ptr → Cmd (Unit {0})
node_init n = do set_base n null; set_next n null; set_prev n null

-- `old_current->next->prev = old_current->prev; old_current->prev->next = old_current->next;`
unfoldable pub bypass : Ptr → Cmd (Unit {0})
bypass n = do s ← load n; set_prev s.next s.prev; s' ← load n; set_next s'.prev s'.next

-- The part of `ccevents_queue_dequeue` that runs on a queue with a current node.
unfoldable pub dequeue_node : (q old_current : Ptr) → Cmd Ptr
dequeue_node q old_current = do
  n ← number_of_items q
  set_number q ((n + size_mod - 1) % size_mod)
  left ← number_of_items q
  (if left == 0
      then set_current q null
      else (do s ← load old_current; set_current q s.next; bypass old_current))
  node_init old_current
  pure old_current

unfoldable pub dequeue : Ptr → Cmd Ptr
dequeue q = do
  old_current ← current_node q
  if old_current == null then pure null else dequeue_node q old_current

unfoldable pub node_is_enqueued : Ptr → Cmd Bool
node_is_enqueued n = do s ← load n; pure (not (s.base == null))

-- The branch of `ccevents_queue_node_dequeue_itself` for a node that is not the current one.
unfoldable pub extract_node : (q n : Ptr) → Cmd (Unit {0})
extract_node q n = do
  bypass n
  k ← number_of_items q
  set_number q ((k + size_mod - 1) % size_mod)
  node_init n

unfoldable pub node_dequeue_itself : Ptr → Cmd (Unit {0})
node_dequeue_itself n = do
  s ← load n
  if s.base == null then pure tt else do
    current ← current_node s.base
    if current == n then (do _ ← dequeue s.base; pure tt) else extract_node s.base n
