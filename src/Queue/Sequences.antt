-- ===== src/Queue/Sequences.antt =====
-- Sequences of operations of src/ccevents-queues.c on one queue, against operations on a list.
use ccevents.Base.{◌+◌, ◌<◌, ◌≡◌, ◌==◌, if◌then◌else◌, true, List, [], ◌∷◌, length, has, ◌∉◌}
use ccevents.Memory.{Ptr, null, Memory, Cmd, pure, ◌>>=◌, ◌>>◌}
use ccevents.Queue.{size_mod, enqueue, dequeue, advance_current, node_dequeue_itself}
use ccevents.Queue.Holds.{first, base_of, Holds}
use ccevents.Queue.Advance.{rotated}

-- One operation: a node is enqueued, the current node is dequeued, the queue is advanced, or a node
-- takes itself out.
pub data Step : Type 0 where
  put_first : Ptr → Step
  take turn : Step
  leave : Ptr → Step

-- What the program calls, and what a call gives back: a node or NULL.
unfoldable pub perform : Ptr → Step → Cmd Ptr
perform q (put_first n) = enqueue q n >> pure null
perform q take = dequeue q
perform q turn = advance_current q >> pure null
perform q (leave n) = node_dequeue_itself n >> pure null

unfoldable pub run : Ptr → List Step → Cmd (List Ptr)
run q [] = pure []
run q (s ∷ ss) = do a ← perform q s; answers ← run q ss; pure (a ∷ answers)

-- The list without the first occurrence of an address.
abbrev pub without : Ptr → List Ptr → List Ptr
without n [] = []
without n (x ∷ xs) = if n == x then xs else x ∷ without n xs

-- The list after an operation, and its answer.
abbrev pub next : Step → List Ptr → List Ptr
next (put_first n) xs = n ∷ xs
next take [] = []
next take (x ∷ xs) = xs
next turn xs = rotated xs
next (leave n) xs = without n xs

abbrev pub answer : Step → List Ptr → Ptr
answer take xs = first xs
answer _ xs = null

abbrev pub answers : List Step → List Ptr → List Ptr
answers [] xs = []
answers (s ∷ ss) xs = answer s xs ∷ answers ss (next s xs)

abbrev pub after : List Step → List Ptr → List Ptr
after [] xs = xs
after (s ∷ ss) xs = after ss (next s xs)

-- The operations use nodes of the pool, and enqueue only what is not in the queue and has room.
abbrev pub IsAllowed : List Ptr → Step → List Ptr → Type 0
IsAllowed pool (put_first n) xs = (has n pool ≡ true) × (n ∉ xs) × (length xs + 1 < size_mod)
IsAllowed pool take xs = Unit
IsAllowed pool turn xs = Unit
IsAllowed pool (leave n) xs = has n pool ≡ true

abbrev pub AreAllowed : List Ptr → List Step → List Ptr → Type 0
AreAllowed pool [] xs = Unit
AreAllowed pool (s ∷ ss) xs = IsAllowed pool s xs × AreAllowed pool ss (next s xs)

-- The queue holds the list, and the nodes of the pool that are not in it are in no queue.
pub record Represents (pool : List Ptr) (h : Memory) (q : Ptr) (xs : List Ptr) : Type 0 where
  pub holds : Holds h q xs
  pub null_apart : null ∉ pool
  pub free : (p : Ptr) → has p pool ≡ true → p ∉ xs → base_of h p ≡ null
