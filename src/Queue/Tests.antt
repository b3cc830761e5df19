-- ===== src/Queue/Tests.antt =====
-- Runs of src/ccevents-queues.c on a queue of three nodes, and the theorems at it.
use ccevents.Base.{◌≡◌, refl, List, [], ◌∷◌, arith}
use ccevents.Memory.{
  Ptr, null, update, Returns, ◌>>=◌, ◌>>◌, Cmd, pure, load, store, load_queue, store_queue,
  set_next, set_prev, set_base, set_current, set_number,
}
use ccevents.Queue
use ccevents.Queue.{
  enqueue, dequeue, advance_current, node_dequeue_itself, current_node, number_of_items,
  is_not_empty, contains_item,
}
use ccevents.Queue.Samples.{three, three-Holds}
use ccevents.Queue.Sequences.{Step, put_first, take, turn, leave, run, Represents}
use ccevents.Queue.Refinement.{run-Represents}
use ccevents.Queue.Holds.{Holds, base_of}
use ccevents.Queue.Frame.{Spares}
use ccevents.Queue.Enqueue.{enqueue-Holds}
use ccevents.Queue.Advance.{advance_current-Holds}
use ccevents.Queue.Dequeue.{Dequeued, dequeue-Holds}
use ccevents.Queue.Itself.{dequeue_itself-other}

forty_is_free : base_of three 40 ≡ null
unfolding update
forty_is_free = refl

-- The new node is the current one, and is passed over by advancing.
drained : Cmd (List Ptr)
unfolding enqueue dequeue advance_current
drained = do
  enqueue 1 40
  advance_current 1
  a ← dequeue 1
  b ← dequeue 1
  c ← dequeue 1
  d ← dequeue 1
  e ← dequeue 1
  pure (a ∷ b ∷ c ∷ d ∷ e ∷ [])

order : Returns (λ out h. out ≡ 10 ∷ 20 ∷ 30 ∷ 40 ∷ 0 ∷ []) (drained three)
unfolding drained update current_node is_not_empty number_of_items Queue.node_init Queue.bypass
    Queue.dequeue_node Queue.link_nodes_prev_next load store load_queue store_queue set_next
    set_prev set_base set_current set_number
order = refl

enqueue-Holds_example :
    Returns
      (λ _ h. Holds h 1 (40 ∷ 10 ∷ 20 ∷ 30 ∷ []) × Spares three h 1 (40 ∷ 10 ∷ 20 ∷ 30 ∷ []))
      (enqueue 1 40 three)
enqueue-Holds_example =
    enqueue-Holds (omega arith) forty_is_free (10 ∷ 20 ∷ 30 ∷ []) three-Holds (omega arith)

advance_current-Holds_example :
    Returns (λ _ h. Holds h 1 (20 ∷ 30 ∷ 10 ∷ []) × Spares three h 1 []) (advance_current 1 three)
advance_current-Holds_example = advance_current-Holds (10 ∷ 20 ∷ 30 ∷ []) three-Holds

dequeue-Holds_example :
    Returns (λ p h. (p ≡ 10) × Dequeued three 1 10 (20 ∷ 30 ∷ []) h) (dequeue 1 three)
dequeue-Holds_example = dequeue-Holds (20 ∷ 30 ∷ []) three-Holds

dequeue_itself-other_example :
    Returns (λ _ h. Dequeued three 1 20 (10 ∷ 30 ∷ []) h) (node_dequeue_itself 20 three)
dequeue_itself-other_example = dequeue_itself-other 20 [] (30 ∷ []) three-Holds

-- A node is enqueued, another taken out, the queue advanced twice and emptied of two nodes.
abbrev errand : List Step
errand = put_first 40 ∷ leave 20 ∷ turn ∷ turn ∷ take ∷ leave 20 ∷ take ∷ []

three-Represents : Represents (10 ∷ 20 ∷ 30 ∷ 40 ∷ []) three 1 (10 ∷ 20 ∷ 30 ∷ [])
unfolding update
three-Represents = record { holds = three-Holds; null_apart = refl; free = λ p i o. ground arith }

run-Represents_example :
    Returns
      (λ out h.
        (out ≡ 0 ∷ 0 ∷ 0 ∷ 0 ∷ 30 ∷ 0 ∷ 40 ∷ [])
        × Represents (10 ∷ 20 ∷ 30 ∷ 40 ∷ []) h 1 (10 ∷ []))
      (run 1 errand three)
run-Represents_example =
    run-Represents (10 ∷ 20 ∷ 30 ∷ 40 ∷ []) 1 three errand (10 ∷ 20 ∷ 30 ∷ []) three-Represents
      ((refl, refl, omega arith), (refl, (tt, (tt, (tt, (refl, (tt, tt)))))))
