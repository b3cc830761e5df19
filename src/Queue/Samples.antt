-- ===== src/Queue/Samples.antt =====
-- A queue of three nodes, as src/ccevents-queues.c lays it out.
use ccevents.Base.{refl, [], ◌∷◌, arith}
use ccevents.Memory.{Ptr, Node, Memory, update}
use ccevents.Queue.Holds.{Holds}

abbrev pub node : Ptr → Ptr → Ptr → Node
node b n p = record { base = b; next = n; prev = p }

-- The queue at 1 holds the nodes 10, 20 and 30; the one at 2 is empty; the node 40 is free.
abbrev pub three : Memory
three = record {
  nodes =
      update (update (update (λ _. node 0 0 0) 10 (node 1 20 30)) 20 (node 1 30 10)) 30
        (node 1 10 20);
  queues =
      update (λ _. record { current = 0; number_of_nodes = 0 }) 1
        (record { current = 10; number_of_nodes = 3 });
}

pub three-Holds : Holds three 1 (10 ∷ 20 ∷ 30 ∷ [])
unfolding update
three-Holds = record {
  queue_ne = omega arith;
  current = refl;
  number = refl;
  small = omega arith;
  null_out = refl;
  distinct = (refl, (refl, (refl, tt)));
  ring = ground arith;
  members = λ p i. ground arith;
  owned = λ p pn e. ground arith;
}

pub two-Holds : Holds three 2 []
unfolding update
two-Holds = record {
  queue_ne = omega arith;
  current = refl;
  number = refl;
  small = omega arith;
  null_out = refl;
  distinct = tt;
  ring = tt;
  members = λ p i. ground arith;
  owned = λ p pn e. ground arith;
}
