-- ===== src/Loop.antt =====
-- Loops over groups of event sources (src/ccevents-loops.c, and the inline functions of
-- src/ccevents.h).
pub mod Enter
pub mod Rounds
pub mod Final
mod Tests
use ccevents.Base.{ℕ, zero, suc, ◌==◌, if◌then◌else◌, Bool, true, false, not}
use ccevents.Memory.{Ptr, null, update}
use ccevents.Queue
use ccevents.Group
use ccevents.World.{
  World, Loop, done, out_of_fuel, Prog, return, ◌>>=◌, ◌>>◌, on_memory, modify, at, Env,
}

abbrev pub put_loop : Ptr → Loop → World → World
put_loop loop l w = record w { loops = update w.loops loop l }

unfoldable pub init : Ptr → Prog (Unit {0})
init loop = do
  on_memory (Queue.init loop)
  modify (put_loop loop (record { request_to_leave = false }))

-- `loop->request_to_leave = b`
unfoldable pub set_request : Ptr → Bool → Prog (Unit {0})
set_request loop b = at loop (modify (put_loop loop (record { request_to_leave = b })))

unfoldable pub post_request_to_leave : Ptr → Prog (Unit {0})
post_request_to_leave loop = set_request loop true

unfoldable pub enqueue_group : (loop grp : Ptr) → Prog (Unit {0})
enqueue_group loop grp = on_memory (Queue.enqueue loop grp)

unfoldable pub dequeue_group : Ptr → Prog Ptr
dequeue_group loop = on_memory (Queue.dequeue loop)

unfoldable pub queue_is_not_empty : Ptr → Prog Bool
queue_is_not_empty loop = on_memory (Queue.is_not_empty loop)

unfoldable pub number_of_groups : Ptr → Prog ℕ
number_of_groups loop = on_memory (Queue.number_of_items loop)

unfoldable pub contains_group : (loop grp : Ptr) → Prog Bool
contains_group loop grp = on_memory (Queue.contains_item loop grp)

unfoldable pub no_request_to_leave : Ptr → Prog Bool
no_request_to_leave loop = at loop λ w. done (not (w.loops loop).request_to_leave) w

abbrev pub current_group : Ptr → Prog Ptr
current_group loop = on_memory (Queue.current_node loop)

abbrev pub advance_to_next_group : Ptr → Prog (Unit {0})
advance_to_next_group loop = on_memory (Queue.advance_current loop)

-- The condition of the loop of `ccevents_loop_enter`.
unfoldable pub goes_on : Ptr → Prog Bool
goes_on loop = do
  free_to_go ← no_request_to_leave loop
  if free_to_go then queue_is_not_empty loop else return false

module _ (env : Env) where
  -- The loop of `ccevents_loop_enter`, for at most `fuel` rounds; each round gives its group
  -- `group_fuel`.
  unfoldable pub enter_loop : (fuel group_fuel : ℕ) → Ptr → Prog (Unit {0})
  enter_loop zero group_fuel loop = λ w. out_of_fuel
  enter_loop (suc fuel) group_fuel loop = do
    go ← goes_on loop
    if go
        then (do
          grp ← current_group loop
          if grp == null then enter_loop fuel group_fuel loop else (do
            advance_to_next_group loop
            Group.enter env group_fuel grp
            enter_loop fuel group_fuel loop))
        else return tt

  unfoldable pub enter : (fuel group_fuel : ℕ) → Ptr → Prog (Unit {0})
  enter fuel group_fuel loop = do
    set_request loop false
    enter_loop fuel group_fuel loop
    set_request loop false

  unfoldable pub final : (fuel group_fuel : ℕ) → Ptr → Prog (Unit {0})
  final zero group_fuel loop = λ w. out_of_fuel
  final (suc fuel) group_fuel loop = do
    some_group ← queue_is_not_empty loop
    if some_group
        then (do
          grp ← dequeue_group loop
          Group.final env group_fuel grp
          final fuel group_fuel loop)
        else return tt
