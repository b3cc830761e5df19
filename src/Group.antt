-- ===== src/Group.antt =====
-- Groups of event sources (src/ccevents-groups.c, and the inline functions of src/ccevents.h).
pub mod Enter
pub mod Final
pub mod Rounds
pub mod Samples
mod Tests
use ccevents.Base.{ℕ, zero, suc, ◌+◌, ◌%◌, ◌==◌, ltb, if◌then◌else◌, Bool, true, false, not}
use ccevents.Memory.{Ptr, null, update}
use ccevents.Queue
use ccevents.Queue.{size_mod}
use ccevents.Source
use ccevents.World.{
  World, Group, Result, done, raised, fault, out_of_fuel, Prog, return, ◌>>=◌, ◌>>◌, on_memory,
  modify, at, Env,
}

abbrev pub put_group : Ptr → Group → World → World
put_group grp g w = record w { groups = update w.groups grp g }

unfoldable pub init : Ptr → ℕ → Prog (Unit {0})
init grp watermark = do
  on_memory (Queue.node_init grp)
  on_memory (Queue.init grp)
  modify (
      put_group grp (record { request_to_leave = false; servicing_attempts_watermark = watermark }))

-- `grp->request_to_leave = b`
unfoldable pub set_request : Ptr → Bool → Prog (Unit {0})
set_request grp b =
    at grp (modify λ w. put_group grp (record (w.groups grp) { request_to_leave = b }) w)

unfoldable pub post_request_to_leave : Ptr → Prog (Unit {0})
post_request_to_leave grp = set_request grp true

unfoldable pub queue_is_not_empty : Ptr → Prog Bool
queue_is_not_empty grp = on_memory (Queue.is_not_empty grp)

unfoldable pub number_of_sources : Ptr → Prog ℕ
number_of_sources grp = on_memory (Queue.number_of_items grp)

unfoldable pub contains_source : (grp src : Ptr) → Prog Bool
contains_source grp src = on_memory (Queue.contains_item grp src)

unfoldable pub dequeue_itself : Ptr → Prog (Unit {0})
dequeue_itself grp = on_memory (Queue.node_dequeue_itself grp)

unfoldable pub enqueue_source : (grp src : Ptr) → Prog (Unit {0})
enqueue_source grp src = on_memory (Queue.enqueue grp src)

-- `ccevents_source_dequeue_itself` is applied to the current node, whether or not it is NULL.
unfoldable pub dequeue_source : Ptr → Prog Ptr
dequeue_source grp = do
  src ← on_memory (Queue.current_node grp)
  Source.dequeue_itself src
  return src

-- The loop whose queue the group's node is in; NULL if there is none.
unfoldable pub get_loop : Ptr → Prog Ptr
get_loop grp = at grp (λ w. done (w.memory.nodes grp).base w)

abbrev pub current_source : Ptr → Prog Ptr
current_source grp = on_memory (Queue.current_node grp)

abbrev pub advance_to_next_source : Ptr → Prog (Unit {0})
advance_to_next_source grp = on_memory (Queue.advance_current grp)

-- Whether the loop at `loop`, if there is one, lets its groups go on.
unfoldable pub loop_allows : Ptr → Prog Bool
loop_allows loop w =
    if loop == null then done true w else done (not (w.loops loop).request_to_leave) w

unfoldable pub no_request_to_leave : Ptr → Prog Bool
no_request_to_leave grp = at grp λ w.
    if (w.groups grp).request_to_leave
    then done false w
    else loop_allows (w.memory.nodes grp).base w

unfoldable pub watermark_not_reached : Ptr → ℕ → Prog Bool
watermark_not_reached grp count w = done (ltb count (w.groups grp).servicing_attempts_watermark) w

-- The condition of the loop of `ccevents_group_enter`.
unfoldable pub goes_on : Ptr → ℕ → Prog Bool
goes_on grp count = do
  free_to_go ← no_request_to_leave grp
  if free_to_go
      then (do
        some_source ← queue_is_not_empty grp
        if some_source then watermark_not_reached grp count else return false)
      else return false

module _ (env : Env) where
  -- The end of the scope of a location: a non-local exit has got no further.
  unfoldable pub caught : Result Bool → Result (Unit {0})
  caught (done b w) = done tt (env.run_cleanup_handlers w)
  caught (raised w) = done tt (env.run_error_handlers_final w)
  caught fault = fault
  caught out_of_fuel = out_of_fuel

  -- The event of one source, in the scope of a location of its own.
  unfoldable pub service : Ptr → Prog (Unit {0})
  service src w = caught (Source.do_one_event env src w)

  -- The loop of `ccevents_group_enter`, for at most `fuel` rounds.
  unfoldable pub enter_loop :
      (fuel : ℕ) (grp : Ptr) (servicing_attempts_count : ℕ) → Prog (Unit {0})
  enter_loop zero grp count = λ w. out_of_fuel
  enter_loop (suc fuel) grp count = do
    go ← goes_on grp count
    if go
        then (do
          next_source ← current_source grp
          if next_source == null then enter_loop fuel grp count else (do
            advance_to_next_source grp
            service next_source
            enter_loop fuel grp ((count + 1) % size_mod)))
        else return tt

  unfoldable pub enter : (fuel : ℕ) → Ptr → Prog (Unit {0})
  enter fuel grp = do set_request grp false; enter_loop fuel grp 0; set_request grp false

  unfoldable pub final : (fuel : ℕ) → Ptr → Prog (Unit {0})
  final zero grp = λ w. out_of_fuel
  final (suc fuel) grp = do
    some_source ← queue_is_not_empty grp
    if some_source
        then (do src ← dequeue_source grp; Source.final env src; final fuel grp)
        else return tt
