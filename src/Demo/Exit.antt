-- ===== src/Demo/Exit.antt =====
-- How the loop of a process of demos/processes-communicating-through-pipes.c ends, through the loops of
-- `ccevents_group_enter` and `ccevents_loop_enter`.
use ccevents.Base.{◌≡◌, refl, ◌+◌, ℕ, suc, true, false, [], ◌∷◌, Bool-cases, inl, inr}
use ccevents.Memory.{Ptr}
use ccevents.Queue.Holds.{Holds}
use ccevents.World.{World, done, Env}
use ccevents.Group
use ccevents.Group.Enter.{is_free}
use ccevents.Loop
use ccevents.Demo.Master.Leaving.{HasLeft}
use ccevents.Demo.Slave.Leaving as Slave

-- A group with no sources, in a loop that is asked to end.
module _ (env : Env) {s : Ptr} (w : World) (k : Holds w.memory s ((s + 1) ∷ []))
    (g : Holds w.memory (s + 1) []) (asked : (w.loops s).request_to_leave ≡ true) (count : ℕ) where
  none_left : Group.Enter.wants_more (s + 1) count [] w ≡ false
  none_left = elim (Bool-cases (is_free (s + 1) w)) [ inl e ↦ rw e refl | inr e ↦ rw e refl ]

  pub stops :
      (fuel group_fuel : ℕ)
      → (Group.enter_loop env (suc fuel) (s + 1) count w ≡ done tt w)
        × (Loop.enter_loop env (suc fuel) group_fuel s w ≡ done tt w)
  stops fuel group_fuel = (
    Group.Enter.enter_loop-stops env fuel count w g none_left,
    Loop.Enter.enter_loop-stops env fuel group_fuel w k (rw asked refl),
  )

-- Where the master and the slave are done and have left, whether at the end of the dialogue or
-- after an error, the loops of `ccevents_group_enter` for their groups and of `ccevents_loop_enter`
-- for their loops return at their next test, and change nothing.
pub HasLeft-stops :
    (env : Env) {m s condition condition' : Ptr} (w w' : World) (fuel group_fuel count : ℕ)
    → HasLeft m condition w
    → Slave.HasLeft s condition' w'
    → (Group.enter_loop env (suc fuel) (m + 1) count w ≡ done tt w)
      × (Loop.enter_loop env (suc fuel) group_fuel m w ≡ done tt w)
      × (Group.enter_loop env (suc fuel) (s + 1) count w' ≡ done tt w')
      × (Loop.enter_loop env (suc fuel) group_fuel s w' ≡ done tt w')
HasLeft-stops env w w' fuel group_fuel count k l =
    let a = stops env w k.loop_queue k.group_queue k.asked count fuel group_fuel in
    let b = stops env w' l.loop_queue l.group_queue l.asked count fuel group_fuel in
    (a.0, a.1, b.0, b.1)
