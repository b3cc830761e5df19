-- ===== src/Loop/Rounds.antt =====
-- The order in which `ccevents_loop_enter` of src/ccevents-loops.c enters the groups of a loop, and when
-- it leaves.
use ccevents.Base.{
  subst, ℕ, zero, suc, ◌+◌, ◌≡◌, refl, ◌∙◌, true, false, List, [], ◌∷◌, ◌++◌, has, ap, sym, suc_+,
  zero_+,
}
use ccevents.Memory.{Ptr, Memory}
use ccevents.Queue
use ccevents.Queue.{size_mod}
use ccevents.Queue.Holds.{Holds}
use ccevents.Queue.Frame.{Spares}
use ccevents.Queue.Advance.{rotated, advance_current-Holds}
use ccevents.Queue.Inspect.{is_cons}
use ccevents.Group
use ccevents.Group.Rounds.{schedule, has-end, is_cons-end}
use ccevents.World.{
  World, done, out_of_fuel, Prog, and_then, on_memory, Returned, ◌>>◌, return, Env,
}
use ccevents.World.Rules.{
  and_then_assoc, and_then-cong, out_of_fuel-and_then, Returned-weaken, Returned-on_memory,
}
use ccevents.Loop.{enter_loop}
use ccevents.Loop.Enter.{enter_loop-stops, enter_loop-round}

-- If a loop that is not asked to leave is asked to while its current group is served, it ends in
-- the world that this group left, whose queue of groups is well-formed, and enters no other group.
pub loop-leaves :
    (env : Env) {loop g : Ptr} {gs hs : List Ptr} (fuel group_fuel : ℕ) (w w' : World)
    → Holds w.memory loop (g ∷ gs)
    → (w.loops loop).request_to_leave ≡ false
    → (on_memory (Queue.advance_current loop) >> Group.enter env group_fuel g) w ≡ done tt w'
    → Holds w'.memory loop hs
    → (w'.loops loop).request_to_leave ≡ true
    → enter_loop env (suc (suc fuel)) group_fuel loop w ≡ done tt w'
loop-leaves env {loop} {g} fuel group_fuel w w' k r e k' f =
    enter_loop-round env (suc fuel) group_fuel w k (rw r refl)
    ∙ sym (and_then_assoc (on_memory (Queue.advance_current loop) w) _ _)
    ∙ ap (λ r. and_then r (λ _. enter_loop env (suc fuel) group_fuel loop)) e
    ∙ enter_loop-stops env fuel group_fuel w' k' (rw f refl)

-- The groups entered one after the other, the loop's queue advanced before each.
abbrev pub enter_each : Env → (group_fuel : ℕ) → Ptr → List Ptr → Prog (Unit {0})
enter_each env group_fuel loop [] = return tt
enter_each env group_fuel loop (g ∷ gs) =
    on_memory (Queue.advance_current loop)
    >> (Group.enter env group_fuel g >> enter_each env group_fuel loop gs)

-- The loop holds `gs` and is not asked to leave.
pub record IsCalm (loop : Ptr) (gs : List Ptr) (w : World) : Type 0 where
  pub order : Holds w.memory loop gs
  pub free : (w.loops loop).request_to_leave ≡ false

-- A calm loop whose groups, as long as `E` holds, leave it calm, with the same groups in the same order,
-- and keep `E`, which does not depend on which group is the current one.
pub record Undisturbed (env : Env) (E : World → Type 0) (loop : Ptr) (group_fuel : ℕ) : Type 0 where
  pub moved :
      (gs : List Ptr) (w : World) (h : Memory)
      → Holds w.memory loop gs
      → Holds h loop (rotated gs)
      → Spares w.memory h loop []
      → E w
      → E (record w { memory = h })
  pub serve :
      (g : Ptr) (gs : List Ptr) (w : World)
      → has g gs ≡ true
      → IsCalm loop gs w
      → E w
      → Returned (λ _ w'. IsCalm loop gs w' × E w') (Group.enter env group_fuel g w)

module _ (env : Env) {E : World → Type 0} {loop : Ptr} {group_fuel : ℕ}
    (u : Undisturbed env E loop group_fuel) where
  advance-IsCalm :
      (gs : List Ptr) (w : World)
      → IsCalm loop gs w
      → E w
      → Returned
          (λ _ w'. IsCalm loop (rotated gs) w' × E w')
          (on_memory (Queue.advance_current loop) w)
  advance-IsCalm gs w c e =
      Returned-weaken _ _ (on_memory (Queue.advance_current loop) w)
        (Returned-on_memory _ (Queue.advance_current loop) w (advance_current-Holds gs c.order))
        λ a w' (h, k, q).
          subst (λ w'. IsCalm loop (rotated gs) w' × E w') (sym q)
            (record { order = k.0; free = c.free }, u.moved gs w h c.order k.0 k.1 e)

  round :
      (fuel : ℕ) (g : Ptr) (gs : List Ptr) (w : World)
      → IsCalm loop (g ∷ gs) w
      → enter_loop env (suc fuel) group_fuel loop w
        ≡ (on_memory (Queue.advance_current loop)
              >> (Group.enter env group_fuel g >> enter_loop env fuel group_fuel loop))
            w
  round fuel g gs w k = enter_loop-round env fuel group_fuel w k.order (rw k.free refl)

  -- Let the groups of a loop leave its queue and its request to leave alone, let there be a group,
  -- and let the loop not be asked to leave. Then `n` of its rounds enter the next `n` groups of its
  -- queue in turn, from the current one on.
  pub loop-schedule :
      (n fuel : ℕ) (gs : List Ptr) (w : World)
      → is_cons gs ≡ true
      → IsCalm loop gs w × E w
      → enter_loop env (n + fuel) group_fuel loop w
        ≡ (enter_each env group_fuel loop (schedule n gs) >> enter_loop env fuel group_fuel loop) w
  loop-schedule n fuel [] w c k = cc
  loop-schedule zero fuel (g ∷ gs) w c k =
      ap (λ m. enter_loop env m group_fuel loop w) (zero_+ fuel)
  loop-schedule (suc n) fuel (g ∷ gs) w c k =
      ap (λ m. enter_loop env m group_fuel loop w) (suc_+ n fuel)
      ∙ round (n + fuel) g gs w k.0
      ∙ and_then-cong (λ _ w'. IsCalm loop (gs ++ g ∷ []) w' × E w') _ _
          (λ _ w1.
            and_then
              ((Group.enter env group_fuel g
                  >> enter_each env group_fuel loop (schedule n (gs ++ g ∷ [])))
                w1)
              (λ _. enter_loop env fuel group_fuel loop))
          (advance-IsCalm (g ∷ gs) w k.0 k.1)
          (λ a w1 k1.
            and_then-cong (λ _ w'. IsCalm loop (gs ++ g ∷ []) w' × E w')
              (Group.enter env group_fuel g w1) _ _
              (u.serve g (gs ++ g ∷ []) w1 (has-end g gs) k1.0 k1.1)
              (λ b w2 k2. loop-schedule n fuel (gs ++ g ∷ []) w2 (is_cons-end g gs) k2)
            ∙ sym (and_then_assoc (Group.enter env group_fuel g w1) _ _))
      ∙ sym (and_then_assoc (on_memory (Queue.advance_current loop) w) _ _)

  -- Under the same conditions no number of rounds is enough for the loop to return.
  pub loop-endless :
      (fuel : ℕ) (gs : List Ptr) (w : World)
      → is_cons gs ≡ true
      → IsCalm loop gs w × E w
      → enter_loop env fuel group_fuel loop w ≡ out_of_fuel
  unfolding enter_loop
  loop-endless zero gs w c k = refl
  loop-endless (suc fuel) [] w c k = cc
  loop-endless (suc fuel) (g ∷ gs) w c k =
      round fuel g gs w k.0
      ∙ out_of_fuel-and_then (λ _ w'. IsCalm loop (gs ++ g ∷ []) w' × E w') _ _
          (advance-IsCalm (g ∷ gs) w k.0 k.1)
          λ a w1 k1.
            out_of_fuel-and_then (λ _ w'. IsCalm loop (gs ++ g ∷ []) w' × E w')
              (Group.enter env group_fuel g w1) _
              (u.serve g (gs ++ g ∷ []) w1 (has-end g gs) k1.0 k1.1)
              λ b w2 k2. loop-endless fuel (gs ++ g ∷ []) w2 (is_cons-end g gs) k2
