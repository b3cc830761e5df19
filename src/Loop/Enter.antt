-- ===== src/Loop/Enter.antt =====
-- `ccevents_loop_enter` of src/ccevents-loops.c: its rounds, and what they keep, whatever the groups do.
use ccevents.Base.{
  ℕ, zero, suc, ◌<◌, ◌≡◌, refl, ◌≢◌, ◌⊎◌, inl, inr, Bool, true, false, not, ◌&&◌, Bool-cases, arith,
  List, [], ◌∷◌, has, ==_of_ne, ==_of_eq,
}
use ccevents.Memory.{Ptr, null, update}
use ccevents.Queue
use ccevents.Queue.{size_mod}
use ccevents.Queue.Holds.{Holds}
use ccevents.Queue.Inspect.{is_cons}
use ccevents.Group
use ccevents.Group.Enter.{Serves, queue_is_not_empty-Holds, current_node-Holds, enter-Returned}
use ccevents.World.{World, done, on_memory, Returned, ◌>>◌, Env}
use ccevents.World.Rules.{IsSafe, IsSafe-Returned, IsSafe-and_then, IsSafe-then}
use ccevents.Loop.{
  put_loop, set_request, queue_is_not_empty, no_request_to_leave, goes_on, enter_loop, enter,
}

-- Whether the loop goes on, given its groups.
abbrev pub wants_more : Ptr → List Ptr → World → Bool
wants_more loop gs w = not (w.loops loop).request_to_leave && is_cons gs

pub not_empty-Holds :
    {loop : Ptr} {gs : List Ptr} (w : World)
    → Holds w.memory loop gs
    → queue_is_not_empty loop w ≡ done (is_cons gs) w
unfolding queue_is_not_empty Group.queue_is_not_empty
not_empty-Holds w k = queue_is_not_empty-Holds w k

goes_on-wants_more :
    {loop : Ptr} {gs : List Ptr} (w : World)
    → Holds w.memory loop gs
    → goes_on loop w ≡ done (wants_more loop gs w) w
unfolding goes_on no_request_to_leave
goes_on-wants_more {loop} w k = elim (Bool-cases (w.loops loop).request_to_leave) [
  | inl e ↦ rw (==_of_ne k.queue_ne, e) refl
  | inr e ↦ rw (==_of_ne k.queue_ne, e) (not_empty-Holds w k)
]

module _ (env : Env) (fuel group_fuel : ℕ) {loop : Ptr} {gs : List Ptr} (w : World) where
  pub enter_loop-stops :
      Holds w.memory loop gs
      → wants_more loop gs w ≡ false
      → enter_loop env (suc fuel) group_fuel loop w ≡ done tt w
  unfolding enter_loop
  enter_loop-stops k e = rw (goes_on-wants_more w k, e) refl

  pub enter_loop-round :
      {g : Ptr}
      → Holds w.memory loop (g ∷ gs)
      → wants_more loop (g ∷ gs) w ≡ true
      → enter_loop env (suc fuel) group_fuel loop w
        ≡ (on_memory (Queue.advance_current loop)
              >> (Group.enter env group_fuel g >> enter_loop env fuel group_fuel loop))
            w
  unfolding enter_loop
  enter_loop-round {g} k e =
      rw (goes_on-wants_more w k, e, current_node-Holds w k, ==_of_ne (g_ne k)) refl
    where
      g_ne : Holds w.memory loop (g ∷ gs) → g ≢ null
      g_ne k = ground (arith, k.null_out)

-- What a loop needs of a property of the world: it says that the loop's queue is well-formed, gives
-- each of its groups what that needs, and is kept by what the loop itself writes.
pub record Runs (env : Env) (I : World → Type 0) (loop : Ptr) (top : ℕ) : Type 0 where
  pub queue :
      (w : World)
      → I w
      → (gs : List Ptr) × Holds w.memory loop gs
        × ((g : Ptr) → has g gs ≡ true → Serves env I g top)
  pub advance : (w : World) → I w → Returned (λ _. I) (on_memory (Queue.advance_current loop) w)
  pub request : (w : World) (b : Bool) → I w → I (put_loop loop (record { request_to_leave = b }) w)

module _ (env : Env) {I : World → Type 0} {loop : Ptr} {top : ℕ} (s : Runs env I loop top) where
  round-IsSafe :
      (fuel group_fuel : ℕ) (w : World)
      → top < size_mod
      → top < group_fuel
      → I w
      → ((w' : World) → I w' → IsSafe I (enter_loop env fuel group_fuel loop w'))
      → IsSafe I (enter_loop env (suc fuel) group_fuel loop w)
  round-IsSafe fuel group_fuel w t m k rest =
      let (gs, h, serves) = s.queue w k in go gs h serves (Bool-cases (wants_more loop gs w))
    where
      go :
          (gs : List Ptr)
          → Holds w.memory loop gs
          → ((g : Ptr) → has g gs ≡ true → Serves env I g top)
          → (wants_more loop gs w ≡ true) ⊎ (wants_more loop gs w ≡ false)
          → IsSafe I (enter_loop env (suc fuel) group_fuel loop w)
      go gs h serves (inr e) = rw (enter_loop-stops env fuel group_fuel w h e) k
      go [] h serves (inl e) = absurd (ground arith)
      go (g ∷ gs) h serves (inl e) = rw (enter_loop-round env fuel group_fuel w h e) (
          IsSafe-and_then (λ _. I) I _ _ (s.advance w k)
            λ a w1 k1.
              IsSafe-and_then _ I (Group.enter env group_fuel g w1) _
                (enter-Returned env (serves g (ground arith)) group_fuel w1 t m k1)
                λ b w2 k2. rest w2 k2.0)

  enter_loop-IsSafe :
      (fuel group_fuel : ℕ) (w : World)
      → top < size_mod
      → top < group_fuel
      → I w
      → IsSafe I (enter_loop env fuel group_fuel loop w)
  unfolding enter_loop
  enter_loop-IsSafe zero group_fuel w t m k = tt
  enter_loop-IsSafe (suc fuel) group_fuel w t m k =
      round-IsSafe fuel group_fuel w t m k λ w' k'. enter_loop-IsSafe fuel group_fuel w' t m k'

  loop_request-Returned :
      (b : Bool) (w : World)
      → I w
      → Returned (λ _ w'. I w' × ((w'.loops loop).request_to_leave ≡ b)) (set_request loop b w)
  unfolding set_request update
  loop_request-Returned b w k =
      rw (==_of_ne (s.queue w k).1.queue_ne) (s.request w b k, rw (==_of_eq {a = loop} refl) refl)

  -- Let a property of the world make the queue of a loop well-formed and be kept by the writes of
  -- the loop, and let it give each group in the queue what entering a group needs, with watermarks
  -- at most some number below 2 ^ 64 and below the fuel of a group. Then entering the loop never
  -- faults and lets no exceptional condition out, for any number of rounds; if it returns, the
  -- property holds and no request to leave is pending.
  pub loop-IsSafe :
      (fuel group_fuel : ℕ) (w : World)
      → top < size_mod
      → top < group_fuel
      → I w
      → IsSafe
          (λ w'. I w' × ((w'.loops loop).request_to_leave ≡ false))
          (enter env fuel group_fuel loop w)
  unfolding enter
  loop-IsSafe fuel group_fuel w t m k =
      IsSafe-and_then _ _ (set_request loop false w) _ (loop_request-Returned false w k) λ a w1 k1.
        IsSafe-then I _ (enter_loop env fuel group_fuel loop w1) _
          (enter_loop-IsSafe fuel group_fuel w1 t m k1.0)
          λ b w2 k2.
            IsSafe-Returned _ (set_request loop false w2) (loop_request-Returned false w2 k2)
