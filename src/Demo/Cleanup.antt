-- ===== src/Demo/Cleanup.antt =====
-- What the processes of demos/processes-communicating-through-pipes.c do at their end: they delete a
-- condition, finalise their loop and close their descriptors.
use ccevents.Base.{
  ◌≡◌, sym, subst, ◌+◌, ◌==◌, ℕ, suc, true, List, [], ◌∷◌, arith, inl, inr, has, Bool-cases,
}
use ccevents.Base.Int.{ℤ}
use ccevents.Memory.{Ptr, null, Memory}
use ccevents.Queue.Holds.{Holds}
use ccevents.World.{World, Prog, Returned, Env, ◌>>◌, modify}
use ccevents.World.Rules.{Returned-and_then}
use ccevents.Group.Final.{Finalises}
use ccevents.Loop
use ccevents.Loop.Final.{loop-emptied}
use ccevents.Demo.System.{System, RunsHandlers, CceHandler, cleanup}
use ccevents.Demo.Processes.{delete_condition}

-- What handles descriptors and conditions returns, and leaves the nodes and the queues alone.
pub record SparesMemory (sys : System) : Type 0 where
  pub closing : (fd : ℤ) (w : World) → (sys.close fd w).memory ≡ w.memory
  pub deletion : (c : Ptr) (w : World) → (sys.condition_delete c w).memory ≡ w.memory
  pub handler :
      (fd : ℤ) (w : World) → Returned (λ _ w'. w'.memory ≡ w.memory) (sys.filedes_handler fd w)

-- The loop at `s` and its group are empty.
abbrev pub BothEmpty : Ptr → Memory → Type 0
BothEmpty s h = Holds h s [] × Holds h (s + 1) []

module _ (sys : System) (runs : RunsHandlers sys) (spares : SparesMemory sys) where
  pub deleted :
      (c : Ptr) (w : World) (I : Memory → Type 0)
      → I w.memory
      → Returned (λ _ w'. I w'.memory) (delete_condition sys c w)
  unfolding delete_condition
  deleted c w I k = elim (Bool-cases (c == null)) [
    | inl e ↦ rw e k
    | inr e ↦ rw (e, spares.deletion c w) k
  ]

  handled :
      (fd : ℤ) (hs : List CceHandler) (w : World) (I : Memory → Type 0)
      → I w.memory
      → ((v : World) → I v.memory → Returned (λ _ w'. I w'.memory) (sys.run_cleanup_handlers hs v))
      → Returned
          (λ _ w'. I w'.memory)
          (sys.run_cleanup_handlers (cleanup (sys.filedes_handler fd) ∷ hs) w)
  handled fd hs w I k go = rw (runs.cleanup_on_success (sys.filedes_handler fd) hs w) (
      Returned-and_then _ _ (sys.filedes_handler fd w) _ (spares.handler fd w)
        λ _ v e. go v (subst I (sym e) k))

  -- The handlers of the descriptors.
  abbrev pub closing_both : (read_fd write_fd : ℤ) → List CceHandler
  closing_both read_fd write_fd =
      cleanup (sys.filedes_handler write_fd) ∷ cleanup (sys.filedes_handler read_fd) ∷ []

  pub handled_both :
      (read_fd write_fd : ℤ) (w : World) (I : Memory → Type 0)
      → I w.memory
      → Returned (λ _ w'. I w'.memory) (sys.run_cleanup_handlers (closing_both read_fd write_fd) w)
  handled_both read_fd write_fd w I k =
      handled write_fd (cleanup (sys.filedes_handler read_fd) ∷ []) w I k
        λ v k'. handled read_fd [] v I k' λ u k''. rw (runs.nothing.on_success u) k''

  -- The common part of `master_state_final` and `slave_state_final`.
  abbrev pub wind_down : Env → (fuel group_fuel : ℕ) → Ptr → Prog (Unit {0})
  wind_down env fuel group_fuel s =
      Loop.final env fuel group_fuel s
      >> (modify (λ w. sys.close (w.fd_sources (s + 2)).fd w)
          >> modify (λ w. sys.close (w.fd_sources (s + 3)).fd w))

  pub wind_down-BothEmpty :
      (s : Ptr) (env : Env) (f : Finalises env) (fuel group_fuel : ℕ) (w : World)
      → Holds w.memory s ((s + 1) ∷ [])
      → Holds w.memory (s + 1) []
      → Returned
          (λ _ w'. BothEmpty s w'.memory)
          (wind_down env (suc (suc fuel)) (suc group_fuel) s w)
  wind_down-BothEmpty s env f fuel group_fuel w k g =
      Returned-and_then _ _ (Loop.final env (suc (suc fuel)) (suc group_fuel) s w) _
        (loop-emptied env f (suc (suc fuel)) (suc group_fuel) ((s + 1) ∷ []) (λ _. []) w k
          (ground arith) (λ p i. only p i) (λ _ _. omega arith) (omega arith))
        λ _ v (l, m).
          let v1 = sys.close (v.fd_sources (s + 2)).fd v in
          rw
            (
              spares.closing (v1.fd_sources (s + 3)).fd v1,
              spares.closing (v.fd_sources (s + 2)).fd v,
            )
            (l, m (s + 1) (ground arith))
    where
      only : (p : Ptr) → has p ((s + 1) ∷ []) ≡ true → Holds w.memory p []
      only p i = let e : s + 1 ≡ p = ground arith in subst (λ x. Holds w.memory x []) e g
