-- ===== src/Demo/Allocation.antt =====
-- What `allocate_all_filedes` of demos/processes-communicating-through-pipes.c leaves open.
use ccevents.Base.{◌≡◌, refl, [], ◌∷◌}
use ccevents.World.{World, Prog, Result, done, raised, fault, out_of_fuel, and_then, return, ◌>>◌}
use ccevents.Demo.System.{System, Pipedes, error, RunsHandlers, scope, either_way}
use ccevents.Demo.Processes.{AllFiledes, allocate_all_filedes, allocation_failed}

-- The descriptors of both pipes.
abbrev pub filedes_of : (forwards backwards : Pipedes) → AllFiledes
filedes_of forwards backwards = record {
  parent_write_child_read = backwards.writable;
  child_write_parent_read = forwards.writable;
  parent_read_child_write = forwards.readable;
  child_read_parent_write = backwards.readable;
}

-- A call with its result, and what follows it, as equations between programs.
pub either_way-cong :
    {A B : Type 0} (r : Result A) (handler handler' : Prog B) (f g : A → Prog B)
    → ((w : World) → handler w ≡ handler' w)
    → ((a : A) (w : World) → f a w ≡ g a w)
    → either_way r handler f ≡ either_way r handler' g
either_way-cong (done a w) handler handler' f g k l = l a w
either_way-cong (raised w) handler handler' f g k l = k w
either_way-cong fault handler handler' f g k l = refl
either_way-cong out_of_fuel handler handler' f g k l = refl

module _ (sys : System) (runs : RunsHandlers sys) where
  close_first :
      (forwards : Pipedes) (w : World)
      → allocation_failed sys (error (sys.pipedes_handler forwards) ∷ []) w
        ≡ (sys.pipedes_handler forwards >> raised) w
  unfolding allocation_failed
  close_first forwards w = rw runs.error_on_error (go (sys.pipedes_handler forwards w))
    where
      exits : Unit {0} → Prog AllFiledes
      exits _ = raised

      go :
          (r : Result (Unit {0}))
          → and_then (and_then r (λ _. sys.run_error_handlers [])) exits ≡ and_then r exits
      go (done a v) = rw (runs.nothing.on_error v) refl
      go (raised v) = refl
      go fault = refl
      go out_of_fuel = refl

  -- Let handlers run as ccexceptions says. If the first pipe cannot be made, the allocation exits
  -- to its caller and runs no handler; if only the second cannot, it runs the handler of the first
  -- pipe, and exits; else it returns the ends of both pipes, and runs no handler.
  pub allocate_all_filedes_lem :
      (w : World)
      → allocate_all_filedes sys w
        ≡ scope sys.sys_pipe raised
            (λ forwards.
              scope sys.sys_pipe
                (sys.pipedes_handler forwards >> raised)
                λ backwards. return (filedes_of forwards backwards))
            w
  unfolding allocate_all_filedes allocation_failed
  allocate_all_filedes_lem w =
      either_way-cong (sys.sys_pipe w) _ _ _ _ (λ v. rw (runs.nothing.on_error v) refl)
        λ forwards v. either_way-cong (sys.sys_pipe v) _ _ _ _ (close_first forwards) λ backwards u.
          rw (runs.error_on_success, runs.error_on_success, runs.nothing.on_success u) refl
