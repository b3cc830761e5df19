-- ===== src/Demo/Dialogue/ChildTurns.antt =====
-- Each event of the child process of demos/processes-communicating-through-pipes.c leaves the dialogue in its
-- phase or takes it to the next.
use ccevents.Base.{◌≡◌, refl, ◌≢◌, ◌+◌, ℕ, suc, Bool, true, false, List, [], ◌∙◌, ap}
use ccevents.Memory.{Ptr, null, update}
use ccevents.Queue.Holds.{base_of}
use ccevents.World.{World, MasterStateCode, SlaveStateCode, Prog, Returned, Env}
use ccevents.Source.{do_one_event}
use ccevents.Demo.System.{System, Unregistered, greetings, farewell}
use ccevents.Demo.Dialogue.{Kernel, demo_env, Config}
use ccevents.Demo.Dialogue.Turn.{Turn}
use ccevents.Demo.Dialogue.Child
use ccevents.Demo.Dialogue.Phases.{
  Phase, opening, greetings_sent, greetings_read, answer_sent, answer_read, farewell_sent,
  farewell_read, reply_sent, closed, Setting, master_ends, slave_ends, Wired, Pipes, After,
  in_phase, from_Turn, parent_pipe-changed, child_pipe-changed,
}
use ccevents.Demo.Master
use ccevents.Demo.Slave

module _ (sys : System) (quiet : Unregistered sys) (env : Env) (z : Setting) (wired : Wired env z)
    (kernel : Kernel sys env z.pipe_of) (fuel : ℕ) where
  abbrev event : Ptr → Prog Bool
  event src = do_one_event (demo_env sys env (suc fuel)) src

  module _ (parent : World) (src : Ptr) (w : World) (ne : src ≢ null)
      (queued : base_of w.memory src ≡ z.s + 1) where
    -- The configuration while the child runs, in whose world the pipes are.
    abbrev with_child : World → Config
    with_child w' = record { parent = parent; child = w'; pipes = w'.pipes }

    -- An event of the child that writes one of the pipes and enters the next phase.
    child_moves :
        {n : ℕ} {code : MasterStateCode} {slave_code next : SlaveStateCode} {a b a' b' : List ℕ}
        (p : ℕ) (text : List ℕ)
        → Phase n code slave_code a b
        → Phase (suc n) code next a' b'
        → Master.Status.Status z.m (master_ends z) code parent
        → Slave.Status.Status z.s (slave_ends z) slave_code w
        → Pipes z a b w.pipes
        → ((f : ℕ → List ℕ) → f ≡ update w.pipes p text → Pipes z a' b' f)
        → Returned
            (Turn
              (λ w'.
                Slave.Status.Status z.s (slave_ends z) next w' × (w'.pipes ≡ update w.pipes p text))
              w)
            (event src w)
        → Returned (λ served w'. After z served n (with_child w')) (event src w)
    child_moves {n = n} p text now then_ k sl pipes change turn =
        from_Turn z _ n w (event src w) with_child turn (in_phase z (with_child w) now k sl pipes)
          λ w' (sl', i). in_phase z (with_child w') then_ k sl' (change w'.pipes i)

    -- While its pipe is empty, a slave that is to read stays in the phase.
    child_waits :
        {n : ℕ} {code : MasterStateCode} {slave_code : SlaveStateCode} {a : List ℕ}
        → Phase n code slave_code a []
        → Master.Status.Status z.m (master_ends z) code parent
        → Slave.Status.Status z.s (slave_ends z) slave_code w
        → Pipes z a [] w.pipes
        → Slave.Turns.Standing z.s (slave_ends z) slave_code w
        → (Slave.Turns.reads slave_code ≡ true) × (Slave.Turns.writes slave_code ≡ false)
        → Returned (λ served w'. After z served n (with_child w')) (event src w)
    child_waits {n = n} now k sl pipes standing flags =
        from_Turn z (λ _. ⊥) n w (event src w) with_child
          (Child.waits-Turn sys quiet env z.pipe_of kernel fuel z.s z.s_read z.s_write
            wired.child_in_set (λ _. ⊥) src w standing flags (ap w.pipes wired.to_child ∙ pipes.1)
            ne queued)
          (in_phase z (with_child w) now k sl pipes) λ w' o. absurd o

    pub child_turn :
        {n : ℕ} {code : MasterStateCode} {slave_code : SlaveStateCode} {a b : List ℕ}
        → Phase n code slave_code a b
        → Master.Status.Status z.m (master_ends z) code parent
        → Slave.Status.Status z.s (slave_ends z) slave_code w
        → Pipes z a b w.pipes
        → Returned (λ served w'. After z served n (with_child w')) (event src w)
    child_turn greetings_sent k sl pipes =
        child_moves (z.pipe_of z.s_read) [] greetings_sent greetings_read k sl pipes
          (λ f e.
            child_pipe-changed env z wired f w.pipes pipes
              (e ∙ ap (λ q. update w.pipes q []) wired.to_child))
          (Child.Receives-Turn sys quiet env z.pipe_of kernel fuel z.s z.s_read z.s_write
            wired.child_in_set src w sl Slave.Diagram.greeted (ap w.pipes wired.to_child ∙ pipes.1)
            ne queued)
    child_turn greetings_read k sl pipes =
        child_moves (z.pipe_of z.s_write) greetings greetings_read answer_sent k sl pipes
          (λ f e.
            parent_pipe-changed env z wired f w.pipes pipes
              (e ∙ ap (λ q. update w.pipes q greetings) wired.to_parent))
          (Child.Sends-Turn sys quiet env z.pipe_of kernel fuel z.s z.s_read z.s_write
            wired.child_in_set src w sl Slave.Diagram.greets (ap w.pipes wired.to_parent ∙ pipes.0)
            ne queued)
    child_turn farewell_sent k sl pipes =
        child_moves (z.pipe_of z.s_read) [] farewell_sent farewell_read k sl pipes
          (λ f e.
            child_pipe-changed env z wired f w.pipes pipes
              (e ∙ ap (λ q. update w.pipes q []) wired.to_child))
          (Child.Receives-Turn sys quiet env z.pipe_of kernel fuel z.s z.s_read z.s_write
            wired.child_in_set src w sl Slave.Diagram.parted (ap w.pipes wired.to_child ∙ pipes.1)
            ne queued)
    child_turn farewell_read k sl pipes =
        child_moves (z.pipe_of z.s_write) farewell farewell_read reply_sent k sl pipes
          (λ f e.
            parent_pipe-changed env z wired f w.pipes pipes
              (e ∙ ap (λ q. update w.pipes q farewell) wired.to_parent))
          (Child.ends-Turn sys quiet env z.pipe_of kernel fuel z.s z.s_read z.s_write
            wired.child_in_set src w sl (ap w.pipes wired.to_parent ∙ pipes.0) ne queued)
    child_turn opening k sl pipes = child_waits opening k sl pipes sl (refl, refl)
    child_turn answer_sent k sl pipes = child_waits answer_sent k sl pipes sl (refl, refl)
    child_turn answer_read k sl pipes = child_waits answer_read k sl pipes sl (refl, refl)
    child_turn reply_sent k sl pipes =
        Child.no-Turn sys quiet env z.pipe_of kernel fuel z.s z.s_read z.s_write wired.child_in_set
          _ src w sl ne queued
    child_turn closed k sl pipes =
        Child.no-Turn sys quiet env z.pipe_of kernel fuel z.s z.s_read z.s_write wired.child_in_set
          _ src w sl ne queued
