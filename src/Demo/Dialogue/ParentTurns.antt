-- ===== src/Demo/Dialogue/ParentTurns.antt =====
-- Each event of the parent process of demos/processes-communicating-through-pipes.c leaves the dialogue in its
-- phase or takes it to the next.
use ccevents.Base.{◌≡◌, refl, ◌≢◌, ◌+◌, ℕ, suc, Bool, true, false, List, []}
use ccevents.Memory.{Ptr, null, update}
use ccevents.Queue.Holds.{base_of}
use ccevents.World.{World, MasterStateCode, SlaveStateCode, Prog, Returned, Env}
use ccevents.Source.{do_one_event}
use ccevents.Demo.System.{System, Unregistered, greetings, farewell}
use ccevents.Demo.Dialogue.{Kernel, demo_env, Config}
use ccevents.Demo.Dialogue.Turn.{Turn}
use ccevents.Demo.Dialogue.Parent
use ccevents.Demo.Dialogue.Phases.{
  Phase, opening, greetings_sent, greetings_read, answer_sent, answer_read, farewell_sent,
  farewell_read, reply_sent, closed, Setting, master_ends, slave_ends, Wired, Pipes, After,
  in_phase, from_Turn, parent_pipe-changed, child_pipe-changed,
}
use ccevents.Demo.Master
use ccevents.Demo.Slave

module _ (sys : System) (quiet : Unregistered sys) (env : Env) (z : Setting) (wired : Wired env z)
    (kernel : Kernel sys env z.pipe_of) (fuel : ℕ) where
  abbrev event : Ptr → Prog Bool
  event src = do_one_event (demo_env sys env (suc fuel)) src

  module _ (child : World) (src : Ptr) (w : World) (ne : src ≢ null)
      (queued : base_of w.memory src ≡ z.m + 1) where
    -- The configuration while the parent runs, in whose world the pipes are.
    abbrev with_parent : World → Config
    with_parent w' = record { parent = w'; child = child; pipes = w'.pipes }

    -- An event of the parent that writes one of the pipes and enters the next phase.
    parent_moves :
        {n : ℕ} {code next : MasterStateCode} {slave_code : SlaveStateCode} {a b a' b' : List ℕ}
        (p : ℕ) (text : List ℕ)
        → Phase n code slave_code a b
        → Phase (suc n) next slave_code a' b'
        → Master.Status.Status z.m (master_ends z) code w
        → Slave.Status.Status z.s (slave_ends z) slave_code child
        → Pipes z a b w.pipes
        → ((f : ℕ → List ℕ) → f ≡ update w.pipes p text → Pipes z a' b' f)
        → Returned
            (Turn
              (λ w'.
                Master.Status.Status z.m (master_ends z) next w'
                × (w'.pipes ≡ update w.pipes p text))
              w)
            (event src w)
        → Returned (λ served w'. After z served n (with_parent w')) (event src w)
    parent_moves {n = n} p text now then_ k sl pipes change turn =
        from_Turn z _ n w (event src w) with_parent turn (in_phase z (with_parent w) now k sl pipes)
          λ w' (k', i). in_phase z (with_parent w') then_ k' sl (change w'.pipes i)

    -- While its pipe is empty, a master that is to read stays in the phase.
    parent_waits :
        {n : ℕ} {code : MasterStateCode} {slave_code : SlaveStateCode} {b : List ℕ}
        → Phase n code slave_code [] b
        → Master.Status.Status z.m (master_ends z) code w
        → Slave.Status.Status z.s (slave_ends z) slave_code child
        → Pipes z [] b w.pipes
        → Master.Turns.Standing z.m (master_ends z) code w
        → (Master.Turns.reads code ≡ true) × (Master.Turns.writes code ≡ false)
        → Returned (λ served w'. After z served n (with_parent w')) (event src w)
    parent_waits {n = n} now k sl pipes standing flags =
        from_Turn z (λ _. ⊥) n w (event src w) with_parent
          (Parent.waits-Turn sys quiet env z.pipe_of kernel fuel z.m z.m_read z.m_write
            wired.parent_in_set (λ _. ⊥) src w standing flags pipes.0 ne queued)
          (in_phase z (with_parent w) now k sl pipes) λ w' o. absurd o

    pub parent_turn :
        {n : ℕ} {code : MasterStateCode} {slave_code : SlaveStateCode} {a b : List ℕ}
        → Phase n code slave_code a b
        → Master.Status.Status z.m (master_ends z) code w
        → Slave.Status.Status z.s (slave_ends z) slave_code child
        → Pipes z a b w.pipes
        → Returned (λ served w'. After z served n (with_parent w')) (event src w)
    parent_turn opening k sl pipes =
        parent_moves (z.pipe_of z.m_write) greetings opening greetings_sent k sl pipes
          (λ f. child_pipe-changed env z wired f w.pipes pipes)
          (Parent.Sends-Turn sys quiet env z.pipe_of kernel fuel z.m z.m_read z.m_write
            wired.parent_in_set src w k Master.Diagram.greets pipes.1 ne queued)
    parent_turn answer_read k sl pipes =
        parent_moves (z.pipe_of z.m_write) farewell answer_read farewell_sent k sl pipes
          (λ f. child_pipe-changed env z wired f w.pipes pipes)
          (Parent.Sends-Turn sys quiet env z.pipe_of kernel fuel z.m z.m_read z.m_write
            wired.parent_in_set src w k Master.Diagram.parts pipes.1 ne queued)
    parent_turn answer_sent k sl pipes =
        parent_moves (z.pipe_of z.m_read) [] answer_sent answer_read k sl pipes
          (λ f. parent_pipe-changed env z wired f w.pipes pipes)
          (Parent.Receives-Turn sys quiet env z.pipe_of kernel fuel z.m z.m_read z.m_write
            wired.parent_in_set src w k Master.Diagram.greeted pipes.0 ne queued)
    parent_turn reply_sent k sl pipes =
        parent_moves (z.pipe_of z.m_read) [] reply_sent closed k sl pipes
          (λ f. parent_pipe-changed env z wired f w.pipes pipes)
          (Parent.ends-Turn sys quiet env z.pipe_of kernel fuel z.m z.m_read z.m_write
            wired.parent_in_set src w k pipes.0 ne queued)
    parent_turn greetings_sent k sl pipes = parent_waits greetings_sent k sl pipes k (refl, refl)
    parent_turn greetings_read k sl pipes = parent_waits greetings_read k sl pipes k (refl, refl)
    parent_turn farewell_sent k sl pipes = parent_waits farewell_sent k sl pipes k (refl, refl)
    parent_turn farewell_read k sl pipes = parent_waits farewell_read k sl pipes k (refl, refl)
    parent_turn closed k sl pipes =
        Parent.no-Turn sys quiet env z.pipe_of kernel fuel z.m z.m_read z.m_write
          wired.parent_in_set _ src w k ne queued
