-- ===== src/Demo/Dialogue/Beginning.antt =====
-- How the dialogue of demos/processes-communicating-through-pipes.c begins.
use ccevents.Base.{◌≢◌, ℕ, List, []}
use ccevents.Memory.{null}
use ccevents.World.{World, Returned}
use ccevents.World.Rules.{Returned-weaken}
use ccevents.Demo.Setup.{Vacant}
use ccevents.Demo.Dialogue.Phases.{Setting, Pipes, Opening}
use ccevents.Demo.Master
use ccevents.Demo.Slave

-- If no node claims to be in the queues of the loops and groups that are to be initialised, and the
-- pipes are empty, the initialisations of the master and of the slave return, each with its loop
-- holding its group, this one its source to write to and then the one to read from, set up for
-- their descriptors with no expiration, the master ready to send the greetings and the slave to
-- read them, with only the source for this enabled.
pub init-Opening :
    (z : Setting) (p c : World) (pipes : ℕ → List ℕ)
    → z.m ≢ null
    → Vacant z.m p
    → z.s ≢ null
    → Vacant z.s c
    → Pipes z [] [] pipes
    → Returned
        (λ _ p'.
          Returned
            (λ _ c'. Opening z (record { parent = p'; child = c'; pipes = pipes }))
            (Slave.init z.s z.s_read z.s_write c))
        (Master.init z.m z.m_read z.m_write p)
init-Opening z p c pipes ne u ne' u' empty =
    Returned-weaken _ _ (Master.init z.m z.m_read z.m_write p)
      (Master.Start.init-Started z.m z.m_read z.m_write p ne u)
      λ _ p' k.
        Returned-weaken _ _ (Slave.init z.s z.s_read z.s_write c)
          (Slave.Start.slave_init-Started z.s z.s_read z.s_write c ne' u')
          λ _ c' l. record { parent = k.0; child = l.0; pipes = empty }
