-- ===== src/Demo/Master/Start.antt =====
-- The initialisation of the master of demos/processes-communicating-through-pipes.c.
use ccevents.Base.{◌≡◌, refl, ◌≢◌, false, ◌+◌, [], ◌∷◌, inr, arith}
use ccevents.Base.Int.{ℤ}
use ccevents.Memory.{Ptr, null, update}
use ccevents.Queue.Holds.{Holds}
use ccevents.World.{World, Returned}
use ccevents.World.MasterStateCode.{send_greetings}
use ccevents.Demo.Pair.{with_memory}
use ccevents.Demo.Setup.{Vacant, ready, setup-ok, Station-ready, Blank-ready, enlisted-Returned}
use ccevents.Demo.Station.{Ends, disable_servicing-ok, Station-read_enabled}
use ccevents.Demo.Master.{init, set_state, set_condition, read_handler, write_handler}
use ccevents.Demo.Master.Turns.{Standing}

-- The ends that the master has: its own event handlers, and two file descriptors.
abbrev pub ends : ℤ → ℤ → Ends
ends read_fd write_fd = record {
  read_handler = read_handler;
  write_handler = write_handler;
  read_fd = read_fd;
  write_fd = write_fd;
}

-- The master is ready to send its greetings: its loop holds its group, which holds the source to write
-- to and the one to read from, and serves them at most twice before it is left.
pub record Started (s : Ptr) (e : Ends) (w : World) : Type 0 where
  pub standing : Standing s e send_greetings w
  pub order : Holds w.memory (s + 1) ((s + 3) ∷ (s + 2) ∷ [])
  pub group :
      w.groups (s + 1) ≡ record { request_to_leave = false; servicing_attempts_watermark = 2 }
  pub loop : w.loops s ≡ record { request_to_leave = false }

pub init-Started :
    (s : Ptr) (read_fd write_fd : ℤ) (w : World)
    → s ≢ null
    → Vacant s w
    → Returned
        (λ _ w'. Started s (ends read_fd write_fd) w' × (w'.pipes ≡ w.pipes))
        (init s read_fd write_fd w)
unfolding init set_state set_condition update
init-Started s read_fd write_fd w ne u =
    let e = ends read_fd write_fd in
    rw (setup-ok s e w ne) (
      enlisted-Returned _ _ s (ready s e w) ne (Blank-ready s e w ne u) λ h k g.
        let v = with_memory (ready s e w) h in
        rw (disable_servicing-ok {p = s + 2} v (omega arith)) (
          record {
            standing = record {
              ne = ne;
              state = ground arith;
              station = Station-read_enabled v (Station-ready s e w) false;
              enlisted = record { loop_queue = k; group_queue = inr g };
            };
            order = g;
            group = ground arith;
            loop = ground arith;
          },
          refl,
        ))
