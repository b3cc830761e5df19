-- ===== src/Demo/Reset.antt =====
-- What the steps of `ccevents_loop_enter` and `ccevents_group_enter` around an event leave of the state
-- of the master of demos/processes-communicating-through-pipes.c.
use ccevents.Base.{◌≡◌, ◌+◌, false, [], ◌∷◌, arith, inl, inr}
use ccevents.Memory.{Ptr, null, Memory, update}
use ccevents.Queue.Holds.{Holds, base_of}
use ccevents.Queue.Frame.{Spares, Holds-Spares}
use ccevents.World.{Group as GroupState, World, MasterStateCode}
use ccevents.World.MasterStateCode.{finished}
use ccevents.Group
use ccevents.Loop
use ccevents.Demo.Pair.{with_memory}
use ccevents.Demo.Station.{Ends}
use ccevents.Demo.Master.Leaving.{HasLeft}
use ccevents.Demo.Master.Start.{Started}
use ccevents.Demo.Master.Turns.{Standing}

-- The master has left its loop, which has ended and waits for no end.
pub record Quit (s condition : Ptr) (w : World) : Type 0 where
  pub state : w.master_states s ≡ record { state = finished; exceptional_condition = condition }
  pub loop_queue : Holds w.memory s ((s + 1) ∷ [])
  pub group_queue : Holds w.memory (s + 1) []
  pub read_source_free : base_of w.memory (s + 2) ≡ null
  pub write_source_free : base_of w.memory (s + 3) ≡ null
  pub not_asked : (w.loops s).request_to_leave ≡ false

-- The group's queue is advanced.
pub Standing-turned :
    {s : Ptr} {e : Ends} {code : MasterStateCode} (w : World) (h : Memory)
    → Standing s e code w
    → Holds h (s + 1) ((s + 2) ∷ (s + 3) ∷ [])
    → Spares w.memory h (s + 1) []
    → Standing s e code (with_memory w h)
Standing-turned w h k q sp = record {
  ne = k.ne;
  state = k.state;
  station = k.station;
  enlisted = record {
    loop_queue = Holds-Spares sp k.enlisted.loop_queue (omega arith) (λ p i. ground arith);
    group_queue = inl q;
  };
}

-- The loop's queue is advanced, or a request is reset.
pub Started-advanced :
    {s : Ptr} {e : Ends} (w : World) (h : Memory)
    → Started s e w
    → Holds h s ((s + 1) ∷ [])
    → Spares w.memory h s []
    → Started s e (with_memory w h)
Started-advanced w h k q sp = record {
  standing = record {
    ne = k.standing.ne;
    state = k.standing.state;
    station = k.standing.station;
    enlisted = record {
      loop_queue = q;
      group_queue = inr (Holds-Spares sp k.order (omega arith) (λ p i. ground arith));
    };
  };
  order = Holds-Spares sp k.order (omega arith) (λ p i. ground arith);
  group = k.group;
  loop = k.loop;
}

pub Started-group_reset :
    {s : Ptr} {e : Ends} (w : World)
    → Started s e w
    → Started s e
        (Group.put_group (s + 1) (record (w.groups (s + 1)) { request_to_leave = false }) w)
unfolding update
Started-group_reset w k = record {
  standing = record {
    ne = k.standing.ne;
    state = k.standing.state;
    station = k.standing.station;
    enlisted = k.standing.enlisted;
  };
  order = k.order;
  group = ground (arith, k.group);
  loop = k.loop;
}

pub Started-loop_reset :
    {s : Ptr} {e : Ends} (w : World)
    → Started s e w
    → Started s e (Loop.put_loop s (record { request_to_leave = false }) w)
unfolding update
Started-loop_reset w k = record {
  standing = record {
    ne = k.standing.ne;
    state = k.standing.state;
    station = k.standing.station;
    enlisted = k.standing.enlisted;
  };
  order = k.order;
  group = k.group;
  loop = ground arith;
}

-- The last steps of `ccevents_group_enter` and of `ccevents_loop_enter`.
pub HasLeft-group_reset :
    {s condition : Ptr} (w : World) (grp : Ptr) (g : GroupState)
    → HasLeft s condition w
    → HasLeft s condition (Group.put_group grp g w)
HasLeft-group_reset w grp g k = record {
  state = k.state;
  loop_queue = k.loop_queue;
  group_queue = k.group_queue;
  read_source_free = k.read_source_free;
  write_source_free = k.write_source_free;
  asked = k.asked;
}

pub Quit-HasLeft :
    {s condition : Ptr} (w : World)
    → HasLeft s condition w
    → Quit s condition (Loop.put_loop s (record { request_to_leave = false }) w)
unfolding update
Quit-HasLeft w k = record {
  state = k.state;
  loop_queue = k.loop_queue;
  group_queue = k.group_queue;
  read_source_free = k.read_source_free;
  write_source_free = k.write_source_free;
  not_asked = ground arith;
}
