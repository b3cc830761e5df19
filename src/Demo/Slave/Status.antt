-- ===== src/Demo/Slave/Status.antt =====
-- What is true of the slave of demos/processes-communicating-through-pipes.c in each of its states.
use ccevents.Base.{◌+◌, sym, subst, ◌≡◌, refl, ◌≢◌, ◌≤◌, ℕ, true, false, List, [], length, arith}
use ccevents.Memory.{Ptr, null}
use ccevents.Queue.{advance_current}
use ccevents.Queue.Advance.{advance_current-Holds}
use ccevents.Queue.Frame.{Holds-Spares}
use ccevents.World.Rules.{Returned-weaken, Returned-on_memory}
use ccevents.Demo.Station.{Enlisted-advance}
use ccevents.World.{on_memory, Returned, World, SlaveStateCode}
use ccevents.World.SlaveStateCode.{finished}
use ccevents.Demo.System.{buf_size}
use ccevents.Demo.Station.{Ends, with_pipes}
use ccevents.Demo.Dialogue.Turn.{cons-ne-nil}
use ccevents.Demo.Slave.Diagram.{Sends, greets, Receives, greeted, parted}
use ccevents.Demo.Slave.Leaving.{HasLeft}
use ccevents.Demo.Slave.Turns.{Standing, reads, writes}

-- What is true of the slave in a state.
abbrev pub Status : Ptr → Ends → SlaveStateCode → World → Type 0
Status s e finished w = HasLeft s null w
Status s e code w = Standing s e code w

-- It does not depend on what is in the pipes.
pub Standing-pipes :
    {s : Ptr} {e : Ends} {code : SlaveStateCode} (w : World) (p : ℕ → List ℕ)
    → Standing s e code w
    → Standing s e code (with_pipes w p)
Standing-pipes w p k = record {
  ne = k.ne;
  state = k.state;
  station = k.station;
  enlisted = k.enlisted;
}

pub Status-pipes :
    (s : Ptr) (e : Ends) (code : SlaveStateCode) (w : World) (p : ℕ → List ℕ)
    → Status s e code w
    → Status s e code (with_pipes w p)
Status-pipes s e finished w p k = record {
  state = k.state;
  loop_queue = k.loop_queue;
  group_queue = k.group_queue;
  read_source_free = k.read_source_free;
  write_source_free = k.write_source_free;
  asked = k.asked;
}
Status-pipes s e SlaveStateCode.read_greetings w p k = Standing-pipes w p k
Status-pipes s e SlaveStateCode.send_greetings w p k = Standing-pipes w p k
Status-pipes s e SlaveStateCode.read_farewell w p k = Standing-pipes w p k
Status-pipes s e SlaveStateCode.send_farewell w p k = Standing-pipes w p k

pub Sends-flags :
    {code next : SlaveStateCode} {text : List ℕ}
    → Sends code text next
    → (reads code ≡ false) × (writes code ≡ true) × (length text ≤ 512)
Sends-flags greets = (refl, refl, omega arith)

pub Receives-flags :
    {code next : SlaveStateCode} {text : List ℕ}
    → Receives code text next
    → ((reads code ≡ true) × (writes code ≡ false)) × (text ≢ []) × (length text ≤ buf_size)
Receives-flags greeted = ((refl, refl), cons-ne-nil, omega arith)
Receives-flags parted = ((refl, refl), cons-ne-nil, omega arith)

-- It does not change when the group advances to its next source.
Standing-advanced :
    {s : Ptr} {e : Ends} {code : SlaveStateCode} (w : World)
    → Standing s e code w
    → Returned (λ _. Standing s e code) (on_memory (advance_current (s + 1)) w)
Standing-advanced {s} {e} {code} w k =
    Returned-weaken _ _ (on_memory (advance_current (s + 1)) w)
      (Returned-on_memory _ (advance_current (s + 1)) w (Enlisted-advance k.enlisted))
      λ _ w' (h, n, i).
        subst (Standing s e code) (sym i)
          (record { ne = k.ne; state = k.state; station = k.station; enlisted = n })

HasLeft-advanced :
    {s condition : Ptr} (w : World)
    → HasLeft s condition w
    → Returned (λ _. HasLeft s condition) (on_memory (advance_current (s + 1)) w)
HasLeft-advanced {s} {condition} w k =
    Returned-weaken _ _ (on_memory (advance_current (s + 1)) w)
      (Returned-on_memory _ (advance_current (s + 1)) w (advance_current-Holds [] k.group_queue))
      λ _ w' (h, (q, sp), i). subst (HasLeft s condition) (sym i) (record {
        state = k.state;
        loop_queue = Holds-Spares sp k.loop_queue (omega arith) (λ p j. ground arith);
        group_queue = q;
        read_source_free = ground (arith, sp.nodes (s + 2), k.read_source_free);
        write_source_free = ground (arith, sp.nodes (s + 3), k.write_source_free);
        asked = k.asked;
      })

pub Status-advanced :
    (s : Ptr) (e : Ends) (code : SlaveStateCode) (w : World)
    → Status s e code w
    → Returned (λ _. Status s e code) (on_memory (advance_current (s + 1)) w)
Status-advanced s e finished w k = HasLeft-advanced w k
Status-advanced s e SlaveStateCode.read_greetings w k = Standing-advanced w k
Status-advanced s e SlaveStateCode.send_greetings w k = Standing-advanced w k
Status-advanced s e SlaveStateCode.read_farewell w k = Standing-advanced w k
Status-advanced s e SlaveStateCode.send_farewell w k = Standing-advanced w k
