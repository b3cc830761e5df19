-- ===== src/Demo/Slave/Diagram.antt =====
-- The states of the slave of demos/processes-communicating-through-pipes.c, and the messages that
-- lead from one to the next.
use ccevents.Base.{◌≡◌, refl, ◌+◌, ℕ, List, arith}
use ccevents.Memory.{Ptr}
use ccevents.Demo.Slave.{
  message, sent, received, set_state, state_pointer_from_read_source_pointer,
  state_pointer_from_write_source_pointer,
}
use ccevents.Demo.System.{same_prefix, greetings, farewell}
use ccevents.Source.{enable_servicing}
use ccevents.World.{World, SlaveStateCode, done, ◌>>◌}
use ccevents.World.SlaveStateCode.{read_greetings, send_greetings, read_farewell, send_farewell}

-- In the first state the message is sent, and the other state entered, but for the end of the dialogue.
pub data Sends : SlaveStateCode → List ℕ → SlaveStateCode → Type 0 where
  greets : Sends send_greetings greetings read_farewell

-- The same for a message that is received.
pub data Receives : SlaveStateCode → List ℕ → SlaveStateCode → Type 0 where
  greeted : Receives read_greetings greetings send_greetings
  parted : Receives read_farewell farewell send_farewell

pub message-Sends :
    {code next : SlaveStateCode} {text : List ℕ}
    → Sends code text next
    → (w : World) → message code w ≡ done text w
unfolding message
message-Sends greets w = refl

pub sent-Sends :
    {code next : SlaveStateCode} {text : List ℕ}
    → Sends code text next
    → (s : Ptr) (w : World) → sent s code w ≡ (set_state s next >> enable_servicing (s + 2)) w
unfolding sent
sent-Sends greets s w = refl

pub received-Receives :
    {code next : SlaveStateCode} {text : List ℕ}
    → Receives code text next
    → (s : Ptr) (w : World)
    → received s text code w ≡ (set_state s next >> enable_servicing (s + 3)) w
unfolding received same_prefix
received-Receives greeted s w = refl
received-Receives parted s w = refl

pub message-farewell : (w : World) → message send_farewell w ≡ done farewell w
unfolding message
message-farewell w = refl

pub from_read_source : (s : Ptr) → state_pointer_from_read_source_pointer (s + 2) ≡ s
from_read_source s = omega arith

pub from_write_source : (s : Ptr) → state_pointer_from_write_source_pointer (s + 3) ≡ s
from_write_source s = omega arith
