-- ===== src/Demo/Master/Diagram.antt =====
-- The states of the master of demos/processes-communicating-through-pipes.c, and the messages that
-- lead from one to the next.
use ccevents.Base.{◌≡◌, refl, ◌+◌, ℕ, List, arith}
use ccevents.Memory.{Ptr}
use ccevents.Demo.Master.{
  message, sent, received, set_state, task_final, state_pointer_from_read_source_pointer,
  state_pointer_from_write_source_pointer,
}
use ccevents.Demo.System.{same_prefix, greetings, farewell}
use ccevents.Source.{enable_servicing, disable_servicing}
use ccevents.World.{World, MasterStateCode, done, ◌>>◌}
use ccevents.World.MasterStateCode.{read_greetings, send_greetings, read_farewell, send_farewell}

-- In the first state the message is sent, and the other state entered.
pub data Sends : MasterStateCode → List ℕ → MasterStateCode → Type 0 where
  greets : Sends send_greetings greetings read_greetings
  parts : Sends send_farewell farewell read_farewell

-- The same for a message that is received, and does not end the dialogue.
pub data Receives : MasterStateCode → List ℕ → MasterStateCode → Type 0 where
  greeted : Receives read_greetings greetings send_farewell

pub message-Sends :
    {code next : MasterStateCode} {text : List ℕ}
    → Sends code text next
    → (w : World) → message code w ≡ done text w
unfolding message
message-Sends greets w = refl
message-Sends parts w = refl

pub sent-Sends :
    {code next : MasterStateCode} {text : List ℕ}
    → Sends code text next
    → (s : Ptr) (w : World) → sent s code w ≡ (set_state s next >> enable_servicing (s + 2)) w
unfolding sent
sent-Sends greets s w = refl
sent-Sends parts s w = refl

pub received-Receives :
    {code next : MasterStateCode} {text : List ℕ}
    → Receives code text next
    → (s : Ptr) (w : World)
    → received s text code w
      ≡ (set_state s next >> (disable_servicing (s + 2) >> enable_servicing (s + 3))) w
unfolding received same_prefix
received-Receives greeted s w = refl

pub received-farewell : (s : Ptr) (w : World) → received s farewell read_farewell w ≡ task_final s w
unfolding received same_prefix
received-farewell s w = refl

pub from_read_source : (s : Ptr) → state_pointer_from_read_source_pointer (s + 2) ≡ s
from_read_source s = omega arith

pub from_write_source : (s : Ptr) → state_pointer_from_write_source_pointer (s + 3) ≡ s
from_write_source s = omega arith
