-- ===== src/Demo/Transfer.antt =====
-- How much of a message the event handlers of demos/processes-communicating-through-pipes.c transfer.
use ccevents.Base.{
  if◌then◌else◌, ◌≡◌, refl, ℕ, zero, suc, ◌<◌, ◌≤◌, List, length, ltb, arith, ltb_of_≤, ltb_of_<,
  ==_of_eq, ==_of_ne, Bool-cases, inl, inr,
}
use ccevents.Base.Int.{ℤ}
use ccevents.Memory.{Ptr}
use ccevents.World.{World, done, fault, out_of_fuel, Returned}
use ccevents.World.Rules.{out_of_fuel-and_then}
use ccevents.Demo.System.{System, drop, buf_size}
use ccevents.Demo.Messages.{read_message, write_message}

-- A kernel that writes all of a message at once.
pub write_message-whole :
    (sys : System) (fuel : ℕ) (src : Ptr) (text : List ℕ) (w w' : World)
    → sys.sys_write (w.fd_sources src).fd text w ≡ done (length text) w'
    → write_message sys (suc fuel) src text 0 w ≡ done tt w'
unfolding write_message drop
write_message-whole sys fuel src text w w' h =
    rw (ltb_of_≤ {a = length text} {b = 0} (omega arith), h, ==_of_eq {a = length text} refl) refl

-- A message that fits the buffer and its terminator.
pub read_message-short :
    (sys : System) (src : Ptr) (text : List ℕ) (w w' : World)
    → length text < buf_size
    → sys.sys_read (w.fd_sources src).fd buf_size w ≡ done text w'
    → read_message sys src w ≡ done text w'
unfolding read_message
read_message-short sys src text w w' l h = rw (h, ltb_of_< l) refl

-- A kernel that takes at most `most` bytes at a time.
abbrev pub Takes : System → (most : ℕ) → Type 0
Takes sys most =
    (fd : ℤ) (bytes : List ℕ) (w : World) → Returned (λ n _. n ≤ most) (sys.sys_write fd bytes w)

-- If the kernel takes at most a number of bytes at a time that is less than the length of a
-- message, the loop that writes the message does not return for any number of rounds, from any
-- count up to that number.
pub write_message-endless :
    (sys : System) (most : ℕ)
    → Takes sys most
    → (fuel : ℕ) (src : Ptr) (text : List ℕ) (count : ℕ) (w : World) → most < length text
    → count ≤ most
    → write_message sys fuel src text count w ≡ out_of_fuel
unfolding write_message
write_message-endless sys most t zero src text count w l c = refl
write_message-endless sys most t (suc fuel) src text count w l c =
    rw (ltb_of_≤ {a = length text} {b = count} (omega arith)) (
      out_of_fuel-and_then (λ n _. n ≤ most)
        (sys.sys_write (w.fd_sources src).fd (drop count text) w) _ (t _ _ w)
        λ n w' k.
          rw (==_of_ne {a = length text} {b = n} (omega arith))
            (write_message-endless sys most t fuel src text n w' l k))

-- What the kernel gives is accepted if it leaves room for the terminator; if it fills the buffer, the
-- terminator is written behind its end.
pub read_message_lem :
    (sys : System) (src : Ptr) (text : List ℕ) (w w' : World)
    → sys.sys_read (w.fd_sources src).fd buf_size w ≡ done text w'
    → read_message sys src w ≡ (if ltb (length text) buf_size then done text w' else fault)
unfolding read_message
read_message_lem sys src text w w' h = elim (Bool-cases (ltb (length text) buf_size)) [
  | inl l ↦ rw (h, l) refl
  | inr l ↦ rw (h, l) refl
]
