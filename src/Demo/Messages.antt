-- ===== src/Demo/Messages.antt =====
-- How the event handlers of demos/processes-communicating-through-pipes.c read and write a message.
use ccevents.Base.{ℕ, zero, suc, ◌==◌, ltb, if◌then◌else◌, List, length}
use ccevents.Memory.{Ptr}
use ccevents.World.{fault, out_of_fuel, Prog, return, ◌>>=◌, ◌>>◌}
use ccevents.Demo.System.{System, assert, drop, buf_size}

module _ (sys : System) where
  -- `cce_sys_read (L, fd, buf, 10); buf[count] = '\0'`; the second is out of bounds if `buf` is full.
  unfoldable pub read_message : Ptr → Prog (List ℕ)
  read_message src = do
    buf ← (λ w. sys.sys_read (w.fd_sources src).fd buf_size w)
    assert (ltb (length buf) buf_size)
    return buf

  -- The `do` loop that writes a message, for at most `fuel` rounds, from its `count`th byte on; a count
  -- beyond its end is out of bounds.
  unfoldable pub write_message : (fuel : ℕ) → Ptr → List ℕ → (count : ℕ) → Prog (Unit {0})
  write_message zero src message count = λ w. out_of_fuel
  write_message (suc fuel) src message count =
      if ltb (length message) count then (λ w. fault) else do
        written ← (λ w. sys.sys_write (w.fd_sources src).fd (drop count message) w)
        if length message == written then return tt else write_message fuel src message written
