-- ===== src/Signal.antt =====
-- The BUB API of src/ccevents-sources-signal.c: signals are blocked, unblocked and blocked again, and a
-- flag for each signal says that it has arrived.
pub mod Flags
pub mod Registration
mod Tests
use ccevents.Base.{ℕ, zero, suc, ◌==◌, ltb, if◌then◌else◌, Bool, true, false, not, List, [], ◌∷◌}
use ccevents.Memory.{update}
use ccevents.World.{
  Disposition, unset, ignored, bub_handler, done, fault, Prog, return, ◌>>=◌, ◌>>◌, modify, Env,
}

-- `arrived_signals[signum] = v`, a fault out of bounds.
unfoldable pub set_arrived : Env → ℕ → ℕ → Prog (Unit {0})
set_arrived env signum v w =
    if ltb signum env.nsig
    then done tt (record w { arrived_signals = update w.arrived_signals signum v })
    else fault

unfoldable pub signal_bub_handler : Env → ℕ → Prog (Unit {0})
signal_bub_handler env signum = set_arrived env signum 1

-- `sigprocmask (SIG_BLOCK, &all_signals_set, NULL)`
unfoldable pub block_all : Prog (Unit {0})
block_all = modify λ w. record w { signals_blocked = true }

-- What the process does on a signal that is delivered.
unfoldable pub on_delivery : Env → Disposition → ℕ → Prog (Unit {0})
on_delivery env unset signum = return tt
on_delivery env ignored signum = return tt
on_delivery env bub_handler signum = signal_bub_handler env signum

-- The signals that the kernel delivers, one after the other.
unfoldable pub deliver_all : Env → List ℕ → Prog (Unit {0})
deliver_all env [] = return tt
deliver_all env (s ∷ ss) = (λ w. on_delivery env (w.dispositions s) s w) >> deliver_all env ss

-- `sigprocmask (SIG_UNBLOCK, &all_signals_set, NULL)`, before which returns the kernel delivers signals.
unfoldable pub unblock_all : Env → Prog (Unit {0})
unblock_all env w =
    let signals = env.delivered_by_unblock w.unblocks in
    deliver_all env signals (record w { signals_blocked = false; unblocks = suc w.unblocks })

-- `sigaction (signum, &ac, NULL)`; that it fails, for no signal or for SIGKILL, is not looked at.
unfoldable pub set_action : Env → Disposition → ℕ → Prog (Unit {0})
set_action env action signum w =
    if env.accepts_action signum
    then done tt (record w { dispositions = update w.dispositions signum action })
    else done tt w

-- `arrived_signals[signum] = 0; sigaction (signum, &ac, NULL);` for the `n` signals below `nsig` that are
-- left.
unfoldable pub register_from : Env → Disposition → (n signum : ℕ) → Prog (Unit {0})
register_from env action zero signum = return tt
register_from env action (suc n) signum = do
  set_arrived env signum 0
  set_action env action signum
  register_from env action n (suc signum)

unfoldable pub bub_init : Env → Prog (Unit {0})
bub_init env = do block_all; register_from env bub_handler env.nsig 0

unfoldable pub bub_final : Env → Prog (Unit {0})
bub_final env = do register_from env ignored env.nsig 0; unblock_all env

unfoldable pub bub_acquire : Env → Prog (Unit {0})
bub_acquire env = do unblock_all env; block_all

unfoldable pub bub_delivered : Env → ℕ → Prog Bool
bub_delivered env signum w =
    if ltb signum env.nsig
    then done (not (w.arrived_signals signum == 0))
        (record w { arrived_signals = update w.arrived_signals signum 0 })
    else fault
