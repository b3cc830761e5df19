-- ===== src/Signal/Tests.antt =====
-- Runs of the BUB API of src/ccevents-sources-signal.c, and its theorems on a sample.
use ccevents.Base.{ℕ, ◌≡◌, ◌≢◌, refl, Bool, true, false, ◌||◌, List, [], ◌∷◌, ◌<◌, arith}
use ccevents.Memory.{update}
use ccevents.World.{World, ignored, bub_handler, fault, Prog, ◌>>=◌, ◌>>◌, Returned, return}
use ccevents.World.Samples.{sample, quiet}
use ccevents.Signal.{
  set_arrived, signal_bub_handler, on_delivery, block_all, deliver_all, unblock_all, bub_init,
  bub_final, bub_acquire, bub_delivered,
}
use ccevents.Signal.Flags.{has_flag, arrives, delivered-acquire}
use ccevents.Signal.Registration.{still_arrives, AllRegistered, bub-AllRegistered}

-- The handler is registered for every signal.
abbrev handling : World
handling = record quiet { dispositions = λ s. bub_handler }

-- A signal is reported once.
reports : Prog (List Bool)
reports = do
  bub_acquire sample
  a ← bub_delivered sample 10
  b ← bub_delivered sample 10
  c ← bub_delivered sample 11
  d ← bub_delivered sample 12
  return (a ∷ b ∷ c ∷ d ∷ [])

reported : Returned (λ r w. r ≡ true ∷ false ∷ false ∷ true ∷ []) (reports handling)
unfolding reports bub_acquire bub_delivered unblock_all block_all deliver_all on_delivery
    signal_bub_handler set_arrived update
reported = refl

-- There is no flag for NSIG.
out_of_bounds : bub_delivered sample 65 quiet ≡ fault
unfolding bub_delivered
out_of_bounds = refl

bub-AllRegistered_example :
    Returned
      (λ _ w.
        AllRegistered sample bub_handler handling w
        × ((s : ℕ) → s < 65 → has_flag w s ≡ false)
        × (w.signals_blocked ≡ true))
      (bub_init sample handling)
    × Returned
        (λ _ w.
          AllRegistered sample ignored handling w
          × ((s : ℕ) → s < 65 → has_flag w s ≡ still_arrives sample handling s)
          × (w.signals_blocked ≡ false))
        (bub_final sample handling)
bub-AllRegistered_example = bub-AllRegistered sample handling (omega arith)

delivered-acquire_example :
    Returned
      (λ b w.
        (b ≡ true)
        × (has_flag w 12 ≡ false)
        × ((s : ℕ) → s ≢ 12 → has_flag w s ≡ (arrives sample handling s || has_flag handling s))
        × (w.signals_blocked ≡ true))
      ((bub_acquire sample >> bub_delivered sample 12) handling)
delivered-acquire_example = delivered-acquire sample handling 12 (omega arith) (omega arith)
