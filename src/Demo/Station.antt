-- ===== src/Demo/Station.antt =====
-- What both processes of demos/processes-communicating-through-pipes.c keep set up: a source to read
-- from and one to write to, in a group in a loop.
use ccevents.Base.{
  ◌⊎◌, inl, inr, ℕ, List, ◌≡◌, ◌≢◌, Bool, true, false, [], ◌∷◌, ◌+◌, arith, ==_of_ne,
}
use ccevents.Base.Int.{ℤ}
use ccevents.Memory.{Ptr, null, Memory, update, Returns}
use ccevents.Memory.Access.{Returns-weaken}
use ccevents.Queue.{advance_current}
use ccevents.Queue.Advance.{advance_current-Holds}
use ccevents.Queue.Frame.{Holds-Spares}
use ccevents.Queue.Holds.{Holds, base_of}
use ccevents.Demo.Pair.{HoldsBoth}
use ccevents.World.{
  World, Handler, Source, FdSource, fd_methods, fd_readability, fd_writability, done,
}
use ccevents.Source.{fresh_source, put_source, enable_servicing, disable_servicing}

-- A file descriptor source that never expires.
abbrev pub never_expiring : Bool → Source
never_expiring b = record (fresh_source fd_methods) { enabled = b }

-- The event handlers and file descriptors of a process.
pub record Ends : Type 0 where
  pub read_handler : Handler
  pub write_handler : Handler
  pub read_fd : ℤ
  pub write_fd : ℤ

-- The sources at `s + 2` and `s + 3` are set up to read and to write, and enabled as `reads` and
-- `writes` say.
pub record Station (s : Ptr) (e : Ends) (reads writes : Bool) (sources : Ptr → Source)
    (fd_sources : Ptr → FdSource) : Type 0 where
  pub read_source : sources (s + 2) ≡ never_expiring reads
  pub write_source : sources (s + 3) ≡ never_expiring writes
  pub read_end :
      fd_sources (s + 2)
      ≡ record { fd = e.read_fd; event_inquirer = fd_readability; event_handler = e.read_handler }
  pub write_end :
      fd_sources (s + 3)
      ≡ record { fd = e.write_fd; event_inquirer = fd_writability; event_handler = e.write_handler }

-- The loop at `s` holds the group at `s + 1`, and this one both sources.
pub record Enlisted (s : Ptr) (h : Memory) : Type 0 where
  pub loop_queue : Holds h s ((s + 1) ∷ [])
  pub group_queue : HoldsBoth h (s + 1) (s + 2) (s + 3)

-- The world after a write to `enabled`.
abbrev pub with_enabled : Ptr → Bool → World → World
with_enabled p b w = put_source p (record (w.sources p) { enabled = b }) w

-- The world with other bytes in the pipes.
abbrev pub with_pipes : World → (ℕ → List ℕ) → World
with_pipes w p = record w { pipes = p }

pub enable_servicing-ok :
    {p : Ptr} (w : World) → p ≢ null → enable_servicing p w ≡ done tt (with_enabled p true w)
unfolding enable_servicing
enable_servicing-ok w ne = rw (==_of_ne ne)

pub disable_servicing-ok :
    {p : Ptr} (w : World) → p ≢ null → disable_servicing p w ≡ done tt (with_enabled p false w)
unfolding disable_servicing
disable_servicing-ok w ne = rw (==_of_ne ne)

module _ {s : Ptr} {e : Ends} {reads writes : Bool} (w : World)
    (k : Station s e reads writes w.sources w.fd_sources) (b : Bool) where
  pub Station-read_enabled :
      Station s e b writes (with_enabled (s + 2) b w).sources (with_enabled (s + 2) b w).fd_sources
  unfolding update
  Station-read_enabled = record {
    read_source = ground (arith, k.read_source);
    write_source = ground (arith, k.write_source);
    read_end = k.read_end;
    write_end = k.write_end;
  }

  pub Station-write_enabled :
      Station s e reads b (with_enabled (s + 3) b w).sources (with_enabled (s + 3) b w).fd_sources
  unfolding update
  Station-write_enabled = record {
    read_source = ground (arith, k.read_source);
    write_source = ground (arith, k.write_source);
    read_end = k.read_end;
    write_end = k.write_end;
  }

-- Only these sources are in the group.
pub Enlisted-sources :
    {s src : Ptr} {h : Memory}
    → Enlisted s h
    → src ≢ null
    → base_of h src ≡ s + 1
    → (src ≡ s + 2) ⊎ (src ≡ s + 3)
Enlisted-sources {src = src} k ne b = elim k.group_queue [
  | inl q ↦ ground (arith, q.owned src)
  | inr q ↦ ground (arith, q.owned src)
]

-- The group's queue is advanced.
pub Enlisted-advance :
    {s : Ptr} {h : Memory}
    → Enlisted s h
    → Returns (λ _ h'. Enlisted s h') (advance_current (s + 1) h)
Enlisted-advance {s} {h} k = elim k.group_queue [
  | inl q ↦
      Returns-weaken _ _ (advance_current (s + 1) h)
        (advance_current-Holds ((s + 2) ∷ (s + 3) ∷ []) q)
        λ _ h' (q', sp). record {
          loop_queue = Holds-Spares sp k.loop_queue (omega arith) (λ p i. ground arith);
          group_queue = inr q';
        }
  | inr q ↦
      Returns-weaken _ _ (advance_current (s + 1) h)
        (advance_current-Holds ((s + 3) ∷ (s + 2) ∷ []) q)
        λ _ h' (q', sp). record {
          loop_queue = Holds-Spares sp k.loop_queue (omega arith) (λ p i. ground arith);
          group_queue = inl q';
        }
]
