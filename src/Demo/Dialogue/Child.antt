-- ===== src/Demo/Dialogue/Child.antt =====
-- One event of the slave of demos/processes-communicating-through-pipes.c, in each of its states.
use ccevents.Base.{
  ◌≡◌, refl, sym, ◌∙◌, subst, ◌≢◌, inl, inr, ◌+◌, ℕ, suc, Bool, true, false, List, [], arith,
}
use ccevents.Base.Int.{ℤ}
use ccevents.Memory.{Ptr, null, update}
use ccevents.Queue.Holds.{base_of}
use ccevents.World.{World, SlaveStateCode, Prog, Returned, Env, fits}
use ccevents.World.SlaveStateCode.{send_farewell}
use ccevents.Source.{do_one_event}
use ccevents.Demo.System.{System, Unregistered, farewell}
use ccevents.Demo.Station.{Station, Ends, with_enabled, Enlisted-sources}
use ccevents.Demo.Dialogue.{Kernel, demo_env, demo_handle}
use ccevents.Demo.Dialogue.Turn.{Turn, idle-Turn, Served, event-Served, Served-Turn}
use ccevents.Source.Kinds.{disabled-is_idle}
use ccevents.Demo.Dialogue.Events.{
  read_source-is_idle, read_source-has_event, write_source-has_event,
}
use ccevents.Demo.Slave.{read_event_handler, write_event_handler}
use ccevents.Demo.Slave.Diagram.{Sends, Receives}
use ccevents.Demo.Slave.Leaving.{HasLeft}
use ccevents.Demo.Slave.Start.{ends}
use ccevents.Demo.Slave.Turns.{
  Standing, reads, writes, write_event_handler-Standing, read_event_handler-Standing,
  write_event_handler-HasLeft,
}
use ccevents.Demo.Slave.Status.{Sends-flags, Receives-flags}

module _ (sys : System) (quiet : Unregistered sys) (env : Env) (pipe_of : ℤ → ℕ)
    (kernel : Kernel sys env pipe_of) (fuel : ℕ) (s : Ptr) (read_fd write_fd : ℤ)
    (in_set : (fits env read_fd ≡ true) × (fits env write_fd ≡ true)) where
  abbrev e : Ends
  e = ends read_fd write_fd

  abbrev event : Ptr → Prog Bool
  event src = do_one_event (demo_env sys env (suc fuel)) src

  -- A source of the slave that is not enabled.
  no_event :
      (P : World → Type 0) (src : Ptr) (w : World)
      → src ≢ null
      → (w.sources src).enabled ≡ false
      → Returned (Turn P w) (event src w)
  no_event P src w ne d =
      idle-Turn P w (event src w) (disabled-is_idle (demo_env sys env (suc fuel)) w ne d)

  -- An event of the source to write to, and of the other.
  write-Served :
      (P : World → Type 0) (w : World) {code : SlaveStateCode}
      → Standing s e code w
      → writes code ≡ true
      → w.pipes (pipe_of write_fd) ≡ []
      → Returned (λ _. P) (write_event_handler sys (suc fuel) (s + 3) w)
      → Returned (Served P) (event (s + 3) w)
  unfolding demo_handle
  write-Served P w {code} k w_on empty h =
      event-Served P _ (write_event_handler sys (suc fuel) (s + 3) w)
        (write_source-has_event (demo_env sys env (suc fuel)) w
          (subst (λ x. Station s e (reads code) x w.sources w.fd_sources) w_on k.station) 3 refl
          in_set.1 (kernel.is_writable write_fd w empty))
        h

  read-Served :
      (P : World → Type 0) (w : World) {code : SlaveStateCode}
      → Standing s e code w
      → reads code ≡ true
      → w.pipes (pipe_of read_fd) ≢ []
      → Returned (λ _. P) (read_event_handler sys (s + 2) w)
      → Returned (Served P) (event (s + 2) w)
  unfolding demo_handle
  read-Served P w {code} k r_on full h =
      event-Served P _ (read_event_handler sys (s + 2) w)
        (read_source-has_event (demo_env sys env (suc fuel)) w
          (subst (λ x. Station s e x (writes code) w.sources w.fd_sources) r_on k.station) 2 refl
          in_set.0 (kernel.is_readable read_fd w full))
        h

  -- Whichever of the sources is served: one of them has an event, and the other is not enabled.
  writes-Turn :
      (P : World → Type 0) (src : Ptr) (w : World) {code : SlaveStateCode}
      → Standing s e code w
      → reads code ≡ false
      → Returned (Served P) (event (s + 3) w)
      → src ≢ null
      → base_of w.memory src ≡ s + 1
      → Returned (Turn P w) (event src w)
  writes-Turn P src w {code} k r_off h ne b = elim (Enlisted-sources k.enlisted ne b) [
    | inl i ↦ no_event P src w ne (rw (i, k.station.read_source, r_off) refl)
    | inr i ↦ rw i (Served-Turn P w _ h)
  ]

  reads-Turn :
      (P : World → Type 0) (src : Ptr) (w : World) {code : SlaveStateCode}
      → Standing s e code w
      → writes code ≡ false
      → Returned (Served P) (event (s + 2) w)
      → src ≢ null
      → base_of w.memory src ≡ s + 1
      → Returned (Turn P w) (event src w)
  reads-Turn P src w {code} k w_off h ne b = elim (Enlisted-sources k.enlisted ne b) [
    | inl i ↦ rw i (Served-Turn P w _ h)
    | inr i ↦ no_event P src w ne (rw (i, k.station.write_source, w_off) refl)
  ]

  -- While its pipe is empty, a slave that is to read waits.
  pub waits-Turn :
      (P : World → Type 0) (src : Ptr) (w : World) {code : SlaveStateCode}
      → Standing s e code w
      → (reads code ≡ true) × (writes code ≡ false)
      → w.pipes (pipe_of read_fd) ≡ []
      → src ≢ null
      → base_of w.memory src ≡ s + 1
      → Returned (Turn P w) (event src w)
  waits-Turn P src w {code} k (r_on, w_off) empty ne b = elim (Enlisted-sources k.enlisted ne b) [
    | inl i ↦ rw i (
        idle-Turn P w _ (
          read_source-is_idle (demo_env sys env (suc fuel)) w
            (subst (λ x. Station s e x (writes code) w.sources w.fd_sources) r_on k.station)
            in_set.0 (kernel.is_not_readable read_fd w empty)))
    | inr i ↦ no_event P src w ne (rw (i, k.station.write_source, w_off) refl)
  ]

  -- The slave sends a message.
  pub Sends-Served :
      (w : World) {code next : SlaveStateCode} {text : List ℕ}
      → Standing s e code w
      → Sends code text next
      → w.pipes (pipe_of write_fd) ≡ []
      → Returned
          (Served
            (λ w'. Standing s e next w' × (w'.pipes ≡ update w.pipes (pipe_of write_fd) text)))
          (event (s + 3) w)
  Sends-Served w {text = text} k t empty =
      let (r_off, w_on, short) = Sends-flags t in
      write-Served _ w k w_on empty (
        write_event_handler-Standing sys quiet fuel w (update w.pipes (pipe_of write_fd) text) k t
          (kernel.writes write_fd text (with_enabled (s + 3) false w) empty short))

  pub Sends-Turn :
      (src : Ptr) (w : World) {code next : SlaveStateCode} {text : List ℕ}
      → Standing s e code w
      → Sends code text next
      → w.pipes (pipe_of write_fd) ≡ []
      → src ≢ null
      → base_of w.memory src ≡ s + 1
      → Returned
          (Turn
            (λ w'. Standing s e next w' × (w'.pipes ≡ update w.pipes (pipe_of write_fd) text))
            w)
          (event src w)
  Sends-Turn src w k t empty ne b =
      writes-Turn _ src w k (Sends-flags t).0 (Sends-Served w k t empty) ne b

  -- The slave receives the message that it waits for.
  pub Receives-Served :
      (w : World) {code next : SlaveStateCode} {text : List ℕ}
      → Standing s e code w
      → Receives code text next
      → w.pipes (pipe_of read_fd) ≡ text
      → Returned
          (Served (λ w'. Standing s e next w' × (w'.pipes ≡ update w.pipes (pipe_of read_fd) [])))
          (event (s + 2) w)
  Receives-Served w {text = text} k t full =
      let (flags, some_text, short) = Receives-flags t in
      read-Served _ w k flags.0 (λ i. some_text (sym full ∙ i))
        (read_event_handler-Standing sys quiet w _ k t
          (kernel.reads read_fd text (with_enabled (s + 2) false w) full some_text short))

  pub Receives-Turn :
      (src : Ptr) (w : World) {code next : SlaveStateCode} {text : List ℕ}
      → Standing s e code w
      → Receives code text next
      → w.pipes (pipe_of read_fd) ≡ text
      → src ≢ null
      → base_of w.memory src ≡ s + 1
      → Returned
          (Turn (λ w'. Standing s e next w' × (w'.pipes ≡ update w.pipes (pipe_of read_fd) [])) w)
          (event src w)
  Receives-Turn src w k t full ne b =
      reads-Turn _ src w k (Receives-flags t).0.1 (Receives-Served w k t full) ne b

  -- With the farewell it leaves its loop.
  pub ends-Served :
      (w : World)
      → Standing s e send_farewell w
      → w.pipes (pipe_of write_fd) ≡ []
      → Returned
          (Served
            (λ w'. HasLeft s null w' × (w'.pipes ≡ update w.pipes (pipe_of write_fd) farewell)))
          (event (s + 3) w)
  ends-Served w k empty = write-Served _ w k refl empty (
      write_event_handler-HasLeft sys quiet fuel w _ k
        (kernel.writes write_fd farewell (with_enabled (s + 3) false w) empty (omega arith)))

  pub ends-Turn :
      (src : Ptr) (w : World)
      → Standing s e send_farewell w
      → w.pipes (pipe_of write_fd) ≡ []
      → src ≢ null
      → base_of w.memory src ≡ s + 1
      → Returned
          (Turn
            (λ w'. HasLeft s null w' × (w'.pipes ≡ update w.pipes (pipe_of write_fd) farewell))
            w)
          (event src w)
  ends-Turn src w k empty ne b = writes-Turn _ src w k refl (ends-Served w k empty) ne b

  -- Once the slave has left its loop, none of its sources is served.
  pub no-Turn :
      (Q : Bool → World → Type 0) (src : Ptr) (w : World)
      → HasLeft s null w
      → src ≢ null
      → base_of w.memory src ≡ s + 1
      → Returned Q (event src w)
  no-Turn Q src w k ne b = absurd (ground (arith, k.group_queue.owned src ne b))
