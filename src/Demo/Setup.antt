-- ===== src/Demo/Setup.antt =====
-- The steps that both processes of demos/processes-communicating-through-pipes.c take to set up their
-- event sources, group and loop.
use ccevents.Base.{◌<◌, List, length, ◌≡◌, refl, sym, subst, ◌≢◌, true, false, ◌+◌, [], ◌∷◌, arith}
use ccevents.Memory.{Ptr, null, Memory, update}
use ccevents.Queue.Unlink.{cleared, node_init-ok}
use ccevents.Queue.Init.{emptied, init-ok, Unused, init-Holds}
use ccevents.Queue.Enqueue.{enqueue-Holds}
use ccevents.Queue.Frame.{Spares, Holds-Spares}
use ccevents.Queue.Holds.{Holds, base_of}
use ccevents.Queue.{enqueue, size_mod}
use ccevents.Source.Setup.{initialised, fresh_fd, fd_init-ok, fd_set-ok, set_timeout-ok}
use ccevents.Source.{put_source, put_fd, fd_init, fd_set, set_timeout}
use ccevents.Timeval.{timeval_never}
use ccevents.Group
use ccevents.Group.{put_group, enqueue_source}
use ccevents.Loop
use ccevents.Loop.{put_loop, enqueue_group}
use ccevents.World.{
  World, dummy_timeout, fd_readability, fd_writability, Prog, Returned, ◌>>◌, on_memory, fd_methods,
}
use ccevents.World.Rules.{Returned-and_then, Returned-on_memory}
use ccevents.Demo.Station.{Station, Ends}
use ccevents.Demo.Pair.{with_memory}

module _ (s : Ptr) (e : Ends) (w : World) where
  -- The world after both sources are set up for their file descriptors.
  abbrev sources_ready : World
  sources_ready =
      let w1 : World = put_fd (s + 2) (fresh_fd e.read_fd) (initialised (s + 2) fd_methods w) in
      let w2 : World = put_fd (s + 3) (fresh_fd e.write_fd) (initialised (s + 3) fd_methods w1) in
      let w3 : World =
        put_fd (s + 2)
          (record (w2.fd_sources (s + 2)) {
            event_inquirer = fd_readability;
            event_handler = e.read_handler;
          })
          w2 in
      let w4 : World =
        put_fd (s + 3)
          (record (w3.fd_sources (s + 3)) {
            event_inquirer = fd_writability;
            event_handler = e.write_handler;
          })
          w3 in
      let w5 : World =
        put_source (s + 2)
          (record (w4.sources (s + 2)) {
            expiration_time = timeval_never;
            expiration_handler = dummy_timeout;
          })
          w4 in
      put_source (s + 3)
        (record (w5.sources (s + 3)) {
          expiration_time = timeval_never;
          expiration_handler = dummy_timeout;
        })
        w5

  -- Also the group and the loop.
  abbrev pub ready : World
  ready =
      let v : World = sources_ready in
      put_loop s (record { request_to_leave = false })
        (put_group (s + 1) (record { request_to_leave = false; servicing_attempts_watermark = 2 })
          (with_memory v (emptied (emptied (cleared v.memory (s + 1)) (s + 1)) s)))

  pub setup-ok :
      s ≢ null
      → (k : Prog (Unit {0}))
      → (fd_init (s + 2) e.read_fd
            >> (fd_init (s + 3) e.write_fd
                >> (fd_set (s + 2) fd_readability e.read_handler
                    >> (fd_set (s + 3) fd_writability e.write_handler
                        >> (set_timeout (s + 2) timeval_never dummy_timeout
                            >> (set_timeout (s + 3) timeval_never dummy_timeout
                                >> (Group.init (s + 1) 2 >> (Loop.init s >> k))))))))
          w
        ≡ k ready
  unfolding Group.init Loop.init
  setup-ok ne k =
      rw
        (
          fd_init-ok {src = s + 2} e.read_fd w (omega arith),
          fd_init-ok {src = s + 3} e.write_fd _ (omega arith),
          fd_set-ok {src = s + 2} fd_readability e.read_handler _ (omega arith),
          fd_set-ok {src = s + 3} fd_writability e.write_handler _ (omega arith),
          set_timeout-ok {src = s + 2} timeval_never dummy_timeout _ (omega arith),
          set_timeout-ok {src = s + 3} timeval_never dummy_timeout _ (omega arith),
          node_init-ok _ {n = s + 1} (omega arith),
          init-ok _ {q = s + 1} (omega arith),
          init-ok _ {q = s} ne,
        )
        refl

  pub Station-ready : Station s e true true ready.sources ready.fd_sources
  unfolding update
  Station-ready = record {
    read_source = ground arith;
    write_source = ground arith;
    read_end = ground arith;
    write_end = ground arith;
  }

-- Two empty queues, and three nodes in no queue.
pub record Blank (s : Ptr) (h : Memory) : Type 0 where
  pub loop_queue : Holds h s []
  pub group_queue : Holds h (s + 1) []
  pub grp_free : base_of h (s + 1) ≡ null
  pub read_source_free : base_of h (s + 2) ≡ null
  pub write_source_free : base_of h (s + 3) ≡ null

-- No node says that it is in the queues of the loop and of the group before they are initialised.
abbrev pub Vacant : Ptr → World → Type 0
Vacant s w = Unused w.memory s × Unused w.memory (s + 1)

pub Blank-ready :
    (s : Ptr) (e : Ends) (w : World) → s ≢ null → Vacant s w → Blank s (ready s e w).memory
unfolding update
Blank-ready s e w ne (u, u') =
    let h = cleared (cleared (cleared w.memory (s + 2)) (s + 3)) (s + 1) in
    let a = init-Holds h {q = s + 1} (omega arith) (λ p pn i. ground (arith, u' p pn)) in
    let b = init-Holds (emptied h (s + 1)) {q = s} ne (λ p pn i. ground (arith, u p pn)) in
    record {
      loop_queue = b.0;
      group_queue = Holds-Spares b.1 a.0 (omega arith) (λ p i. ground arith);
      grp_free = ground arith;
      read_source_free = ground arith;
      write_source_free = ground arith;
    }

enqueue_then :
    (Q : Unit {0} → World → Type 0) (f : Prog (Unit {0})) (w : World) {q new : Ptr} (xs : List Ptr)
    → new ≢ null
    → base_of w.memory new ≡ null
    → Holds w.memory q xs
    → length xs + 1 < size_mod
    → ((h : Memory)
        → Holds h q (new ∷ xs)
        → Spares w.memory h q (new ∷ xs)
        → Returned Q (f (with_memory w h)))
    → Returned Q ((on_memory (enqueue q new) >> f) w)
enqueue_then Q f w {q} {new} xs ne b k l go =
    Returned-and_then _ Q (on_memory (enqueue q new) w) (λ _. f)
      (Returned-on_memory _ (enqueue q new) w (enqueue-Holds ne b xs k l))
      λ _ w' (h, d, e). subst (λ v. Returned Q (f v)) (sym e) (go h d.0 d.1)

-- The sources are enqueued in the group, and the group in the loop.
pub enlisted-Returned :
    (Q : Unit {0} → World → Type 0) (f : Prog (Unit {0})) (s : Ptr) (w : World)
    → s ≢ null
    → Blank s w.memory
    → ((h : Memory)
        → Holds h s ((s + 1) ∷ [])
        → Holds h (s + 1) ((s + 3) ∷ (s + 2) ∷ [])
        → Returned Q (f (with_memory w h)))
    → Returned Q (
        (enqueue_source (s + 1) (s + 2)
            >> (enqueue_source (s + 1) (s + 3) >> (enqueue_group s (s + 1) >> f)))
          w)
unfolding enqueue_source enqueue_group
enlisted-Returned Q f s w ne b go =
    enqueue_then Q _ w [] (omega arith) b.read_source_free b.group_queue (omega arith) λ h1 k1 s1.
      enqueue_then Q _ (with_memory w h1) ((s + 2) ∷ []) (omega arith)
        (ground (arith, s1.nodes (s + 3), b.write_source_free)) k1 (omega arith)
        λ h2 k2 s2.
          enqueue_then Q f (with_memory w h2) [] (omega arith)
            (ground (arith, s2.nodes (s + 1), s1.nodes (s + 1), b.grp_free))
            (Holds-Spares s2
              (Holds-Spares s1 b.loop_queue (omega arith)
                (λ p i. ground (arith, b.read_source_free)))
              (omega arith)
              (λ p i. ground (arith, s1.nodes (s + 3), b.write_source_free, k1.members p)))
            (omega arith)
            λ h3 k3 s3. go h3 k3 (
              Holds-Spares s3 k2 (omega arith)
                (λ p i. ground (arith, s2.nodes (s + 1), s1.nodes (s + 1), b.grp_free)))
