-- ===== src/Demo/Dialogue/Events.antt =====
-- One event of a source of a process of demos/processes-communicating-through-pipes.c, through
-- `ccevents_source_do_one_event` of src/ccevents-sources-base.c.
use ccevents.Base.{◌≡◌, ◌≢◌, refl, ℕ, ◌+◌, Bool, true, false, arith, ==_of_ne}
use ccevents.Base.Int.{pos}
use ccevents.Memory.{Ptr, null}
use ccevents.World.{fits, World, Handler, done, and_then, Env, fd_readability, fd_writability}
use ccevents.Source.{
  do_one_event, call_inquirer, in_fd_set, query_fd_readability, query_fd_writability, handle_event,
  handle_by, call_handler,
}
use ccevents.Source.Kinds.{fd_event}
use ccevents.Demo.Station.{Station, Ends}

module _ (env : Env) {s : Ptr} {e : Ends} {b : Bool} (w : World)
    (k : Station s e true b w.sources w.fd_sources) where
  pub read_source-is_idle :
      fits env e.read_fd ≡ true
      → env.select_read e.read_fd w ≡ done (pos 0) w
      → do_one_event env (s + 2) w ≡ done false w
  unfolding call_inquirer in_fd_set query_fd_readability
  read_source-is_idle f h =
      let ne : s + 2 ≢ null = omega arith in
      rw
        (
          fd_event env ne fd_readability w k.read_source (rw k.read_end refl),
          ==_of_ne ne,
          k.read_end,
          f,
          h,
        )
        refl

  pub read_source-has_event :
      (n : ℕ)
      → e.read_handler ≡ Handler.client n
      → fits env e.read_fd ≡ true
      → env.select_read e.read_fd w ≡ done (pos 1) w
      → do_one_event env (s + 2) w ≡ and_then (env.handle n (s + 2) w) (λ _. done true)
  unfolding call_inquirer in_fd_set query_fd_readability handle_event handle_by call_handler
  read_source-has_event n eh f h =
      let ne : s + 2 ≢ null = omega arith in
      rw
        (
          fd_event env ne fd_readability w k.read_source (rw k.read_end refl),
          ==_of_ne ne,
          k.read_end,
          f,
          h,
          ==_of_ne ne,
          k.read_source,
          k.read_end,
          eh,
        )
        refl

module _ (env : Env) {s : Ptr} {e : Ends} {b : Bool} (w : World)
    (k : Station s e b true w.sources w.fd_sources) where
  pub write_source-is_idle :
      fits env e.write_fd ≡ true
      → env.select_write e.write_fd w ≡ done (pos 0) w
      → do_one_event env (s + 3) w ≡ done false w
  unfolding call_inquirer in_fd_set query_fd_writability
  write_source-is_idle f h =
      let ne : s + 3 ≢ null = omega arith in
      rw
        (
          fd_event env ne fd_writability w k.write_source (rw k.write_end refl),
          ==_of_ne ne,
          k.write_end,
          f,
          h,
        )
        refl

  pub write_source-has_event :
      (n : ℕ)
      → e.write_handler ≡ Handler.client n
      → fits env e.write_fd ≡ true
      → env.select_write e.write_fd w ≡ done (pos 1) w
      → do_one_event env (s + 3) w ≡ and_then (env.handle n (s + 3) w) (λ _. done true)
  unfolding call_inquirer in_fd_set query_fd_writability handle_event handle_by call_handler
  write_source-has_event n eh f h =
      let ne : s + 3 ≢ null = omega arith in
      rw
        (
          fd_event env ne fd_writability w k.write_source (rw k.write_end refl),
          ==_of_ne ne,
          k.write_end,
          f,
          h,
          ==_of_ne ne,
          k.write_source,
          k.write_end,
          eh,
        )
        refl
