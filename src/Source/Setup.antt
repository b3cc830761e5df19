-- ===== src/Source/Setup.antt =====
-- What the initialisation and the setters of event sources write: src/ccevents-sources-base.c and
-- src/ccevents-sources-fd.c.
use ccevents.Base.{◌≡◌, refl, ◌≢◌, ==_of_eq, ==_of_ne}
use ccevents.Base.Int.{ℤ}
use ccevents.Memory.{Ptr, null, update}
use ccevents.Queue.Unlink.{cleared, node_init-ok}
use ccevents.Timeval.{Timeval}
use ccevents.World.{
  World, Inquirer, Handler, Etable, fd_methods, fd_default, fd_default_handler, FdSource, done,
}
use ccevents.Source.{init, fresh_source, put_source, put_fd, fd_init, fd_set, set_timeout}

-- The source after `ccevents_source_init`.
abbrev pub initialised : Ptr → Etable → World → World
initialised src e w = put_source src (fresh_source e) (record w { memory = cleared w.memory src })

pub init-ok :
    (src : Ptr) (e : Etable) (w : World) → src ≢ null → init src e w ≡ done tt (initialised src e w)
unfolding init
init-ok src e w ne = rw (node_init-ok w.memory ne) refl

pub update-same : {A : Type 0} (f : Ptr → A) (p : Ptr) (v : A) → update f p v p ≡ v
unfolding update
update-same f p v = rw (==_of_eq {a = p} refl) refl

-- A file descriptor source as `ccevents_fd_source_init` leaves it.
abbrev pub fresh_fd : ℤ → FdSource
fresh_fd fd = record { fd = fd; event_inquirer = fd_default; event_handler = fd_default_handler }

pub fd_init-ok :
    {src : Ptr} (fd : ℤ) (w : World)
    → src ≢ null
    → fd_init src fd w ≡ done tt (put_fd src (fresh_fd fd) (initialised src fd_methods w))
unfolding fd_init
fd_init-ok {src} fd w ne = rw (init-ok src fd_methods w ne) refl

pub fd_set-ok :
    {src : Ptr} (i : Inquirer) (h : Handler) (w : World)
    → src ≢ null
    → fd_set src i h w
      ≡ done tt (put_fd src (record (w.fd_sources src) { event_inquirer = i; event_handler = h }) w)
unfolding fd_set
fd_set-ok i h w ne = rw (==_of_ne ne) refl

pub set_timeout-ok :
    {src : Ptr} (t : Timeval) (h : Handler) (w : World)
    → src ≢ null
    → set_timeout src t h w
      ≡ done tt (
          put_source src (record (w.sources src) { expiration_time = t; expiration_handler = h }) w)
unfolding set_timeout
set_timeout-ok t h w ne = rw (==_of_ne ne) refl
