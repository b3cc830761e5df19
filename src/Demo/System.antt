-- ===== src/Demo/System.antt =====
-- What demos/processes-communicating-through-pipes.c calls and neither it nor the library defines: the
-- system calls, and ccexceptions, whose locations run the handlers that were registered to them.
use ccevents.Base.{◌≡◌, ℕ, zero, suc, ◌==◌, if◌then◌else◌, Bool, true, false, List, [], ◌∷◌}
use ccevents.Base.Int.{ℤ}
use ccevents.Memory.{Ptr}
use ccevents.World.{World, Result, done, raised, fault, out_of_fuel, Prog, Returned, ◌>>◌}

-- A handler that is registered to a location, as a cleanup handler or as an error handler.
pub data CceHandler : Type 0 where
  cleanup error : Prog (Unit {0}) → CceHandler

-- Both ends of a pipe, the readable one first.
pub record Pipedes : Type 0 where
  pub readable : ℤ
  pub writable : ℤ

pub record System : Type 0 where
  pub sys_read : ℤ → ℕ → Prog (List ℕ)
  -- The bytes from the given address on, up to the number asked for.
  pub sys_write : ℤ → List ℕ → Prog ℕ
  pub close : ℤ → World → World
  pub sys_pipe : Prog Pipedes
  pub sys_fork : Prog ℕ
  -- Whether the process exited by itself, and its exit status.
  pub sys_waitpid : ℕ → Prog (Bool × ℕ)
  pub filedes_handler : ℤ → Prog (Unit {0})
  pub pipedes_handler : Pipedes → Prog (Unit {0})
  -- The handlers that are registered to the location, the last one first.
  pub run_cleanup_handlers : List CceHandler → Prog (Unit {0})
  pub run_error_handlers : List CceHandler → Prog (Unit {0})
  -- `cce_condition` of the location that the last non-local exit went to.
  pub condition : World → Ptr
  pub condition_delete : Ptr → World → World

-- A non-local exit enters the handler, in the state that it left.
abbrev pub or_else : {A : Type 0} → Result A → Prog A → Result A
or_else (done a w) handler = done a w
or_else (raised w) handler = handler w
or_else fault handler = fault
or_else out_of_fuel handler = out_of_fuel

-- `if (cce_location (L)) handler else m`
abbrev pub catch : {A : Type 0} → Prog A → Prog A → Prog A
catch m handler w = or_else (m w) handler

-- What follows a return, and what follows a non-local exit.
abbrev pub either_way : {A B : Type 0} → Result A → Prog B → (A → Prog B) → Result B
either_way (done a w) handler rest = rest a w
either_way (raised w) handler rest = handler w
either_way fault handler rest = fault
either_way out_of_fuel handler rest = out_of_fuel

-- The part `m` of the scope of a location, up to the registration of a handler, and the rest of it.
abbrev pub scope : {A B : Type 0} → Prog A → Prog B → (A → Prog B) → Prog B
scope m handler rest w = either_way (m w) handler rest

-- `assert (test)`
abbrev pub assert : Bool → Prog (Unit {0})
assert test w = if test then done tt w else fault

-- A `char` array from an address on; past its end a string is terminated.
abbrev pub char_at : List ℕ → ℕ
char_at [] = 0
char_at (c ∷ cs) = c

abbrev pub next_char : List ℕ → List ℕ
next_char [] = []
next_char (c ∷ cs) = cs

-- `0 == strncmp (a, b, n)`
unfoldable pub same_prefix : (n : ℕ) (a b : List ℕ) → Bool
same_prefix zero a b = true
same_prefix (suc n) a b =
    let rest = same_prefix n (next_char a) (next_char b) in
    if char_at a == char_at b then (if char_at a == 0 then true else rest) else false

-- From the `n`th element on.
unfoldable pub drop : ℕ → List ℕ → List ℕ
drop zero xs = xs
drop (suc n) [] = []
drop (suc n) (x ∷ xs) = drop n xs

-- "hello\n" and "quit\n", which both processes have as static strings.
abbrev pub greetings : List ℕ
greetings = 104 ∷ 101 ∷ 108 ∷ 108 ∷ 111 ∷ 10 ∷ []

abbrev pub farewell : List ℕ
farewell = 113 ∷ 117 ∷ 105 ∷ 116 ∷ 10 ∷ []

-- The size of the buffer that a message is read into.
abbrev pub buf_size : ℕ
buf_size = 10

-- With nothing registered there is nothing to run.
pub record Unregistered (sys : System) : Type 0 where
  pub on_success : (w : World) → sys.run_cleanup_handlers [] w ≡ done tt w
  pub on_error : (w : World) → sys.run_error_handlers [] w ≡ done tt w

pub Returned-either_way :
    {A B : Type 0} (P : A → World → Type 0) (Q : B → World → Type 0) (r : Result A)
    (handler : Prog B) (rest : A → Prog B)
    → Returned P r
    → ((a : A) (w : World) → P a w → Returned Q (rest a w))
    → Returned Q (either_way r handler rest)
Returned-either_way P Q (done a w) handler rest k f = f a w k
Returned-either_way P Q (raised w) handler rest k f = absurd k
Returned-either_way P Q fault handler rest k f = k
Returned-either_way P Q out_of_fuel handler rest k f = k

pub Returned-or_else :
    {A : Type 0} (Q : A → World → Type 0) (r : Result A) (handler : Prog A)
    → Returned Q r
    → Returned Q (or_else r handler)
Returned-or_else Q (done a w) handler k = k
Returned-or_else Q (raised w) handler k = absurd k
Returned-or_else Q fault handler k = k
Returned-or_else Q out_of_fuel handler k = k

-- What ccexceptions says of the handlers: the last one that was registered runs first, and error
-- handlers run only after a non-local exit.
pub record RunsHandlers (sys : System) : Type 0 where
  pub nothing : Unregistered sys
  pub cleanup_on_success :
      (h : Prog (Unit {0})) (hs : List CceHandler) (w : World)
      → sys.run_cleanup_handlers (cleanup h ∷ hs) w ≡ (h >> sys.run_cleanup_handlers hs) w
  pub error_on_success :
      (h : Prog (Unit {0})) (hs : List CceHandler) (w : World)
      → sys.run_cleanup_handlers (error h ∷ hs) w ≡ sys.run_cleanup_handlers hs w
  pub error_on_error :
      (h : Prog (Unit {0})) (hs : List CceHandler) (w : World)
      → sys.run_error_handlers (error h ∷ hs) w ≡ (h >> sys.run_error_handlers hs) w
