-- ===== src/World/Rules.antt =====
-- Rules for programs over the shared state of src/ccevents.h, and what a client's callbacks keep.
use ccevents.Base.{Option, none, some, true, ℕ, suc, ◌<◌, ◌≡◌, refl, ◌≢◌, ==_of_ne}
use ccevents.Base.Int.{ℤ}
use ccevents.Memory.{Ptr, null, update, Memory, Cmd, Returns}
use ccevents.World.{
  on_memory, from_memory, World, Returned, Result, done, raised, fault, out_of_fuel, Prog, and_then,
  at, Env, Inquirer, Handler, Etable, fd_methods, task_methods, timer_methods, signal_methods,
  client_methods, dummy_true, dummy_false, fd_default, fd_readability, fd_writability, fd_exception,
  dummy_handler, dummy_timeout, fd_default_handler, fits,
}

-- The call returns or exits to its location, with no fault and within its fuel, and leaves a world
-- with the property.
abbrev pub Keeps : {A : Type 0} → (World → Type 0) → Result A → Type 0
Keeps I (done a w) = I w
Keeps I (raised w) = I w
Keeps I fault = ⊥
Keeps I out_of_fuel = ⊥

pub Keeps-and_then :
    {A B : Type 0} (I : World → Type 0) (r : Result A) (f : A → Prog B)
    → Keeps I r
    → ((a : A) (w : World) → I w → Keeps I (f a w))
    → Keeps I (and_then r f)
Keeps-and_then I (done a w) f k g = g a w k
Keeps-and_then I (raised w) f k g = k
Keeps-and_then I fault f k g = k
Keeps-and_then I out_of_fuel f k g = k

pub at-ok : {A : Type 0} {p : Ptr} (m : Prog A) (w : World) → p ≢ null → at p m w ≡ m w
at-ok m w ne = rw (==_of_ne ne)

-- The inquirer can be called: it is set, and if it looks at a descriptor, this one fits into an `fd_set`.
abbrev pub CanInquire : Env → ℤ → Inquirer → Type 0
CanInquire env fd Inquirer.not_set = ⊥
CanInquire env fd dummy_true = Unit
CanInquire env fd dummy_false = Unit
CanInquire env fd fd_default = Unit
CanInquire env fd fd_readability = fits env fd ≡ true
CanInquire env fd fd_writability = fits env fd ≡ true
CanInquire env fd fd_exception = fits env fd ≡ true
CanInquire env fd (Inquirer.client k) = Unit

abbrev pub CanHandle : Handler → Type 0
CanHandle Handler.not_set = ⊥
CanHandle dummy_handler = Unit
CanHandle dummy_timeout = Unit
CanHandle fd_default_handler = Unit
CanHandle (Handler.client k) = Unit

-- What the methods of a source at `p` call and read is set up.
abbrev pub HasMethods : Env → World → Ptr → Etable → Type 0
HasMethods env w p fd_methods =
    CanInquire env (w.fd_sources p).fd (w.fd_sources p).event_inquirer
    × CanHandle (w.fd_sources p).event_handler
HasMethods env w p task_methods =
    CanInquire env (w.fd_sources p).fd (w.task_sources p).event_inquirer
    × CanHandle (w.task_sources p).event_handler
HasMethods env w p timer_methods = Unit
HasMethods env w p signal_methods =
    ((w.signal_sources p).signum < env.nsig) × CanHandle (w.signal_sources p).event_handler
HasMethods env w p (client_methods inquirer handler) =
    CanInquire env (w.fd_sources p).fd inquirer × CanHandle handler

abbrev pub IsSetUp : Env → World → Ptr → Type 0
IsSetUp env w p =
    HasMethods env w p (w.sources p).etable × CanHandle (w.sources p).expiration_handler

-- What the library asks of the functions that it calls: from a world with the property they return or
-- exit to their location, and the property holds again. It does not depend on the clock or on cleared
-- flags, and what a source of its kind calls and reads is set up.
pub record Contract (env : Env) (I : World → Type 0) : Type 0 where
  pub inquires : (k : ℕ) (p : Ptr) (w : World) → I w → Keeps I (env.inquire k p w)
  pub handles : (k : ℕ) (p : Ptr) (w : World) → I w → Keeps I (env.handle k p w)
  pub reads : (fd : ℤ) (w : World) → I w → Keeps I (env.select_read fd w)
  pub writes : (fd : ℤ) (w : World) → I w → Keeps I (env.select_write fd w)
  pub excepts : (fd : ℤ) (w : World) → I w → Keeps I (env.select_except fd w)
  pub on_error : (w : World) → I w → I (env.run_error_handlers_final w)
  pub on_success : (w : World) → I w → I (env.run_cleanup_handlers w)
  pub clock : (w : World) → I w → I (record w { clock_reads = suc w.clock_reads })
  pub cleared :
      (w : World) (s : ℕ) → I w → I (record w { arrived_signals = update w.arrived_signals s 0 })
  pub set_up : (w : World) (p : Ptr) → I w → IsSetUp env w p

pub Keeps-at :
    {A : Type 0} (I : World → Type 0) {p : Ptr} (m : Prog A) (w : World)
    → p ≢ null
    → Keeps I (m w)
    → Keeps I (at p m w)
Keeps-at I m w ne k = rw (==_of_ne ne) k

pub Returned-and_then :
    {A B : Type 0} (P : A → World → Type 0) (Q : B → World → Type 0) (r : Result A) (f : A → Prog B)
    → Returned P r
    → ((a : A) (w : World) → P a w → Returned Q (f a w))
    → Returned Q (and_then r f)
Returned-and_then P Q (done a w) f k g = g a w k
Returned-and_then P Q (raised w) f k g = k
Returned-and_then P Q fault f k g = k
Returned-and_then P Q out_of_fuel f k g = k

pub and_then_assoc :
    {A B C : Type 0} (r : Result A) (f : A → Prog B) (g : B → Prog C)
    → and_then (and_then r f) g ≡ and_then r (λ a w. and_then (f a w) g)
and_then_assoc (done a w) f g = refl
and_then_assoc (raised w) f g = refl
and_then_assoc fault f g = refl
and_then_assoc out_of_fuel f g = refl

-- Two continuations that agree on what a call returns.
pub and_then-cong :
    {A B : Type 0} (P : A → World → Type 0) (r : Result A) (f g : A → Prog B)
    → Returned P r
    → ((a : A) (w : World) → P a w → f a w ≡ g a w)
    → and_then r f ≡ and_then r g
and_then-cong P (done a w) f g k e = e a w k
and_then-cong P (raised w) f g k e = refl
and_then-cong P fault f g k e = refl
and_then-cong P out_of_fuel f g k e = refl

pub Returned-weaken :
    {A : Type 0} (P Q : A → World → Type 0) (r : Result A)
    → Returned P r
    → ((a : A) (w : World) → P a w → Q a w)
    → Returned Q r
Returned-weaken P Q (done a w) k f = f a w k
Returned-weaken P Q (raised w) k f = k
Returned-weaken P Q fault k f = k
Returned-weaken P Q out_of_fuel k f = k

-- The call returns with the property or is cut off: no fault, and no exit to a location.
abbrev pub IsSafe : {A : Type 0} → (World → Type 0) → Result A → Type 0
IsSafe I (done a w) = I w
IsSafe I (raised w) = ⊥
IsSafe I fault = ⊥
IsSafe I out_of_fuel = Unit

pub IsSafe-and_then :
    {A B : Type 0} (P : A → World → Type 0) (I : World → Type 0) (r : Result A) (f : A → Prog B)
    → Returned P r
    → ((a : A) (w : World) → P a w → IsSafe I (f a w))
    → IsSafe I (and_then r f)
IsSafe-and_then P I (done a w) f k g = g a w k
IsSafe-and_then P I (raised w) f k g = k
IsSafe-and_then P I fault f k g = k
IsSafe-and_then P I out_of_fuel f k g = tt

pub IsSafe-then :
    {A B : Type 0} (I J : World → Type 0) (r : Result A) (f : A → Prog B)
    → IsSafe I r
    → ((a : A) (w : World) → I w → IsSafe J (f a w))
    → IsSafe J (and_then r f)
IsSafe-then I J (done a w) f k g = g a w k
IsSafe-then I J (raised w) f k g = k
IsSafe-then I J fault f k g = k
IsSafe-then I J out_of_fuel f k g = tt

pub out_of_fuel-and_then :
    {A B : Type 0} (P : A → World → Type 0) (r : Result A) (f : A → Prog B)
    → Returned P r
    → ((a : A) (w : World) → P a w → f a w ≡ out_of_fuel)
    → and_then r f ≡ out_of_fuel
out_of_fuel-and_then P (done a w) f k g = g a w k
out_of_fuel-and_then P (raised w) f k g = absurd k
out_of_fuel-and_then P fault f k g = absurd k
out_of_fuel-and_then P out_of_fuel f k g = refl

pub IsSafe-Returned :
    {A : Type 0} (I : World → Type 0) (r : Result A) → Returned (λ _. I) r → IsSafe I r
IsSafe-Returned I (done a w) k = k
IsSafe-Returned I (raised w) k = k
IsSafe-Returned I fault k = k
IsSafe-Returned I out_of_fuel k = tt

-- A queue command in the world changes the memory only.
pub Returned-on_memory :
    {A : Type 0} (P : A → Memory → Type 0) (c : Cmd A) (w : World)
    → Returns P (c w.memory)
    → Returned (λ a w'. (h : Memory) × P a h × (w' ≡ record w { memory = h })) (on_memory c w)
Returned-on_memory {A} P c w k = go (c w.memory) k
  where
    go :
        (r : Option (A × Memory))
        → Returns P r
        → Returned (λ a w'. (h : Memory) × P a h × (w' ≡ record w { memory = h })) (from_memory w r)
    go none e = e
    go (some (a, h)) e = (h, e, refl)
