-- ===== src/Group/Rounds.antt =====
-- The order in which `ccevents_group_enter` of src/ccevents-groups.c serves the sources of a group, and
-- how a request to leave ends it.
use ccevents.Base.{
  ◌≢◌, ==_of_ne, subst, ℕ, zero, suc, ◌+◌, ◌%◌, ◌≤◌, ◌<◌, ◌≡◌, refl, ◌∙◌, Bool, true, false,
  ltb_of_<, ltb_of_≤, arith, List, [], ◌∷◌, ◌++◌, length, has, ap, sym, has-append, ==_of_eq, suc_+,
  ◌||◌,
}
use mathlib.Core.Path.{ap₂}
use mathlib.Core.List.{append_assoc, append-nil}
use ccevents.Memory.{Ptr, null, Memory}
use ccevents.Queue
use ccevents.Queue.{size_mod}
use ccevents.Queue.Holds.{Holds}
use ccevents.Queue.Frame.{Spares}
use ccevents.Queue.Advance.{rotated, advance_current-Holds}
use ccevents.Queue.Inspect.{is_cons}
use ccevents.World.{World, done, Prog, and_then, on_memory, Returned, ◌>>◌, return, Env}
use ccevents.World.Rules.{and_then_assoc, and_then-cong, Returned-weaken, Returned-on_memory}
use ccevents.Group.{put_group, set_request, service, enter_loop, enter}
use ccevents.Group.Enter.{is_free, wants_more, enter_loop-stops, enter_loop-round}

-- The first `n` of the elements, over and over.
abbrev pub schedule : ℕ → List Ptr → List Ptr
schedule zero xs = []
schedule (suc n) [] = []
schedule (suc n) (x ∷ xs) = x ∷ schedule n (xs ++ x ∷ [])

schedule-append :
    (n : ℕ) (xs ys : List Ptr) → schedule (length xs + n) (xs ++ ys) ≡ xs ++ schedule n (ys ++ xs)
schedule-append n [] ys = ap₂ schedule (omega arith) (sym (append-nil ys))
schedule-append n (x ∷ xs) ys =
    ap (λ m. schedule m (x ∷ xs ++ ys)) (suc_+ (length xs) n)
    ∙ ap (λ zs. x ∷ zs)
        (ap (schedule (length xs + n)) (append_assoc xs ys (x ∷ []))
          ∙ schedule-append n xs (ys ++ x ∷ [])
          ∙ ap (λ zs. xs ++ schedule n zs) (append_assoc ys (x ∷ []) xs))

-- A turn serves every element once, in order.
pub schedule-turn : (n : ℕ) (xs : List Ptr) → schedule (length xs + n) xs ≡ xs ++ schedule n xs
schedule-turn n xs = ap (schedule (length xs + n)) (sym (append-nil xs)) ∙ schedule-append n xs []

or-true : (b : Bool) → (b || true) ≡ true
or-true true = refl
or-true false = refl

pub has-end : (x : Ptr) (xs : List Ptr) → has x (xs ++ x ∷ []) ≡ true
has-end x xs = rw (has-append x xs (x ∷ []), ==_of_eq {a = x} refl) (or-true (has x xs))

pub is_cons-end : (x : Ptr) (xs : List Ptr) → is_cons (xs ++ x ∷ []) ≡ true
is_cons-end x [] = refl
is_cons-end x (y ∷ ys) = refl

-- One event of each source, the group's queue advanced before each.
abbrev pub serve_each : Env → Ptr → List Ptr → Prog (Unit {0})
serve_each env grp [] = return tt
serve_each env grp (x ∷ xs) =
    on_memory (Queue.advance_current grp) >> (service env x >> serve_each env grp xs)

-- The group holds `xs`, may go on and has the watermark `top`.
pub record IsCalm (grp : Ptr) (top : ℕ) (xs : List Ptr) (w : World) : Type 0 where
  pub order : Holds w.memory grp xs
  pub free : is_free grp w ≡ true
  pub watermark : (w.groups grp).servicing_attempts_watermark ≡ top

-- A calm group whose sources, as long as `E` holds, leave it calm, with the same sources in the same
-- order, and keep `E`, which does not depend on which source is the current one.
pub record Undisturbed (env : Env) (E : World → Type 0) (grp : Ptr) (top : ℕ) : Type 0 where
  pub moved :
      (xs : List Ptr) (w : World) (h : Memory)
      → Holds w.memory grp xs
      → Holds h grp (rotated xs)
      → Spares w.memory h grp []
      → E w
      → E (record w { memory = h })
  pub serve :
      (x : Ptr) (xs : List Ptr) (w : World)
      → has x xs ≡ true
      → IsCalm grp top xs w
      → E w
      → Returned (λ _ w'. IsCalm grp top xs w' × E w') (service env x w)

-- The request to leave taken back.
abbrev pub unasked : Ptr → World → World
unasked grp w = put_group grp (record (w.groups grp) { request_to_leave = false }) w

set_request-unasked :
    (grp : Ptr) (w : World) → grp ≢ null → set_request grp false w ≡ done tt (unasked grp w)
unfolding set_request
set_request-unasked grp w ne = rw (==_of_ne ne) refl

module _ (env : Env) {E : World → Type 0} {grp : Ptr} {top : ℕ} (t : top < size_mod)
    (u : Undisturbed env E grp top) where
  advance-IsCalm :
      (xs : List Ptr) (w : World)
      → IsCalm grp top xs w
      → E w
      → Returned
          (λ _ w'. IsCalm grp top (rotated xs) w' × E w')
          (on_memory (Queue.advance_current grp) w)
  advance-IsCalm xs w c e =
      Returned-weaken _ _ (on_memory (Queue.advance_current grp) w)
        (Returned-on_memory _ (Queue.advance_current grp) w (advance_current-Holds xs c.order))
        λ a w' (h, k, q).
          subst (λ w'. IsCalm grp top (rotated xs) w' × E w') (sym q)
            (
              record {
                order = k.0;
                free =
                    ap (λ n. is_free grp (record w { memory = record w.memory { nodes = λ p. n } }))
                      (k.1.nodes grp refl)
                    ∙ c.free;
                watermark = c.watermark;
              },
              u.moved xs w h c.order k.0 k.1 e,
            )

  stops :
      (x : Ptr) (xs : List Ptr) (count : ℕ) (w : World)
      → IsCalm grp top (x ∷ xs) w
      → top ≤ count
      → wants_more grp count (x ∷ xs) w ≡ false
  stops x xs count w k l = rw (k.free, k.watermark) (ltb_of_≤ l)

  goes :
      (x : Ptr) (xs : List Ptr) (count : ℕ) (w : World)
      → IsCalm grp top (x ∷ xs) w
      → count < top
      → wants_more grp count (x ∷ xs) w ≡ true
  goes x xs count w k l = rw (k.free, k.watermark) (ltb_of_< l)

  enter_loop-schedule :
      (n fuel count : ℕ) (xs : List Ptr) (w : World)
      → is_cons xs ≡ true
      → IsCalm grp top xs w × E w
      → count + n ≡ top
      → n < fuel
      → enter_loop env fuel grp count w ≡ serve_each env grp (schedule n xs) w
  enter_loop-schedule n zero count xs w c k e l = absurd (omega arith)
  enter_loop-schedule n (suc fuel) count [] w c k e l = cc
  enter_loop-schedule zero (suc fuel) count (x ∷ xs) w c k e l =
      enter_loop-stops env fuel count w k.0.order (stops x xs count w k.0 (omega arith))
  enter_loop-schedule (suc n) (suc fuel) count (x ∷ xs) w c k e l =
      enter_loop-round env fuel count w k.0.order (goes x xs count w k.0 (omega arith))
      ∙ and_then-cong (λ _ w'. IsCalm grp top (xs ++ x ∷ []) w' × E w') _ _ _
          (advance-IsCalm (x ∷ xs) w k.0 k.1)
          λ a w1 k1.
            and_then-cong (λ _ w'. IsCalm grp top (xs ++ x ∷ []) w' × E w') (service env x w1) _ _
              (u.serve x (xs ++ x ∷ []) w1 (has-end x xs) k1.0 k1.1)
              λ b w2 k2.
                enter_loop-schedule n fuel ((count + 1) % size_mod) (xs ++ x ∷ []) w2
                  (is_cons-end x xs) k2 (omega arith) (omega arith)

  -- Such a group serves its sources in turn, from the current one on, and stops when
  -- it has tried as many as its watermark says.
  pub enter-schedule :
      (fuel : ℕ) (xs : List Ptr) (w : World)
      → is_cons xs ≡ true
      → top < fuel
      → IsCalm grp top xs (unasked grp w)
      → E (unasked grp w)
      → enter env fuel grp w
        ≡ (set_request grp false >> (serve_each env grp (schedule top xs) >> set_request grp false))
            w
  unfolding enter
  enter-schedule fuel xs w c l k e = rw (set_request-unasked grp w k.order.queue_ne) (
      ap (λ r. and_then r (λ _. set_request grp false))
        (enter_loop-schedule top fuel 0 xs (unasked grp w) c (k, e) (omega arith) l))

  -- Let the sources of a group leave its queue, its watermark and the requests to leave alone, let
  -- there be a source, let the watermark be `n` more than the number of sources and below 2 ^ 64,
  -- and let the loop of the group not be asked to leave. Then entering the group with more fuel
  -- than the watermark serves every source once, in order, from the current one on, and then the
  -- first `n` events of the next turns.
  pub enter-turn :
      (fuel n : ℕ) (xs : List Ptr) (w : World)
      → is_cons xs ≡ true
      → top ≡ length xs + n
      → top < fuel
      → IsCalm grp top xs (unasked grp w)
      → E (unasked grp w)
      → enter env fuel grp w
        ≡ (set_request grp false
              >> (serve_each env grp (xs ++ schedule n xs) >> set_request grp false))
            w
  enter-turn fuel n xs w c m l k e =
      enter-schedule fuel xs w c l k e
      ∙ ap (λ ys. (set_request grp false >> (serve_each env grp ys >> set_request grp false)) w)
          (ap (λ m. schedule m xs) m ∙ schedule-turn n xs)

-- If a group goes on, and it or its loop is asked to leave during the event of its current source,
-- it ends after this event, in the world that the event left, whose queue is well-formed, however
-- many sources and attempts remain.
pub enter_loop-leaves :
    (env : Env) {grp x : Ptr} {xs ys : List Ptr} (fuel count : ℕ) (w w' : World)
    → Holds w.memory grp (x ∷ xs)
    → wants_more grp count (x ∷ xs) w ≡ true
    → (on_memory (Queue.advance_current grp) >> service env x) w ≡ done tt w'
    → Holds w'.memory grp ys
    → is_free grp w' ≡ false
    → enter_loop env (suc (suc fuel)) grp count w ≡ done tt w'
enter_loop-leaves env {grp} {x} fuel count w w' k g e k' f =
    enter_loop-round env (suc fuel) count w k g
    ∙ sym (and_then_assoc (on_memory (Queue.advance_current grp) w) _ _)
    ∙ ap (λ r. and_then r (λ _. enter_loop env (suc fuel) grp ((count + 1) % size_mod))) e
    ∙ enter_loop-stops env fuel ((count + 1) % size_mod) w' k' (rw f refl)
