-- ===== src/Demo/Dialogue/Turn.antt =====
-- The two outcomes of one event of a source in the dialogue of
-- demos/processes-communicating-through-pipes.c.
use ccevents.Base.{◌≡◌, ◌≢◌, List, [], ◌∷◌, refl, sym, subst, Bool, true, false}
use ccevents.World.{World, Result, Returned, done, and_then}
use ccevents.World.Rules.{Returned-and_then, Returned-weaken}

-- A served event leads to a world with the property, and no event changes nothing.
abbrev pub Turn : (World → Type 0) → World → Bool → World → Type 0
Turn P w true w' = P w'
Turn P w false w' = w' ≡ w

pub idle-Turn :
    (P : World → Type 0) (w : World) (r : Result Bool) → r ≡ done false w → Returned (Turn P w) r
idle-Turn P w r e = rw e refl

-- A served event, with the property of the world that it leads to.
abbrev pub Served : (World → Type 0) → Bool → World → Type 0
Served P served w' = (served ≡ true) × P w'

pub event-Served :
    (P : World → Type 0) (r : Result Bool) (m : Result (Unit {0}))
    → r ≡ and_then m (λ _. done true)
    → Returned (λ _. P) m
    → Returned (Served P) r
event-Served P r m e k =
    rw e (Returned-and_then (λ _. P) (Served P) m (λ _. done true) k λ _ w' p. (refl, p))

pub Served-Turn :
    (P : World → Type 0) (w : World) (r : Result Bool)
    → Returned (Served P) r
    → Returned (Turn P w) r
Served-Turn P w r k =
    Returned-weaken (Served P) (Turn P w) r k
      λ served w' (e, p). subst (λ b. Turn P w b w') (sym e) p

pub cons-ne-nil : {A : Type 0} {a : A} {xs : List A} → a ∷ xs ≢ []
cons-ne-nil e = cc
