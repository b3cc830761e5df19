-- ===== src/Conditions/Tests.antt =====
-- A `cce_is_condition` that meets what is documented of it, and the theorems on the conditions of
-- src/ccevents-conditions.c and src/ccevents-core.c with it.
use ccevents.Base.{
  ℕ, zero, suc, ◌≡◌, refl, ◌↔◌, ◌==◌, ◌||◌, subst, Bool, true, false, Bool-cases, inl, inr, Option,
  none, some, arith,
}
use ccevents.Outcome.{timeval_overflow, timeout_overflow}
use ccevents.Conditions.{
  Descriptor, cce_root, descriptor_base, descriptor_timeval, descriptor_timeval_invalid,
  descriptor_timeval_overflow, descriptor_timeout, descriptor_timeout_invalid,
  descriptor_timeout_overflow, at_load, parent,
}
use ccevents.Conditions.Initialisation.{init_times, init_times-at_load}
use ccevents.Conditions.Hierarchy.{Descends, self, step, IsConditionTest, is_kind, is_kind_iff}

abbrev number : Descriptor → ℕ
number cce_root = 0
number descriptor_base = 1
number descriptor_timeval = 2
number descriptor_timeval_invalid = 3
number descriptor_timeval_overflow = 4
number descriptor_timeout = 5
number descriptor_timeout_invalid = 6
number descriptor_timeout_overflow = 7

eq_of_number : (c d : Descriptor) → (number c == number d) ≡ true → c ≡ d
eq_of_number c d h = ground arith

-- Whether there is a parent, and it passes the test.
abbrev holds_above : (Descriptor → Bool) → Option Descriptor → Bool
holds_above test none = false
holds_above test (some e) = test e

-- Whether `d` is `c` or one of the next descriptors above it, `n` in all.
walk : ℕ → (Descriptor → Option Descriptor) → Descriptor → Descriptor → Bool
walk zero up d c = false
walk (suc n) up d c = (number c == number d) || holds_above (λ e. walk n up d e) (up c)

abbrev is_condition : (Descriptor → Option Descriptor) → Descriptor → Descriptor → Bool
is_condition up c d = walk 4 up d c

from_parent :
    (up : Descriptor → Option Descriptor) (d c : Descriptor) (test : Descriptor → Bool)
    → ((e : Descriptor) → test e ≡ true → Descends up d e)
    → (o : Option Descriptor) → up c ≡ o
    → holds_above test o ≡ true
    → Descends up d c
from_parent up d c test rest none q k = cc
from_parent up d c test rest (some e) q k = step q (rest e k)

walk_sound :
    (n : ℕ) (up : Descriptor → Option Descriptor) (d c : Descriptor)
    → walk n up d c ≡ true
    → Descends up d c
unfolding walk
walk_sound zero up d c h = cc
walk_sound (suc n) up d c h = elim (Bool-cases (number c == number d)) [
  | inl e ↦ subst (λ t. Descends up t c) (eq_of_number c d e) self
  | inr e ↦ from_parent up d c (λ t. walk n up d t) (walk_sound n up d) (up c) refl (ground arith)
]

walk_up :
    (c d e : Descriptor)
    → parent at_load c ≡ some e
    → walk 4 (parent at_load) d e ≡ true
    → walk 4 (parent at_load) d c ≡ true
unfolding walk
walk_up cce_root d e q h = cc
walk_up c d e q h = ground arith

walk_complete :
    (d c : Descriptor) → Descends (parent at_load) d c → walk 4 (parent at_load) d c ≡ true
unfolding walk
walk_complete d c self = ground arith
walk_complete d c (step {e} q rest) = walk_up c d e q (walk_complete d e rest)

is_condition-IsConditionTest : IsConditionTest is_condition at_load
is_condition-IsConditionTest = record {
  sound = λ c d h. walk_sound 4 (parent at_load) d c h;
  complete = λ c d h. walk_complete d c h;
}

is_kind_iff_example :
    (is_kind is_condition at_load
        (inl refl)
        is_condition-IsConditionTest
        timeval_overflow
        timeout_overflow
      ≡ true)
    ↔ (timeval_overflow ≡ timeout_overflow)
is_kind_iff_example =
    is_kind_iff is_condition at_load (inl refl) is_condition-IsConditionTest timeval_overflow
      timeout_overflow

init_times-at_load_example :
    ((init_times (some cce_root) 3 at_load).base_parent ≡ none)
    × (init_times (some cce_root) 3 at_load ≡ at_load)
init_times-at_load_example = init_times-at_load (some cce_root) 3
