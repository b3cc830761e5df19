-- ===== src/Conditions/Hierarchy.antt =====
-- Which conditions of src/ccevents-conditions.c are of which kind, by the tests of src/ccevents.h.
use ccevents.Base.{
  ◌≡◌, refl, ◌≢◌, ◌∙◌, subst, ◌⊎◌, ◌↔◌, inl, inr, Bool, true, false, Bool-cases, Option, none, some,
  arith,
}
use ccevents.Outcome.{Raised, timeval_invalid, timeval_overflow, timeout_invalid, timeout_overflow}
use ccevents.Conditions.{
  Descriptor, cce_root, descriptor_timeval, descriptor_timeval_invalid, descriptor_timeval_overflow,
  descriptor_timeout, descriptor_timeout_invalid, descriptor_timeout_overflow, Statics, parent,
  condition_of, is_base, is_timeval, is_timeout, is_timeval_invalid, is_timeval_overflow,
  is_timeout_invalid, is_timeout_overflow,
}

-- `d` is reached from a descriptor by going to parents.
pub data Descends (up : Descriptor → Option Descriptor) (d : Descriptor) : Descriptor → Type 0 where
  self : Descends up d d
  step : {c e : Descriptor} → up c ≡ some e → Descends up d e → Descends up d c

-- What is documented of `cce_is_condition`, for the descriptors as they are.
pub record IsConditionTest
    (is_condition : (Descriptor → Option Descriptor) → Descriptor → Descriptor → Bool) (s : Statics)
    : Type 0 where
  pub sound : (c d : Descriptor) → is_condition (parent s) c d ≡ true → Descends (parent s) d c
  pub complete : (c d : Descriptor) → Descends (parent s) d c → is_condition (parent s) c d ≡ true

-- The conditions that the timeval module is there for, and those of the timeout module.
abbrev pub of_timeval : Raised → Bool
of_timeval timeval_invalid = true
of_timeval timeval_overflow = true
of_timeval timeout_invalid = false
of_timeval timeout_overflow = false

abbrev pub of_timeout : Raised → Bool
of_timeout timeval_invalid = false
of_timeout timeval_overflow = false
of_timeout timeout_invalid = true
of_timeout timeout_overflow = true

-- The base descriptor has no parent yet, or that of all conditions.
abbrev pub IsRooted : Statics → Type 0
IsRooted s = (s.base_parent ≡ none) ⊎ (s.base_parent ≡ some cce_root)

-- A set of descriptors that holds what descends from its members.
abbrev Closed : Statics → (Descriptor → Bool) → Type 0
Closed s set = (c e : Descriptor) → parent s c ≡ some e → set e ≡ true → set c ≡ true

Descends-Closed :
    (s : Statics) (set : Descriptor → Bool)
    → Closed s set
    → {d c : Descriptor} → set d ≡ true
    → Descends (parent s) d c
    → set c ≡ true
Descends-Closed s set closed h self = h
Descends-Closed s set closed h (step {c} {e} q rest) =
    closed c e q (Descends-Closed s set closed h rest)

abbrev timevals : Descriptor → Bool
timevals descriptor_timeval = true
timevals descriptor_timeval_invalid = true
timevals descriptor_timeval_overflow = true
timevals _ = false

abbrev timeouts : Descriptor → Bool
timeouts descriptor_timeout = true
timeouts descriptor_timeout_invalid = true
timeouts descriptor_timeout_overflow = true
timeouts _ = false

timevals-Closed : (s : Statics) → IsRooted s → Closed s timevals
timevals-Closed s r cce_root e q h = cc
timevals-Closed s r c e q h = ground arith

timeouts-Closed : (s : Statics) → IsRooted s → Closed s timeouts
timeouts-Closed s r cce_root e q h = cc
timeouts-Closed s r c e q h = ground arith

-- The descriptor of each raised condition has no descendant but itself.
abbrev only : Raised → Descriptor → Bool
only timeval_invalid descriptor_timeval_invalid = true
only timeval_overflow descriptor_timeval_overflow = true
only timeout_invalid descriptor_timeout_invalid = true
only timeout_overflow descriptor_timeout_overflow = true
only _ _ = false

only-Closed : (s : Statics) (k : Raised) → IsRooted s → Closed s (only k)
only-Closed s timeval_invalid r cce_root e q h = cc
only-Closed s k r c e q h = ground arith

only_self : (k : Raised) → only k (condition_of k).descriptor ≡ true
only_self timeval_invalid = refl
only_self k = ground arith

Raised-discrete : Discrete Raised
Raised-discrete = hlevel

only_other : (k r : Raised) → k ≢ r → only k (condition_of r).descriptor ≡ false
only_other k r ne = ground arith

module _ (is_condition : (Descriptor → Option Descriptor) → Descriptor → Descriptor → Bool)
    (s : Statics) (rooted : IsRooted s) (test : IsConditionTest is_condition s) where
  refused :
      (set : Descriptor → Bool)
      → Closed s set
      → (c d : Descriptor) → set d ≡ true
      → set c ≡ false
      → is_condition (parent s) c d ≡ false
  refused set closed c d hd hc = elim (Bool-cases (is_condition (parent s) c d)) [
    | inl e ↦ absurd (ground (arith, Descends-Closed s set closed hd (test.sound c d e)))
    | inr e ↦ e
  ]

  is_base-condition_of : (r : Raised) → is_base is_condition s (condition_of r) ≡ true
  unfolding is_base
  is_base-condition_of timeval_invalid = test.complete _ _ (step refl (step refl self))
  is_base-condition_of timeval_overflow = test.complete _ _ (step refl (step refl self))
  is_base-condition_of timeout_invalid = test.complete _ _ (step refl (step refl self))
  is_base-condition_of timeout_overflow = test.complete _ _ (step refl (step refl self))

  is_timeval-condition_of : (r : Raised) → is_timeval is_condition s (condition_of r) ≡ of_timeval r
  unfolding is_timeval
  is_timeval-condition_of timeval_invalid = test.complete _ _ (step refl self)
  is_timeval-condition_of timeval_overflow = test.complete _ _ (step refl self)
  is_timeval-condition_of timeout_invalid =
      refused timevals (timevals-Closed s rooted) _ _ refl refl
  is_timeval-condition_of timeout_overflow =
      refused timevals (timevals-Closed s rooted) _ _ refl refl

  is_timeout-condition_of : (r : Raised) → is_timeout is_condition s (condition_of r) ≡ of_timeout r
  unfolding is_timeout
  is_timeout-condition_of timeval_invalid =
      refused timeouts (timeouts-Closed s rooted) _ _ refl refl
  is_timeout-condition_of timeval_overflow =
      refused timeouts (timeouts-Closed s rooted) _ _ refl refl
  is_timeout-condition_of timeout_invalid = test.complete _ _ (step refl self)
  is_timeout-condition_of timeout_overflow = test.complete _ _ (step refl self)

  -- For a `cce_is_condition` that follows the parents, and a base descriptor with no parent or the
  -- root for one, every condition that the library raises is a base condition; it is a timeval
  -- condition exactly if it is one of the timeval module, and a timeout condition exactly if it is
  -- one of the timeout module.
  pub tests-condition_of :
      (r : Raised)
      → (is_base is_condition s (condition_of r) ≡ true)
        × (is_timeval is_condition s (condition_of r) ≡ of_timeval r)
        × (is_timeout is_condition s (condition_of r) ≡ of_timeout r)
  tests-condition_of r =
      (is_base-condition_of r, is_timeval-condition_of r, is_timeout-condition_of r)

  -- The test for each kind of condition.
  abbrev pub is_kind : Raised → Raised → Bool
  is_kind timeval_invalid r = is_timeval_invalid is_condition s (condition_of r)
  is_kind timeval_overflow r = is_timeval_overflow is_condition s (condition_of r)
  is_kind timeout_invalid r = is_timeout_invalid is_condition s (condition_of r)
  is_kind timeout_overflow r = is_timeout_overflow is_condition s (condition_of r)

  is_kind_by :
      (k r : Raised)
      → is_kind k r
        ≡ is_condition (parent s) (condition_of r).descriptor (condition_of k).descriptor
  unfolding is_timeval_invalid is_timeval_overflow is_timeout_invalid is_timeout_overflow
  is_kind_by timeval_invalid r = refl
  is_kind_by timeval_overflow r = refl
  is_kind_by timeout_invalid r = refl
  is_kind_by timeout_overflow r = refl

  same_kind : (k : Raised) → is_kind k k ≡ true
  same_kind k = is_kind_by k k ∙ test.complete _ _ self

  other_kind : (k r : Raised) → only k (condition_of r).descriptor ≡ false → is_kind k r ≡ false
  other_kind k r e =
      is_kind_by k r
      ∙ refused (only k) (only-Closed s k rooted) (condition_of r).descriptor
          (condition_of k).descriptor (only_self k) e

  -- For a `cce_is_condition` that follows the parents, and a base descriptor with no parent or the
  -- root for one, the test for a kind of condition holds of the condition of that kind, and of no
  -- other.
  pub is_kind_iff : (k r : Raised) → (is_kind k r ≡ true) ↔ (k ≡ r)
  is_kind_iff k r = elim (Raised-discrete k r) [
    | yes e ↦ (λ _. e, λ _. subst (λ t. is_kind k t ≡ true) e (same_kind k))
    | no ne ↦ (λ h. absurd (ground (arith, other_kind k r (only_other k r ne))), λ e. absurd (ne e))
  ]
