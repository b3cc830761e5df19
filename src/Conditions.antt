-- ===== src/Conditions.antt =====
-- The exceptional conditions of src/ccevents-conditions.c and the initialisation of the library in
-- src/ccevents-core.c.
pub mod Hierarchy
pub mod Initialisation
mod Tests
use Prim.Native.String.{String}
use ccevents.Base.{ℕ, zero, suc, ◌≡◌, ◌↔◌, Bool, true, false, if◌then◌else◌, Option, none, some}
use ccevents.Outcome.{Raised, timeval_invalid, timeval_overflow, timeout_invalid, timeout_overflow}

-- The condition descriptors of the library, and the root of ccexceptions.
pub data Descriptor : Type 0 where
  cce_root descriptor_base : Descriptor
  descriptor_timeval descriptor_timeval_invalid descriptor_timeval_overflow : Descriptor
  descriptor_timeout descriptor_timeout_invalid descriptor_timeout_overflow : Descriptor

-- The static variables: the parent of `descriptor_base`, and the flag of `ccevents_init`.
pub record Statics : Type 0 where
  pub base_parent : Option Descriptor
  pub initialised : Bool

abbrev pub at_load : Statics
at_load = record { base_parent = none; initialised = false }

-- The `parent` field of each descriptor.
abbrev pub parent : Statics → Descriptor → Option Descriptor
parent s cce_root = none
parent s descriptor_base = s.base_parent
parent s descriptor_timeval = some descriptor_base
parent s descriptor_timeval_invalid = some descriptor_timeval
parent s descriptor_timeval_overflow = some descriptor_timeval
parent s descriptor_timeout = some descriptor_base
parent s descriptor_timeout_invalid = some descriptor_timeout
parent s descriptor_timeout_overflow = some descriptor_timeout

-- The `static_message` of each descriptor of the library.
unfoldable pub static_message : Descriptor → Option String
static_message cce_root = none
static_message descriptor_base = some "CCEvents exceptional condition"
static_message descriptor_timeval = some "timeval exception"
static_message descriptor_timeval_invalid =
    some "timeval fields specification would cause invalid time representation"
static_message descriptor_timeval_overflow =
    some "timeval fields specification would cause overflow in time representation"
static_message descriptor_timeout = some "timeout exception"
static_message descriptor_timeout_invalid =
    some "timeout fields specification would cause invalid time representation"
static_message descriptor_timeout_overflow =
    some "timeout fields specification would cause overflow in time representation"

-- A condition object has a descriptor and nothing else.
pub record Condition : Type 0 where
  pub descriptor : Descriptor

abbrev pub new_timeval : Condition
new_timeval = record { descriptor = descriptor_timeval }

abbrev pub new_timeval_invalid : Condition
new_timeval_invalid = record { descriptor = descriptor_timeval_invalid }

abbrev pub new_timeval_overflow : Condition
new_timeval_overflow = record { descriptor = descriptor_timeval_overflow }

abbrev pub new_timeout : Condition
new_timeout = record { descriptor = descriptor_timeout }

abbrev pub new_timeout_invalid : Condition
new_timeout_invalid = record { descriptor = descriptor_timeout_invalid }

abbrev pub new_timeout_overflow : Condition
new_timeout_overflow = record { descriptor = descriptor_timeout_overflow }

-- The condition object of each `cce_raise` of the timeval and timeout modules.
abbrev pub condition_of : Raised → Condition
condition_of timeval_invalid = new_timeval_invalid
condition_of timeval_overflow = new_timeval_overflow
condition_of timeout_invalid = new_timeout_invalid
condition_of timeout_overflow = new_timeout_overflow

-- `cce_is_condition` of ccexceptions, given the descriptors' parents.
module _ (is_condition : (Descriptor → Option Descriptor) → Descriptor → Descriptor → Bool) where
  unfoldable pub is_base : Statics → Condition → Bool
  is_base s c = is_condition (parent s) c.descriptor descriptor_base

  unfoldable pub is_timeval : Statics → Condition → Bool
  is_timeval s c = is_condition (parent s) c.descriptor descriptor_timeval

  unfoldable pub is_timeval_invalid : Statics → Condition → Bool
  is_timeval_invalid s c = is_condition (parent s) c.descriptor descriptor_timeval_invalid

  unfoldable pub is_timeval_overflow : Statics → Condition → Bool
  is_timeval_overflow s c = is_condition (parent s) c.descriptor descriptor_timeval_overflow

  unfoldable pub is_timeout : Statics → Condition → Bool
  is_timeout s c = is_condition (parent s) c.descriptor descriptor_timeout

  unfoldable pub is_timeout_invalid : Statics → Condition → Bool
  is_timeout_invalid s c = is_condition (parent s) c.descriptor descriptor_timeout_invalid

  unfoldable pub is_timeout_overflow : Statics → Condition → Bool
  is_timeout_overflow s c = is_condition (parent s) c.descriptor descriptor_timeout_overflow

-- `cce_descriptor_set_root_parent` gives the base descriptor the parent `root_parent`.
module _ (root_parent : Option Descriptor) where
  unfoldable pub module_initialisation : Statics → Statics
  module_initialisation s = record s { base_parent = root_parent }

  -- `ccevents_init`
  unfoldable pub library_init : Statics → Statics
  unfolding module_initialisation
  library_init s =
      if s.initialised then record (module_initialisation s) { initialised = true } else s
