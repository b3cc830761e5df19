-- ===== src/Conditions/Initialisation.antt =====
-- What `ccevents_init` of src/ccevents-core.c does.
use ccevents.Base.{ℕ, zero, suc, ◌≡◌, refl, Option, none}
use ccevents.Conditions.{Descriptor, Statics, at_load, library_init}

-- `n` calls
abbrev pub init_times : Option Descriptor → ℕ → Statics → Statics
init_times root_parent zero s = s
init_times root_parent (suc n) s = init_times root_parent n (library_init root_parent s)

-- However often `ccevents_init` is called, nothing is initialised: the base descriptor has no
-- parent.
pub init_times-at_load :
    (root_parent : Option Descriptor) (n : ℕ)
    → ((init_times root_parent n at_load).base_parent ≡ none)
      × (init_times root_parent n at_load ≡ at_load)
unfolding library_init
init_times-at_load root_parent zero = (refl, refl)
init_times-at_load root_parent (suc n) = init_times-at_load root_parent n
