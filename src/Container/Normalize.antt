-- ===== src/Container/Normalize.antt =====
-- `NormalizeContainerID`
use application_profiler.Base.{ℕ, zero, suc, Option, none, some, String, if◌then◌else◌}
use application_profiler.Base.Text.{has_prefix}

-- How many characters after the first one belong to a match of `cri-o://|containerd://` here.
unfoldable pub match_here : String → Option ℕ
unfolding has_prefix
match_here s =
    if has_prefix "cri-o://" s
    then some 7
    else if has_prefix "containerd://" s
    then some 12
    else none

-- The rest of a match that has begun is skipped.
unfoldable pub replace_from : ℕ → String → String
unfolding match_here
replace_from n String.[] = String.[]
replace_from (suc n) (String.◌∷◌ c s) = replace_from n s
replace_from zero (String.◌∷◌ c s) = elim (match_here (String.◌∷◌ c s)) [
  | none ↦ String.◌∷◌ c (replace_from zero s)
  | some n ↦ replace_from n s
]

unfoldable pub normalize_container_id : String → String
unfolding replace_from
normalize_container_id container_id = replace_from 0 container_id
