-- ===== src/External.antt =====
-- The packages that the agent calls and that are not part of the repository.
use application_profiler.Base.{◌≡◌, Bool, not, List, String, elem}
use application_profiler.Base.Text.{all_space}

-- `github.com/agrison/go-commons-lang/stringUtils` and `github.com/samber/lo`.
pub record External : Type 0 where
  pub is_blank : String → Bool
  pub is_not_blank : String → Bool
  pub is_numeric : String → Bool
  pub contains_text : String → String → Bool
  pub contains_ignore_case : String → String → Bool
  pub contains : List String → String → Bool

-- What those packages document of the functions above.
pub record IsLawful (x : External) : Type 0 where
  pub blank_lem : (s : String) → x.is_blank s ≡ all_space s
  pub not_blank_lem : (s : String) → x.is_not_blank s ≡ not (x.is_blank s)
  pub contains_lem : (xs : List String) (a : String) → x.contains xs a ≡ elem a xs
