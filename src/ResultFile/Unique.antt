-- ===== src/ResultFile/Unique.antt =====
-- Different processes and rounds write to different files.
use Prim.Native.Char.{Char, code}
use text.Mathlib.TextLemmas.{
  append_cancel_left, append_cancel_right, nil-append, cons-append, head-eq_of_cons-eq,
  tail-eq_of_cons-eq,
}
use application_profiler.Base.{ap₂, ◌∷◌, [], ℕ, ◌≡◌, refl, sym, ap, ◌∙◌, true, String, ◌<>◌, arith}
use application_profiler.Base.Text.{lacks}
use application_profiler.Base.Digits.{itoa, itoa-injective}
use application_profiler.FilePath.{join_paths}
use application_profiler.Api.Outputs.{OutputType}
use application_profiler.Api.Tools.{ProfilingTool}
use application_profiler.ResultFile.{profiling_prefix, get_result_file, get_file_extension}

-- A text that begins with a character behind which a dash stands, begins with that character.
dash_first : (u d_rest : String) (d : Char) → "" <> ("-" <> u) ≡ String.◌∷◌ d d_rest → code d ≡ b'-'
dash_first u d_rest d e = ap code (
    sym (head-eq_of_cons-eq {x = "-"} (sym (cons-append "-" String.[] u) ∙ sym (nil-append _) ∙ e)))

-- Two texts with no dash, each before a dash, are told apart by it.
split_at_dash :
    (s t u v : String)
    → lacks b'-' s ≡ true
    → lacks b'-' t ≡ true
    → s <> ("-" <> u) ≡ t <> ("-" <> v)
    → (s ≡ t) × (u ≡ v)
split_at_dash String.[] String.[] u v hs ht e =
    (refl, append_cancel_left "-" u v (sym (nil-append _) ∙ e ∙ nil-append _))
split_at_dash String.[] (String.◌∷◌ d t) u v hs ht e =
    absurd (ground (arith, dash_first u _ d (e ∙ cons-append d t _)))
split_at_dash (String.◌∷◌ c s) String.[] u v hs ht e =
    absurd (ground (arith, dash_first v _ c (sym e ∙ cons-append c s _)))
split_at_dash (String.◌∷◌ c s) (String.◌∷◌ d t) u v hs ht e =
    let cons_eq = sym (cons-append c s _) ∙ e ∙ cons-append d t _ in
    let (same, rest) =
      split_at_dash s t u v (ground arith) (ground arith) (tail-eq_of_cons-eq cons_eq) in
    (ap₂ String.◌∷◌ (head-eq_of_cons-eq cons_eq) same, rest)

-- In one directory, with one tool and one type, two processes whose numbers have no dash, or two
-- rounds of one process, never share a result file.
pub get_result_file-injective :
    (dir : String) (tool : ProfilingTool) (o : OutputType) (p q : String) (m n : ℕ)
    → lacks b'-' p ≡ true
    → lacks b'-' q ≡ true
    → get_result_file dir tool o p m ≡ get_result_file dir tool o q n
    → (p ≡ q) × (m ≡ n)
unfolding get_result_file
get_result_file-injective dir tool o p q m n hp hq e =
    let e₁ = append_cancel_left (join_paths (dir ∷ profiling_prefix ∷ [])) _ _ e in
    let e₂ = append_cancel_left o _ _ e₁ in
    let e₃ = append_cancel_left "-" _ _ e₂ in
    let (same_pid, e₄) = split_at_dash p q _ _ hp hq e₃ in
    let e₅ = append_cancel_right (itoa m) (itoa n) (get_file_extension tool o) e₄ in
    (same_pid, itoa-injective m n e₅)
