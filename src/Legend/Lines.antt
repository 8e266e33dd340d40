-- ===== src/Legend/Lines.antt =====
-- The text that `addProcessPIDLegend` makes, read again line by line.
use text.Mathlib.TextLemmas.{append_assoc}
use application_profiler.Base.{
  ℕ, ◌≡◌, refl, ap, ◌∙◌, true, false, List, [], ◌∷◌, ◌++◌, map, String, ◌<>◌, all, arith,
}
use application_profiler.Base.Text.{split, lacks}
use application_profiler.Base.Text.Splitting.{split-append, lacks-split, lacks-append}
use application_profiler.External.{External}
use application_profiler.Legend.{
  fits, raw_lines, drop_last_empty, drop_cr, legend_lines, add_process_pid_legend,
}

-- A line with the process in front.
abbrev pub with_process : String → String → String
with_process pid line = "process: " <> (pid <> (";" <> drop_cr line))

lacks-drop_cr : (k : ℕ) (s : String) → lacks k s ≡ true → lacks k (drop_cr s) ≡ true
unfolding drop_cr
lacks-drop_cr k String.[] h = refl
lacks-drop_cr k (String.◌∷◌ c s) h = ground (arith, lacks-drop_cr k s)

lacks-drop_last_empty :
    (k : ℕ) (ps : List String) → all (lacks k) ps ≡ true → all (lacks k) (drop_last_empty ps) ≡ true
unfolding drop_last_empty
lacks-drop_last_empty k [] h = refl
lacks-drop_last_empty k (p ∷ []) h = ground arith
lacks-drop_last_empty k (p ∷ q ∷ ps) h = ground (arith, lacks-drop_last_empty k (q ∷ ps))

legend_line :
    (pid line rest : String)
    → "process: " <> (pid <> (";" <> (drop_cr line <> ("\n" <> rest))))
      ≡ with_process pid line <> ("\n" <> rest)
legend_line pid line rest = simp (append_assoc)

split-legend_lines :
    (pid : String) (lines : List String)
    → lacks 10 pid ≡ true
    → all (lacks 10) lines ≡ true
    → split (legend_lines pid lines) 10 ≡ map (with_process pid) lines ++ ("" ∷ [])
unfolding legend_lines split
split-legend_lines pid [] h q = refl
split-legend_lines pid (line ∷ lines) h q =
    let no_newline : lacks 10 (with_process pid line) ≡ true =
      lacks-append 10 "process: " (pid <> (";" <> drop_cr line)) refl (
        lacks-append 10 pid (";" <> drop_cr line) h
          (lacks-append 10 ";" (drop_cr line) refl (lacks-drop_cr 10 line (ground arith)))) in
    ap (λ (s : String). split s 10) (legend_line pid line (legend_lines pid lines))
    ∙ split-append (with_process pid line) (legend_lines pid lines) no_newline
    ∙ ap (λ (ps : List String). with_process pid line ∷ ps)
        (split-legend_lines pid lines h (ground arith))

-- For a text that is not blank and whose lines the scanner's buffer holds, and a process number
-- without a newline, the result has the same lines, each without the carriage return at its end and
-- with the process in front.
pub split-add_process_pid_legend :
    (x : External) (input pid : String)
    → x.is_blank input ≡ false
    → all fits (raw_lines input) ≡ true
    → lacks 10 pid ≡ true
    → split (add_process_pid_legend x input pid) 10
      ≡ map (with_process pid) (raw_lines input) ++ ("" ∷ [])
unfolding add_process_pid_legend raw_lines
split-add_process_pid_legend x input pid given short h =
    let lines = drop_last_empty (split input 10) in
    rw (given, short)
      (split-legend_lines pid lines h
        (lacks-drop_last_empty 10 (split input 10) (lacks-split input 10)))
