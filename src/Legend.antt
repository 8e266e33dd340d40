-- ===== src/Legend.antt =====
-- `addProcessPIDLegend` of internal/agent/profiler/utils.go, with what it uses of `bufio.Scanner`.
pub mod Lines
use Prim.Native.Char.{Char, code}
use application_profiler.Base.{
  ℕ, Bool, true, false, not, ◌&&◌, List, [], ◌∷◌, String, ◌<>◌, if◌then◌else◌, eqb, leb, all, map,
}
use application_profiler.Base.Text.{split, is_empty, size_of}
use application_profiler.External.{External}

-- The longest line that the scanner's buffer of 64 KiB holds: at a longer one it stops with an error.
abbrev pub max_line : ℕ
max_line = 65_535

-- The lines of a text: the pieces between newlines, without a last empty one.
unfoldable pub drop_last_empty : List String → List String
drop_last_empty [] = []
drop_last_empty (p ∷ []) = if is_empty p then [] else p ∷ []
drop_last_empty (p ∷ q ∷ ps) = p ∷ drop_last_empty (q ∷ ps)

-- A line without the carriage return at its end.
unfoldable pub drop_cr : String → String
drop_cr String.[] = String.[]
drop_cr (String.◌∷◌ c s) =
    let rest = drop_cr s in if is_empty s && eqb (code c) 13 then String.[] else String.◌∷◌ c rest

abbrev pub fits : String → Bool
fits line = leb (size_of line) max_line

-- The text with a part in front of each line, and a newline behind it.
unfoldable pub legend_lines : String → List String → String
unfolding drop_cr
legend_lines pid [] = ""
legend_lines pid (line ∷ lines) =
    "process: " <> (pid <> (";" <> (drop_cr line <> ("\n" <> legend_lines pid lines))))

unfoldable pub raw_lines : String → List String
unfolding drop_last_empty split
raw_lines input = drop_last_empty (split input b'\n')

module _ (x : External) where
  unfoldable pub add_process_pid_legend : String → String → String
  unfolding raw_lines legend_lines
  add_process_pid_legend input pid =
      if x.is_blank input
      then input
      else if all fits (raw_lines input)
      then legend_lines pid (raw_lines input)
      else input
