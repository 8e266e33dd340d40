-- ===== src/Profilers/Ports.antt =====
-- The port that go_pprof.go finds.
use application_profiler.Base.{
  ◌≡◌, refl, true, Bool-cases, Option-cases, inl, inr, not, ◌||◌, ok, List, [], ◌∷◌, some, String,
  elem, arith,
}
use application_profiler.Base.Text.Searching.{contains_part, fields, atoi, split_last}
use application_profiler.Legend.{fits, drop_cr}
use application_profiler.FileSystem.Lookup.{eq_refl}
use application_profiler.Profilers.GoPprof.{port_of_field, first_port, port_in_lines}

port_of_field-number :
    (field port : String) → port_of_field field ≡ some port → (atoi port).1 ≡ true
unfolding port_of_field
port_of_field-number field port h = elim (Option-cases (split_last b':' field)) [
  | inl e ↦ absurd (ground arith)
  | inr ((before, behind), e) ↦ ground arith
]

first_port-number :
    (fs : List String) (port : String) → first_port fs ≡ some port → (atoi port).1 ≡ true
unfolding first_port
first_port-number [] port h = cc
first_port-number (field ∷ more) port h = elim (Option-cases (port_of_field field)) [
  | inl e ↦ first_port-number more port (ground arith)
  | inr (p, e) ↦ port_of_field-number field port (ground arith)
]

-- A line of the list that has the word LISTEN and the digits of the process, and shows the port.
abbrev pub Shows : String → List String → String → Type 0
Shows pid lines port =
    (line : String) × (elem line lines ≡ true)
    × (contains_part (drop_cr line) "LISTEN" ≡ true)
    × (contains_part (drop_cr line) pid ≡ true)
    × (first_port (fields (drop_cr line)) ≡ some port)

Shows-further :
    (pid line : String) (lines : List String) (port : String)
    → Shows pid lines port
    → Shows pid (line ∷ lines) port
Shows-further pid line lines port (l, m, a, b, c) = (l, ground arith, a, b, c)

port_in_lines-shown :
    (pid : String) (lines : List String) (port : String)
    → port_in_lines pid lines ≡ ok port
    → Shows pid lines port
unfolding port_in_lines
port_in_lines-shown pid [] port h = absurd (cc h)
port_in_lines-shown pid (line ∷ lines) port h = elim (Bool-cases (fits line)) [
  | inr e ↦ absurd (ground arith)
  | inl e ↦
      elim (Bool-cases
        (not (contains_part (drop_cr line) "LISTEN") || not (contains_part (drop_cr line) pid))) [
          | inl q ↦
              Shows-further pid line lines port (port_in_lines-shown pid lines port (ground arith))
          | inr q ↦ elim (Option-cases (first_port (fields (drop_cr line)))) [
            | inl r ↦
                Shows-further pid line lines port
                  (port_in_lines-shown pid lines port (ground arith))
            | inr (p, r) ↦ (line, rw (eq_refl line) refl, ground arith, ground arith, ground arith)
          ]
        ]
]

-- A port that is found is a number, and stands in a line of the list that has the word LISTEN and
-- the digits of the process.
pub port_in_lines-number :
    (pid : String) (lines : List String) (port : String)
    → port_in_lines pid lines ≡ ok port
    → ((atoi port).1 ≡ true) × Shows pid lines port
port_in_lines-number pid lines port h =
    let shown = port_in_lines-shown pid lines port h in
    (first_port-number (fields (drop_cr shown.0)) port shown.4, shown)
