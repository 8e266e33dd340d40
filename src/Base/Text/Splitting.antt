-- ===== src/Base/Text/Splitting.antt =====
-- Splitting a text that was joined.
use Prim.Native.Char.{Char, code}
use Prim.Native.String.{String, ◌++◌ as ◌<>◌}
use text.Mathlib.TextLemmas.{nil-append, cons-append}
use mathlib.Core.Path.{◌≡◌, refl, ap, ◌∙◌}
use mathlib.Core.Bool.{true, false}
use mathlib.Core.List.{List, [], ◌∷◌}
use native.Mathlib.Omega.{arith}
use Prim.Native.Nat.{ℕ}
use mathlib.Core.Logic.{inl, inr}
use application_profiler.Base.Tests.{eqb, Bool-cases, if◌then◌else◌}
use application_profiler.Base.Lists.{All, all}
use application_profiler.Base.Text.{split, join, lacks, all_space, extend}

-- A line: it has no newline, and is not blank.
abbrev pub IsName : String → Type 0
IsName s = (lacks 10 s ≡ true) × (all_space s ≡ false)

newline-append : (t : String) → "\n" <> t ≡ String.◌∷◌ "\n" t
newline-append t = cons-append "\n" String.[] t ∙ ap (String.◌∷◌ "\n") (nil-append t)

pub split-append : (s t : String) → lacks 10 s ≡ true → split (s <> ("\n" <> t)) 10 ≡ s ∷ split t 10
unfolding split
split-append String.[] t h = rw (nil-append, newline-append)
split-append (String.◌∷◌ c s) t h =
    rw (cons-append c s ("\n" <> t)) (ground (arith, split-append s t))

split_one : (s : String) → lacks 10 s ≡ true → split s 10 ≡ s ∷ []
unfolding split
split_one String.[] h = refl
split_one (String.◌∷◌ c s) h = ground (arith, split_one s)

pub split-join :
    (n : String) (ns : List String)
    → IsName n
    → All IsName ns
    → split (join (n ∷ ns) "\n") 10 ≡ n ∷ ns
unfolding join
split-join n [] h hs = split_one n h.0
split-join n (m ∷ ns) h hs =
    split-append n _ h.0 ∙ ap (λ (l : List String). n ∷ l) (split-join m ns hs.0 hs.1)

all_space-append : (s t : String) → all_space s ≡ false → all_space (s <> t) ≡ false
all_space-append String.[] t h = cc
all_space-append (String.◌∷◌ c s) t h = rw cons-append (ground (arith, all_space-append s t))

pub all_space-join :
    (n : String) (ns : List String) → IsName n → all_space (join (n ∷ ns) "\n") ≡ false
unfolding join
all_space-join n [] h = h.1
all_space-join n (m ∷ ns) h = all_space-append n _ h.1

pub lacks-append :
    (k : ℕ) (s t : String) → lacks k s ≡ true → lacks k t ≡ true → lacks k (s <> t) ≡ true
lacks-append k String.[] t h q = rw nil-append q
lacks-append k (String.◌∷◌ c s) t h q = rw cons-append (ground (arith, lacks-append k s t))

lacks-extend :
    (c : Char) (k : ℕ) (ps : List String)
    → eqb (code c) k ≡ false
    → all (lacks k) ps ≡ true
    → all (lacks k) (extend c ps) ≡ true
lacks-extend c k [] e h = rw e refl
lacks-extend c k (p ∷ ps) e h = rw e h

lacks-step :
    (c : Char) (k : ℕ) (ps : List String)
    → all (lacks k) ps ≡ true
    → all (lacks k) (if eqb (code c) k then String.[] ∷ ps else extend c ps) ≡ true
lacks-step c k ps h = elim (Bool-cases (eqb (code c) k)) [
  | inl e ↦ rw e h
  | inr e ↦ rw e (lacks-extend c k ps e h)
]

-- No part of a split has the separator.
pub lacks-split : (s : String) (k : ℕ) → all (lacks k) (split s k) ≡ true
unfolding split
lacks-split String.[] k = refl
lacks-split (String.◌∷◌ c s) k = lacks-step c k (split s k) (lacks-split s k)
