-- ===== src/Durations/Total.antt =====
-- The loop over the terms of a duration has enough fuel.
use Prim.Native.Char.{Char, code}
use application_profiler.Base.{
  ℕ, zero, suc, ◌+◌, ◌-◌, ◌*◌, ◌/◌, ◌≤◌, ◌<◌, ◌≡◌, ◌≢◌, refl, Bool, true, false, not, ◌||◌, Result,
  ok, err, panic, Error, Option, some, none, inl, inr, String, ◌<>◌, errorf, Bool-cases, lookup,
  ltb, eqb, ◌==◌, subst, ok-injective, arith, guard, ◌>>=◌, ◌>>◌, if◌then◌else◌,
}
use application_profiler.Base.Text.{size_of, is_empty}
use application_profiler.Base.Text.Searching.{is_digit}
use application_profiler.Durations.{
  limit, wrapping, unit_map, Fraction, leading_int, leading_fraction, fraction_of, is_number,
  take_unit, in_unit, after_int, with_unit, next_term, sum_terms, signed, unsigned, take_sign,
  parse, invalid, read_int, found_unit, starts_number,
}

leading_int-le : (x n : ℕ) (s t : String) → leading_int x s ≡ some (n, t) → size_of t ≤ size_of s
unfolding leading_int
leading_int-le x n String.[] t h = let e : t ≡ "" = cc in rw e (omega arith)
leading_int-le x n (String.◌∷◌ c s) t h =
    let y = x * 10 + (code c - b'0') in
    let rest = leading_int-le y n s t in
    elim (Bool-cases (is_digit c)) [
      | inl d ↦ elim (Bool-cases (ltb (limit / 10) x || ltb limit y)) [
        | inl e ↦ absurd (ground arith)
        | inr e ↦ ground arith
      ]
      | inr d ↦ ground arith
    ]

leading_fraction-le :
    (x scale : ℕ) (full found : Bool) (s : String)
    → size_of (leading_fraction x scale full found s).rest ≤ size_of s
unfolding leading_fraction
leading_fraction-le x scale full found String.[] = omega arith
leading_fraction-le x scale full found (String.◌∷◌ c s) =
    let y = x * 10 + (code c - b'0') in
    let full' = full || ltb ((limit - 1) / 10) x || ltb limit y in
    let rest =
      leading_fraction-le (if full' then x else y) (if full' then scale else scale * 10) full' true
        s in
    elim (Bool-cases (is_digit c)) [
      | inl d ↦ rw d (omega (arith, rest))
      | inr d ↦ rw d (omega arith)
    ]

fraction_of-le : (s : String) → size_of (fraction_of s).rest ≤ size_of s
unfolding fraction_of
fraction_of-le String.[] = omega arith
fraction_of-le (String.◌∷◌ c s) = elim (Bool-cases (eqb (code c) b'.')) [
  | inl e ↦ rw e (omega (arith, leading_fraction-le 0 1 false false s))
  | inr e ↦ rw e (omega arith)
]

take_unit-size : (s : String) → size_of (take_unit s).0 + size_of (take_unit s).1 ≡ size_of s
unfolding take_unit
take_unit-size String.[] = refl
take_unit-size (String.◌∷◌ c s) = elim (Bool-cases (is_number c)) [
  | inl e ↦ rw e (omega arith)
  | inr e ↦ rw e (omega (arith, take_unit-size s))
]

not_empty-size : (s : String) → not (is_empty s) ≡ true → 0 < size_of s
not_empty-size String.[] h = cc
not_empty-size (String.◌∷◌ c s) h = omega arith

-- The call does not panic, and what it returns has the property.
Post : {A : Type 0} → (A → Type 0) → Result A → Type 0
Post P (ok a) = P a
Post P (err e) = Unit
Post P panic = ⊥

Post-ok : {A : Type 0} (P : A → Type 0) (m : Result A) (a : A) → Post P m → m ≡ ok a → P a
unfolding Post
Post-ok P (ok b) a h e = subst P (ok-injective b a e) h
Post-ok P (err x) a h e = cc
Post-ok P panic a h e = cc

Post-ne-panic : {A : Type 0} (P : A → Type 0) (m : Result A) → Post P m → m ≢ panic
unfolding Post
Post-ne-panic P (ok b) h e = cc
Post-ne-panic P (err x) h e = cc
Post-ne-panic P panic h e = h

Post-mono :
    {A : Type 0} (P Q : A → Type 0) (m : Result A) → ((a : A) → P a → Q a) → Post P m → Post Q m
unfolding Post
Post-mono P Q (ok a) k h = k a h
Post-mono P Q (err e) k h = tt
Post-mono P Q panic k h = h

ok-Post : {A : Type 0} (P : A → Type 0) (a : A) → P a → Post P (ok a)
unfolding Post
ok-Post P a h = h

>>=-Post :
    {A B : Type 0} (P : B → Type 0) (m : Result A) (f : A → Result B)
    → m ≢ panic
    → ((a : A) → m ≡ ok a → Post P (f a))
    → Post P (m >>= f)
unfolding Post
>>=-Post P (ok a) f h k = k a refl
>>=-Post P (err e) f h k = tt
>>=-Post P panic f h k = absurd (h refl)

guard-ne-panic : (b : Bool) (e : Error) → guard b e ≢ panic
guard-ne-panic true e h = cc
guard-ne-panic false e h = cc

guard-ok : (b : Bool) (e : Error) (u : Unit {0}) → guard b e ≡ ok u → b ≡ true
guard-ok true e u h = refl
guard-ok false e u h = cc

shorter :
    (s : String) (n : ℕ) (t : String)
    → leading_int 0 s ≡ some (n, t)
    → not (is_empty (take_unit (fraction_of t).rest).0) ≡ true
    → size_of (take_unit (fraction_of t).rest).1 < size_of s
shorter s n t read some_unit =
    let size = take_unit-size (fraction_of t).rest in
    let fraction = fraction_of-le t in
    let number = leading_int-le 0 n s t read in
    let some_chars = not_empty-size (take_unit (fraction_of t).rest).0 some_unit in omega arith

module _ (quote : String → String) (scaled : ℕ → ℕ → ℕ → ℕ) (orig : String) where
  read_int-ne-panic : (r : Option (ℕ × String)) → read_int quote scaled orig r ≢ panic
  read_int-ne-panic none h = cc
  read_int-ne-panic (some r) h = cc

  read_int-ok :
      (r : Option (ℕ × String)) (v : ℕ × String) → read_int quote scaled orig r ≡ ok v → r ≡ some v
  read_int-ok none v h = cc
  read_int-ok (some r) v h = cc

  found_unit-ne-panic : (u : String) (r : Option ℕ) → found_unit quote scaled orig u r ≢ panic
  found_unit-ne-panic u none h = cc
  found_unit-ne-panic u (some k) h = cc

  in_unit-Post :
      (n : ℕ) (f : Fraction) (k : ℕ) → Post (λ v. Unit {0}) (in_unit quote scaled orig n f k)
  unfolding in_unit
  in_unit-Post n f k = search (>>=-Post, guard-ne-panic, ok-Post)

  in_unit-ne-panic : (n : ℕ) (f : Fraction) (k : ℕ) → in_unit quote scaled orig n f k ≢ panic
  in_unit-ne-panic n f k =
      Post-ne-panic (λ v. Unit) (in_unit quote scaled orig n f k) (in_unit-Post n f k)

  -- A round takes at least one character.
  Takes : String → ℕ × String → Type 0
  Takes s r = size_of r.1 < size_of s

  IsRest : String × String → ℕ × String → Type 0
  IsRest u r = (r.1 ≡ u.1) × (not (is_empty u.0) ≡ true)

  with_unit-Post :
      (n : ℕ) (f : Fraction) (u : String × String)
      → Post (IsRest u) (with_unit quote scaled orig n f u)
  unfolding with_unit IsRest
  with_unit-Post n f u =
      let P = IsRest u in
      let missing = errorf ("time: missing unit in duration " <> quote orig) in
      let found = found_unit quote scaled orig u.0 (lookup u.0 unit_map) in
      let last : ℕ → Result (ℕ × String) =
        λ k. in_unit quote scaled orig n f k >>= λ v. ok (v, u.1) in
      >>=-Post P (guard (not (is_empty u.0)) missing) (λ _. found >>= last) (guard-ne-panic _ _)
        (λ a e. >>=-Post P found last (found_unit-ne-panic _ _) (λ k _.
          >>=-Post P (in_unit quote scaled orig n f k) (λ v. ok (v, u.1)) (in_unit-ne-panic n f k)
            (λ v _. ok-Post P (v, u.1) (refl, guard-ok _ missing a e))))

  after_int-Post :
      (s : String) (r : ℕ × String)
      → leading_int 0 s ≡ some r
      → Post (Takes s) (after_int quote scaled orig s r)
  unfolding after_int Takes IsRest
  after_int-Post s r read =
      let f = fraction_of r.1 in
      let m = with_unit quote scaled orig r.0 f (take_unit f.rest) in
      >>=-Post (Takes s)
        (guard (not (eqb (size_of s) (size_of r.1)) || f.found) (invalid quote scaled orig))
        (λ _. m) (guard-ne-panic _ _)
        (λ _ _.
          Post-mono (IsRest (take_unit f.rest)) (Takes s) m
            (λ t (same, some_unit). rw same (shorter s r.0 r.1 read some_unit))
            (with_unit-Post r.0 f (take_unit f.rest)))

  next_term-Post : (s : String) → Post (Takes s) (next_term quote scaled orig s)
  unfolding next_term
  next_term-Post s =
      >>=-Post (Takes s) (guard (starts_number s) (invalid quote scaled orig))
        (λ _. read_int quote scaled orig (leading_int 0 s) >>= after_int quote scaled orig s)
        (guard-ne-panic _ _)
        (λ _ _.
          >>=-Post (Takes s) (read_int quote scaled orig (leading_int 0 s))
            (after_int quote scaled orig s) (read_int-ne-panic _)
            (λ r read. after_int-Post s r (read_int-ok _ r read)))

  fewer :
      (c : Char) (s : String) (t : ℕ × String) (fuel : ℕ)
      → Takes (String.◌∷◌ c s) t
      → size_of (String.◌∷◌ c s) ≤ suc fuel
      → size_of t.1 ≤ fuel
  unfolding Takes
  fewer c s t fuel h fits = omega arith

  sum_terms-Post :
      (fuel d : ℕ) (s : String)
      → size_of s ≤ fuel
      → Post (λ v. Unit) (sum_terms quote scaled orig fuel d s)
  unfolding sum_terms
  sum_terms-Post zero d String.[] h = ok-Post (λ v. Unit) d tt
  sum_terms-Post (suc fuel) d String.[] h = ok-Post (λ v. Unit) d tt
  sum_terms-Post zero d (String.◌∷◌ c s) h = absurd (omega arith)
  sum_terms-Post (suc fuel) d (String.◌∷◌ c s) h =
      let m = next_term quote scaled orig (String.◌∷◌ c s) in
      let post = next_term-Post (String.◌∷◌ c s) in
      >>=-Post (λ v. Unit) m
        (λ t.
          guard (not (ltb limit (wrapping (d + t.0)))) (invalid quote scaled orig)
          >> sum_terms quote scaled orig fuel (wrapping (d + t.0)) t.1)
        (Post-ne-panic (Takes (String.◌∷◌ c s)) m post)
        (λ t e.
          >>=-Post (λ v. Unit)
            (guard (not (ltb limit (wrapping (d + t.0)))) (invalid quote scaled orig))
            (λ _. sum_terms quote scaled orig fuel (wrapping (d + t.0)) t.1) (guard-ne-panic _ _)
            (λ _ _.
              sum_terms-Post fuel (wrapping (d + t.0)) t.1
                (fewer c s t fuel (Post-ok (Takes (String.◌∷◌ c s)) m t post e) h)))

  signed-Post : (b : Bool) (d : ℕ) → Post (λ v. Unit {0}) (signed quote scaled orig b d)
  unfolding signed
  signed-Post true d = search ok-Post
  signed-Post false d = search (>>=-Post, guard-ne-panic, ok-Post)

  summed-Post :
      (b : Bool) (s : String)
      → Post
          (λ v. Unit {0})
          (sum_terms quote scaled orig (size_of s) 0 s >>= signed quote scaled orig b)
  summed-Post b s =
      >>=-Post (λ v. Unit) (sum_terms quote scaled orig (size_of s) 0 s)
        (signed quote scaled orig b)
        (Post-ne-panic (λ v. Unit) (sum_terms quote scaled orig (size_of s) 0 s)
          (sum_terms-Post (size_of s) 0 s (omega arith)))
        (λ d _. signed-Post b d)

  unsigned-Post : (b : Bool) (s : String) → Post (λ v. Unit {0}) (unsigned quote scaled orig b s)
  unfolding unsigned Post
  unsigned-Post b s = elim (Bool-cases (s == "0")) [
    | inl e ↦ rw e tt
    | inr e ↦ elim (Bool-cases (is_empty s)) [
      | inl q ↦ rw (e, q) tt
      | inr q ↦ rw (e, q) (summed-Post b s)
    ]
  ]

module _ (quote : String → String) (scaled : ℕ → ℕ → ℕ → ℕ) where
  -- Parsing a duration never runs out of fuel.
  pub parse-ne-panic : (s : String) → parse quote scaled s ≢ panic
  unfolding parse
  parse-ne-panic s =
      Post-ne-panic (λ v. Unit) (unsigned quote scaled s (take_sign s).0 (take_sign s).1)
        (unsigned-Post quote scaled s (take_sign s).0 (take_sign s).1)
