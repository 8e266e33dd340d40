-- ===== src/Pids/Interleavings.antt =====
-- Every order in which the goroutines of `ProfilePIDs` run gives the same errors.
use application_profiler.Base.{
  ℕ, zero, suc, ◌+◌, ◌-◌, ◌≡◌, refl, ap, ap₂, ◌∙◌, ◌⊎◌, inl, inr, Bool-cases, ltb→lt, ◌<◌, ◌≤◌,
  true, Bool, not, ◌&&◌, List, [], ◌∷◌, Option, some, String, Error, length, get_elem?, set,
  replicate, length-set, length-replicate, all, arith, ltb,
}
use application_profiler.Pids.{
  Slot, waiting, done, is_done, Group, start, Step, launch, finish, Reach, here, next, IsFinal,
  returned,
}

-- A slot that is written holds what its goroutine returned.
abbrev Agrees : (ℕ → Option Error) → List Slot → Type 0
Agrees f [] = Unit
Agrees f (waiting ∷ s) = Agrees (λ i. f (suc i)) s
Agrees f (done r ∷ s) = (r ≡ f 0) × Agrees (λ i. f (suc i)) s

Agrees-replicate : (n : ℕ) (f : ℕ → Option Error) → Agrees f (replicate n waiting)
Agrees-replicate zero f = tt
Agrees-replicate (suc n) f = Agrees-replicate n (λ i. f (suc i))

Agrees-set :
    (s : List Slot) (i : ℕ) (f : ℕ → Option Error) → Agrees f s → Agrees f (set s i (done (f i)))
Agrees-set [] i f h = h
Agrees-set (waiting ∷ s) zero f h = (refl, h)
Agrees-set (done r ∷ s) zero f h = (refl, h.1)
Agrees-set (waiting ∷ s) (suc i) f h = Agrees-set s i (λ i. f (suc i)) h
Agrees-set (done r ∷ s) (suc i) f h = (h.0, Agrees-set s i (λ i. f (suc i)) h.1)

-- What `n` goroutines return, in the order of their numbers.
abbrev pub outcomes : ℕ → (ℕ → Option Error) → List (Option Error)
outcomes zero f = []
outcomes (suc n) f = f 0 ∷ outcomes n (λ i. f (suc i))

returned-eq-outcomes :
    (s : List Slot) (f : ℕ → Option Error)
    → Agrees f s
    → all is_done s ≡ true
    → returned s ≡ outcomes (length s) f
returned-eq-outcomes [] f h d = refl
returned-eq-outcomes (waiting ∷ s) f h d = cc
returned-eq-outcomes (done r ∷ s) f h d =
    ap₂ ◌∷◌ h.0 (returned-eq-outcomes s (λ i. f (suc i)) h.1 d)

module _ (pids : List String) (outcome : ℕ → Option Error) (returns : ℕ → Bool) where
  record Inv (s : Group) : Type 0 where
    in_range : s.started ≤ length pids
    slots : length s.errs ≡ length pids
    agrees : Agrees outcome s.errs
    spaced : s.sleeps ≡ s.started - 1

  Step-Inv : {s t : Group} → Step pids outcome returns s t → Inv s → Inv t
  Step-Inv {s = s} (launch room e) v =
      rw e (record {
        in_range = omega arith;
        slots = v.slots;
        agrees = v.agrees;
        spaced = ground arith;
      })
  Step-Inv {s = s} (finish i was back e₁ e) v = rw e (record {
    in_range = v.in_range;
    slots = length-set s.errs i (done (outcome i)) ∙ v.slots;
    agrees = Agrees-set s.errs i outcome v.agrees;
    spaced = v.spaced;
  })

  Reach-Inv : {s : Group} → Reach pids outcome returns s → Inv s
  unfolding start
  Reach-Inv here = record {
    in_range = omega arith;
    slots = length-replicate (length pids) waiting;
    agrees = Agrees-replicate (length pids) outcome;
    spaced = omega arith;
  }
  Reach-Inv (next r st) = Step-Inv st (Reach-Inv r)

  -- Whatever the order in which the goroutines run, when all are done the errors are what each of
  -- them returned, in the order of the processes, and the loop has slept once between two starts.
  pub Reach-returned :
      {s : Group}
      → Reach pids outcome returns s
      → IsFinal pids outcome returns s
      → (returned s.errs ≡ outcomes (length pids) outcome) × (s.sleeps ≡ length pids - 1)
  unfolding IsFinal
  Reach-returned {s} r final =
      let v = Reach-Inv r in
      (
        returned-eq-outcomes s.errs outcome v.agrees final.1
            ∙ ap (λ (n : ℕ). outcomes n outcome) v.slots,
        omega arith,
      )

abbrev count_waiting : List Slot → ℕ
count_waiting [] = 0
count_waiting (waiting ∷ s) = suc (count_waiting s)
count_waiting (done r ∷ s) = count_waiting s

-- The calls of all goroutines that have not written their slot never return.
abbrev pub only_endless : (ℕ → Bool) → List Slot → Bool
only_endless f [] = true
only_endless f (waiting ∷ s) = not (f 0) && only_endless (λ i. f (suc i)) s
only_endless f (done r ∷ s) = only_endless (λ i. f (suc i)) s

find_ready :
    (f : ℕ → Bool) (s : List Slot)
    → (only_endless f s ≡ true)
      ⊎ ((i : ℕ) × (i < length s) × (f i ≡ true) × (get_elem? s i ≡ some waiting))
find_ready f [] = inl refl
find_ready f (waiting ∷ s) = elim (Bool-cases (f 0)) [
  | inl e ↦ inr (0, omega arith, e, refl)
  | inr e ↦ elim (find_ready (λ i. f (suc i)) s) [
    | inl h ↦ inl (ground arith)
    | inr (i, lt, back, h) ↦ inr (suc i, omega arith, back, h)
  ]
]
find_ready f (done r ∷ s) = elim (find_ready (λ i. f (suc i)) s) [
  | inl h ↦ inl h
  | inr (i, lt, back, h) ↦ inr (suc i, omega arith, back, h)
]

count_waiting-set :
    (s : List Slot) (i : ℕ) (r : Option Error)
    → get_elem? s i ≡ some waiting
    → suc (count_waiting (set s i (done r))) ≡ count_waiting s
count_waiting-set [] i r h = cc
count_waiting-set (waiting ∷ s) zero r h = refl
count_waiting-set (done q ∷ s) zero r h = cc
count_waiting-set (waiting ∷ s) (suc i) r h = ap suc (count_waiting-set s i r h)
count_waiting-set (done q ∷ s) (suc i) r h = count_waiting-set s i r h

-- The steps that are left: goroutines to start and slots to write.
pub remaining : List String → Group → ℕ
remaining pids s = (length pids - s.started) + count_waiting s.errs

module _ (pids : List String) (outcome : ℕ → Option Error) (returns : ℕ → Bool) where
  -- `ProfilePIDs` goes on until all goroutines are started and those that have not returned never
  -- do.
  pub Reach-proceeds :
      {s : Group}
      → Reach pids outcome returns s
      → ((t : Group) × Step pids outcome returns s t)
        ⊎ ((s.started ≡ length pids) × (only_endless returns s.errs ≡ true))
  Reach-proceeds {s} r =
      let v = Reach-Inv pids outcome returns r in
      elim (Bool-cases (ltb s.started (length pids))) [
        | inl more ↦ inl (_, launch (ltb→lt _ _ more) refl)
        | inr all_started ↦ elim (find_ready returns s.errs) [
          | inl endless ↦ inr (ground arith, endless)
          | inr (i, lt, back, e) ↦ inl (_, finish i (ground arith) back e refl)
        ]
      ]

  -- And it ends: each step leaves one step less.
  pub remaining-Step :
      {s t : Group} → Step pids outcome returns s t → suc (remaining pids t) ≡ remaining pids s
  unfolding remaining
  remaining-Step {s} (launch room e) = rw e (omega arith)
  remaining-Step {s} (finish i was back e₁ e) =
      rw e (omega (arith, count_waiting-set s.errs i (outcome i) e₁))
