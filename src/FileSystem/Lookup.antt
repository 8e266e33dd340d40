-- ===== src/FileSystem/Lookup.antt =====
-- What is in a file after it, or another one, was written or deleted.
use application_profiler.Base.{
  ◌≡◌, refl, subst, true, false, Bool-cases, inl, inr, [], ◌∷◌, String, ◌==◌, eq_iff, lookup, none,
  some, arith,
}
use application_profiler.World.{Files}
use application_profiler.FileSystem.{put, delete}

pub eq_refl : (f : String) → (f == f) ≡ true
eq_refl f = (eq_iff f f).1 refl

pub lookup-put : (f c : String) (fs : Files) → lookup f (put f c fs) ≡ some c
unfolding put
lookup-put f c [] = rw (eq_refl f) refl
lookup-put f c ((g, d) ∷ fs) = elim (Bool-cases (f == g)) [
  | inl e ↦ rw (e, eq_refl f) refl
  | inr e ↦ rw (e, e) (lookup-put f c fs)
]

pub lookup-put_other :
    (f g c : String) (fs : Files) → (g == f) ≡ false → lookup g (put f c fs) ≡ lookup g fs
unfolding put
lookup-put_other f g c [] n = rw n refl
lookup-put_other f g c ((h, d) ∷ fs) n = elim (Bool-cases (f == h)) [
  | inl e ↦
      let m : (g == h) ≡ false = subst (λ (k : String). (g == k) ≡ false) ((eq_iff f h).0 e) n in
      rw (e, n, m) refl
  | inr e ↦ rw e (ground (arith, lookup-put_other f g c fs n))
]

pub lookup-delete : (f : String) (fs : Files) → lookup f (delete f fs) ≡ none
unfolding delete
lookup-delete f [] = refl
lookup-delete f ((g, d) ∷ fs) = elim (Bool-cases (f == g)) [
  | inl e ↦ rw e (lookup-delete f fs)
  | inr e ↦ rw (e, e) (lookup-delete f fs)
]

pub lookup-delete_other :
    (f g : String) (fs : Files) → (g == f) ≡ false → lookup g (delete f fs) ≡ lookup g fs
unfolding delete
lookup-delete_other f g [] n = refl
lookup-delete_other f g ((h, d) ∷ fs) n = elim (Bool-cases (f == h)) [
  | inl e ↦
      let m : (g == h) ≡ false = subst (λ (k : String). (g == k) ≡ false) ((eq_iff f h).0 e) n in
      rw (e, m) (lookup-delete_other f g fs n)
  | inr e ↦ rw e (ground (arith, lookup-delete_other f g fs n))
]
