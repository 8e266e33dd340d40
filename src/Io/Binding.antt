-- ===== src/Io/Binding.antt =====
-- Chains of actions that succeed.
use application_profiler.Base.{
  ◌≡◌, refl, ok, panic, Error, Option, none, some, String, inl, inr, Result-cases, arith,
}
use application_profiler.World.{World}
use application_profiler.Io.{Io, ◌>>=◌, wrapped, fail_if, pure, fail}

-- If a chain succeeds, its first action did, and the rest went on from there.
pub >>=-ok :
    {A B : Type 0} (m : Io A) (f : A → Io B) (w : World) (b : B)
    → ((m >>= f) w).0 ≡ ok b
    → (a : A) × ((m w).0 ≡ ok a) × ((m >>= f) w ≡ f a (m w).1)
unfolding ◌>>=◌
>>=-ok m f w b h = elim (Result-cases (m w).0) [
  | inl (a, e) ↦ (a, e, ground arith)
  | inr (inl (x, e)) ↦ absurd (ground arith)
  | inr (inr e) ↦ absurd (ground arith)
]

-- A chain goes on where its first action succeeds, and ends where it panics.
pub >>=-step :
    {A B : Type 0} (m : Io A) (f : A → Io B) (w : World) (a : A)
    → (m w).0 ≡ ok a
    → (m >>= f) w ≡ f a (m w).1
unfolding ◌>>=◌
>>=-step m f w a h = ground arith

pub >>=-panic :
    {A B : Type 0} (m : Io A) (f : A → Io B) (w : World) → (m w).0 ≡ panic → ((m >>= f) w).0 ≡ panic
unfolding ◌>>=◌
>>=-panic m f w h = ground arith

pub wrapped-ok :
    {A : Type 0} (text : String) (m : Io A) (w : World) (a : A)
    → (wrapped text m w).0 ≡ ok a
    → ((m w).0 ≡ ok a) × ((wrapped text m w).1 ≡ (m w).1)
unfolding wrapped
wrapped-ok text m w a h = elim (Result-cases (m w).0) [
  | inl (b, e) ↦ (ground arith, ground arith)
  | inr (inl (x, e)) ↦ absurd (ground arith)
  | inr (inr e) ↦ absurd (ground arith)
]

pub fail_if-ok :
    (f : Error → Error) (o : Option Error) (w : World)
    → (fail_if f o w).0 ≡ ok tt
    → (o ≡ none) × ((fail_if f o w).1 ≡ w)
unfolding fail_if pure fail
fail_if-ok f none w h = (refl, refl)
fail_if-ok f (some e) w h = cc
