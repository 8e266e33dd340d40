-- ===== src/FileSystem/Removal.antt =====
-- `RemoveAll` of pkg/util/file/file.go.
use application_profiler.Base.{
  ◌≡◌, refl, ap, sym, subst, ◌&&◌, ◌||◌, Bool-cases, Option-cases, inl, inr, List, [], ◌∷◌, String,
  ◌<>◌, ◌==◌, eq_iff, elem, lookup, none, if◌then◌else◌, arith,
}
use application_profiler.FilePath.{join_paths}
use application_profiler.Glob.{glob_match, insert, sort}
use application_profiler.World.{Files}
use application_profiler.Os.{Os}
use application_profiler.FileSystem.{exists, matching, list, remove, remove_each, remove_all}
use application_profiler.FileSystem.Lookup.{lookup-delete, lookup-delete_other}

elem-insert : (f a : String) (xs : List String) → elem f (insert a xs) ≡ (f == a) || elem f xs
unfolding insert
elem-insert f a [] = refl
elem-insert f a (x ∷ xs) = ground (arith, elem-insert f a xs)

elem-sort : (f : String) (xs : List String) → elem f (sort xs) ≡ elem f xs
unfolding sort
elem-sort f [] = refl
elem-sort f (x ∷ xs) = ground (arith, elem-insert f x (sort xs), elem-sort f xs)

elem-matching :
    (f pattern : String) (fs : Files)
    → elem f (matching pattern fs) ≡ glob_match pattern f && exists f fs
unfolding matching
elem-matching f pattern [] = ground arith
elem-matching f pattern ((g, c) ∷ fs) = elim (Bool-cases (f == g)) [
  | inl e ↦
      let same = ap (glob_match pattern) ((eq_iff f g).0 e) in
      ground (arith, elem-matching f pattern fs)
  | inr e ↦ ground (arith, elem-matching f pattern fs)
]

module _ (os : Os) (removable : (f : String) (fs : Files) → os.remove_error f fs ≡ none) where
  lookup-remove_same : (g : String) (fs : Files) → lookup g (remove os g fs).1 ≡ none
  unfolding remove
  lookup-remove_same g fs = elim (Option-cases (lookup g fs)) [
    | inl e ↦ ground arith
    | inr (c, e) ↦ ground (arith, removable g fs, lookup-delete g fs)
  ]

  lookup-remove :
      (f g : String) (fs : Files)
      → lookup f (remove os g fs).1 ≡ (if f == g then none else lookup f fs)
  unfolding remove
  lookup-remove f g fs = elim (Bool-cases (f == g)) [
    | inl e ↦
        let p = (eq_iff f g).0 e in
        rw e (
          subst (λ (k : String). lookup k (remove os g fs).1 ≡ none) (sym p)
            (lookup-remove_same g fs))
    | inr e ↦ rw e (ground (arith, removable g fs, lookup-delete_other g f fs e))
  ]

  lookup-remove_each :
      (f : String) (gs : List String) (fs : Files)
      → lookup f (remove_each os gs fs) ≡ (if elem f gs then none else lookup f fs)
  unfolding remove_each
  lookup-remove_each f [] fs = refl
  lookup-remove_each f (g ∷ gs) fs =
      ground (arith, lookup-remove_each f gs (remove os g fs).1, lookup-remove f g fs)

  -- If files can be removed, `RemoveAll` removes those whose path matches the pattern, and leaves
  -- every other file as it is.
  pub lookup-remove_all :
      (dir pattern f : String) (fs : Files)
      → lookup f (remove_all os dir pattern fs) ≡ (
          if glob_match (join_paths (dir ∷ ("*" <> (pattern <> "*")) ∷ [])) f
          then none
          else lookup f fs)
  unfolding remove_all list
  lookup-remove_all dir pattern f fs =
      let p = join_paths (dir ∷ ("*" <> (pattern <> "*")) ∷ []) in
      ground (
        arith,
        lookup-remove_each f (sort (matching p fs)) fs,
        elem-sort f (matching p fs),
        elem-matching f p fs,
      )
