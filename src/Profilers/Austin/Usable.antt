-- ===== src/Profilers/Austin/Usable.antt =====
-- The files of the target that the profiler for austin copies.
use application_profiler.Base.{
  ◌≡◌, refl, Bool, true, not, ◌&&◌, List, [], ◌∷◌, String, elem, arith, Result-cases, inl, inr, ok,
}
use application_profiler.Base.Text.{has_prefix}
use application_profiler.FilePath.{join_paths}
use application_profiler.Profilers.Austin.Targets.{
  proc_dir, candidates, TargetFile, Proc, select_files, austin_target_files,
}

-- Every file has an absolute path that is neither among the texts nor the path of an earlier file,
-- and can be read.
unfoldable pub are_usable : (String → Bool) → List String → List TargetFile → Bool
are_usable readable seen [] = true
are_usable readable seen (f ∷ fs) =
    not (elem f.path seen)
    && (has_prefix "/" f.path && (readable f.source && are_usable readable (f.path ∷ seen) fs))

are_usable_mono :
    (readable : String → Bool) (few many : List String) (fs : List TargetFile)
    → ((x : String) → elem x few ≡ true → elem x many ≡ true)
    → are_usable readable many fs ≡ true
    → are_usable readable few fs ≡ true
unfolding are_usable
are_usable_mono readable few many [] sub h = refl
are_usable_mono readable few many (f ∷ fs) sub h = ground (
  arith,
  sub f.path,
  are_usable_mono readable (f.path ∷ few) (f.path ∷ many) fs (λ x e. ground (arith, sub x)),
)

select_files-are_usable :
    (readable : String → Bool) (seen : List String) (fs : List TargetFile)
    → are_usable readable seen (select_files readable seen fs) ≡ true
unfolding are_usable select_files
select_files-are_usable readable seen [] = refl
select_files-are_usable readable seen (f ∷ fs) =
    let skipped = select_files-are_usable readable seen fs in
    let rest = select_files-are_usable readable (f.path ∷ seen) fs in
    let fewer =
      are_usable_mono readable seen (f.path ∷ seen) (select_files readable (f.path ∷ seen) fs)
        (λ x e. ground arith) in
    ground (arith, skipped, rest, fewer)

-- The files of the target have pairwise different absolute paths, and each of them can be read.
pub austin_target_files-are_usable :
    (proc : Proc) (pid : String) (files : List TargetFile)
    → austin_target_files proc pid ≡ ok files
    → are_usable proc.readable [] files ≡ true
unfolding austin_target_files
austin_target_files-are_usable proc pid files h =
    elim (Result-cases (proc.read_link (join_paths (proc_dir ∷ pid ∷ "exe" ∷ [])))) [
      | inl (exe, e) ↦
          elim (Result-cases (proc.read_text (join_paths (proc_dir ∷ pid ∷ "maps" ∷ [])))) [
            | inl (maps, r) ↦
                ground (arith, select_files-are_usable proc.readable [] (candidates pid exe maps))
            | inr (inl (x, r)) ↦ ground arith
            | inr (inr r) ↦ ground arith
          ]
      | inr (inl (x, e)) ↦ ground arith
      | inr (inr e) ↦ ground arith
    ]
