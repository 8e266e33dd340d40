-- ===== src/Container/Leaves.antt =====
-- `fillWithChildrenPIDs` of internal/agent/util/container.go against a process tree.
use application_profiler.Base.{
  ℕ, zero, suc, ◌+◌, ◌≡◌, refl, sym, ap, ◌∙◌, ◌≤◌, true, List, [], ◌∷◌, ◌++◌, append-nil, Option,
  some, String, All, arith,
}
use application_profiler.Base.Text.{join}
use application_profiler.Base.Text.Splitting.{IsName, split-join, all_space-join}
use application_profiler.External.{External, IsLawful}
use application_profiler.Container.Children.{each, fill_with_children_pids}

-- A process with its children.
mutual
  pub data ProcessTree : Type 0 where
    proc : String → Forest → ProcessTree

  pub data Forest : Type 0 where
    nil : Forest
    cons : ProcessTree → Forest → Forest

abbrev pub root : ProcessTree → String
root (proc p ts) = p

abbrev pub roots : Forest → List String
roots nil = []
roots (cons t ts) = root t ∷ roots ts

unfoldable mutual
  -- The processes without children, from left to right.
  pub leaves : ProcessTree → List String
  leaves (proc p nil) = p ∷ []
  leaves (proc p (cons t ts)) = leaves_of (cons t ts)

  pub leaves_of : Forest → List String
  leaves_of nil = []
  leaves_of (cons t ts) = leaves t ++ leaves_of ts

unfoldable mutual
  pub size : ProcessTree → ℕ
  size (proc p ts) = suc (size_of ts)

  pub size_of : Forest → ℕ
  size_of nil = 0
  size_of (cons t ts) = size t + size_of ts

unfoldable mutual
  -- The lookup of children answers as in the tree: one line for each child.
  pub Describes : (String → String) → ProcessTree → Type 0
  Describes get (proc p ts) = (get p ≡ join (roots ts) "\n") × DescribesAll get ts

  pub DescribesAll : (String → String) → Forest → Type 0
  DescribesAll get nil = Unit
  DescribesAll get (cons t ts) = IsName (root t) × Describes get t × DescribesAll get ts

join_one : (n : String) → join (n ∷ []) "\n" ≡ n
unfolding join
join_one n = refl

each-cons :
    (f : String → Option (List String)) (p : String) (ps : List String) {a b : List String}
    → f p ≡ some a
    → each f ps ≡ some b
    → each f (p ∷ ps) ≡ some (a ++ b)
unfolding each
each-cons f p ps h k = ground arith

module _ (x : External) (lawful : IsLawful x) (get : String → String) where
  names : (ts : Forest) → DescribesAll get ts → All IsName (roots ts)
  unfolding Describes
  names nil d = tt
  names (cons t ts) (name, _, d) = (name, names ts d)

  not_blank :
      (n : String) (ns : List String) → IsName n → x.is_not_blank (join (n ∷ ns) "\n") ≡ true
  not_blank n ns name = ground (
    arith,
    lawful.not_blank_lem (join (n ∷ ns) "\n"),
    lawful.blank_lem (join (n ∷ ns) "\n"),
    all_space-join n ns name,
  )

  fill_single :
      (fuel : ℕ) (p n : String)
      → get p ≡ join (n ∷ []) "\n"
      → IsName n
      → fill_with_children_pids x get (suc fuel) p ≡ fill_with_children_pids x get fuel n
  unfolding fill_with_children_pids
  fill_single fuel p n e name =
      ground (arith, not_blank n [] name, split-join n [] name tt, e ∙ join_one n)

  fill_many :
      (fuel : ℕ) (p n m : String) (ns : List String)
      → get p ≡ join (n ∷ m ∷ ns) "\n"
      → All IsName (n ∷ m ∷ ns)
      → fill_with_children_pids x get (suc fuel) p
        ≡ each (fill_with_children_pids x get fuel) (n ∷ m ∷ ns)
  unfolding fill_with_children_pids
  fill_many fuel p n m ns e name =
      ground (arith, not_blank n (m ∷ ns) name.0, split-join n (m ∷ ns) name.0 name.1)

  fill_none :
      (fuel : ℕ) (p : String)
      → get p ≡ join [] "\n"
      → fill_with_children_pids x get (suc fuel) p ≡ some (p ∷ [])
  unfolding fill_with_children_pids join
  fill_none fuel p e = ground (arith, lawful.not_blank_lem "", lawful.blank_lem "")

  mutual
    unfolding each leaves size Describes

    fill-leaves :
        (t : ProcessTree) (fuel : ℕ)
        → Describes get t
        → size t ≤ fuel
        → fill_with_children_pids x get fuel (root t) ≡ some (leaves t)
    fill-leaves (proc p ts) zero d h = absurd (omega arith)
    fill-leaves (proc p nil) (suc fuel) d h = fill_none fuel p d.0
    fill-leaves (proc p (cons t nil)) (suc fuel) d h =
        fill_single fuel p (root t) d.0 d.1.0
        ∙ fill-leaves t fuel d.1.1 (omega arith)
        ∙ ap some (sym (append-nil (leaves t)))
    fill-leaves (proc p (cons t (cons u ts))) (suc fuel) d h =
        fill_many fuel p (root t) (root u) (roots ts) d.0 (names (cons t (cons u ts)) d.1)
        ∙ each-leaves (cons t (cons u ts)) fuel d.1 (omega arith)

    each-leaves :
        (ts : Forest) (fuel : ℕ)
        → DescribesAll get ts
        → size_of ts ≤ fuel
        → each (fill_with_children_pids x get fuel) (roots ts) ≡ some (leaves_of ts)
    each-leaves nil fuel d h = refl
    each-leaves (cons t ts) fuel d h =
        each-cons (fill_with_children_pids x get fuel) (root t) (roots ts)
          (fill-leaves t fuel d.1 (omega arith)) (each-leaves ts fuel d.2 (omega arith))

-- With fuel for the number of processes in the tree, the processes that are collected are its leaves,
-- from left to right.
pub fill_with_children_pids-leaves :
    (x : External) (get : String → String) (t : ProcessTree) (fuel : ℕ)
    → IsLawful x
    → Describes get t
    → size t ≤ fuel
    → fill_with_children_pids x get fuel (root t) ≡ some (leaves t)
fill_with_children_pids-leaves x get t fuel lawful d h = fill-leaves x lawful get t fuel d h
