-- ===== src/Tests/Sorting.antt =====
-- An insertion sort that meets the laws assumed of `sort.Slice`.
use kubewatch.Common.{
  All, All-perm, Bool, Bool-cases, IsSortedBy, List, Permᴰ, [], arith, if◌then◌else◌, inl, inr, ltb,
  refl, ℕ, ◌∷◌, ◌≤◌,
}
use kubewatch.Common.Permᴰ
use kubewatch.Pod.{ContainerStatus}
use kubewatch.Pod.Failure.{SortLaws}

module _ (less : ContainerStatus → ContainerStatus → Bool) where
  abbrev insert_by : ContainerStatus → List ContainerStatus → List ContainerStatus
  insert_by x [] = x ∷ []
  insert_by x (y ∷ ys) = if less y x then y ∷ insert_by x ys else x ∷ y ∷ ys

  abbrev pub insertion_sort : List ContainerStatus → List ContainerStatus
  insertion_sort [] = []
  insertion_sort (x ∷ xs) = insert_by x (insertion_sort xs)

  insert_by-perm :
      (x : ContainerStatus) (ys : List ContainerStatus) → Permᴰ (x ∷ ys) (insert_by x ys)
  insert_by-perm x [] = Permᴰ.refl (x ∷ [])
  insert_by-perm x (y ∷ ys) = elim (Bool-cases (less y x)) [
    | inl e ↦ rw e (Permᴰ.trans (Permᴰ.swap refl refl) (Permᴰ.cons refl (insert_by-perm x ys)))
    | inr e ↦ rw e (Permᴰ.refl (x ∷ y ∷ ys))
  ]

  insertion_sort-perm : (xs : List ContainerStatus) → Permᴰ xs (insertion_sort xs)
  insertion_sort-perm [] = Permᴰ.nil
  insertion_sort-perm (x ∷ xs) =
      Permᴰ.trans (Permᴰ.cons refl (insertion_sort-perm xs)) (insert_by-perm x (insertion_sort xs))

module _ (key : ContainerStatus → ℕ) where
  abbrev below : ContainerStatus → ContainerStatus → Bool
  below a b = ltb (key a) (key b)

  raise :
      (x y : ContainerStatus) (ys : List ContainerStatus)
      → key x ≤ key y
      → All (λ z. key y ≤ key z) ys
      → All (λ z. key x ≤ key z) ys
  raise x y [] l h = tt
  raise x y (z ∷ zs) l (p, h) = (omega arith, raise x y zs l h)

  insert_by-sorted :
      (x : ContainerStatus) (ys : List ContainerStatus)
      → IsSortedBy key ys
      → IsSortedBy key (insert_by below x ys)
  insert_by-sorted x [] s = (tt, tt)
  insert_by-sorted x (y ∷ ys) s = elim (Bool-cases (below y x)) [
    | inl e ↦ rw e (
      All-perm (λ z. key y ≤ key z) (insert_by-perm below x ys) (ground arith, s.0),
      insert_by-sorted x ys s.1,
    )
    | inr e ↦ rw e ((ground arith, raise x y ys (ground arith) s.0), s)
  ]

  insertion_sort-sorted : (xs : List ContainerStatus) → IsSortedBy key (insertion_sort below xs)
  insertion_sort-sorted [] = tt
  insertion_sort-sorted (x ∷ xs) =
      insert_by-sorted x (insertion_sort below xs) (insertion_sort-sorted xs)

pub insertion_sort-SortLaws : SortLaws insertion_sort
insertion_sort-SortLaws = record {
  perm = λ less l. insertion_sort-perm less l;
  sorted = λ key l. insertion_sort-sorted key l;
}
