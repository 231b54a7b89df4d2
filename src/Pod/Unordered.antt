-- ===== src/Pod/Unordered.antt =====
-- The verdict on a failed pod does not depend on the order in which its containers are reported, nor
-- on the way they are sorted (`inferFailedReason` of pkg/informer/K8sInformer.go).
use kubewatch.Common.{
  All, All-Has, Bool, Has, Has-perm, List, Permᴰ, String, ap, arith, eq_cases, eq_iff, inl, inr,
  some_eq, string_eq, subst, sym, ◌<◌, ◌∙◌, ◌≡◌,
}
use kubewatch.Common.Permᴰ
use kubewatch.Pod.{ContainerStatus, Pod}
use kubewatch.Pod.Harmless.{IsHarmless}
use kubewatch.Pod.Failure.{SortLaws, rank}
use kubewatch.Pod.Verdict.{
  Decides, IsFirst, IsJudged, by_init, by_rank, first, infer-IsJudged, later,
}
use kubewatch.Pod.Reason.{infer_failed_reason, judge}

first_unique :
    {c d : ContainerStatus} {cs : List ContainerStatus} → IsFirst c cs → IsFirst d cs → c ≡ d
first_unique (first e n) (first f m) = e ∙ sym f
first_unique (first e n) (later h g) = absurd (n (subst IsHarmless (sym e) h))
first_unique (later h f) (first e n) = absurd (n (subst IsHarmless (sym e) h))
first_unique (later h f) (later k g) = first_unique f g

first_harmful :
    {c : ContainerStatus} {cs : List ContainerStatus} → All IsHarmless cs → ¬ IsFirst c cs
first_harmful h (first e n) = n (subst IsHarmless (sym e) h.0)
first_harmful h (later k f) = first_harmful h.1 f

-- No two containers of one rank that differ are both not harmless.
abbrev pub HasOneCulprit : List ContainerStatus → Type 0
HasOneCulprit cs =
    (c d : ContainerStatus)
    → Has c cs
    → Has d cs
    → rank c ≡ rank d
    → ¬ IsHarmless c
    → ¬ IsHarmless d
    → c ≡ d

-- The same pod, with its containers reported in another order.
pub record IsReordered (p q : Pod) : Type 0 where
  pub same_message : p.message ≡ q.message
  pub same_init : p.init_container_statuses ≡ q.init_container_statuses
  pub reordered : Permᴰ p.container_statuses q.container_statuses

IsReordered-sym : {p q : Pod} → IsReordered p q → IsReordered q p
IsReordered-sym r = record {
  same_message = sym r.same_message;
  same_init = sym r.same_init;
  reordered = Permᴰ.symm r.reordered;
}

Decides-unique :
    (p q : Pod) {c d : ContainerStatus}
    → IsReordered p q
    → HasOneCulprit p.container_statuses
    → Decides c p
    → Decides d q
    → c ≡ d
Decides-unique p q {c} {d} r one (by_init f) (by_init g) =
    first_unique f (subst (λ l. IsFirst d l) (sym r.same_init) g)
Decides-unique p q {c} r one (by_init f) (by_rank h m n k) =
    absurd (first_harmful h (subst (λ l. IsFirst c l) r.same_init f))
Decides-unique p q {c} {d} r one (by_rank h m n k) (by_init g) =
    absurd (first_harmful h (subst (λ l. IsFirst d l) (sym r.same_init) g))
Decides-unique p q {c} {d} r one (by_rank h m n k) (by_rank h' m' n' k') =
    let back = Has-perm (Permᴰ.symm r.reordered) m' in
    let above : ¬ (rank c < rank d) = λ l. n (k' c (Has-perm r.reordered m) l) in
    let below : ¬ (rank d < rank c) = λ l. n' (k d back l) in
    one c d m back (omega (arith, above, below)) n n'

Decides-harmful :
    (p q : Pod) {c : ContainerStatus}
    → IsReordered p q
    → Decides c p
    → All IsHarmless q.init_container_statuses
    → ¬ All IsHarmless q.container_statuses
Decides-harmful p q r (by_init f) h k =
    first_harmful (subst (λ l. All IsHarmless l) (sym r.same_init) h) f
Decides-harmful p q r (by_rank h m n best) i k = n (All-Has IsHarmless k (Has-perm r.reordered m))

module _
    (sort_slice other_sort : (ContainerStatus → ContainerStatus → Bool)
      → List ContainerStatus
      → List ContainerStatus)
    (laws : SortLaws sort_slice) (other_laws : SortLaws other_sort) where
  same_judgement :
      (p q : Pod) {v w : String × String}
      → IsReordered p q
      → HasOneCulprit p.container_statuses
      → IsJudged sort_slice laws p v
      → IsJudged other_sort other_laws q w
      → v ≡ w
  same_judgement p q r one (inl (e, h, k)) (inl (f, h', k')) = e ∙ sym f
  same_judgement p q r one (inl (e, h, k)) (inr (d, by, j)) =
      absurd (Decides-harmful q p (IsReordered-sym r) by h k)
  same_judgement p q r one (inr (c, by, j)) (inl (f, h, k)) = absurd (Decides-harmful p q r by h k)
  same_judgement p q r one (inr (c, by, j)) (inr (d, by', j')) =
      some_eq (sym j ∙ ap judge (Decides-unique p q r one by by') ∙ j')

  -- If no two different containers of one rank (main, the one called wait, the rest) are both not
  -- harmless, then the verdict on a failed pod is the same in whatever order its containers are
  -- reported, and with whatever sort function, as long as that rearranges and leaves ascending.
  pub infer_failed_reason-unordered :
      (p q : Pod)
      → IsReordered p q
      → HasOneCulprit p.container_statuses
      → (infer_failed_reason sort_slice p).0 ≡ (infer_failed_reason other_sort q).0
  unfolding infer_failed_reason
  infer_failed_reason-unordered p q r one = elim (eq_cases ⦃e = string_eq⦄ p.message "") [
    | inl e ↦
        same_judgement p q r one (infer-IsJudged sort_slice laws p e)
          (infer-IsJudged other_sort other_laws q (sym r.same_message ∙ e))
    | inr n ↦ ground (arith, eq_iff p.message "", eq_iff q.message "", r.same_message)
  ]
