-- ===== src/Tests/VerdictTests.antt =====
-- Runs and instances for the verdict on a failed pod (pkg/informer/K8sInformer.go).
use kubewatch.Common.{
  All, Permᴰ, [], ap, arith, here, inl, refl, subst, sym, there, ◌∙◌, ◌∷◌, ◌≡◌, ◌≢◌, ◌⊎◌,
}
use kubewatch.Common.Int.{pos}
use kubewatch.Pod.{ContainerStatus, Pod, node_succeeded, wait_container_name}
use kubewatch.Pod.Reason.{infer_failed_reason, order}
use kubewatch.Pod.Harmless.{IsHarmless}
use kubewatch.Pod.Verdict.{Blames, Decides, infer_failed_reason-Blames}
use kubewatch.Pod.Unordered.{HasOneCulprit, IsReordered, infer_failed_reason-unordered}
use kubewatch.Tests.Sorting.{insertion_sort, insertion_sort-SortLaws}
use kubewatch.Tests.PodSamples.{
  argo, argo-ArgoLaws, clock, done, ended, killed, killed_pod, main_killed,
}
use kubewatch.Pod.Failure.{rank}
use kubewatch.Pod.Message.{IsVerdict, assess_node_status-IsVerdict}
use kubewatch.Pod.Status.{assess_node_status}

infer_failed_reason-Blames_example :
    let v = (infer_failed_reason insertion_sort killed_pod).0 in
    ((v ≡ (node_succeeded, ""))
      × All IsHarmless killed_pod.init_container_statuses
      × All IsHarmless killed_pod.container_statuses)
    ⊎ ((c : ContainerStatus) × Decides c killed_pod × Blames c v)
infer_failed_reason-Blames_example =
    infer_failed_reason-Blames insertion_sort insertion_sort-SortLaws killed_pod refl

abbrev turned_pod : Pod
turned_pod = record killed_pod {
  container_statuses =
      ended wait_container_name done
      ∷ ended "proxy" (record killed { exit_code = pos 1 })
      ∷ main_killed
      ∷ [];
}

turned : IsReordered killed_pod turned_pod
turned = record { same_message = refl; same_init = refl; reordered = Permᴰ.swap refl refl }

abbrev proxy_failed : ContainerStatus
proxy_failed = ended "proxy" (record killed { exit_code = pos 1 })

wait-IsHarmless : IsHarmless (ended wait_container_name done)
wait-IsHarmless = (refl, inl refl)

ranks_differ : rank proxy_failed ≢ rank main_killed
unfolding order
ranks_differ e = omega (arith, e)

-- Main and the proxy are not harmless, and differ in rank; the one called wait is harmless.
one_culprit : HasOneCulprit killed_pod.container_statuses
one_culprit c d (here e) (here f) r n m = e ∙ sym f
one_culprit c d (here e) (there (here f)) r n m =
    absurd (m (subst IsHarmless (sym f) wait-IsHarmless))
one_culprit c d (here e) (there (there (here f))) r n m =
    absurd (ranks_differ (ap rank (sym e) ∙ r ∙ ap rank f))
one_culprit c d (there (here e)) h r n m = absurd (n (subst IsHarmless (sym e) wait-IsHarmless))
one_culprit c d (there (there (here e))) (here f) r n m =
    absurd (ranks_differ (ap rank (sym f) ∙ sym r ∙ ap rank e))
one_culprit c d (there (there (here e))) (there (here f)) r n m =
    absurd (m (subst IsHarmless (sym f) wait-IsHarmless))
one_culprit c d (there (there (here e))) (there (there (here f))) r n m = e ∙ sym f
one_culprit c d (here e) (there (there (there h))) r n m = elim h [ ]
one_culprit c d (there (there (here e))) (there (there (there h))) r n m = elim h [ ]
one_culprit c d (there (there (there h))) k r n m = elim h [ ]

infer_failed_reason-unordered_example :
    (infer_failed_reason insertion_sort killed_pod).0
    ≡ (infer_failed_reason insertion_sort turned_pod).0
infer_failed_reason-unordered_example =
    infer_failed_reason-unordered insertion_sort insertion_sort insertion_sort-SortLaws
      insertion_sort-SortLaws killed_pod turned_pod turned one_culprit

assess_node_status-IsVerdict_example :
    let node = (assess_node_status insertion_sort argo clock killed_pod).0 in
    IsVerdict killed_pod (node.phase, node.message)
assess_node_status-IsVerdict_example =
    assess_node_status-IsVerdict insertion_sort argo clock argo-ArgoLaws insertion_sort-SortLaws
      killed_pod
