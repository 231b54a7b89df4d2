-- ===== src/Watch/Starting.antt =====
-- Which informers run (pkg/controller/informer.go).
use kubewatch.Common.{
  All, All-append, Bool, Bool-cases, List, Option, Option-cases, String, [], ap, arith, false,
  if◌then◌else◌, inl, inr, none, not, refl, some, sym, true, ◌&&◌, ◌++◌, ◌↔◌, ◌∷◌, ◌≡◌, ◌≢◌,
}
use kubewatch.Common.Result.{Result, Result-cases, err, ok}
use kubewatch.Pod.Workflow.{cd_workflow_status_update, workflow_status_update_topic}
use kubewatch.Watch.{
  AcdConfig, CdConfig, CiConfig, ExternalConfig, Outgoing, Running, Surroundings,
  application_informer, namespace_for, nats_message, on_workflow_update, panicked, rest_post, start,
  start_acd, start_cd, waiting, workflow_informer,
}

-- A post to the listener with its token.
abbrev pub IsPostTo : ExternalConfig → Outgoing → Type 0
IsPostTo ext (rest_post url token topic body) = (url ≡ ext.listener_url) × (token ≡ ext.token)
IsPostTo ext (nats_message topic body) = ⊥

-- An informer of workflows in the external namespace, whose updates go to the listener only.
abbrev pub IsExternal : ExternalConfig → Running → Type 0
IsExternal ext (workflow_informer namespace topic) =
    (namespace ≡ ext.namespace)
    × ((has_client : Bool) (status : Option (Result String))
        → All (IsPostTo ext) (on_workflow_update ext has_client topic status))
IsExternal ext (application_informer namespace) = ⊥

update-IsPostTo :
    (ext : ExternalConfig)
    → ext.external ≡ true
    → (topic : String) (has_client : Bool) (status : Option (Result String))
    → All (IsPostTo ext) (on_workflow_update ext has_client topic status)
unfolding on_workflow_update
update-IsPostTo ext h topic has_client none = tt
update-IsPostTo ext h topic has_client (some (err e)) = tt
update-IsPostTo ext h topic has_client (some (ok body)) =
    rw (on_workflow_update, h) ((refl, refl), tt)

external-IsExternal :
    (ext : ExternalConfig)
    → ext.external ≡ true
    → (default_namespace topic : String)
    → IsExternal ext (workflow_informer (namespace_for ext default_namespace) topic)
external-IsExternal ext h default_namespace topic = (rw h refl, update-IsPostTo ext h topic)

-- The informer, if it is asked for.
abbrev pub when : Bool → Running → List Running
when asked informer = if asked then informer ∷ [] else []

abbrev pub asked_ci : ExternalConfig → CiConfig → List Running
asked_ci ext ci =
    when ci.ci_informer
      (workflow_informer (namespace_for ext ci.default_namespace) workflow_status_update_topic)

abbrev pub asked_cd : ExternalConfig → CdConfig → List Running
asked_cd ext cd =
    when cd.cd_informer
      (workflow_informer (namespace_for ext cd.default_namespace) cd_workflow_status_update)

abbrev pub asked_acd : ExternalConfig → AcdConfig → List Running
asked_acd ext acd =
    when (acd.acd_informer && not ext.external) (application_informer acd.acd_namespace)

append_nil : (xs : List Running) → xs ++ [] ≡ xs
append_nil [] = refl
append_nil (x ∷ xs) = ap (λ l. x ∷ l) (append_nil xs)

module _ (ext : ExternalConfig) (around : Surroundings) where
  -- What `start_acd` keeps where the configuration is external.
  start_acd-external :
      ext.external ≡ true
      → (started : List Running) → All (IsExternal ext) started
      → ((start_acd ext around started).0 ≢ panicked)
        × All (IsExternal ext) (start_acd ext around started).1
  unfolding start_acd
  start_acd-external h started all = elim (Result-cases around.acd) [
    | inr (m, e) ↦ rw (start_acd, e) ((λ p. cc p), all)
    | inl (acd, e) ↦
        let skip : (acd.acd_informer && not ext.external) ≡ false = ground arith in
        rw (start_acd, e, skip) ((λ p. cc p), all)
  ]

  start_cd-external :
      ext.external ≡ true
      → (started : List Running) → All (IsExternal ext) started
      → ((start_cd ext around started).0 ≢ panicked)
        × All (IsExternal ext) (start_cd ext around started).1
  unfolding start_cd
  start_cd-external h started all = elim (Result-cases around.cd) [
    | inr (m, e) ↦ rw (start_cd, e) ((λ p. cc p), all)
    | inl (cd, e) ↦ elim (Bool-cases cd.cd_informer) [
      | inl i ↦
          rw (start_cd, e, i)
            (start_acd-external h _ (
              All-append (IsExternal ext) started _ all
                (external-IsExternal ext h cd.default_namespace cd_workflow_status_update, tt)))
      | inr i ↦ rw (start_cd, e, i) (start_acd-external h started all)
    ]
  ]

  start-found :
      ext.external ≡ true
      → around.k8s_config ≡ none
      → ((start ext around).0 ≢ panicked) × All (IsExternal ext) (start ext around).1
  unfolding start
  start-found h k = elim (Option-cases around.http_client) [
    | inr (m, p) ↦ rw (start, k, p) ((λ e. cc e), tt)
    | inl p ↦ elim (Option-cases around.dynamic_client) [
      | inr (m, q) ↦ rw (start, k, p, q) ((λ e. cc e), tt)
      | inl q ↦ elim (Result-cases around.ci) [
        | inr (m, r) ↦ rw (start, k, p, q, r) ((λ e. cc e), tt)
        | inl (ci, r) ↦ elim (Bool-cases ci.ci_informer) [
          | inl i ↦
              rw (start, k, p, q, r, i)
                (start_cd-external h _
                  (external-IsExternal ext h ci.default_namespace workflow_status_update_topic, tt))
          | inr i ↦ rw (start, k, p, q, r, i) (start_cd-external h [] tt)
        ]
      ]
    ]
  ]

  -- With an external listener, the start panics exactly where no configuration of Kubernetes is
  -- found. Each informer that it starts is one of workflows in the external namespace; whatever is
  -- updated there, all that is sent is posted to the listener with its token.
  pub start-external :
      ext.external ≡ true
      → (((start ext around).0 ≡ panicked) ↔ (around.k8s_config ≢ none))
        × All (IsExternal ext) (start ext around).1
  unfolding start
  start-external h = elim (Option-cases around.k8s_config) [
    | inr (m, k) ↦ rw (start, k) (((λ e n. cc n), (λ n. refl)), tt)
    | inl k ↦
        let (fine, all) = start-found h k in (((λ e. absurd (fine e)), (λ n. absurd (n k))), all)
  ]

  start_acd_lem :
      {acd : AcdConfig} (started : List Running)
      → around.argo_client ≡ none
      → around.acd ≡ ok acd
      → start_acd ext around started ≡ (waiting, started ++ asked_acd ext acd)
  unfolding start_acd
  start_acd_lem {acd} started a r = elim (Bool-cases (acd.acd_informer && not ext.external)) [
    | inl k ↦ rw (start_acd, r, k, a) refl
    | inr k ↦ rw (start_acd, r, k) (ap (λ l. (waiting, l)) (sym (append_nil started)))
  ]

  start_cd_lem :
      {cd : CdConfig} {acd : AcdConfig} (started : List Running)
      → around.argo_client ≡ none
      → around.cd ≡ ok cd
      → around.acd ≡ ok acd
      → start_cd ext around started ≡ (waiting, (started ++ asked_cd ext cd) ++ asked_acd ext acd)
  unfolding start_cd
  start_cd_lem {cd} {acd} started a q r = elim (Bool-cases cd.cd_informer) [
    | inl j ↦ rw (start_cd, q, j) (start_acd_lem _ a r)
    | inr j ↦ rw (start_cd, q, j, append_nil started) (start_acd_lem started a r)
  ]

  -- Where nothing fails, the start waits with the informer of CI workflows if it is asked for, then
  -- that of CD workflows if it is asked for, each in the external namespace if there is an external
  -- listener and in its own if not, and then the informer of applications if it is asked for and
  -- there is no external listener.
  pub start_lem :
      {ci : CiConfig} {cd : CdConfig} {acd : AcdConfig}
      → around.k8s_config ≡ none
      → around.http_client ≡ none
      → around.dynamic_client ≡ none
      → around.argo_client ≡ none
      → around.ci ≡ ok ci
      → around.cd ≡ ok cd
      → around.acd ≡ ok acd
      → start ext around ≡ (waiting, (asked_ci ext ci ++ asked_cd ext cd) ++ asked_acd ext acd)
  unfolding start
  start_lem {ci} {cd} {acd} k h d a p q r =
      rw (start, k, h, d, p) (start_cd_lem (asked_ci ext ci) a q r)
