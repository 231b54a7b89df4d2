-- ===== src/Controller/Processing.antt =====
-- What the event handler is told of an event (pkg/controller/controller.go).
use kubewatch.Common.{
  String, [], arith, eq_iff, inl, inr, length, none, refl, ◌<◌, ◌↔◌, ◌≡◌, ◌≢◌, ◌≤◌, ◌⊎◌,
}
use kubewatch.Common.Result.{Result, Result-cases, err, ok}
use kubewatch.Pod.{Time}
use kubewatch.Objects.{Object, get_object_meta_data}
use kubewatch.Controller.{InformerEvent, process_item}

-- Whether an event makes a call: a creation only if the object was made after the server started.
abbrev pub IsReported : Time → Object → InformerEvent → Type 0
IsReported start obj e =
    ((e.event_type ≡ "create") × (start < (get_object_meta_data obj).creation_timestamp))
    ⊎ ((e.event_type ≡ "update") ⊎ (e.event_type ≡ "delete"))

module _ (get_by_key : String → Result Object) (start : Time) where
  process_found :
      (e : InformerEvent) {obj : Object}
      → get_by_key e.key ≡ ok obj
      → ((process_item get_by_key start e).0 ≡ none)
        × (length (process_item get_by_key start e).1 ≤ 1)
  unfolding process_item
  process_found e h = rw (process_item, h) (ground arith)

  process_found_iff :
      (e : InformerEvent) {obj : Object}
      → get_by_key e.key ≡ ok obj
      → ((process_item get_by_key start e).1 ≢ []) ↔ IsReported start obj e
  unfolding process_item
  process_found_iff e h =
      rw (process_item, h)
        (ground (
          arith,
          eq_iff e.event_type "create",
          eq_iff e.event_type "update",
          eq_iff e.event_type "delete",
          eq_iff "create" "update",
          eq_iff "create" "delete",
          eq_iff "update" "delete",
        ))

  -- Processing fails exactly when the store does. If not, it makes at most one call of the event
  -- handler, and makes none exactly when the event is not reported: its type is not one of create,
  -- update and delete, or it is a creation of an object no younger than the server.
  pub process_item_lem :
      (e : InformerEvent)
      → ((m : String) × (get_by_key e.key ≡ err m)
          × ((process_item get_by_key start e).0 ≢ none)
          × ((process_item get_by_key start e).1 ≡ []))
        ⊎ ((obj : Object) × (get_by_key e.key ≡ ok obj)
            × ((process_item get_by_key start e).0 ≡ none)
            × (((process_item get_by_key start e).1 ≢ []) ↔ IsReported start obj e)
            × (length (process_item get_by_key start e).1 ≤ 1))
  unfolding process_item
  process_item_lem e = elim (Result-cases (get_by_key e.key)) [
    | inl (obj, h) ↦
        let run = process_found e h in inr (obj, h, run.0, process_found_iff e h, run.1)
    | inr (m, h) ↦ inl (m, h, rw (process_item, h) (λ p. cc), rw (process_item, h) refl)
  ]

  -- The namespace of an event is used for a deletion only.
  pub process_item-namespace :
      (e : InformerEvent) (namespace : String)
      → e.event_type ≢ "delete"
      → process_item get_by_key start (record e { namespace = namespace })
        ≡ process_item get_by_key start e
  unfolding process_item
  process_item-namespace e namespace h = elim (Result-cases (get_by_key e.key)) [
    | inl (obj, k) ↦ rw (process_item, k) (ground (arith, eq_iff e.event_type "delete"))
    | inr (m, k) ↦ rw (process_item, k) refl
  ]
