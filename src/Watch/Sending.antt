-- ===== src/Watch/Sending.antt =====
-- Which updates of applications are sent (pkg/controller/informer.go).
use kubewatch.Common.{List, String, [], arith, eq_iff, refl, some, true, ◌↔◌, ◌∷◌, ◌≡◌, ◌≢◌, ◌⊎◌}
use kubewatch.Pod.{Time}
use kubewatch.Watch.{
  Application, Publisher, application_status_update_topic, is_empty, nats_message, on_app_update,
  send_app, send_app_update,
}

-- The application was deployed, and it was not before, or its revision, health or sync status is
-- another than before.
abbrev pub IsNews : Application → Application → Type 0
IsNews old new =
    (new.history ≢ [])
    × ((old.history ≡ [])
        ⊎ ((old.sync_revision ≢ new.sync_revision)
            ⊎ ((old.health_status ≢ new.health_status) ⊎ (old.sync_status ≢ new.sync_status))))

empty_iff : (xs : List String) → (is_empty xs ≡ true) ↔ (xs ≡ [])
empty_iff [] = ground arith
empty_iff (x ∷ xs) = ((λ p. cc p), (λ p. cc p))

-- With a client and where the details of the new state can be marshalled, an update of an
-- application is answered by one message with them on the topic of updates if it is news, and by
-- nothing if it is not.
pub on_app_update_lem :
    (publisher : Publisher) (old new : Application) (t : Time) {body : String}
    → publisher.has_client ≡ true
    → publisher.marshal new t ≡ some body
    → (IsNews old new
        → on_app_update publisher (some old) (some new) t
          ≡ nats_message application_status_update_topic body ∷ [])
      × (¬ IsNews old new → on_app_update publisher (some old) (some new) t ≡ [])
unfolding on_app_update send_app_update send_app
on_app_update_lem publisher old new t {body} h m =
    let sent : send_app_update publisher new t
        ≡ nats_message application_status_update_topic body ∷ [] =
      rw (send_app_update, send_app, h, m) refl in
    (
      λ news. ground (
        arith,
        sent,
        empty_iff new.history,
        empty_iff old.history,
        eq_iff old.sync_revision new.sync_revision,
        eq_iff old.health_status new.health_status,
        eq_iff new.sync_status old.sync_status,
      ),
      λ same. ground (
        arith,
        empty_iff new.history,
        empty_iff old.history,
        eq_iff old.sync_revision new.sync_revision,
        eq_iff old.health_status new.health_status,
        eq_iff new.sync_status old.sync_status,
      ),
    )
