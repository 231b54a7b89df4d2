-- ===== src/Tests/EventTests.antt =====
-- Runs and instances for the events (pkg/event/event.go).
use kubewatch.Common.{[], refl, ◌∷◌, ◌≡◌}
use kubewatch.Objects.{
  CoreEvent, Object, ObjectMeta, core_event, get_object_meta_data, kubewatch_event, zero_event,
}
use kubewatch.Event.{describe, get_rollout_event_metadata, message_of, new, overwrite}

abbrev shop : ObjectMeta
shop = record { name = "shop"; namespace = "prod"; creation_timestamp = 50; annotations = [] }

abbrev rollout : CoreEvent
rollout = record {
  meta = record shop { annotations = ("pipelineName", "cd") ∷ [] };
  involved_object = record {
    kind = "Rollout";
    namespace = "prod";
    name = "shop";
    uid = "u1";
    resource_version = "7";
  };
  reason = "RolloutUpdated";
  message = "Rollout updated to revision 7";
  source_component = "rollouts-controller";
}

rollout_message :
    message_of (new (core_event rollout) "created")
    ≡ "A `Rollout` in namespace `prod` has been `RolloutUpdated`:\n`shop`"
unfolding message_of new describe overwrite get_rollout_event_metadata get_object_meta_data
rollout_message = refl

abbrev told : Object
told = kubewatch_event (record zero_event { kind = "Event"; message = "Rollout updated" })

told_kind : (new told "updated").kind ≡ "Event"
unfolding new describe overwrite
told_kind = refl
