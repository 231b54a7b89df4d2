-- ===== src/Commands/Resources.antt =====
-- What the commands make of the resources to watch (cmd/resource.go).
use kubewatch.Common.{Bool, String, arith, false, refl, true, ◌↔◌, ◌≡◌, ◌⊎◌}
use kubewatch.Common.Result.{ok}
use kubewatch.Config.{Config, Resource}
use kubewatch.Commands.{
  Flags, Operation, add, apply_flags, configure_resource, remove, watched_after,
}

-- The flags of a command line: a flag that was not given is false.
abbrev pub flags_of : (String → Bool) → Flags
flags_of given = record { get_bool = λ name. ok (given name); get_string = λ name. ok "" }

-- What an operation makes of a field whose flag was given or not.
abbrev pub Edited : Operation → Bool → Bool → Bool → Type 0
Edited add b before after = (after ≡ true) ↔ ((before ≡ true) ⊎ (b ≡ true))
Edited remove b before after = (after ≡ true) ↔ ((before ≡ true) × (b ≡ false))

edited : (o : Operation) (b before : Bool) → Edited o b before (watched_after o b before)
edited add b before = ground arith
edited remove b before = ground arith

-- Each of the thirteen fields is edited by its flag alone.
abbrev pub EditedBy : Operation → (String → Bool) → Resource → Resource → Type 0
EditedBy o given r s =
    Edited o (given "svc") r.services s.services
    × Edited o (given "deploy") r.deployment s.deployment
    × Edited o (given "po") r.pod s.pod
    × Edited o (given "rs") r.replica_set s.replica_set
    × Edited o (given "rc") r.replication_controller s.replication_controller
    × Edited o (given "ns") r.namespace s.namespace
    × Edited o (given "job") r.job s.job
    × Edited o (given "pv") r.persistent_volume s.persistent_volume
    × Edited o (given "ds") r.daemon_set s.daemon_set
    × Edited o (given "secret") r.secret s.secret
    × Edited o (given "cm") r.config_map s.config_map
    × Edited o (given "ing") r.ingress s.ingress
    × Edited o (given "events") r.events s.events
    × (s.workflow ≡ r.workflow)

-- `resource add` turns on exactly the fields whose flags are given, and `resource remove` turns
-- exactly those off; every other field of the configuration stays as it is.
pub configure_resource_lem :
    (o : Operation) (given : String → Bool) (conf : Config)
    → (s : Resource) × (configure_resource o (flags_of given) conf
        ≡ ok (record conf { resource = s }))
      × EditedBy o given conf.resource s
unfolding configure_resource apply_flags
configure_resource_lem o given conf =
    let r = conf.resource in
    (
      _,
      refl,
      (
        edited o (given "svc") r.services,
        edited o (given "deploy") r.deployment,
        edited o (given "po") r.pod,
        edited o (given "rs") r.replica_set,
        edited o (given "rc") r.replication_controller,
        edited o (given "ns") r.namespace,
        edited o (given "job") r.job,
        edited o (given "pv") r.persistent_volume,
        edited o (given "ds") r.daemon_set,
        edited o (given "secret") r.secret,
        edited o (given "cm") r.config_map,
        edited o (given "ing") r.ingress,
        edited o (given "events") r.events,
        refl,
      ),
    )
