-- ===== src/Commands/Tree/Reads.antt =====
-- Each edit of the configuration reads flags that are declared for its command (cmd).
use kubewatch.Common.{
  All, Bool, Bool-cases, Has, List, String, [], ap, eq_iff, false, here, inl, inr, int_eq, nat_eq,
  refl, string_eq, sym, there, true, ◌==◌, ◌||◌, ◌∷◌, ◌≡◌,
}
use kubewatch.Common.Result.{Result, err, ok}
use kubewatch.Config.{Config, Resource}
use kubewatch.Commands.{
  FlagEntry, Flags, Operation, apply_flags, configure_flock, configure_hipchat,
  configure_mattermost, configure_resource, configure_slack, configure_webhook, resource_flags,
  watched_after,
}
use kubewatch.Commands.Tree.{
  Below, CommandName, Declaration, IsDeclared, flock_config_cmd, hipchat_config_cmd,
  mattermost_config_cmd, own, own_flags, persistent, persistent_flags, resource_config_cmd,
  slack_config_cmd, switch_flag, switches, text_flag, webhook_config_cmd,
}

-- What cobra documents of the flags of a command: a flag that is declared can be read as what it
-- was declared.
pub record Serves (flags : Flags) (c : CommandName) : Type 0 where
  pub serves_text :
      (name : String)
      → IsDeclared (name, text_flag) c
      → (v : String) × (flags.get_string name ≡ ok v)
  pub serves_switch :
      (name : String) → IsDeclared (name, switch_flag) c → (b : Bool) × (flags.get_bool name ≡ ok b)

abbrev pub IsRead : Result Config → Type 0
IsRead (err e) = ⊥
IsRead (ok conf) = Unit

abbrev pub IsEdit : (Config → Result Config) → Type 0
IsEdit edit = (conf : Config) → IsRead (edit conf)

-- Each name of some entries can be read.
abbrev AllRead : Flags → List FlagEntry → Type 0
AllRead flags = All (λ entry. (b : Bool) × (flags.get_bool entry.0 ≡ ok b))

apply_flags-read :
    (o : Operation) (flags : Flags) (entries : List FlagEntry) (r : Resource)
    → AllRead flags entries
    → (s : Resource) × (apply_flags o flags entries r ≡ ok s)
unfolding apply_flags
apply_flags-read o flags [] r h = (r, refl)
apply_flags-read o flags ((name, update) ∷ entries) r ((b, e), hs) =
    let (s, run) = apply_flags-read o flags entries (update (watched_after o b) r) hs in
    (s, rw (apply_flags, e) run)

-- Whether a switch of a name is in some declarations.
abbrev has_switch : String → List Declaration → Bool
has_switch name [] = false
has_switch name ((other, switch_flag) ∷ ds) = other == name || has_switch name ds
has_switch name ((other, text_flag) ∷ ds) = has_switch name ds

has_switch-Has :
    (name : String) (ds : List Declaration) → has_switch name ds ≡ true → Has (name, switch_flag) ds
has_switch-Has name [] h = cc
has_switch-Has name ((other, text_flag) ∷ ds) h = there (has_switch-Has name ds h)
has_switch-Has name ((other, switch_flag) ∷ ds) h = elim (Bool-cases (other == name)) [
  | inl e ↦ here (ap (λ n. (n, switch_flag)) (sym ((eq_iff other name).0 e)))
  | inr e ↦ there (has_switch-Has name ds (rw e at h))
]

-- The persistent flags of `resource` can be read by the commands below it.
switches_read :
    (flags : Flags) {c : CommandName}
    → Serves flags c
    → Below resource_config_cmd c
    → AllRead flags resource_flags
unfolding persistent_flags
switches_read flags serves below =
    let at : (name : String)
        → has_switch name switches ≡ true
        → (b : Bool) × (flags.get_bool name ≡ ok b) =
      λ name h. serves.serves_switch name (persistent below (has_switch-Has name switches h)) in
    (
      at "svc" refl,
      (
        at "deploy" refl,
        (
          at "po" refl,
          (
            at "rs" refl,
            (
              at "rc" refl,
              (
                at "ns" refl,
                (
                  at "job" refl,
                  (
                    at "pv" refl,
                    (
                      at "ds" refl,
                      (at "secret" refl, (at "cm" refl, (at "ing" refl, (at "events" refl, tt)))),
                    ),
                  ),
                ),
              ),
            ),
          ),
        ),
      ),
    )

pub resource-IsEdit :
    (o : Operation) (flags : Flags) {c : CommandName}
    → Serves flags c
    → Below resource_config_cmd c
    → IsEdit (configure_resource o flags)
unfolding configure_resource
resource-IsEdit o flags serves below conf =
    let (s, run) =
      apply_flags-read o flags resource_flags conf.resource (switches_read flags serves below) in
    rw (configure_resource, run) tt

-- Where a command has its own flags, each is read as a text.
own_read :
    (flags : Flags) (c : CommandName) (name : String)
    → Serves flags c
    → Has (name, text_flag) (own_flags c)
    → (v : String) × (flags.get_string name ≡ ok v)
own_read flags c name serves h = serves.serves_text name (own h)

pub first : {A : Type 0} {a : A} {xs : List A} → Has a (a ∷ xs)
first = here refl

pub slack-IsEdit : (flags : Flags) → Serves flags slack_config_cmd → IsEdit (configure_slack flags)
unfolding configure_slack own_flags
slack-IsEdit flags serves conf =
    let (token, t) = own_read flags slack_config_cmd "token" serves (there first) in
    let (channel, c) = own_read flags slack_config_cmd "channel" serves first in
    rw (configure_slack, t, c) tt

pub hipchat-IsEdit :
    (flags : Flags) → Serves flags hipchat_config_cmd → IsEdit (configure_hipchat flags)
unfolding configure_hipchat own_flags
hipchat-IsEdit flags serves conf =
    let (token, t) = own_read flags hipchat_config_cmd "token" serves (there first) in
    let (room, r) = own_read flags hipchat_config_cmd "room" serves first in
    rw (configure_hipchat, t, r) tt

pub mattermost-IsEdit :
    (flags : Flags) → Serves flags mattermost_config_cmd → IsEdit (configure_mattermost flags)
unfolding configure_mattermost own_flags
mattermost-IsEdit flags serves conf =
    let (channel, c) = own_read flags mattermost_config_cmd "channel" serves first in
    let (url, u) = own_read flags mattermost_config_cmd "url" serves (there first) in
    let (username, n) =
      own_read flags mattermost_config_cmd "username" serves (there (there first)) in
    rw (configure_mattermost, c, u, n) tt

pub flock-IsEdit : (flags : Flags) → Serves flags flock_config_cmd → IsEdit (configure_flock flags)
unfolding configure_flock own_flags
flock-IsEdit flags serves conf =
    let (url, u) = own_read flags flock_config_cmd "url" serves first in rw (configure_flock, u) tt

pub webhook-IsEdit :
    (flags : Flags) → Serves flags webhook_config_cmd → IsEdit (configure_webhook flags)
unfolding configure_webhook own_flags
webhook-IsEdit flags serves conf =
    let (url, u) = own_read flags webhook_config_cmd "url" serves first in
    rw (configure_webhook, u) tt
