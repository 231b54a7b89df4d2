-- ===== src/Handlers/Hipchat.antt =====
-- The handler that notifies a Hipchat room (pkg/handlers/hipchat/hipchat.go).
use kubewatch.Common.{
  Bool, List, Option, String, [], concat, if◌then◌else◌, int_eq, lookup, nat_eq, none, not, some,
  string_eq, true, ◌==◌, ◌||◌, ◌∷◌,
}
use kubewatch.Common.Result.{Result, err, ok}
use kubewatch.Config.{Config, Environment}
use kubewatch.Objects.{Event, Object}
use kubewatch.Event.{message_of, new, text_or_empty}
use kubewatch.Handlers.{InitError, fallback, missing}

pub record HipchatHandler : Type 0 where
  pub token : String
  pub room : String
  pub url : String

pub record NotificationRequest : Type 0 where
  pub message : String
  pub notify : Bool
  pub from : String
  pub color : String

-- A call of `Room.Notification` of the client of a token, with the base URL if one was set.
pub record HipchatPost : Type 0 where
  pub token : String
  pub base_url : Option String
  pub room : String
  pub request : NotificationRequest

abbrev pub hipchat_colors : List (String × String)
hipchat_colors = ("Normal", "green") ∷ ("Warning", "yellow") ∷ ("Danger", "red") ∷ []

-- The usage text of the error.
unfoldable pub hipchat_err_msg : String → String
hipchat_err_msg problem = concat (
    "\n" ∷ problem ∷ "\n\n" ∷ "You need to set both hipchat token and room for hipchat notify,\n"
    ∷ "using \"--token/-t\", \"--room/-r\", and \"--url/-u\" or using environment variables:\n\n"
    ∷ "export KW_HIPCHAT_TOKEN=hipchat_token\n" ∷ "export KW_HIPCHAT_ROOM=hipchat_room\n"
    ∷ "export KW_HIPCHAT_URL=hipchat_url (defaults to https://api.hipchat.com/v2)\n\n"
    ∷ "Command line flags will override environment variables\n\n" ∷ [])

unfoldable pub check_missing_hipchat_vars : HipchatHandler → Option InitError
check_missing_hipchat_vars s =
    if s.token == "" || s.room == ""
    then some (missing (hipchat_err_msg "Missing hipchat token or room"))
    else none

unfoldable pub init_hipchat : Environment → Config → Option InitError × HipchatHandler
init_hipchat env c =
    let s : HipchatHandler = record {
      token = fallback env "KW_HIPCHAT_TOKEN" c.handler.hipchat.token;
      room = fallback env "KW_HIPCHAT_ROOM" c.handler.hipchat.room;
      url = fallback env "KW_HIPCHAT_URL" c.handler.hipchat.url;
    } in
    (check_missing_hipchat_vars s, s)

unfoldable pub prepare_hipchat_notification : Event → NotificationRequest
prepare_hipchat_notification e = record {
  message = message_of e;
  notify = true;
  from = "kubewatch";
  color = text_or_empty (lookup e.status hipchat_colors);
}

-- What is posted, or `none` for a panic. `parse` is `url.Parse`.
unfoldable pub notify_hipchat :
    (String → Result String) → HipchatHandler → Object → String → Option HipchatPost
notify_hipchat parse s obj action =
    let request = prepare_hipchat_notification (new obj action) in
    if not (s.url == "")
    then elim (parse s.url) [
      | err e ↦ none
      | ok base_url ↦
          some
            (record { token = s.token; base_url = some base_url; room = s.room; request = request })
    ]
    else some (record { token = s.token; base_url = none; room = s.room; request = request })

module _ (parse : String → Result String) (s : HipchatHandler) where
  unfoldable pub hipchat_object_created : Object → Option HipchatPost
  hipchat_object_created obj = notify_hipchat parse s obj "created"

  unfoldable pub hipchat_object_deleted : Object → Option HipchatPost
  hipchat_object_deleted obj = notify_hipchat parse s obj "deleted"

  unfoldable pub hipchat_object_updated : Object → Object → Option HipchatPost
  hipchat_object_updated old_obj new_obj = notify_hipchat parse s new_obj "updated"
