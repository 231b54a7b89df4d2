-- ===== src/Handlers/Flock.antt =====
-- The handler that posts to Flock (pkg/handlers/flock/flock.go).
use kubewatch.Common.{
  List, Option, String, [], concat, if◌then◌else◌, int_eq, lookup, nat_eq, none, some, string_eq,
  ◌==◌, ◌∷◌,
}
use kubewatch.Common.Result.{Result, ◌>>=◌}
use kubewatch.Config.{Config, Environment}
use kubewatch.Objects.{Event, Object}
use kubewatch.Event.{message_of, new, text_or_empty}
use kubewatch.Handlers.{InitError, Net, fallback, missing}

pub record FlockHandler : Type 0 where
  pub url : String

pub record FlockMessageAttachementViews : Type 0 where
  pub flockml : String

pub record FlockMessageAttachement : Type 0 where
  pub title : String
  pub color : String
  pub views : FlockMessageAttachementViews

pub record FlockMessage : Type 0 where
  pub notification : String
  pub text : String
  pub attachements : List FlockMessageAttachement

abbrev pub flock_colors : List (String × String)
flock_colors = ("Normal", "#00FF00") ∷ ("Warning", "#FFFF00") ∷ ("Danger", "#FF0000") ∷ []

-- The usage text of the error.
unfoldable pub flock_err_msg : String → String
flock_err_msg problem = concat (
    "\n" ∷ problem ∷ "\n\n" ∷ "You need to set Flock url for Flock notify,\n"
    ∷ "using \"--url/-u\" or using environment variables:\n\n" ∷ "export KW_FLOCK_URL=flock_url\n\n"
    ∷ "Command line flags will override environment variables\n\n" ∷ [])

unfoldable pub check_missing_flock_vars : FlockHandler → Option InitError
check_missing_flock_vars s =
    if s.url == "" then some (missing (flock_err_msg "Missing Flock url")) else none

unfoldable pub init_flock : Environment → Config → Option InitError × FlockHandler
init_flock env c =
    let s : FlockHandler = record { url = fallback env "KW_FLOCK_URL" c.handler.flock.url } in
    (check_missing_flock_vars s, s)

unfoldable pub prepare_flock_message : Event → FlockHandler → FlockMessage
prepare_flock_message e f = record {
  text = "Kubewatch Alert";
  notification = "Kubewatch Alert";
  attachements =
      record {
        title = message_of e;
        color = text_or_empty (lookup e.status flock_colors);
        views = record { flockml = "" };
      }
      ∷ [];
}

module _ (net : Net) (marshal : FlockMessage → Result String) where
  -- The error, or the response, which the code drops.
  unfoldable pub post_flock_message : String → FlockMessage → Result net.Response
  post_flock_message url message = do
    body ← marshal message
    req ← net.new_request "POST" url body
    net.send (net.add_header "Content-Type" "application/json" req)

  unfoldable pub notify_flock : FlockHandler → Object → String → Result net.Response
  notify_flock s obj action = post_flock_message s.url (prepare_flock_message (new obj action) s)

  unfoldable pub flock_object_created : FlockHandler → Object → Result net.Response
  flock_object_created s obj = notify_flock s obj "created"

  unfoldable pub flock_object_deleted : FlockHandler → Object → Result net.Response
  flock_object_deleted s obj = notify_flock s obj "deleted"

  unfoldable pub flock_object_updated : FlockHandler → Object → Object → Result net.Response
  flock_object_updated s old_obj new_obj = notify_flock s new_obj "updated"
