-- ===== src/Handlers/Mattermost.antt =====
-- The handler that posts to Mattermost (pkg/handlers/mattermost/mattermost.go).
use kubewatch.Common.{
  List, Option, String, [], concat, if◌then◌else◌, int_eq, lookup, nat_eq, none, some, string_eq,
  ◌==◌, ◌||◌, ◌∷◌,
}
use kubewatch.Common.Result.{Result, ◌>>=◌}
use kubewatch.Config.{Config, Environment}
use kubewatch.Objects.{Event, Object}
use kubewatch.Event.{message_of, new, text_or_empty}
use kubewatch.Handlers.{InitError, Net, fallback, missing}

pub record MattermostHandler : Type 0 where
  pub channel : String
  pub url : String
  pub username : String

pub record MattermostMessageAttachement : Type 0 where
  pub title : String
  pub color : String

pub record MattermostMessage : Type 0 where
  pub channel : String
  pub username : String
  pub icon_url : String
  pub text : String
  pub attachements : List MattermostMessageAttachement

abbrev pub mattermost_colors : List (String × String)
mattermost_colors = ("Normal", "#00FF00") ∷ ("Warning", "#FFFF00") ∷ ("Danger", "#FF0000") ∷ []

-- The usage text of the error.
unfoldable pub mattermost_err_msg : String → String
mattermost_err_msg problem = concat (
    "\n" ∷ problem ∷ "\n\n"
    ∷ "You need to set Mattermost url, channel and username for Mattermost notify,\n"
    ∷ "using \"--channel/-c\", \"--url/-u\" and \"--username/-n\", or using environment variables:\n\n"
    ∷ "export KW_MATTERMOST_CHANNEL=mattermost_channel\n"
    ∷ "export KW_MATTERMOST_URL=mattermost_url\n"
    ∷ "export KW_MATTERMOST_USERNAME=mattermost_username\n\n"
    ∷ "Command line flags will override environment variables\n\n" ∷ [])

unfoldable pub check_missing_mattermost_vars : MattermostHandler → Option InitError
check_missing_mattermost_vars s =
    if s.channel == "" || s.url == "" || s.username == ""
    then some (missing (mattermost_err_msg "Missing Mattermost channel, url or username"))
    else none

unfoldable pub init_mattermost : Environment → Config → Option InitError × MattermostHandler
init_mattermost env c =
    let s : MattermostHandler = record {
      channel = fallback env "KW_MATTERMOST_CHANNEL" c.handler.mattermost.channel;
      url = fallback env "KW_MATTERMOST_URL" c.handler.mattermost.url;
      username = fallback env "KW_MATTERMOST_USERNAME" c.handler.mattermost.username;
    } in
    (check_missing_mattermost_vars s, s)

unfoldable pub prepare_mattermost_message : Event → MattermostHandler → MattermostMessage
prepare_mattermost_message e m = record {
  channel = m.channel;
  username = m.username;
  icon_url =
      "https://raw.githubusercontent.com/kubernetes/kubernetes/master/logo/logo_with_border.png";
  text = "";
  attachements =
      record { title = message_of e; color = text_or_empty (lookup e.status mattermost_colors) }
      ∷ [];
}

module _ (net : Net) (marshal : MattermostMessage → Result String) where
  -- The error, or the response, which the code drops.
  unfoldable pub post_mattermost_message : String → MattermostMessage → Result net.Response
  post_mattermost_message url message = do
    body ← marshal message
    req ← net.new_request "POST" url body
    net.send (net.add_header "Content-Type" "application/json" req)

  unfoldable pub notify_mattermost : MattermostHandler → Object → String → Result net.Response
  notify_mattermost s obj action =
      post_mattermost_message s.url (prepare_mattermost_message (new obj action) s)

  unfoldable pub mattermost_object_created : MattermostHandler → Object → Result net.Response
  mattermost_object_created s obj = notify_mattermost s obj "created"

  unfoldable pub mattermost_object_deleted : MattermostHandler → Object → Result net.Response
  mattermost_object_deleted s obj = notify_mattermost s obj "deleted"

  unfoldable pub mattermost_object_updated :
      MattermostHandler → Object → Object → Result net.Response
  mattermost_object_updated s old_obj new_obj = notify_mattermost s new_obj "updated"
