-- ===== src/Handlers/Slack.antt =====
-- The handler that posts to Slack (pkg/handlers/slack/slack.go).
use kubewatch.Common.{
  Bool, List, Option, String, [], concat, if◌then◌else◌, int_eq, lookup, nat_eq, none, some,
  string_eq, true, ◌==◌, ◌||◌, ◌∷◌,
}
use kubewatch.Config.{Config, Environment}
use kubewatch.Objects.{Event, Object}
use kubewatch.Event.{message_of, new, text_or_empty}
use kubewatch.Handlers.{InitError, fallback, missing}

pub record SlackHandler : Type 0 where
  pub token : String
  pub channel : String

pub record AttachmentField : Type 0 where
  pub title : String
  pub value : String

pub record Attachment : Type 0 where
  pub fields : List AttachmentField
  pub color : String
  pub markdown_in : List String

-- A call of `PostMessage` of the client of a token.
pub record SlackPost : Type 0 where
  pub token : String
  pub channel : String
  pub text : String
  pub attachments : List Attachment
  pub as_user : Bool

abbrev pub slack_colors : List (String × String)
slack_colors = ("Normal", "good") ∷ ("Warning", "warning") ∷ ("Danger", "danger") ∷ []

-- The usage text of the error.
unfoldable pub slack_err_msg : String → String
slack_err_msg problem = concat (
    "\n" ∷ problem ∷ "\n\n" ∷ "You need to set both slack token and channel for slack notify,\n"
    ∷ "using \"--token/-t\" and \"--channel/-c\", or using environment variables:\n\n"
    ∷ "export KW_SLACK_TOKEN=slack_token\n" ∷ "export KW_SLACK_CHANNEL=slack_channel\n\n"
    ∷ "Command line flags will override environment variables\n\n" ∷ [])

unfoldable pub check_missing_slack_vars : SlackHandler → Option InitError
check_missing_slack_vars s =
    if s.token == "" || s.channel == ""
    then some (missing (slack_err_msg "Missing slack token or channel"))
    else none

-- `Init`: its error and the handler.
unfoldable pub init_slack : Environment → Config → Option InitError × SlackHandler
init_slack env c =
    let s : SlackHandler = record {
      token = fallback env "KW_SLACK_TOKEN" c.handler.slack.token;
      channel = fallback env "KW_SLACK_CHANNEL" c.handler.slack.channel;
    } in
    (check_missing_slack_vars s, s)

unfoldable pub prepare_slack_attachment : Event → Attachment
prepare_slack_attachment e = record {
  fields = record { title = "Deployment Status"; value = message_of e } ∷ [];
  color = text_or_empty (lookup e.status slack_colors);
  markdown_in = "fields" ∷ [];
}

-- What is posted; the answer is only logged.
unfoldable pub notify_slack : SlackHandler → Object → String → SlackPost
notify_slack s obj action = record {
  token = s.token;
  channel = s.channel;
  text = "";
  attachments = prepare_slack_attachment (new obj action) ∷ [];
  as_user = true;
}

module _ (s : SlackHandler) where
  unfoldable pub slack_object_created : Object → SlackPost
  slack_object_created obj = notify_slack s obj "created"

  unfoldable pub slack_object_deleted : Object → SlackPost
  slack_object_deleted obj = notify_slack s obj "deleted"

  unfoldable pub slack_object_updated : Object → Object → SlackPost
  slack_object_updated old_obj new_obj = notify_slack s new_obj "updated"
