-- ===== src/Handlers/Selection.antt =====
-- Which handler runs, and when the program ends for want of a setting (pkg/client/run.go).
use kubewatch.Common.{
  Bool-cases, String, ap, arith, eq_iff, false, if◌then◌else◌, inl, inr, int_eq, nat_eq, none, refl,
  string_eq, subst, sym, true, ◌==◌, ◌||◌, ◌↔◌, ◌∙◌, ◌≡◌, ◌≢◌, ◌⊎◌,
}
use kubewatch.Config.{Config, Environment, Handler, check_missing_resource_envvars, filled_in}
use kubewatch.Handlers.{fallback}
use kubewatch.Handlers.Slack.{check_missing_slack_vars, init_slack}
use kubewatch.Handlers.Flock.{check_missing_flock_vars, init_flock}
use kubewatch.Handlers.Webhook.{check_missing_webhook_vars, init_webhook}
use kubewatch.Handlers.Choice.{
  Chosen, default_chosen, flock_chosen, is_set, run, slack_chosen, webhook_chosen,
}

-- The configuration names none of the first three handlers.
pub record NamesNone (h : Handler) : Type 0 where
  pub no_channel : h.slack.channel ≡ ""
  pub no_token : h.slack.token ≡ ""
  pub no_room : h.hipchat.room ≡ ""
  pub no_hipchat_token : h.hipchat.token ≡ ""
  pub no_mattermost_channel : h.mattermost.channel ≡ ""
  pub no_mattermost_url : h.mattermost.url ≡ ""

-- The handler for the URLs of a configuration, with nothing read from the environment.
abbrev pub by_url : Handler → Chosen
by_url h =
    if is_set h.flock.url
    then flock_chosen (record { url = h.flock.url })
    else if is_set h.webhook.url
    then webhook_chosen (record { url = h.webhook.url })
    else default_chosen

init_flock_set :
    (env : Environment) (c : Config)
    → (c.handler.flock.url == "") ≡ false
    → init_flock env c ≡ (none, record { url = c.handler.flock.url })
unfolding init_flock check_missing_flock_vars
init_flock_set env c h = rw (init_flock, check_missing_flock_vars, h, h) refl

init_webhook_set :
    (env : Environment) (c : Config)
    → (c.handler.webhook.url == "") ≡ false
    → init_webhook env c ≡ (none, record { url = c.handler.webhook.url })
unfolding init_webhook check_missing_webhook_vars
init_webhook_set env c h = rw (init_webhook, check_missing_webhook_vars, h, h) refl

-- If the configuration names neither Slack nor Hipchat nor Mattermost, the environment has no say:
-- in every environment the start succeeds, with Flock if the configuration has its URL, or else
-- the webhook if it has that one, or else the default handler, and with the URL it has.
pub run-NamesNone :
    (c : Config) → NamesNone c.handler → (env : Environment) → run env c ≡ (none, by_url c.handler)
unfolding run
run-NamesNone c h env =
    let d = c.handler in
    let no_slack : (is_set d.slack.channel || is_set d.slack.token) ≡ false =
      rw (h.no_channel, h.no_token) refl in
    let no_hipchat : (is_set d.hipchat.room || is_set d.hipchat.token) ≡ false =
      rw (h.no_room, h.no_hipchat_token) refl in
    let no_mattermost : (is_set d.mattermost.channel || is_set d.mattermost.url) ≡ false =
      rw (h.no_mattermost_channel, h.no_mattermost_url) refl in
    rw (run, no_slack, no_hipchat, no_mattermost)
      (elim (Bool-cases (d.flock.url == "")) [
        | inr f ↦ rw (f, init_flock_set env c f) refl
        | inl f ↦ elim (Bool-cases (d.webhook.url == "")) [
          | inr w ↦ rw (f, w, init_webhook_set env c w) refl
          | inl w ↦ rw (f, w) refl
        ]
      ])

-- If the configuration has a Slack channel or token, Slack is the handler, whatever else is
-- configured, with each setting from the configuration or else from its KW_ variable; the start
-- succeeds exactly when neither setting is then empty.
pub run-slack :
    (env : Environment) (c : Config)
    → (c.handler.slack.channel ≢ "") ⊎ (c.handler.slack.token ≢ "")
    → let token = fallback env "KW_SLACK_TOKEN" c.handler.slack.token in
      let channel = fallback env "KW_SLACK_CHANNEL" c.handler.slack.channel in
      ((run env c).1 ≡ slack_chosen (record { token = token; channel = channel }))
      × (((run env c).0 ≡ none) ↔ ((token ≢ "") × (channel ≢ "")))
unfolding run init_slack check_missing_slack_vars
run-slack env c h =
    let token = fallback env "KW_SLACK_TOKEN" c.handler.slack.token in
    let channel = fallback env "KW_SLACK_CHANNEL" c.handler.slack.channel in
    let chosen : (is_set c.handler.slack.channel || is_set c.handler.slack.token) ≡ true =
      ground (arith, eq_iff c.handler.slack.channel "", eq_iff c.handler.slack.token "") in
    rw (run, chosen) (refl, ground (arith, eq_iff token "", eq_iff channel ""))

filled_in_found :
    (env : Environment) (name value : String) → env.getenv name ≢ "" → filled_in env name value ≢ ""
filled_in_found env name value h = ground (arith, eq_iff (env.getenv name) "", eq_iff value "")

fallback_found :
    (env : Environment) (name value : String) → value ≢ "" → fallback env name value ≡ value
fallback_found env name value h = ground (arith, eq_iff value "")

-- A configuration with both Slack settings starts Slack with them, in every environment.
pub run_both_set :
    (env : Environment) (c : Config)
    → c.handler.slack.channel ≢ ""
    → c.handler.slack.token ≢ ""
    → run env c ≡ (
      none,
      slack_chosen (record { token = c.handler.slack.token; channel = c.handler.slack.channel }),
    )
run_both_set env c channel token =
    let s = c.handler.slack in
    let same_channel : fallback env "KW_SLACK_CHANNEL" s.channel ≡ s.channel =
      fallback_found env "KW_SLACK_CHANNEL" s.channel channel in
    let same_token : fallback env "KW_SLACK_TOKEN" s.token ≡ s.token =
      fallback_found env "KW_SLACK_TOKEN" s.token token in
    let (chosen, starts) = run-slack env c (inl channel) in
    let started = starts.1 (
      subst (λ t. t ≢ "") (sym same_token) token,
      subst (λ t. t ≢ "") (sym same_channel) channel,
    ) in
    λ i. (
      started i,
      (chosen ∙ ap slack_chosen (λ j. record { token = same_token j; channel = same_channel j })) i,
    )

-- With both SLACK_CHANNEL and SLACK_TOKEN set, every configuration, once completed from the
-- environment, starts Slack without an error, with the settings of the completed configuration.
pub run-check_missing_resource_envvars :
    (env : Environment) (c : Config)
    → env.getenv "SLACK_CHANNEL" ≢ ""
    → env.getenv "SLACK_TOKEN" ≢ ""
    → let done = check_missing_resource_envvars env c in
      run env done ≡ (
        none,
        slack_chosen
            (record { token = done.handler.slack.token; channel = done.handler.slack.channel }),
      )
unfolding check_missing_resource_envvars
run-check_missing_resource_envvars env c h k =
    run_both_set env (check_missing_resource_envvars env c)
      (filled_in_found env "SLACK_CHANNEL" c.handler.slack.channel h)
      (filled_in_found env "SLACK_TOKEN" c.handler.slack.token k)
