-- ===== src/Webhooks/Config.antt =====
-- internal/modules/webhooks/app/config: `Execute` of create.go, update.go, rotate.go and disable.go.
-- An update and a rotation are cut where they have read the configuration. An error that `errors.Is`
-- one of the module's sentinels is passed on whole; update.go answers the bare sentinel.
use send_flow_backend.Prelude.{ℕ, suc, String, List, Option, none, some, if◌then◌else◌}
use send_flow_backend.Prelude.Text.{str_eq}
use send_flow_backend.Effect.{M, tick, ◌>>=◌, ◌>>◌, return, lift, call, id_gen, clock, within_tx}
use send_flow_backend.Events.{OutboxEvent}
use send_flow_backend.Webhooks.{
  ConfigStatus, active, disabled, other_status, WebhookConfig, validate_webhook_config,
}
use send_flow_backend.Webhooks.Store.{
  Db, shown, find_config, create_config, update_config, disable_config, save,
}
use send_flow_backend.Webhooks.Deliver.{
  WebhookPorts, WebhookPayload, Secret, config_created, config_updated, config_disabled_at,
  secret_rotated,
}

abbrev pub aggregate_webhook_config : String
aggregate_webhook_config = "webhook_config"

pub record CreateCommand : Type 0 where
  pub workspace_id : String
  pub user_id : String
  pub name : String
  pub target_url : String
  pub subscriptions : List String

pub record UpdateCommand : Type 0 where
  pub workspace_id : String
  pub user_id : String
  pub webhook_id : String
  pub name : Option String
  pub target_url : Option String
  pub subscriptions : Option (List String)
  pub status : Option String

abbrev pub given : {A : Type 0} → Option A → A → A
given none old = old
given (some a) old = a

-- The conversion of a text to a status, which tests nothing.
abbrev pub as_status : String → ConfigStatus
as_status s =
    if str_eq s "active" then active else if str_eq s "disabled" then disabled else other_status s

abbrev pub given_status : Option String → ConfigStatus → ConfigStatus
given_status none old = old
given_status (some s) old = as_status s

abbrev pub edited : UpdateCommand → WebhookConfig → WebhookConfig
edited cmd c = record c {
  name = given cmd.name c.name;
  target_url = given cmd.target_url c.target_url;
  subscriptions = given cmd.subscriptions c.subscriptions;
  status = given_status cmd.status c.status;
}

-- `Version++` and the time.
abbrev pub next_version : ℕ → WebhookConfig → WebhookConfig
next_version now c = record c { version = suc c.version; updated_at = now }

abbrev pub with_secret : Secret → WebhookConfig → WebhookConfig
with_secret s c = record c { secret_hash = s.signing_key; secret_hint = s.hint }

module _ (p : WebhookPorts) where
  abbrev pub may_manage : String → String → M Db (Unit {0})
  may_manage workspace_id user_id =
      lift (p.require_permission workspace_id user_id "webhook.manage")

  -- `GenerateSecret`.
  unfoldable pub generate_secret : M Db Secret
  generate_secret s = (p.new_secret s.calls, tick s)

  abbrev pub config_event : String → String → String → String → String → ℕ → OutboxEvent
  config_event id config_id workspace_id event_type payload now = record {
    id = id;
    aggregate_type = aggregate_webhook_config;
    aggregate_id = config_id;
    event_type = event_type;
    payload = payload;
    workspace_id = workspace_id;
    occurred_at = now;
  }

  -- The event, if there is an outbox.
  unfoldable pub announce_config : String → String → String → WebhookPayload → ℕ → M Db (Unit {0})
  announce_config config_id workspace_id event_type payload now =
      if p.uses_outbox
      then (do
        id ← id_gen p.env
        bytes ← lift (p.encode_payload payload)
        call p.env (save (config_event id config_id workspace_id event_type bytes now)))
      else return tt

  abbrev pub new_config : CreateCommand → WebhookConfig
  new_config cmd = record {
    id = "";
    workspace_id = cmd.workspace_id;
    name = cmd.name;
    target_url = cmd.target_url;
    status = active;
    subscriptions = cmd.subscriptions;
    secret_hash = "";
    secret_hint = "";
    version = 0;
    created_by_user_id = "";
    created_at = 0;
    updated_at = 0;
    disabled_at = none;
  }

  abbrev pub created_config : CreateCommand → String → Secret → ℕ → WebhookConfig
  created_config cmd id secret now = record (new_config cmd) {
    id = id;
    secret_hash = secret.signing_key;
    secret_hint = secret.hint;
    version = 1;
    created_by_user_id = cmd.user_id;
    created_at = now;
    updated_at = now;
  }

  unfoldable pub create_body : WebhookConfig → M Db (Unit {0})
  unfolding announce_config
  create_body c = do
    call p.env (create_config p.refuses_config c)
    announce_config c.id c.workspace_id "webhooks.config.created.v1" (config_created c) c.updated_at

  -- The answer has the new secret.
  unfoldable pub create_webhook : CreateCommand → M Db (WebhookConfig × String)
  unfolding create_body generate_secret
  create_webhook cmd = do
    may_manage cmd.workspace_id cmd.user_id
    lift (validate_webhook_config p.net (new_config cmd))
    id ← id_gen p.env
    secret ← generate_secret
    now ← clock p.env
    within_tx p.env (create_body (created_config cmd id secret now))
    return (created_config cmd id secret now, secret.raw)

  unfoldable pub update_body : WebhookConfig → String → WebhookPayload → M Db (Unit {0})
  unfolding announce_config
  update_body c event_type payload = do
    call p.env (update_config p.refuses_config c)
    announce_config c.id c.workspace_id event_type payload c.updated_at

  unfoldable pub update_read : UpdateCommand → WebhookConfig → M Db WebhookConfig
  unfolding update_body
  update_read cmd c = do
    lift (validate_webhook_config p.net (edited cmd c))
    now ← clock p.env
    within_tx p.env (
        update_body (next_version now (edited cmd c)) "webhooks.config.updated.v1"
          (config_updated (next_version now (edited cmd c))))
    return (next_version now (edited cmd c))

  unfoldable pub update_webhook : UpdateCommand → M Db WebhookConfig
  unfolding update_read
  update_webhook cmd = do
    may_manage cmd.workspace_id cmd.user_id
    c ← call p.env (shown p.read_pool (find_config cmd.workspace_id cmd.webhook_id))
    update_read cmd c

  unfoldable pub rotate_read : WebhookConfig → M Db (WebhookConfig × String)
  unfolding update_body generate_secret
  rotate_read c = do
    secret ← generate_secret
    now ← clock p.env
    within_tx p.env (
        update_body (next_version now (with_secret secret c)) "webhooks.secret.rotated.v1"
          (secret_rotated (next_version now (with_secret secret c))))
    return (next_version now (with_secret secret c), secret.raw)

  unfoldable pub rotate_secret : String → String → String → M Db (WebhookConfig × String)
  unfolding rotate_read
  rotate_secret workspace_id user_id id = do
    may_manage workspace_id user_id
    c ← call p.env (shown p.read_pool (find_config workspace_id id))
    rotate_read c

  unfoldable pub disable_body : String → String → ℕ → M Db (Unit {0})
  unfolding announce_config
  disable_body workspace_id id now = do
    call p.env (disable_config workspace_id id now)
    announce_config id workspace_id "webhooks.config.disabled.v1"
        (config_disabled_at id workspace_id (p.format_time now)) now

  unfoldable pub disable_webhook : String → String → String → M Db (Unit {0})
  unfolding disable_body
  disable_webhook workspace_id user_id id = do
    may_manage workspace_id user_id
    now ← clock p.env
    within_tx p.env (disable_body workspace_id id now)
