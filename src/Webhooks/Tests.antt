-- ===== src/Webhooks/Tests.antt =====
-- Runs of the commands on webhooks.
use send_flow_backend.Prelude.{
  ℕ, String, ◌≡◌, ◌≢◌, ◌+◌, ◌*◌, refl, Bool, true, false, List, [], ◌∷◌, Option, none, some, All,
  any, inl, if◌then◌else◌, ◌==◌,
}
use send_flow_backend.Prelude.Text.{str_eq, ne_by_test}
use send_flow_backend.Effect.{Error, failure, Result, ok, Env, Sys, ◌>>=◌}
use send_flow_backend.Webhooks.{
  ConfigStatus, DeliveryStatus, WebhookConfig, WebhookDelivery, Network, validate_webhook_config,
  validate_target_url, validate_subscriptions, is_private_host, is_private_ip, is_allowed,
  is_retryable_http_status, sanitize_error, sanitize_headers,
}
use send_flow_backend.Webhooks.Store.{
  Db, find_config, find_delivery, list_subscribed, claim_pending_deliveries, create_delivery,
  update_config, schedule_retry, mark_succeeded, mark_failed, create_attempt, save,
}
use send_flow_backend.Webhooks.Deliver.{WebhookPorts, post, deliver}
use send_flow_backend.Webhooks.Source.{SourceEvent}
use send_flow_backend.Webhooks.Config.{
  UpdateCommand, edited, next_version, update_read, rotate_read,
}
use send_flow_backend.Webhooks.Worker.{Command, due, source_event, run_all}
use send_flow_backend.Webhooks.Reads.{DeliveryFilter, meets_filter, list_deliveries_of}
use send_flow_backend.Webhooks.Skipped.{cursor_row_skipped}
use send_flow_backend.Webhooks.Versions.{Refused, first_change_wins}

abbrev network : Network
network = record {
  parse_url =
      λ u. some (record { scheme = "https"; has_user = false; host = "a.b"; hostname = "a.b" });
  to_lower = λ s. s;
  parse_ip = λ s. none;
  lookup = λ s. some [];
  byte_length = λ s. 3;
  first_bytes = λ n s. s;
}

abbrev env_with : (ℕ → Option Error) → Env
env_with fault = record { fault = fault; kept = λ n. false; new_id = λ n. ok "id"; now = λ n. 100 }

abbrev calm_env : Env
calm_env = env_with (λ n. none)

-- Every row but one whose identifier is taken.
abbrev refuses_taken : WebhookDelivery → List WebhookDelivery → Option Error
refuses_taken x rows = if any (λ r. str_eq r.id x.id) rows then some (failure "taken") else none

-- A customer's server that is down, unless it answers 200.
abbrev ports : ℕ → Env → (WebhookDelivery → List WebhookDelivery → Option Error) → WebhookPorts
ports code env refusal = record {
  env = env;
  net = network;
  require_permission = λ w u q. ok tt;
  answers =
      λ before r. ok (record { status_code = code; headers = []; duration_ms = 3; error = "" });
  encode_event = λ x. ok x;
  sign = λ b t k. "signature";
  format_unix = λ t. "unix";
  format_time = λ t. "time";
  encode_payload = λ x. ok "payload";
  uses_outbox = true;
  new_secret = λ n. ok (record { raw = "raw"; signing_key = "key"; hint = "hint" });
  refuses_config = λ c cs. none;
  refuses_delivery = refusal;
  refuses_attempt = λ a as'. none;
  read_pool = λ d. d;
}

abbrev config : WebhookConfig
config = record {
  id = "c1";
  workspace_id = "w1";
  name = "n";
  target_url = "https://a.b";
  status = ConfigStatus.active;
  subscriptions = "delivery.message.queued.v1" ∷ [];
  secret_hash = "key";
  secret_hint = "hint";
  version = 4;
  created_by_user_id = "u1";
  created_at = 1;
  updated_at = 1;
  disabled_at = none;
}

abbrev delivery : String → DeliveryStatus → ℕ → WebhookDelivery
delivery id status n = record {
  id = id;
  workspace_id = "w1";
  webhook_id = "c1";
  source_event_id = "e1";
  source_event_type = "delivery.message.queued.v1";
  status = status;
  target_url = "https://a.b";
  attempt_count = n;
  next_attempt_at = none;
  last_attempt_at = none;
  last_status_code = none;
  last_error = "";
  request_headers = [];
  response_headers = [];
  event_payload_json = "{}";
  created_at = 1;
  updated_at = 1;
}

abbrev stored : List WebhookDelivery → Sys Db
stored rows = record {
  db = record { configs = config ∷ []; deliveries = rows; attempts = []; outbox = []; posted = [] };
  calls = 0;
}

abbrev event : String → Result SourceEvent
event raw = ok (record {
  event_id = raw;
  event_type = "delivery.message.queued.v1";
  workspace_id = "w1";
  event_payload = "{}";
})

abbrev waiting : List WebhookDelivery
waiting = delivery "d1" DeliveryStatus.pending 3 ∷ []

abbrev nobody : WebhookDelivery → Bool
nobody r = false

-- The delivery is tried, is to be tried again, and then another event comes.
abbrev commands : List Command
commands = due nobody 10 100 ∷ source_event "e2" ∷ []

abbrev down : WebhookPorts
down = ports 503 calm_env refuses_taken

abbrev later : ℕ
later = 100 + 16 * 30000000000

abbrev claimed : List WebhookDelivery
claimed =
    record (delivery "d1" DeliveryStatus.delivering 5) {
      next_attempt_at = some later;
      last_attempt_at = some later;
      updated_at = later;
    }
    ∷ record (delivery "id" DeliveryStatus.delivering 1) {
      source_event_id = "e2";
      last_attempt_at = some later;
      created_at = 100;
      updated_at = later;
    }
    ∷ []

is_claimed :
    (claim_pending_deliveries nobody 10 later (run_all down event commands (stored waiting)).db).0
    ≡ ok claimed
unfolding claim_pending_deliveries run_all post deliver find_config find_delivery list_subscribed
    create_delivery schedule_retry mark_succeeded mark_failed create_attempt save
    is_retryable_http_status sanitize_error sanitize_headers is_allowed ◌>>=◌
is_claimed = refl

abbrev taken_rows : List WebhookDelivery
taken_rows = delivery "d1" DeliveryStatus.delivering 1 ∷ []

-- The commit of the transaction fails.
abbrev commit_fails : WebhookPorts
commit_fails =
    ports 200 (env_with (λ n. if n == 12 then some (failure "down") else none)) refuses_taken

abbrev calm : WebhookPorts
calm = ports 200 calm_env (λ x rows. none)

abbrev rename : UpdateCommand
rename = record {
  workspace_id = "w1";
  user_id = "u1";
  webhook_id = "c1";
  name = some "m";
  target_url = none;
  subscriptions = none;
  status = some "disabled";
}

abbrev renamed : Sys Db
renamed = (update_read calm rename config (stored [])).1

rename_succeeds :
    update_read calm rename config (stored [])
    ≡ (ok (next_version 100 (edited rename config)), renamed)
unfolding update_read validate_webhook_config validate_target_url validate_subscriptions
    is_private_host is_private_ip is_allowed update_config save ◌>>=◌
rename_succeeds = refl

first_change_wins_example :
    ((cmd : UpdateCommand)
      → Refused renamed.db
          (update_read calm cmd config renamed).0
          (update_read calm cmd config renamed).1.db)
    × Refused renamed.db (rotate_read calm config renamed).0 (rotate_read calm config renamed).1.db
first_change_wins_example =
    first_change_wins calm config (stored []) renamed (tt, tt) refl
      (inl (rename, next_version 100 (edited rename config), rename_succeeds))

abbrev every_delivery : DeliveryFilter
every_delivery = record {
  webhook_id = "";
  status = "";
  event_type = "";
  from = none;
  to = none;
  limit = 1;
  cursor = "";
}

abbrev three_deliveries : List WebhookDelivery
three_deliveries =
    record (delivery "d3" DeliveryStatus.failed 1) { created_at = 3 }
    ∷ record (delivery "d2" DeliveryStatus.failed 1) { created_at = 2 }
    ∷ delivery "d1" DeliveryStatus.failed 1
    ∷ []

first_page :
    (list_deliveries_of "w1" every_delivery (stored three_deliveries).db).0
    ≡ ok (record (delivery "d3" DeliveryStatus.failed 1) { created_at = 3 } ∷ [], "d2")
unfolding list_deliveries_of
first_page = refl

second_page :
    (list_deliveries_of "w1"
      (record every_delivery { cursor = "d2" })
      (stored three_deliveries).db).0
    ≡ ok (delivery "d1" DeliveryStatus.failed 1 ∷ [], "")
unfolding list_deliveries_of
second_page = refl

cursor_row_skipped_example :
    (x : WebhookDelivery) × (x.id ≡ "d2")
    × (meets_filter "w1" every_delivery x ≡ true)
    × All
        (λ r. r.id ≢ "d2")
        (record (delivery "d3" DeliveryStatus.failed 1) { created_at = 3 } ∷ [])
    × All (λ r. r.id ≢ "d2") (delivery "d1" DeliveryStatus.failed 1 ∷ [])
cursor_row_skipped_example =
    cursor_row_skipped "w1" every_delivery (stored three_deliveries).db
      (record (delivery "d3" DeliveryStatus.failed 1) { created_at = 3 } ∷ [])
      (delivery "d1" DeliveryStatus.failed 1 ∷ []) "d2" ""
      ((ne_by_test _ _ refl, (ne_by_test _ _ refl, tt)), ((ne_by_test _ _ refl, tt), (tt, tt)))
      first_page refl second_page
