-- ===== src/Webhooks/Deliver.antt =====
-- internal/modules/webhooks/app/delivery/deliver.go: `Execute` is `deliver`. The HTTP client, the
-- signature, JSON and the printing of times are parameters (`WebhookPorts`).
use send_flow_backend.Prelude.{
  ℕ, String, Bool, false, ◌&&◌, List, [], ◌∷◌, ◌++◌, Option, none, some, if◌then◌else◌, leb, ltb,
  ◌==◌,
}
use send_flow_backend.Effect.{
  Error, error_text, Result, ok, err, Env, M, ◌>>=◌, return, lift, attempt, call, id_gen, clock,
}
use send_flow_backend.Webhooks.{
  DeliveryStatus, WebhookConfig, WebhookDelivery, WebhookDeliveryAttempt, DeliveryResult, Network,
  sanitize_error, sanitize_headers,
}
use send_flow_backend.Webhooks.Store.{Db, DeliveryHttpRequest}

pub record DeliveryHttpResponse : Type 0 where
  pub status_code : ℕ
  pub headers : List (String × String)
  pub duration_ms : ℕ
  pub error : String

-- The payloads of the module's events, with the fields that vary.
pub data WebhookPayload : Type 0 where
  config_created : WebhookConfig → WebhookPayload
  config_updated : WebhookConfig → WebhookPayload
  config_disabled_at : String → String → String → WebhookPayload
  secret_rotated : WebhookConfig → WebhookPayload
  delivery_succeeded : String → WebhookDelivery → String → ℕ → ℕ → WebhookPayload
  delivery_failed : String → WebhookDelivery → String → Option ℕ → String → ℕ → WebhookPayload
  delivery_retry_scheduled : WebhookDelivery → String → String → Option ℕ → String → WebhookPayload

pub record Secret : Type 0 where
  pub raw : String
  pub signing_key : String
  pub hint : String

pub record WebhookPorts : Type 0 where
  pub env : Env
  -- What the read pool shows, of what the write pool's tables hold. It may lag behind.
  pub read_pool : Db → Db
  pub net : Network
  pub require_permission : String → String → String → Result (Unit {0})
  -- What is answered to a request, by the requests before it.
  pub answers : List DeliveryHttpRequest → DeliveryHttpRequest → Result DeliveryHttpResponse
  pub encode_event : String → Result String
  pub sign : String → String → String → String
  pub format_unix : ℕ → String
  pub format_time : ℕ → String
  pub encode_payload : WebhookPayload → Result String
  pub uses_outbox : Bool
  -- A new secret, by the number of the call.
  pub new_secret : ℕ → Result Secret
  -- The server's refusals to insert or to update, by the new row and those of the table.
  pub refuses_config : WebhookConfig → List WebhookConfig → Option Error
  pub refuses_delivery : WebhookDelivery → List WebhookDelivery → Option Error
  pub refuses_attempt : WebhookDeliveryAttempt → List WebhookDeliveryAttempt → Option Error

pub record DeliverCommand : Type 0 where
  pub delivery_id : String
  pub target_url : String
  pub secret_hash : String
  pub event_payload : String
  pub source_event_id : String
  pub attempt_number : ℕ

pub record DeliverResult : Type 0 where
  pub success : Bool
  pub status_code : ℕ
  pub attempt : WebhookDeliveryAttempt
  pub delivery_result : DeliveryResult

unfoldable pub post :
    (List DeliveryHttpRequest → DeliveryHttpRequest → Result DeliveryHttpResponse)
    → DeliveryHttpRequest
    → Db
    → Result DeliveryHttpResponse × Db
post answers r d = (answers d.posted r, record d { posted = d.posted ++ r ∷ [] })

abbrev pub is_success : ℕ → Bool
is_success code = leb 200 code && ltb code 300

abbrev pub code_or_none : ℕ → Option ℕ
code_or_none code = if code == 0 then none else some code

module _ (p : WebhookPorts) (cmd : DeliverCommand) where
  -- Where the port answers an error, the response beside it is empty.
  abbrev pub outcome_of : ℕ → String → Result DeliveryHttpResponse → DeliverResult
  outcome_of now id (err e) = record {
    success = false;
    status_code = 0;
    attempt = record {
      id = id;
      delivery_id = cmd.delivery_id;
      attempt_number = cmd.attempt_number;
      status = DeliveryStatus.failed;
      status_code = none;
      error = sanitize_error p.net (error_text e);
      duration_ms = 0;
      request_headers = [];
      response_headers = [];
      attempted_at = now;
    };
    delivery_result = record {
      status_code = 0;
      duration_ms = 0;
      error = sanitize_error p.net (error_text e);
      request_headers = [];
      response_headers = [];
    };
  }
  outcome_of now id (ok r) = record {
    success = is_success r.status_code;
    status_code = r.status_code;
    attempt = record {
      id = id;
      delivery_id = cmd.delivery_id;
      attempt_number = cmd.attempt_number;
      status =
          (if is_success r.status_code then DeliveryStatus.succeeded else DeliveryStatus.failed);
      status_code = code_or_none r.status_code;
      error = sanitize_error p.net r.error;
      duration_ms = r.duration_ms;
      request_headers = [];
      response_headers = sanitize_headers p.net r.headers;
      attempted_at = now;
    };
    delivery_result = record {
      status_code = r.status_code;
      duration_ms = r.duration_ms;
      error = sanitize_error p.net r.error;
      request_headers = [];
      response_headers = sanitize_headers p.net r.headers;
    };
  }

  abbrev pub signed_request : String → String → DeliveryHttpRequest
  signed_request body timestamp = record {
    url = cmd.target_url;
    body = body;
    signature_value = p.sign body timestamp cmd.secret_hash;
    timestamp_value = timestamp;
    event_id_value = cmd.source_event_id;
  }

  unfoldable pub deliver : M Db DeliverResult
  deliver = do
    now ← clock p.env
    body ← lift (p.encode_event cmd.event_payload)
    r ← attempt (call p.env (post p.answers (signed_request body (p.format_unix now))))
    id ← id_gen p.env
    return (outcome_of now id r)
