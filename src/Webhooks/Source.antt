-- ===== src/Webhooks/Source.antt =====
-- internal/modules/webhooks/app/source/handle.go: `Execute` is `handle`. The decoding of the
-- envelope is a parameter.
use send_flow_backend.Prelude.{ℕ, String, ◌||◌, List, [], ◌∷◌, none, if◌then◌else◌}
use send_flow_backend.Prelude.Text.{str_eq}
use send_flow_backend.Effect.{
  failure, non_retryable, wrapped, Result, ok, err, M, ◌>>=◌, ◌>>◌, return, throw, ignore_error,
  call, id_gen, clock,
}
use send_flow_backend.Webhooks.{DeliveryStatus, WebhookConfig, WebhookDelivery, is_allowed}
use send_flow_backend.Webhooks.Store.{Db, shown, list_subscribed, create_delivery}
use send_flow_backend.Webhooks.Deliver.{WebhookPorts}

-- The envelope's fields that are used, and the payload that the customer is sent, encoded.
pub record SourceEvent : Type 0 where
  pub event_id : String
  pub event_type : String
  pub workspace_id : String
  pub event_payload : String

module _ (p : WebhookPorts) (decode : String → Result SourceEvent) where
  abbrev pub new_delivery : SourceEvent → ℕ → WebhookConfig → String → WebhookDelivery
  new_delivery e now cfg id = record {
    id = id;
    workspace_id = e.workspace_id;
    webhook_id = cfg.id;
    source_event_id = e.event_id;
    source_event_type = e.event_type;
    status = DeliveryStatus.pending;
    target_url = cfg.target_url;
    attempt_count = 0;
    next_attempt_at = none;
    last_attempt_at = none;
    last_status_code = none;
    last_error = "";
    request_headers = [];
    response_headers = [];
    event_payload_json = e.event_payload;
    created_at = now;
    updated_at = now;
  }

  unfoldable pub fan_out : SourceEvent → ℕ → List WebhookConfig → M Db (Unit {0})
  fan_out e now [] = return tt
  fan_out e now (cfg ∷ cfgs) = do
    id ← id_gen p.env
    ignore_error (call p.env (create_delivery p.refuses_delivery (new_delivery e now cfg id)))
    fan_out e now cfgs

  unfoldable pub handle_allowed : SourceEvent → M Db (Unit {0})
  unfolding fan_out
  handle_allowed e = do
    cfgs ← call p.env (shown p.read_pool (list_subscribed e.workspace_id e.event_type))
    now ← clock p.env
    fan_out e now cfgs

  abbrev pub handle_event : Result SourceEvent → M Db (Unit {0})
  handle_event (err x) = throw (non_retryable (wrapped "malformed envelope" x))
  handle_event (ok e) =
      if str_eq e.event_type "" || str_eq e.workspace_id ""
      then throw (non_retryable (failure "event missing event_type or workspace_id"))
      else if is_allowed e.event_type
      then handle_allowed e
      else return tt

  unfoldable pub handle : String → M Db (Unit {0})
  unfolding handle_allowed is_allowed
  handle raw = if str_eq raw "" then return tt else handle_event (decode raw)
