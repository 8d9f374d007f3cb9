-- ===== src/Delivery/Fixtures.antt =====
-- Concrete messages and ports, for the tests.
use send_flow_backend.Prelude.{false, ℕ, [], ◌∷◌, Option, none}
use send_flow_backend.Effect.{Error, ok, Env, Sys}
use send_flow_backend.Events.{Json}
use send_flow_backend.Delivery.Status.{MessageStatus}
use send_flow_backend.Delivery.Message.{Message}
use send_flow_backend.Delivery.Contracts.{Payload}
use send_flow_backend.Delivery.Store.{Db, TransactionalRequest}

abbrev pub no_faults : Env
no_faults = record { fault = λ n. none; kept = λ n. false; new_id = λ n. ok "id"; now = λ n. 100 }

-- The call of that index fails.
abbrev pub fault_at : (ℕ → Option Error) → Env
fault_at fault = record { fault = fault; kept = λ n. false; new_id = λ n. ok "id"; now = λ n. 100 }

abbrev pub plain_json : Json Payload
plain_json = record { encode_payload = λ x. ok "payload"; encode_envelope = λ e. ok "envelope" }

abbrev pub message_in : MessageStatus → Message
message_in status = record {
  id = "m1";
  workspace_id = "w1";
  campaign_id = "";
  campaign_candidate_id = "";
  transactional_request_id = "r1";
  contact_id = "";
  recipient_email_normalized = "a@b.c";
  recipient_snapshot = record {
    contact_id = "";
    email = "a@b.c";
    email_normalized = "a@b.c";
    first_name = "";
    last_name = "";
    tags = [];
    attributes = none;
    template_data = none;
  };
  template_id = "";
  template_version_id = "";
  sender_domain_id = "d1";
  subject = "s";
  sender_name = "";
  text_body = "t";
  html_body = "";
  reply_to = "";
  headers = [];
  recipient_role = "to";
  source_api_key_id = "";
  message_type = "transactional";
  source_type = "transactional";
  status = status;
  scheduled_at = none;
  queued_at = none;
  processing_started_at = none;
  accepted_at = none;
  delivered_at = none;
  bounced_at = none;
  complained_at = none;
  failed_at = none;
  last_error_class = "";
  last_error_message = "";
  provider = "ses";
  provider_message_id = "p1";
  created_at = 1;
  updated_at = 1;
}

abbrev pub request : TransactionalRequest
request = record {
  id = "r1";
  workspace_id = "w1";
  idempotency_key = none;
  status = "accepted";
  request_payload = "{}";
  mode = "raw";
  subject = "s";
  sender_name = "";
  source_api_key_id = "k1";
  request_hash = "h1";
  total_recipients = 2;
  recipient_terminal_total = 0;
  recipient_success_total = 0;
  recipient_failure_total = 0;
  created_at = 1;
  completed_at = none;
  failed_at = none;
  updated_at = 1;
}

abbrev pub db_with : Message → Db
db_with m = record {
  messages = m ∷ [];
  attempts = [];
  retry_states = [];
  requests = request ∷ [];
  message_events = [];
  outbox = [];
  signals = [];
  sent = [];
  attachments = [];
  objects = [];
  quota_calls = [];
  idempotency = [];
}

abbrev pub started : Db → Sys Db
started d = record { db = d; calls = 0 }
