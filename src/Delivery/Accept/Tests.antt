-- ===== src/Delivery/Accept/Tests.antt =====
-- Runs of the acceptance of a request.
use send_flow_backend.Prelude.{
  String, ◌≡◌, ◌≢◌, refl, ◌↔◌, true, false, List, [], ◌∷◌, ◌++◌, map, none, some, any,
  if◌then◌else◌, ◌==◌,
}
use send_flow_backend.Prelude.Text.{eq_iff}
use send_flow_backend.Effect.{is_error, Error, failure, ok, err, Result, Env, Sys, ◌>>=◌}
use send_flow_backend.Strings.{trim_space}
use send_flow_backend.Events.{new_envelope, marshal, is_blank}
use send_flow_backend.Delivery.Status.{MessageStatus}
use send_flow_backend.Delivery.Message.{Message}
use send_flow_backend.Delivery.Store.{Db, create_message_event, save_outbox}
use send_flow_backend.Delivery.Insert.{Server, create_many, lacks_value}
use send_flow_backend.Delivery.Insert.Nulls.{RefusesNulls, create_many_refuses}
use send_flow_backend.Delivery.Fixtures.{
  no_faults, fault_at, plain_json, message_in, db_with, started,
}
use send_flow_backend.Delivery.Accept.Data.{Input, Accepted, AcceptPorts, Target}
use send_flow_backend.Delivery.Accept.Validate.{
  validate_send_input, explode_recipients, build_canonical, compute_request_hash,
}
use send_flow_backend.Delivery.Accept.Rows.{
  create_request, find_by_idempotency_key, get_idempotency, set_idempotency, check_and_consume,
  ask_refund,
}
use send_flow_backend.Delivery.Accept.Idempotency.{handle_idempotency}
use send_flow_backend.Delivery.Accept.Handler.{execute, clean_up_attachments}
use send_flow_backend.Delivery.Accept.Whole.{Undone}
use send_flow_backend.Delivery.Accept.Accepts.{execute_undoes}
use send_flow_backend.Delivery.Accept.Refused.{IsDigest}
use send_flow_backend.Delivery.Accept.Unaccepted.{with_repository, execute_never_accepts}
use send_flow_backend.Delivery.Accept.Recipients.{address, tagged, explode_recipients_iff}
use send_flow_backend.Delivery.Accept.Bounds.{Bounded, validate_send_input-Bounded}
use mathlib.Core.List.{Nodup}
use Prim.Native.String.{len}

abbrev insert_all : List Message → Db → Result (List String) × Db
insert_all ms d = (ok (map (λ (m : Message). m.id) ms), record d { messages = d.messages ++ ms })

abbrev accepting : Env → AcceptPorts
accepting env = record {
  env = env;
  json = plain_json;
  to_lower = λ s. s;
  parses_address = λ s. true;
  byte_length = len;
  quote = λ s. s;
  first_bytes = λ n s. s;
  encode_map = λ l. ok "{}";
  encode_canonical = λ c. ok "canonical";
  sha256_hex = λ s. "digest";
  sender_ready = λ w d. ok true;
  render_subject = λ w t v l. ok "subject";
  is_suppressed = λ w e s. ok false;
  quota = some (λ calls w k n. ok tt);
  has_storage = false;
  has_cache = true;
  insert_messages = insert_all;
}

abbrev to_two : Input
to_two = record {
  workspace_id = "w1";
  api_key_id = "k1";
  idempotency_key = "key";
  mode = "raw";
  sender_domain_id = "d1";
  sender_name = "";
  subject = "s";
  template_id = "";
  template_version_id = "";
  template_data = none;
  text_body = "t";
  html_body = "";
  reply_to = "";
  to = record { email = "a@b.c"; name = "A" } ∷ [];
  cc = record { email = "d@e.f"; name = "" } ∷ [];
  bcc = [];
  metadata = none;
  tags = "x" ∷ [];
  headers = [];
  attachments = [];
  now = 7;
}

abbrev before : Sys Db
before = started (db_with (message_in MessageStatus.accepted))

abbrev answered : Accepted
answered = record {
  request_id = "id";
  message_ids = "id" ∷ "id" ∷ [];
  status = "accepted";
  accepted_at = 7;
}

hex-IsDigest : IsDigest (λ s. "digest")
hex-IsDigest x e = apart ((eq_iff "digest" "").1 e)
  where
    apart : false ≡ true → ⊥
    apart h = cc

accepts_two : (execute (accepting no_faults) to_two before).0 ≡ ok answered
unfolding execute trim_space validate_send_input explode_recipients build_canonical
    compute_request_hash handle_idempotency get_idempotency find_by_idempotency_key
    check_and_consume create_request create_message_event save_outbox set_idempotency new_envelope
    marshal is_blank is_error ◌>>=◌
accepts_two = refl

-- The last call, the save of the accepted event, fails.
abbrev outbox_down : Env
outbox_down = fault_at (λ n. if n == 20 then some (failure "down") else none)

fails_late : (execute (accepting outbox_down) to_two before).0 ≡ err (failure "down")
unfolding execute trim_space validate_send_input explode_recipients build_canonical
    compute_request_hash handle_idempotency get_idempotency find_by_idempotency_key
    check_and_consume create_request create_message_event save_outbox set_idempotency new_envelope
    marshal is_blank ask_refund is_error clean_up_attachments ◌>>=◌
fails_late = refl

execute_undoes_example : Undone before.db (execute (accepting outbox_down) to_two before).1.db
execute_undoes_example = execute_undoes (accepting outbox_down) to_two before (λ n. refl) fails_late

abbrev strict_server : Server
strict_server = record {
  encode_snapshot = λ r. ok "{}";
  encode_headers = λ l. ok "null";
  insert = λ rows d. if any lacks_value rows then (err (failure "23502"), d) else (ok [], d);
}

strict_refuses : RefusesNulls strict_server
strict_refuses rows d h = (failure "23502", rw h)

execute_never_accepts_example :
    (execute (with_repository (accepting no_faults) strict_server) to_two before).0 ≢ ok answered
execute_never_accepts_example =
    execute_never_accepts (accepting no_faults) strict_server strict_refuses hex-IsDigest to_two
      before answered

create_many_refuses_example :
    (e : Error) × (create_many strict_server (message_in MessageStatus.queued ∷ []) before.db
      ≡ (err e, before.db))
create_many_refuses_example =
    create_many_refuses strict_server strict_refuses (message_in MessageStatus.queued) [] before.db
      refl

abbrev two_targets : List Target
two_targets =
    record { recipient = record { email = "a@b.c"; name = "A" }; role = "to" }
    ∷ record { recipient = record { email = "d@e.f"; name = "" }; role = "cc" }
    ∷ []

explode_recipients_iff_example :
    (explode_recipients (accepting no_faults) to_two.to to_two.cc to_two.bcc ≡ ok two_targets) ↔ (
      (two_targets
        ≡ (tagged (accepting no_faults) "to" to_two.to
            ++ tagged (accepting no_faults) "cc" to_two.cc)
          ++ tagged (accepting no_faults) "bcc" to_two.bcc)
      × Nodup (map (address (accepting no_faults)) two_targets))
explode_recipients_iff_example =
    explode_recipients_iff (accepting no_faults) to_two.to to_two.cc to_two.bcc two_targets

passes : validate_send_input (accepting no_faults) 9 to_two ≡ ok to_two
unfolding validate_send_input trim_space
passes = refl

validate_send_input-Bounded_example : Bounded (accepting no_faults) to_two
validate_send_input-Bounded_example =
    validate_send_input-Bounded (accepting no_faults) 9 to_two to_two passes
