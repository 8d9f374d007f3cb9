-- ===== src/Delivery/ProviderEvent/Changes.antt =====
-- internal/modules/delivery/app/process/provider_event.go: what the message becomes, and what the
-- change calls for. The `switch` of `Execute` over the target status is `change_for`.
use send_flow_backend.Prelude.{ℕ, String, Option, none, some}
use send_flow_backend.Delivery.Status.{MessageStatus}
use send_flow_backend.Delivery.Message.{Message}
use send_flow_backend.Delivery.Contracts.{
  message_delivered, message_bounced, message_complained, ProviderOutcomePayload,
  event_message_delivered_v1, event_message_bounced_v1, event_message_complained_v1,
}
use send_flow_backend.Delivery.Store.{SuppressionSignal}
use send_flow_backend.Delivery.ProviderEvent.Data.{Ports, ProviderEventInput, Change}

module _ (p : Ports) (input : ProviderEventInput) where
  -- The handler leaves the payload's `TransactionalRequestID` unset.
  unfoldable pub outcome_payload : Message → ProviderOutcomePayload
  outcome_payload m = record {
    message_id = m.id;
    workspace_id = m.workspace_id;
    campaign_id = m.campaign_id;
    transactional_request_id = "";
    provider = m.provider;
    provider_message_id = m.provider_message_id;
    provider_event_id = input.provider_event_id;
    normalized_event_id = input.normalized_event_id;
    occurred_at = input.occurred_at;
    received_at = input.received_at;
  }

  abbrev pub signal_for : Message → String → String → ℕ → SuppressionSignal
  signal_for m reason note now = record {
    workspace_id = m.workspace_id;
    email = m.recipient_snapshot.email;
    email_normalized = m.recipient_email_normalized;
    scope = "workspace";
    reason = reason;
    source = "provider_event";
    source_event_id = input.normalized_event_id;
    note = note;
    now = now;
  }

  -- The `switch` over the target status; `none` is its default.
  unfoldable pub change_for : MessageStatus → ℕ → Message → Option Change
  unfolding outcome_payload
  change_for MessageStatus.delivered now m =
      let u = record m {
        status = MessageStatus.delivered;
        updated_at = now;
        delivered_at = some input.occurred_at;
        last_error_class = "";
        last_error_message = "";
      } in
      some (record {
        updated = u;
        outbox = some (event_message_delivered_v1, message_delivered (outcome_payload u));
        signal = none;
      })
  change_for MessageStatus.bounced now m =
      let u = record m {
        status = MessageStatus.bounced;
        updated_at = now;
        bounced_at = some input.occurred_at;
        last_error_class = "provider_bounce";
        last_error_message = "";
      } in
      some (record {
        updated = u;
        outbox = some (event_message_bounced_v1, message_bounced (outcome_payload u));
        signal = some (signal_for u "bounce" "auto-suppressed from provider bounce" now);
      })
  change_for MessageStatus.complained now m =
      let u = record m {
        status = MessageStatus.complained;
        updated_at = now;
        complained_at = some input.occurred_at;
        last_error_class = "provider_complaint";
        last_error_message = "";
      } in
      some (record {
        updated = u;
        outbox = some (event_message_complained_v1, message_complained (outcome_payload u));
        signal = some (signal_for u "complaint" "auto-suppressed from provider complaint" now);
      })
  change_for MessageStatus.delayed now m = some (record {
    updated = record m {
      status = MessageStatus.delayed;
      updated_at = now;
      last_error_class = "provider_delayed";
      last_error_message = "";
    };
    outbox = none;
    signal = none;
  })
  change_for MessageStatus.failed now m = some (record {
    updated = record m {
      status = MessageStatus.failed;
      updated_at = now;
      failed_at = some input.occurred_at;
      last_error_class = "provider_rejected";
      last_error_message = "";
    };
    outbox = none;
    signal = none;
  })
  change_for _ now m = none
