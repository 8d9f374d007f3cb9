-- ===== src/Delivery/ProviderEvent/Data.antt =====
-- internal/modules/delivery/app/process/provider_event.go: the handler's input, result and ports.
use send_flow_backend.Prelude.{ℕ, String, Bool, true, false, List, Option, none, some}
use send_flow_backend.Effect.{Env}
use send_flow_backend.Events.{Json}
use send_flow_backend.Delivery.Status.{MessageStatus}
use send_flow_backend.Delivery.Message.{Message}
use send_flow_backend.Delivery.Contracts.{Payload}
use send_flow_backend.Delivery.Store.{Db, SuppressionSignal}

pub record ProviderEventInput : Type 0 where
  pub event_id : String
  pub normalized_event_id : String
  pub raw_event_id : String
  pub workspace_id : String
  pub message_id : String
  pub provider : String
  pub provider_event_id : String
  pub provider_message_id : String
  pub event_type : String
  pub occurred_at : ℕ
  pub received_at : ℕ

pub record ProviderEventResult : Type 0 where
  pub handled : Bool
  pub ignored : Bool
  pub message_id : String
  pub workspace_id : String
  pub previous_status : Option MessageStatus
  pub new_status : Option MessageStatus
  pub suppression_created : Bool
  pub suppression_entry_id : String

pub record SuppressionResult : Type 0 where
  pub entry_id : String
  pub created : Bool

-- The handler's ports. The suppression module's answer to a signal is a parameter, which may depend
-- on the signals before; `none` is a nil port.
pub record Ports : Type 0 where
  pub env : Env
  pub json : Json Payload
  pub suppressor : Option (List SuppressionSignal → SuppressionSignal → SuppressionResult)
  pub has_event_repo : Bool
  -- What other workers commit between the first read of the message and the transaction.
  pub others : Db → Db

abbrev pub ignored : ProviderEventResult
ignored = record {
  handled = false;
  ignored = true;
  message_id = "";
  workspace_id = "";
  previous_status = none;
  new_status = none;
  suppression_created = false;
  suppression_entry_id = "";
}

abbrev pub report : Message → MessageStatus → Bool → String → ProviderEventResult
report m new_status created entry_id = record {
  handled = true;
  ignored = false;
  message_id = m.id;
  workspace_id = m.workspace_id;
  previous_status = some m.status;
  new_status = some new_status;
  suppression_created = created;
  suppression_entry_id = entry_id;
}

-- What the transaction writes for one target status.
pub record Change : Type 0 where
  pub updated : Message
  pub outbox : Option (String × Payload)
  pub signal : Option SuppressionSignal
