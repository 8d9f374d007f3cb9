-- ===== src/Delivery/ProviderEvent/Outbox.antt =====
-- Which events a provider event publishes.
use send_flow_backend.Prelude.{
  String, ◌≡◌, refl, ◌∙◌, List, [], ◌∷◌, map, Option, none, some, if◌then◌else◌,
}
use send_flow_backend.Effect.Rules.{Preorder}
use send_flow_backend.Delivery.Status.{MessageStatus}
use send_flow_backend.Delivery.Message.{Message}
use send_flow_backend.Events.{OutboxEvent}
use send_flow_backend.Delivery.Contracts.{Payload, aggregate_message}
use send_flow_backend.Delivery.Store.{Db, SuppressionSignal}
use send_flow_backend.Delivery.ProviderEvent.Quiet.{Quiet}
use send_flow_backend.Delivery.ProviderEvent.Data.{Ports, ProviderEventInput, SuppressionResult}

-- What an outbox row is about: the event's type, the type and identifier of what it happened to, and
-- the workspace.
abbrev pub Post : Type 0
Post = String × String × String × String

abbrev pub posts : Db → List Post
posts d =
    map (λ (e : OutboxEvent). (e.event_type, e.aggregate_type, e.aggregate_id, e.workspace_id))
      d.outbox

-- The outbox is left as it is.
abbrev unpublished : Preorder Db
unpublished = record { Rel = λ d e. posts e ≡ posts d; same = λ d. refl; both = λ a b c h k. k ∙ h }

abbrev suppression_post : Message → SuppressionResult → List Post
suppression_post m r =
    if r.created
    then ("suppression.recipient_suppressed.v1", "suppression_entry", r.entry_id, m.workspace_id)
      ∷ []
    else []

-- The events that a target status of the message calls for, when the suppression module answered `r`.
abbrev pub announced : MessageStatus → Message → SuppressionResult → List Post
announced MessageStatus.delivered m r =
    ("delivery.message.delivered.v1", "message", m.id, m.workspace_id) ∷ []
announced MessageStatus.bounced m r =
    ("delivery.message.bounced.v1", "message", m.id, m.workspace_id) ∷ suppression_post m r
announced MessageStatus.complained m r =
    ("delivery.message.complained.v1", "message", m.id, m.workspace_id) ∷ suppression_post m r
announced _ m r = []

module _ (p : Ports) (input : ProviderEventInput) where
  abbrev suppression_types : Option SuppressionSignal → Message → SuppressionResult → List Post
  suppression_types none m r = []
  suppression_types (some signal) m r = suppression_post m r

  abbrev change_types :
      Option (String × Payload) → Option SuppressionSignal → Message → SuppressionResult → List Post
  change_types none signal m r = []
  change_types (some (event_type, payload)) signal m r =
      (event_type, aggregate_message, m.id, m.workspace_id) ∷ suppression_types signal m r
