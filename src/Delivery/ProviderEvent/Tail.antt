-- ===== src/Delivery/ProviderEvent/Tail.antt =====
-- What follows the write of a message leaves the messages alone.
use send_flow_backend.Prelude.{ℕ, String, refl, Option, none, some, Bool-cases, inl, inr}
use send_flow_backend.Effect.Rules.{
  Keeps, Keeps-return, Keeps-bind, Keeps-then, Keeps-call, Keeps-id_gen, Keeps-lift,
}
use send_flow_backend.Delivery.Status.{MessageStatus}
use send_flow_backend.Delivery.Message.{Message}
use send_flow_backend.Delivery.Contracts.{Payload}
use send_flow_backend.Delivery.Store.{SuppressionSignal, save_outbox}
use send_flow_backend.Delivery.Store.Moves.{unmoved}
use send_flow_backend.Delivery.ProviderEvent.Quiet.{
  Quiet, write_message_event-Keeps, update_parent-Keeps, suppress-Keeps,
}
use send_flow_backend.Delivery.ProviderEvent.Data.{
  Ports, ProviderEventInput, Change, SuppressionResult,
}
use send_flow_backend.Delivery.ProviderEvent.Writes.{
  save_event, publish_change, after_update, publish_suppression,
}

quiet : Quiet unmoved
quiet = record {
  any_events = λ d es. refl;
  any_requests = λ d rs. refl;
  any_signals = λ d ss. refl;
}

module _ (p : Ports) (input : ProviderEventInput) where
  save_event-Keeps :
      (event_type aggregate_type aggregate_id workspace_id : String) (now : ℕ) (payload : Payload)
      → Keeps unmoved
          (save_event p input event_type aggregate_type aggregate_id workspace_id now payload)
  unfolding save_event save_outbox
  save_event-Keeps event_type aggregate_type aggregate_id workspace_id now payload =
      Keeps-bind unmoved (Keeps-id_gen unmoved p.env) λ id.
        Keeps-bind unmoved (Keeps-lift unmoved _) λ envelope.
          Keeps-bind unmoved (Keeps-lift unmoved _) λ bytes. Keeps-call unmoved p.env _ (λ d. refl)

  publish_suppression-Keeps :
      (signal : Option SuppressionSignal) (m : Message) (now : ℕ) (r : SuppressionResult)
      → Keeps unmoved (publish_suppression p input signal m now r)
  publish_suppression-Keeps none m now r = Keeps-return unmoved tt
  publish_suppression-Keeps (some signal) m now r = elim (Bool-cases r.created) [
    | inl e ↦ rw e (save_event-Keeps _ _ _ _ _ _)
    | inr e ↦ rw e (Keeps-return unmoved tt)
  ]

  publish_change-Keeps :
      (o : Option (String × Payload)) (signal : Option SuppressionSignal) (m : Message) (now : ℕ)
      (r : SuppressionResult)
      → Keeps unmoved (publish_change p input o signal m now r)
  publish_change-Keeps none signal m now r = Keeps-return unmoved tt
  publish_change-Keeps (some (event_type, payload)) signal m now r =
      Keeps-then unmoved (save_event-Keeps _ _ _ _ _ _) (publish_suppression-Keeps signal m now r)

  -- Nothing after the write of the message touches the messages.
  pub after_update-Keeps :
      (target : MessageStatus) (now : ℕ) (c : Change)
      → Keeps unmoved (after_update p input target now c)
  unfolding after_update
  after_update-Keeps target now c =
      Keeps-then unmoved (write_message_event-Keeps unmoved quiet p input target c.updated now) (
        Keeps-then unmoved (update_parent-Keeps unmoved quiet p input c.updated now) (
          Keeps-bind unmoved (suppress-Keeps unmoved quiet p input c.signal) (λ r.
            Keeps-then unmoved (publish_change-Keeps c.outbox c.signal c.updated now r)
              (Keeps-return unmoved r))))
