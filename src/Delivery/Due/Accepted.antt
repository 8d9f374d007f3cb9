-- ===== src/Delivery/Due/Accepted.antt =====
-- internal/modules/delivery/app/process/due.go: `persistAcceptedState` and `saveAcceptedEvent`.
use send_flow_backend.Prelude.{ℕ, zero, suc, String, some}
use send_flow_backend.Effect.{
  Error, failure, wrapped, Result, ok, err, M, ◌>>=◌, ◌>>◌, return, throw, attempt, call, id_gen,
  within_tx,
}
use send_flow_backend.Delivery.Status.{MessageStatus}
use send_flow_backend.Delivery.Message.{Message, DeliveryAttempt}
use send_flow_backend.Delivery.Contracts.{message_accepted, event_message_accepted_v1}
use send_flow_backend.Delivery.Sending.{ProviderSendResult}
use send_flow_backend.Delivery.Store.{Db, update_attempt, mark_accepted}
use send_flow_backend.Delivery.Due.Data.{DuePorts, write_event, publish}

module _ (p : DuePorts) (now : ℕ) where
  unfoldable pub save_accepted_event : Message → ProviderSendResult → String → M Db (Unit {0})
  unfolding write_event publish
  save_accepted_event m res id = do
    write_event p now m "provider_accepted" MessageStatus.accepted "" ""
    publish p now id event_message_accepted_v1 m (
        message_accepted (record {
          message_id = m.id;
          workspace_id = m.workspace_id;
          campaign_id = m.campaign_id;
          campaign_candidate_id = m.campaign_candidate_id;
          transactional_request_id = m.transactional_request_id;
          template_id = m.template_id;
          template_version_id = m.template_version_id;
          sender_domain_id = m.sender_domain_id;
          message_type = m.message_type;
          source_type = m.source_type;
          provider = res.provider;
          provider_message_id = res.provider_message_id;
          accepted_at = now;
        }))

  unfoldable pub accepted_body :
      Message → DeliveryAttempt → ProviderSendResult → String → M Db (Unit {0})
  unfolding save_accepted_event
  accepted_body m a res id = do
    call p.env (update_attempt a)
    call p.env (mark_accepted m)
    save_accepted_event m res id

  abbrev pub or_again : Result (Unit {0}) → (Error → M Db (Unit {0})) → M Db (Unit {0})
  or_again (ok _) again = return tt
  or_again (err e) again = again e

  -- The loop: as many transactions as are left, until one succeeds; `last` is the last error.
  unfoldable pub tries :
      ℕ → Error → Message → DeliveryAttempt → ProviderSendResult → String → M Db (Unit {0})
  unfolding accepted_body
  tries zero last m a res id = throw (wrapped "persist accepted state after 3 attempts" last)
  tries (suc n) last m a res id = do
    r ← attempt (within_tx p.env (accepted_body m a res id))
    or_again r (λ e. tries n e m a res id)

  abbrev pub with_event_id :
      Message → DeliveryAttempt → ProviderSendResult → Result String → M Db (Unit {0})
  with_event_id m a res (err e) = throw (wrapped "generate event id" e)
  with_event_id m a res (ok id) = tries 3 (failure "") m a res id

  unfoldable pub persist_accepted_state :
      Message → DeliveryAttempt → ProviderSendResult → M Db (Unit {0})
  unfolding tries
  persist_accepted_state m a res = do id ← attempt (id_gen p.env); with_event_id m a res id

  -- The attempt and the message once the provider has taken the message.
  abbrev pub accepted_attempt : DeliveryAttempt → ProviderSendResult → DeliveryAttempt
  accepted_attempt a res = record a {
    status = "accepted";
    provider = res.provider;
    response_snapshot = p.encode_response res.provider res.provider_message_id;
    finished_at = some now;
  }

  abbrev pub accepted_message : Message → ProviderSendResult → Message
  accepted_message m res = record m {
    updated_at = now;
    provider = res.provider;
    provider_message_id = res.provider_message_id;
    accepted_at = some now;
  }
