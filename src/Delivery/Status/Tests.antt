-- ===== src/Delivery/Status/Tests.antt =====
-- The theorems on statuses, at concrete statuses.
use send_flow_backend.Prelude.{◌≡◌, refl, ◌⊎◌}
use send_flow_backend.Delivery.Status.{MessageStatus, can_transition_to_status}
use send_flow_backend.Delivery.Status.Transitions.{
  Reach, here, next, IsFinal, Reach-final, Reach-delivered,
}

complaint_after_delivery : Reach MessageStatus.delivered MessageStatus.complained
unfolding can_transition_to_status
complaint_after_delivery = next here refl

Reach-delivered_example :
    (MessageStatus.complained ≡ MessageStatus.delivered)
    ⊎ (MessageStatus.complained ≡ MessageStatus.complained)
Reach-delivered_example = Reach-delivered complaint_after_delivery

stays_bounced : Reach MessageStatus.bounced MessageStatus.bounced
unfolding can_transition_to_status
stays_bounced = next here refl

Reach-final_example : ◌≡◌ {A = MessageStatus} MessageStatus.bounced MessageStatus.bounced
Reach-final_example = Reach-final IsFinal.bounced stays_bounced

-- A life in which a message is retried before it is delivered.
retried : Reach MessageStatus.queued MessageStatus.delivered
unfolding can_transition_to_status
retried =
    next {t = MessageStatus.accepted}
      (next {t = MessageStatus.queued}
        (next {t = MessageStatus.processing} (next {t = MessageStatus.queued} here refl) refl) refl)
      refl
