-- ===== src/Delivery/Status/Transitions.antt =====
-- What the transitions of `CanTransitionToStatus` allow over a whole life of a message.
use send_flow_backend.Prelude.{String, ◌≡◌, refl, ◌⊎◌, inl, inr, true, some, arith}
use send_flow_backend.Delivery.Status.{
  MessageStatus, classify_provider_event, can_transition_to_status,
}

-- A life of a message: the statuses that it can take one after the other.
pub data Reach (s : MessageStatus) : MessageStatus → Type 0 where
  here : Reach s s
  next : {t u : MessageStatus} → Reach s t → can_transition_to_status t u ≡ true → Reach s u

-- The statuses that nothing leaves.
pub data IsFinal : MessageStatus → Type 0 where
  bounced : IsFinal MessageStatus.bounced
  failed : IsFinal MessageStatus.failed
  cancelled : IsFinal MessageStatus.cancelled
  dlq : IsFinal MessageStatus.dlq
  complained : IsFinal MessageStatus.complained

pub final_step :
    {s : MessageStatus} (t : MessageStatus)
    → IsFinal s
    → can_transition_to_status s t ≡ true
    → t ≡ s
unfolding can_transition_to_status
final_step t bounced h = ground arith
final_step t failed h = ground arith
final_step t cancelled h = ground arith
final_step t dlq h = ground arith
final_step t complained h = ground arith

pub delivered_step :
    (t : MessageStatus)
    → can_transition_to_status MessageStatus.delivered t ≡ true
    → (t ≡ MessageStatus.delivered) ⊎ (t ≡ MessageStatus.complained)
unfolding can_transition_to_status
delivered_step t h = ground arith

-- A message that is bounced, failed, cancelled, dead-lettered or complained about keeps its status
-- through any sequence of allowed transitions.
pub Reach-final : {s t : MessageStatus} → IsFinal s → Reach s t → t ≡ s
Reach-final f here = refl
Reach-final f (next {t} {u} r h) = final_step u f (rw (Reach-final f r) at h)

-- A delivered message stays delivered or becomes complained about, through any sequence of allowed
-- transitions.
pub Reach-delivered :
    {t : MessageStatus}
    → Reach MessageStatus.delivered t
    → (t ≡ MessageStatus.delivered) ⊎ (t ≡ MessageStatus.complained)
Reach-delivered here = inl refl
Reach-delivered (next {t} {u} r h) = elim (Reach-delivered r) [
  | inl e ↦ delivered_step u (rw e at h)
  | inr e ↦ inr (final_step u complained (rw e at h))
]

pub classify-eq-some :
    (event_type : String) {s : MessageStatus}
    → classify_provider_event event_type ≡ some s
    → (s ≡ MessageStatus.delivered)
      ⊎ (s ≡ MessageStatus.bounced)
      ⊎ (s ≡ MessageStatus.complained)
      ⊎ (s ≡ MessageStatus.delayed)
      ⊎ (s ≡ MessageStatus.failed)
unfolding classify_provider_event
classify-eq-some event_type h = ground arith
