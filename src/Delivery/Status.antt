-- ===== src/Delivery/Status.antt =====
-- internal/modules/delivery/domain/message.go: the statuses of a message, the provider events that
-- change them and the transitions that are allowed. A Go string that is none of the constants is
-- `other`.
pub mod Transitions
mod Tests
use send_flow_backend.Prelude.{
  String, Bool, true, false, ◌||◌, not, Option, none, some, if◌then◌else◌,
}
use send_flow_backend.Prelude.Text.{str_eq}

pub data MessageStatus : Type 0 where
  queued processing accepted delivered delayed bounced complained failed cancelled dlq :
      MessageStatus
  other : String → MessageStatus

-- The string that a status is in the Go code.
unfoldable pub text : MessageStatus → String
text MessageStatus.queued = "queued"
text MessageStatus.processing = "processing"
text MessageStatus.accepted = "accepted"
text MessageStatus.delivered = "delivered"
text MessageStatus.delayed = "delayed"
text MessageStatus.bounced = "bounced"
text MessageStatus.complained = "complained"
text MessageStatus.failed = "failed"
text MessageStatus.cancelled = "cancelled"
text MessageStatus.dlq = "dlq"
text (MessageStatus.other s) = s

-- `==` of two status strings.
unfoldable pub status_eq : MessageStatus → MessageStatus → Bool
status_eq MessageStatus.queued MessageStatus.queued = true
status_eq MessageStatus.processing MessageStatus.processing = true
status_eq MessageStatus.accepted MessageStatus.accepted = true
status_eq MessageStatus.delivered MessageStatus.delivered = true
status_eq MessageStatus.delayed MessageStatus.delayed = true
status_eq MessageStatus.bounced MessageStatus.bounced = true
status_eq MessageStatus.complained MessageStatus.complained = true
status_eq MessageStatus.failed MessageStatus.failed = true
status_eq MessageStatus.cancelled MessageStatus.cancelled = true
status_eq MessageStatus.dlq MessageStatus.dlq = true
status_eq (MessageStatus.other s) (MessageStatus.other t) = str_eq s t
status_eq _ _ = false

-- `ValidMessageStatus`, after the `switch` has read the string.
unfoldable pub valid_message_status : MessageStatus → Bool
valid_message_status (MessageStatus.other s) = false
valid_message_status _ = true

-- `("", false)` is `none`.
unfoldable pub classify_provider_event : String → Option MessageStatus
classify_provider_event event_type =
    if str_eq event_type "delivered"
    then some MessageStatus.delivered
    else if str_eq event_type "bounced"
    then some MessageStatus.bounced
    else if str_eq event_type "complained"
    then some MessageStatus.complained
    else if str_eq event_type "delayed"
    then some MessageStatus.delayed
    else if str_eq event_type "rejected"
    then some MessageStatus.failed
    else none

-- The `switch` of `CanTransitionToStatus`, reached when the two statuses differ.
transition : MessageStatus → MessageStatus → Bool
unfolding status_eq
transition MessageStatus.bounced to = false
transition MessageStatus.failed to = false
transition MessageStatus.cancelled to = false
transition MessageStatus.dlq to = false
transition MessageStatus.complained to = status_eq to MessageStatus.complained
transition MessageStatus.delivered to =
    status_eq to MessageStatus.delivered || status_eq to MessageStatus.complained
transition MessageStatus.delayed to = not (status_eq to MessageStatus.accepted)
transition MessageStatus.accepted to = true
transition MessageStatus.processing to = not (status_eq to MessageStatus.accepted)
transition MessageStatus.queued to =
    not (status_eq to MessageStatus.delivered || status_eq to MessageStatus.complained)
transition (MessageStatus.other s) to = false

unfoldable pub can_transition_to_status : MessageStatus → MessageStatus → Bool
unfolding transition
can_transition_to_status from to = if status_eq from to then true else transition from to

unfoldable pub is_terminal : MessageStatus → Bool
is_terminal MessageStatus.delivered = true
is_terminal MessageStatus.bounced = true
is_terminal MessageStatus.complained = true
is_terminal MessageStatus.failed = true
is_terminal MessageStatus.cancelled = true
is_terminal MessageStatus.dlq = true
is_terminal _ = false

unfoldable pub can_start_processing : MessageStatus → Bool
unfolding status_eq
can_start_processing s = status_eq s MessageStatus.queued

unfoldable pub can_mark_accepted : MessageStatus → Bool
unfolding status_eq
can_mark_accepted s = status_eq s MessageStatus.processing

unfoldable pub can_mark_delivered : MessageStatus → Bool
unfolding status_eq
can_mark_delivered s = status_eq s MessageStatus.accepted || status_eq s MessageStatus.delayed

unfoldable pub can_mark_bounced : MessageStatus → Bool
unfolding status_eq
can_mark_bounced s =
    status_eq s MessageStatus.queued
    || status_eq s MessageStatus.processing
    || status_eq s MessageStatus.accepted
    || status_eq s MessageStatus.delayed

unfoldable pub can_mark_complained : MessageStatus → Bool
unfolding status_eq
can_mark_complained s =
    status_eq s MessageStatus.accepted
    || status_eq s MessageStatus.delivered
    || status_eq s MessageStatus.delayed

unfoldable pub can_fail : MessageStatus → Bool
unfolding is_terminal
can_fail s = not (is_terminal s)
