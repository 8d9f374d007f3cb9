-- ===== src/Delivery/Due/Retry.antt =====
-- internal/modules/delivery/app/process/due.go: `handleTemporaryFailure`.
use send_flow_backend.Prelude.{
  ℕ, ◌+◌, String, Bool, true, false, Option, none, some, if◌then◌else◌, leb,
}
use send_flow_backend.Effect.{
  Result, ok, err, M, ◌>>=◌, ◌>>◌, return, attempt, ignore_error, call, id_gen, within_tx,
}
use send_flow_backend.Delivery.Status.{MessageStatus}
use send_flow_backend.Delivery.Message.{Message, DeliveryAttempt, RetryState}
use send_flow_backend.Delivery.Contracts.{message_retry_scheduled, event_message_retry_scheduled_v1}
use send_flow_backend.Delivery.Store.{
  Db, update_message, update_attempt, find_retry_state, create_retry_state, update_retry_state,
}
use send_flow_backend.Delivery.Due.Data.{
  DuePorts, default_max_retries, compute_retry_delay, random_number, write_event, finished_attempt,
  fail_message_with_attempt, publish,
}

module _ (p : DuePorts) (now : ℕ) where
  abbrev pub retry_count_of : Option RetryState → ℕ
  retry_count_of none = 0
  retry_count_of (some r) = r.retry_count

  abbrev pub is_new : Option RetryState → Bool
  is_new none = true
  is_new (some r) = false

  abbrev pub first_retry : Message → String → ℕ → String → RetryState
  first_retry m text next id = record {
    id = id;
    workspace_id = m.workspace_id;
    message_id = m.id;
    retry_count = 1;
    max_retries = default_max_retries;
    next_attempt_at = some next;
    last_error_class = "provider_temporary_failure";
    last_error_message = text;
    status = "scheduled";
    created_at = now;
    updated_at = now;
  }

  abbrev pub further_retry : RetryState → String → ℕ → RetryState
  further_retry r text next = record r {
    retry_count = r.retry_count + 1;
    next_attempt_at = some next;
    last_error_class = "provider_temporary_failure";
    last_error_message = text;
    status = "scheduled";
    updated_at = now;
  }

  -- The retry state after this failure.
  abbrev pub next_retry : Message → String → ℕ → Option RetryState → M Db RetryState
  next_retry m text next none = do id ← id_gen p.env; return (first_retry m text next id)
  next_retry m text next (some r) = return (further_retry r text next)

  abbrev pub requeued : Message → ℕ → Message
  requeued m next = record m {
    status = MessageStatus.queued;
    scheduled_at = some next;
    updated_at = now;
  }

  abbrev pub store_retry : Bool → RetryState → M Db (Unit {0})
  store_retry true r = call p.env (create_retry_state r)
  store_retry false r = call p.env (update_retry_state r)

  -- `saveRetryScheduledEvent`.
  unfoldable pub save_retry_scheduled_event : Message → RetryState → M Db (Unit {0})
  unfolding publish
  save_retry_scheduled_event m r = do
    id ← id_gen p.env
    publish p now id event_message_retry_scheduled_v1 m (
        message_retry_scheduled (record {
          message_id = m.id;
          workspace_id = m.workspace_id;
          retry_count = r.retry_count;
          max_retries = r.max_retries;
          next_attempt_at = r.next_attempt_at;
        }))

  unfoldable pub retry_body :
      Message → DeliveryAttempt → Bool → RetryState → String → M Db (Unit {0})
  unfolding write_event save_retry_scheduled_event
  retry_body m a new r text = do
    call p.env (update_message m)
    call p.env (update_attempt a)
    store_retry new r
    write_event p now m "retry_scheduled" MessageStatus.queued "provider_temporary_failure" text
    save_retry_scheduled_event m r

  -- Without an identifier for the new state the function returns.
  abbrev pub save_retry :
      Message → DeliveryAttempt → String → Bool → Result RetryState → M Db (Unit {0})
  save_retry m a text new (err e) = return tt
  save_retry m a text new (ok r) = ignore_error (within_tx p.env (retry_body m a new r text))

  unfoldable pub schedule_retry :
      Message → DeliveryAttempt → String → Option RetryState → M Db (Unit {0})
  unfolding retry_body compute_retry_delay
  schedule_retry m a text o = do
    x ← random_number p now
    r ← attempt (next_retry m text (now + compute_retry_delay (retry_count_of o) x) o)
    save_retry (requeued m (now + compute_retry_delay (retry_count_of o) x)) a text (is_new o) r

  abbrev pub on_retry_state :
      Message → DeliveryAttempt → String → Result (Option RetryState) → M Db (Unit {0})
  on_retry_state m a text (err e) =
      fail_message_with_attempt p now m a "retry_state_error" "failed to find retry state"
  on_retry_state m a text (ok o) =
      if leb default_max_retries (retry_count_of o)
      then fail_message_with_attempt p now m a "retry_exhausted" "max retries reached"
      else schedule_retry m a text o

  unfoldable pub handle_temporary_failure : Message → DeliveryAttempt → String → M Db (Unit {0})
  unfolding schedule_retry fail_message_with_attempt
  handle_temporary_failure m a text = do
    o ← attempt (call p.env (find_retry_state m.workspace_id m.id))
    on_retry_state m (finished_attempt p now a "temporary_failed" "provider_temporary_failure" text)
        text o
