-- ===== src/Delivery/Due/Process.antt =====
-- internal/modules/delivery/app/process/due.go: `processMessage`, up to the loading of the
-- attachments. Each function is the code from one call on; an early return is a branch.
use send_flow_backend.Prelude.{ℕ, String, Bool, true, false, not, Option, none, some, if◌then◌else◌}
use send_flow_backend.Prelude.Text.{str_eq}
use send_flow_backend.Effect.{
  Result, ok, err, M, ◌>>=◌, ◌>>◌, return, lift, attempt, ignore_error, call, id_gen,
}
use send_flow_backend.Delivery.Status.{MessageStatus}
use send_flow_backend.Delivery.Message.{Message, DeliveryAttempt}
use send_flow_backend.Delivery.Sending.{SuppressionDecision, RenderedMessage}
use send_flow_backend.Delivery.Store.{Db, next_attempt_number, create_attempt}
use send_flow_backend.Delivery.Due.Data.{Outcome, status_failed, DuePorts, write_event}
use send_flow_backend.Delivery.Due.Send.{
  build_render_data, give_up, load_attachments, on_attachments,
}

module _ (p : DuePorts) (now : ℕ) where
  -- `buildRequestSnapshot` is the request of the new attempt.
  abbrev pub started_attempt : Message → ℕ → String → DeliveryAttempt
  started_attempt m number id = record {
    id = id;
    workspace_id = m.workspace_id;
    message_id = m.id;
    attempt_no = number;
    provider = "";
    status = "started";
    request_snapshot = p.encode_request number m.id m.template_id m.sender_domain_id;
    response_snapshot = "";
    error_class = "";
    error_message = "";
    started_at = now;
    finished_at = none;
  }

  abbrev pub on_attempt_created :
      Message → RenderedMessage → DeliveryAttempt → Result (Unit {0}) → M Db Outcome
  on_attempt_created m body a (err e) =
      give_up p now m "infrastructure_error" "failed to create attempt"
  on_attempt_created m body a (ok _) = do
    parts ← attempt (load_attachments p now m)
    on_attachments p now m body a parts

  abbrev pub on_attempt_id : Message → RenderedMessage → ℕ → Result String → M Db Outcome
  on_attempt_id m body number (err e) =
      give_up p now m "infrastructure_error" "failed to generate attempt ID"
  on_attempt_id m body number (ok id) = do
    r ← attempt (call p.env (create_attempt (started_attempt m number id)))
    on_attempt_created m body (started_attempt m number id) r

  abbrev pub on_attempt_number : Message → RenderedMessage → Result ℕ → M Db Outcome
  on_attempt_number m body (err e) =
      give_up p now m "infrastructure_error" "failed to get attempt number"
  on_attempt_number m body (ok number) = do
    id ← attempt (id_gen p.env)
    on_attempt_id m body number id

  abbrev pub on_rendered : Message → Result RenderedMessage → M Db Outcome
  on_rendered m (err e) = give_up p now m "template_render_failed" "template render failed"
  on_rendered m (ok body) = do
    number ← attempt (call p.env (next_attempt_number m.workspace_id m.id))
    on_attempt_number m body number

  -- The message's body, from its template or its own.
  abbrev pub body_of : Message → M Db (Result RenderedMessage)
  body_of m =
      if not (str_eq m.template_id "")
      then attempt (
          call p.env (λ d. (
            p.render_for_message m.workspace_id m.template_id m.template_version_id
                (build_render_data m.recipient_snapshot),
            d,
          )))
      else return
          (ok (record { subject = m.subject; html_body = m.html_body; text_body = m.text_body }))

  abbrev pub on_suppression : Message → Result SuppressionDecision → M Db Outcome
  on_suppression m (err e) = give_up p now m "suppression_check_failed" "suppression check failed"
  on_suppression m (ok d) =
      if d.suppressed
      then give_up p now m "recipient_suppressed" d.reason
      else (do body ← body_of m; on_rendered m body)

  abbrev pub on_readiness : Message → Result Bool → M Db Outcome
  on_readiness m (err e) = give_up p now m "sender_not_ready" "sender readiness check failed"
  on_readiness m (ok false) = give_up p now m "sender_not_ready" "sender domain not ready"
  on_readiness m (ok true) = do
    d ← attempt (
        call p.env (λ d.
          (ok (p.check_suppression m.workspace_id m.recipient_email_normalized "workspace"), d)))
    on_suppression m d

  unfoldable pub check_and_send : Message → M Db Outcome
  check_and_send m = do
    ready ← attempt (call p.env (λ d. (ok (p.sender_ready m.workspace_id m.sender_domain_id), d)))
    on_readiness m ready

  -- The lock is released on every way out.
  abbrev pub if_locked : Message → Bool → M Db Outcome
  if_locked m false = return status_failed
  if_locked m true = do
    r ← attempt (check_and_send m)
    ignore_error (call p.env (λ d. (ok tt, d)))
    lift r

  abbrev pub with_lock : Option (String → Bool) → Message → M Db Outcome
  with_lock none m = check_and_send m
  with_lock (some is_free) m = do
    acquired ← call p.env (λ d. (ok (is_free m.id), d))
    if_locked m acquired

  unfoldable pub process_message : Message → M Db Outcome
  unfolding write_event check_and_send
  process_message m = do
    write_event p now m "processing_started" MessageStatus.processing "" ""
    with_lock p.lock_is_free m
