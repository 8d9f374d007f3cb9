-- ===== src/Delivery/Due/Whole.antt =====
-- `processMessage` under a relation on databases that its writes keep, and `SendEmail` too.
use send_flow_backend.Prelude.{
  ℕ, String, Bool, true, false, not, List, [], ◌∷◌, Option, none, some, Bool-cases, inl, inr,
}
use send_flow_backend.Prelude.Text.{str_eq}
use send_flow_backend.Effect.{Result, ok, err, call, attempt}
use send_flow_backend.Effect.Rules.{
  Preorder, Keeps, Keeps-return, Keeps-bind, Keeps-then, Keeps-attempt, Keeps-ignore_error,
  Keeps-call, Keeps-lift, Keeps-id_gen,
}
use send_flow_backend.Delivery.Message.{Message, DeliveryAttempt}
use send_flow_backend.Delivery.Sending.{
  AttachmentManifest, AttachmentPart, ProviderSendRequest, SuppressionDecision, RenderedMessage,
}
use send_flow_backend.Delivery.Store.{Db, next_attempt_number}
use send_flow_backend.Delivery.Due.Data.{AttachmentPorts, DuePorts}
use send_flow_backend.Delivery.Due.Send.{
  load_parts, load_from, load_attachments, send_email, on_attachments,
}
use send_flow_backend.Delivery.Due.Process.{
  on_attempt_created, on_attempt_id, on_attempt_number, on_rendered, body_of, on_suppression,
  on_readiness, check_and_send, if_locked, with_lock, process_message,
}
use send_flow_backend.Delivery.Due.Writes.{AllowsWrites, create_attempt-Keeps, write_event-Keeps}
use send_flow_backend.Delivery.Due.Retrying.{AllowsRetries}
use send_flow_backend.Delivery.Due.Paths.{give_up-Keeps, on_answer-Keeps}

-- A call that only asks.
pub ask-Keeps :
    (R : Preorder Db) (p : DuePorts) {A : Type 0} (r : Result A)
    → Keeps R (attempt (call p.env (λ d. (r, d))))
ask-Keeps R p r = Keeps-attempt R (Keeps-call R p.env _ (λ d. R.same d))

module _ (R : Preorder Db) (p : DuePorts) (now : ℕ) where
  load_parts-Keeps :
      (s : AttachmentPorts) (fs : List AttachmentManifest) → Keeps R (load_parts p now s fs)
  load_parts-Keeps s [] = Keeps-return R []
  load_parts-Keeps s (f ∷ fs) = Keeps-bind R (ask-Keeps R p _) λ got.
      Keeps-bind R (Keeps-lift R _) λ key. Keeps-bind R (ask-Keeps R p _) λ bytes.
        Keeps-bind R (Keeps-lift R _)
          λ content. Keeps-bind R (load_parts-Keeps s fs) λ rest. Keeps-return R _

  load_from-Keeps : (o : Option AttachmentPorts) (m : Message) → Keeps R (load_from p now o m)
  load_from-Keeps none m = Keeps-return R []
  load_from-Keeps (some s) m = elim (Bool-cases (str_eq m.transactional_request_id "")) [
    | inl e ↦ rw e (Keeps-return R [])
    | inr e ↦ rw e (
        Keeps-bind R (ask-Keeps R p _)
          λ listed. Keeps-bind R (Keeps-lift R _) λ fs. load_parts-Keeps s fs)
  ]

  pub load_attachments-Keeps : (m : Message) → Keeps R (load_attachments p now m)
  unfolding load_attachments
  load_attachments-Keeps m = load_from-Keeps p.storage m

  pub body_of-Keeps : (m : Message) → Keeps R (body_of p now m)
  body_of-Keeps m = elim (Bool-cases (not (str_eq m.template_id ""))) [
    | inl e ↦ rw e (ask-Keeps R p _)
    | inr e ↦ rw e (Keeps-return R _)
  ]

module _ (R : Preorder Db) (p : DuePorts) (now : ℕ) (m : Message)
    (allows : AllowsWrites R m.workspace_id m.id) (retries : AllowsRetries R)
    (sends : (d : Db) (rs : List ProviderSendRequest) → R.Rel d (record d { sent = rs })) where
  on_attachments-Keeps :
      (body : RenderedMessage) (a : DeliveryAttempt) (r : Result (List AttachmentPart))
      → Keeps R (on_attachments p now m body a r)
  unfolding send_email
  on_attachments-Keeps body a (err e) = give_up-Keeps R p now m allows _ _
  on_attachments-Keeps body a (ok parts) =
      Keeps-bind R (Keeps-attempt R (Keeps-call R p.env _ (λ d. sends d _)))
        (on_answer-Keeps R p now m allows retries a)

  on_attempt_created-Keeps :
      (body : RenderedMessage) (a : DeliveryAttempt) (r : Result (Unit {0}))
      → Keeps R (on_attempt_created p now m body a r)
  on_attempt_created-Keeps body a (err e) = give_up-Keeps R p now m allows _ _
  on_attempt_created-Keeps body a (ok _) =
      Keeps-bind R (Keeps-attempt R (load_attachments-Keeps R p now m))
        (on_attachments-Keeps body a)

  on_attempt_id-Keeps :
      (body : RenderedMessage) (number : ℕ) (r : Result String)
      → Keeps R (on_attempt_id p now m body number r)
  on_attempt_id-Keeps body number (err e) = give_up-Keeps R p now m allows _ _
  on_attempt_id-Keeps body number (ok id) =
      Keeps-bind R (Keeps-attempt R (create_attempt-Keeps R p now m allows _))
        (on_attempt_created-Keeps body _)

  on_attempt_number-Keeps :
      (body : RenderedMessage) (r : Result ℕ) → Keeps R (on_attempt_number p now m body r)
  on_attempt_number-Keeps body (err e) = give_up-Keeps R p now m allows _ _
  on_attempt_number-Keeps body (ok number) =
      Keeps-bind R (Keeps-attempt R (Keeps-id_gen R p.env)) (on_attempt_id-Keeps body number)

  on_rendered-Keeps : (r : Result RenderedMessage) → Keeps R (on_rendered p now m r)
  unfolding next_attempt_number
  on_rendered-Keeps (err e) = give_up-Keeps R p now m allows _ _
  on_rendered-Keeps (ok body) =
      Keeps-bind R (Keeps-attempt R (Keeps-call R p.env _ (λ d. R.same d)))
        (on_attempt_number-Keeps body)

  on_suppression-Keeps : (r : Result SuppressionDecision) → Keeps R (on_suppression p now m r)
  on_suppression-Keeps (err e) = give_up-Keeps R p now m allows _ _
  on_suppression-Keeps (ok d) = elim (Bool-cases d.suppressed) [
    | inl e ↦ rw e (give_up-Keeps R p now m allows _ _)
    | inr e ↦ rw e (Keeps-bind R (body_of-Keeps R p now m) on_rendered-Keeps)
  ]

  on_readiness-Keeps : (r : Result Bool) → Keeps R (on_readiness p now m r)
  on_readiness-Keeps (err e) = give_up-Keeps R p now m allows _ _
  on_readiness-Keeps (ok false) = give_up-Keeps R p now m allows _ _
  on_readiness-Keeps (ok true) = Keeps-bind R (ask-Keeps R p _) on_suppression-Keeps

  check_and_send-Keeps : Keeps R (check_and_send p now m)
  unfolding check_and_send
  check_and_send-Keeps = Keeps-bind R (ask-Keeps R p _) on_readiness-Keeps

  if_locked-Keeps : (b : Bool) → Keeps R (if_locked p now m b)
  if_locked-Keeps false = Keeps-return R _
  if_locked-Keeps true = Keeps-bind R (Keeps-attempt R check_and_send-Keeps) λ r.
      Keeps-then R (Keeps-ignore_error R (Keeps-call R p.env _ (λ d. R.same d))) (Keeps-lift R r)

  with_lock-Keeps : (o : Option (String → Bool)) → Keeps R (with_lock p now o m)
  with_lock-Keeps none = check_and_send-Keeps
  with_lock-Keeps (some is_free) =
      Keeps-bind R (Keeps-call R p.env _ (λ d. R.same d)) if_locked-Keeps

  pub process_message-Keeps : Keeps R (process_message p now m)
  unfolding process_message
  process_message-Keeps =
      Keeps-then R (write_event-Keeps R p now m allows m _ _ _ _) (with_lock-Keeps p.lock_is_free)
