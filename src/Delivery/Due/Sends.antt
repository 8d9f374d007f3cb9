-- ===== src/Delivery/Due/Sends.antt =====
-- Which requests the mail provider gets.
use send_flow_backend.Prelude.{
  ℕ, String, ◌≡◌, refl, sym, ◌∙◌, subst, ◌⊎◌, inl, inr, Bool, true, false, List, [], ◌∷◌, ◌++◌,
  Option, none, some, any,
}
use send_flow_backend.Effect.{Error, Result, ok, err, Sys, M, ◌>>=◌, ◌>>◌, and_then, answer}
use send_flow_backend.Effect.Rules.{Preorder, Keeps, Keeps-attempt, Keeps-call, Keeps-id_gen}
use send_flow_backend.Delivery.Message.{Message, DeliveryAttempt}
use send_flow_backend.Delivery.Sending.{AttachmentPart, ProviderSendRequest, RenderedMessage}
use send_flow_backend.Delivery.Store.{
  Db, next_attempt_number, affected, create_retry_state, update_retry_state,
}
use send_flow_backend.Delivery.Due.Data.{DuePorts}
use send_flow_backend.Delivery.Due.Send.{send_email, send_request, on_attachments}
use send_flow_backend.Delivery.Due.Process.{
  on_attempt_created, on_attempt_id, on_attempt_number, on_rendered,
}
use send_flow_backend.Delivery.Due.Writes.{AllowsWrites, create_attempt-Keeps}
use send_flow_backend.Delivery.Due.Retrying.{AllowsRetries}
use send_flow_backend.Delivery.Due.Paths.{give_up-Keeps, on_answer-Keeps}
use send_flow_backend.Delivery.Due.Whole.{load_attachments-Keeps}

-- The provider gets no request.
abbrev pub unsent : Preorder Db
unsent = record { Rel = λ d e. e.sent ≡ d.sent; same = λ d. refl; both = λ a b c h k. k ∙ h }

affected_unsent :
    (b : Bool) (missing : String) (d e : Db)
    → e.sent ≡ d.sent
    → (affected b missing d e).1.sent ≡ d.sent
affected_unsent true missing d e h = h
affected_unsent false missing d e h = refl

writes : (workspace_id id : String) → AllowsWrites unsent workspace_id id
writes workspace_id id = record {
  any_change = λ change d keys. affected_unsent (any _ d.messages) _ d _ refl;
  any_attempts = λ d xs. refl;
  any_requests = λ d xs. refl;
  any_events = λ d xs. refl;
  any_outbox = λ d xs. refl;
}

retries : AllowsRetries unsent
unfolding create_retry_state update_retry_state
retries = record {
  any_new = λ r d k. refl;
  any_update = λ r d k. affected_unsent (any _ d.retry_states) _ d _ refl;
}

module _ (p : DuePorts) (now : ℕ) (m : Message) where
  -- No request, or one for the message, to its recipient.
  abbrev pub AtMostOne : List ProviderSendRequest → List ProviderSendRequest → Type 0
  AtMostOne before after =
      (after ≡ before)
      ⊎ ((body : RenderedMessage) × (parts : List AttachmentPart) × (after
            ≡ before ++ send_request p now m body parts ∷ []))

  pub allows : AllowsWrites unsent m.workspace_id m.id
  allows = writes m.workspace_id m.id

  module _ (P : List ProviderSendRequest → List ProviderSendRequest → Type 0) where
    -- After calls that send nothing, what holds of the rest holds of the whole.
    pub rest_of :
        {A B : Type 0} (q : M Db A) (f : A → M Db B) (s : Sys Db)
        → Keeps unsent q
        → P s.db.sent s.db.sent
        → ((a : A) (t : Sys Db) → q s ≡ (ok a, t) → P t.db.sent (f a t).1.db.sent)
        → P s.db.sent ((q >>= f) s).1.db.sent
    unfolding ◌>>=◌
    rest_of {A} {B} q f s k z h = go (q s) (k.moves s) h
      where
        go :
            (r : Result A × Sys Db)
            → r.1.db.sent ≡ s.db.sent
            → ((a : A) (t : Sys Db) → r ≡ (ok a, t) → P t.db.sent (f a t).1.db.sent)
            → P s.db.sent (and_then r f).1.db.sent
        go (ok a, t) e h = subst (λ x. P x (f a t).1.db.sent) e (h a t refl)
        go (err x, t) e h = subst (λ y. P s.db.sent y) (sym e) z

    pub rest_of_then :
        {B : Type 0} (q : M Db (Unit {0})) (k : M Db B) (s : Sys Db)
        → Keeps unsent q
        → P s.db.sent s.db.sent
        → ((t : Sys Db) → P t.db.sent (k t).1.db.sent)
        → P s.db.sent ((q >> k) s).1.db.sent
    unfolding ◌>>◌
    rest_of_then {B} q k s kept z h = go (q s) (kept.moves s)
      where
        go :
            (r : Result (Unit {0}) × Sys Db)
            → r.1.db.sent ≡ s.db.sent
            → P s.db.sent (and_then r (λ _. k)).1.db.sent
        go (ok a, t) e = subst (λ x. P x (k t).1.db.sent) e (h t)
        go (err x, t) e = subst (λ y. P s.db.sent y) (sym e) z

  answer_sends :
      (fault : Option Error) (request : ProviderSendRequest) (s : Sys Db)
      → ((answer fault (send_email p now request) s).1.db.sent ≡ s.db.sent)
        ⊎ ((answer fault (send_email p now request) s).1.db.sent ≡ s.db.sent ++ request ∷ [])
  unfolding send_email
  answer_sends (some e) request s = inl refl
  answer_sends none request s = inr refl

  on_attachments_sends :
      (body : RenderedMessage) (a : DeliveryAttempt) (r : Result (List AttachmentPart)) (s : Sys Db)
      → AtMostOne s.db.sent (on_attachments p now m body a r s).1.db.sent
  unfolding ◌>>=◌
  on_attachments_sends body a (err e) s = inl ((give_up-Keeps unsent p now m allows _ _).moves s)
  on_attachments_sends body a (ok parts) s =
      let request = send_request p now m body parts in
      let r = answer (p.env.fault s.calls) (send_email p now request) s in
      let kept = (on_answer-Keeps unsent p now m allows retries a r.0).moves r.1 in
      elim (answer_sends (p.env.fault s.calls) request s) [
        | inl e ↦ inl (kept ∙ e)
        | inr e ↦ inr (body, parts, kept ∙ e)
      ]

  pub after :
      {A B : Type 0} (q : M Db A) (f : A → M Db B) (s : Sys Db)
      → Keeps unsent q
      → ((a : A) (t : Sys Db) → AtMostOne t.db.sent (f a t).1.db.sent)
      → AtMostOne s.db.sent ((q >>= f) s).1.db.sent
  after q f s k h = rest_of AtMostOne q f s k (inl refl) (λ a t e. h a t)

  on_attempt_created_sends :
      (body : RenderedMessage) (a : DeliveryAttempt) (r : Result (Unit {0})) (s : Sys Db)
      → AtMostOne s.db.sent (on_attempt_created p now m body a r s).1.db.sent
  on_attempt_created_sends body a (err e) s =
      inl ((give_up-Keeps unsent p now m allows _ _).moves s)
  on_attempt_created_sends body a (ok _) s =
      after _ _ s (Keeps-attempt unsent (load_attachments-Keeps unsent p now m))
        (on_attachments_sends body a)

  on_attempt_id_sends :
      (body : RenderedMessage) (number : ℕ) (r : Result String) (s : Sys Db)
      → AtMostOne s.db.sent (on_attempt_id p now m body number r s).1.db.sent
  on_attempt_id_sends body number (err e) s =
      inl ((give_up-Keeps unsent p now m allows _ _).moves s)
  on_attempt_id_sends body number (ok id) s =
      after _ _ s (Keeps-attempt unsent (create_attempt-Keeps unsent p now m allows _))
        (on_attempt_created_sends body _)

  on_attempt_number_sends :
      (body : RenderedMessage) (r : Result ℕ) (s : Sys Db)
      → AtMostOne s.db.sent (on_attempt_number p now m body r s).1.db.sent
  on_attempt_number_sends body (err e) s = inl ((give_up-Keeps unsent p now m allows _ _).moves s)
  on_attempt_number_sends body (ok number) s =
      after _ _ s (Keeps-attempt unsent (Keeps-id_gen unsent p.env))
        (on_attempt_id_sends body number)

  pub on_rendered_sends :
      (r : Result RenderedMessage) (s : Sys Db)
      → AtMostOne s.db.sent (on_rendered p now m r s).1.db.sent
  unfolding next_attempt_number
  on_rendered_sends (err e) s = inl ((give_up-Keeps unsent p now m allows _ _).moves s)
  on_rendered_sends (ok body) s =
      after _ _ s (Keeps-attempt unsent (Keeps-call unsent p.env _ (λ d. refl)))
        (on_attempt_number_sends body)
