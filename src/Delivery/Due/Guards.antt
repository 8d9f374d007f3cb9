-- ===== src/Delivery/Due/Guards.antt =====
-- The checks that stand before the sending of a message.
use send_flow_backend.Prelude.{
  ℕ, String, ◌≡◌, refl, sym, ◌∙◌, subst, ◌⊎◌, inl, inr, Bool, true, false, List, [], ◌∷◌, ◌++◌,
  Option, none, some, Bool-cases,
}
use send_flow_backend.Effect.{Error, Result, ok, err, Sys, ◌>>=◌, attempt, call, answer}
use send_flow_backend.Effect.Rules.{
  Keeps-call, Keeps-then, Keeps-ignore_error, Keeps-lift, ok_answer, err_answer,
}
use send_flow_backend.Delivery.Message.{Message}
use send_flow_backend.Delivery.Sending.{
  AttachmentPart, ProviderSendRequest, SuppressionDecision, RenderedMessage,
}
use send_flow_backend.Delivery.Store.{Db}
use send_flow_backend.Delivery.Due.Data.{DuePorts}
use send_flow_backend.Delivery.Due.Send.{send_request}
use send_flow_backend.Delivery.Due.Process.{
  on_suppression, on_readiness, check_and_send, if_locked, with_lock, process_message,
}
use send_flow_backend.Delivery.Due.Writes.{write_event-Keeps}
use send_flow_backend.Delivery.Due.Paths.{give_up-Keeps}
use send_flow_backend.Delivery.Due.Whole.{ask-Keeps, body_of-Keeps}
use send_flow_backend.Delivery.Due.Sends.{
  unsent, allows, AtMostOne, rest_of, rest_of_then, after, on_rendered_sends,
}

-- A call that only asks is answered, or fails.
asked :
    (p : DuePorts) {A : Type 0} (r : Result A) (s t : Sys Db) {a : Result A}
    → attempt (call p.env (λ d. (r, d))) s ≡ (ok a, t)
    → (a ≡ r) ⊎ ((e : Error) × (a ≡ err e))
unfolding attempt call
asked p {A} r s t {a} h = go (p.env.fault s.calls) h
  where
    go :
        (fault : Option Error)
        → ◌≡◌ {A = Result (Result A) × Sys Db}
            (ok (answer fault (λ d. (r, d)) s).0, (answer fault (λ d. (r, d)) s).1)
            (ok a, t)
        → (a ≡ r) ⊎ ((e : Error) × (a ≡ err e))
    go none h = inl (sym (ok_answer h).0)
    go (some e) h = inr (e, sym (ok_answer h).0)

call_answer :
    (p : DuePorts) {A : Type 0} (x : A) (s t : Sys Db) {a : A}
    → call p.env (λ d. (ok x, d)) s ≡ (ok a, t)
    → x ≡ a
unfolding call
call_answer p {A} x s t {a} h = go (p.env.fault s.calls) h
  where
    go :
        (fault : Option Error)
        → ◌≡◌ {A = Result A × Sys Db} (answer fault (λ d. (ok x, d)) s) (ok a, t)
        → x ≡ a
    go none h = (ok_answer h).0
    go (some e) h = absurd (err_answer h)

-- The lock of the message is not asked for, or is free.
abbrev pub Free : Option (String → Bool) → String → Type 0
Free none id = Unit
Free (some is_free) id = is_free id ≡ true

module _ (p : DuePorts) (now : ℕ) (m : Message) where
  -- The checks that the code makes before it sends the message.
  abbrev pub Passed : Type 0
  Passed =
      (p.sender_ready m.workspace_id m.sender_domain_id ≡ true)
      × ((p.check_suppression m.workspace_id m.recipient_email_normalized "workspace").suppressed
          ≡ false)

  -- No request; or one, and then the checks passed.
  abbrev Guarded : List ProviderSendRequest → List ProviderSendRequest → Type 0
  Guarded before after =
      (after ≡ before)
      ⊎ ((body : RenderedMessage) × (parts : List AttachmentPart) × (after
            ≡ before ++ send_request p now m body parts ∷ [])
          × Passed)

  guarded : (b c : List ProviderSendRequest) → Passed → AtMostOne p now m b c → Guarded b c
  guarded b c h (inl e) = inl e
  guarded b c h (inr (body, parts, e)) = inr (body, parts, e, h)

  abbrev decision : SuppressionDecision
  decision = p.check_suppression m.workspace_id m.recipient_email_normalized "workspace"

  on_suppression-Guarded :
      (r : Result SuppressionDecision) (s : Sys Db)
      → p.sender_ready m.workspace_id m.sender_domain_id ≡ true
      → (r ≡ ok decision) ⊎ ((e : Error) × (r ≡ err e))
      → Guarded s.db.sent (on_suppression p now m r s).1.db.sent
  on_suppression-Guarded (err e) s ready h =
      inl ((give_up-Keeps unsent p now m (allows p now m) _ _).moves s)
  on_suppression-Guarded (ok d) s ready (inr (e, h)) = cc
  on_suppression-Guarded (ok d) s ready (inl h) = elim (Bool-cases d.suppressed) [
    | inl e ↦ rw e (inl ((give_up-Keeps unsent p now m (allows p now m) _ _).moves s))
    | inr e ↦
        let same : d ≡ decision = cc in
        let clear : decision.suppressed ≡ false = rw (← same) e in
        rw e (
          guarded _ _ (ready, clear)
            (after p now m _ _ s (body_of-Keeps unsent p now m) (on_rendered_sends p now m)))
  ]

  on_readiness-Guarded :
      (r : Result Bool) (s : Sys Db)
      → (r ≡ ok (p.sender_ready m.workspace_id m.sender_domain_id)) ⊎ ((e : Error) × (r ≡ err e))
      → Guarded s.db.sent (on_readiness p now m r s).1.db.sent
  on_readiness-Guarded (err e) s h =
      inl ((give_up-Keeps unsent p now m (allows p now m) _ _).moves s)
  on_readiness-Guarded (ok false) s h =
      inl ((give_up-Keeps unsent p now m (allows p now m) _ _).moves s)
  on_readiness-Guarded (ok true) s (inr (e, h)) = cc
  on_readiness-Guarded (ok true) s (inl h) =
      let ready : p.sender_ready m.workspace_id m.sender_domain_id ≡ true = cc in
      rest_of p now m Guarded _ _ s (ask-Keeps unsent p _) (inl refl)
        (λ r t e. on_suppression-Guarded r t ready (asked p _ s t e))

  check_and_send-Guarded : (s : Sys Db) → Guarded s.db.sent (check_and_send p now m s).1.db.sent
  unfolding check_and_send
  check_and_send-Guarded s =
      rest_of p now m Guarded _ _ s (ask-Keeps unsent p _) (inl refl)
        (λ r t e. on_readiness-Guarded r t (asked p _ s t e))

  if_locked-Guarded :
      (b : Bool) (s : Sys Db)
      → (Guarded s.db.sent (if_locked p now m b s).1.db.sent × (b ≡ true))
        ⊎ ((if_locked p now m b s).1.db.sent ≡ s.db.sent)
  unfolding ◌>>=◌
  if_locked-Guarded false s = inr refl
  if_locked-Guarded true s =
      let r = check_and_send p now m s in
      let released =
        Keeps-then unsent
          (Keeps-ignore_error unsent (Keeps-call unsent p.env (λ d. (ok tt, d)) (λ d. refl)))
          (Keeps-lift unsent r.0) in
      inl (
        subst (λ x. Guarded s.db.sent x) (sym (released.moves r.1)) (check_and_send-Guarded s),
        refl,
      )

  -- What is known when the provider gets a request.
  abbrev pub SentOnce : List ProviderSendRequest → List ProviderSendRequest → Type 0
  SentOnce before after =
      (after ≡ before)
      ⊎ ((body : RenderedMessage) × (parts : List AttachmentPart) × (after
            ≡ before ++ send_request p now m body parts ∷ [])
          × Passed
          × Free p.lock_is_free m.id)

  sent_once :
      (b c : List ProviderSendRequest) → Free p.lock_is_free m.id → Guarded b c → SentOnce b c
  sent_once b c h (inl e) = inl e
  sent_once b c h (inr (body, parts, e, g)) = inr (body, parts, e, g, h)

  with_lock_sends :
      (o : Option (String → Bool)) (s : Sys Db)
      → p.lock_is_free ≡ o
      → SentOnce s.db.sent (with_lock p now o m s).1.db.sent
  with_lock_sends none s h =
      sent_once _ _ (subst (λ x. Free x m.id) (sym h) tt) (check_and_send-Guarded s)
  with_lock_sends (some is_free) s h =
      rest_of p now m SentOnce _ _ s (Keeps-call unsent p.env _ (λ d. refl)) (inl refl) λ b t e.
        elim (if_locked-Guarded b t) [
          | inr same ↦ inl same
          | inl (g, taken) ↦
              sent_once _ _ (subst (λ x. Free x m.id) (sym h) (call_answer p _ s t e ∙ taken)) g
        ]

-- The provider gets at most one request for a message that is processed, whatever calls fail; and if
-- it gets one, the request is to the message's recipient, the sender was ready, the recipient was not
-- suppressed, and no other worker had the message's lock, where locks are used.
pub process_message_sends :
    (p : DuePorts) (now : ℕ) (m : Message) (s : Sys Db)
    → SentOnce p now m s.db.sent (process_message p now m s).1.db.sent
unfolding process_message
process_message_sends p now m s =
    rest_of_then p now m (SentOnce p now m) _ _ s
      (write_event-Keeps unsent p now m (allows p now m) m _ _ _ _) (inl refl)
      (λ t. with_lock_sends p now m p.lock_is_free t refl)
