-- ===== src/Delivery/Due/Once.antt =====
-- The accepted state is written once, however many tries it takes.
use send_flow_backend.Prelude.{
  ℕ, zero, suc, String, ◌≡◌, refl, sym, ap, ◌∙◌, subst, Bool, true, false, List, [], ◌∷◌, ◌++◌, any,
}
use send_flow_backend.Effect.{Error, Result, ok, err, Sys, M, tick, ◌>>=◌, return, throw, within_tx}
use send_flow_backend.Effect.Rules.{
  Preorder, Keeps, Keeps-call, Keeps-return, Keeps-bind, Keeps-id_gen, Keeps-ignore_error,
  within_tx_err, CommitsTold,
}
use send_flow_backend.Effect.Outcomes.{
  bind-eq-ok, then-eq-ok, call-eq-ok, lift-eq-ok, within_tx-eq-ok,
}
use send_flow_backend.Delivery.Message.{Message, DeliveryAttempt, MessageEvent}
use send_flow_backend.Delivery.Contracts.{Payload, event_message_accepted_v1}
use send_flow_backend.Delivery.Sending.{ProviderSendResult}
use send_flow_backend.Delivery.Store.{
  Db, OutboxEvent, update_attempt, mark_accepted, save_outbox, create_message_event, affected,
}
use send_flow_backend.Delivery.Due.Data.{DuePorts, outbox_event, publish, write_event, log_event}
use send_flow_backend.Delivery.Due.Accepted.{
  save_accepted_event, accepted_body, or_again, tries, with_event_id, persist_accepted_state,
}

-- The outbox is left as it is.
abbrev unpublished : Preorder Db
unpublished = record {
  Rel = λ d e. e.outbox ≡ d.outbox;
  same = λ d. refl;
  both = λ a b c h k. k ∙ h;
}

affected_unpublished :
    (b : Bool) (missing : String) (d e : Db)
    → e.outbox ≡ d.outbox
    → (affected b missing d e).1.outbox ≡ d.outbox
affected_unpublished true missing d e h = h
affected_unpublished false missing d e h = refl

moved :
    {A : Type 0} {q : M Db A} {s t : Sys Db} {a : A}
    → Keeps unpublished q
    → q s ≡ (ok a, t)
    → t.db.outbox ≡ s.db.outbox
moved {A} {q} {s} {t} k h = ap (λ (r : Result A × Sys Db). r.1.db.outbox) (sym h) ∙ k.moves s

-- One event, of that type and about that message, is added to the outbox.
abbrev pub PublishedOne : String → Message → List OutboxEvent → List OutboxEvent → Type 0
PublishedOne event_type m before after =
    (e : OutboxEvent) × (after ≡ before ++ e ∷ [])
    × (e.event_type ≡ event_type)
    × (e.aggregate_id ≡ m.id)

module _ (p : DuePorts) (now : ℕ) (m : Message) where
  log_event-Keeps : (b : Bool) (e : String → MessageEvent) → Keeps unpublished (log_event p now b e)
  unfolding create_message_event
  log_event-Keeps false e = Keeps-return unpublished tt
  log_event-Keeps true e = Keeps-ignore_error unpublished (
      Keeps-bind unpublished (Keeps-id_gen unpublished p.env)
        (λ id. Keeps-call unpublished p.env _ (λ d. refl)))

  pub publish_one :
      (id event_type : String) (payload : Payload) (s t : Sys Db)
      → publish p now id event_type m payload s ≡ (ok tt, t)
      → PublishedOne event_type m s.db.outbox t.db.outbox
  unfolding publish save_outbox
  publish_one id event_type payload s t h =
      let (envelope, u, built, h') = bind-eq-ok _ _ s h in
      let (bytes, v, encoded, h'') = bind-eq-ok _ _ u h' in
      let same = lift-eq-ok _ u encoded ∙ lift-eq-ok _ s built in
      (
        outbox_event p now envelope.event_id event_type m bytes,
        ap (λ (d : Db). d.outbox) (call-eq-ok p.env _ v h'')
            ∙ ap
                (λ (d : Db).
                  d.outbox ++ outbox_event p now envelope.event_id event_type m bytes ∷ [])
                same,
        refl,
        refl,
      )

  accepted_body_one :
      (a : DeliveryAttempt) (res : ProviderSendResult) (id : String) (s t : Sys Db)
      → accepted_body p now m a res id s ≡ (ok tt, t)
      → PublishedOne event_message_accepted_v1 m s.db.outbox t.db.outbox
  unfolding accepted_body save_accepted_event update_attempt mark_accepted write_event
  accepted_body_one a res id s t h =
      let (u, attempted, h1) = then-eq-ok _ _ s h in
      let (v, marked, h2) = then-eq-ok _ _ u h1 in
      let (w, logged, h3) = then-eq-ok _ _ v h2 in
      let same =
        moved (log_event-Keeps p.has_event_repo _) logged
        ∙ moved
            (Keeps-call unpublished p.env _
              (λ d. affected_unpublished (any _ d.messages) _ d _ refl))
            marked
        ∙ moved
            (Keeps-call unpublished p.env _
              (λ d. affected_unpublished (any _ d.attempts) _ d _ refl))
            attempted in
      subst (λ x. PublishedOne event_message_accepted_v1 m x t.db.outbox) same
        (publish_one id _ _ w t h3)

  -- What a run that should publish one event has left, by its answer.
  abbrev pub OneOrNone : String → Db → Result (Unit {0}) × Sys Db → Type 0
  OneOrNone event_type d (ok _, t) = PublishedOne event_type m d.outbox t.db.outbox
  OneOrNone event_type d (err e, t) = t.db ≡ d

  after_try :
      (told : CommitsTold p.env) (n : ℕ) (a : DeliveryAttempt) (res : ProviderSendResult)
      (id : String) (s u : Sys Db) (r : Result (Unit {0}))
      → within_tx p.env (accepted_body p now m a res id) s ≡ (r, u)
      → ((e : Error) → OneOrNone event_message_accepted_v1 u.db (tries p now n e m a res id u))
      → OneOrNone event_message_accepted_v1 s.db
          (or_again p now r (λ e. tries p now n e m a res id) u)
  unfolding return
  after_try told n a res id s u (ok tt) h again =
      let (v, done, same) = within_tx-eq-ok p.env _ s h in
      subst (λ (d : Db). PublishedOne event_message_accepted_v1 m s.db.outbox d.outbox) (sym same)
        (accepted_body_one a res id (tick s) v done)
  after_try told n a res id s u (err e) h again =
      let undone : u.db ≡ s.db =
        ap (λ (x : Result (Unit {0}) × Sys Db). x.1.db) (sym h)
        ∙ within_tx_err p.env _ s told (ap (λ (x : Result (Unit {0}) × Sys Db). x.0) h) in
      subst (λ d. OneOrNone event_message_accepted_v1 d (tries p now n e m a res id u)) undone
        (again e)

  tries_once :
      (told : CommitsTold p.env) (n : ℕ) (last : Error) (a : DeliveryAttempt)
      (res : ProviderSendResult) (id : String) (s : Sys Db)
      → OneOrNone event_message_accepted_v1 s.db (tries p now n last m a res id s)
  unfolding tries throw ◌>>=◌
  tries_once told zero last a res id s = refl
  tries_once told (suc n) last a res id s =
      let x = within_tx p.env (accepted_body p now m a res id) s in
      after_try told n a res id s x.1 x.0 refl (λ e. tries_once told n e a res id x.1)

  with_event_id_once :
      (told : CommitsTold p.env) (a : DeliveryAttempt) (res : ProviderSendResult)
      (o : Result String) (s : Sys Db)
      → OneOrNone event_message_accepted_v1 s.db (with_event_id p now m a res o s)
  unfolding throw
  with_event_id_once told a res (err e) s = refl
  with_event_id_once told a res (ok id) s = tries_once told 3 _ a res id s

-- Where a commit that answers an error has not been done: `persistAcceptedState` publishes the acceptance exactly once or not at all: if it succeeds, at
-- whichever of its tries, the outbox has gained one event, of the accepted type and about the
-- message; if it fails, the database is what it was before the tries.
pub persist_accepted_state_once :
    (p : DuePorts) (now : ℕ) (m : Message) (a : DeliveryAttempt) (res : ProviderSendResult)
    (s : Sys Db)
    → CommitsTold p.env
    → OneOrNone p now m event_message_accepted_v1 s.db (persist_accepted_state p now m a res s)
unfolding persist_accepted_state ◌>>=◌
persist_accepted_state_once p now m a res s told =
    with_event_id_once p now m told a res (p.env.new_id s.calls) (tick s)
