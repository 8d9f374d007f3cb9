-- ===== src/Delivery/Accept/Whole.antt =====
-- How `Execute` ends (delivery/app/send/accept.go), from how its parts do.
use send_flow_backend.Prelude.{
  ℕ, String, ◌≡◌, refl, sym, ap, ◌∙◌, subst, if◌then◌else◌, ◌⊎◌, inl, inr, Bool, true, false, List,
  [], ◌∷◌, ◌++◌, append-nil, append_assoc, Option, none, some, length,
}
use send_flow_backend.Prelude.Text.{str_eq}
use send_flow_backend.Strings.{trim_space}
use send_flow_backend.Effect.{
  Error, is_error, Result, ok, err, Sys, ◌>>◌, return, call, and_then, finish_call, answer,
}
use send_flow_backend.Effect.Rules.{
  CommitsTold, ok_answer, Keeps, Keeps-if, Keeps-return, Keeps-throw, Keeps-then, Keeps-clock,
}
use send_flow_backend.Effect.Leaves.{
  Leaves, FollowsOn, AdmitsErrors, Leaves-bind, Leaves-bind_answer, Leaves-then, Leaves-lift,
}
use send_flow_backend.Delivery.Sending.{AttachmentManifest, QuotaCall}
use send_flow_backend.Delivery.Store.{Db}
use send_flow_backend.Delivery.Accept.Data.{
  CanonicalSendRequest, AttachmentStream, Input, Accepted, Target, AcceptPorts,
}
use send_flow_backend.Delivery.Accept.Validate.{
  validate_send_input, explode_recipients, build_canonical, compute_request_hash,
}
use send_flow_backend.Delivery.Accept.Rows.{check_and_consume, consumed}
use send_flow_backend.Delivery.Accept.Idempotency.{handle_idempotency, load_existing_request_result}
use send_flow_backend.Delivery.Accept.Write.{Draft, accept_body}
use send_flow_backend.Delivery.Accept.Handler.{
  sender_answer, check_sender_readiness, subject_answer, render_subject, suppression_answer,
  check_suppressions, consume_with, consume_quota, after_quota, draft_of, accept_new, on_replay,
  replay, encoded_canonical, execute,
}
use send_flow_backend.Delivery.Accept.Quiet.{tables, quiet, handle_idempotency-Keeps}
use send_flow_backend.Delivery.Accept.Settled.{
  where_enforced, consumes, Record, OnlyIf, Back, Settled, after_quota-Leaves,
}

-- The tables are as they were, and the units that were consumed, if any, have been given back.
abbrev pub Undone : Db → Db → Type 0
Undone d e =
    (tables e ≡ tables d)
    × ((e.quota_calls ≡ d.quota_calls)
        ⊎ ((workspace_id : String) × (api_key_id : String) × (n : ℕ) × (e.quota_calls
              ≡ d.quota_calls
                ++ QuotaCall.consume workspace_id api_key_id n
                  ∷ QuotaCall.refund workspace_id api_key_id n
                  ∷ [])))

extended : (extra : List QuotaCall) {l m : List QuotaCall} → l ≡ m → l ++ extra ≡ m ++ extra
extended extra h = ap (λ x. x ++ extra) h

none-some : {A : Type 0} {a : A} → none ≡ some a → ⊥
none-some h = cc

module _ (p : AcceptPorts) where
  -- The draft that an input leads to.
  abbrev pub IsDraft : Input → Draft → Type 0
  IsDraft raw draft =
      ((now : ℕ) × (validate_send_input p now raw ≡ ok draft.input))
      × (explode_recipients p draft.input.to draft.input.cc draft.input.bcc ≡ ok draft.targets)
      × (draft.key ≡ trim_space draft.input.idempotency_key)
      × (draft.request_hash
          ≡ compute_request_hash p (build_canonical p draft.input) draft.input.attachments)

  sender_answer-Keeps : (r : Result Bool) → Keeps quiet (sender_answer p r)
  sender_answer-Keeps (ok true) = Keeps-return quiet tt
  sender_answer-Keeps (ok false) = Keeps-throw quiet _
  sender_answer-Keeps (err e) =
      Keeps-if quiet (is_error e "delivery sender domain not found") (Keeps-throw quiet _)
        (Keeps-throw quiet _)

  subject_answer-Keeps : (r : Result String) → Keeps quiet (subject_answer p r)
  subject_answer-Keeps (ok s) = Keeps-return quiet s
  subject_answer-Keeps (err e) =
      Keeps-if quiet (is_error e "delivery template not found") (Keeps-throw quiet _) (
        Keeps-if quiet (is_error e "delivery template render payload invalid") (Keeps-throw quiet _)
          (Keeps-throw quiet _))

  render_subject-Keeps : (input : Input) → Keeps quiet (render_subject p input)
  unfolding render_subject
  render_subject-Keeps input =
      Keeps-if quiet (str_eq input.mode "template") (subject_answer-Keeps _) (Keeps-return quiet _)

  suppression_answer-Keeps : (r : Result Bool) → Keeps quiet (suppression_answer p r)
  suppression_answer-Keeps (err e) = Keeps-throw quiet _
  suppression_answer-Keeps (ok true) = Keeps-throw quiet _
  suppression_answer-Keeps (ok false) = Keeps-return quiet tt

  check_suppressions-Keeps :
      (workspace_id : String) (l : List Target) → Keeps quiet (check_suppressions p workspace_id l)
  unfolding check_suppressions
  check_suppressions-Keeps workspace_id [] = Keeps-return quiet tt
  check_suppressions-Keeps workspace_id (t ∷ ts) =
      Keeps-then quiet (suppression_answer-Keeps _) (check_suppressions-Keeps workspace_id ts)

  replay-Keeps : (input : Input) → Keeps quiet (replay p input)
  replay-Keeps input =
      Keeps-if quiet (str_eq (trim_space input.idempotency_key) "") (Keeps-return quiet _)
        (handle_idempotency-Keeps p _ _ _)

  encoded_canonical-Keeps : (r : Result String) → Keeps quiet (encoded_canonical p r)
  encoded_canonical-Keeps (ok json) = Keeps-return quiet json
  encoded_canonical-Keeps (err e) = Keeps-throw quiet _

  module _ (raw : Input) (New : Draft → Record p) where
    -- The units of the draft are consumed and its record is made.
    abbrev pub Charged : Db → Accepted → Db → Type 0
    Charged d a e =
        (draft : Draft) × (b : Db) × IsDraft raw draft
        × (tables b ≡ tables d)
        × (b.quota_calls ≡ d.quota_calls ++ consumes p draft.input (length draft.targets))
        × (New draft).Rel b a e

  module _ (raw : Input) (Old : Type 0) (New : Draft → Record p) where
    -- Where a commit that fails has not been done.
    abbrev Restored : Db → Db → Type 0
    Restored d e = CommitsTold p.env → Undone d e

    abbrev pub Ended : Db → Result Accepted → Db → Type 0
    Ended d (err x) e = Restored d e
    Ended d (ok a) e = (Old × Restored d e) ⊎ Charged raw New d a e

    Undone-after : (a b c : Db) → quiet.Rel a b → Undone b c → Undone a c
    Undone-after a b c h (k, inl q) = (k ∙ h.0, inl (q ∙ h.1))
    Undone-after a b c h (k, inr (w, i, n, q)) = (k ∙ h.0, inr (w, i, n, q ∙ extended _ h.1))

    Ended-follows : FollowsOn quiet Ended
    Ended-follows a b c (err x) h k = λ told. Undone-after a b c h (k told)
    Ended-follows a b c (ok answer) h (inl (old, k)) =
        inl (old, λ told. Undone-after a b c h (k told))
    Ended-follows a b c (ok answer) h (inr (draft, m, f, t, q, n)) =
        inr (draft, m, f, t ∙ h.0, q ∙ extended _ h.1, n)

    Ended-errors : AdmitsErrors quiet Ended
    Ended-errors a b x h told = (h.0, inl h.1)

    balanced :
        {A : Type 0} (o : Option A) (w k : String) (n : ℕ) (l m e : List QuotaCall)
        → m ≡ l ++ where_enforced o (QuotaCall.consume w k n)
        → e ≡ m ++ where_enforced o (QuotaCall.refund w k n)
        → (e ≡ l)
          ⊎ ((w : String) × (k : String) × (n : ℕ) × (e
                ≡ l ++ QuotaCall.consume w k n ∷ QuotaCall.refund w k n ∷ []))
    balanced none w k n l m e h j = inl (j ∙ append-nil m ∙ h ∙ append-nil l)
    balanced (some a) w k n l m e h j = inr (w, k, n, j ∙ extended _ h ∙ append_assoc l _ _)

    given-Back :
        (draft : Draft) (d b e : Db)
        → tables b ≡ tables d
        → b.quota_calls ≡ d.quota_calls ++ consumes p draft.input (length draft.targets)
        → Back p draft Old (New draft) b e
        → Restored d e
    given-Back draft d b e t q h told = (
      (h told).0 ∙ t,
      balanced p.quota _ _ _ d.quota_calls b.quota_calls e.quota_calls q (h told).1,
    )

    Settled-ends :
        (draft : Draft) (d b e : Db) (r : Result Accepted)
        → IsDraft raw draft
        → tables b ≡ tables d
        → b.quota_calls ≡ d.quota_calls ++ consumes p draft.input (length draft.targets)
        → Settled p draft Old (New draft) b r e
        → Ended d r e
    Settled-ends draft d b e (err x) f t q h = given-Back draft d b e t q h
    Settled-ends draft d b e (ok a) f t q (inl (old, h)) = inl (old, given-Back draft d b e t q h)
    Settled-ends draft d b e (ok a) f t q (inr n) = inr (draft, b, f, t, q, n)

    module _
        (writes : (draft : Draft) (id : String) (manifests : List AttachmentManifest) (s : Sys Db)
            (a : Accepted) (t : Sys Db)
          → accept_body p draft id manifests s ≡ (ok a, t)
          → (New draft).Rel s.db a t.db)
        (loads : (workspace_id key : String) (c : CanonicalSendRequest) (l : List AttachmentStream)
            (n : ℕ)
          → OnlyIf Old
              (load_existing_request_result p workspace_id key (compute_request_hash p c l) n))
        (replays : (workspace_id key : String) (c : CanonicalSendRequest)
            (l : List AttachmentStream) (s : Sys Db) (a : Accepted) (t : Sys Db)
          → handle_idempotency p workspace_id key (compute_request_hash p c l) s ≡ (ok (some a), t)
          → Old) where
      consume_then :
          (draft : Draft)
          → IsDraft raw draft
          → Leaves Ended (consume_quota p draft.input (length draft.targets) >> after_quota p draft)
      unfolding ◌>>◌ return call check_and_consume consume_quota
      consume_then draft f = record { leaves = λ s. with_port p.quota refl s }
        where
          after_consume :
              (s u : Sys Db)
              → tables u.db ≡ tables s.db
              → u.db.quota_calls ≡ s.db.quota_calls ++ consumes p draft.input (length draft.targets)
              → Ended s.db (after_quota p draft u).0 (after_quota p draft u).1.db
          after_consume s u t q = Settled-ends draft s.db u.db _ _ f t q (
              (after_quota-Leaves p draft Old (New draft) (writes draft) (
                  let (v, x, k, e) = f in
                  subst
                    (λ h.
                      OnlyIf Old
                        (load_existing_request_result p draft.input.workspace_id draft.key h 0))
                    (sym e) (loads _ _ _ _ _))).leaves
                u)

          with_port :
              (o : Option (List QuotaCall → String → String → ℕ → Result (Unit {0})))
              → p.quota ≡ o
              → (s : Sys Db)
              → Ended s.db
                  ((consume_with p o draft.input (length draft.targets) >> after_quota p draft) s).0
                  ((consume_with p o draft.input (length draft.targets) >> after_quota p draft)
                    s).1.db
          with_port none e s = after_consume s s refl (rw e (sym (append-nil s.db.quota_calls)))
          with_port (some enforcer) e s = on_fault (p.env.fault s.calls)
            where
              on_answer :
                  (r : Result (Unit {0}))
                  → let after =
                      and_then
                        (finish_call s (
                          consumed
                            (QuotaCall.consume draft.input.workspace_id draft.input.api_key_id
                              (length draft.targets))
                            s.db
                            r))
                        (λ _. after_quota p draft) in
                    Ended s.db after.0 after.1.db
              on_answer (ok x) = after_consume s _ refl (rw e refl)
              on_answer (err x) = λ told. (refl, inl refl)

              on_fault :
                  (f : Option Error)
                  → let after =
                      and_then
                        (answer f
                          (check_and_consume enforcer draft.input.workspace_id
                            draft.input.api_key_id
                            (length draft.targets))
                          s)
                        (λ _. after_quota p draft) in
                    Ended s.db after.0 after.1.db
              on_fault (some x) = λ told. (refl, inl refl)
              on_fault none = on_answer (enforcer s.db.quota_calls _ _ _)

      accept_new-Leaves :
          (input : Input) (targets : List Target) (json : String)
          → ((now : ℕ) × (validate_send_input p now raw ≡ ok input))
          → explode_recipients p input.to input.cc input.bcc ≡ ok targets
          → Leaves Ended (accept_new p input targets json)
      unfolding accept_new check_sender_readiness
      accept_new-Leaves input targets json v x =
          Leaves-then quiet Ended Ended-follows Ended-errors (sender_answer-Keeps _) (
            Leaves-bind quiet Ended Ended-follows Ended-errors (render_subject-Keeps input) λ s.
              Leaves-then quiet Ended Ended-follows Ended-errors
                (check_suppressions-Keeps _ targets)
                (consume_then (draft_of p input targets json s) (v, x, refl, refl)))

      replayed_only :
          (input : Input) (s : Sys Db) (a : Accepted) (t : Sys Db)
          → replay p input s ≡ (ok (some a), t)
          → Old
      unfolding return
      replayed_only input s a t h = split (str_eq (trim_space input.idempotency_key) "") h
        where
          split :
              (b : Bool)
              → (if b
                    then return none
                    else handle_idempotency p input.workspace_id
                        (trim_space input.idempotency_key)
                        (compute_request_hash p (build_canonical p input) input.attachments))
                  s
                ≡ (ok (some a), t)
              → Old
          split true k = absurd (none-some (ok_answer k).0)
          split false k = replays _ _ _ _ s a t k

      on_replay-Leaves :
          (input : Input) (targets : List Target) (json : String)
          → ((now : ℕ) × (validate_send_input p now raw ≡ ok input))
          → explode_recipients p input.to input.cc input.bcc ≡ ok targets
          → (o : Option Accepted) → ((a : Accepted) → o ≡ some a → Old)
          → Leaves Ended (on_replay p input targets json o)
      unfolding return
      on_replay-Leaves input targets json v x (some a) old = record {
        leaves = λ s. inl (old a refl, λ told. (refl, inl refl));
      }
      on_replay-Leaves input targets json v x none old = accept_new-Leaves input targets json v x

      pub execute-Leaves : Leaves Ended (execute p raw)
      unfolding execute
      execute-Leaves =
          Leaves-bind quiet Ended Ended-follows Ended-errors (Keeps-clock quiet p.env) λ now.
            Leaves-lift quiet Ended Ended-follows Ended-errors (validate_send_input p now raw)
              λ input v.
                Leaves-lift quiet Ended Ended-follows Ended-errors
                  (explode_recipients p input.to input.cc input.bcc)
                  λ targets x.
                    Leaves-bind quiet Ended Ended-follows Ended-errors (encoded_canonical-Keeps _)
                      λ json.
                        Leaves-bind_answer quiet Ended Ended-follows Ended-errors
                          (replay-Keeps input)
                          λ s o t h.
                            on_replay-Leaves input targets json (now, v) x o
                              (λ a e. replayed_only input s a t (h ∙ ap (λ y. (ok y, t)) e))
