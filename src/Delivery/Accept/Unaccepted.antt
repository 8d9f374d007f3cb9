-- ===== src/Delivery/Accept/Unaccepted.antt =====
-- With `CreateMany` as delivery/infrastructure/postgres/repository.go has it, `Execute`
-- (delivery/app/send/accept.go) accepts nothing.
use send_flow_backend.Prelude.{
  ◌+◌, String, ◌≡◌, ◌≢◌, refl, sym, ap, ◌∙◌, inl, inr, List, [], ◌∷◌, ◌++◌, length, length-append,
  arith,
}
use send_flow_backend.Effect.{Error, Result, ok, err, Sys}
use send_flow_backend.Effect.Outcomes.{bind-eq-ok, then-eq-ok, call_ran}
use send_flow_backend.Delivery.Sending.{AttachmentManifest}
use send_flow_backend.Delivery.Store.{Db}
use send_flow_backend.Delivery.Insert.{Server, create_many}
use send_flow_backend.Delivery.Insert.Nulls.{RefusesNulls, create_many_refuses}
use send_flow_backend.Delivery.Accept.Data.{Input, Accepted, Target, RecipientTarget, AcceptPorts}
use send_flow_backend.Delivery.Accept.Validate.{compute_request_hash, recipient_count}
use send_flow_backend.Delivery.Accept.Write.{
  Draft, message_for, write_target, write_targets, accept_body,
}
use send_flow_backend.Delivery.Accept.Handler.{execute}
use send_flow_backend.Delivery.Accept.Settled.{Record}
use send_flow_backend.Delivery.Accept.Whole.{IsDraft, Ended, execute-Leaves}
use send_flow_backend.Delivery.Accept.Bounds.{validate_send_input-Bounded}
use send_flow_backend.Delivery.Accept.Recipients.{explode_recipients_iff}
use send_flow_backend.Delivery.Accept.Refused.{IsDigest, never_loaded, never_replayed}
use send_flow_backend.Delivery.Accept.Recipients.{tagged}
use send_flow_backend.Delivery.Accept.Bounds.{length-map}

apart : {A : Type 0} {e : Error} {a : A} → err e ≡ ok a → ⊥
apart h = cc

err_ok :
    {A : Type 0} {e : Error} {a : A} {b c : Db} → ◌≡◌ {A = Result A × Db} (err e, b) (ok a, c) → ⊥
err_ok h = apart (ap (λ r. r.0) h)

-- The handler with the repository's own `CreateMany`.
abbrev pub with_repository : AcceptPorts → Server → AcceptPorts
with_repository p server = record p { insert_messages = create_many server }

module _ (p : AcceptPorts) (server : Server) (refuses : RefusesNulls server) where
  -- An accepted draft has no recipients.
  abbrev nobody : Draft → Record (with_repository p server)
  nobody draft = record {
    Rel = λ d a e. draft.targets ≡ [];
    before = λ a b x c h r. r;
    after = λ a x b c h r. r;
  }

  target_refused :
      (draft : Draft) (request_id : String) (t : Target) (s : Sys Db) {id : String} {u : Sys Db}
      → write_target (with_repository p server) draft request_id t s ≡ (ok id, u)
      → ⊥
  unfolding write_target message_for
  target_refused draft request_id t s h =
      let (id, s1, named, h1) = bind-eq-ok _ _ s h in
      let (ids, s2, stored, h2) = bind-eq-ok _ _ s1 h1 in
      let (e, refused) =
        create_many_refuses server refuses
          (message_for (with_repository p server) draft request_id t id) [] s1.db refl in
      err_ok (sym refused ∙ call_ran p.env _ s1 stored)

  written_nobody :
      (draft : Draft) (request_id : String) (ts : List Target) (s : Sys Db) {ids : List String}
      {u : Sys Db}
      → write_targets (with_repository p server) draft request_id ts s ≡ (ok ids, u)
      → ts ≡ []
  unfolding write_targets
  written_nobody draft request_id [] s h = refl
  written_nobody draft request_id (t ∷ ts) s h =
      let (id, s1, first, rest) = bind-eq-ok _ _ s h in
      absurd (target_refused draft request_id t s first)

  body_nobody :
      (draft : Draft) (request_id : String) (manifests : List AttachmentManifest) (s : Sys Db)
      (a : Accepted) (t : Sys Db)
      → accept_body (with_repository p server) draft request_id manifests s ≡ (ok a, t)
      → draft.targets ≡ []
  unfolding accept_body
  body_nobody draft request_id manifests s a t h =
      let (id, s1, named, h1) = bind-eq-ok _ _ s h in
      let (s2, requested, h2) = then-eq-ok _ _ s1 h1 in
      let (s3, attached, h3) = then-eq-ok _ _ s2 h2 in
      let (ids, s4, written, h4) = bind-eq-ok _ _ s3 h3 in
      written_nobody draft id draft.targets s3 written

  count_all :
      (to copied hidden : List RecipientTarget)
      → length ((tagged p "to" to ++ tagged p "cc" copied) ++ tagged p "bcc" hidden)
        ≡ length to + length copied + length hidden
  count_all to copied hidden = omega (
    arith,
    length-append (tagged p "to" to ++ tagged p "cc" copied) (tagged p "bcc" hidden),
    length-append (tagged p "to" to) (tagged p "cc" copied),
    length-map {B = Target} (λ r. record { recipient = r; role = "to" }) to,
    length-map {B = Target} (λ r. record { recipient = r; role = "cc" }) copied,
    length-map {B = Target} (λ r. record { recipient = r; role = "bcc" }) hidden,
  )

  -- A draft has recipients.
  somebody :
      (raw : Input) (draft : Draft)
      → IsDraft (with_repository p server) raw draft
      → draft.targets ≡ []
      → ⊥
  unfolding recipient_count
  somebody raw draft ((now, valid), exploded, key, hash) none_there =
      let bounds =
        validate_send_input-Bounded (with_repository p server) now raw draft.input valid in
      let parts =
        ((explode_recipients_iff (with_repository p server) draft.input.to draft.input.cc
            draft.input.bcc draft.targets).0
          exploded).0 in
      omega (
        arith,
        bounds.some_recipient,
        ap (λ (l : List Target). length l) (sym none_there ∙ parts),
        count_all draft.input.to draft.input.cc draft.input.bcc,
      )

  -- With the repository's `CreateMany`, over a server that refuses nulls where a column must have a
  -- value, and with a digest that is never empty, `Execute` answers every request with an error.
  pub execute_never_accepts :
      IsDigest p.sha256_hex
      → (raw : Input) (s : Sys Db) (a : Accepted)
      → (execute (with_repository p server) raw s).0 ≢ ok a
  unfolding compute_request_hash
  execute_never_accepts digest raw s a h = go _ h (
      (execute-Leaves (with_repository p server) raw ⊥ nobody body_nobody
          (λ w k c l n. never_loaded (with_repository p server) _ (digest _) w k n)
          (λ w k c l s a t. never_replayed (with_repository p server) _ (digest _) w k s)).leaves
        s)
    where
      go :
          (r : Result Accepted)
          → r ≡ ok a
          → Ended
              (with_repository p server)
              raw
              ⊥
              nobody
              s.db
              r
              (execute (with_repository p server) raw s).1.db
          → ⊥
      go (ok b) e (inr (draft, d, made, kept, charged, none_there)) =
          somebody raw draft made none_there
      go (ok b) e (inl (old, k)) = old
      go (err x) e k = cc
