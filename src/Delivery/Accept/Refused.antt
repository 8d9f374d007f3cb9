-- ===== src/Delivery/Accept/Refused.antt =====
-- The repeated requests that `Execute` (delivery/app/send/accept.go) does not answer, with the
-- repositories of delivery/infrastructure/postgres.
use send_flow_backend.Prelude.{
  ℕ, String, ◌≡◌, ◌≢◌, refl, sym, ap, ◌∙◌, Bool, true, false, Option, none, some,
}
use send_flow_backend.Prelude.Text.{str_eq, eq_iff}
use send_flow_backend.Effect.{is_error, Result, ok, err, Sys, ◌>>=◌, return, throw, attempt, call}
use send_flow_backend.Effect.Rules.{ok_answer}
use send_flow_backend.Effect.Outcomes.{bind-eq-ok, call_ran}
use send_flow_backend.Delivery.Sending.{IdempotencyEntry}
use send_flow_backend.Delivery.Store.{Db, TransactionalRequest, found, request_not_found}
use send_flow_backend.Delivery.Accept.Data.{Accepted, AcceptPorts}
use send_flow_backend.Delivery.Accept.Rows.{find_by_idempotency_key, selected}
use send_flow_backend.Delivery.Accept.Idempotency.{
  load_existing, load_existing_request_result, on_existing, look_up, on_entry, handle_idempotency,
}
use send_flow_backend.Delivery.Accept.Settled.{OnlyIf}
use send_flow_backend.Delivery.Accept.Accepts.{thrown, either_of}

-- A digest is never the empty text: it has 64 hexadecimal digits.
abbrev pub IsDigest : (String → String) → Type 0
IsDigest f = (x : String) → f x ≢ ""

clash : {b : Bool} → b ≡ true → b ≡ false → ⊥
clash h k = cc

is_false : {b : Bool} → (b ≡ true → ⊥) → b ≡ false
is_false {b = true} h = absurd (h refl)
is_false {b = false} h = refl

ok_inj : {A : Type 0} {a b : A} → ok a ≡ ok b → a ≡ b
ok_inj h = cc

module _ (p : AcceptPorts) where
  -- The request that is read back has no digest.
  unhashed :
      (workspace_id key : String) (s : Sys Db) {r : TransactionalRequest} {t : Sys Db}
      → call p.env (find_by_idempotency_key workspace_id key) s ≡ (ok r, t)
      → r.request_hash ≡ ""
  unfolding find_by_idempotency_key
  unhashed workspace_id key s {r} {t} h = go _ (call_ran p.env _ s h)
    where
      go :
          (o : Option TransactionalRequest)
          → found (elim o [ none ↦ none | some x ↦ some (selected x) ]) request_not_found s.db
            ≡ (ok r, t.db)
          → r.request_hash ≡ ""
      go none k = absurd cc
      go (some x) k = sym (
          ap (λ (y : TransactionalRequest). y.request_hash)
            (ok_inj (ap (λ (y : Result TransactionalRequest × Db). y.0) k)))

  module _ (hash : String) (digest : hash ≢ "") where
    other_digest :
        (x : TransactionalRequest) → x.request_hash ≡ "" → str_eq x.request_hash hash ≡ false
    other_digest x e = is_false (λ k. digest (sym ((eq_iff x.request_hash hash).0 k) ∙ e))

    pub never_loaded :
        (workspace_id key : String) (n : ℕ)
        → OnlyIf ⊥ (load_existing_request_result p workspace_id key hash n)
    unfolding load_existing_request_result ◌>>=◌ attempt
    never_loaded workspace_id key n s a t h = go _ refl h
      where
        go :
            (r : Result TransactionalRequest × Sys Db)
            → call p.env (find_by_idempotency_key workspace_id key) s ≡ r
            → load_existing p workspace_id hash n r.0 r.1 ≡ (ok a, t)
            → ⊥
        go (err e, u) k l = thrown _ u l
        go (ok x, u) k l = thrown _ u (rw (other_digest x (unhashed workspace_id key s k)) at l)

    never_found :
        (workspace_id key : String) (s : Sys Db) {a : Accepted} {t : Sys Db}
        → look_up p workspace_id key hash s ≡ (ok (some a), t)
        → ⊥
    unfolding look_up ◌>>=◌ attempt return
    never_found workspace_id key s {a} {t} h = go _ refl h
      where
        go :
            (r : Result TransactionalRequest × Sys Db)
            → call p.env (find_by_idempotency_key workspace_id key) s ≡ r
            → on_existing p workspace_id key hash r.0 r.1 ≡ (ok (some a), t)
            → ⊥
        go (err e, u) k l =
            either_of (is_error e request_not_found) (return none) (throw _) u _
              (λ m. cc (ok_answer m).0) (thrown _ u) l
        go (ok x, u) k l = thrown _ u (rw (other_digest x (unhashed workspace_id key s k)) at l)

    entry_unanswered :
        (workspace_id key : String) (r : Result IdempotencyEntry) (s : Sys Db) {a : Accepted}
        {t : Sys Db}
        → on_entry p workspace_id key hash r s ≡ (ok (some a), t)
        → ⊥
    entry_unanswered workspace_id key (err e) s h = never_found workspace_id key s h
    entry_unanswered workspace_id key (ok entry) s h =
        either_of (str_eq entry.payload_hash hash) _ (throw _) s _
          (λ k.
            let (a, u, loaded, rest) = bind-eq-ok _ _ s k in
            never_loaded workspace_id key entry.accepted_at s a u loaded)
          (thrown _ s) h

    pub never_replayed :
        (workspace_id key : String) (s : Sys Db) {a : Accepted} {t : Sys Db}
        → handle_idempotency p workspace_id key hash s ≡ (ok (some a), t)
        → ⊥
    unfolding handle_idempotency
    never_replayed workspace_id key s h =
        either_of p.has_cache _ (look_up p workspace_id key hash) s _
          (λ k.
            let (r, u, read, rest) = bind-eq-ok _ _ s k in
            entry_unanswered workspace_id key r u rest)
          (never_found workspace_id key s) h
