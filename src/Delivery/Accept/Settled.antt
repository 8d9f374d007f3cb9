-- ===== src/Delivery/Accept/Settled.antt =====
-- How an acceptance ends (delivery/app/send/accept.go): what it leaves of the tables and of the quota.
use send_flow_backend.Prelude.{
  ℕ, String, ◌≡◌, refl, sym, ap, ◌∙◌, subst, ◌⊎◌, inl, inr, Bool, true, false, if◌then◌else◌, List,
  [], ◌∷◌, ◌++◌, append-nil, Option, none, some, Bool-cases, length,
}
use send_flow_backend.Prelude.Text.{str_eq}
use send_flow_backend.Effect.{
  Error, is_error, Result, ok, err, Sys, M, tick, ◌>>◌, return, throw, within_tx,
}
use send_flow_backend.Effect.Rules.{
  err_answer, Keeps, Keeps-if, Keeps-throw, Keeps-id_gen, within_tx_err, CommitsTold, Keeps-call,
}
use send_flow_backend.Effect.Leaves.{
  Leaves, FollowsOn, Leaves-attempt, Leaves-answer, Silent, Silent-return, Silent-if, Silent-then,
  Silent-ignore_error, Leaves-Silent, Silent-then',
}
use send_flow_backend.Effect.Outcomes.{within_tx-eq-ok}
use send_flow_backend.Delivery.Sending.{AttachmentManifest, QuotaCall}
use send_flow_backend.Delivery.Store.{Db}
use send_flow_backend.Delivery.Accept.Data.{AttachmentStream, Input, Accepted, AcceptPorts}
use send_flow_backend.Delivery.Accept.Rows.{ask_refund, set_idempotency, delete_object}
use send_flow_backend.Delivery.Accept.Idempotency.{load_existing_request_result, cache_answer}
use send_flow_backend.Delivery.Accept.Write.{Draft, accept_body, unique_violation}
use send_flow_backend.Delivery.Accept.Handler.{
  refund_with, refund_quota, clean_up_object, clean_up_attachments, on_transaction, commit_request,
  on_manifests, on_request_id, with_attachments, after_quota,
}
use send_flow_backend.Delivery.Accept.Quiet.{
  tables, quiet, load_existing_request_result-Keeps, store_attachments-Keeps,
}

-- The call is made where there is an enforcer.
abbrev pub where_enforced : {A : Type 0} → Option A → QuotaCall → List QuotaCall
where_enforced none c = []
where_enforced (some enforcer) c = c ∷ []

-- The chain answers only if `Old` holds.
abbrev pub OnlyIf : Type 0 → M Db Accepted → Type 0
OnlyIf Old k = (s : Sys Db) (a : Accepted) (t : Sys Db) → k s ≡ (ok a, t) → Old

throw-OnlyIf : (Old : Type 0) (e : Error) → OnlyIf Old (throw e)
unfolding throw
throw-OnlyIf Old e s a t h = absurd (err_answer h)

if-OnlyIf :
    (Old : Type 0) (b : Bool) {k l : M Db Accepted}
    → OnlyIf Old k
    → OnlyIf Old l
    → OnlyIf Old (if b then k else l)
if-OnlyIf Old true h j = h
if-OnlyIf Old false h j = j

module _ (p : AcceptPorts) where
  -- The calls of the quota enforcer that belong to so many recipients of an input.
  abbrev pub consumes : Input → ℕ → List QuotaCall
  consumes input units =
      where_enforced p.quota (QuotaCall.consume input.workspace_id input.api_key_id units)

  abbrev pub refunds : Input → ℕ → List QuotaCall
  refunds input units =
      where_enforced p.quota (QuotaCall.refund input.workspace_id input.api_key_id units)

  clean_up_object-Silent : (a : AttachmentManifest) → Silent quiet (clean_up_object p a)
  unfolding delete_object
  clean_up_object-Silent a =
      Silent-if quiet (str_eq a.storage_key "") (Silent-return quiet)
        (Silent-ignore_error quiet (Keeps-call quiet p.env _ (λ d. (refl, refl))))

  clean_up_attachments-Silent :
      (l : List AttachmentManifest) → Silent quiet (clean_up_attachments p l)
  unfolding clean_up_attachments
  clean_up_attachments-Silent [] = Silent-return quiet
  clean_up_attachments-Silent (a ∷ rest) =
      Silent-then quiet (clean_up_object-Silent a) (clean_up_attachments-Silent rest)

  cache_answer-Silent :
      (workspace_id key hash : String) (a : Accepted)
      → Silent quiet (cache_answer p workspace_id key hash a)
  unfolding set_idempotency
  cache_answer-Silent workspace_id key hash a =
      Silent-if quiet p.has_cache
        (Silent-ignore_error quiet (Keeps-call quiet p.env _ (λ d. (refl, refl))))
        (Silent-return quiet)

  -- What an acceptance leaves, told by the database before, the answer and the database after. Neither
  -- the storage nor the cache counts.
  pub record Record : Type 1 where
    pub Rel : Db → Accepted → Db → Type 0
    pub before : (a b : Db) (x : Accepted) (c : Db) → quiet.Rel a b → Rel b x c → Rel a x c
    pub after : (a : Db) (x : Accepted) (b c : Db) → quiet.Rel b c → Rel a x b → Rel a x c

  module _ (draft : Draft) (Old : Type 0) (New : Record) where
    -- Nothing is written and the units are given back, where a commit that fails has not been done.
    abbrev pub Back : Db → Db → Type 0
    Back d e =
        CommitsTold p.env
        → (tables e ≡ tables d)
          × (e.quota_calls ≡ d.quota_calls ++ refunds draft.input (length draft.targets))

    abbrev pub Settled : Db → Result Accepted → Db → Type 0
    Settled d (err x) e = Back d e
    Settled d (ok a) e = (Old × Back d e) ⊎ New.Rel d a e

    -- What is left after a failure, whatever is answered then.
    abbrev GivenBack : Db → Result Accepted → Db → Type 0
    GivenBack d (err x) e = Back d e
    GivenBack d (ok a) e = Old × Back d e

    GivenBack-Back :
        (d e : Db) (r : Result Accepted)
        → ((a : Accepted) → r ≡ ok a → Old)
        → Back d e
        → GivenBack d r e
    GivenBack-Back d e (err x) old h = h
    GivenBack-Back d e (ok a) old h = (old a refl, h)

    GivenBack-Settled : (d e : Db) (r : Result Accepted) → GivenBack d r e → Settled d r e
    GivenBack-Settled d e (err x) h = h
    GivenBack-Settled d e (ok a) h = inl h

    settled : {m : M Db Accepted} → Leaves GivenBack m → Leaves Settled m
    settled {m} l = record { leaves = λ s. GivenBack-Settled s.db (m s).1.db (m s).0 (l.leaves s) }

    Back-after : (a b c : Db) → (CommitsTold p.env → quiet.Rel a b) → Back b c → Back a c
    Back-after a b c h k told = (
      (k told).0 ∙ (h told).0,
      (k told).1 ∙ ap (λ l. l ++ refunds draft.input (length draft.targets)) (h told).1,
    )

    GivenBack-after :
        (a b c : Db) (r : Result Accepted)
        → (CommitsTold p.env → quiet.Rel a b)
        → GivenBack b r c
        → GivenBack a r c
    GivenBack-after a b c (err x) h k = Back-after a b c h k
    GivenBack-after a b c (ok x) h (old, k) = (old, Back-after a b c h k)

    GivenBack-follows : FollowsOn quiet GivenBack
    GivenBack-follows a b c r h k = GivenBack-after a b c r (λ _. h) k

    Settled-follows : FollowsOn quiet Settled
    Settled-follows a b c (err x) h k = Back-after a b c (λ _. h) k
    Settled-follows a b c (ok answer) h (inl (old, k)) = inl (old, Back-after a b c (λ _. h) k)
    Settled-follows a b c (ok answer) h (inr k) = inr (New.before a b answer c h k)

    refund_then :
        (o : Option (List QuotaCall → String → String → ℕ → Result (Unit {0}))) (k : M Db Accepted)
        (s : Sys Db)
        → p.quota ≡ o
        → Keeps quiet k
        → OnlyIf Old k
        → let after = (refund_with p o draft.input (length draft.targets) >> k) s in
          GivenBack s.db after.0 after.1.db
    unfolding ◌>>◌ return ask_refund
    refund_then none k s e h old =
        let after = h.moves s in
        GivenBack-Back s.db _ _ (λ a j. old s a (k s).1 (cc))
          (λ told. (after.0, rw e (after.1 ∙ sym (append-nil s.db.quota_calls))))
    refund_then (some enforcer) k s e h old =
        GivenBack-Back s.db _ _
          (λ a j.
            old _ a (k (refund_with p (some enforcer) draft.input (length draft.targets) s).1).1 (
              ap
                (λ x.
                  (x, (k (refund_with p (some enforcer) draft.input (length draft.targets) s).1).1))
                j))
          (λ told. rw e (h.moves _))

    refund-Leaves :
        (k : M Db Accepted)
        → Keeps quiet k
        → OnlyIf Old k
        → Leaves GivenBack (refund_quota p draft.input (length draft.targets) >> k)
    unfolding refund_quota
    refund-Leaves k h old = record { leaves = λ s. refund_then p.quota k s refl h old }

    module _
        (writes : (id : String) (manifests : List AttachmentManifest) (s : Sys Db) (a : Accepted)
            (t : Sys Db)
          → accept_body p draft id manifests s ≡ (ok a, t)
          → New.Rel s.db a t.db)
        (loads : OnlyIf Old (
          load_existing_request_result p draft.input.workspace_id draft.key draft.request_hash
            0)) where
      accepted_settles :
          (manifests : List AttachmentManifest) (a : Accepted) (d : Db) (t : Sys Db)
          → New.Rel d a t.db
          → Settled d
              (on_transaction p draft manifests (ok a) t).0
              (on_transaction p draft manifests (ok a) t).1.db
      unfolding return
      accepted_settles manifests a d t n = go (
          Silent-then' quiet (return a) t (
            Silent-if quiet (str_eq draft.key "") (Silent-return quiet)
              (cache_answer-Silent draft.input.workspace_id draft.key draft.request_hash a)))
        where
          go :
              ((u : Sys Db) × (on_transaction p draft manifests (ok a) t ≡ return a u)
                × quiet.Rel t.db u.db)
              → Settled d
                  (on_transaction p draft manifests (ok a) t).0
                  (on_transaction p draft manifests (ok a) t).1.db
          go (u, e, r) = rw e (inr (New.after d a t.db u.db r n))

      failed_settles :
          (manifests : List AttachmentManifest) (e : Error)
          → Leaves GivenBack (on_transaction p draft manifests (err e))
      failed_settles manifests e =
          Leaves-Silent quiet GivenBack GivenBack-follows (clean_up_attachments-Silent manifests) (
            refund-Leaves _
              (Keeps-if quiet (is_error e unique_violation)
                (load_existing_request_result-Keeps p _ _ _ _) (Keeps-throw quiet e))
              (if-OnlyIf Old (is_error e unique_violation) loads (throw-OnlyIf Old e)))

      commit_request-Leaves :
          (id : String) (manifests : List AttachmentManifest)
          → Leaves Settled (commit_request p draft id manifests)
      unfolding commit_request
      commit_request-Leaves id manifests =
          Leaves-answer Settled (within_tx p.env (accept_body p draft id manifests))
            (on_transaction p draft manifests)
            (λ s a t h. committed s a t (within_tx-eq-ok p.env _ s h))
            (λ s e t h. GivenBack-Settled s.db _ _ (
              GivenBack-after s.db t.db _ _
                (λ told. undone s t (within_tx_err p.env _ s told (ap (λ r. r.0) h)) h)
                ((failed_settles manifests e).leaves t)))
        where
          committed :
              (s : Sys Db) (a : Accepted) (t : Sys Db)
              → ((u : Sys Db) × (accept_body p draft id manifests (tick s) ≡ (ok a, u))
                  × (t.db ≡ u.db))
              → Settled s.db
                  (on_transaction p draft manifests (ok a) t).0
                  (on_transaction p draft manifests (ok a) t).1.db
          committed s a t (u, e, k) =
              accepted_settles manifests a s.db t
                (subst (λ x. New.Rel s.db a x) (sym k) (writes id manifests (tick s) a u e))

          undone :
              (s t : Sys Db) {e : Error}
              → (within_tx p.env (accept_body p draft id manifests) s).1.db ≡ s.db
              → within_tx p.env (accept_body p draft id manifests) s ≡ (err e, t)
              → quiet.Rel s.db t.db
          undone s t h k =
              let same = sym (ap (λ (r : Result Accepted × Sys Db). r.1.db) k) ∙ h in
              (ap tables same, ap (λ (d : Db). d.quota_calls) same)

      on_manifests-Leaves :
          (id : String) (r : Result (List AttachmentManifest))
          → Leaves Settled (on_manifests p draft id r)
      on_manifests-Leaves id (ok manifests) = commit_request-Leaves id manifests
      on_manifests-Leaves id (err e) =
          settled (refund-Leaves _ (Keeps-throw quiet e) (throw-OnlyIf Old e))

      on_request_id-Leaves : (r : Result String) → Leaves Settled (on_request_id p draft r)
      on_request_id-Leaves (err e) =
          settled (refund-Leaves _ (Keeps-throw quiet _) (throw-OnlyIf Old _))
      on_request_id-Leaves (ok id) = elim (Bool-cases p.has_storage) [
        | inl h ↦ simp h (
            Leaves-attempt quiet Settled Settled-follows (store_attachments-Keeps p _ id _)
              (on_manifests-Leaves id))
        | inr h ↦ simp h (commit_request-Leaves id [])
      ]

      with_attachments-Leaves :
          (l : List AttachmentStream) → Leaves Settled (with_attachments p draft l)
      with_attachments-Leaves [] = commit_request-Leaves "" []
      with_attachments-Leaves (a ∷ rest) =
          Leaves-attempt quiet Settled Settled-follows (Keeps-id_gen quiet p.env)
            on_request_id-Leaves

      pub after_quota-Leaves : Leaves Settled (after_quota p draft)
      unfolding after_quota
      after_quota-Leaves = with_attachments-Leaves draft.input.attachments
