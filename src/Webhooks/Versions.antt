-- ===== src/Webhooks/Versions.antt =====
-- Two changes of one webhook at once (config/update.go and config/rotate.go): each reads the
-- configuration, and writes it if the stored version is still the one that it read.
pub mod Written
use send_flow_backend.Prelude.{
  ℕ, suc, ◌-◌, String, ◌≡◌, ◌≢◌, refl, sym, ap, ◌∙◌, subst, Bool, true, false, ◌&&◌, List, [], ◌∷◌,
  Option, none, some, All, any, find?, modify_first, ◌⊎◌, Bool-cases, inl, inr, and_true, ◌==◌,
  arith,
}
use send_flow_backend.Prelude.Text.{str_eq, eq_iff}
use send_flow_backend.Prelude.Keys.{All-map_impl, Distinct, only_one}
use send_flow_backend.Effect.{
  Env, Error, sentinel, Result, ok, err, Sys, tick, M, and_then, ◌>>◌, return, lift, clock, call,
  answer, within_tx,
}
use send_flow_backend.Effect.Rules.{
  Preorder, Keeps, Keeps-return, Keeps-lift, Keeps-clock, Keeps-if, Keeps-bind, Keeps-call,
  Keeps-id_gen, within_tx_undoes,
}
use send_flow_backend.Effect.Outcomes.{
  bind-eq-ok, then-eq-ok, call_ran, within_tx-eq-ok, lift-eq-ok, return-eq-ok,
}
use send_flow_backend.Effect.Leaves.{Leaves, FollowsOn, AdmitsErrors, Leaves-bind, Leaves-then}
use send_flow_backend.Webhooks.Versions.Written.{Stale, Follows, Stale-hits_none, written-Stale}
use send_flow_backend.Events.{OutboxEvent}
use send_flow_backend.Webhooks.{WebhookConfig, rotate_conflict, validate_webhook_config}
use send_flow_backend.Webhooks.Store.{
  Db, is_config, is_version, set_config, written, update_config, save,
}
use send_flow_backend.Webhooks.Deliver.{WebhookPorts, WebhookPayload, Secret}
use send_flow_backend.Webhooks.Config.{
  UpdateCommand, edited, next_version, with_secret, announce_config, update_body, update_read,
  generate_secret, rotate_read,
}

abbrev same : Preorder Db
same = record { Rel = λ d e. e ≡ d; same = λ d. refl; both = λ a b c h k. k ∙ h }

abbrev same_configs : Preorder Db
same_configs = record {
  Rel = λ d e. e.configs ≡ d.configs;
  same = λ d. refl;
  both = λ a b c h k. k ∙ h;
}

-- The answer is an error, and nothing is stored.
abbrev pub Refused : {A : Type 0} → Db → Result A → Db → Type 0
Refused d (ok a) e = ⊥
Refused d (err x) e = e ≡ d

abbrev WhenStale : {A : Type 0} → WebhookConfig → Db → Result A → Db → Type 0
WhenStale c d r e = Stale c d.configs → Refused d r e

WhenStale-FollowsOn : {A : Type 0} (c : WebhookConfig) → FollowsOn same {B = A} (WhenStale c)
WhenStale-FollowsOn c a b d (ok x) h k u = k (rw h u)
WhenStale-FollowsOn c a b d (err x) h k u = k (rw h u) ∙ h

WhenStale-AdmitsErrors : (A : Type 0) (c : WebhookConfig) → AdmitsErrors same {B = A} (WhenStale c)
WhenStale-AdmitsErrors A c a b x h u = h

-- A call that is refused, and what would have come after it.
refused_then :
    {B : Type 0} (c : WebhookConfig) {m : M Db (Unit {0})} (k : M Db B)
    → Leaves (WhenStale c) m
    → Leaves (WhenStale c) (m >> k)
unfolding ◌>>◌
refused_then {B} c {m} k h = record { leaves = λ s u. go s.db (m s) (h.leaves s u) }
  where
    go :
        (d : Db) (r : Result (Unit {0}) × Sys Db)
        → Refused d r.0 r.1.db
        → Refused d (and_then r (λ _. k)).0 (and_then r (λ _. k)).1.db
    go d (ok a, t) h = absurd h
    go d (err x, t) h = h

within_tx_refused :
    {A : Type 0} (env : Env) (c : WebhookConfig) {m : M Db A}
    → Leaves (WhenStale c) m
    → Leaves (WhenStale c) (within_tx env m)
within_tx_refused {A} env c {m} h = record { leaves = λ s u. go s u (within_tx env m s) refl }
  where
    go :
        (s : Sys Db)
        → Stale c s.db.configs
        → (r : Result A × Sys Db) → within_tx env m s ≡ r
        → Refused s.db r.0 r.1.db
    go s u (ok a, t) e =
        let ran = within_tx-eq-ok env m s e in
        subst (λ (r : Result A × Sys Db). Refused s.db r.0 r.1.db) ran.1 (h.leaves (tick s) u)
    go s u (err x, t) e =
        sym (ap (λ (r : Result A × Sys Db). r.1.db) e) ∙ failed (m (tick s)).0 refl
      where
        failed : (r : Result A) → (m (tick s)).0 ≡ r → (within_tx env m s).1.db ≡ s.db
        failed (err y) q = within_tx_undoes env m s q
        failed (ok a) q =
            absurd
              (subst (λ (r : Result A). Refused s.db r (m (tick s)).1.db) q (h.leaves (tick s) u))

module _ (p : WebhookPorts) (c : WebhookConfig) where
  update_config_refused :
      (b : WebhookConfig)
      → Follows c b
      → Leaves (WhenStale c) (call p.env (update_config p.refuses_config b))
  unfolding call update_config
  update_config_refused b f = record {
    leaves = λ s u. go s u (p.env.fault s.calls) (p.refuses_config b s.db.configs);
  }
    where
      go :
          (s : Sys Db)
          → Stale c s.db.configs
          → (fault refusal : Option Error)
          → Refused s.db
              (answer fault (update_config p.refuses_config b) s).0
              (answer fault (update_config p.refuses_config b) s).1.db
      go s u (some e) _ = refl
      go s u none _ =
          rw (Stale-hits_none c b s.db.configs f u) (no_hit (p.refuses_config b s.db.configs))
        where
          no_hit :
              (refusal : Option Error)
              → Refused s.db
                  (written refusal false rotate_conflict s.db
                    (modify_first (is_version b) (set_config b) s.db.configs)).0
                  (written refusal false rotate_conflict s.db
                    (modify_first (is_version b) (set_config b) s.db.configs)).1
          no_hit (some e) = refl
          no_hit none = refl

  written_refused :
      {B : Type 0} (b : WebhookConfig) (event_type : String) (payload : WebhookPayload) (k : M Db B)
      → Follows c b
      → Leaves (WhenStale c) (within_tx p.env (update_body p b event_type payload) >> k)
  unfolding update_body
  written_refused b event_type payload k f =
      refused_then c k (within_tx_refused p.env c (refused_then c _ (update_config_refused b f)))

  update_read_refused : (cmd : UpdateCommand) → Leaves (WhenStale c) (update_read p cmd c)
  unfolding update_read
  update_read_refused cmd =
      Leaves-then same (WhenStale c) (WhenStale-FollowsOn c)
        (WhenStale-AdmitsErrors WebhookConfig c) (Keeps-lift same _)
        (Leaves-bind same (WhenStale c) (WhenStale-FollowsOn c)
          (WhenStale-AdmitsErrors WebhookConfig c) (Keeps-clock same p.env)
          (λ now. written_refused (next_version now (edited cmd c)) _ _ _ (refl, refl, refl)))

  generate_secret-Keeps : Keeps same (generate_secret p)
  unfolding generate_secret
  generate_secret-Keeps = record { moves = λ s. refl }

  rotate_read_refused : Leaves (WhenStale c) (rotate_read p c)
  unfolding rotate_read
  rotate_read_refused =
      Leaves-bind same (WhenStale c) (WhenStale-FollowsOn c)
        (WhenStale-AdmitsErrors (WebhookConfig × String) c) generate_secret-Keeps
        (λ secret.
          Leaves-bind same (WhenStale c) (WhenStale-FollowsOn c)
            (WhenStale-AdmitsErrors (WebhookConfig × String) c) (Keeps-clock same p.env)
            (λ now.
              written_refused (next_version now (with_secret secret c)) _ _ _ (refl, refl, refl)))

  -- What an update or a rotation that read the configuration has done, if it succeeded.
  abbrev pub Changed : Sys Db → Sys Db → Type 0
  Changed s t =
      ((cmd : UpdateCommand) × (a : WebhookConfig) × (update_read p cmd c s ≡ (ok a, t)))
      ⊎ ((a : WebhookConfig × String) × (rotate_read p c s ≡ (ok a, t)))

  written_ok :
      (refusal : Option Error) (hit : Bool) (missing : String) (d : Db) (rows : List WebhookConfig)
      {e : Db}
      → written refusal hit missing d rows ≡ (ok tt, e)
      → e.configs ≡ rows
  written_ok (some x) hit missing d rows h =
      absurd (no_error (ap (λ (r : Result (Unit {0}) × Db). r.0) h))
    where
      no_error : ◌≡◌ {A = Result (Unit {0})} (err x) (ok tt) → ⊥
      no_error k = cc
  written_ok none false missing d rows h =
      absurd (no_error (ap (λ (r : Result (Unit {0}) × Db). r.0) h))
    where
      no_error : ◌≡◌ {A = Result (Unit {0})} (err (sentinel missing)) (ok tt) → ⊥
      no_error k = cc
  written_ok none true missing d rows h = ap (λ (r : Result (Unit {0}) × Db). r.1.configs) (sym h)

  announce_config-Keeps :
      (id workspace_id event_type : String) (payload : WebhookPayload) (now : ℕ)
      → Keeps same_configs (announce_config p id workspace_id event_type payload now)
  unfolding announce_config save
  announce_config-Keeps id workspace_id event_type payload now =
      Keeps-if same_configs p.uses_outbox
        (Keeps-bind same_configs (Keeps-id_gen same_configs p.env) λ event_id.
          Keeps-bind same_configs (Keeps-lift same_configs (p.encode_payload payload))
            λ bytes. saved _)
        (Keeps-return same_configs tt)
    where
      saved : (e : OutboxEvent) → Keeps same_configs (call p.env (save e))
      saved e = Keeps-call same_configs p.env (save e) λ d. refl

  -- What an update or a rotation writes.
  update_body_wrote :
      (b : WebhookConfig) (event_type : String) (payload : WebhookPayload) (s t : Sys Db)
      → within_tx p.env (update_body p b event_type payload) s ≡ (ok tt, t)
      → t.db.configs ≡ modify_first (is_version b) (set_config b) s.db.configs
  unfolding update_body update_config
  update_body_wrote b event_type payload s t h =
      let (u, body, kept) = within_tx-eq-ok p.env (update_body p b event_type payload) s h in
      let (v, first, second) =
        then-eq-ok (call p.env (update_config p.refuses_config b)) _ (tick s) body in
      let announced : u.db.configs ≡ v.db.configs =
        subst (λ (r : Result (Unit {0}) × Sys Db). r.1.db.configs ≡ v.db.configs) second
          ((announce_config-Keeps b.id b.workspace_id event_type payload b.updated_at).moves v) in
      ap (λ (d : Db). d.configs) kept
      ∙ announced
      ∙ written_ok (p.refuses_config b s.db.configs) _ _ s.db _
          (call_ran p.env (update_config p.refuses_config b) (tick s) first)

  -- The last steps of an update or a rotation, from the tables that were read.
  ended :
      {A : Type 0} (b : WebhookConfig) (event_type : String) (payload : WebhookPayload) (x : A)
      (s v t : Sys Db) {a : A}
      → v.db ≡ s.db
      → (within_tx p.env (update_body p b event_type payload) >> return x) v ≡ (ok a, t)
      → t.db.configs ≡ modify_first (is_version b) (set_config b) s.db.configs
  ended b event_type payload x s v t k h =
      let (w, stored, answered) =
        then-eq-ok (within_tx p.env (update_body p b event_type payload)) (return x) v h in
      ap (λ (z : Sys Db). z.db.configs) (sym (return-eq-ok x w answered).1)
      ∙ update_body_wrote b event_type payload v w stored
      ∙ ap (λ (d : Db). modify_first (is_version b) (set_config b) d.configs) k

  Changed-configs :
      (s t : Sys Db)
      → Changed s t
      → (b : WebhookConfig) × Follows c b
        × (t.db.configs ≡ modify_first (is_version b) (set_config b) s.db.configs)
  unfolding update_read rotate_read generate_secret clock
  Changed-configs s t (inl (cmd, a, h)) =
      let (u, checked, rest) =
        then-eq-ok (lift (validate_webhook_config p.net (edited cmd c))) _ s h in
      let (now, v, timed, wrote) = bind-eq-ok (clock p.env) _ u rest in
      (
        next_version now (edited cmd c),
        (refl, refl, refl),
        ended _ _ _ _ s v t
            (ap (λ (r : Result ℕ × Sys Db). r.1.db) (sym timed) ∙ lift-eq-ok _ s checked) wrote,
      )
  Changed-configs s t (inr (a, h)) =
      let (secret, u, made, rest) = bind-eq-ok (generate_secret p) _ s h in
      let (now, v, timed, wrote) = bind-eq-ok (clock p.env) _ u rest in
      (
        next_version now (with_secret secret c),
        (refl, refl, refl),
        ended _ _ _ _ s v t
            (ap (λ (r : Result ℕ × Sys Db). r.1.db) (sym timed)
              ∙ ap (λ (r : Result Secret × Sys Db). r.1.db) (sym made))
            wrote,
      )

  -- If no two stored configurations have one id, and two requests have read one configuration, be
  -- each an update or a rotation: once one of them has succeeded, the other ends in an error and
  -- stores nothing.
  pub first_change_wins :
      (s t : Sys Db)
      → Distinct (λ (x : WebhookConfig). x.id) s.db.configs
      → find? (is_config c.workspace_id c.id) s.db.configs ≡ some c
      → Changed s t
      → ((cmd : UpdateCommand)
          → Refused t.db (update_read p cmd c t).0 (update_read p cmd c t).1.db)
        × Refused t.db (rotate_read p c t).0 (rotate_read p c t).1.db
  first_change_wins s t d h k =
      let (b, f, e) = Changed-configs s t k in
      let stale : Stale c t.db.configs = subst (Stale c) (sym e) (
        written-Stale c b s.db.configs f d (
          only_one (λ (x : WebhookConfig). x.id) (is_config c.workspace_id c.id) s.db.configs d
            h)) in
      (λ cmd. (update_read_refused cmd).leaves t stale, rotate_read_refused.leaves t stale)
