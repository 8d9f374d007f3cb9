-- ===== src/Webhooks/Versions/Written.antt =====
-- The versions of a webhook's stored configuration, and the write of a configuration that follows on
-- one that was read (`Update` of infrastructure/postgres/repository.go).
use send_flow_backend.Prelude.{
  ℕ, suc, ◌-◌, ◌≡◌, ◌≢◌, sym, ap, ◌∙◌, true, false, ◌&&◌, List, [], ◌∷◌, All, any, modify_first,
  Bool-cases, inl, inr, and_true, ◌==◌, arith, refl,
}
use send_flow_backend.Prelude.Text.{str_eq, eq_iff}
use send_flow_backend.Prelude.Keys.{All-map_impl, Distinct}
use send_flow_backend.Webhooks.{WebhookConfig}
use send_flow_backend.Webhooks.Store.{is_config, is_version, set_config}

-- No stored row of the configuration has the version that was read.
abbrev pub Stale : WebhookConfig → List WebhookConfig → Type 0
Stale c rows = All (λ row. is_config c.workspace_id c.id row ≡ true → row.version ≢ c.version) rows

version_test : (v w : ℕ) → (v == suc w - 1) ≡ true → v ≡ w
version_test v w h = ground arith

version_test_refl : (w : ℕ) → (w == suc w - 1) ≡ true
version_test_refl w = ground arith

-- The write of a version that follows on `c`'s.
abbrev pub Follows : WebhookConfig → WebhookConfig → Type 0
Follows c b = (b.id ≡ c.id) × (b.workspace_id ≡ c.workspace_id) × (b.version ≡ suc c.version)

pub Stale-hits_none :
    (c b : WebhookConfig) (rows : List WebhookConfig)
    → Follows c b
    → Stale c rows
    → any (is_version b) rows ≡ false
Stale-hits_none c b [] f u = refl
Stale-hits_none c b (row ∷ rows) f (u, us) = elim (Bool-cases (is_version b row)) [
  | inl e ↦ absurd (u (is_it f e) (is_read f e))
  | inr e ↦ rw e (Stale-hits_none c b rows f us)
]
  where
    is_it : Follows c b → is_version b row ≡ true → is_config c.workspace_id c.id row ≡ true
    is_it (i, w, v) e =
        ap (λ x. str_eq row.id x && str_eq row.workspace_id c.workspace_id) (sym i)
        ∙ ap (λ x. str_eq row.id b.id && str_eq row.workspace_id x) (sym w)
        ∙ (and_true e).0

    is_read : Follows c b → is_version b row ≡ true → row.version ≡ c.version
    is_read (i, w, v) e =
        version_test row.version c.version (ap (λ x. row.version == x - 1) (sym v) ∙ (and_true e).1)

-- After the write of the next version no row has the version that was read.
pub written-Stale :
    (c b : WebhookConfig) (rows : List WebhookConfig)
    → Follows c b
    → Distinct (λ (x : WebhookConfig). x.id) rows
    → All (λ x. x.id ≡ c.id → x ≡ c) rows
    → Stale c (modify_first (is_version b) (set_config b) rows)
written-Stale c b [] f d u = tt
written-Stale c b (row ∷ rows) f (d, ds) (u, us) = elim (Bool-cases (is_version b row)) [
  | inl e ↦ rw e (
    λ k q. grown f.2 q,
    All-map_impl (λ y. y.id ≢ row.id)
        (λ y. is_config c.workspace_id c.id y ≡ true → y.version ≢ c.version)
        (λ y n k q. n ((eq_iff y.id c.id).0 (and_true k).0 ∙ sym (named f e))) rows d,
  )
  | inr e ↦ rw e (λ k q. missed f k e, written-Stale c b rows f ds us)
]
  where
    grown : b.version ≡ suc c.version → b.version ≡ c.version → ⊥
    grown v q = omega arith

    named : Follows c b → is_version b row ≡ true → row.id ≡ c.id
    named (i, w, v) e = (eq_iff row.id b.id).0 (and_true (and_true e).0).0 ∙ i

    hits :
        Follows c b → row ≡ c → is_config c.workspace_id c.id row ≡ true → is_version b row ≡ true
    hits (i, w, v) q k =
        rw (i, w, v, k, ap (λ (x : WebhookConfig). x.version) q, version_test_refl c.version) refl

    missed : Follows c b → is_config c.workspace_id c.id row ≡ true → is_version b row ≡ false → ⊥
    missed f k e = clash (sym e ∙ hits f (u ((eq_iff row.id c.id).0 (and_true k).0)) k)
      where
        clash : false ≡ true → ⊥
        clash h = cc
