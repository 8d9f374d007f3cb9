-- ===== src/Effect/Outcomes.antt =====
-- How a chain of calls came to its answer.
use send_flow_backend.Prelude.{
  ℕ, String, ◌≡◌, refl, sym, ap, Bool, true, false, ◌⊎◌, inl, inr, Option, none, some,
}
use send_flow_backend.Effect.{
  commit, begin_tx, end_tx, within_tx, within_tx_leaving, all_undone, Error, Result, ok, err, Env,
  Sys, M, and_then, id_gen, lift, ◌>>=◌, ◌>>◌, return, tick, finish_call, call, answer, end_tx,
  within_tx,
}
use send_flow_backend.Effect.Rules.{err_answer, ok_answer}

module _ {Db A B : Type 0} where
  -- An error of a chain is the first call's, or the rest's.
  abbrev pub BindErr : M Db A → (A → M Db B) → Sys Db → Error → Type 0
  BindErr m f s e =
      (((m s).0 ≡ err e) × (((m >>= f) s).1 ≡ (m s).1))
      ⊎ ((a : A) × (t : Sys Db) × (m s ≡ (ok a, t)) × ((m >>= f) s ≡ f a t) × ((f a t).0 ≡ err e))

  pub bind-eq-err :
      (m : M Db A) (f : A → M Db B) (s : Sys Db) {e : Error}
      → ((m >>= f) s).0 ≡ err e
      → BindErr m f s e
  unfolding ◌>>=◌
  bind-eq-err m f s {e} = go (m s) refl
    where
      go :
          (r : Result A × Sys Db)
          → m s ≡ r
          → (and_then r f).0 ≡ err e
          → (((r).0 ≡ err e) × ((and_then r f).1 ≡ r.1))
            ⊎ ((a : A) × (t : Sys Db) × (r ≡ (ok a, t))
                × (and_then r f ≡ f a t)
                × ((f a t).0 ≡ err e))
      go (ok a, t) q h = inr (a, t, refl, refl, h)
      go (err x, t) q h = inl (err_inj h, refl)
        where
          err_inj : ◌≡◌ {A = Result B} (err x) (err e) → ◌≡◌ {A = Result A} (err x) (err e)
          err_inj z = cc

  -- A chain that ends by returning a value of the first call's answer fails only if that call does.
  pub bind-return-eq-err :
      (m : M Db A) (g : A → B) (s : Sys Db) {e : Error}
      → ((m >>= λ a. return (g a)) s).0 ≡ err e
      → ((m s).0 ≡ err e) × (((m >>= λ a. return (g a)) s).1 ≡ (m s).1)
  unfolding return
  bind-return-eq-err m g s h = elim (bind-eq-err m (λ a. return (g a)) s h) [
    | inl c ↦ c
    | inr (a, t, q, r, k) ↦ cc
  ]

module _ {Db A B : Type 0} where
  -- A chain that succeeds is a first call that does, and the rest after it.
  pub bind-eq-ok :
      (m : M Db A) (f : A → M Db B) (s : Sys Db) {b : B} {t : Sys Db}
      → (m >>= f) s ≡ (ok b, t)
      → (a : A) × (u : Sys Db) × (m s ≡ (ok a, u)) × (f a u ≡ (ok b, t))
  unfolding ◌>>=◌
  bind-eq-ok m f s {b} {t} = go (m s)
    where
      go :
          (r : Result A × Sys Db)
          → and_then r f ≡ (ok b, t)
          → (a : A) × (u : Sys Db) × (r ≡ (ok a, u)) × (f a u ≡ (ok b, t))
      go (ok a, u) h = (a, u, refl, h)
      go (err x, u) h = absurd (err_answer h)

module _ {Db B : Type 0} where
  pub then-eq-ok :
      (m : M Db (Unit {0})) (k : M Db B) (s : Sys Db) {b : B} {t : Sys Db}
      → (m >> k) s ≡ (ok b, t)
      → (u : Sys Db) × (m s ≡ (ok tt, u)) × (k u ≡ (ok b, t))
  unfolding ◌>>◌
  then-eq-ok m k s {b} {t} = go (m s)
    where
      go :
          (r : Result (Unit {0}) × Sys Db)
          → and_then r (λ _. k) ≡ (ok b, t)
          → (u : Sys Db) × (r ≡ (ok tt, u)) × (k u ≡ (ok b, t))
      go (ok a, u) h = (u, refl, h)
      go (err x, u) h = absurd (err_answer h)

pub call-eq-ok :
    {Db A : Type 0} (env : Env) (op : Db → Result A × Db) (s : Sys Db) {a : A} {t : Sys Db}
    → call env op s ≡ (ok a, t)
    → t.db ≡ (op s.db).1
unfolding call
call-eq-ok {Db} {A} env op s {a} {t} = go (env.fault s.calls)
  where
    go : (fault : Option Error) → answer fault op s ≡ (ok a, t) → t.db ≡ (op s.db).1
    go none h = ap (λ (r : Result A × Sys Db). r.1.db) (sym h)
    go (some e) h = absurd (err_answer h)

pub id_gen-eq-ok :
    {Db : Type 0} (env : Env) (s : Sys Db) {a : String} {t : Sys Db}
    → id_gen env s ≡ (ok a, t)
    → t.db ≡ s.db
unfolding id_gen
id_gen-eq-ok {Db} env s h = ap (λ (r : Result String × Sys Db). r.1.db) (sym h)

pub lift-eq-ok :
    {Db A : Type 0} (r : Result A) (s : Sys Db) {a : A} {t : Sys Db}
    → lift r s ≡ (ok a, t)
    → t.db ≡ s.db
unfolding lift
lift-eq-ok {Db} {A} r s h = ap (λ (x : Result A × Sys Db). x.1.db) (sym h)

pub return-eq-ok :
    {Db A : Type 0} (a : A) (s : Sys Db) {b : A} {t : Sys Db}
    → return a s ≡ (ok b, t)
    → (a ≡ b) × (s ≡ t)
unfolding return
return-eq-ok a s h = ok_answer h

-- No call fails.
abbrev pub NoFaults : Env → Type 0
NoFaults env = (n : ℕ) → env.fault n ≡ none

pub calm_call :
    {Db A : Type 0} (env : Env)
    → NoFaults env
    → (op : Db → Result A × Db) (s : Sys Db) → call env op s ≡ finish_call s (op s.db)
unfolding call
calm_call env calm op s = rw (calm s.calls)

-- Where no call fails, a transaction whose body succeeds keeps what the body wrote.
pub calm_within_tx_leaving :
    {Db A : Type 0} (left : Db → Db → Db) (env : Env)
    → NoFaults env
    → (body : M Db A) (s : Sys Db) {a : A} {t : Sys Db} → body (tick s) ≡ (ok a, t)
    → within_tx_leaving left env body s ≡ (ok a, tick t)
unfolding within_tx_leaving
calm_within_tx_leaving left env calm body s {t} h = rw (calm s.calls, h, end_tx, calm t.calls)

-- A transaction that succeeds has kept what its body wrote.
pub within_tx-eq-ok :
    {Db A : Type 0} (env : Env) (body : M Db A) (s : Sys Db) {a : A} {t : Sys Db}
    → within_tx env body s ≡ (ok a, t)
    → (u : Sys Db) × (body (tick s) ≡ (ok a, u)) × (t.db ≡ u.db)
unfolding within_tx within_tx_leaving
within_tx-eq-ok {Db} {A} env body s {a} {t} = begun (env.fault s.calls)
  where
    committed :
        (fault : Option Error) (kept : Bool) (b : A) (v : Sys Db)
        → commit fault kept (all_undone s.db) b v ≡ (ok a, t)
        → (u : Sys Db) × (◌≡◌ {A = Result A × Sys Db} (ok b, v) (ok a, u)) × (t.db ≡ u.db)
    committed (some e) true b v h = absurd (err_answer h)
    committed (some e) false b v h = absurd (err_answer h)
    committed none kept b v h = (
      v,
      ap (λ (r : Result A × Sys Db). (r.0, v)) h,
      ap (λ (r : Result A × Sys Db). r.1.db) (sym h),
    )

    ended :
        (r : Result A × Sys Db)
        → end_tx env (all_undone s.db) r ≡ (ok a, t)
        → (u : Sys Db) × (r ≡ (ok a, u)) × (t.db ≡ u.db)
    ended (ok b, v) h = committed (env.fault v.calls) (env.kept v.calls) b v h
    ended (err e, v) h = absurd (err_answer h)

    begun :
        (fault : Option Error)
        → begin_tx fault env (all_undone s.db) body s ≡ (ok a, t)
        → (u : Sys Db) × (body (tick s) ≡ (ok a, u)) × (t.db ≡ u.db)
    begun (some e) h = absurd (err_answer h)
    begun none h = ended (body (tick s)) h

-- A call that succeeds is its operation, run on the database that it met.
pub call_ran :
    {Db A : Type 0} (env : Env) (op : Db → Result A × Db) (s : Sys Db) {a : A} {t : Sys Db}
    → call env op s ≡ (ok a, t)
    → op s.db ≡ (ok a, t.db)
unfolding call
call_ran {Db} {A} env op s {a} {t} = go (env.fault s.calls)
  where
    go : (fault : Option Error) → answer fault op s ≡ (ok a, t) → op s.db ≡ (ok a, t.db)
    go none h = ap (λ (r : Result A × Sys Db). (r.0, r.1.db)) h
    go (some e) h = absurd (err_answer h)
