-- ===== src/Effect/Rules.antt =====
-- What a chain of calls does to the database, from what each call does.
use send_flow_backend.Prelude.{
  ℕ, ◌≡◌, refl, ap, ◌⊎◌, inl, inr, Bool, true, false, Option, none, some, if◌then◌else◌,
}
use send_flow_backend.Effect.{
  Error, Result, ok, err, Env, Sys, tick, M, and_then, ◌>>=◌, ◌>>◌, return, throw, lift, attempt,
  ignore_error, answer, call, id_gen, clock, commit, end_tx, begin_tx, within_tx, within_tx_leaving,
  all_undone,
}

-- What an equation between two answers says.
pub ok_answer :
    {Db A : Type 0} {a b : A} {s t : Sys Db}
    → ◌≡◌ {A = Result A × Sys Db} (ok a, s) (ok b, t)
    → (a ≡ b) × (s ≡ t)
ok_answer {a} {b} h = (ok_inj (ap (λ r. r.0) h), ap (λ r. r.1) h)
  where
    ok_inj : ok a ≡ ok b → a ≡ b
    ok_inj e = cc

pub err_answer :
    {Db A : Type 0} {e : Error} {b : A} {s t : Sys Db}
    → ◌≡◌ {A = Result A × Sys Db} (err e, s) (ok b, t)
    → ⊥
err_answer {e} {b} h = clash (ap (λ r. r.0) h)
  where
    clash : err e ≡ ok b → ⊥
    clash x = cc

-- A relation between the databases before and after, which steps compose.
pub record Preorder (Db : Type 0) : Type 1 where
  pub Rel : Db → Db → Type 0
  pub same : (d : Db) → Rel d d
  pub both : (a b c : Db) → Rel a b → Rel b c → Rel a c

module _ {Db : Type 0} (R : Preorder Db) where
  -- Whatever the calls answer, the database moves along the relation.
  pub record Keeps {A : Type 0} (m : M Db A) : Type 0 where
    pub moves : (s : Sys Db) → R.Rel s.db (m s).1.db

  pub Keeps-return : {A : Type 0} (a : A) → Keeps {A = A} (return a)
  unfolding return
  Keeps-return a = record { moves = λ s. R.same s.db }

  pub Keeps-throw : {A : Type 0} (e : Error) → Keeps {A = A} (throw e)
  unfolding throw
  Keeps-throw e = record { moves = λ s. R.same s.db }

  pub Keeps-lift : {A : Type 0} (r : Result A) → Keeps {A = A} (lift r)
  unfolding lift
  Keeps-lift r = record { moves = λ s. R.same s.db }

  pub Keeps-if :
      {A : Type 0} (b : Bool) {m n : M Db A} → Keeps m → Keeps n → Keeps (if b then m else n)
  Keeps-if true h k = h
  Keeps-if false h k = k

  and_then_moves :
      {A B : Type 0} (d : Db) (r : Result A × Sys Db) (f : A → M Db B)
      → R.Rel d r.1.db
      → ((a : A) → Keeps (f a))
      → R.Rel d (and_then r f).1.db
  and_then_moves d (ok a, s) f h k = R.both d s.db (f a s).1.db h ((k a).moves s)
  and_then_moves d (err e, s) f h k = h

  pub Keeps-bind :
      {A B : Type 0} {m : M Db A} {f : A → M Db B}
      → Keeps m
      → ((a : A) → Keeps (f a))
      → Keeps (m >>= f)
  unfolding ◌>>=◌
  Keeps-bind {m} {f} h k = record { moves = λ s. and_then_moves s.db (m s) f (h.moves s) k }

  -- The rest of the chain runs after an answer of the first call, and may use that it was given.
  pub bind_moves :
      {A B : Type 0} (m : M Db A) (f : A → M Db B) (s : Sys Db)
      → R.Rel s.db (m s).1.db
      → ((a : A) (t : Sys Db) → m s ≡ (ok a, t) → R.Rel t.db (f a t).1.db)
      → R.Rel s.db ((m >>= f) s).1.db
  unfolding ◌>>=◌
  bind_moves {A} m f s = go (m s) refl
    where
      go :
          (r : Result A × Sys Db)
          → m s ≡ r
          → R.Rel s.db r.1.db
          → ((a : A) (t : Sys Db) → m s ≡ (ok a, t) → R.Rel t.db (f a t).1.db)
          → R.Rel s.db (and_then r f).1.db
      go (ok a, t) e h k = R.both s.db t.db (f a t).1.db h (k a t e)
      go (err x, t) e h k = h

  pub then_moves :
      {B : Type 0} (m : M Db (Unit {0})) (k : M Db B) (s : Sys Db)
      → R.Rel s.db (m s).1.db
      → Keeps k
      → R.Rel s.db ((m >> k) s).1.db
  unfolding ◌>>◌
  then_moves m k s h h' = and_then_moves s.db (m s) (λ _. k) h (λ _. h')

  pub Keeps-then :
      {B : Type 0} {m : M Db (Unit {0})} {k : M Db B} → Keeps m → Keeps k → Keeps (m >> k)
  unfolding ◌>>◌
  Keeps-then {m} {k} h h' = record {
    moves = λ s. and_then_moves s.db (m s) (λ _. k) (h.moves s) (λ _. h');
  }

  pub Keeps-attempt : {A : Type 0} {m : M Db A} → Keeps m → Keeps (attempt m)
  unfolding attempt
  Keeps-attempt h = record { moves = λ s. h.moves s }

  pub Keeps-ignore_error : {A : Type 0} {m : M Db A} → Keeps m → Keeps (ignore_error m)
  unfolding ignore_error
  Keeps-ignore_error h = record { moves = λ s. h.moves s }

  answer_moves :
      {A : Type 0} (fault : Option Error) (op : Db → Result A × Db) (s : Sys Db)
      → R.Rel s.db (op s.db).1
      → R.Rel s.db (answer fault op s).1.db
  answer_moves (some e) op s h = R.same s.db
  answer_moves none op s h = h

  -- A call moves the database as its operation does, at the database that it meets.
  pub call_moves :
      {A : Type 0} (env : Env) (op : Db → Result A × Db) (s : Sys Db)
      → R.Rel s.db (op s.db).1
      → R.Rel s.db (call env op s).1.db
  unfolding call
  call_moves env op s h = answer_moves (env.fault s.calls) op s h

  pub Keeps-call :
      {A : Type 0} (env : Env) (op : Db → Result A × Db)
      → ((d : Db) → R.Rel d (op d).1)
      → Keeps (call env op)
  unfolding call
  Keeps-call env op h = record { moves = λ s. answer_moves (env.fault s.calls) op s (h s.db) }

  pub Keeps-id_gen : (env : Env) → Keeps (id_gen env)
  unfolding id_gen
  Keeps-id_gen env = record { moves = λ s. R.same s.db }

  pub Keeps-clock : (env : Env) → Keeps (clock env)
  unfolding clock
  Keeps-clock env = record { moves = λ s. R.same s.db }

  commit_moves :
      {A : Type 0} (fault : Option Error) (kept : Bool) (d : Db) (left : Db → Db) (a : A)
      (s : Sys Db)
      → R.Rel d s.db
      → R.Rel d (left s.db)
      → R.Rel d (commit fault kept left a s).1.db
  commit_moves (some e) true d left a s h k = h
  commit_moves (some e) false d left a s h k = k
  commit_moves none kept d left a s h k = h

  end_tx_moves :
      {A : Type 0} (env : Env) (d : Db) (left : Db → Db) (r : Result A × Sys Db)
      → R.Rel d r.1.db
      → R.Rel d (left r.1.db)
      → R.Rel d (end_tx env left r).1.db
  end_tx_moves env d left (err e, s) h k = k
  end_tx_moves env d left (ok a, s) h k =
      commit_moves (env.fault s.calls) (env.kept s.calls) d left a s h k

  begin_tx_moves :
      {A : Type 0} (fault : Option Error) (env : Env) (left : Db → Db) (m : M Db A) (s : Sys Db)
      → R.Rel s.db (m (tick s)).1.db
      → R.Rel s.db (left (m (tick s)).1.db)
      → R.Rel s.db (begin_tx fault env left m s).1.db
  begin_tx_moves (some e) env left m s h k = R.same s.db
  begin_tx_moves none env left m s h k = end_tx_moves env s.db left (m (tick s)) h k

  pub Keeps-within_tx_leaving :
      {A : Type 0} {m : M Db A} (left : Db → Db → Db) (env : Env)
      → ((d e : Db) → R.Rel d e → R.Rel d (left d e))
      → Keeps m
      → Keeps (within_tx_leaving left env m)
  unfolding within_tx_leaving
  Keeps-within_tx_leaving {m} left env k h = record {
    moves = λ s.
        begin_tx_moves (env.fault s.calls) env (left s.db) m s (h.moves (tick s))
          (k s.db _ (h.moves (tick s)));
  }

  pub Keeps-within_tx : {A : Type 0} {m : M Db A} (env : Env) → Keeps m → Keeps (within_tx env m)
  unfolding within_tx
  Keeps-within_tx {m} env h = Keeps-within_tx_leaving all_undone env (λ d e _. R.same d) h

-- A commit that answers an error has not been done.
abbrev pub CommitsTold : Env → Type 0
CommitsTold env = (n : ℕ) → env.kept n ≡ false

module _ {Db A : Type 0} (env : Env) (left : Db → Db → Db) (m : M Db A) (s : Sys Db) where
  left_by_end :
      (told : CommitsTold env) (r : Result A × Sys Db) {e : Error}
      → (end_tx env (left s.db) r).0 ≡ err e
      → (end_tx env (left s.db) r).1.db ≡ left s.db r.1.db
  left_by_end told (err x, t) h = refl
  left_by_end told (ok a, t) h = go (env.fault t.calls) (env.kept t.calls) (told t.calls) h
    where
      go :
          (fault : Option Error) (kept : Bool) {e : Error}
          → kept ≡ false
          → (commit fault kept (left s.db) a t).0 ≡ err e
          → (commit fault kept (left s.db) a t).1.db ≡ left s.db t.db
      go (some x) true k q = cc
      go (some x) false k q = refl
      go none kept k q = cc

  -- A transaction that returns an error leaves what a rollback leaves: of a database that the body
  -- made, or of nothing if it did not begin.
  pub within_tx_leaving_err :
      {e : Error}
      → CommitsTold env
      → (within_tx_leaving left env m s).0 ≡ err e
      → ((within_tx_leaving left env m s).1.db ≡ s.db)
        ⊎ ((within_tx_leaving left env m s).1.db ≡ left s.db (m (tick s)).1.db)
  unfolding within_tx_leaving
  within_tx_leaving_err told h = go (env.fault s.calls) h
    where
      go :
          (fault : Option Error) {e : Error}
          → (begin_tx fault env (left s.db) m s).0 ≡ err e
          → ((begin_tx fault env (left s.db) m s).1.db ≡ s.db)
            ⊎ ((begin_tx fault env (left s.db) m s).1.db ≡ left s.db (m (tick s)).1.db)
      go (some x) q = inl refl
      go none q = inr (left_by_end told (m (tick s)) q)

module _ {Db A : Type 0} (env : Env) (m : M Db A) (s : Sys Db) where
  -- Where a commit that fails has not been done, a transaction that returns an error has written
  -- nothing.
  pub within_tx_err :
      {e : Error}
      → CommitsTold env
      → (within_tx env m s).0 ≡ err e
      → (within_tx env m s).1.db ≡ s.db
  unfolding within_tx
  within_tx_err told h = elim (within_tx_leaving_err env all_undone m s told h) [
    | inl e ↦ e
    | inr e ↦ e
  ]

  -- A transaction whose body returns an error has written nothing, and returns an error.
  pub within_tx_undoes : {e : Error} → (m (tick s)).0 ≡ err e → (within_tx env m s).1.db ≡ s.db
  unfolding within_tx within_tx_leaving
  within_tx_undoes {e} h = go (env.fault s.calls)
    where
      ended : (r : Result A × Sys Db) → r.0 ≡ err e → (end_tx env (all_undone s.db) r).1.db ≡ s.db
      ended (err x, t) q = refl
      ended (ok a, t) q = cc

      go : (fault : Option Error) → (begin_tx fault env (all_undone s.db) m s).1.db ≡ s.db
      go (some x) = refl
      go none = ended (m (tick s)) h

  -- A transaction has left the database as it was, or as its body, which succeeded, left it.
  pub within_tx_either :
      (P : Db → Type 0)
      → P s.db
      → ((a : A) (t : Sys Db) → m (tick s) ≡ (ok a, t) → P t.db)
      → P (within_tx env m s).1.db
  unfolding within_tx within_tx_leaving
  within_tx_either P kept written = begun (env.fault s.calls)
    where
      committed :
          (fault : Option Error) (kept : Bool) (a : A) (t : Sys Db)
          → P t.db
          → P (commit fault kept (all_undone s.db) a t).1.db
      committed (some x) true a t h = h
      committed (some x) false a t h = kept
      committed none k a t h = h

      ended : (r : Result A × Sys Db) → m (tick s) ≡ r → P (end_tx env (all_undone s.db) r).1.db
      ended (err x, t) q = kept
      ended (ok a, t) q = committed (env.fault t.calls) (env.kept t.calls) a t (written a t q)

      begun : (fault : Option Error) → P (begin_tx fault env (all_undone s.db) m s).1.db
      begun (some x) = kept
      begun none = ended (m (tick s)) refl
