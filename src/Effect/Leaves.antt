-- ===== src/Effect/Leaves.antt =====
-- What a chain of calls leaves behind, told with its answer.
use send_flow_backend.Prelude.{◌≡◌, refl, ap, subst, ◌∙◌, Bool, true, false, if◌then◌else◌}
use send_flow_backend.Effect.{
  Error, Result, ok, err, Sys, M, and_then, ◌>>=◌, ◌>>◌, return, throw, lift, attempt, ignore_error,
}
use send_flow_backend.Effect.Rules.{Preorder, Keeps}

module _ {Db : Type 0} where
  -- The database before, the answer and the database after are so related, whatever the calls answer.
  pub record Leaves {A : Type 0} (Post : Db → Result A → Db → Type 0) (m : M Db A) : Type 0 where
    pub leaves : (s : Sys Db) → Post s.db (m s).0 (m s).1.db

  module _ (R : Preorder Db) {B : Type 0} (Post : Db → Result B → Db → Type 0) where
    -- Steps along the relation may come first.
    abbrev pub FollowsOn : Type 0
    FollowsOn = (a b c : Db) (r : Result B) → R.Rel a b → Post b r c → Post a r c

    -- An error after steps along the relation is fine.
    abbrev pub AdmitsErrors : Type 0
    AdmitsErrors = (a b : Db) (x : Error) → R.Rel a b → Post a (err x) b

    module _ (follows : FollowsOn) where
      pub Leaves-attempt :
          {A : Type 0} {m : M Db A} {k : Result A → M Db B}
          → Keeps R m
          → ((r : Result A) → Leaves Post (k r))
          → Leaves Post (attempt m >>= k)
      unfolding ◌>>=◌
      Leaves-attempt {m} {k} h l = record {
        leaves = λ s. follows s.db (m s).1.db _ _ (h.moves s) ((l (m s).0).leaves (m s).1);
      }

      module _ (errors : AdmitsErrors) where
        and_then_leaves :
            {A : Type 0} (d : Db) (r : Result A × Sys Db) (f : A → M Db B)
            → R.Rel d r.1.db
            → ((a : A) → Leaves Post (f a))
            → Post d (and_then r f).0 (and_then r f).1.db
        and_then_leaves d (ok a, s) f h l = follows d s.db _ _ h ((l a).leaves s)
        and_then_leaves d (err e, s) f h l = errors d s.db e h

        -- What follows may use that its argument was an answer.
        pub Leaves-bind_answer :
            {A : Type 0} {m : M Db A} {f : A → M Db B}
            → Keeps R m
            → ((s : Sys Db) (a : A) (t : Sys Db) → m s ≡ (ok a, t) → Leaves Post (f a))
            → Leaves Post (m >>= f)
        unfolding ◌>>=◌
        Leaves-bind_answer {A} {m} {f} h l = record { leaves = λ s. go s (m s) refl }
          where
            go :
                (s : Sys Db) (r : Result A × Sys Db)
                → m s ≡ r
                → Post s.db (and_then r f).0 (and_then r f).1.db
            go s (ok a, t) e =
                follows s.db t.db _ _
                  (subst (λ (x : Result A × Sys Db). R.Rel s.db x.1.db) e (h.moves s))
                  ((l s a t e).leaves t)
            go s (err x, t) e =
                errors s.db t.db x
                  (subst (λ (x : Result A × Sys Db). R.Rel s.db x.1.db) e (h.moves s))

        pub Leaves-bind :
            {A : Type 0} {m : M Db A} {f : A → M Db B}
            → Keeps R m
            → ((a : A) → Leaves Post (f a))
            → Leaves Post (m >>= f)
        unfolding ◌>>=◌
        Leaves-bind {m} {f} h l = record {
          leaves = λ s. and_then_leaves s.db (m s) f (h.moves s) l;
        }

        pub Leaves-then :
            {m : M Db (Unit {0})} {k : M Db B} → Keeps R m → Leaves Post k → Leaves Post (m >> k)
        unfolding ◌>>◌
        Leaves-then {m} {k} h l = record {
          leaves = λ s. and_then_leaves s.db (m s) (λ _. k) (h.moves s) (λ _. l);
        }

        -- A computed result; what follows may use what it was.
        pub Leaves-lift :
            {A : Type 0} {f : A → M Db B} (r : Result A)
            → ((a : A) → r ≡ ok a → Leaves Post (f a))
            → Leaves Post (lift r >>= f)
        unfolding ◌>>=◌
        Leaves-lift (ok a) l = l a refl
        Leaves-lift (err e) l = record { leaves = λ s. errors s.db s.db e (R.same s.db) }

        pub Leaves-throw : (e : Error) → Leaves Post (throw e)
        unfolding throw
        Leaves-throw e = record { leaves = λ s. errors s.db s.db e (R.same s.db) }

  pub Leaves-if :
      {B : Type 0} (Post : Db → Result B → Db → Type 0) (b : Bool) {m n : M Db B}
      → Leaves Post m
      → Leaves Post n
      → Leaves Post (if b then m else n)
  Leaves-if Post true h k = h
  Leaves-if Post false h k = k

  -- A call whose answer is looked at, by what it answers.
  pub Leaves-answer :
      {A B : Type 0} (Post : Db → Result B → Db → Type 0) (m : M Db A) (k : Result A → M Db B)
      → ((s : Sys Db) (a : A) (t : Sys Db)
          → m s ≡ (ok a, t)
          → Post s.db (k (ok a) t).0 (k (ok a) t).1.db)
      → ((s : Sys Db) (e : Error) (t : Sys Db)
          → m s ≡ (err e, t)
          → Post s.db (k (err e) t).0 (k (err e) t).1.db)
      → Leaves Post (attempt m >>= k)
  unfolding ◌>>=◌
  Leaves-answer {A} {B} Post m k on_ok on_err = record { leaves = λ s. go s (m s) refl }
    where
      go : (s : Sys Db) (r : Result A × Sys Db) → m s ≡ r → Post s.db (k r.0 r.1).0 (k r.0 r.1).1.db
      go s (ok a, t) h = on_ok s a t h
      go s (err e, t) h = on_err s e t h

  module _ (R : Preorder Db) where
    -- A step that cannot fail moves along the relation.
    abbrev pub Silent : M Db (Unit {0}) → Type 0
    Silent m = (s : Sys Db) → (u : Sys Db) × (m s ≡ (ok tt, u)) × R.Rel s.db u.db

    pub Silent-return : Silent (return tt)
    unfolding return
    Silent-return s = (s, refl, R.same s.db)

    pub Silent-ignore_error : {A : Type 0} {m : M Db A} → Keeps R m → Silent (ignore_error m)
    unfolding ignore_error
    Silent-ignore_error {m} h s = ((m s).1, refl, h.moves s)

    pub Silent-if :
        (b : Bool) {m n : M Db (Unit {0})} → Silent m → Silent n → Silent (if b then m else n)
    Silent-if true h k = h
    Silent-if false h k = k

    pub Silent-then' :
        {B : Type 0} {m : M Db (Unit {0})} (k : M Db B) (s : Sys Db)
        → Silent m
        → (u : Sys Db) × ((m >> k) s ≡ k u) × R.Rel s.db u.db
    unfolding ◌>>◌
    Silent-then' k s h =
        let found = h s in (found.0, ap (λ r. and_then r (λ _. k)) found.1, found.2)

    pub Silent-then : {m k : M Db (Unit {0})} → Silent m → Silent k → Silent (m >> k)
    Silent-then {k} h l s =
        let first = Silent-then' k s h in
        let second = l first.0 in (second.0, first.1 ∙ second.1, R.both _ _ _ first.2 second.2)

    pub Leaves-Silent :
        {B : Type 0} (Post : Db → Result B → Db → Type 0) {m : M Db (Unit {0})} {k : M Db B}
        → FollowsOn R Post
        → Silent m
        → Leaves Post k
        → Leaves Post (m >> k)
    Leaves-Silent Post {m} {k} follows h l = record { leaves = λ s. go s (Silent-then' k s h) }
      where
        go :
            (s : Sys Db)
            → ((u : Sys Db) × ((m >> k) s ≡ k u) × R.Rel s.db u.db)
            → Post s.db ((m >> k) s).0 ((m >> k) s).1.db
        go s (u, e, r) = rw e (follows s.db u.db _ _ r (l.leaves u))
