-- ===== src/Campaign/Lifecycle.antt =====
-- What a command of internal/modules/campaign leaves behind: statuses along the transitions of the
-- command, and nothing at all after an error.
use send_flow_backend.Prelude.{
  and_true, String, ◌≡◌, refl, ap, ◌∙◌, Option, none, some, find?, any, Bool-cases, inl, inr,
}
use send_flow_backend.Prelude.Text.{eq_iff}
use send_flow_backend.Prelude.Search.{find?-test}
use send_flow_backend.Effect.{
  Error, Result, ok, err, is_error, Env, Sys, tick, M, and_then, ◌>>=◌, ◌>>◌, return, call, answer,
  finish_call,
}
use send_flow_backend.Effect.Rules.{
  CommitsTold, Preorder, Keeps, Keeps-return, Keeps-throw, Keeps-if,
}
use send_flow_backend.Effect.Leaves.{Leaves, FollowsOn, AdmitsErrors, Leaves-then}
use send_flow_backend.Campaign.{Campaign}
use send_flow_backend.Campaign.Store.{Db, is_campaign, found, find_by_id, set_columns, update}
use send_flow_backend.Campaign.Draft.{CampaignPorts, permitted, write_back}
use send_flow_backend.Campaign.Command.{forget}
use send_flow_backend.Campaign.Moves.{Action, Moved, Steps, Steps-refl, Steps-modify_first}

abbrev pub same : Preorder Db
same = record { Rel = λ d e. e ≡ d; same = λ d. refl; both = λ a b c h k. k ∙ h }

clash : {A : Type 0} {a : A} {e : Error} → ok a ≡ err e → ⊥
clash h = cc

module _ (x : Action) (environment : Env) where
  pub record Ended {A : Type 0} (d : Db) (r : Result A) (e : Db) : Type 0 where
    pub steps : Steps x d.campaigns e.campaigns
    pub undone : {z : Error} → CommitsTold environment → r ≡ err z → e ≡ d

  pub unchanged : {A : Type 0} (d : Db) (r : Result A) → Ended d r d
  unchanged d r = record { steps = Steps-refl x d.campaigns; undone = λ told h. refl }

  pub done : {A : Type 0} (d e : Db) (a : A) → Steps x d.campaigns e.campaigns → Ended d (ok a) e
  done d e a h = record { steps = h; undone = λ told k. absurd (clash k) }

  pub Ended-FollowsOn : {A : Type 0} → FollowsOn same {B = A} (λ d r e. Ended d r e)
  Ended-FollowsOn a b c r h k = rw (← h) k

  pub Ended-AdmitsErrors : {A : Type 0} → AdmitsErrors same {B = A} (λ d r e. Ended d r e)
  Ended-AdmitsErrors a b z h = rw h (unchanged a (err z))

  -- From a database where the campaign is as it was read.
  abbrev pub AsRead : {A : Type 0} → Campaign → Db → Result A → Db → Type 0
  AsRead c d r e = find? (is_campaign c.workspace_id c.id) d.campaigns ≡ some c → Ended d r e

  pub AsRead-FollowsOn : {A : Type 0} (c : Campaign) → FollowsOn same {B = A} (AsRead c)
  AsRead-FollowsOn c a b z r h k f = rw (← h) (k (rw h f))

  pub AsRead-AdmitsErrors : {A : Type 0} (c : Campaign) → AdmitsErrors same {B = A} (AsRead c)
  AsRead-AdmitsErrors c a b z h f = rw h (unchanged a (err z))

  -- A call, after which a value is returned.
  pub after_call :
      {A : Type 0} (env : Env) (op : Db → Result (Unit {0}) × Db) (a : A) (s : Sys Db)
      → Ended s.db (op s.db).0 (op s.db).1
      → Ended s.db ((call env op >> return a) s).0 ((call env op >> return a) s).1.db
  unfolding ◌>>=◌
  after_call {A} env op a s h = faulty (env.fault s.calls)
    where
      ran :
          (r : Result (Unit {0}) × Db)
          → Ended s.db r.0 r.1
          → Ended s.db
              (and_then (finish_call s r) (λ _. return a)).0
              (and_then (finish_call s r) (λ _. return a)).1.db
      ran (ok _, d) k = done s.db d a k.steps
      ran (err e, d) k = record { steps = k.steps; undone = λ told _. k.undone told refl }

      faulty :
          (f : Option Error)
          → Ended s.db
              (and_then (answer f op s) (λ _. return a)).0
              (and_then (answer f op s) (λ _. return a)).1.db
      faulty (some e) = unchanged s.db (err e)
      faulty none = ran (op s.db) h

  -- `Update` of the campaign that was read, changed.
  pub update-Ended :
      (c b : Campaign) (d : Db)
      → Moved x c b
      → find? (is_campaign c.workspace_id c.id) d.campaigns ≡ some c
      → Ended d (update b d).0 (update b d).1
  unfolding update
  update-Ended c b d m f = elim (Bool-cases (any (is_campaign b.workspace_id b.id) d.campaigns)) [
    | inl e ↦ rw e (
        done d _ tt (
          Steps-modify_first x (is_campaign b.workspace_id b.id) (set_columns b) d.campaigns {c = c}
            (rw (m.same_workspace, m.same_id) f)
            (record { same_id = refl; same_workspace = refl; allowed = m.allowed })))
    | inr e ↦ rw e (unchanged d (err _))
  ]

  module _ (p : CampaignPorts) where
    pub write_back-Leaves : (c b : Campaign) → Moved x c b → Leaves (AsRead c) (write_back p b)
    unfolding write_back
    write_back-Leaves c b m = record {
      leaves = λ s f. after_call p.env (update b) b s (update-Ended c b s.db m f);
    }

    -- Where a campaign was read, the rest of the handler finds it as it was read.
    pub read-Leaves :
        {A : Type 0} (workspace_id id : String) (k : Campaign → M Db A)
        → ((c : Campaign) → Leaves (AsRead c) (k c))
        → Leaves Ended (call p.env (find_by_id workspace_id id) >>= k)
    unfolding ◌>>=◌ find_by_id
    read-Leaves {A} workspace_id id k l = record { leaves = λ s. faulty s (p.env.fault s.calls) }
      where
        reread :
            (d : Db) (c : Campaign)
            → find? (is_campaign workspace_id id) d.campaigns ≡ some c
            → find? (is_campaign c.workspace_id c.id) d.campaigns ≡ some c
        reread d c h =
            let found = and_true (find?-test (is_campaign workspace_id id) d.campaigns h) in
            ap (λ i. find? (is_campaign c.workspace_id i) d.campaigns) ((eq_iff c.id id).0 found.0)
            ∙ ap (λ w. find? (is_campaign w id) d.campaigns)
                ((eq_iff c.workspace_id workspace_id).0 found.1)
            ∙ h

        searched :
            (s : Sys Db) (o : Option Campaign)
            → find? (is_campaign workspace_id id) s.db.campaigns ≡ o
            → Ended s.db
                (and_then (finish_call s (found o s.db)) k).0
                (and_then (finish_call s (found o s.db)) k).1.db
        searched s none h = unchanged s.db (err _)
        searched s (some c) h = (l c).leaves (tick s) (reread s.db c h)

        faulty :
            (s : Sys Db) (f : Option Error)
            → Ended s.db
                (and_then (answer f (find_by_id workspace_id id) s) k).0
                (and_then (answer f (find_by_id workspace_id id) s) k).1.db
        faulty s (some e) = unchanged s.db (err e)
        faulty s none = searched s _ refl

    pub permitted-Keeps :
        (denied : String) (r : Result (Unit {0})) → Keeps same (permitted denied r)
    permitted-Keeps denied (ok _) = Keeps-return same tt
    permitted-Keeps denied (err e) = Keeps-if same (is_error e denied) (Keeps-throw same e) (
        Keeps-if same (is_error e "campaign read denied") (Keeps-throw same _) (Keeps-throw same e))

    -- The permission, the reading of the campaign, and what follows.
    pub handler-Leaves :
        {A : Type 0} (denied : String) (r : Result (Unit {0})) (workspace_id id : String)
        (k : Campaign → M Db A)
        → ((c : Campaign) → Leaves (AsRead c) (k c))
        → Leaves Ended (permitted denied r >> (call p.env (find_by_id workspace_id id) >>= k))
    handler-Leaves denied r workspace_id id k l =
        Leaves-then same Ended Ended-FollowsOn Ended-AdmitsErrors (permitted-Keeps denied r)
          (read-Leaves workspace_id id k l)

  pub forget-Leaves : {A : Type 0} {m : M Db A} → Leaves Ended m → Leaves Ended (forget m)
  unfolding ◌>>=◌
  forget-Leaves {A} {m} l = record { leaves = λ s. go s (m s) (l.leaves s) }
    where
      go :
          (s : Sys Db) (r : Result A × Sys Db)
          → Ended s.db r.0 r.1.db
          → Ended s.db
              (and_then {B = Unit {0}} r (λ _. return tt)).0
              (and_then {B = Unit {0}} r (λ _. return tt)).1.db
      go s (ok a, t) k = done s.db t.db tt k.steps
      go s (err e, t) k = record { steps = k.steps; undone = λ told _. k.undone told refl }
