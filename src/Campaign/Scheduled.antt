-- ===== src/Campaign/Scheduled.antt =====
-- `Execute` of internal/modules/campaign/app/draft/schedule.go as a transition of the campaign.
use send_flow_backend.Prelude.{
  String, ◌≡◌, refl, sym, ap, ◌∙◌, subst, Bool, true, false, List, [], ◌∷◌, Option, none, some,
  find?, if◌then◌else◌, length,
}
use send_flow_backend.Effect.{
  Error, Result, ok, err, sentinel, Sys, tick, and_then, ◌>>=◌, ◌>>◌, return, throw, within_tx,
}
use send_flow_backend.Effect.Rules.{
  Keeps, Keeps-return, Keeps-throw, Keeps-bind, Keeps-then, Keeps-id_gen, Keeps-clock, Keeps-lift,
  within_tx_err, within_tx_either,
}
use send_flow_backend.Effect.Outcomes.{
  bind-eq-ok, then-eq-ok, return-eq-ok, call-eq-ok, within_tx-eq-ok,
}
use send_flow_backend.Effect.Leaves.{Leaves, Leaves-bind, Leaves-bind_answer, Leaves-throw}
use send_flow_backend.Campaign.{
  Campaign, CampaignStatus, CampaignMessageCandidate, invalid_state_transition, can_schedule,
}
use send_flow_backend.Campaign.Store.{Db, is_campaign, update, replace_candidates, save, inserted}
use send_flow_backend.Events.{OutboxEvent}
use send_flow_backend.Campaign.Draft.{CampaignPorts, Recipient}
use send_flow_backend.Campaign.Schedule.{
  ScheduleInput, ScheduleResult, scheduled, sender_ready, published, renderable, some_recipients,
  make_candidates, schedule_body, announce, prepare, commit_schedule, schedule_read, schedule,
}
use send_flow_backend.Campaign.Moves.{Steps-refl, Action, Allowed, schedules, Moved, Steps}
use send_flow_backend.Campaign.Lifecycle.{
  same, Ended, AsRead, AsRead-FollowsOn, AsRead-AdmitsErrors, done, update-Ended, handler-Leaves,
}

abbrev x : Action
x = Action.scheduling

sender_ready-Keeps : (r : Result (Option Bool)) → Keeps same (sender_ready r)
sender_ready-Keeps (ok (some true)) = Keeps-return same tt
sender_ready-Keeps (ok (some false)) = Keeps-throw same _
sender_ready-Keeps (ok none) = Keeps-throw same _
sender_ready-Keeps (err e) = Keeps-throw same e

published-Keeps : (r : Result (Option String)) → Keeps same (published r)
published-Keeps (ok (some v)) = Keeps-return same v
published-Keeps (ok none) = Keeps-throw same _
published-Keeps (err e) = Keeps-throw same _

renderable-Keeps : (r : Result (Unit {0})) → Keeps same (renderable r)
renderable-Keeps (ok _) = Keeps-return same tt
renderable-Keeps (err e) = Keeps-throw same _

some_recipients-Keeps : (r : Result (List Recipient)) → Keeps same (some_recipients r)
some_recipients-Keeps (ok []) = Keeps-throw same _
some_recipients-Keeps (ok (r ∷ rs)) = Keeps-return same (r ∷ rs)
some_recipients-Keeps (err e) = Keeps-throw same e

replace_candidates-campaigns :
    (refusal : List CampaignMessageCandidate → List CampaignMessageCandidate → Option Error)
    (w id : String) (cs : List CampaignMessageCandidate) (d : Db)
    → (replace_candidates refusal w id cs d).1.campaigns ≡ d.campaigns
unfolding replace_candidates
replace_candidates-campaigns refusal w id [] d = refl
replace_candidates-campaigns refusal w id (c ∷ cs) d = go _ _
  where
    go :
        (o : Option Error) (xs : List CampaignMessageCandidate)
        → (inserted o (record d { candidates = xs }) (c ∷ cs)).1.campaigns ≡ d.campaigns
    go none xs = refl
    go (some e) xs = refl

module _ (p : CampaignPorts) (cmd : ScheduleInput) where
  pub prepare-Keeps : (c : Campaign) → Keeps same (prepare p cmd c)
  unfolding prepare
  prepare-Keeps c = Keeps-then same (sender_ready-Keeps _) (
      Keeps-bind same (published-Keeps _) λ v.
        Keeps-then same (renderable-Keeps _)
          (Keeps-bind same (some_recipients-Keeps _) λ rs. Keeps-return same _))

  -- What the preparation answers is the campaign, scheduled.
  pub prepared :
      (c : Campaign) (s : Sys Db) {r : Campaign × List Recipient} {t : Sys Db}
      → prepare p cmd c s ≡ (ok r, t)
      → (v : String) × (r ≡ (scheduled p cmd c v (length r.1), r.1))
  unfolding prepare
  prepared c s h =
      let (s1, a, h1) = then-eq-ok _ _ s h in
      let (v, s2, b, h2) = bind-eq-ok _ _ s1 h1 in
      let (s3, e, h3) = then-eq-ok _ _ s2 h2 in
      let (rs, s4, f, h4) = bind-eq-ok _ _ s3 h3 in
      let (q, same_state) = return-eq-ok _ s4 h4 in
      (v, subst (λ r. r ≡ (scheduled p cmd c v (length r.1), r.1)) q refl)

  pub make_candidates-Keeps :
      (c : Campaign) (rs : List Recipient) → Keeps same (make_candidates p cmd c rs)
  unfolding make_candidates
  make_candidates-Keeps c [] = Keeps-return same []
  make_candidates-Keeps c (r ∷ rs) =
      Keeps-bind same (Keeps-id_gen same p.env)
        λ id. Keeps-bind same (make_candidates-Keeps c rs) λ rest. Keeps-return same _

  pub announce-Keeps : (c : Campaign) → Keeps same (announce p cmd c)
  unfolding announce
  announce-Keeps c = Keeps-bind same (Keeps-lift same _) λ a.
      Keeps-bind same (Keeps-id_gen same p.env) λ id.
        Keeps-bind same (Keeps-clock same p.env) λ now.
          Keeps-bind same (Keeps-lift same _)
            λ e. Keeps-bind same (Keeps-lift same _) λ b. Keeps-return same _

  -- The transaction's body, where it succeeds.
  body_steps :
      (c b : Campaign) (cs : List CampaignMessageCandidate) (e : OutboxEvent) (s : Sys Db)
      {t : Sys Db}
      → Moved x c b
      → find? (is_campaign c.workspace_id c.id) s.db.campaigns ≡ some c
      → schedule_body p cmd b cs e s ≡ (ok tt, t)
      → Steps x s.db.campaigns t.db.campaigns
  unfolding schedule_body save
  body_steps c b cs e s m f h =
      let (s1, updated, h1) = then-eq-ok _ _ s h in
      let (s2, replaced, h2) = then-eq-ok _ _ s1 h1 in
      let written = call-eq-ok p.env (update b) s updated in
      let kept =
        call-eq-ok p.env (replace_candidates p.refuses_candidates cmd.workspace_id b.id cs) s1
          replaced in
      let saved = call-eq-ok p.env (save e) s2 h2 in
      let all : _ ≡ (update b s.db).1.campaigns =
        ap (λ (d : Db). d.campaigns) saved
        ∙ ap (λ (d : Db). d.campaigns) kept
        ∙ replace_candidates-campaigns p.refuses_candidates cmd.workspace_id b.id cs s1.db
        ∙ ap (λ (d : Db). d.campaigns) written in
      subst (Steps x s.db.campaigns) (sym all) (update-Ended x p.env c b s.db m f).steps

  -- Whether the commit of the transaction is done or not.
  tx-Steps :
      (c b : Campaign) (cs : List CampaignMessageCandidate) (e : OutboxEvent) (s : Sys Db)
      → Moved x c b
      → find? (is_campaign c.workspace_id c.id) s.db.campaigns ≡ some c
      → Steps x s.db.campaigns (within_tx p.env (schedule_body p cmd b cs e) s).1.db.campaigns
  tx-Steps c b cs e s m f =
      within_tx_either p.env (schedule_body p cmd b cs e) s
        (λ d. Steps x s.db.campaigns d.campaigns) (Steps-refl x s.db.campaigns)
        (λ u t h. body_steps c b cs e (tick s) m f h)

  tx-Ended :
      (c b : Campaign) (cs : List CampaignMessageCandidate) (e : OutboxEvent) (z : ScheduleResult)
      (s : Sys Db)
      → Moved x c b
      → find? (is_campaign c.workspace_id c.id) s.db.campaigns ≡ some c
      → Ended x p.env s.db
          ((within_tx p.env (schedule_body p cmd b cs e) >> return z) s).0
          ((within_tx p.env (schedule_body p cmd b cs e) >> return z) s).1.db
  unfolding ◌>>=◌
  tx-Ended c b cs e z s m f = go _ refl
    where
      go :
          (r : Result (Unit {0}) × Sys Db)
          → within_tx p.env (schedule_body p cmd b cs e) s ≡ r
          → Ended x p.env s.db
              (and_then r (λ _. return {Db = Db} z)).0
              (and_then r (λ _. return {Db = Db} z)).1.db
      go (ok _, t) h =
          let (u, ran, kept) = within_tx-eq-ok p.env (schedule_body p cmd b cs e) s h in
          done x p.env s.db t.db z (rw kept (body_steps c b cs e (tick s) m f ran))
      go (err q, t) h = record {
        steps =
            subst (λ (r : Result (Unit {0}) × Sys Db). Steps x s.db.campaigns r.1.db.campaigns) h
              (tx-Steps c b cs e s m f);
        undone = λ told _.
            ap (λ (r : Result (Unit {0}) × Sys Db). r.1.db) (sym h)
            ∙ within_tx_err p.env (schedule_body p cmd b cs e) s told
                (ap (λ (r : Result (Unit {0}) × Sys Db). r.0) h);
      }

  commit-Leaves :
      (c : Campaign) (r : Campaign × List Recipient)
      → Moved x c r.0
      → Leaves (AsRead x p.env c) (commit_schedule p cmd r)
  unfolding commit_schedule
  commit-Leaves c (b, rs) m =
      Leaves-bind same (AsRead x p.env c) (AsRead-FollowsOn x p.env c)
        (AsRead-AdmitsErrors x p.env c) (make_candidates-Keeps b rs)
        λ cs.
          Leaves-bind same (AsRead x p.env c) (AsRead-FollowsOn x p.env c)
            (AsRead-AdmitsErrors x p.env c) (announce-Keeps b)
            λ e. record {
              leaves = λ s f. tx-Ended c b cs e (record { campaign = b; candidates = cs }) s m f;
            }

  can_schedule-Allowed :
      (a : CampaignStatus) → can_schedule a ≡ true → Allowed x a CampaignStatus.scheduled
  can_schedule-Allowed CampaignStatus.draft h = schedules
  can_schedule-Allowed CampaignStatus.scheduled h = cc
  can_schedule-Allowed CampaignStatus.running h = cc
  can_schedule-Allowed CampaignStatus.paused h = cc
  can_schedule-Allowed CampaignStatus.cancelled h = cc
  can_schedule-Allowed CampaignStatus.completed h = cc

  ready-Leaves :
      (c : Campaign)
      → can_schedule c.status ≡ true
      → Leaves (AsRead x p.env c) (prepare p cmd c >>= commit_schedule p cmd)
  ready-Leaves c h =
      Leaves-bind_answer same (AsRead x p.env c) (AsRead-FollowsOn x p.env c)
        (AsRead-AdmitsErrors x p.env c) (prepare-Keeps c)
        λ s r t q.
          let (v, shape) = prepared c s q in
          commit-Leaves c r (
            subst (λ (r : Campaign × List Recipient). Moved x c r.0) (sym shape)
              (record {
                same_id = refl;
                same_workspace = refl;
                allowed = can_schedule-Allowed c.status h;
              }))

  schedule_read-Leaves : (c : Campaign) → Leaves (AsRead x p.env c) (schedule_read p cmd c)
  unfolding schedule_read
  schedule_read-Leaves c = go (can_schedule c.status) refl
    where
      go :
          (b : Bool)
          → can_schedule c.status ≡ b
          → Leaves (AsRead x p.env c) (
              if b
              then prepare p cmd c >>= commit_schedule p cmd
              else throw (sentinel invalid_state_transition))
      go true h = ready-Leaves c h
      go false h =
          Leaves-throw same (AsRead x p.env c) (AsRead-FollowsOn x p.env c)
            (AsRead-AdmitsErrors x p.env c) _

  pub schedule-Leaves : Leaves (Ended x p.env) (schedule p cmd)
  unfolding schedule
  schedule-Leaves =
      handler-Leaves x p.env p _ _ cmd.workspace_id cmd.campaign_id _ schedule_read-Leaves
