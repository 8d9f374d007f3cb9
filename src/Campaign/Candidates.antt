-- ===== src/Campaign/Candidates.antt =====
-- What `Execute` of internal/modules/campaign/app/draft/schedule.go has stored where it succeeds.
use send_flow_backend.Prelude.{
  String, ◌≡◌, refl, sym, ap, ◌∙◌, subst, Bool, true, false, List, [], ◌∷◌, ◌++◌, append-nil, any,
  Bool-cases, inl, inr, Option, none, some, if◌then◌else◌, length,
}
use send_flow_backend.Effect.{Error, Result, ok, err, sentinel, Sys, tick, M, ◌>>=◌, throw, call}
use send_flow_backend.Effect.Rules.{Keeps, err_answer}
use send_flow_backend.Effect.Outcomes.{
  bind-eq-ok, then-eq-ok, return-eq-ok, call_ran, call-eq-ok, within_tx-eq-ok,
}
use send_flow_backend.Events.{OutboxEvent}
use send_flow_backend.Campaign.{
  Campaign, CampaignMessageCandidate, CandidateStatus, can_schedule, invalid_state_transition,
}
use send_flow_backend.Campaign.Store.{
  Db, is_campaign, found, find_by_id, update, replace_candidates, save, others, inserted,
}
use send_flow_backend.Campaign.Draft.{CampaignPorts, Recipient}
use send_flow_backend.Campaign.Schedule.{
  ScheduleInput, ScheduleResult, make_candidates, schedule_body, announce, prepare, commit_schedule,
  schedule_read, schedule, selection, some_recipients, event_campaign_scheduled_v1,
}
use send_flow_backend.Campaign.Lifecycle.{same, permitted-Keeps}
use send_flow_backend.Campaign.Moves.{Action}
use send_flow_backend.Campaign.Scheduled.{prepare-Keeps, make_candidates-Keeps, announce-Keeps}

-- The database after a run that changes none of it.
unmoved :
    {A : Type 0} {m : M Db A}
    → Keeps same m
    → (s : Sys Db) {a : A} {t : Sys Db} → m s ≡ (ok a, t)
    → t.db ≡ s.db
unmoved {A} k s h = ap (λ (r : Result A × Sys Db). r.1.db) (sym h) ∙ k.moves s

err_is_not_ok : {A : Type 0} {e : Error} {a : A} → err e ≡ ok a → ⊥
err_is_not_ok h = cc

replaced :
    (refusal : List CampaignMessageCandidate → List CampaignMessageCandidate → Option Error)
    (w id : String) (cs : List CampaignMessageCandidate) (d e : Db)
    → replace_candidates refusal w id cs d ≡ (ok tt, e)
    → (e.candidates ≡ others w id d.candidates ++ cs) × (e.outbox ≡ d.outbox)
unfolding replace_candidates
replaced refusal w id [] d e h =
    let q : _ ≡ e = ap (λ (r : Result (Unit {0}) × Db). r.1) h in
    (ap (λ (d : Db). d.candidates) (sym q) ∙ sym (append-nil _), ap (λ (d : Db). d.outbox) (sym q))
replaced refusal w id (c ∷ cs) d e h = go (refusal (c ∷ cs) (others w id d.candidates)) h
  where
    go :
        (o : Option Error)
        → inserted o (record d { candidates = others w id d.candidates }) (c ∷ cs) ≡ (ok tt, e)
        → (e.candidates ≡ others w id d.candidates ++ c ∷ cs) × (e.outbox ≡ d.outbox)
    go none k =
        let q = ap (λ (r : Result (Unit {0}) × Db). r.1) k in
        (ap (λ (d : Db). d.candidates) (sym q), ap (λ (d : Db). d.outbox) (sym q))
    go (some z) k = absurd (err_is_not_ok (ap (λ (r : Result (Unit {0}) × Db). r.0) k))

update-rest :
    (c : Campaign) (d : Db)
    → ((update c d).1.candidates ≡ d.candidates) × ((update c d).1.outbox ≡ d.outbox)
unfolding update
update-rest c d = elim (Bool-cases (any (is_campaign c.workspace_id c.id) d.campaigns)) [
  | inl e ↦ rw e (refl, refl)
  | inr e ↦ rw e (refl, refl)
]

-- The recipients that are let through are those that the audience module answered.
let_through :
    (r : Result (List Recipient)) (s : Sys Db) {rs : List Recipient} {t : Sys Db}
    → some_recipients r s ≡ (ok rs, t)
    → r ≡ ok rs
unfolding ◌>>=◌
let_through (ok []) s h = absurd (err_answer h)
let_through (ok (r ∷ rs)) s h = ap (λ (x : Result (List Recipient) × Sys Db). x.0) h
let_through (err e) s h = absurd (err_answer h)

module _ (p : CampaignPorts) (cmd : ScheduleInput) where
  -- A planned candidate of the campaign for the recipient, who is kept as the audience answered.
  pub record PlannedFor (campaign_id : String) (r : Recipient) (x : CampaignMessageCandidate)
      : Type 0 where
    pub planned : x.status ≡ CandidateStatus.planned
    pub of_campaign : (x.campaign_id ≡ campaign_id) × (x.workspace_id ≡ cmd.workspace_id)
    pub for_contact : (x.contact_id ≡ r.contact_id) × (x.email_normalized ≡ r.email_normalized)
    pub contact_kept : x.recipient_snapshot.contact_id ≡ r.contact_id
    pub address_kept :
        (x.recipient_snapshot.email ≡ r.email)
        × (x.recipient_snapshot.email_normalized ≡ r.email_normalized)
    pub name_kept :
        (x.recipient_snapshot.first_name ≡ r.first_name)
        × (x.recipient_snapshot.last_name ≡ r.last_name)
    pub traits_kept :
        (x.recipient_snapshot.tags ≡ r.tags) × (x.recipient_snapshot.attributes ≡ r.attributes)
    pub dated : (x.created_at ≡ cmd.now) × (x.updated_at ≡ cmd.now)

  -- One for each recipient, in their order.
  abbrev pub OneForEach : String → List Recipient → List CampaignMessageCandidate → Type 0
  OneForEach campaign_id [] [] = Unit
  OneForEach campaign_id [] (x ∷ xs) = ⊥
  OneForEach campaign_id (r ∷ rs) [] = ⊥
  OneForEach campaign_id (r ∷ rs) (x ∷ xs) =
      PlannedFor campaign_id r x × OneForEach campaign_id rs xs

  made :
      (c : Campaign) (rs : List Recipient) (s : Sys Db) {cs : List CampaignMessageCandidate}
      {t : Sys Db}
      → make_candidates p cmd c rs s ≡ (ok cs, t)
      → OneForEach c.id rs cs
  unfolding make_candidates
  made c [] s h = let (q, w) = return-eq-ok _ s h in subst (OneForEach c.id []) q tt
  made c (r ∷ rs) s h =
      let (id, s1, a, h1) = bind-eq-ok _ _ s h in
      let (rest, s2, b, h2) = bind-eq-ok _ _ s1 h1 in
      let (q, w) = return-eq-ok _ s2 h2 in
      subst (OneForEach c.id (r ∷ rs)) q (
        record {
          planned = refl;
          of_campaign = (refl, refl);
          for_contact = (refl, refl);
          contact_kept = refl;
          address_kept = (refl, refl);
          name_kept = (refl, refl);
          traits_kept = (refl, refl);
          dated = (refl, refl);
        },
        made c rs s1 b,
      )

  announced :
      (c : Campaign) (s : Sys Db) {e : OutboxEvent} {t : Sys Db}
      → announce p cmd c s ≡ (ok e, t)
      → (e.event_type ≡ event_campaign_scheduled_v1) × (e.aggregate_id ≡ c.id)
  unfolding announce
  announced c s h =
      let (a1, s1, b1, h1) = bind-eq-ok _ _ s h in
      let (a2, s2, b2, h2) = bind-eq-ok _ _ s1 h1 in
      let (a3, s3, b3, h3) = bind-eq-ok _ _ s2 h2 in
      let (a4, s4, b4, h4) = bind-eq-ok _ _ s3 h3 in
      let (a5, s5, b5, h5) = bind-eq-ok _ _ s4 h4 in
      let (q, w) = return-eq-ok _ s5 h5 in rw (← q) (refl, refl)

  -- What the tables hold of a scheduled campaign.
  pub record Recorded (d : Db) (r : ScheduleResult) (e : Db) : Type 0 where
    pub recipients : List Recipient
    pub event : OutboxEvent
    pub candidates :
        e.candidates ≡ others cmd.workspace_id r.campaign.id d.candidates ++ r.candidates
    pub one_each : OneForEach r.campaign.id recipients r.candidates
    pub resolved :
        p.resolve_recipients cmd.workspace_id cmd.user_id (selection r.campaign.audience_ref)
        ≡ ok recipients
    pub planned : r.campaign.planned_recipients ≡ length recipients
    pub outbox : e.outbox ≡ d.outbox ++ event ∷ []
    pub announces :
        (event.event_type ≡ event_campaign_scheduled_v1) × (event.aggregate_id ≡ r.campaign.id)

  committed :
      (c : Campaign) (rs : List Recipient) (s : Sys Db) {r : ScheduleResult} {t : Sys Db}
      → c.planned_recipients ≡ length rs
      → p.resolve_recipients cmd.workspace_id cmd.user_id (selection c.audience_ref) ≡ ok rs
      → commit_schedule p cmd (c, rs) s ≡ (ok r, t)
      → Recorded s.db r t.db
  unfolding commit_schedule schedule_body save
  committed c rs s {t = t} n m h =
      let (cs, s1, a1, h1) = bind-eq-ok _ _ s h in
      let (e, s2, a2, h2) = bind-eq-ok _ _ s1 h1 in
      let (s3, a3, h3) = then-eq-ok _ _ s2 h2 in
      let (q, w) = return-eq-ok _ s3 h3 in
      let (u, ran, kept) = within_tx-eq-ok p.env (schedule_body p cmd c cs e) s2 a3 in
      let (u1, b1, k1) = then-eq-ok _ _ (tick s2) ran in
      let (u2, b2, k2) = then-eq-ok _ _ u1 k1 in
      let start : s2.db ≡ s.db =
        unmoved (announce-Keeps p cmd c) s1 a2 ∙ unmoved (make_candidates-Keeps p cmd c rs) s a1 in
      let written = call-eq-ok p.env (update c) (tick s2) b1 in
      let stored =
        replaced p.refuses_candidates cmd.workspace_id c.id cs u1.db u2.db
          (call_ran p.env _ u1 b2) in
      let saved = call-eq-ok p.env (save e) u2 k2 in
      let final : t.db ≡ (save e u2.db).1 = ap (λ (s : Sys Db). s.db) (sym w) ∙ kept ∙ saved in
      let rest = update-rest c s2.db in
      subst (λ r. Recorded s.db r t.db) q
        (record {
          recipients = rs;
          event = e;
          candidates =
              ap (λ (d : Db). d.candidates) final
              ∙ stored.0
              ∙ ap (λ (d : Db). others cmd.workspace_id c.id d.candidates ++ cs) written
              ∙ ap (λ xs. others cmd.workspace_id c.id xs ++ cs) rest.0
              ∙ ap (λ (d : Db). others cmd.workspace_id c.id d.candidates ++ cs) start;
          one_each = made c rs s a1;
          planned = n;
          resolved = m;
          outbox =
              ap (λ (d : Db). d.outbox) final
              ∙ ap (λ xs. xs ++ e ∷ [])
                  (stored.1
                    ∙ ap (λ (d : Db). d.outbox) written
                    ∙ rest.1
                    ∙ ap (λ (d : Db). d.outbox) start);
          announces = announced c s1 a2;
        })

  ready :
      (c : Campaign) (s : Sys Db) {r : Campaign × List Recipient} {t : Sys Db}
      → prepare p cmd c s ≡ (ok r, t)
      → (r.0.planned_recipients ≡ length r.1)
        × (p.resolve_recipients cmd.workspace_id cmd.user_id (selection r.0.audience_ref) ≡ ok r.1)
  unfolding prepare
  ready c s h =
      let (s1, a, h1) = then-eq-ok _ _ s h in
      let (v, s2, b, h2) = bind-eq-ok _ _ s1 h1 in
      let (s3, e, h3) = then-eq-ok _ _ s2 h2 in
      let (rs, s4, f, h4) = bind-eq-ok _ _ s3 h3 in
      let (q, w) = return-eq-ok _ s4 h4 in
      subst
        (λ (r : Campaign × List Recipient).
          (r.0.planned_recipients ≡ length r.1)
          × (p.resolve_recipients cmd.workspace_id cmd.user_id (selection r.0.audience_ref)
              ≡ ok r.1))
        q (refl, let_through _ s3 f)

  read-Recorded :
      (b : Bool) (c : Campaign) (s : Sys Db) {r : ScheduleResult} {t : Sys Db}
      → (if b
            then prepare p cmd c >>= commit_schedule p cmd
            else throw (sentinel invalid_state_transition))
          s
        ≡ (ok r, t)
      → Recorded s.db r t.db
  unfolding throw
  read-Recorded true c s {r} {t} h =
      let (made, s1, a, h1) = bind-eq-ok _ _ s h in
      let facts = ready c s a in
      subst (λ d. Recorded d r t.db) (unmoved (prepare-Keeps p cmd c) s a)
        (committed made.0 made.1 s1 facts.0 facts.1 h1)
  read-Recorded false c s h = absurd (err_answer h)

  found_unmoved :
      (s : Sys Db) {c : Campaign} {t : Sys Db}
      → call p.env (find_by_id cmd.workspace_id cmd.campaign_id) s ≡ (ok c, t)
      → t.db ≡ s.db
  unfolding find_by_id
  found_unmoved s h = call-eq-ok p.env (find_by_id cmd.workspace_id cmd.campaign_id) s h ∙ go _
    where
      go : (o : Option Campaign) → (found o s.db).1 ≡ s.db
      go none = refl
      go (some c) = refl

-- A schedule that succeeds has asked the audience module for the recipients of the campaign's
-- audience, and has stored, in place of the campaign's earlier candidates and beside those of other
-- campaigns, the candidates that it answers with: one for each recipient in their order, planned, of
-- this campaign and workspace, with the recipient's contact, address, names, tags and attributes; the
-- campaign counts as many planned recipients; and one outbox event, `campaign.scheduled.v1` for this
-- campaign, is added.
pub schedule_records :
    (p : CampaignPorts) (cmd : ScheduleInput) (s : Sys Db) (r : ScheduleResult) (t : Sys Db)
    → schedule p cmd s ≡ (ok r, t)
    → Recorded p cmd s.db r t.db
unfolding schedule schedule_read
schedule_records p cmd s r t h =
    let (s1, a, h1) = then-eq-ok _ _ s h in
    let (c, s2, b, h2) = bind-eq-ok _ _ s1 h1 in
    let start =
      found_unmoved p cmd s1 b ∙ unmoved (permitted-Keeps Action.scheduling p.env p _ _) s a in
    subst (λ d. Recorded p cmd d r t.db) start (read-Recorded p cmd (can_schedule c.status) c s2 h2)
