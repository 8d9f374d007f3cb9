-- ===== src/Campaign/Schedule.antt =====
-- internal/modules/campaign/app/draft/schedule.go: `Execute` is `schedule`.
use send_flow_backend.Prelude.{
  ℕ, String, Bool, true, List, [], ◌∷◌, Option, none, some, if◌then◌else◌, length,
}
use send_flow_backend.Prelude.Text.{str_eq}
use send_flow_backend.Effect.{
  sentinel, Result, ok, err, M, ◌>>=◌, ◌>>◌, return, throw, lift, call, id_gen, clock, within_tx,
}
use send_flow_backend.Events.{OutboxEvent, new_envelope, marshal}
use send_flow_backend.Campaign.{
  Campaign, CampaignStatus, CandidateStatus, CampaignMessageCandidate, AudienceRef,
  audience_not_ready, invalid_state_transition, can_schedule,
}
use send_flow_backend.Campaign.Store.{Db, find_by_id, update, replace_candidates, save}
use send_flow_backend.Campaign.Draft.{
  CampaignPorts, Recipient, AudienceSelectionRef, CampaignScheduledPayload, permitted, send_denied,
}

pub record ScheduleInput : Type 0 where
  pub workspace_id : String
  pub campaign_id : String
  pub user_id : String
  pub scheduled_at : Option ℕ
  pub now : ℕ

pub record ScheduleResult : Type 0 where
  pub campaign : Campaign
  pub candidates : List CampaignMessageCandidate

abbrev pub event_campaign_scheduled_v1 : String
event_campaign_scheduled_v1 = "campaign.scheduled.v1"

abbrev pub aggregate_campaign : String
aggregate_campaign = "campaign"

abbrev pub sender_ready : Result (Option Bool) → M Db (Unit {0})
sender_ready (ok (some true)) = return tt
sender_ready (ok _) = throw (sentinel "campaign sender not verified")
sender_ready (err e) = throw e

abbrev pub published : Result (Option String) → M Db String
published (ok (some version_id)) = return version_id
published _ = throw (sentinel "campaign template publish required")

abbrev pub renderable : Result (Unit {0}) → M Db (Unit {0})
renderable (ok _) = return tt
renderable (err e) = throw (sentinel "campaign template publish required")

abbrev pub selection : AudienceRef → AudienceSelectionRef
selection r = record {
  list_id = (if str_eq r.audience_type "list" then r.id else "");
  segment_id = (if str_eq r.audience_type "segment" then r.id else "");
  contact_ids = r.contact_ids;
}

abbrev pub some_recipients : Result (List Recipient) → M Db (List Recipient)
some_recipients (ok []) = throw (sentinel audience_not_ready)
some_recipients (ok (r ∷ rs)) = return (r ∷ rs)
some_recipients (err e) = throw e

abbrev pub time_or : Option ℕ → ℕ → ℕ
time_or none now = now
time_or (some t) now = t

module _ (p : CampaignPorts) (cmd : ScheduleInput) where
  abbrev pub scheduled : Campaign → String → ℕ → Campaign
  scheduled c version_id recipients = record c {
    status = CampaignStatus.scheduled;
    template_ref = record {
      template_id = c.template_ref.template_id;
      template_version_id = version_id;
    };
    planned_recipients = recipients;
    scheduled_at = some (time_or cmd.scheduled_at cmd.now);
    updated_at = cmd.now;
  }

  abbrev pub candidate : Campaign → Recipient → String → CampaignMessageCandidate
  candidate c r id = record {
    id = id;
    workspace_id = cmd.workspace_id;
    campaign_id = c.id;
    contact_id = r.contact_id;
    email_normalized = r.email_normalized;
    recipient_snapshot = record {
      contact_id = r.contact_id;
      email = r.email;
      email_normalized = r.email_normalized;
      first_name = r.first_name;
      last_name = r.last_name;
      tags = r.tags;
      attributes = r.attributes;
    };
    status = CandidateStatus.planned;
    created_at = cmd.now;
    updated_at = cmd.now;
  }

  unfoldable pub make_candidates : Campaign → List Recipient → M Db (List CampaignMessageCandidate)
  make_candidates c [] = return []
  make_candidates c (r ∷ rs) = do
    id ← id_gen p.env
    rest ← make_candidates c rs
    return (candidate c r id ∷ rest)

  abbrev pub scheduled_payload : Campaign → String → CampaignScheduledPayload
  scheduled_payload c audience = record {
    campaign_id = c.id;
    workspace_id = cmd.workspace_id;
    audience_ref = audience;
    template_id = c.template_ref.template_id;
    template_version_id = c.template_ref.template_version_id;
    sender_domain_id = c.sender_domain_id;
    message_type = c.message_type;
    scheduled_at = p.format_time (time_or cmd.scheduled_at cmd.now);
    planned_recipients = c.planned_recipients;
  }

  abbrev pub scheduled_event : Campaign → String → String → OutboxEvent
  scheduled_event c id payload = record {
    id = id;
    aggregate_type = aggregate_campaign;
    aggregate_id = c.id;
    event_type = event_campaign_scheduled_v1;
    payload = payload;
    workspace_id = cmd.workspace_id;
    occurred_at = cmd.now;
  }

  -- The body of the transaction.
  unfoldable pub schedule_body :
      Campaign → List CampaignMessageCandidate → OutboxEvent → M Db (Unit {0})
  schedule_body c candidates event = do
    call p.env (update c)
    call p.env (replace_candidates p.refuses_candidates cmd.workspace_id c.id candidates)
    call p.env (save event)

  -- The envelope of the event, encoded.
  unfoldable pub announce : Campaign → M Db OutboxEvent
  announce c = do
    audience ← lift (p.encode_audience c.audience_ref)
    event_id ← id_gen p.env
    now ← clock p.env
    envelope ← lift (
        new_envelope p.json now
          (record {
            event_id = event_id;
            event_type = event_campaign_scheduled_v1;
            event_version = 1;
            aggregate_type = aggregate_campaign;
            aggregate_id = c.id;
            workspace_id = cmd.workspace_id;
            occurred_at = cmd.now;
            payload = "";
          })
          (scheduled_payload c audience))
    bytes ← lift (marshal p.json envelope)
    return (scheduled_event c event_id bytes)

  -- What the campaign becomes, and its recipients.
  unfoldable pub prepare : Campaign → M Db (Campaign × List Recipient)
  prepare c = do
    sender_ready (p.sender_ready cmd.workspace_id c.sender_domain_id)
    version_id ← published (p.published_version cmd.workspace_id c.template_ref.template_id)
    renderable (p.validate_renderable cmd.workspace_id c.template_ref.template_id)
    recipients ←
        some_recipients
          (p.resolve_recipients cmd.workspace_id cmd.user_id (selection c.audience_ref))
    return (scheduled c version_id (length recipients), recipients)

  unfoldable pub commit_schedule : Campaign × List Recipient → M Db ScheduleResult
  unfolding make_candidates announce schedule_body
  commit_schedule (c, recipients) = do
    candidates ← make_candidates c recipients
    event ← announce c
    within_tx p.env (schedule_body c candidates event)
    return (record { campaign = c; candidates = candidates })

  unfoldable pub schedule_read : Campaign → M Db ScheduleResult
  unfolding prepare commit_schedule
  schedule_read c =
      if can_schedule c.status
      then (do ready ← prepare c; commit_schedule ready)
      else throw (sentinel invalid_state_transition)

  unfoldable pub schedule : M Db ScheduleResult
  unfolding schedule_read
  schedule = do
    permitted send_denied (p.require_permission cmd.workspace_id cmd.user_id "campaign.send")
    c ← call p.env (find_by_id cmd.workspace_id cmd.campaign_id)
    schedule_read c
