-- ===== src/Campaign/Change.antt =====
-- internal/modules/campaign/app/draft: pause.go, resume.go and cancel.go.
-- A handler is cut in two where it has read the campaign: `pause` is the whole of `Execute`, and
-- `pause_read` the part after `FindByID`.
use send_flow_backend.Prelude.{ℕ, String, some, if◌then◌else◌}
use send_flow_backend.Effect.{sentinel, M, ◌>>=◌, ◌>>◌, throw, call}
use send_flow_backend.Campaign.{
  Campaign, CampaignStatus, invalid_state_transition, can_pause, can_resume, can_cancel,
}
use send_flow_backend.Campaign.Store.{Db, find_by_id}
use send_flow_backend.Campaign.Draft.{CampaignPorts, permitted, send_denied, write_back}

pub record ChangeInput : Type 0 where
  pub workspace_id : String
  pub campaign_id : String
  pub user_id : String
  pub now : ℕ

abbrev pub paused_at_time : ℕ → Campaign → Campaign
paused_at_time now c = record c {
  status = CampaignStatus.paused;
  paused_at = some now;
  updated_at = now;
}

abbrev pub resumed_at_time : ℕ → Campaign → Campaign
resumed_at_time now c = record c { status = CampaignStatus.scheduled; updated_at = now }

abbrev pub cancelled_at_time : ℕ → Campaign → Campaign
cancelled_at_time now c = record c {
  status = CampaignStatus.cancelled;
  cancelled_at = some now;
  updated_at = now;
}

module _ (p : CampaignPorts) where
  -- The part up to `FindByID`, and what follows it.
  abbrev pub with_campaign : ChangeInput → (Campaign → M Db Campaign) → M Db Campaign
  with_campaign cmd rest = do
    permitted send_denied (p.require_permission cmd.workspace_id cmd.user_id "campaign.send")
    c ← call p.env (find_by_id cmd.workspace_id cmd.campaign_id)
    rest c

  unfoldable pub pause_read : ℕ → Campaign → M Db Campaign
  unfolding write_back
  pause_read now c =
      if can_pause c.status
      then write_back p (paused_at_time now c)
      else throw (sentinel invalid_state_transition)

  unfoldable pub resume_read : ℕ → Campaign → M Db Campaign
  unfolding write_back
  resume_read now c =
      if can_resume c.status
      then write_back p (resumed_at_time now c)
      else throw (sentinel invalid_state_transition)

  unfoldable pub cancel_read : ℕ → Campaign → M Db Campaign
  unfolding write_back
  cancel_read now c =
      if can_cancel c.status
      then write_back p (cancelled_at_time now c)
      else throw (sentinel invalid_state_transition)

  unfoldable pub pause : ChangeInput → M Db Campaign
  unfolding pause_read
  pause cmd = with_campaign cmd (pause_read cmd.now)

  unfoldable pub resume : ChangeInput → M Db Campaign
  unfolding resume_read
  resume cmd = with_campaign cmd (resume_read cmd.now)

  unfoldable pub cancel : ChangeInput → M Db Campaign
  unfolding cancel_read
  cancel cmd = with_campaign cmd (cancel_read cmd.now)
