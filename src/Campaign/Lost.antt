-- ===== src/Campaign/Lost.antt =====
-- Two handlers of internal/modules/campaign/app/draft at once: each reads the campaign, tests its
-- status and writes the whole row, outside a transaction.
use send_flow_backend.Prelude.{ℕ, ◌≡◌, refl, some, find?}
use send_flow_backend.Prelude.Search.{find?-test, any_of_find?-some, find?-modify_first}
use send_flow_backend.Effect.{Sys, ◌>>=◌}
use send_flow_backend.Effect.Outcomes.{NoFaults}
use send_flow_backend.Campaign.{Campaign, CampaignStatus}
use send_flow_backend.Campaign.Store.{Db, is_campaign, set_columns, update}
use send_flow_backend.Campaign.Draft.{CampaignPorts, write_back}
use send_flow_backend.Campaign.Change.{cancel_read, pause_read, cancelled_at_time, paused_at_time}

-- What the write of a campaign leaves behind, where a row of its key is stored.
wrote :
    (p : CampaignPorts)
    → NoFaults p.env
    → (c row : Campaign) (s : Sys Db)
    → find? (is_campaign c.workspace_id c.id) s.db.campaigns ≡ some row
    → find? (is_campaign c.workspace_id c.id) (write_back p c s).1.db.campaigns
      ≡ some (set_columns c row)
unfolding ◌>>=◌ write_back update
wrote p calm c row s h =
    rw
      (
        calm s.calls,
        any_of_find?-some (is_campaign c.workspace_id c.id) s.db.campaigns h,
        find?-modify_first (is_campaign c.workspace_id c.id) (set_columns c) s.db.campaigns h
            (find?-test (is_campaign c.workspace_id c.id) s.db.campaigns h),
      )
      refl

-- Where no call fails: if a pause has read a scheduled campaign, and a cancellation of the same
-- campaign then runs to its end, the write of the pause leaves the campaign paused, so that the
-- cancellation is lost.
pub cancellation_lost :
    (p : CampaignPorts)
    → NoFaults p.env
    → (c : Campaign) (s : Sys Db) (t u : ℕ) → c.status ≡ CampaignStatus.scheduled
    → find? (is_campaign c.workspace_id c.id) s.db.campaigns ≡ some c
    → (d : Campaign) × (find?
          (is_campaign c.workspace_id c.id)
          (pause_read p u c (cancel_read p t c s).1).1.db.campaigns
        ≡ some d)
      × (d.status ≡ CampaignStatus.paused)
unfolding cancel_read pause_read
cancellation_lost p calm c s t u scheduled h = rw scheduled (
  _,
  wrote p calm (paused_at_time u c) _ (write_back p (cancelled_at_time t c) s).1
      (wrote p calm (cancelled_at_time t c) c s h),
  refl,
)
