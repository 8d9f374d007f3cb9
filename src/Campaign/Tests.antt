-- ===== src/Campaign/Tests.antt =====
-- Runs of the commands on campaigns.
use send_flow_backend.Prelude.{
  false, ℕ, String, true, ◌≡◌, refl, List, [], ◌∷◌, Option, none, some, if◌then◌else◌, ◌==◌, find?,
  map,
}
use send_flow_backend.Effect.{Error, failure, is_error, ok, err, Env, Sys, ◌>>=◌}
use send_flow_backend.Events.{new_envelope, marshal, is_blank}
use send_flow_backend.Campaign.{Campaign, CampaignStatus}
use send_flow_backend.Campaign.Store.{Db, is_campaign, find_by_id, update, replace_candidates, save}
use send_flow_backend.Campaign.Draft.{CampaignPorts, Recipient}
use send_flow_backend.Campaign.Change.{ChangeInput, cancel_read, pause_read}
use send_flow_backend.Campaign.Schedule.{ScheduleInput, ScheduleResult, candidate, schedule}
use send_flow_backend.Campaign.Command.{
  Command, scheduling, pausing, resuming, cancelling, run, run_all,
}
use send_flow_backend.Campaign.Moves.{Action, Steps}
use send_flow_backend.Campaign.Closed.{KeepsFinal, run_moves, run_undoes, run_all-KeepsFinal}
use send_flow_backend.Campaign.Candidates.{Recorded, schedule_records}
use send_flow_backend.Campaign.Lost.{cancellation_lost}

abbrev env_with : (ℕ → Option Error) → Env
env_with fault = record { fault = fault; kept = λ n. false; new_id = λ n. ok "id"; now = λ n. 100 }

abbrev calm_env : Env
calm_env = env_with (λ n. none)

-- The ninth call, the save of the event in the transaction of a schedule, fails.
abbrev outbox_down : Env
outbox_down = env_with (λ n. if n == 8 then some (failure "down") else none)

abbrev reader : String → Recipient
reader id = record {
  contact_id = id;
  email = "a@b.c";
  email_normalized = "a@b.c";
  first_name = "";
  last_name = "";
  tags = [];
  attributes = "{}";
}

abbrev ports : Env → CampaignPorts
ports env = record {
  env = env;
  require_permission = λ w u q. ok tt;
  sender_ready = λ w d. ok (some true);
  published_version = λ w t. ok (some "v1");
  validate_renderable = λ w t. ok tt;
  resolve_recipients = λ w u r. ok (reader "p1" ∷ reader "p2" ∷ []);
  json = record { encode_payload = λ x. ok "payload"; encode_envelope = λ e. ok "envelope" };
  encode_audience = λ r. ok "audience";
  format_time = λ t. "time";
  refuses_campaign = λ c cs. none;
  refuses_candidates = λ cs ds. none;
}

abbrev campaign : String → CampaignStatus → Campaign
campaign id status = record {
  id = id;
  workspace_id = "w1";
  name = "n";
  status = status;
  audience_ref = record { audience_type = "list"; id = "l1"; contact_ids = [] };
  template_ref = record { template_id = "t1"; template_version_id = "" };
  sender_domain_id = "d1";
  message_type = "marketing";
  scheduled_at = none;
  planned_recipients = 0;
  created_at = 1;
  updated_at = 1;
  cancelled_at = none;
  paused_at = none;
  completed_at = none;
}

abbrev stored : Sys Db
stored = record {
  db = record {
    campaigns =
        campaign "c1" CampaignStatus.cancelled
        ∷ campaign "c2" CampaignStatus.draft
        ∷ campaign "c3" CampaignStatus.scheduled
        ∷ [];
    candidates = [];
    outbox = [];
  };
  calls = 0;
}

abbrev second : ScheduleInput
second = record {
  workspace_id = "w1";
  campaign_id = "c2";
  user_id = "u1";
  scheduled_at = none;
  now = 7;
}

abbrev schedule_second : Command
schedule_second = scheduling second

abbrev answered : ScheduleResult
answered = record {
  campaign = record (campaign "c2" CampaignStatus.scheduled) {
    template_ref = record { template_id = "t1"; template_version_id = "v1" };
    planned_recipients = 2;
    scheduled_at = some 7;
    updated_at = 7;
  };
  candidates =
      candidate (ports calm_env) second (campaign "c2" CampaignStatus.draft) (reader "p1") "id"
      ∷ candidate (ports calm_env) second (campaign "c2" CampaignStatus.draft) (reader "p2") "id"
      ∷ [];
}

abbrev on_campaign : String → ChangeInput
on_campaign id = record { workspace_id = "w1"; campaign_id = id; user_id = "u1"; now = 8 }

-- The schedule succeeds, and the draft is scheduled.
second_is_scheduled :
    map (λ (c : Campaign). c.status) (run (ports calm_env) schedule_second stored).1.db.campaigns
    ≡ CampaignStatus.cancelled ∷ CampaignStatus.scheduled ∷ CampaignStatus.scheduled ∷ []
unfolding run find_by_id update replace_candidates save new_envelope marshal is_blank is_error ◌>>=◌
second_is_scheduled = refl

run_moves_example :
    Steps Action.scheduling stored.db.campaigns
      (run (ports calm_env) schedule_second stored).1.db.campaigns
run_moves_example = run_moves (ports calm_env) schedule_second stored

fails_in_transaction : (run (ports outbox_down) schedule_second stored).0 ≡ err (failure "down")
unfolding run find_by_id update replace_candidates save new_envelope marshal is_blank is_error ◌>>=◌
fails_in_transaction = refl

run_undoes_example : (run (ports outbox_down) schedule_second stored).1.db ≡ stored.db
run_undoes_example =
    run_undoes (ports outbox_down) schedule_second stored (failure "down") (λ n. refl)
      fails_in_transaction

-- A cancelled campaign is not resumed, paused, cancelled again or scheduled.
abbrev commands : List Command
commands =
    cancelling (on_campaign "c3")
    ∷ resuming (on_campaign "c1")
    ∷ pausing (on_campaign "c1")
    ∷ schedule_second
    ∷ resuming (on_campaign "c3")
    ∷ []

run_all-KeepsFinal_example :
    KeepsFinal stored.db.campaigns (run_all (ports calm_env) commands stored).db.campaigns
run_all-KeepsFinal_example = run_all-KeepsFinal (ports calm_env) commands stored

abbrev third : Campaign
third = campaign "c3" CampaignStatus.scheduled

cancellation_lost_example :
    (d : Campaign) × (find?
        (is_campaign "w1" "c3")
        (pause_read
          (ports calm_env)
          9
          third
          (cancel_read (ports calm_env) 8 third stored).1).1.db.campaigns
      ≡ some d)
    × (d.status ≡ CampaignStatus.paused)
cancellation_lost_example =
    cancellation_lost (ports calm_env) (λ n. refl) third stored 8 9 refl refl

schedules_second :
    schedule (ports calm_env) second stored
    ≡ (ok answered, (schedule (ports calm_env) second stored).1)
unfolding schedule find_by_id update replace_candidates save new_envelope marshal is_blank is_error
    ◌>>=◌
schedules_second = refl

schedule_records_example :
    Recorded
      (ports calm_env)
      second
      stored.db
      answered
      (schedule (ports calm_env) second stored).1.db
schedule_records_example =
    schedule_records (ports calm_env) second stored answered
      (schedule (ports calm_env) second stored).1 schedules_second
