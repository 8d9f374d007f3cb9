-- ===== src/Campaign/Command.antt =====
-- The writing operations of internal/modules/campaign/app/cqrs.go, one command at a time, and in a
-- row.
use send_flow_backend.Prelude.{List, [], ◌∷◌}
use send_flow_backend.Effect.{Sys, M, ◌>>=◌, return}
use send_flow_backend.Campaign.Store.{Db}
use send_flow_backend.Campaign.Draft.{
  CampaignPorts, CreateInput, UpdateInput, create_campaign, update_draft,
}
use send_flow_backend.Campaign.Change.{ChangeInput, pause, resume, cancel}
use send_flow_backend.Campaign.Schedule.{ScheduleInput, schedule}

pub data Command : Type 0 where
  creating : CreateInput → Command
  updating : UpdateInput → Command
  scheduling : ScheduleInput → Command
  pausing : ChangeInput → Command
  resuming : ChangeInput → Command
  cancelling : ChangeInput → Command

abbrev pub forget : {A : Type 0} → M Db A → M Db (Unit {0})
forget m = do a ← m; return tt

-- The command; what it answers is told apart from an error only.
unfoldable pub run : CampaignPorts → Command → M Db (Unit {0})
unfolding create_campaign update_draft schedule pause resume cancel
run p (creating cmd) = forget (create_campaign p cmd)
run p (updating cmd) = forget (update_draft p cmd)
run p (scheduling cmd) = forget (schedule p cmd)
run p (pausing cmd) = forget (pause p cmd)
run p (resuming cmd) = forget (resume p cmd)
run p (cancelling cmd) = forget (cancel p cmd)

-- Commands one after another, each whatever the one before it answered.
unfoldable pub run_all : CampaignPorts → List Command → Sys Db → Sys Db
unfolding run
run_all p [] s = s
run_all p (c ∷ cs) s = run_all p cs (run p c s).1
