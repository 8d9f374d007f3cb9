-- ===== src/Webhooks/Worker.antt =====
-- internal/apps/worker/due_webhook_consumer.go, `HandleEvent` from the claim on: `handle_due`. With
-- the handlers of the other messages and of the API that write deliveries: `run`.
use send_flow_backend.Prelude.{ℕ, String, Bool, List, [], ◌∷◌}
use send_flow_backend.Effect.{Result, Sys, M, ◌>>=◌, ◌>>◌, return, ignore_error, call}
use send_flow_backend.Webhooks.{WebhookDelivery}
use send_flow_backend.Webhooks.Store.{Db, claim_pending_deliveries}
use send_flow_backend.Webhooks.Deliver.{WebhookPorts}
use send_flow_backend.Webhooks.Process.{process}
use send_flow_backend.Webhooks.Retry.{retry}
use send_flow_backend.Webhooks.Source.{SourceEvent, handle}

-- `locked` are the rows that another worker's claim holds, `limit` a number that is not negative.
pub data Command : Type 0 where
  due : (WebhookDelivery → Bool) → ℕ → ℕ → Command
  source_event : String → Command
  retrying : String → String → String → Command

module _ (p : WebhookPorts) where
  unfoldable pub process_each : List WebhookDelivery → M Db (Unit {0})
  unfolding process
  process_each [] = return tt
  process_each (d ∷ ds) = do ignore_error (process p d.workspace_id d.id); process_each ds

  unfoldable pub handle_due : (WebhookDelivery → Bool) → ℕ → ℕ → M Db (Unit {0})
  unfolding process_each
  handle_due locked limit now = do
    ds ← call p.env (claim_pending_deliveries locked limit now)
    process_each ds

  module _ (decode : String → Result SourceEvent) where
    unfoldable pub run : Command → M Db (Unit {0})
    unfolding handle_due handle retry
    run (due locked limit now) = handle_due locked limit now
    run (source_event raw) = handle p decode raw
    run (retrying workspace_id user_id id) = retry p workspace_id user_id id

    -- One command after another, each whatever the one before it answered.
    unfoldable pub run_all : List Command → Sys Db → Sys Db
    unfolding run
    run_all [] s = s
    run_all (c ∷ cs) s = run_all cs (run c s).1
