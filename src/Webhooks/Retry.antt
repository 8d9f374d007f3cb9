-- ===== src/Webhooks/Retry.antt =====
-- internal/modules/webhooks/app/delivery/retry.go: `Execute` is `retry`. An error of the
-- search for the configuration is passed on whole; the source answers the bare `ErrConfigNotFound`.
use send_flow_backend.Prelude.{ℕ, suc, String, if◌then◌else◌}
use send_flow_backend.Effect.{sentinel, M, ◌>>=◌, ◌>>◌, throw, lift, call, clock, within_tx}
use send_flow_backend.Webhooks.{
  WebhookConfig, WebhookDelivery, can_delivery_be_retried, retry_conflict, config_disabled,
}
use send_flow_backend.Webhooks.Store.{
  Db, shown, is_active, find_delivery, find_config, mark_delivering, create_attempt,
}
use send_flow_backend.Webhooks.Deliver.{WebhookPorts, DeliverResult, deliver}
use send_flow_backend.Webhooks.Process.{
  Outcome, has_succeeded, has_failed, mark, outcome_event, announce, deliver_command,
}

module _ (p : WebhookPorts) where
  abbrev pub retry_outcome : DeliverResult → Outcome
  retry_outcome r = if r.success then has_succeeded else has_failed

  -- The delivery of the command's workspace was read, so its keys are the command's.
  unfoldable pub retry_body : WebhookDelivery → WebhookConfig → DeliverResult → ℕ → M Db (Unit {0})
  unfolding mark announce
  retry_body d cfg r now = do
    mark p d r (retry_outcome r)
    call p.env (create_attempt p.refuses_attempt r.attempt)
    announce p (outcome_event p d cfg r now (retry_outcome r))

  unfoldable pub try_again : WebhookDelivery → WebhookConfig → M Db (Unit {0})
  unfolding retry_body
  try_again d cfg = do
    now ← clock p.env
    call p.env (mark_delivering d.id now)
    r ← deliver p (deliver_command p d cfg d.id (suc d.attempt_count))
    within_tx p.env (retry_body d cfg r now)

  unfoldable pub retry_read : WebhookDelivery → M Db (Unit {0})
  unfolding try_again
  retry_read d =
      if can_delivery_be_retried d.status
      then (do
        cfg ← call p.env (shown p.read_pool (find_config d.workspace_id d.webhook_id))
        (if is_active cfg.status then try_again d cfg else throw (sentinel config_disabled)))
      else throw (sentinel retry_conflict)

  unfoldable pub retry : String → String → String → M Db (Unit {0})
  unfolding retry_read
  retry workspace_id user_id id = do
    lift (p.require_permission workspace_id user_id "webhook.delivery.retry")
    d ← call p.env (shown p.read_pool (find_delivery workspace_id id))
    retry_read d
