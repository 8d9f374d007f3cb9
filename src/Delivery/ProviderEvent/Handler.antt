-- ===== src/Delivery/ProviderEvent/Handler.antt =====
-- internal/modules/delivery/app/process/provider_event.go: `Execute` is `execute`, and its transaction
-- `tx_body`.
use send_flow_backend.Prelude.{ℕ, false, ◌&&◌, ◌||◌, not, Option, none, some, if◌then◌else◌, ◌==◌}
use send_flow_backend.Prelude.Text.{str_eq}
use send_flow_backend.Effect.{
  non_retryable, is_error, Result, ok, err, M, ◌>>=◌, ◌>>◌, return, throw, attempt, call, clock,
  within_tx_leaving,
}
use send_flow_backend.Delivery.Status.{
  MessageStatus, status_eq, classify_provider_event, can_transition_to_status,
}
use send_flow_backend.Delivery.Message.{Message, payload_invalid}
use send_flow_backend.Delivery.Store.{
  Db, find_by_id, find_by_provider_message_id, message_not_found,
}
use send_flow_backend.Delivery.ProviderEvent.Data.{
  Ports, ProviderEventInput, ProviderEventResult, SuppressionResult, ignored, report,
}
use send_flow_backend.Delivery.ProviderEvent.Changes.{change_for}
use send_flow_backend.Delivery.ProviderEvent.Writes.{no_suppression, after_update, perform}

module _ (p : Ports) (input : ProviderEventInput) where
  -- The message is read again and locked; a row that is gone is replaced by the first reading.
  abbrev pub reread_result : Message → Result Message → M Db Message
  reread_result m (ok c) = return c
  reread_result m (err e) = if is_error e message_not_found then return m else throw e

  unfoldable pub reread : Message → M Db Message
  reread m = do r ← attempt (call p.env (find_by_id m.workspace_id m.id)); reread_result m r

  unfoldable pub change_current : MessageStatus → ℕ → Message → M Db SuppressionResult
  change_current target now c =
      if not (can_transition_to_status c.status target)
      then return (no_suppression p input)
      else if status_eq c.status target
      then return (no_suppression p input)
      else perform p input target now (change_for p input target now c)

  unfoldable pub tx_body : MessageStatus → Message → M Db SuppressionResult
  unfolding reread change_current perform change_for after_update
  tx_body target m = do now ← clock p.env; c ← reread m; change_current target now c

  abbrev pub from_id : Result Message → M Db (Option Message)
  from_id (ok m) = return (some m)
  from_id (err e) = if is_error e message_not_found then return none else throw e

  abbrev pub from_provider_id : Result Message → M Db (Option Message)
  from_provider_id (ok m) =
      if not (str_eq input.workspace_id "") && not (str_eq m.workspace_id input.workspace_id)
      then return none
      else return (some m)
  from_provider_id (err e) = if is_error e message_not_found then return none else throw e

  -- The message that the event is about; `none` where the event is ignored.
  unfoldable pub resolve : M Db (Option Message)
  resolve =
      if not (str_eq input.workspace_id "") && not (str_eq input.message_id "")
      then (do r ← attempt (call p.env (find_by_id input.workspace_id input.message_id)); from_id r)
      else if not (str_eq input.provider "") && not (str_eq input.provider_message_id "")
      then (do
        r ←
            attempt
              (call p.env (find_by_provider_message_id input.provider input.provider_message_id))
        from_provider_id r)
      else return none

  abbrev pub wait_for_others : M Db (Unit {0})
  wait_for_others s = (ok tt, record s { db = p.others s.db })

  -- A rollback leaves the suppression entry: the suppression module's repository writes it through the
  -- pool, past the transaction.
  abbrev pub signals_stay : Db → Db → Db
  signals_stay before after = record before { signals = after.signals }

  -- The transaction, and the report of it.
  unfoldable pub run_change : MessageStatus → Message → M Db ProviderEventResult
  run_change target m = do
    wait_for_others
    r ← within_tx_leaving signals_stay p.env (tx_body target m)
    return (report m target r.created r.entry_id)

  unfoldable pub apply_target : MessageStatus → Option Message → M Db ProviderEventResult
  apply_target target none = return ignored
  apply_target target (some m) =
      if not (can_transition_to_status m.status target)
      then return (report m m.status false "")
      else if status_eq target m.status
      then return (report m m.status false "")
      else run_change target m

  unfoldable pub handle : Option MessageStatus → M Db ProviderEventResult
  handle none = return ignored
  handle (some target) = do m ← resolve; apply_target target m

  unfoldable pub execute : M Db ProviderEventResult
  unfolding handle resolve apply_target run_change tx_body
  execute =
      if str_eq input.event_id "" || str_eq input.provider "" || str_eq input.event_type ""
      then throw (non_retryable payload_invalid)
      else if input.occurred_at == 0 || input.received_at == 0
      then throw (non_retryable payload_invalid)
      else handle (classify_provider_event input.event_type)
