-- ===== src/Delivery/ProviderEvent/Report.antt =====
-- What the handler reports and counts, where that is not what it did.
use send_flow_backend.Prelude.{ℕ, suc, ◌≡◌, refl, false, some, find?}
use send_flow_backend.Effect.{ok, Sys, tick, ◌>>=◌, return}
use send_flow_backend.Effect.Outcomes.{NoFaults, calm_within_tx_leaving}
use send_flow_backend.Delivery.Status.{MessageStatus, can_transition_to_status}
use send_flow_backend.Delivery.Message.{Message}
use send_flow_backend.Delivery.Store.{Db, found, find_by_id, is_message}
use send_flow_backend.Delivery.ProviderEvent.Data.{Ports, ProviderEventInput, report}
use send_flow_backend.Delivery.ProviderEvent.Writes.{no_suppression}
use send_flow_backend.Delivery.ProviderEvent.Handler.{
  signals_stay, reread, change_current, tx_body, run_change,
}

module _ (p : Ports) (input : ProviderEventInput) (calm : NoFaults p.env) where
  reread_row :
      (m c : Message) (s : Sys Db)
      → find? (is_message m.workspace_id m.id) s.db.messages ≡ some c
      → reread p input m s ≡ (ok c, tick s)
  unfolding reread find_by_id ◌>>=◌
  reread_row m c s f = rw (calm s.calls, f, found)

  change_refused :
      (target : MessageStatus) (now : ℕ) (c : Message)
      → can_transition_to_status c.status target ≡ false
      → change_current p input target now c ≡ return (no_suppression p input)
  unfolding change_current
  change_refused target now c h = rw h

  tx_body_skipped :
      (target : MessageStatus) (m c : Message) (s : Sys Db)
      → find? (is_message m.workspace_id m.id) s.db.messages ≡ some c
      → can_transition_to_status c.status target ≡ false
      → tx_body p input target m s ≡ (ok (no_suppression p input), tick (tick s))
  unfolding tx_body ◌>>=◌
  tx_body_skipped target m c s f h =
      rw (reread_row m c (tick s) f, change_refused target (p.env.now s.calls) c h)

  -- With no failing call: when the row that the transaction reads, after other workers, may no longer
  -- move to the target, the handler writes nothing, and reports the event handled, with the target
  -- as the message's new status.
  pub skipped_change_reported :
      (target : MessageStatus) (m c : Message) (s : Sys Db)
      → find? (is_message m.workspace_id m.id) (p.others s.db).messages ≡ some c
      → can_transition_to_status c.status target ≡ false
      → ((run_change p input target m s).0 ≡ ok (report m target false ""))
        × ((run_change p input target m s).1.db ≡ p.others s.db)
  unfolding run_change ◌>>=◌
  skipped_change_reported target m c s f h =
      rw
        (calm_within_tx_leaving (signals_stay p input) p.env calm (tx_body p input target m)
          (record s { db = p.others s.db })
          (tx_body_skipped target m c (record { db = p.others s.db; calls = suc s.calls }) f h))
        (refl, refl)
