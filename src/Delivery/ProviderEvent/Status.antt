-- ===== src/Delivery/ProviderEvent/Status.antt =====
-- What a provider event does to the statuses of the stored messages.
use send_flow_backend.Prelude.{
  false, ◌&&◌, ◌||◌, Option, none, some, find?, Bool-cases, inl, inr, not, ◌==◌,
}
use send_flow_backend.Prelude.Text.{str_eq}
use send_flow_backend.Effect.{non_retryable, is_error, Result, ok, err, Sys}
use send_flow_backend.Effect.Rules.{
  Keeps, Keeps-return, Keeps-throw, Keeps-bind, Keeps-then, Keeps-attempt, Keeps-call,
  Keeps-within_tx_leaving,
}
use send_flow_backend.Delivery.Status.{
  MessageStatus, can_transition_to_status, status_eq, classify_provider_event,
}
use send_flow_backend.Delivery.Message.{Message, payload_invalid}
use send_flow_backend.Delivery.Store.{Db, find_by_provider_message_id, message_not_found}
use send_flow_backend.Delivery.Store.Moves.{Moved, moves}
use send_flow_backend.Delivery.ProviderEvent.Data.{Ports, ProviderEventInput, ignored, report}
use send_flow_backend.Delivery.ProviderEvent.Handler.{
  signals_stay, resolve, apply_target, run_change, handle, execute, from_id, from_provider_id,
}
use send_flow_backend.Delivery.ProviderEvent.Locked.{
  HonestFaults, found_moves, find_by_id-Keeps, tx_body-Keeps,
}

module _ (p : Ports) (input : ProviderEventInput) where
  from_id-Keeps : (r : Result Message) → Keeps moves (from_id p input r)
  from_id-Keeps (ok m) = Keeps-return moves (some m)
  from_id-Keeps (err e) = elim (Bool-cases (is_error e message_not_found)) [
    | inl h ↦ rw h (Keeps-return moves none)
    | inr h ↦ rw h (Keeps-throw moves e)
  ]

  from_provider_id-Keeps : (r : Result Message) → Keeps moves (from_provider_id p input r)
  from_provider_id-Keeps (ok m) =
      elim (Bool-cases
        (not (str_eq input.workspace_id "") && not (str_eq m.workspace_id input.workspace_id))) [
          | inl h ↦ rw h (Keeps-return moves none)
          | inr h ↦ rw h (Keeps-return moves (some m))
        ]
  from_provider_id-Keeps (err e) = elim (Bool-cases (is_error e message_not_found)) [
    | inl h ↦ rw h (Keeps-return moves none)
    | inr h ↦ rw h (Keeps-throw moves e)
  ]

  resolve-Keeps : Keeps moves (resolve p input)
  unfolding resolve find_by_provider_message_id
  resolve-Keeps =
      elim (Bool-cases (not (str_eq input.workspace_id "") && not (str_eq input.message_id ""))) [
        | inl h ↦ rw h (
            Keeps-bind moves
              (Keeps-attempt moves (find_by_id-Keeps p input input.workspace_id input.message_id))
              from_id-Keeps)
        | inr h ↦
            elim (Bool-cases
              (not (str_eq input.provider "") && not (str_eq input.provider_message_id ""))) [
                | inl k ↦
                    rw (h, k)
                      (Keeps-bind moves
                        (Keeps-attempt moves
                          (Keeps-call moves p.env _ (λ d. found_moves (find? _ d.messages) _ d)))
                        from_provider_id-Keeps)
                | inr k ↦ rw (h, k) (Keeps-return moves none)
              ]
      ]

  module _ (honest : HonestFaults p.env)
      (others : (d : Db) → Moved d.messages (p.others d).messages) where
    apply_target-Keeps :
        (target : MessageStatus) (o : Option Message) → Keeps moves (apply_target p input target o)
    unfolding apply_target run_change
    apply_target-Keeps target none = Keeps-return moves ignored
    apply_target-Keeps target (some m) =
        elim (Bool-cases (can_transition_to_status m.status target)) [
          | inr e ↦ rw e (Keeps-return moves (report m m.status false ""))
          | inl e ↦ elim (Bool-cases (status_eq target m.status)) [
            | inl e' ↦ rw (e, e') (Keeps-return moves (report m m.status false ""))
            | inr e' ↦
                rw (e, e')
                  (Keeps-then moves (record { moves = λ s. others s.db })
                    (Keeps-bind moves
                      (Keeps-within_tx_leaving moves (signals_stay p input) p.env
                        (λ d e h. moves.same d) (tx_body-Keeps p input honest target m))
                      (λ r. Keeps-return moves (report m target r.created r.entry_id))))
          ]
        ]

    handle-Keeps : (o : Option MessageStatus) → Keeps moves (handle p input o)
    unfolding handle
    handle-Keeps none = Keeps-return moves ignored
    handle-Keeps (some target) = Keeps-bind moves resolve-Keeps (apply_target-Keeps target)

    execute-Keeps : Keeps moves (execute p input)
    unfolding execute
    execute-Keeps =
        elim (Bool-cases
          (str_eq input.event_id "" || str_eq input.provider "" || str_eq input.event_type "")) [
            | inl e ↦ rw e (Keeps-throw moves (non_retryable payload_invalid))
            | inr e ↦ elim (Bool-cases (input.occurred_at == 0 || input.received_at == 0)) [
              | inl e' ↦ rw (e, e') (Keeps-throw moves (non_retryable payload_invalid))
              | inr e' ↦ rw (e, e') (handle-Keeps (classify_provider_event input.event_type))
            ]
          ]

-- Whatever calls fail, an execution of the handler only moves messages along allowed transitions:
-- no message appears or disappears, and each ends in a status that it reaches by steps of
-- `CanTransitionToStatus`; this holds if other workers commit only such moves in between, and if only
-- a read that finds no row says that the message is missing.
pub execute_moves :
    (p : Ports) (input : ProviderEventInput)
    → HonestFaults p.env
    → ((d : Db) → Moved d.messages (p.others d).messages)
    → (s : Sys Db) → Moved s.db.messages (execute p input s).1.db.messages
execute_moves p input honest others s = (execute-Keeps p input honest others).moves s
