-- ===== src/Delivery/ProviderEvent/Atomic.antt =====
-- What a provider event that fails leaves.
use send_flow_backend.Prelude.{
  subst, String, ◌≡◌, refl, sym, ap, ◌∙◌, ◌⊎◌, inl, inr, false, ◌&&◌, ◌||◌, not, Option, none, some,
  Bool-cases, ◌==◌, find?,
}
use send_flow_backend.Prelude.Text.{str_eq}
use send_flow_backend.Effect.{
  Error, non_retryable, is_error, Result, ok, err, Sys, tick, M, ◌>>◌, return, throw,
  within_tx_leaving,
}
use send_flow_backend.Effect.Rules.{
  Preorder, Keeps, Keeps-return, Keeps-throw, Keeps-bind, Keeps-attempt, Keeps-call,
  within_tx_leaving_err, CommitsTold,
}
use send_flow_backend.Effect.Outcomes.{bind-eq-err, bind-return-eq-err}
use send_flow_backend.Delivery.Status.{
  MessageStatus, can_transition_to_status, status_eq, classify_provider_event,
}
use send_flow_backend.Delivery.Message.{Message, payload_invalid}
use send_flow_backend.Delivery.Store.{
  Db, found, find_by_id, find_by_provider_message_id, message_not_found,
}
use send_flow_backend.Delivery.ProviderEvent.Data.{Ports, ProviderEventInput, ignored, report}
use send_flow_backend.Delivery.ProviderEvent.Handler.{
  signals_stay, tx_body, from_id, from_provider_id, resolve, run_change, apply_target, handle,
  execute,
}

-- The database is left as it is.
abbrev same : Preorder Db
same = record { Rel = λ d e. e ≡ d; same = λ d. refl; both = λ a b c h k. k ∙ h }

found_same : {A : Type 0} (o : Option A) (missing : String) (d : Db) → (found o missing d).1 ≡ d
found_same none missing d = refl
found_same (some a) missing d = refl

module _ (p : Ports) (input : ProviderEventInput) where
  from_id_same : (r : Result Message) → Keeps same (from_id p input r)
  from_id_same (ok m) = Keeps-return same (some m)
  from_id_same (err e) = elim (Bool-cases (is_error e message_not_found)) [
    | inl h ↦ rw h (Keeps-return same none)
    | inr h ↦ rw h (Keeps-throw same e)
  ]

  from_provider_id_same : (r : Result Message) → Keeps same (from_provider_id p input r)
  from_provider_id_same (ok m) =
      elim (Bool-cases
        (not (str_eq input.workspace_id "") && not (str_eq m.workspace_id input.workspace_id))) [
          | inl h ↦ rw h (Keeps-return same none)
          | inr h ↦ rw h (Keeps-return same (some m))
        ]
  from_provider_id_same (err e) = elim (Bool-cases (is_error e message_not_found)) [
    | inl h ↦ rw h (Keeps-return same none)
    | inr h ↦ rw h (Keeps-throw same e)
  ]

  -- Finding the message reads and does not write.
  pub resolve_same : Keeps same (resolve p input)
  unfolding resolve find_by_id find_by_provider_message_id
  resolve_same =
      elim (Bool-cases (not (str_eq input.workspace_id "") && not (str_eq input.message_id ""))) [
        | inl h ↦ rw h (
            Keeps-bind same
              (Keeps-attempt same
                (Keeps-call same p.env _ (λ d. found_same (find? _ d.messages) _ d)))
              from_id_same)
        | inr h ↦
            elim (Bool-cases
              (not (str_eq input.provider "") && not (str_eq input.provider_message_id ""))) [
                | inl k ↦
                    rw (h, k)
                      (Keeps-bind same
                        (Keeps-attempt same
                          (Keeps-call same p.env _ (λ d. found_same (find? _ d.messages) _ d)))
                        from_provider_id_same)
                | inr k ↦ rw (h, k) (Keeps-return same none)
              ]
      ]

  -- The second database is the first but for the suppression entries.
  abbrev pub SameButSignals : Db → Db → Type 0
  SameButSignals d e = e ≡ record d { signals = e.signals }

  SameButSignals-of_stay :
      (d u e : Db) → (e ≡ d) ⊎ (e ≡ signals_stay p input d u) → SameButSignals d e
  SameButSignals-of_stay d u e (inl h) = subst (SameButSignals d) (sym h) refl
  SameButSignals-of_stay d u e (inr h) = subst (SameButSignals d) (sym h) refl

  module _ (told : CommitsTold p.env) where
    -- An answer that is an error leaves what other workers had made of the database, but for
    -- suppression entries.
    record Fails {A : Type 0} (m : M Db A) : Type 0 where
      leaves :
          (s : Sys Db) (e : Error) → (m s).0 ≡ err e → SameButSignals (p.others s.db) (m s).1.db

    return-Fails : {A : Type 0} (a : A) → Fails (return a)
    unfolding return
    return-Fails a = record { leaves = λ s e h. cc }

    run_change-Fails : (target : MessageStatus) (m : Message) → Fails (run_change p input target m)
    unfolding run_change ◌>>◌
    run_change-Fails target m = record {
      leaves = λ s e h.
          let s' : Sys Db = record s { db = p.others s.db } in
          let tx = within_tx_leaving (signals_stay p input) p.env (tx_body p input target m) in
          let (failed, after) =
            bind-return-eq-err tx (λ r. report m target r.created r.entry_id) s' h in
          subst (λ (t : Sys Db). SameButSignals (p.others s.db) t.db) (sym after)
            (SameButSignals-of_stay (p.others s.db) (tx_body p input target m (tick s')).1.db
              (tx s').1.db
              (within_tx_leaving_err p.env (signals_stay p input) (tx_body p input target m) s' told
                failed));
    }

    apply_target-Fails :
        (target : MessageStatus) (o : Option Message) → Fails (apply_target p input target o)
    unfolding apply_target
    apply_target-Fails target none = return-Fails ignored
    apply_target-Fails target (some m) =
        elim (Bool-cases (can_transition_to_status m.status target)) [
          | inr e ↦ rw e (return-Fails (report m m.status false ""))
          | inl e ↦ elim (Bool-cases (status_eq target m.status)) [
            | inl e' ↦ rw (e, e') (return-Fails (report m m.status false ""))
            | inr e' ↦ rw (e, e') (run_change-Fails target m)
          ]
        ]

    record FailsUntouched {A : Type 0} (m : M Db A) : Type 0 where
      leaves_either :
          (s : Sys Db) (e : Error)
          → (m s).0 ≡ err e
          → ((m s).1.db ≡ s.db) ⊎ SameButSignals (p.others s.db) (m s).1.db

    throw_fails : {A : Type 0} (x : Error) → FailsUntouched {A = A} (throw x)
    unfolding throw
    throw_fails x = record { leaves_either = λ s e h. inl refl }

    handle_fails : (o : Option MessageStatus) → FailsUntouched (handle p input o)
    unfolding handle return
    handle_fails none = record { leaves_either = λ s e h. cc }
    handle_fails (some target) = record {
      leaves_either = λ s e h.
          elim (bind-eq-err (resolve p input) (apply_target p input target) s h) [
            | inl (failed, after) ↦ inl (ap (λ (t : Sys Db). t.db) after ∙ resolve_same.moves s)
            | inr (o, t, read, rest, failed) ↦
                let kept : t.db ≡ s.db = ap (λ r. r.1.db) (sym read) ∙ resolve_same.moves s in
                inr (
                  subst (λ (r : _ × Sys Db). SameButSignals (p.others s.db) r.1.db) (sym rest)
                    (subst (λ d. SameButSignals (p.others d) (apply_target p input target o t).1.db)
                      kept ((apply_target-Fails target o).leaves t e failed)))
          ];
    }

    execute_fails : FailsUntouched (execute p input)
    unfolding execute
    execute_fails =
        elim (Bool-cases
          (str_eq input.event_id "" || str_eq input.provider "" || str_eq input.event_type "")) [
            | inl e ↦ rw e (throw_fails (non_retryable payload_invalid))
            | inr e ↦ elim (Bool-cases (input.occurred_at == 0 || input.received_at == 0)) [
              | inl e' ↦ rw (e, e') (throw_fails (non_retryable payload_invalid))
              | inr e' ↦ rw (e, e') (handle_fails (classify_provider_event input.event_type))
            ]
          ]

-- Where a commit that answers an error has not been done: whichever call fails, at whatever point,
-- when the handler returns an error, the database is what it was, or what other workers had made of
-- it by the start of the transaction, but for the suppression entries, which are written past the
-- transaction. Nothing of the message's update, its event log, the request's counters or the outbox
-- remains.
pub execute_atomic :
    (p : Ports) (input : ProviderEventInput) (s : Sys Db) {e : Error}
    → CommitsTold p.env
    → (execute p input s).0 ≡ err e
    → ((execute p input s).1.db ≡ s.db)
      ⊎ SameButSignals p input (p.others s.db) (execute p input s).1.db
execute_atomic p input s told h = (execute_fails p input told).leaves_either s _ h
