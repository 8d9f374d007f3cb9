-- ===== src/Delivery/Due/Exhausted.antt =====
-- What is left of a retry state when the retries are used up.
use send_flow_backend.Prelude.{
  ℕ, String, ◌≡◌, refl, ◌∙◌, Bool, true, false, ◌≤◌, Option, some, none, any, leb, arith,
}
use send_flow_backend.Effect.{Error, Result, ok, err, Sys, ◌>>=◌, answer}
use send_flow_backend.Effect.Rules.{Preorder}
use send_flow_backend.Delivery.Message.{Message, DeliveryAttempt, RetryState}
use send_flow_backend.Delivery.Store.{Db, affected, find_retry_state}
use send_flow_backend.Delivery.Due.Data.{DuePorts, default_max_retries, finished_attempt}
use send_flow_backend.Delivery.Due.Retry.{handle_temporary_failure, on_retry_state}
use send_flow_backend.Delivery.Due.Writes.{AllowsWrites, fail_message_with_attempt-Keeps}

-- The retry states are left as they are.
abbrev unretried : Preorder Db
unretried = record {
  Rel = λ d e. e.retry_states ≡ d.retry_states;
  same = λ d. refl;
  both = λ a b c h k. k ∙ h;
}

affected_unretried :
    (b : Bool) (missing : String) (d e : Db)
    → e.retry_states ≡ d.retry_states
    → (affected b missing d e).1.retry_states ≡ d.retry_states
affected_unretried true missing d e h = h
affected_unretried false missing d e h = refl

writes : (workspace_id id : String) → AllowsWrites unretried workspace_id id
writes workspace_id id = record {
  any_change = λ change d keys. affected_unretried (any _ d.messages) _ d _ refl;
  any_attempts = λ d xs. refl;
  any_requests = λ d xs. refl;
  any_events = λ d xs. refl;
  any_outbox = λ d xs. refl;
}

module _ (p : DuePorts) (now : ℕ) (m : Message) (a : DeliveryAttempt) (text : String) where
  exhausted_keeps :
      (o : Result (Option RetryState)) (r : RetryState) (s : Sys Db)
      → default_max_retries ≤ r.retry_count
      → o ≡ ok (some r)
      → (on_retry_state p now m a text o s).1.db.retry_states ≡ s.db.retry_states
  exhausted_keeps (err e) r s h k = cc
  exhausted_keeps (ok none) r s h k = cc
  exhausted_keeps (ok (some q)) r s h k =
      let same : q ≡ r = cc in
      let full : leb default_max_retries q.retry_count ≡ true = rw same (ground arith) in
      rw full ((fail_message_with_attempt-Keeps unretried p now m (writes _ _) a _ _).moves s)

  failed_keeps :
      (e : Error) (s : Sys Db)
      → (on_retry_state p now m a text (err e) s).1.db.retry_states ≡ s.db.retry_states
  failed_keeps e s = (fail_message_with_attempt-Keeps unretried p now m (writes _ _) a _ _).moves s

-- When a message fails for now and its retry state counts the greatest number of retries, or more,
-- the handler stores no change of any retry state, whatever calls fail: that the retries are
-- exhausted is not recorded.
pub exhausted_not_recorded :
    (p : DuePorts) (now : ℕ) (m : Message) (a : DeliveryAttempt) (text : String) (s : Sys Db)
    (r : RetryState)
    → (find_retry_state m.workspace_id m.id s.db).0 ≡ ok (some r)
    → default_max_retries ≤ r.retry_count
    → (handle_temporary_failure p now m a text s).1.db.retry_states ≡ s.db.retry_states
unfolding handle_temporary_failure find_retry_state ◌>>=◌
exhausted_not_recorded p now m a text s r found many = go (p.env.fault s.calls)
  where
    b : DeliveryAttempt
    b = finished_attempt p now a "temporary_failed" "provider_temporary_failure" text

    go :
        (fault : Option Error)
        → (let x = answer fault (find_retry_state m.workspace_id m.id) s in
            (on_retry_state p now m b text x.0 x.1).1.db.retry_states)
          ≡ s.db.retry_states
    go none = exhausted_keeps p now m b text _ r _ many found
    go (some e) = failed_keeps p now m b text e _
