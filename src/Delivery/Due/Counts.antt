-- ===== src/Delivery/Due/Counts.antt =====
-- The counts that `ProcessDueMessages` reports.
use send_flow_backend.Prelude.{
  take, ℕ, zero, suc, ◌+◌, ◌≤◌, String, ◌≡◌, refl, ap, ◌∙◌, subst, Bool, not, List, [], ◌∷◌, map,
  length, Option, none, some, Bool-cases, inl, inr, arith, ◌==◌,
}
use send_flow_backend.Prelude.Text.{str_eq}
use send_flow_backend.Effect.{Error, Result, ok, err, Sys, ◌>>=◌, call, answer, throw}
use send_flow_backend.Effect.Rules.{ok_answer, err_answer}
use send_flow_backend.Effect.Outcomes.{bind-eq-ok}
use send_flow_backend.Delivery.Message.{Message, valid_message_type}
use send_flow_backend.Delivery.Store.{Db}
use send_flow_backend.Delivery.Due.Data.{
  Outcome, status_accepted, status_failed, status_retry_scheduled, DuePorts,
}
use send_flow_backend.Delivery.Due.Process.{process_message}
use send_flow_backend.Delivery.Due.Claim.{
  claimed, claim_due_messages, clamped_limit, ProcessDueMessagesResult, counted, run_pipeline,
  process_due_messages, nothing_counted, sorted_due, is_due,
}

abbrev pub total : ProcessDueMessagesResult → ℕ
total r = r.accepted_count + r.failed_count + r.retry_scheduled_count

counted-total :
    (o : Result Outcome) (r : ProcessDueMessagesResult)
    → (total (counted o r) ≤ suc (total r)) × ((counted o r).selected_count ≡ r.selected_count)
counted-total (err e) r = (omega arith, refl)
counted-total (ok status_accepted) r = (omega arith, refl)
counted-total (ok status_failed) r = (omega arith, refl)
counted-total (ok status_retry_scheduled) r = (omega arith, refl)

length-take_le : (n : ℕ) (ms : List Message) → length (take n ms) ≤ n
length-take_le zero ms = omega arith
length-take_le (suc n) [] = omega arith
length-take_le (suc n) (m ∷ ms) = omega (arith, length-take_le n ms)

length-map : (f : Message → Message) (ms : List Message) → length (map f ms) ≡ length ms
length-map f [] = refl
length-map f (m ∷ ms) = ap suc (length-map f ms)

clamped_limit_le : (n : ℕ) → clamped_limit n ≤ 100
clamped_limit_le n = ground arith

module _ (p : DuePorts) (locked : Message → Bool) where
  run_pipeline_counts :
      (now : ℕ) (ms : List Message) (r : ProcessDueMessagesResult) (s t : Sys Db)
      {q : ProcessDueMessagesResult}
      → run_pipeline p locked now ms r s ≡ (ok q, t)
      → (total q ≤ total r + length ms) × (q.selected_count ≡ r.selected_count)
  unfolding run_pipeline ◌>>=◌
  run_pipeline_counts now [] r s t {q} h =
      let same = (ok_answer h).0 in
      subst
        (λ (x : ProcessDueMessagesResult).
          (total x ≤ total r + 0) × (x.selected_count ≡ r.selected_count))
        same (omega arith, refl)
  run_pipeline_counts now (m ∷ ms) r s t {q} h =
      let x = process_message p now m s in
      let (fewer, same) = counted-total x.0 r in
      let (rest, kept) = run_pipeline_counts now ms (counted x.0 r) x.1 t h in
      (omega (arith, fewer, rest), kept ∙ same)

  claim_length :
      (workspace_id message_type : String) (limit now : ℕ) (s t : Sys Db) {ms : List Message}
      → call p.env (claim_due_messages locked workspace_id message_type limit now) s ≡ (ok ms, t)
      → length ms ≤ limit
  unfolding call claim_due_messages
  claim_length workspace_id message_type limit now s t {ms} h = go (p.env.fault s.calls) h
    where
      go :
          (fault : Option Error)
          → answer fault (claim_due_messages locked workspace_id message_type limit now) s
            ≡ (ok ms, t)
          → length ms ≤ limit
      go (some e) h = absurd (err_answer h)
      go none h =
          let picked =
            take limit (sorted_due (is_due workspace_id message_type now) locked s.db.messages) in
          subst (λ (x : List Message). length x ≤ limit) (ok_answer h).0
            (rw (length-map (claimed now) picked) (length-take_le limit _))

  claimed_counts :
      (workspace_id message_type : String) (limit now : ℕ) (s t : Sys Db)
      {r : ProcessDueMessagesResult}
      → (call p.env (claim_due_messages locked workspace_id message_type (clamped_limit limit) now)
            >>= λ ms. run_pipeline p locked now ms (nothing_counted p locked ms))
          s
        ≡ (ok r, t)
      → (total r ≤ r.selected_count) × (r.selected_count ≤ 100)
  claimed_counts workspace_id message_type limit now s t h =
      let (ms, u, got, rest) = bind-eq-ok _ _ s h in
      let few = claim_length workspace_id message_type (clamped_limit limit) now s u got in
      let (fewer, same) = run_pipeline_counts now ms (nothing_counted p locked ms) u t rest in
      let most = clamped_limit_le limit in
      (omega (arith, fewer, same), omega (arith, few, most, same))

-- Whenever `ProcessDueMessages` returns a result, the messages that it counts as accepted, failed or
-- to be retried are together at most the messages that it selected, and these at most a hundred,
-- whatever the limit that was asked for.
pub process_due_messages_counts :
    (p : DuePorts) (locked : Message → Bool) (workspace_id message_type : String) (limit now : ℕ)
    (s t : Sys Db) (r : ProcessDueMessagesResult)
    → process_due_messages p locked workspace_id message_type limit now s ≡ (ok r, t)
    → (total r ≤ r.selected_count) × (r.selected_count ≤ 100)
unfolding process_due_messages throw
process_due_messages_counts p locked workspace_id message_type limit now s t r h =
    elim (Bool-cases (str_eq workspace_id "")) [
      | inl e ↦ absurd (err_answer (rw e at h))
      | inr e ↦ elim (Bool-cases (now == 0)) [
        | inl f ↦ absurd (err_answer (rw (e, f) at h))
        | inr f ↦ elim (Bool-cases (not (valid_message_type message_type))) [
          | inl g ↦ absurd (err_answer (rw (e, f, g) at h))
          | inr g ↦
              claimed_counts p locked workspace_id message_type limit now s t (rw (e, f, g) at h)
        ]
      ]
    ]
