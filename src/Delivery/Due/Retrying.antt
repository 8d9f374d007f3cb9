-- ===== src/Delivery/Due/Retrying.antt =====
-- The retry of a message, under a relation on databases that the writes of the message and of its
-- retry state keep.
use send_flow_backend.Prelude.{
  ℕ, ◌+◌, ◌≤◌, ◌<◌, String, ◌≡◌, refl, ◌∙◌, subst, Bool, true, false, Option, none, some,
  Bool-cases, inl, inr, arith, leb,
}
use send_flow_backend.Effect.{Result, ok, err, Sys, return, attempt, ◌>>=◌, tick, and_then}
use send_flow_backend.Effect.Rules.{
  Preorder, Keeps, Keeps-return, Keeps-bind, Keeps-then, Keeps-attempt, Keeps-ignore_error,
  Keeps-call, Keeps-id_gen, Keeps-within_tx, bind_moves, ok_answer,
}
use send_flow_backend.Delivery.Message.{Message, DeliveryAttempt, RetryState}
use send_flow_backend.Delivery.Store.{
  Db, find_retry_state, create_retry_state, update_retry_state, update_message,
}
use send_flow_backend.Delivery.Due.Data.{DuePorts, default_max_retries, compute_retry_delay}
use send_flow_backend.Delivery.Due.Retry.{
  retry_count_of, is_new, next_retry, first_retry, further_retry, requeued, store_retry,
  save_retry_scheduled_event, retry_body, save_retry, schedule_retry, on_retry_state,
  handle_temporary_failure,
}
use send_flow_backend.Delivery.Due.Writes.{
  AllowsWrites, update_attempt-Keeps, update_message-Keeps, write_event-Keeps,
  fail_message_with_attempt-Keeps, publish-Keeps,
}

-- The relation lets a retry state be written that counts at most the greatest number of retries.
pub record AllowsRetries (R : Preorder Db) : Type 0 where
  pub any_new :
      (r : RetryState) (d : Db)
      → r.retry_count ≤ default_max_retries
      → R.Rel d (create_retry_state r d).1
  pub any_update :
      (r : RetryState) (d : Db)
      → r.retry_count ≤ default_max_retries
      → R.Rel d (update_retry_state r d).1

-- The retry state that follows one of fewer than the greatest number of retries.
next_retry_count :
    (p : DuePorts) (now : ℕ) (m : Message) (text : String) (next : ℕ) (o : Option RetryState)
    (s : Sys Db) {r : RetryState}
    → retry_count_of p now o < default_max_retries
    → (next_retry p now m text next o s).0 ≡ ok r
    → r.retry_count ≤ default_max_retries
unfolding return ◌>>=◌
next_retry_count p now m text next (some q) s {r} h e =
    let same : further_retry p now q text next ≡ r = cc in
    subst (λ (x : RetryState). x.retry_count ≤ default_max_retries) same (omega (arith, h))
next_retry_count p now m text next none s {r} h e = go (p.env.new_id s.calls) e
  where
    go :
        (x : Result String)
        → (and_then {Db = Db} {A = String} {B = RetryState}
            (x, tick s)
            (λ id. return (first_retry p now m text next id))).0
          ≡ ok r
        → r.retry_count ≤ default_max_retries
    go (ok id) e =
        let same : first_retry p now m text next id ≡ r = cc in
        subst (λ (x : RetryState). x.retry_count ≤ default_max_retries) same (omega arith)
    go (err x) e = cc

module _ (R : Preorder Db) (p : DuePorts) (now : ℕ) (m : Message)
    (allows : AllowsWrites R m.workspace_id m.id) where
  store_retry-Keeps :
      AllowsRetries R
      → (new : Bool) (r : RetryState) → r.retry_count ≤ default_max_retries
      → Keeps R (store_retry p now new r)
  store_retry-Keeps retries true r h = Keeps-call R p.env _ (λ d. retries.any_new r d h)
  store_retry-Keeps retries false r h = Keeps-call R p.env _ (λ d. retries.any_update r d h)

  save_retry_scheduled_event-Keeps :
      (n : Message) (r : RetryState) → Keeps R (save_retry_scheduled_event p now n r)
  unfolding save_retry_scheduled_event
  save_retry_scheduled_event-Keeps n r =
      Keeps-bind R (Keeps-id_gen R p.env) (λ id. publish-Keeps R p now m allows id _ n _)

  save_retry-Keeps :
      AllowsRetries R
      → (next : ℕ) (a : DeliveryAttempt) (text : String) (new : Bool) (o : Result RetryState)
      → ((r : RetryState) → o ≡ ok r → r.retry_count ≤ default_max_retries)
      → Keeps R (save_retry p now (requeued p now m next) a text new o)
  unfolding retry_body update_message
  save_retry-Keeps retries next a text new (err e) h = Keeps-return R tt
  save_retry-Keeps retries next a text new (ok r) h = Keeps-ignore_error R (
      Keeps-within_tx R p.env (
        Keeps-then R (update_message-Keeps R p now m allows _ (λ row. (refl, refl))) (
          Keeps-then R (update_attempt-Keeps R p now m allows a) (
            Keeps-then R (store_retry-Keeps retries new r (h r refl)) (
              Keeps-then R (write_event-Keeps R p now m allows (requeued p now m next) _ _ _ _)
                (save_retry_scheduled_event-Keeps (requeued p now m next) r))))))

  next_retry-Keeps :
      (text : String) (next : ℕ) (o : Option RetryState) → Keeps R (next_retry p now m text next o)
  next_retry-Keeps text next none = Keeps-bind R (Keeps-id_gen R p.env) (λ id. Keeps-return R _)
  next_retry-Keeps text next (some r) = Keeps-return R _

  schedule_retry-Keeps :
      AllowsRetries R
      → (a : DeliveryAttempt) (text : String) (o : Option RetryState)
      → retry_count_of p now o < default_max_retries
      → Keeps R (schedule_retry p now m a text o)
  unfolding schedule_retry attempt ◌>>=◌
  schedule_retry-Keeps retries a text o h = record {
    moves = λ s.
        let next = now + compute_retry_delay (retry_count_of p now o) (p.random s.calls) in
        bind_moves R (attempt (next_retry p now m text next o))
          (λ r. save_retry p now (requeued p now m next) a text (is_new p now o) r) (tick s)
          ((Keeps-attempt R (next_retry-Keeps text next o)).moves (tick s))
          (λ r t e.
            (save_retry-Keeps retries next a text (is_new p now o) r (λ x q.
                next_retry_count p now m text next o (tick s) h ((ok_answer e).0 ∙ q))).moves
              t);
  }

  on_retry_state-Keeps :
      AllowsRetries R
      → (a : DeliveryAttempt) (text : String) (o : Result (Option RetryState))
      → Keeps R (on_retry_state p now m a text o)
  on_retry_state-Keeps retries a text (err e) =
      fail_message_with_attempt-Keeps R p now m allows a _ _
  on_retry_state-Keeps retries a text (ok o) =
      elim (Bool-cases (leb default_max_retries (retry_count_of p now o))) [
        | inl e ↦ rw e (fail_message_with_attempt-Keeps R p now m allows a _ _)
        | inr e ↦ rw e (schedule_retry-Keeps retries a text o (ground arith))
      ]

  pub handle_temporary_failure-Keeps :
      AllowsRetries R
      → (a : DeliveryAttempt) (text : String) → Keeps R (handle_temporary_failure p now m a text)
  unfolding handle_temporary_failure find_retry_state
  handle_temporary_failure-Keeps retries a text =
      Keeps-bind R (Keeps-attempt R (Keeps-call R p.env _ (λ d. R.same d)))
        (on_retry_state-Keeps retries _ text)
