-- ===== src/Delivery/ProviderEvent/Locked.antt =====
-- What the transaction of a provider event does to the statuses of the stored messages.
use send_flow_backend.Prelude.{
  ℕ, suc, String, ◌≡◌, refl, sym, true, false, List, Option, none, some, find?, Bool-cases, ◌⊎◌,
  inl, inr, eq_of_some, subst,
}
use send_flow_backend.Prelude.Search.{find?-test}
use send_flow_backend.Effect.{
  Error, is_error, Result, ok, err, Env, Sys, M, ◌>>=◌, return, throw, answer, call,
}
use send_flow_backend.Effect.Rules.{
  Keeps, Keeps-return, Keeps-throw, Keeps-bind, Keeps-attempt, Keeps-call, Keeps-clock, ok_answer,
  err_answer, bind_moves, then_moves, call_moves,
}
use send_flow_backend.Delivery.Status.{MessageStatus, can_transition_to_status, status_eq}
use send_flow_backend.Delivery.Message.{Message}
use send_flow_backend.Delivery.Store.{
  Db, is_message, find_by_id, message_not_found, update_message, found,
}
use send_flow_backend.Delivery.Store.Moves.{Moved, Moved-refl, Moved-of_eq, moves, unmoved}
use send_flow_backend.Delivery.Store.Rows.{
  is_message-keys, update_message_moves, update_message_missing,
}
use send_flow_backend.Delivery.ProviderEvent.Data.{Ports, ProviderEventInput, Change}
use send_flow_backend.Delivery.ProviderEvent.Changes.{change_for}
use send_flow_backend.Delivery.ProviderEvent.Writes.{after_update, perform, no_suppression}
use send_flow_backend.Delivery.ProviderEvent.Handler.{
  reread, reread_result, change_current, tx_body,
}
use send_flow_backend.Delivery.ProviderEvent.Tail.{after_update-Keeps}

-- A failed call does not claim that the message is missing: only a read that finds no row does.
pub record HonestFaults (env : Env) : Type 0 where
  pub no_false_miss :
      (n : ℕ) (e : Error) → env.fault n ≡ some e → is_error e message_not_found ≡ false

-- The change keeps the keys of the message and sets the target status.
abbrev IsChangeOf : MessageStatus → Message → Change → Type 0
IsChangeOf target m c =
    (c.updated.id ≡ m.id) × (c.updated.workspace_id ≡ m.workspace_id) × (c.updated.status ≡ target)

change_for_target :
    (p : Ports) (input : ProviderEventInput) (target : MessageStatus) (now : ℕ) (m : Message)
    {c : Change}
    → change_for p input target now m ≡ some c
    → IsChangeOf target m c
unfolding change_for
change_for_target p input MessageStatus.delivered now m h =
    subst (IsChangeOf MessageStatus.delivered m) (eq_of_some h) (refl, refl, refl)
change_for_target p input MessageStatus.bounced now m h =
    subst (IsChangeOf MessageStatus.bounced m) (eq_of_some h) (refl, refl, refl)
change_for_target p input MessageStatus.complained now m h =
    subst (IsChangeOf MessageStatus.complained m) (eq_of_some h) (refl, refl, refl)
change_for_target p input MessageStatus.delayed now m h =
    subst (IsChangeOf MessageStatus.delayed m) (eq_of_some h) (refl, refl, refl)
change_for_target p input MessageStatus.failed now m h =
    subst (IsChangeOf MessageStatus.failed m) (eq_of_some h) (refl, refl, refl)
change_for_target p input _ now m h = cc

moves_of_unmoved : {A : Type 0} {m : M Db A} → Keeps unmoved m → Keeps moves m
moves_of_unmoved h = record { moves = λ s. Moved-of_eq s.db.messages _ (h.moves s) }

-- The message is the row under its keys, or no row is under them.
abbrev Stored : Message → List Message → Type 0
Stored m ms =
    (find? (is_message m.workspace_id m.id) ms ≡ some m)
    ⊎ (find? (is_message m.workspace_id m.id) ms ≡ none)

update_of_change :
    (target : MessageStatus) (m : Message) (c : Change) (d : Db)
    → IsChangeOf target m c
    → Stored m d.messages
    → can_transition_to_status m.status target ≡ true
    → Moved d.messages (update_message c.updated d).1.messages
update_of_change target m c d (i, w, t) (inl f) h =
    update_message_moves c.updated d {c = m} (rw (i, w) f) (rw t h)
update_of_change target m c d (i, w, t) (inr f) h =
    rw (update_message_missing c.updated d (rw (i, w) f)) (Moved-refl d.messages)

find_by_id-Stored :
    (m : Message) (d : Db) {c : Message}
    → find? (is_message m.workspace_id m.id) d.messages ≡ some c
    → Stored c d.messages
find_by_id-Stored m d {c} e =
    let (i, w) = is_message-keys m.workspace_id m.id c (find?-test _ d.messages e) in
    inl (
      subst (λ x. find? (is_message x c.id) d.messages ≡ some c) (sym w)
        (subst (λ x. find? (is_message m.workspace_id x) d.messages ≡ some c) (sym i) e))

pub found_moves :
    {A : Type 0} (o : Option A) (missing : String) (d : Db)
    → Moved d.messages (found o missing d).1.messages
found_moves none missing d = Moved-refl d.messages
found_moves (some a) missing d = Moved-refl d.messages

found_db : {A : Type 0} (o : Option A) (missing : String) (d : Db) → (found o missing d).1 ≡ d
found_db none missing d = refl
found_db (some a) missing d = refl

module _ (p : Ports) (input : ProviderEventInput) where
  -- A change of a stored message moves it to the target.
  perform_moves :
      (target : MessageStatus) (now : ℕ) (c : Option Change) (m : Message) (s : Sys Db)
      → change_for p input target now m ≡ c
      → Stored m s.db.messages
      → can_transition_to_status m.status target ≡ true
      → Moved s.db.messages (perform p input target now c s).1.db.messages
  unfolding perform
  perform_moves target now none m s e f h = (Keeps-return moves (no_suppression p input)).moves s
  perform_moves target now (some c) m s e f h =
      then_moves moves (call p.env (update_message c.updated)) (after_update p input target now c) s
        (call_moves moves p.env (update_message c.updated) s
          (update_of_change target m c s.db (change_for_target p input target now m e) f h))
        (moves_of_unmoved (after_update-Keeps p input target now c))

  current_moves :
      (target : MessageStatus) (now : ℕ) (c : Message) (s : Sys Db)
      → Stored c s.db.messages
      → Moved s.db.messages (change_current p input target now c s).1.db.messages
  unfolding change_current
  current_moves target now c s f = elim (Bool-cases (can_transition_to_status c.status target)) [
    | inr e ↦ rw e ((Keeps-return moves (no_suppression p input)).moves s)
    | inl e ↦ elim (Bool-cases (status_eq c.status target)) [
      | inl e' ↦ rw (e, e') ((Keeps-return moves (no_suppression p input)).moves s)
      | inr e' ↦ rw (e, e') (perform_moves target now _ c s refl f e)
    ]
  ]

  found-Stored :
      (m : Message) (o : Option Message) (s r : Sys Db) {c : Message} {t : Sys Db}
      → r.db ≡ s.db
      → find? (is_message m.workspace_id m.id) s.db.messages ≡ o
      → reread_result p input m (found o message_not_found s.db).0 r ≡ (ok c, t)
      → Stored c t.db.messages
  unfolding return is_error
  found-Stored m none s r {c} {t} d e h =
      let (same, at_r) = ok_answer h in
      subst (λ x. Stored x t.db.messages) same
        (subst (λ (x : Sys Db). Stored m x.db.messages) at_r
          (subst (λ (x : Db). Stored m x.messages) (sym d) (inr e)))
  found-Stored m (some a) s r {c} {t} d e h =
      let (same, at_r) = ok_answer h in
      subst (λ x. Stored x t.db.messages) same
        (subst (λ (x : Sys Db). Stored a x.db.messages) at_r
          (subst (λ (x : Db). Stored a x.messages) (sym d) (find_by_id-Stored m s.db e)))

  answer-Stored :
      (fault : Option Error)
      → ((e : Error) → fault ≡ some e → is_error e message_not_found ≡ false)
      → (m : Message) (s : Sys Db) {c : Message} {t : Sys Db}
      → (let r = answer fault (find_by_id m.workspace_id m.id) s in
          reread_result p input m r.0 r.1 ≡ (ok c, t))
      → Stored c t.db.messages
  unfolding find_by_id throw
  answer-Stored (some e) honest m s h = absurd (err_answer (rw (honest e refl) at h))
  answer-Stored none honest m s h =
      let o = find? (is_message m.workspace_id m.id) s.db.messages in
      found-Stored m o s (record s { db = (found o message_not_found s.db).1; calls = suc s.calls })
        (found_db o message_not_found s.db) refl h

  -- What the second reading hands on is stored.
  reread-Stored :
      HonestFaults p.env
      → (m : Message) (s : Sys Db) {c : Message} {t : Sys Db} → reread p input m s ≡ (ok c, t)
      → Stored c t.db.messages
  unfolding reread ◌>>=◌
  reread-Stored honest m s h =
      answer-Stored (p.env.fault s.calls) (honest.no_false_miss s.calls) m s h

  reread_result-Keeps : (m : Message) (r : Result Message) → Keeps moves (reread_result p input m r)
  reread_result-Keeps m (ok c) = Keeps-return moves c
  reread_result-Keeps m (err e) = elim (Bool-cases (is_error e message_not_found)) [
    | inl h ↦ rw h (Keeps-return moves m)
    | inr h ↦ rw h (Keeps-throw moves e)
  ]

  pub find_by_id-Keeps :
      (workspace_id id : String) → Keeps moves (call p.env (find_by_id workspace_id id))
  unfolding find_by_id
  find_by_id-Keeps workspace_id id =
      Keeps-call moves p.env _
        (λ d. found_moves (find? (is_message workspace_id id) d.messages) _ d)

  reread-Keeps : (m : Message) → Keeps moves (reread p input m)
  unfolding reread
  reread-Keeps m =
      Keeps-bind moves (Keeps-attempt moves (find_by_id-Keeps m.workspace_id m.id))
        (reread_result-Keeps m)

  pub tx_body-Keeps :
      HonestFaults p.env
      → (target : MessageStatus) (m : Message) → Keeps moves (tx_body p input target m)
  unfolding tx_body
  tx_body-Keeps honest target m = Keeps-bind moves (Keeps-clock moves p.env) λ now. record {
    moves = λ s.
        bind_moves moves (reread p input m) (change_current p input target now) s
          ((reread-Keeps m).moves s)
          (λ c t e. current_moves target now c t (reread-Stored honest m s e));
  }
