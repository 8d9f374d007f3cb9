-- ===== src/Delivery/Due/Claim.antt =====
-- internal/modules/delivery/app/process/due.go: `ProcessDueMessages` and
-- `ProcessDueMessagesAllWorkspaces`, with `ClaimDueMessages` of the repository. The pipeline runs one
-- processor over the claimed messages, in their order; its writer counts the outcomes.
use send_flow_backend.Prelude.{
  take, ℕ, ◌+◌, String, Bool, true, false, ◌&&◌, ◌||◌, not, List, [], ◌∷◌, map, length, Option,
  none, some, if◌then◌else◌, ◌==◌, ltb, leb,
}
use send_flow_backend.Prelude.Text.{str_eq}
use send_flow_backend.Effect.{
  Result, ok, err, M, ◌>>=◌, ◌>>◌, return, throw, attempt, ignore_error, call,
}
use send_flow_backend.Delivery.Status.{MessageStatus, status_eq}
use send_flow_backend.Delivery.Message.{Message, valid_message_type, payload_invalid}
use send_flow_backend.Delivery.Store.{Db}
use send_flow_backend.Delivery.Due.Data.{
  Outcome, status_accepted, status_failed, status_retry_scheduled, DuePorts,
}
use send_flow_backend.Delivery.Due.Process.{process_message}
use send_flow_backend.Batching.Options.{Options}

-- NULL sorts after every time, as in PostgreSQL.
abbrev pub schedule_leb : Option ℕ → Option ℕ → Bool
schedule_leb none (some t) = false
schedule_leb none none = true
schedule_leb (some s) none = true
schedule_leb (some s) (some t) = leb s t

abbrev pub schedule_eq : Option ℕ → Option ℕ → Bool
schedule_eq s t = schedule_leb s t && schedule_leb t s

-- `ORDER BY scheduled_at ASC, created_at ASC`.
abbrev pub comes_first : Message → Message → Bool
comes_first m n =
    if schedule_eq m.scheduled_at n.scheduled_at
    then leb m.created_at n.created_at
    else schedule_leb m.scheduled_at n.scheduled_at

abbrev pub insert_due : Message → List Message → List Message
insert_due m [] = m ∷ []
insert_due m (n ∷ ns) = if comes_first m n then m ∷ n ∷ ns else n ∷ insert_due m ns

abbrev pub scheduled_by : Option ℕ → ℕ → Bool
scheduled_by none now = true
scheduled_by (some t) now = leb t now

abbrev pub is_due : String → String → ℕ → Message → Bool
is_due workspace_id message_type now m =
    str_eq m.workspace_id workspace_id
    && status_eq m.status MessageStatus.queued
    && str_eq m.message_type message_type
    && scheduled_by m.scheduled_at now

-- The due rows in their order; `locked` are the rows that another transaction holds.
abbrev pub sorted_due : (Message → Bool) → (Message → Bool) → List Message → List Message
sorted_due due locked [] = []
sorted_due due locked (m ∷ ms) =
    if due m && not (locked m)
    then insert_due m (sorted_due due locked ms)
    else sorted_due due locked ms

abbrev pub claimed : ℕ → Message → Message
claimed now m = record m {
  status = MessageStatus.processing;
  processing_started_at = some now;
  updated_at = now;
}

abbrev pub has_id_of : List Message → Message → Bool
has_id_of [] row = false
has_id_of (m ∷ ms) row = str_eq row.id m.id || has_id_of ms row

abbrev pub claim_rows : ℕ → List Message → List Message → List Message
claim_rows now picked [] = []
claim_rows now picked (row ∷ rows) =
    (if has_id_of picked row then claimed now row else row) ∷ claim_rows now picked rows

-- `ClaimDueMessages`. The rows are returned in the order of the query.
unfoldable pub claim_due_messages :
    (Message → Bool) → String → String → ℕ → ℕ → Db → Result (List Message) × Db
claim_due_messages locked workspace_id message_type limit now d =
    let picked = take limit (sorted_due (is_due workspace_id message_type now) locked d.messages) in
    (ok (map (claimed now) picked), record d { messages = claim_rows now picked d.messages })

abbrev pub clamped_limit : ℕ → ℕ
clamped_limit limit = if limit == 0 then 100 else if ltb 100 limit then 100 else limit

-- The options of the pipeline; the shards are left to the defaults.
abbrev pub pipeline_options : ℕ → Options
pipeline_options limit = record {
  shard_id = 0;
  total_shards = 0;
  buffered_items_size = limit;
  write_batch_size = limit;
  processor_concurrency = 1;
  max_inflight = limit;
}

pub record ProcessDueMessagesResult : Type 0 where
  pub selected_count : ℕ
  pub accepted_count : ℕ
  pub failed_count : ℕ
  pub retry_scheduled_count : ℕ

-- What the pipeline's writer adds.
abbrev pub count : Outcome → ProcessDueMessagesResult → ProcessDueMessagesResult
count status_accepted r = record r { accepted_count = r.accepted_count + 1 }
count status_failed r = record r { failed_count = r.failed_count + 1 }
count status_retry_scheduled r = record r { retry_scheduled_count = r.retry_scheduled_count + 1 }

-- A message whose processing failed is logged, and filtered out.
abbrev pub counted : Result Outcome → ProcessDueMessagesResult → ProcessDueMessagesResult
counted (ok o) r = count o r
counted (err e) r = r

module _ (p : DuePorts) (locked : Message → Bool) where
  unfoldable pub run_pipeline :
      ℕ → List Message → ProcessDueMessagesResult → M Db ProcessDueMessagesResult
  run_pipeline now [] r = return r
  run_pipeline now (m ∷ ms) r = do
    o ← attempt (process_message p now m)
    run_pipeline now ms (counted o r)

  abbrev pub nothing_counted : List Message → ProcessDueMessagesResult
  nothing_counted ms = record {
    selected_count = length ms;
    accepted_count = 0;
    failed_count = 0;
    retry_scheduled_count = 0;
  }

  unfoldable pub process_due_messages : String → String → ℕ → ℕ → M Db ProcessDueMessagesResult
  unfolding run_pipeline valid_message_type
  process_due_messages workspace_id message_type limit now =
      if str_eq workspace_id ""
      then throw payload_invalid
      else if now == 0
      then throw payload_invalid
      else if not (valid_message_type message_type)
      then throw payload_invalid
      else (do
        ms ←
            call p.env
              (claim_due_messages locked workspace_id message_type (clamped_limit limit) now)
        run_pipeline now ms (nothing_counted ms))

  -- A workspace that fails is logged, and the others are still processed.
  unfoldable pub process_workspaces : String → ℕ → ℕ → List String → M Db (Unit {0})
  unfolding process_due_messages
  process_workspaces message_type limit now [] = return tt
  process_workspaces message_type limit now (w ∷ ws) = do
    ignore_error (process_due_messages w message_type limit now)
    process_workspaces message_type limit now ws

  abbrev pub add_distinct : String → List String → List String
  add_distinct w [] = w ∷ []
  add_distinct w (x ∷ xs) = if str_eq w x then x ∷ xs else x ∷ add_distinct w xs

  abbrev pub due_workspaces : String → ℕ → List Message → List String
  due_workspaces message_type now [] = []
  due_workspaces message_type now (m ∷ ms) =
      if is_due m.workspace_id message_type now m
      then add_distinct m.workspace_id (due_workspaces message_type now ms)
      else due_workspaces message_type now ms

  -- `ListDistinctWorkspacesWithDue`.
  unfoldable pub list_distinct_workspaces_with_due : String → ℕ → Db → Result (List String) × Db
  list_distinct_workspaces_with_due message_type now d =
      (ok (due_workspaces message_type now d.messages), d)

  unfoldable pub process_due_messages_all : String → ℕ → ℕ → M Db ℕ
  unfolding process_workspaces valid_message_type
  process_due_messages_all message_type limit now =
      if now == 0
      then throw payload_invalid
      else if not (valid_message_type message_type)
      then throw payload_invalid
      else (do
        ws ← call p.env (list_distinct_workspaces_with_due message_type now)
        process_workspaces message_type (clamped_limit limit) now ws
        return (length ws))
