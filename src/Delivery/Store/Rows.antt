-- ===== src/Delivery/Store/Rows.antt =====
-- What the statements on messages answer and write.
use send_flow_backend.Prelude.{String, ◌≡◌, refl, Bool, true, false, none, some, arith, find?}
use send_flow_backend.Prelude.Search.{any_of_find?-none}
use send_flow_backend.Prelude.Text.{eq_iff}
use send_flow_backend.Effect.{sentinel, err}
use send_flow_backend.Delivery.Status.{can_transition_to_status}
use send_flow_backend.Delivery.Status.Transitions.{here, next}
use send_flow_backend.Delivery.Message.{Message}
use send_flow_backend.Delivery.Store.{
  Db, is_message, message_not_found, update_message, affected, set_columns,
}
use send_flow_backend.Delivery.Store.Moves.{Moved, Moved-modify_first, Moved-refl}

pub is_message-keys :
    (workspace_id id : String) (m : Message)
    → is_message workspace_id id m ≡ true
    → (m.id ≡ id) × (m.workspace_id ≡ workspace_id)
is_message-keys workspace_id id m h =
    ground (arith, eq_iff m.id id, eq_iff m.workspace_id workspace_id)

affected_moves :
    (b : Bool) (missing : String) (d e : Db)
    → Moved d.messages e.messages
    → Moved d.messages (affected b missing d e).1.messages
affected_moves true missing d e h = h
affected_moves false missing d e h = Moved-refl d.messages

-- An update whose row may move to the new status moves the messages.
pub update_message_moves :
    (m : Message) (d : Db) {c : Message}
    → find? (is_message m.workspace_id m.id) d.messages ≡ some c
    → can_transition_to_status c.status m.status ≡ true
    → Moved d.messages (update_message m d).1.messages
unfolding update_message
update_message_moves m d {c} e h = affected_moves _ _ d _ (
    Moved-modify_first (is_message m.workspace_id m.id) (set_columns m) d.messages e
      (record { same_id = refl; same_workspace = refl; reach = next here h }))

-- An update of a row that is not there writes nothing.
pub update_message_missing :
    (m : Message) (d : Db)
    → find? (is_message m.workspace_id m.id) d.messages ≡ none
    → update_message m d ≡ (err (sentinel message_not_found), d)
unfolding update_message
update_message_missing m d e = rw (any_of_find?-none (is_message m.workspace_id m.id) d.messages e)
