-- ===== src/Delivery/Listing/Tests.antt =====
-- A listing that is read in pages of one message.
use send_flow_backend.Prelude.{◌↔◌, true, ℕ, String, ◌≡◌, refl, [], ◌∷◌, filter, none, arith, map}
use send_flow_backend.Prelude.Text.{ne_by_test}
use send_flow_backend.Delivery.Status.{MessageStatus, text}
use send_flow_backend.Delivery.Message.{Message}
use send_flow_backend.Delivery.Store.{Db}
use send_flow_backend.Delivery.Fixtures.{message_in, db_with}
use send_flow_backend.Delivery.Listing.{MessageListQuery, is_listed, list_messages}
use send_flow_backend.Delivery.Listing.Newest.{Descends}
use send_flow_backend.Delivery.Listing.Filters.{Meets}
use send_flow_backend.Delivery.Listing.Pages.{read_pages, read_pages-Perm}
use mathlib.Core.List.{Perm}

abbrev message : String → ℕ → MessageStatus → Message
message id created_at status = record (message_in status) { id = id; created_at = created_at }

-- Two messages of one time, an older one and one in another status.
abbrev stored : Db
stored = record (db_with (message_in MessageStatus.queued)) {
  messages =
      message "m1" 5 MessageStatus.queued
      ∷ message "m2" 3 MessageStatus.queued
      ∷ message "m3" 7 MessageStatus.failed
      ∷ message "m4" 5 MessageStatus.queued
      ∷ [];
}

abbrev query : MessageListQuery
query = record {
  workspace_id = "w1";
  campaign_id = "";
  transactional_request_id = "";
  status = "queued";
  message_type = "";
  mode = "";
  provider = "";
  recipient_email_normalized = "";
  provider_message_id = "";
  recipient_role = "";
  source_api_key_id = "";
  from = none;
  to = none;
  limit = 1;
  cursor = "";
}

reads_newest_first :
    map (λ (m : Message). m.id) (read_pages 5 query stored) ≡ "m4" ∷ "m1" ∷ "m2" ∷ []
unfolding list_messages text
reads_newest_first = refl

read_pages-Perm_example :
    Perm (read_pages 5 query stored) (filter (is_listed query) stored.messages)
    × Descends (read_pages 5 query stored)
    × ((m : Message) → (is_listed query m ≡ true) ↔ Meets query m)
read_pages-Perm_example =
    read_pages-Perm query stored 5
      (
        (ne_by_test _ _ refl, (ne_by_test _ _ refl, (ne_by_test _ _ refl, tt))),
        ((ne_by_test _ _ refl, (ne_by_test _ _ refl, tt)), ((ne_by_test _ _ refl, tt), (tt, tt))),
      )
      (ne_by_test _ _ refl, (ne_by_test _ _ refl, (ne_by_test _ _ refl, (ne_by_test _ _ refl, tt))))
      (omega arith)
