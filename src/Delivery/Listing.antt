-- ===== src/Delivery/Listing.antt =====
-- `List` of the message repositories in delivery/infrastructure/postgres/repository.go: a page of
-- messages, newest first, after a cursor. Texts are compared by their characters' numbers.
pub mod Filters
pub mod Newest
pub mod Pages
mod Tests
use send_flow_backend.Prelude.{
  ℕ, ◌+◌, String, Bool, true, false, ◌&&◌, ◌||◌, not, List, [], ◌∷◌, Option, none, some,
  if◌then◌else◌, ltb, leb, ◌==◌, find?, length, take,
}
use send_flow_backend.Prelude.Text.{str_eq}
use send_flow_backend.Prelude.Order.{is_lt}
use send_flow_backend.Effect.{Result, ok}
use send_flow_backend.Delivery.Status.{text}
use send_flow_backend.Delivery.Message.{Message}
use send_flow_backend.Delivery.Store.{Db}
use Prim.Native.Nat.{compare as compare_ℕ}
use Prim.Native.String.{compare, then as or_else_by}

-- The limit is a Go integer that is not negative.
pub record MessageListQuery : Type 0 where
  pub workspace_id : String
  pub campaign_id : String
  pub transactional_request_id : String
  pub status : String
  pub message_type : String
  pub mode : String
  pub provider : String
  pub recipient_email_normalized : String
  pub provider_message_id : String
  pub recipient_role : String
  pub source_api_key_id : String
  pub from : Option ℕ
  pub to : Option ℕ
  pub limit : ℕ
  pub cursor : String

-- `(created_at, id) < (created_at, id)`, the order of rows.
unfoldable pub row_before : Message → Message → Bool
row_before m n = is_lt (or_else_by (compare_ℕ m.created_at n.created_at) (compare m.id n.id))

-- A filter that is left out when it is empty.
abbrev pub wanted : String → String → Bool
wanted filter value = str_eq filter "" || str_eq value filter

abbrev pub in_mode : String → String → Bool
in_mode mode template_id =
    if str_eq mode "template"
    then not (str_eq template_id "")
    else if str_eq mode "raw"
    then str_eq template_id ""
    else true

abbrev pub since : Option ℕ → ℕ → Bool
since none t = true
since (some from) t = leb from t

abbrev pub until : Option ℕ → ℕ → Bool
until none t = true
until (some to) t = leb t to

-- The row of the cursor is looked for in the whole table.
abbrev pub after_row : Option Message → Message → Bool
after_row none m = false
after_row (some c) m = row_before m c

abbrev pub after_cursor : String → List Message → Message → Bool
unfolding row_before
after_cursor cursor rows m =
    if str_eq cursor "" then true else after_row (find? (λ c. str_eq c.id cursor) rows) m

-- The conditions of the `WHERE` clause but the cursor's.
unfoldable pub is_listed : MessageListQuery → Message → Bool
is_listed q m =
    str_eq m.workspace_id q.workspace_id
    && wanted q.campaign_id m.campaign_id
    && wanted q.transactional_request_id m.transactional_request_id
    && wanted q.status (text m.status)
    && wanted q.message_type m.message_type
    && in_mode q.mode m.template_id
    && wanted q.provider m.provider
    && wanted q.recipient_email_normalized m.recipient_email_normalized
    && wanted q.provider_message_id m.provider_message_id
    && since q.from m.created_at
    && until q.to m.created_at

abbrev pub insert_newest : Message → List Message → List Message
insert_newest m [] = m ∷ []
insert_newest m (n ∷ ns) = if row_before n m then m ∷ n ∷ ns else n ∷ insert_newest m ns

-- The rows that pass the test, newest first.
abbrev pub newest : (Message → Bool) → List Message → List Message
newest test [] = []
newest test (m ∷ ms) = if test m then insert_newest m (newest test ms) else newest test ms

abbrev pub page_size : ℕ → ℕ
page_size limit = if limit == 0 then 50 else if ltb 100 limit then 100 else limit

abbrev pub last_id : List Message → String
last_id [] = ""
last_id (m ∷ []) = m.id
last_id (m ∷ n ∷ ms) = last_id (n ∷ ms)

-- The page and the next cursor, from the rows that `LIMIT limit + 1` leaves.
abbrev pub page_of : ℕ → List Message → List Message × String
page_of limit rows =
    if ltb limit (length rows) then (take limit rows, last_id (take limit rows)) else (rows, "")

unfoldable pub list_messages : MessageListQuery → Db → Result (List Message × String) × Db
unfolding is_listed row_before
list_messages q d = (
  ok (
      page_of (page_size q.limit) (
        take (page_size q.limit + 1)
          (newest (λ m. is_listed q m && after_cursor q.cursor d.messages m) d.messages))),
  d,
)
