-- ===== src/Campaign.antt =====
-- internal/modules/campaign: domain/campaign.go, the campaign, its statuses and what each admits.
-- Times are in the unit of the clock. A text that the database or another module only passes on, such
-- as a contact's attributes, is kept as encoded.
pub mod Store
pub mod Draft
pub mod Change
pub mod Schedule
pub mod Command
pub mod Moves
pub mod Lifecycle
pub mod Scheduled
pub mod Transitions
pub mod Closed
pub mod Candidates
mod Lost
mod Tests
use send_flow_backend.Prelude.{
  ℕ, String, Bool, true, false, ◌||◌, List, [], Option, if◌then◌else◌, ◌∷◌, any,
}
use send_flow_backend.Prelude.Text.{str_eq}
use send_flow_backend.Strings.{trim_space}
use send_flow_backend.Effect.{sentinel, Result, ok, err}

pub data CampaignStatus : Type 0 where
  draft scheduled running paused cancelled completed : CampaignStatus

pub data CandidateStatus : Type 0 where
  planned queued skipped : CandidateStatus

pub record AudienceRef : Type 0 where
  pub audience_type : String
  pub id : String
  pub contact_ids : List String

pub record TemplateRef : Type 0 where
  pub template_id : String
  pub template_version_id : String

pub record Campaign : Type 0 where
  pub id : String
  pub workspace_id : String
  pub name : String
  pub status : CampaignStatus
  pub audience_ref : AudienceRef
  pub template_ref : TemplateRef
  pub sender_domain_id : String
  pub message_type : String
  pub scheduled_at : Option ℕ
  pub planned_recipients : ℕ
  pub created_at : ℕ
  pub updated_at : ℕ
  pub cancelled_at : Option ℕ
  pub paused_at : Option ℕ
  pub completed_at : Option ℕ

pub record RecipientSnapshot : Type 0 where
  pub contact_id : String
  pub email : String
  pub email_normalized : String
  pub first_name : String
  pub last_name : String
  pub tags : List String
  pub attributes : String

pub record CampaignMessageCandidate : Type 0 where
  pub id : String
  pub workspace_id : String
  pub campaign_id : String
  pub contact_id : String
  pub email_normalized : String
  pub recipient_snapshot : RecipientSnapshot
  pub status : CandidateStatus
  pub created_at : ℕ
  pub updated_at : ℕ

abbrev pub payload_invalid : String
payload_invalid = "campaign payload invalid"

abbrev pub campaign_not_found : String
campaign_not_found = "campaign not found"

abbrev pub invalid_state_transition : String
invalid_state_transition = "campaign invalid state transition"

abbrev pub audience_not_ready : String
audience_not_ready = "campaign audience not ready"

unfoldable pub valid_audience_type : String → Bool
valid_audience_type s = any (str_eq s) ("contacts" ∷ "list" ∷ "segment" ∷ [])

unfoldable pub valid_message_type : String → Bool
valid_message_type s = any (str_eq s) ("marketing" ∷ "transactional" ∷ [])

unfoldable pub validate_campaign_name : String → Result (Unit {0})
validate_campaign_name name =
    if str_eq (trim_space name) "" then err (sentinel payload_invalid) else ok tt

abbrev some_contacts : List String → Result (Unit {0})
some_contacts [] = err (sentinel audience_not_ready)
some_contacts (c ∷ cs) = ok tt

unfoldable pub validate_audience_ref : AudienceRef → Result (Unit {0})
validate_audience_ref ref =
    if str_eq ref.audience_type "contacts"
    then some_contacts ref.contact_ids
    else if str_eq ref.audience_type "list" || str_eq ref.audience_type "segment"
    then (if str_eq ref.id "" then err (sentinel payload_invalid) else ok tt)
    else err (sentinel payload_invalid)

abbrev pub can_update_draft : CampaignStatus → Bool
can_update_draft CampaignStatus.draft = true
can_update_draft _ = false

abbrev pub can_schedule : CampaignStatus → Bool
can_schedule CampaignStatus.draft = true
can_schedule _ = false

abbrev pub can_pause : CampaignStatus → Bool
can_pause CampaignStatus.scheduled = true
can_pause CampaignStatus.running = true
can_pause _ = false

abbrev pub can_resume : CampaignStatus → Bool
can_resume CampaignStatus.paused = true
can_resume _ = false

abbrev pub can_cancel : CampaignStatus → Bool
can_cancel CampaignStatus.draft = true
can_cancel CampaignStatus.scheduled = true
can_cancel CampaignStatus.paused = true
can_cancel _ = false
