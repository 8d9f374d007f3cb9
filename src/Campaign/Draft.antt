-- ===== src/Campaign/Draft.antt =====
-- internal/modules/campaign/app/draft: create.go is `create_campaign` and update.go is
-- `update_draft`. What other modules answer, and the encoders, are parameters (`CampaignPorts`).
use send_flow_backend.Prelude.{ℕ, String, Bool, not, List, Option, none, some, if◌then◌else◌}
use send_flow_backend.Prelude.Text.{str_eq}
use send_flow_backend.Effect.{
  Error, sentinel, is_error, Result, ok, err, Env, M, ◌>>=◌, ◌>>◌, return, throw, lift, call,
  id_gen,
}
use send_flow_backend.Events.{Json}
use send_flow_backend.Campaign.{
  Campaign, CampaignStatus, CampaignMessageCandidate, AudienceRef, payload_invalid,
  invalid_state_transition, valid_audience_type, valid_message_type, validate_campaign_name,
  validate_audience_ref, can_update_draft,
}
use send_flow_backend.Campaign.Store.{Db, find_by_id, create, update}

pub record Recipient : Type 0 where
  pub contact_id : String
  pub email : String
  pub email_normalized : String
  pub first_name : String
  pub last_name : String
  pub tags : List String
  pub attributes : String

pub record AudienceSelectionRef : Type 0 where
  pub list_id : String
  pub segment_id : String
  pub contact_ids : List String

pub record CampaignScheduledPayload : Type 0 where
  pub campaign_id : String
  pub workspace_id : String
  pub audience_ref : String
  pub template_id : String
  pub template_version_id : String
  pub sender_domain_id : String
  pub message_type : String
  pub scheduled_at : String
  pub planned_recipients : ℕ

-- The ports of the handlers; `none` is a nil pointer in an answer.
pub record CampaignPorts : Type 0 where
  pub env : Env
  pub require_permission : String → String → String → Result (Unit {0})
  pub sender_ready : String → String → Result (Option Bool)
  pub published_version : String → String → Result (Option String)
  pub validate_renderable : String → String → Result (Unit {0})
  pub resolve_recipients : String → String → AudienceSelectionRef → Result (List Recipient)
  pub json : Json CampaignScheduledPayload
  pub encode_audience : AudienceRef → Result String
  pub format_time : ℕ → String
  -- The server's refusal to insert, by the new rows and those of the table.
  pub refuses_campaign : Campaign → List Campaign → Option Error
  pub refuses_candidates :
      List CampaignMessageCandidate → List CampaignMessageCandidate → Option Error

pub record CreateInput : Type 0 where
  pub workspace_id : String
  pub user_id : String
  pub name : String
  pub audience_ref : AudienceRef
  pub template_id : String
  pub sender_domain_id : String
  pub message_type : String
  pub now : ℕ

pub record UpdateInput : Type 0 where
  pub workspace_id : String
  pub campaign_id : String
  pub user_id : String
  pub name : Option String
  pub audience_ref : Option AudienceRef
  pub template_id : Option String
  pub sender_domain_id : Option String
  pub message_type : Option String
  pub now : ℕ

-- A refusal to read counts as a refusal of what was asked for, `denied`.
abbrev pub permitted : String → Result (Unit {0}) → M Db (Unit {0})
permitted denied (ok _) = return tt
permitted denied (err e) =
    if is_error e denied
    then throw e
    else if is_error e "campaign read denied"
    then throw (sentinel denied)
    else throw e

abbrev pub write_denied : String
write_denied = "campaign write denied"

abbrev pub send_denied : String
send_denied = "campaign send denied"

abbrev pub refuse_unless : Bool → Result (Unit {0})
refuse_unless b = if b then ok tt else err (sentinel payload_invalid)

abbrev pub not_empty : String → Bool
not_empty s = not (str_eq s "")

module _ (p : CampaignPorts) where
  abbrev pub new_campaign : CreateInput → String → Campaign
  new_campaign cmd id = record {
    id = id;
    workspace_id = cmd.workspace_id;
    name = cmd.name;
    status = CampaignStatus.draft;
    audience_ref = cmd.audience_ref;
    template_ref = record { template_id = cmd.template_id; template_version_id = "" };
    sender_domain_id = cmd.sender_domain_id;
    message_type = cmd.message_type;
    scheduled_at = none;
    planned_recipients = 0;
    created_at = cmd.now;
    updated_at = cmd.now;
    cancelled_at = none;
    paused_at = none;
    completed_at = none;
  }

  unfoldable pub create_campaign : CreateInput → M Db Campaign
  create_campaign cmd = do
    permitted write_denied (p.require_permission cmd.workspace_id cmd.user_id "campaign.write")
    lift (validate_campaign_name cmd.name)
    lift (refuse_unless (valid_message_type cmd.message_type))
    lift (refuse_unless (valid_audience_type cmd.audience_ref.audience_type))
    lift (validate_audience_ref cmd.audience_ref)
    lift (refuse_unless (not_empty cmd.template_id))
    lift (refuse_unless (not_empty cmd.sender_domain_id))
    id ← id_gen p.env
    call p.env (create p.refuses_campaign (new_campaign cmd id))
    return (new_campaign cmd id)

  -- A new value of a field, if it is given and valid.
  abbrev pub set_field :
      {A : Type 0}
      → (A → Result (Unit {0}))
      → (A → Campaign → Campaign)
      → Option A
      → Campaign
      → Result Campaign
  set_field check set none c = ok c
  set_field check set (some a) c = elim (check a) [ ok _ ↦ ok (set a c) | err e ↦ err e ]

  abbrev pub set_name : Option String → Campaign → Result Campaign
  set_name = set_field validate_campaign_name (λ s c. record c { name = s })

  abbrev pub set_audience : Option AudienceRef → Campaign → Result Campaign
  set_audience = set_field validate_audience_ref (λ r c. record c { audience_ref = r })

  -- A new template takes the published version with it.
  abbrev pub set_template : Option String → Campaign → Result Campaign
  set_template =
      set_field (λ s. refuse_unless (not_empty s))
        λ s c. record c { template_ref = record { template_id = s; template_version_id = "" } }

  abbrev pub set_sender : Option String → Campaign → Result Campaign
  set_sender = set_field (λ s. refuse_unless (not_empty s)) λ s c. record c { sender_domain_id = s }

  abbrev pub set_message_type : Option String → Campaign → Result Campaign
  set_message_type =
      set_field (λ s. refuse_unless (valid_message_type s)) λ s c. record c { message_type = s }

  abbrev pub touched : ℕ → Campaign → Campaign
  touched now c = record c { updated_at = now }

  -- The part of a handler that writes the changed campaign and answers it.
  unfoldable pub write_back : Campaign → M Db Campaign
  write_back c = do call p.env (update c); return c

  unfoldable pub edit : UpdateInput → Campaign → M Db Campaign
  unfolding write_back
  edit cmd c0 = do
    c ← lift (set_name cmd.name c0)
    c ← lift (set_audience cmd.audience_ref c)
    c ← lift (set_template cmd.template_id c)
    c ← lift (set_sender cmd.sender_domain_id c)
    c ← lift (set_message_type cmd.message_type c)
    write_back (touched cmd.now c)

  abbrev pub edit_draft : UpdateInput → Campaign → M Db Campaign
  edit_draft cmd c =
      if can_update_draft c.status then edit cmd c else throw (sentinel invalid_state_transition)

  unfoldable pub update_draft : UpdateInput → M Db Campaign
  unfolding edit
  update_draft cmd = do
    permitted write_denied (p.require_permission cmd.workspace_id cmd.user_id "campaign.write")
    c ← call p.env (find_by_id cmd.workspace_id cmd.campaign_id)
    edit_draft cmd c
