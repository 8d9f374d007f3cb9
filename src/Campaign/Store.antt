-- ===== src/Campaign/Store.antt =====
-- The tables of campaigns and the statements of campaign/infrastructure/postgres/repository.go.
-- `id` is a primary key, so a statement on one row is one on the first that matches; the audience's
-- contacts read back as they were written. The server's refusal of an `INSERT`, by its rows and the
-- table, is a parameter.
use send_flow_backend.Prelude.{
  String, Bool, ◌&&◌, not, List, [], ◌∷◌, ◌++◌, Option, none, some, if◌then◌else◌, find?,
  modify_first, any, filter,
}
use send_flow_backend.Prelude.Text.{str_eq}
use send_flow_backend.Effect.{Error, sentinel, Result, ok, err}
use send_flow_backend.Events.{OutboxEvent}
use send_flow_backend.Campaign.{Campaign, CampaignMessageCandidate, campaign_not_found}

pub record Db : Type 0 where
  pub campaigns : List Campaign
  pub candidates : List CampaignMessageCandidate
  pub outbox : List OutboxEvent

abbrev pub is_campaign : String → String → Campaign → Bool
is_campaign workspace_id id c = str_eq c.id id && str_eq c.workspace_id workspace_id

abbrev pub found : Option Campaign → Db → Result Campaign × Db
found none d = (err (sentinel campaign_not_found), d)
found (some c) d = (ok c, d)

unfoldable pub find_by_id : String → String → Db → Result Campaign × Db
find_by_id workspace_id id d = found (find? (is_campaign workspace_id id) d.campaigns) d

unfoldable pub create :
    (Campaign → List Campaign → Option Error) → Campaign → Db → Result (Unit {0}) × Db
create refusal c d = elim (refusal c d.campaigns) [
  | none ↦ (ok tt, record d { campaigns = d.campaigns ++ c ∷ [] })
  | some e ↦ (err e, d)
]

-- `Update` sets every column but the keys and `created_at`.
abbrev pub set_columns : Campaign → Campaign → Campaign
set_columns c row = record c {
  id = row.id;
  workspace_id = row.workspace_id;
  created_at = row.created_at;
}

unfoldable pub update : Campaign → Db → Result (Unit {0}) × Db
update c d =
    if any (is_campaign c.workspace_id c.id) d.campaigns
    then (
      ok tt,
      record d {
        campaigns = modify_first (is_campaign c.workspace_id c.id) (set_columns c) d.campaigns;
      },
    )
    else (err (sentinel campaign_not_found), d)

abbrev pub is_candidate_of : String → String → CampaignMessageCandidate → Bool
is_candidate_of workspace_id campaign_id x =
    str_eq x.workspace_id workspace_id && str_eq x.campaign_id campaign_id

abbrev pub others : String → String → List CampaignMessageCandidate → List CampaignMessageCandidate
others workspace_id campaign_id xs =
    filter (λ x. not (is_candidate_of workspace_id campaign_id x)) xs

abbrev pub inserted : Option Error → Db → List CampaignMessageCandidate → Result (Unit {0}) × Db
inserted (some e) d rows = (err e, d)
inserted none d rows = (ok tt, record d { candidates = d.candidates ++ rows })

-- The `DELETE`, and the `INSERT` unless there are no candidates. The two statements run in the
-- transaction of the caller, so that what is deleted comes back if the insertion is refused.
unfoldable pub replace_candidates :
    (List CampaignMessageCandidate → List CampaignMessageCandidate → Option Error)
    → String
    → String
    → List CampaignMessageCandidate
    → Db
    → Result (Unit {0}) × Db
replace_candidates refusal workspace_id campaign_id [] d =
    (ok tt, record d { candidates = others workspace_id campaign_id d.candidates })
replace_candidates refusal workspace_id campaign_id (c ∷ cs) d =
    let rest = others workspace_id campaign_id d.candidates in
    inserted (refusal (c ∷ cs) rest) (record d { candidates = rest }) (c ∷ cs)

unfoldable pub save : OutboxEvent → Db → Result (Unit {0}) × Db
save e d = (ok tt, record d { outbox = d.outbox ++ e ∷ [] })
