-- ===== src/Campaign/Moves.antt =====
-- How a command may change the statuses of the campaigns.
use send_flow_backend.Prelude.{
  ◌≡◌, refl, Bool, List, [], ◌∷◌, ◌++◌, some, find?, modify_first, eq_of_some, Bool-cases, inl, inr,
  All,
}
use send_flow_backend.Campaign.{Campaign, CampaignStatus}

-- What a command is about, apart from its arguments.
pub data Action : Type 0 where
  editing scheduling pausing resuming cancelling : Action

-- The transitions of each.
pub data Allowed : Action → CampaignStatus → CampaignStatus → Type 0 where
  stays : {x : Action} {a : CampaignStatus} → Allowed x a a
  schedules : Allowed Action.scheduling CampaignStatus.draft CampaignStatus.scheduled
  pauses_scheduled : Allowed Action.pausing CampaignStatus.scheduled CampaignStatus.paused
  pauses_running : Allowed Action.pausing CampaignStatus.running CampaignStatus.paused
  resumes : Allowed Action.resuming CampaignStatus.paused CampaignStatus.scheduled
  cancels_draft : Allowed Action.cancelling CampaignStatus.draft CampaignStatus.cancelled
  cancels_scheduled : Allowed Action.cancelling CampaignStatus.scheduled CampaignStatus.cancelled
  cancels_paused : Allowed Action.cancelling CampaignStatus.paused CampaignStatus.cancelled

pub Allowed-trans :
    {x : Action} {a b c : CampaignStatus} → Allowed x a b → Allowed x b c → Allowed x a c
Allowed-trans stays k = k
Allowed-trans schedules stays = schedules
Allowed-trans pauses_scheduled stays = pauses_scheduled
Allowed-trans pauses_running stays = pauses_running
Allowed-trans resumes stays = resumes
Allowed-trans cancels_draft stays = cancels_draft
Allowed-trans cancels_scheduled stays = cancels_scheduled
Allowed-trans cancels_paused stays = cancels_paused

module _ (x : Action) where
  -- The same campaign, its status moved by at most one transition.
  pub record Moved (a b : Campaign) : Type 0 where
    pub same_id : b.id ≡ a.id
    pub same_workspace : b.workspace_id ≡ a.workspace_id
    pub allowed : Allowed x a.status b.status

  abbrev IsDraft : Campaign → Type 0
  IsDraft c = c.status ≡ CampaignStatus.draft

  -- The same campaigns, each so moved, and new drafts after them.
  abbrev pub Steps : List Campaign → List Campaign → Type 0
  Steps [] bs = All IsDraft bs
  Steps (a ∷ as') [] = ⊥
  Steps (a ∷ as') (b ∷ bs) = Moved a b × Steps as' bs

  pub Moved-refl : (a : Campaign) → Moved a a
  Moved-refl a = record { same_id = refl; same_workspace = refl; allowed = stays }

  pub Steps-refl : (as' : List Campaign) → Steps as' as'
  Steps-refl [] = tt
  Steps-refl (a ∷ as') = (Moved-refl a, Steps-refl as')

  pub Steps-append :
      (as' : List Campaign) (c : Campaign)
      → c.status ≡ CampaignStatus.draft
      → Steps as' (as' ++ c ∷ [])
  Steps-append [] c h = (h, tt)
  Steps-append (a ∷ as') c h = (Moved-refl a, Steps-append as' c h)

  -- A write of the first row that passes a test is a step if that row moves.
  pub Steps-modify_first :
      (p : Campaign → Bool) (f : Campaign → Campaign) (as' : List Campaign) {c : Campaign}
      → find? p as' ≡ some c
      → Moved c (f c)
      → Steps as' (modify_first p f as')
  Steps-modify_first p f [] e h = tt
  Steps-modify_first p f (a ∷ as') {c} e h = elim (Bool-cases (p a)) [
    | inl yes' ↦
        let same : a ≡ c = eq_of_some (rw yes' at e) in rw yes' (rw same (h, Steps-refl as'))
    | inr no' ↦ rw no' (Moved-refl a, Steps-modify_first p f as' (rw no' at e) h)
  ]
