-- ===== src/Campaign/Transitions.antt =====
-- The commands of internal/modules/campaign/app/draft as transitions of the stored campaigns.
use send_flow_backend.Prelude.{
  ◌≡◌, refl, sym, ◌∙◌, subst, Bool, true, false, [], ◌∷◌, ◌++◌, Option, none, some, if◌then◌else◌,
}
use send_flow_backend.Effect.{Error, Result, ok, err, sentinel, M, ◌>>=◌, ◌>>◌, throw, lift}
use send_flow_backend.Effect.Rules.{Keeps-id_gen, Keeps-lift}
use send_flow_backend.Effect.Leaves.{Leaves, Leaves-bind, Leaves-then, Leaves-lift, Leaves-throw}
use send_flow_backend.Campaign.{
  Campaign, CampaignStatus, invalid_state_transition, can_update_draft, can_pause, can_resume,
  can_cancel,
}
use send_flow_backend.Campaign.Store.{Db, create}
use send_flow_backend.Campaign.Draft.{
  CampaignPorts, CreateInput, UpdateInput, create_campaign, update_draft, edit, edit_draft,
  write_back, set_field, touched, new_campaign,
}
use send_flow_backend.Campaign.Change.{
  ChangeInput, pause, resume, cancel, pause_read, resume_read, cancel_read, paused_at_time,
  resumed_at_time, cancelled_at_time,
}
use send_flow_backend.Campaign.Moves.{
  Action, Allowed, pauses_scheduled, pauses_running, resumes, cancels_draft, cancels_scheduled,
  cancels_paused, Moved, Moved-refl, Steps-append,
}
use send_flow_backend.Campaign.Lifecycle.{
  same, Ended, AsRead, Ended-FollowsOn, Ended-AdmitsErrors, AsRead-FollowsOn, AsRead-AdmitsErrors,
  after_call, done, unchanged, write_back-Leaves, handler-Leaves, permitted-Keeps,
}

module _ (p : CampaignPorts) where
  -- A campaign that is read and moved by its status, or refused.
  guarded :
      (x : Action) (b : Bool) (c d : Campaign)
      → (b ≡ true → Moved x c d)
      → Leaves
          (AsRead x p.env c)
          (if b then write_back p d else throw (sentinel invalid_state_transition))
  guarded x true c d h = write_back-Leaves x p.env p c d (h refl)
  guarded x false c d h =
      Leaves-throw same (AsRead x p.env c) (AsRead-FollowsOn x p.env c)
        (AsRead-AdmitsErrors x p.env c) _

  can_pause-Allowed :
      (a : CampaignStatus) → can_pause a ≡ true → Allowed Action.pausing a CampaignStatus.paused
  can_pause-Allowed CampaignStatus.scheduled h = pauses_scheduled
  can_pause-Allowed CampaignStatus.running h = pauses_running
  can_pause-Allowed CampaignStatus.draft h = cc
  can_pause-Allowed CampaignStatus.paused h = cc
  can_pause-Allowed CampaignStatus.cancelled h = cc
  can_pause-Allowed CampaignStatus.completed h = cc

  can_resume-Allowed :
      (a : CampaignStatus)
      → can_resume a ≡ true
      → Allowed Action.resuming a CampaignStatus.scheduled
  can_resume-Allowed CampaignStatus.paused h = resumes
  can_resume-Allowed CampaignStatus.scheduled h = cc
  can_resume-Allowed CampaignStatus.running h = cc
  can_resume-Allowed CampaignStatus.draft h = cc
  can_resume-Allowed CampaignStatus.cancelled h = cc
  can_resume-Allowed CampaignStatus.completed h = cc

  can_cancel-Allowed :
      (a : CampaignStatus)
      → can_cancel a ≡ true
      → Allowed Action.cancelling a CampaignStatus.cancelled
  can_cancel-Allowed CampaignStatus.draft h = cancels_draft
  can_cancel-Allowed CampaignStatus.scheduled h = cancels_scheduled
  can_cancel-Allowed CampaignStatus.paused h = cancels_paused
  can_cancel-Allowed CampaignStatus.running h = cc
  can_cancel-Allowed CampaignStatus.cancelled h = cc
  can_cancel-Allowed CampaignStatus.completed h = cc

  pub pause-Leaves : (cmd : ChangeInput) → Leaves (Ended Action.pausing p.env) (pause p cmd)
  unfolding pause pause_read
  pause-Leaves cmd =
      handler-Leaves Action.pausing p.env p _ _ cmd.workspace_id cmd.campaign_id _ λ c.
        guarded Action.pausing (can_pause c.status) c (paused_at_time cmd.now c) λ h. record {
          same_id = refl;
          same_workspace = refl;
          allowed = can_pause-Allowed c.status h;
        }

  pub resume-Leaves : (cmd : ChangeInput) → Leaves (Ended Action.resuming p.env) (resume p cmd)
  unfolding resume resume_read
  resume-Leaves cmd =
      handler-Leaves Action.resuming p.env p _ _ cmd.workspace_id cmd.campaign_id _ λ c.
        guarded Action.resuming (can_resume c.status) c (resumed_at_time cmd.now c) λ h. record {
          same_id = refl;
          same_workspace = refl;
          allowed = can_resume-Allowed c.status h;
        }

  pub cancel-Leaves : (cmd : ChangeInput) → Leaves (Ended Action.cancelling p.env) (cancel p cmd)
  unfolding cancel cancel_read
  cancel-Leaves cmd =
      handler-Leaves Action.cancelling p.env p _ _ cmd.workspace_id cmd.campaign_id _ λ c.
        guarded Action.cancelling (can_cancel c.status) c (cancelled_at_time cmd.now c) λ h.
          record { same_id = refl; same_workspace = refl; allowed = can_cancel-Allowed c.status h }

  -- A field that is set leaves the keys and the status.
  abbrev pub Kept : Campaign → Campaign → Type 0
  Kept c d = Moved Action.editing c d

  ok_of : {A : Type 0} {a b : A} → ok a ≡ ok b → a ≡ b
  ok_of h = cc

  err_is_not_ok : {A : Type 0} {e : Error} {a : A} → err e ≡ ok a → ⊥
  err_is_not_ok h = cc

  set_field-Kept :
      {A : Type 0} (check : A → Result (Unit {0})) (set : A → Campaign → Campaign) (o : Option A)
      (c0 c d : Campaign)
      → ((a : A) → Kept c0 (set a c))
      → Kept c0 c
      → set_field p check set o c ≡ ok d
      → Kept c0 d
  set_field-Kept check set none c0 c d h k e = subst (Kept c0) (ok_of e) k
  set_field-Kept {A} check set (some a) c0 c d h k e = go (check a) e
    where
      go :
          (r : Result (Unit {0}))
          → (elim r as (λ _. Result Campaign) [ ok _ ↦ ok (set a c) | err e ↦ err e ]) ≡ ok d
          → Kept c0 d
      go (ok _) e = subst (Kept c0) (ok_of e) (h a)
      go (err z) e = absurd (err_is_not_ok e)

  -- One field of an edit, and what follows.
  field_step :
      {A : Type 0} (check : A → Result (Unit {0})) (set : A → Campaign → Campaign) (o : Option A)
      (c0 c : Campaign) {k : Campaign → M Db Campaign}
      → ((a : A) → Kept c0 (set a c))
      → Kept c0 c
      → ((d : Campaign) → Kept c0 d → Leaves (AsRead Action.editing p.env c0) (k d))
      → Leaves (AsRead Action.editing p.env c0) (lift (set_field p check set o c) >>= k)
  field_step check set o c0 c h k l =
      Leaves-lift same (AsRead Action.editing p.env c0) (AsRead-FollowsOn Action.editing p.env c0)
        (AsRead-AdmitsErrors Action.editing p.env c0) (set_field p check set o c)
        λ d e. l d (set_field-Kept check set o c0 c d h k e)

  -- The keys and the status are those of a campaign that keeps them.
  keeping :
      (c0 c d : Campaign)
      → d.id ≡ c.id
      → d.workspace_id ≡ c.workspace_id
      → d.status ≡ c.status
      → Kept c0 c
      → Kept c0 d
  keeping c0 c d i w t k = record {
    same_id = i ∙ k.same_id;
    same_workspace = w ∙ k.same_workspace;
    allowed = subst (Allowed Action.editing c0.status) (sym t) k.allowed;
  }

  edited :
      (cmd : UpdateInput) (c : Campaign) → Leaves (AsRead Action.editing p.env c) (edit p cmd c)
  unfolding edit
  edited cmd c =
      field_step _ _ cmd.name c c (λ a. keeping c c _ refl refl refl (Moved-refl _ c))
        (Moved-refl _ c)
        λ c1 k1.
          field_step _ _ cmd.audience_ref c c1 (λ a. keeping c c1 _ refl refl refl k1) k1
            λ c2 k2.
              field_step _ _ cmd.template_id c c2 (λ a. keeping c c2 _ refl refl refl k2) k2
                λ c3 k3.
                  field_step _ _ cmd.sender_domain_id c c3 (λ a. keeping c c3 _ refl refl refl k3)
                    k3
                    λ c4 k4.
                      field_step _ _ cmd.message_type c c4 (λ a. keeping c c4 _ refl refl refl k4)
                        k4
                        λ c5 k5.
                          write_back-Leaves Action.editing p.env p c (touched p cmd.now c5)
                            (keeping c c5 (touched p cmd.now c5) refl refl refl k5)

  edit-Leaves :
      (cmd : UpdateInput) (c : Campaign)
      → Leaves (AsRead Action.editing p.env c) (edit_draft p cmd c)
  edit-Leaves cmd c =
      elim (can_update_draft c.status)
        as (λ b.
          Leaves (AsRead Action.editing p.env c)
            (if b then edit p cmd c else throw (sentinel invalid_state_transition))) [
              | true ↦ edited cmd c
              | false ↦
                  Leaves-throw same (AsRead Action.editing p.env c)
                    (AsRead-FollowsOn Action.editing p.env c)
                    (AsRead-AdmitsErrors Action.editing p.env c) _
            ]

  pub update_draft-Leaves :
      (cmd : UpdateInput) → Leaves (Ended Action.editing p.env) (update_draft p cmd)
  unfolding update_draft
  update_draft-Leaves cmd =
      handler-Leaves Action.editing p.env p _ _ cmd.workspace_id cmd.campaign_id _ (edit-Leaves cmd)

  create-Ended :
      (c : Campaign) (d : Db)
      → c.status ≡ CampaignStatus.draft
      → Ended Action.editing p.env d
          (create p.refuses_campaign c d).0
          (create p.refuses_campaign c d).1
  unfolding create
  create-Ended c d h = go (p.refuses_campaign c d.campaigns)
    where
      go :
          (o : Option Error)
          → Ended Action.editing p.env d
              (elim o as (λ _. Result (Unit {0}) × Db) [
                | none ↦ (ok tt, record d { campaigns = d.campaigns ++ c ∷ [] })
                | some e ↦ (err e, d)
              ]).0
              (elim o as (λ _. Result (Unit {0}) × Db) [
                | none ↦ (ok tt, record d { campaigns = d.campaigns ++ c ∷ [] })
                | some e ↦ (err e, d)
              ]).1
      go none = done Action.editing p.env d _ tt (Steps-append Action.editing d.campaigns c h)
      go (some e) = unchanged Action.editing p.env d (err e)

  -- A test of the input, and what follows.
  test_step :
      (r : Result (Unit {0})) {m : M Db Campaign}
      → Leaves (Ended Action.editing p.env) m
      → Leaves (Ended Action.editing p.env) (lift r >> m)
  test_step r l =
      Leaves-then same (Ended Action.editing p.env) (Ended-FollowsOn Action.editing p.env)
        (Ended-AdmitsErrors Action.editing p.env) (Keeps-lift same r) l

  pub create_campaign-Leaves :
      (cmd : CreateInput) → Leaves (Ended Action.editing p.env) (create_campaign p cmd)
  unfolding create_campaign
  create_campaign-Leaves cmd =
      Leaves-then same (Ended Action.editing p.env) (Ended-FollowsOn Action.editing p.env)
        (Ended-AdmitsErrors Action.editing p.env) (permitted-Keeps Action.editing p.env p _ _)
        (test_step _ (
          test_step _ (
            test_step _ (
              test_step _ (
                test_step _ (
                  test_step _ (
                    Leaves-bind same (Ended Action.editing p.env)
                      (Ended-FollowsOn Action.editing p.env)
                      (Ended-AdmitsErrors Action.editing p.env) (Keeps-id_gen same p.env)
                      λ id. record {
                        leaves = λ s.
                            after_call Action.editing p.env p.env
                              (create p.refuses_campaign (new_campaign p cmd id))
                              (new_campaign p cmd id) s
                              (create-Ended (new_campaign p cmd id) s.db refl);
                      })))))))
