-- ===== src/Campaign/Closed.antt =====
-- Every command of internal/modules/campaign, and commands in a row.
use send_flow_backend.Prelude.{◌≡◌, refl, ◌∙◌, List, [], ◌∷◌}
use send_flow_backend.Effect.{Error, err, Sys}
use send_flow_backend.Effect.Rules.{CommitsTold}
use send_flow_backend.Effect.Leaves.{Leaves}
use send_flow_backend.Campaign.{Campaign, CampaignStatus}
use send_flow_backend.Campaign.Store.{Db}
use send_flow_backend.Campaign.Draft.{CampaignPorts}
use send_flow_backend.Campaign.Command.{
  Command, creating, updating, scheduling, pausing, resuming, cancelling, run, run_all,
}
use send_flow_backend.Campaign.Moves.{
  Action, Allowed, stays, schedules, pauses_scheduled, pauses_running, resumes, cancels_draft,
  cancels_scheduled, cancels_paused, Steps,
}
use send_flow_backend.Campaign.Lifecycle.{Ended, forget-Leaves}
use send_flow_backend.Campaign.Transitions.{
  create_campaign-Leaves, update_draft-Leaves, pause-Leaves, resume-Leaves, cancel-Leaves,
}
use send_flow_backend.Campaign.Scheduled.{schedule-Leaves}

abbrev pub action_of : Command → Action
action_of (creating cmd) = Action.editing
action_of (updating cmd) = Action.editing
action_of (scheduling cmd) = Action.scheduling
action_of (pausing cmd) = Action.pausing
action_of (resuming cmd) = Action.resuming
action_of (cancelling cmd) = Action.cancelling

run-Leaves : (p : CampaignPorts) (c : Command) → Leaves (Ended (action_of c) p.env) (run p c)
unfolding run
run-Leaves p (creating cmd) = forget-Leaves Action.editing p.env (create_campaign-Leaves p cmd)
run-Leaves p (updating cmd) = forget-Leaves Action.editing p.env (update_draft-Leaves p cmd)
run-Leaves p (scheduling cmd) = forget-Leaves Action.scheduling p.env (schedule-Leaves p cmd)
run-Leaves p (pausing cmd) = forget-Leaves Action.pausing p.env (pause-Leaves p cmd)
run-Leaves p (resuming cmd) = forget-Leaves Action.resuming p.env (resume-Leaves p cmd)
run-Leaves p (cancelling cmd) = forget-Leaves Action.cancelling p.env (cancel-Leaves p cmd)

-- Whatever the ports, the database and the encoders answer, a command on campaigns keeps every stored
-- campaign with its identifier and workspace, in its place; a status changes at most once, from draft
-- to scheduled by scheduling, from scheduled or running to paused by pausing, from paused to scheduled
-- by resuming, and from draft, scheduled or paused to cancelled by cancelling; creating and updating
-- change none. New campaigns come last and are drafts.
pub run_moves :
    (p : CampaignPorts) (c : Command) (s : Sys Db)
    → Steps (action_of c) s.db.campaigns (run p c s).1.db.campaigns
run_moves p c s = ((run-Leaves p c).leaves s).steps

-- Where a commit that answers an error has not been done: a command on campaigns that answers with an
-- error leaves the campaigns, the candidates and the outbox as they were.
pub run_undoes :
    (p : CampaignPorts) (c : Command) (s : Sys Db) (e : Error)
    → CommitsTold p.env
    → (run p c s).0 ≡ err e
    → (run p c s).1.db ≡ s.db
run_undoes p c s e told h = ((run-Leaves p c).leaves s).undone told h

-- The statuses that are final.
pub data Final : CampaignStatus → Type 0 where
  is_cancelled : Final CampaignStatus.cancelled
  is_completed : Final CampaignStatus.completed

Allowed-Final : {x : Action} {a b : CampaignStatus} → Final a → Allowed x a b → b ≡ a
Allowed-Final f stays = refl
Allowed-Final f schedules = elim f [ ]
Allowed-Final f pauses_scheduled = elim f [ ]
Allowed-Final f pauses_running = elim f [ ]
Allowed-Final f resumes = elim f [ ]
Allowed-Final f cancels_draft = elim f [ ]
Allowed-Final f cancels_scheduled = elim f [ ]
Allowed-Final f cancels_paused = elim f [ ]

-- Each campaign of the first list is there in the second, in its place, with its status if that was
-- final.
abbrev pub KeepsFinal : List Campaign → List Campaign → Type 0
KeepsFinal [] bs = Unit
KeepsFinal (a ∷ as') [] = ⊥
KeepsFinal (a ∷ as') (b ∷ bs) =
    ((b.id ≡ a.id) × (Final a.status → b.status ≡ a.status)) × KeepsFinal as' bs

KeepsFinal-refl : (as' : List Campaign) → KeepsFinal as' as'
KeepsFinal-refl [] = tt
KeepsFinal-refl (a ∷ as') = ((refl, λ f. refl), KeepsFinal-refl as')

KeepsFinal-trans :
    (xs ys zs : List Campaign) → KeepsFinal xs ys → KeepsFinal ys zs → KeepsFinal xs zs
KeepsFinal-trans [] ys zs h k = tt
KeepsFinal-trans (x ∷ xs) [] zs h k = absurd h
KeepsFinal-trans (x ∷ xs) (y ∷ ys) [] h k = absurd k
KeepsFinal-trans (x ∷ xs) (y ∷ ys) (z ∷ zs) (h, hs) (k, ks) =
    ((k.0 ∙ h.0, λ f. k.1 (rw (h.1 f) f) ∙ h.1 f), KeepsFinal-trans xs ys zs hs ks)

Steps-KeepsFinal : (x : Action) (xs ys : List Campaign) → Steps x xs ys → KeepsFinal xs ys
Steps-KeepsFinal x [] ys h = tt
Steps-KeepsFinal x (a ∷ as') [] h = absurd h
Steps-KeepsFinal x (a ∷ as') (b ∷ bs) (m, h) =
    ((m.same_id, λ f. Allowed-Final f m.allowed), Steps-KeepsFinal x as' bs h)

-- Whatever commands run one after another, and whatever each answers, every stored campaign stays in
-- its place with its identifier, and one that is cancelled or completed keeps its status.
pub run_all-KeepsFinal :
    (p : CampaignPorts) (cs : List Command) (s : Sys Db)
    → KeepsFinal s.db.campaigns (run_all p cs s).db.campaigns
unfolding run_all
run_all-KeepsFinal p [] s = KeepsFinal-refl s.db.campaigns
run_all-KeepsFinal p (c ∷ cs) s =
    KeepsFinal-trans s.db.campaigns (run p c s).1.db.campaigns (run_all p (c ∷ cs) s).db.campaigns
      (Steps-KeepsFinal (action_of c) s.db.campaigns (run p c s).1.db.campaigns (run_moves p c s))
      (run_all-KeepsFinal p cs (run p c s).1)
