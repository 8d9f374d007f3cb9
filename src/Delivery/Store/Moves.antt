-- ===== src/Delivery/Store/Moves.antt =====
-- How a handler may change the statuses of the stored messages.
use send_flow_backend.Prelude.{
  ◌≡◌, refl, ◌∙◌, Bool, List, [], ◌∷◌, some, find?, modify_first, eq_of_some, Bool-cases, inl, inr,
}
use send_flow_backend.Effect.Rules.{Preorder}
use send_flow_backend.Delivery.Status.{MessageStatus}
use send_flow_backend.Delivery.Status.Transitions.{Reach, here, next}
use send_flow_backend.Delivery.Message.{Message}
use send_flow_backend.Delivery.Store.{Db}

pub Reach-trans : {s t u : MessageStatus} → Reach s t → Reach t u → Reach s u
Reach-trans r here = r
Reach-trans r (next q h) = next (Reach-trans r q) h

-- The same message, its status moved along allowed transitions.
pub record MovedOne (m n : Message) : Type 0 where
  pub same_id : n.id ≡ m.id
  pub same_workspace : n.workspace_id ≡ m.workspace_id
  pub reach : Reach m.status n.status

-- The same messages, none added or removed, each moved along allowed transitions.
abbrev pub Moved : List Message → List Message → Type 0
Moved [] [] = Unit
Moved [] (n ∷ ns) = ⊥
Moved (m ∷ ms) [] = ⊥
Moved (m ∷ ms) (n ∷ ns) = MovedOne m n × Moved ms ns

MovedOne-refl : (m : Message) → MovedOne m m
MovedOne-refl m = record { same_id = refl; same_workspace = refl; reach = here }

pub Moved-refl : (ms : List Message) → Moved ms ms
Moved-refl [] = tt
Moved-refl (m ∷ ms) = (MovedOne-refl m, Moved-refl ms)

MovedOne-trans : (a b c : Message) → MovedOne a b → MovedOne b c → MovedOne a c
MovedOne-trans a b c h k = record {
  same_id = k.same_id ∙ h.same_id;
  same_workspace = k.same_workspace ∙ h.same_workspace;
  reach = Reach-trans h.reach k.reach;
}

pub Moved-trans : (a b c : List Message) → Moved a b → Moved b c → Moved a c
Moved-trans [] [] [] h k = tt
Moved-trans (a ∷ as') (b ∷ bs) (c ∷ cs) h k =
    (MovedOne-trans a b c h.0 k.0, Moved-trans as' bs cs h.1 k.1)
Moved-trans [] (b ∷ bs) c h k = absurd h
Moved-trans [] [] (c ∷ cs) h k = absurd k
Moved-trans (a ∷ as') [] c h k = absurd h
Moved-trans (a ∷ as') (b ∷ bs) [] h k = absurd k

abbrev pub moves : Preorder Db
moves = record {
  Rel = λ d e. Moved d.messages e.messages;
  same = λ d. Moved-refl d.messages;
  both = λ a b c. Moved-trans a.messages b.messages c.messages;
}

-- The messages are left as they are.
abbrev pub unmoved : Preorder Db
unmoved = record {
  Rel = λ d e. e.messages ≡ d.messages;
  same = λ d. refl;
  both = λ a b c h k. k ∙ h;
}

pub Moved-of_eq : (a b : List Message) → b ≡ a → Moved a b
Moved-of_eq a b e = rw e (Moved-refl a)

-- A write of the first row that passes a test moves the messages if that row moves.
pub Moved-modify_first :
    (p : Message → Bool) (f : Message → Message) (ms : List Message) {c : Message}
    → find? p ms ≡ some c
    → MovedOne c (f c)
    → Moved ms (modify_first p f ms)
Moved-modify_first p f [] e h = tt
Moved-modify_first p f (m ∷ ms) {c} e h = elim (Bool-cases (p m)) [
  | inl yes' ↦ let same : m ≡ c = eq_of_some (rw yes' at e) in rw yes' (rw same (h, Moved-refl ms))
  | inr no' ↦ rw no' (MovedOne-refl m, Moved-modify_first p f ms (rw no' at e) h)
]
