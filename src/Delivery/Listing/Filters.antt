-- ===== src/Delivery/Listing/Filters.antt =====
-- What the filters of a listing ask of a message (delivery/infrastructure/postgres/repository.go).
use send_flow_backend.Prelude.{
  ℕ, ◌≤◌, String, ◌≡◌, ◌≢◌, refl, sym, ◌∙◌, ◌⊎◌, inl, inr, ◌↔◌, Bool, true, false, ◌&&◌, not,
  Option, none, some, Bool-cases, and_true, arith,
}
use send_flow_backend.Prelude.Text.{str_eq, eq_iff, ne_by_test}
use send_flow_backend.Delivery.Status.{text}
use send_flow_backend.Delivery.Message.{Message}
use send_flow_backend.Delivery.Listing.{MessageListQuery, is_listed, wanted, in_mode, since, until}

-- An empty filter asks nothing.
abbrev pub Asks : String → String → Type 0
Asks filter value = (filter ≡ "") ⊎ (value ≡ filter)

-- A template's message has one, a raw message has none.
abbrev pub InMode : String → String → Type 0
InMode mode template_id = (mode ≡ "template" → template_id ≢ "") × (mode ≡ "raw" → template_id ≡ "")

-- Created at the time or later, and at the time or earlier, where it is given.
abbrev pub NotBefore : Option ℕ → ℕ → Type 0
NotBefore bound t = (b : ℕ) → bound ≡ some b → b ≤ t

abbrev pub NotAfter : Option ℕ → ℕ → Type 0
NotAfter bound t = (b : ℕ) → bound ≡ some b → t ≤ b

-- The filters that the listing applies. It looks at neither the recipient's role nor the API key.
abbrev pub Meets : MessageListQuery → Message → Type 0
Meets q m =
    (m.workspace_id ≡ q.workspace_id)
    × Asks q.campaign_id m.campaign_id
    × Asks q.transactional_request_id m.transactional_request_id
    × Asks q.status (text m.status)
    × Asks q.message_type m.message_type
    × InMode q.mode m.template_id
    × Asks q.provider m.provider
    × Asks q.recipient_email_normalized m.recipient_email_normalized
    × Asks q.provider_message_id m.provider_message_id
    × NotBefore q.from m.created_at
    × NotAfter q.to m.created_at

and_iff : {P Q : Type 0} {a b : Bool} → (a ≡ true) ↔ P → (b ≡ true) ↔ Q → (a && b ≡ true) ↔ (P × Q)
and_iff {a} {b} f g = (
  λ h. (f.0 (and_true h).0, g.0 (and_true h).1),
  λ (x, y). let u = f.1 x in let v = g.1 y in rw (u, v) refl,
)

wanted_iff : (filter value : String) → (wanted filter value ≡ true) ↔ Asks filter value
wanted_iff filter value = elim (Bool-cases (str_eq filter "")) [
  | inl e ↦ (λ h. inl ((eq_iff filter "").0 e), λ h. rw e refl)
  | inr e ↦ (
    λ h. inr ((eq_iff value filter).0 (rw e at h)),
    λ h. elim h [
      | inl x ↦ absurd (clash ((eq_iff filter "").1 x) e)
      | inr x ↦ rw e ((eq_iff value filter).1 x)
    ],
  )
]
  where
    clash : {b : Bool} → b ≡ true → b ≡ false → ⊥
    clash h k = cc

in_mode_iff :
    (mode template_id : String) → (in_mode mode template_id ≡ true) ↔ InMode mode template_id
in_mode_iff mode template_id = elim (Bool-cases (str_eq mode "template")) [
  | inl e ↦ rw e (
    λ h. (
      λ m x. clash (not_true h) ((eq_iff template_id "").1 x),
      λ m. absurd (apart ((eq_iff mode "template").0 e) m),
    ),
    λ h.
        not_false
          (is_false (λ x. h.0 ((eq_iff mode "template").0 e) ((eq_iff template_id "").0 x))),
  )
  | inr e ↦ elim (Bool-cases (str_eq mode "raw")) [
    | inl k ↦
        rw (e, k)
          (
            λ h. (λ m x. clash e ((eq_iff mode "template").1 m), λ m. (eq_iff template_id "").0 h),
            λ h. (eq_iff template_id "").1 (h.1 ((eq_iff mode "raw").0 k)),
          )
    | inr k ↦
        rw (e, k)
          (
            λ h. (
              λ m x. clash e ((eq_iff mode "template").1 m),
              λ m. absurd (clash k ((eq_iff mode "raw").1 m)),
            ),
            λ h. refl,
          )
  ]
]
  where
    clash : {b : Bool} → b ≡ false → b ≡ true → ⊥
    clash h k = cc

    not_true : {b : Bool} → not b ≡ true → b ≡ false
    not_true h = ground arith

    not_false : {b : Bool} → b ≡ false → not b ≡ true
    not_false h = ground arith

    is_false : {b : Bool} → (b ≡ true → ⊥) → b ≡ false
    is_false {b = true} h = absurd (h refl)
    is_false {b = false} h = refl

    apart : mode ≡ "template" → mode ≡ "raw" → ⊥
    apart h k = ne_by_test "template" "raw" refl (sym h ∙ k)

some_inj : {a b : ℕ} → some a ≡ some b → a ≡ b
some_inj h = cc

since_iff : (o : Option ℕ) (t : ℕ) → (since o t ≡ true) ↔ NotBefore o t
since_iff none t = (λ h b k. cc, λ h. refl)
since_iff (some a) t =
    (λ h b k. let q = some_inj k in ground arith, λ h. let q = h a refl in ground arith)

until_iff : (o : Option ℕ) (t : ℕ) → (until o t ≡ true) ↔ NotAfter o t
until_iff none t = (λ h b k. cc, λ h. refl)
until_iff (some a) t =
    (λ h b k. let q = some_inj k in ground arith, λ h. let q = h a refl in ground arith)

pub is_listed_iff : (q : MessageListQuery) (m : Message) → (is_listed q m ≡ true) ↔ Meets q m
unfolding is_listed
is_listed_iff q m =
    let each =
      and_iff
        (and_iff
          (and_iff
            (and_iff
              (and_iff
                (and_iff
                  (and_iff
                    (and_iff
                      (and_iff
                        (and_iff (eq_iff m.workspace_id q.workspace_id)
                          (wanted_iff q.campaign_id m.campaign_id))
                        (wanted_iff q.transactional_request_id m.transactional_request_id))
                      (wanted_iff q.status (text m.status)))
                    (wanted_iff q.message_type m.message_type))
                  (in_mode_iff q.mode m.template_id))
                (wanted_iff q.provider m.provider))
              (wanted_iff q.recipient_email_normalized m.recipient_email_normalized))
            (wanted_iff q.provider_message_id m.provider_message_id))
          (since_iff q.from m.created_at))
        (until_iff q.to m.created_at) in
    (
      λ t.
          let ((((((((((a, b), c), d), e), f), g), h), i), j), k) = each.0 t in
          (a, b, c, d, e, f, g, h, i, j, k),
      λ (a, b, c, d, e, f, g, h, i, j, k).
          each.1 ((((((((((a, b), c), d), e), f), g), h), i), j), k),
    )
