-- ===== src/Delivery/Accept/Bounds.antt =====
-- What `validateSendInput` (delivery/app/send/accept.go) lets through.
use send_flow_backend.Prelude.{
  ℕ, zero, suc, ◌≤◌, String, ◌≡◌, refl, sym, ap, ◌∙◌, subst, ◌⊎◌, inl, inr, Bool, true, false, ◌&&◌,
  not, List, [], ◌∷◌, map, Bool-cases, if◌then◌else◌, length, ltb, ◌==◌, arith,
}
use send_flow_backend.Prelude.Text.{str_eq, eq_iff}
use send_flow_backend.Strings.{trim_space}
use send_flow_backend.Effect.{Error, sentinel, Result, ok, err}
use send_flow_backend.Delivery.Accept.Data.{Input, AcceptPorts, body_invalid, recipient_invalid}
use send_flow_backend.Delivery.Accept.Validate.{
  default_mode, check_template, check_raw, check_content, recipient_count, check_recipients,
  cut_tag, first_tags, cut_tags, check_sizes, check_key, check_mode, validate_send_input,
}
use send_flow_backend.Delivery.Accept.Recipients.{check_ok}

refused :
    {A : Type 0} (e : Error) {a : A} (b : Bool) {r : Result A}
    → (if b then err e else r) ≡ ok a
    → (b ≡ false) × (r ≡ ok a)
refused e true h = absurd cc
refused e false h = (refl, h)

passed :
    {A : Type 0} (e : Error) {a : A} (b : Bool) {r : Result A}
    → (if b then r else err e) ≡ ok a
    → (b ≡ true) × (r ≡ ok a)
passed e true h = (refl, h)
passed e false h = absurd cc

got : {A : Type 0} {a b : A} → ok a ≡ ok b → a ≡ b
got h = cc

length-first_tags : {A : Type 0} (n : ℕ) (xs : List A) → length (first_tags n xs) ≤ n
length-first_tags zero xs = omega arith
length-first_tags (suc n) [] = omega arith
length-first_tags (suc n) (x ∷ xs) = omega (arith, length-first_tags n xs)

pub length-map : {A B : Type 0} (f : A → B) (xs : List A) → length (map f xs) ≡ length xs
length-map f [] = refl
length-map f (x ∷ xs) = ap suc (length-map f xs)

clash : false ≡ true → ⊥
clash e = cc

module _ (p : AcceptPorts) where
  -- What the rest of the code relies on.
  pub record Bounded (i : Input) : Type 0 where
    pub some_recipient : 1 ≤ recipient_count p i
    pub few_recipients : recipient_count p i ≤ 50
    pub few_tags : length i.tags ≤ 20
    pub short_key : p.byte_length i.idempotency_key ≤ 255
    pub known_mode : (i.mode ≡ "template") ⊎ (i.mode ≡ "raw")
    pub no_template_files : i.mode ≡ "template" → length i.attachments ≡ 0
    pub files_stored : p.has_storage ≡ false → length i.attachments ≡ 0

  bounded_recipients :
      (i j : Input)
      → check_recipients p i ≡ ok j
      → (i ≡ j) × (1 ≤ recipient_count p i) × (recipient_count p i ≤ 50)
  unfolding check_recipients
  bounded_recipients i j h =
      let (some_one, h1) = refused recipient_invalid (recipient_count p i == 0) h in
      let (few, h2) = refused recipient_invalid (ltb 50 (recipient_count p i)) h1 in
      let (parse, h3) = passed recipient_invalid _ h2 in (got h3, at_least some_one, at_most few)
    where
      at_least : {n : ℕ} → (n == 0) ≡ false → 1 ≤ n
      at_least h = ground arith

      at_most : {n : ℕ} → ltb 50 n ≡ false → n ≤ 50
      at_most h = ground arith

  -- What is known of the mode and the attachments.
  abbrev Consistent : Input → Type 0
  Consistent i =
      ((i.mode ≡ "template") ⊎ (i.mode ≡ "raw"))
      × (i.mode ≡ "template" → length i.attachments ≡ 0)
      × (p.has_storage ≡ false → length i.attachments ≡ 0)

  known_modes :
      (mode : String)
      → (not (str_eq mode "template") && not (str_eq mode "raw")) ≡ false
      → (mode ≡ "template") ⊎ (mode ≡ "raw")
  known_modes mode h = elim (Bool-cases (str_eq mode "template")) [
    | inl e ↦ inl ((eq_iff mode "template").0 e)
    | inr e ↦ elim (Bool-cases (str_eq mode "raw")) [
      | inl k ↦ inr ((eq_iff mode "raw").0 k)
      | inr k ↦ absurd (cc (rw (e, k) at h))
    ]
  ]

  mode_known : (i j : Input) → check_mode p i ≡ ok j → (j.mode ≡ "template") ⊎ (j.mode ≡ "raw")
  mode_known i j h =
      let (known, h1) = refused (sentinel "delivery mode invalid") _ h in
      let (named, h2) = refused body_invalid _ h1 in
      subst (λ (x : Input). (x.mode ≡ "template") ⊎ (x.mode ≡ "raw")) (got h2)
        (known_modes i.mode known)

  none_left : {n : ℕ} → ltb 0 n ≡ false → n ≡ 0
  none_left h = ground arith

  Consistent-template :
      (i j : Input) → i.mode ≡ "template" → check_template p i ≡ ok j → Consistent j
  unfolding check_template
  Consistent-template i j m h =
      let (named, h1) = refused body_invalid _ h in
      let (free, h2) =
        refused (sentinel "delivery attachments not supported in template mode")
          (ltb 0 (length i.attachments)) h1 in
      subst Consistent (got h2) (inl m, λ _. none_left free, λ _. none_left free)

  Consistent-raw : (i j : Input) → i.mode ≡ "raw" → check_raw p i ≡ ok j → Consistent j
  unfolding check_raw
  Consistent-raw i j m h =
      let (titled, h1) = refused (sentinel "delivery subject required") _ h in
      let (bodied, h2) = refused (sentinel "delivery raw body required") _ h1 in
      let (small, h3) = refused body_invalid _ h2 in
      let (stored, h4) =
        refused (sentinel "delivery object storage disabled")
          (ltb 0 (length i.attachments) && not p.has_storage) h3 in
      subst Consistent (got h4)
        (inr m, λ k. absurd (apart (sym m ∙ k)), λ k. none_left (without p.has_storage _ stored k))
    where
      apart : ◌≡◌ {A = String} "raw" "template" → ⊥
      apart e = clash ((eq_iff "raw" "template").1 e)

      without : (s b : Bool) → (b && not s) ≡ false → s ≡ false → b ≡ false
      without s false h k = refl
      without s true h k = cc

  consistent :
      (i j : Input)
      → (i.mode ≡ "template") ⊎ (i.mode ≡ "raw")
      → check_content p i ≡ ok j
      → Consistent j
  unfolding check_content
  consistent i j (inl m) h = Consistent-template i j m (rw ((eq_iff i.mode "template").1 m) at h)
  consistent i j (inr m) h = elim (Bool-cases (str_eq i.mode "template")) [
    | inl e ↦ Consistent-template i j ((eq_iff i.mode "template").0 e) (rw e at h)
    | inr e ↦ Consistent-raw i j m (rw e at h)
  ]

  sized : (i j : Input) → check_sizes p i ≡ ok j → i ≡ j
  unfolding check_sizes
  sized i j h = got (passed body_invalid _ h).1

  keyed :
      (now : ℕ) (i j : Input)
      → check_key p now i ≡ ok j
      → (p.byte_length (trim_space i.idempotency_key) ≤ 255)
        × (record i {
          idempotency_key = trim_space i.idempotency_key;
          now = (if i.now == 0 then now else i.now);
        }
            ≡ j)
  unfolding check_key
  keyed now i j h =
      let (short, h1) =
        refused body_invalid (ltb 255 (p.byte_length (trim_space i.idempotency_key))) h in
      (at_most short, got h1)
    where
      at_most : {n : ℕ} → ltb 255 n ≡ false → n ≤ 255
      at_most e = ground arith

  abbrev finished : ℕ → Input → Input
  finished now i = record i {
    idempotency_key = trim_space i.idempotency_key;
    now = (if i.now == 0 then now else i.now);
  }

  together :
      (now : ℕ) (i j k : Input)
      → 1 ≤ recipient_count p i
      → recipient_count p i ≤ 50
      → Consistent i
      → cut_tags p i ≡ j
      → p.byte_length (trim_space j.idempotency_key) ≤ 255
      → finished now j ≡ k
      → Bounded k
  unfolding cut_tags recipient_count
  together now i j k some_one few (mode, template, files) cut short last =
      subst Bounded (ap (λ x. finished now x) cut ∙ last) (record {
        some_recipient = some_one;
        few_recipients = few;
        few_tags =
            subst (λ n. n ≤ 20) (sym (length-map (cut_tag p) (first_tags 20 i.tags)))
              (length-first_tags 20 i.tags);
        short_key =
            subst (λ (x : Input). p.byte_length (trim_space x.idempotency_key) ≤ 255) (sym cut)
              short;
        known_mode = mode;
        no_template_files = template;
        files_stored = files;
      })

  -- An input that passes the validation names between one and fifty recipients and at most twenty
  -- tags, has a key of at most 255 bytes and one of the two modes, and brings attachments only in raw
  -- mode and only if there is a storage for them.
  pub validate_send_input-Bounded :
      (now : ℕ) (raw i : Input) → validate_send_input p now raw ≡ ok i → Bounded i
  unfolding validate_send_input
  validate_send_input-Bounded now raw i h =
      let (named, h1) = refused body_invalid (str_eq raw.workspace_id "") h in
      let (i1, moded, h2) = check_ok (check_mode p (default_mode raw)) _ h1 in
      let (i2, filled, h3) = check_ok (check_content p i1) _ h2 in
      let (i3, addressed, h4) = check_ok (check_recipients p i2) _ h3 in
      let (i4, measured, h5) = check_ok (check_sizes p (cut_tags p i3)) _ h4 in
      let (same, some_one, few) = bounded_recipients i2 i3 addressed in
      let (short, last) = keyed now i4 i h5 in
      together now i2 i4 i some_one few
        (consistent i1 i2 (mode_known (default_mode raw) i1 moded) filled)
        (ap (λ x. cut_tags p x) same ∙ sized (cut_tags p i3) i4 measured) short last
