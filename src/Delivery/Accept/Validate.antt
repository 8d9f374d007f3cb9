-- ===== src/Delivery/Accept/Validate.antt =====
-- internal/modules/delivery/app/send/accept.go: `validateSendInput`, `explodeRecipients`,
-- `buildCanonical`, `cleanTags` and `computeRequestHash`.
use send_flow_backend.Prelude.{
  ℕ, ◌+◌, zero, suc, String, Bool, true, false, ◌&&◌, ◌||◌, not, List, [], ◌∷◌, ◌++◌, map, Option,
  none, some, if◌then◌else◌, ltb, ◌==◌, length, all, find?,
}
use send_flow_backend.Prelude.Text.{str_eq, joined}
use send_flow_backend.Strings.{trim_space}
use send_flow_backend.Effect.{Error, sentinel, failure, explained, Result, ok, err}
use send_flow_backend.Delivery.Accept.Data.{
  max_idempotency_key_length, max_metadata_size, max_template_data_size, max_tags_count,
  max_tag_length, max_recipients, max_body_length, RecipientTarget, AttachmentStream, Input, Target,
  FilePart, CanonicalSendRequest, AcceptPorts, body_invalid, recipient_invalid,
}

abbrev pub and_check : {A B : Type 0} → Result A → (A → Result B) → Result B
and_check (ok a) f = f a
and_check (err e) f = err e

abbrev pub default_mode : Input → Input
default_mode input = if str_eq input.mode "" then record input { mode = "template" } else input

abbrev pub has_attachments : Input → Bool
has_attachments input = ltb 0 (length input.attachments)

abbrev pub first_tags : {A : Type 0} → ℕ → List A → List A
first_tags zero xs = []
first_tags (suc n) [] = []
first_tags (suc n) (x ∷ xs) = x ∷ first_tags n xs

module _ (p : AcceptPorts) where
  unfoldable pub check_template : Input → Result Input
  check_template input =
      let trimmed = trim_space input.template_id in
      if str_eq trimmed ""
      then err body_invalid
      else if has_attachments input
      then err (sentinel "delivery attachments not supported in template mode")
      else ok (record input {
        template_id = trimmed;
        template_version_id = trim_space input.template_version_id;
      })

  unfoldable pub check_raw : Input → Result Input
  check_raw input =
      if str_eq input.subject ""
      then err (sentinel "delivery subject required")
      else if str_eq input.text_body "" && str_eq input.html_body ""
      then err (sentinel "delivery raw body required")
      else if ltb max_body_length (p.byte_length input.html_body)
          || ltb max_body_length (p.byte_length input.text_body)
      then err body_invalid
      else if has_attachments input && not p.has_storage
      then err (sentinel "delivery object storage disabled")
      else ok input

  unfoldable pub check_content : Input → Result Input
  unfolding check_template check_raw
  check_content input =
      if str_eq input.mode "template" then check_template input else check_raw input

  abbrev parses : RecipientTarget → Bool
  parses r = p.parses_address (trim_space r.email)

  unfoldable pub recipient_count : Input → ℕ
  recipient_count input = length input.to + length input.cc + length input.bcc

  unfoldable pub check_recipients : Input → Result Input
  unfolding recipient_count
  check_recipients input =
      if recipient_count input == 0
      then err recipient_invalid
      else if ltb max_recipients (recipient_count input)
      then err recipient_invalid
      else if all parses input.to && all parses input.cc && all parses input.bcc
      then ok input
      else err recipient_invalid

  abbrev pub cut_tag : String → String
  cut_tag tag =
      if ltb max_tag_length (p.byte_length tag) then p.first_bytes max_tag_length tag else tag

  unfoldable pub cut_tags : Input → Input
  cut_tags input = record input { tags = map cut_tag (first_tags max_tags_count input.tags) }

  abbrev pub encoded_within : ℕ → Result String → Bool
  encoded_within size (ok bytes) = not (ltb size (p.byte_length bytes))
  encoded_within size (err e) = false

  abbrev pub map_within : ℕ → Option (List (String × String)) → Bool
  map_within size none = true
  map_within size (some entries) = encoded_within size (p.encode_map entries)

  unfoldable pub check_sizes : Input → Result Input
  check_sizes input =
      if map_within max_metadata_size input.metadata
        && map_within max_template_data_size input.template_data
      then ok input
      else err body_invalid

  unfoldable pub check_key : ℕ → Input → Result Input
  check_key now input =
      let key = trim_space input.idempotency_key in
      if ltb max_idempotency_key_length (p.byte_length key)
      then err body_invalid
      else ok (record input {
        idempotency_key = key;
        now = (if input.now == 0 then now else input.now);
      })

  abbrev pub check_mode : Input → Result Input
  check_mode input =
      if not (str_eq input.mode "template") && not (str_eq input.mode "raw")
      then err (sentinel "delivery mode invalid")
      else let domain = trim_space input.sender_domain_id in
        if str_eq domain ""
        then err body_invalid
        else ok (record input { sender_domain_id = domain })

  -- `validateSendInput`: the input as it leaves the checks; `now` is the clock's reading.
  unfoldable pub validate_send_input : ℕ → Input → Result Input
  unfolding check_content check_recipients cut_tags check_sizes check_key
  validate_send_input now input =
      if str_eq input.workspace_id ""
      then err body_invalid
      else and_check (check_mode (default_mode input)) λ i. and_check (check_content i) λ i.
        and_check (check_recipients i) λ i. and_check (check_sizes (cut_tags i)) (check_key now)

  unfoldable pub normalize_email : String → String
  normalize_email email = p.to_lower (trim_space email)

  abbrev pub same_email : String → Target → Bool
  same_email email t = str_eq (p.to_lower (trim_space t.recipient.email)) email

  -- The error of a recipient whose address `first` has already.
  abbrev pub duplicate : RecipientTarget → String → Target → Error
  duplicate r role first = explained (sentinel "delivery duplicate recipient") (
      failure (
        joined "email " (
          joined (p.quote r.email)
            (joined " appears in both " (joined first.role (joined " and " role))))))

  abbrev pub append_if_unique :
      RecipientTarget → String → List Target → Option Target → Result (List Target)
  append_if_unique r role targets none =
      ok (targets ++ (record { recipient = r; role = role }) ∷ [])
  append_if_unique r role targets (some first) = err (duplicate r role first)

  unfoldable pub explode : String → List RecipientTarget → List Target → Result (List Target)
  explode role [] targets = ok targets
  explode role (r ∷ rest) targets =
      and_check
        (append_if_unique r role targets
          (find? (same_email (p.to_lower (trim_space r.email))) targets))
        (explode role rest)

  unfoldable pub explode_recipients :
      List RecipientTarget → List RecipientTarget → List RecipientTarget → Result (List Target)
  unfolding explode
  explode_recipients to cc bcc =
      and_check (explode "to" to [])
        λ targets. and_check (explode "cc" cc targets) (explode "bcc" bcc)

  abbrev pub clean_tag : String → List String → List String
  clean_tag tag rest =
      let trimmed = trim_space tag in if str_eq trimmed "" then rest else cut_tag trimmed ∷ rest

  abbrev clean_each : List String → List String
  clean_each [] = []
  clean_each (tag ∷ rest) = clean_tag tag (clean_each rest)

  unfoldable pub clean_tags : List String → List String
  clean_tags tags = first_tags max_tags_count (clean_each tags)

  abbrev trimmed_target : RecipientTarget → RecipientTarget
  trimmed_target r = record { email = trim_space r.email; name = trim_space r.name }

  abbrev file_part : AttachmentStream → FilePart
  file_part a = record {
    filename = a.filename;
    content_type = a.content_type;
    size = a.size;
    sha256 = a.sha256;
    disposition = a.disposition;
    content_id = a.content_id;
  }

  unfoldable pub build_canonical : Input → CanonicalSendRequest
  unfolding clean_tags
  build_canonical input = record {
    mode = input.mode;
    sender_domain_id = trim_space input.sender_domain_id;
    sender_name = input.sender_name;
    subject = input.subject;
    template_id = trim_space input.template_id;
    template_version_id = trim_space input.template_version_id;
    template_data = input.template_data;
    text_body = input.text_body;
    html_body = input.html_body;
    reply_to = input.reply_to;
    to = map trimmed_target input.to;
    cc = map trimmed_target input.cc;
    bcc = map trimmed_target input.bcc;
    metadata = input.metadata;
    tags = clean_tags input.tags;
    headers = input.headers;
    attachments = map file_part input.attachments;
  }

  abbrev encoded_line : Result String → String
  encoded_line (ok text) = joined text "\n"
  encoded_line (err e) = ""

  abbrev digests : List AttachmentStream → String
  digests [] = ""
  digests (a ∷ rest) = joined a.sha256 (digests rest)

  unfoldable pub compute_request_hash : CanonicalSendRequest → List AttachmentStream → String
  compute_request_hash canonical attachments =
      p.sha256_hex (joined (encoded_line (p.encode_canonical canonical)) (digests attachments))
