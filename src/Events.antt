-- ===== src/Events.antt =====
-- internal/platform/events/envelope.go: the envelope of an outbox event.
-- The JSON encoder is a parameter, `Json`: what it answers for a payload of the component and for an
-- envelope.
use send_flow_backend.Prelude.{ℕ, String, Bool, true, ◌&&◌, ◌||◌, if◌then◌else◌, ltb, leb, ◌==◌}
use send_flow_backend.Prelude.Text.{str_eq}
use send_flow_backend.Effect.{sentinel, Result, ok, err}
use Prim.Native.Char.{code}

-- `unicode.IsSpace`.
unfoldable pub is_space : ℕ → Bool
is_space c =
    (leb 9 c && leb c 13)
    || c == 32
    || c == 0x85
    || c == 0xa0
    || c == 0x1680
    || (leb 0x2000 c && leb c 0x200a)
    || c == 0x2028
    || c == 0x2029
    || c == 0x202f
    || c == 0x205f
    || c == 0x3000

-- `strings.TrimSpace(s) == ""`.
unfoldable pub is_blank : String → Bool
unfolding is_space
is_blank String.[] = true
is_blank (String.◌∷◌ c s) = is_space (code c) && is_blank s

pub record Envelope : Type 0 where
  pub event_id : String
  pub event_type : String
  pub event_version : ℕ
  pub aggregate_type : String
  pub aggregate_id : String
  pub workspace_id : String
  pub occurred_at : ℕ
  pub payload : String

-- An event of the outbox (internal/platform/outbox); no writer of the modelled parts sets headers.
pub record OutboxEvent : Type 0 where
  pub id : String
  pub aggregate_type : String
  pub aggregate_id : String
  pub event_type : String
  pub payload : String
  pub workspace_id : String
  pub occurred_at : ℕ

pub record Json (Payload : Type 0) : Type 0 where
  pub encode_payload : Payload → Result String
  pub encode_envelope : Envelope → Result String

abbrev pub validate : Envelope → Result (Unit {0})
validate e =
    if is_blank e.event_id
    then err (sentinel "event id is required")
    else if is_blank e.event_type
    then err (sentinel "event type is required")
    else if is_blank e.aggregate_id
    then err (sentinel "aggregate id is required")
    else if ltb e.event_version 1
    then err (sentinel "event version must be positive")
    else if str_eq e.payload ""
    then err (sentinel "event payload is required")
    else ok tt

abbrev default_version : ℕ → ℕ
default_version v = if v == 0 then 1 else v

abbrev default_time : ℕ → ℕ → ℕ
default_time now t = if t == 0 then now else t

-- `NewEnvelope`; `opts` holds everything but the payload, and `now` is the clock's reading.
abbrev with_payload : ℕ → Envelope → String → Envelope
with_payload now opts raw = record opts {
  event_version = default_version opts.event_version;
  occurred_at = default_time now opts.occurred_at;
  payload = raw;
}

abbrev checked : Envelope → Result (Unit {0}) → Result Envelope
checked e (err x) = err x
checked e (ok _) = ok e

abbrev build : ℕ → Envelope → Result String → Result Envelope
build now opts (err x) = err x
build now opts (ok raw) = let e = with_payload now opts raw in checked e (validate e)

unfoldable pub new_envelope : {P : Type 0} → Json P → ℕ → Envelope → P → Result Envelope
new_envelope json now opts payload = build now opts (json.encode_payload payload)

abbrev encoded : {P : Type 0} → Json P → Envelope → Result (Unit {0}) → Result String
encoded json e (err x) = err x
encoded json e (ok _) = json.encode_envelope e

unfoldable pub marshal : {P : Type 0} → Json P → Envelope → Result String
marshal json e = encoded json e (validate e)
