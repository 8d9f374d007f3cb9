-- ===== src/Webhooks.antt =====
-- internal/modules/webhooks: domain/webhook.go and domain/errors.go, the customers' webhooks, their
-- deliveries and what is valid. URLs, addresses and the name service are parameters (`Network`).
pub mod Store
pub mod Deliver
pub mod Process
pub mod Retry
pub mod Source
pub mod Config
pub mod Worker
pub mod Valid
pub mod Handlers
pub mod Tried
pub mod Stuck
pub mod Versions
pub mod Reads
pub mod Skipped
mod Tests
use send_flow_backend.Prelude.{
  ℕ, String, Bool, true, false, ◌&&◌, ◌||◌, not, List, [], ◌∷◌, Option, none, some, if◌then◌else◌,
  any, all, ltb, leb, ◌==◌, filter, map,
}
use send_flow_backend.Prelude.Text.{str_eq}
use send_flow_backend.Effect.{sentinel, Result, ok, err}

pub data ConfigStatus : Type 0 where
  active : ConfigStatus
  disabled : ConfigStatus
  -- Any other text that an update has set.
  other_status : String → ConfigStatus

pub data DeliveryStatus : Type 0 where
  pending delivering succeeded failed retry_scheduled : DeliveryStatus

pub record WebhookConfig : Type 0 where
  pub id : String
  pub workspace_id : String
  pub name : String
  pub target_url : String
  pub status : ConfigStatus
  pub subscriptions : List String
  pub secret_hash : String
  pub secret_hint : String
  pub version : ℕ
  pub created_by_user_id : String
  pub created_at : ℕ
  pub updated_at : ℕ
  pub disabled_at : Option ℕ

-- The event's payload is kept as encoded.
pub record WebhookDelivery : Type 0 where
  pub id : String
  pub workspace_id : String
  pub webhook_id : String
  pub source_event_id : String
  pub source_event_type : String
  pub status : DeliveryStatus
  pub target_url : String
  pub attempt_count : ℕ
  pub next_attempt_at : Option ℕ
  pub last_attempt_at : Option ℕ
  pub last_status_code : Option ℕ
  pub last_error : String
  pub request_headers : List (String × String)
  pub response_headers : List (String × String)
  pub event_payload_json : String
  pub created_at : ℕ
  pub updated_at : ℕ

pub record WebhookDeliveryAttempt : Type 0 where
  pub id : String
  pub delivery_id : String
  pub attempt_number : ℕ
  pub status : DeliveryStatus
  pub status_code : Option ℕ
  pub error : String
  pub duration_ms : ℕ
  pub request_headers : List (String × String)
  pub response_headers : List (String × String)
  pub attempted_at : ℕ

pub record DeliveryResult : Type 0 where
  pub status_code : ℕ
  pub duration_ms : ℕ
  pub error : String
  pub request_headers : List (String × String)
  pub response_headers : List (String × String)

abbrev pub config_not_found : String
config_not_found = "webhook config not found"

abbrev pub delivery_not_found : String
delivery_not_found = "webhook delivery not found"

abbrev pub target_url_invalid : String
target_url_invalid = "webhook target URL invalid"

abbrev pub subscription_invalid : String
subscription_invalid = "webhook subscription invalid"

abbrev pub rotate_conflict : String
rotate_conflict = "webhook secret rotate conflict"

abbrev pub retry_conflict : String
retry_conflict = "webhook retry conflict"

abbrev pub config_invalid : String
config_invalid = "webhook config invalid"

abbrev pub config_disabled : String
config_disabled = "webhook config disabled"

-- `AllowedSubscriptionEvents`.
abbrev pub allowed_subscription_events : List String
allowed_subscription_events =
    "delivery.message.queued.v1" ∷ "delivery.message.accepted.v1" ∷ "delivery.message.delivered.v1"
    ∷ "delivery.message.bounced.v1" ∷ "delivery.message.complained.v1"
    ∷ "delivery.message.retry_scheduled.v1" ∷ "tracking.email.opened.v1"
    ∷ "tracking.link.clicked.v1" ∷ "tracking.recipient.unsubscribed.v1"
    ∷ "suppression.recipient.suppressed.v1" ∷ []

unfoldable pub is_allowed : String → Bool
is_allowed event_type = any (str_eq event_type) allowed_subscription_events

-- What package net tells of an address.
pub record Address : Type 0 where
  pub is_loopback : Bool
  pub is_link_local_unicast : Bool
  pub is_private : Bool
  pub is_unspecified : Bool

-- What package url tells of an address of the web.
pub record ParsedUrl : Type 0 where
  pub scheme : String
  pub has_user : Bool
  pub host : String
  pub hostname : String

pub record Network : Type 0 where
  pub parse_url : String → Option ParsedUrl
  pub to_lower : String → String
  pub parse_ip : String → Option Address
  pub lookup : String → Option (List Address)
  pub byte_length : String → ℕ
  pub first_bytes : ℕ → String → String

unfoldable pub is_private_ip : Address → Bool
is_private_ip a = a.is_loopback || a.is_link_local_unicast || a.is_private || a.is_unspecified

abbrev pub private_address : Option Address → Bool
unfolding is_private_ip
private_address none = false
private_address (some a) = is_private_ip a

abbrev pub some_private : Option (List Address) → Bool
unfolding is_private_ip
some_private none = false
some_private (some as') = any is_private_ip as'

module _ (net : Network) where
  unfoldable pub is_private_host : String → Bool
  is_private_host hostname =
      str_eq hostname "localhost"
      || str_eq hostname "::1"
      || private_address (net.parse_ip hostname)

  -- A name that cannot be looked up passes.
  abbrev pub resolves_private : String → Option Address → Bool
  resolves_private hostname (some a) = false
  resolves_private hostname none = some_private (net.lookup hostname)

  abbrev pub valid_host : String → Bool
  unfolding is_private_host
  valid_host hostname =
      not (is_private_host hostname) && not (resolves_private hostname (net.parse_ip hostname))

  abbrev pub valid_parsed : Option ParsedUrl → Bool
  valid_parsed none = false
  valid_parsed (some u) =
      (str_eq u.scheme "https" || str_eq u.scheme "http")
      && not u.has_user
      && not (str_eq u.host "")
      && valid_host (net.to_lower u.hostname)

  unfoldable pub validate_target_url : String → Result (Unit {0})
  validate_target_url raw =
      if not (str_eq raw "") && valid_parsed (net.parse_url raw)
      then ok tt
      else err (sentinel target_url_invalid)

  abbrev pub allowed_subscriptions : List String → Bool
  unfolding is_allowed
  allowed_subscriptions [] = false
  allowed_subscriptions (s ∷ ss) = all is_allowed (s ∷ ss)

  unfoldable pub validate_subscriptions : List String → Result (Unit {0})
  validate_subscriptions ss =
      if allowed_subscriptions ss then ok tt else err (sentinel subscription_invalid)

  abbrev pub or_else : Result (Unit {0}) → Result (Unit {0}) → Result (Unit {0})
  or_else (err e) rest = err e
  or_else (ok _) rest = rest

  unfoldable pub validate_webhook_config : WebhookConfig → Result (Unit {0})
  unfolding validate_target_url validate_subscriptions
  validate_webhook_config cfg =
      if str_eq cfg.workspace_id "" || str_eq cfg.name "" || ltb 255 (net.byte_length cfg.name)
      then err (sentinel config_invalid)
      else or_else (validate_target_url cfg.target_url) (validate_subscriptions cfg.subscriptions)

  unfoldable pub sanitize_error : String → String
  sanitize_error e = if ltb 500 (net.byte_length e) then net.first_bytes 500 e else e

  abbrev pub is_sensitive : String → Bool
  is_sensitive name = any (str_eq (net.to_lower name)) (
      "authorization" ∷ "cookie" ∷ "set-cookie" ∷ "x-api-key" ∷ "x-auth-token"
      ∷ "proxy-authorization" ∷ [])

  abbrev pub cut_value : String → String
  cut_value v = if ltb 1000 (net.byte_length v) then net.first_bytes 1000 v else v

  -- The map of headers is a list; no headers are allowed by name.
  unfoldable pub sanitize_headers : List (String × String) → List (String × String)
  sanitize_headers hs =
      map (λ (h : String × String). (h.0, cut_value h.1))
        (filter (λ (h : String × String). not (is_sensitive h.0)) hs)

abbrev pub can_delivery_be_retried : DeliveryStatus → Bool
can_delivery_be_retried DeliveryStatus.failed = true
can_delivery_be_retried DeliveryStatus.retry_scheduled = true
can_delivery_be_retried _ = false

unfoldable pub is_retryable_http_status : ℕ → Bool
is_retryable_http_status code = code == 0 || code == 429 || (leb 500 code && ltb code 600)
