-- ===== src/Clients/Sentry.antt =====
-- `pos_service/clients/sentry.py`: the transport, the errors read from a response, and the four calls
-- that the services make. JSON and the response models are parameters.
use hightower_pos.Prelude.{
  ℕ, Bool, true, false, ◌&&◌, ◌||◌, Option, none, some, [], ◌∷◌, ◌++◌, if◌then◌else◌, leb, ltb,
  ◌==◌, take,
}
use hightower_pos.Prelude.Text.{Text, codes}
use hightower_pos.Prelude.Digits.{show_ℕ}
use hightower_pos.Model.{ClientError, Reply, returned, failed, crashed, ValidationResult, or_text}
use hightower_pos.Clients.{
  Exchange, server_error, transport_error, Answer, answered, gave_up, escaped, request_loop,
}

-- `r.json()` where it is an object, read at a key: `none` where the key is missing. Other bodies have
-- no such reading. The texts are the only values that a Sentry error has at the keys that are read.
abbrev pub JsonObject : Type 0
JsonObject = Text → Option Text

abbrev pub JsonParser : Type 0
JsonParser = Text → Option JsonObject

unfoldable pub safe_json : JsonParser → Text → JsonObject
safe_json parse_json body = elim (parse_json body) [ none ↦ λ key. none | some object ↦ object ]

-- `value or default`
unfoldable pub or_default : Option Text → Text → Text
or_default none default = default
or_default (some []) default = default
or_default (some (c ∷ text)) default = c ∷ text

-- The error kind and the message.
unfoldable pub error_from_body : JsonObject → (default_kind : Text) → Text × Text
unfolding or_default
error_from_body body default_kind =
    let kind =
      or_default (or_text (body (codes "error_kind")) (body (codes "error"))) default_kind in
    (kind, or_default (body (codes "message")) kind)

unfoldable pub kind_error : JsonParser → (default_kind body : Text) → ClientError
unfolding safe_json error_from_body
kind_error parse_json default_kind body =
    let (kind, message) = error_from_body (safe_json parse_json body) default_kind in
    record { message = message; error_code = some kind }

-- `SentryClientError(f"sentry returned {status_code} for {method} {path}")`
unfoldable pub sentry_returned : (status_code : ℕ) (endpoint : Text) → ClientError
unfolding show_ℕ
sentry_returned status_code endpoint = record {
  message = codes "sentry returned " ++ show_ℕ status_code ++ codes " for " ++ endpoint;
  error_code = none;
}

-- The text of the last exception is left out of the message.
unfoldable pub sentry_unreachable : ClientError
sentry_unreachable = record {
  message = codes "sentry request failed after 3 attempts";
  error_code = none;
}

-- What `_request` does with the end of its attempts: a response other than a server error is the
-- caller's, `handle`.
unfoldable pub on_response :
    {A : Type 0} (endpoint : Text) → ((status_code : ℕ) (body : Text) → Reply A) → Answer → Reply A
unfolding sentry_returned sentry_unreachable
on_response endpoint handle (answered status_code body) = handle status_code body
on_response endpoint handle (gave_up (server_error status_code body)) =
    failed (sentry_returned status_code endpoint)
on_response endpoint handle (gave_up transport_error) = failed sentry_unreachable
on_response endpoint handle escaped = crashed

-- `r.is_success`
abbrev pub is_success : ℕ → Bool
is_success status_code = leb 200 status_code && ltb status_code 300

-- `model_validate(r.json())`: `none` where it raises.
unfoldable pub validated_body : {A : Type 0} → (Text → Option A) → Text → Reply A
validated_body parse body = elim (parse body) [ none ↦ crashed | some a ↦ returned a ]

-- `_raise_for_status` and the reading of the body.
unfoldable pub checked_body :
    {A : Type 0} → JsonParser → (Text → Option A) → (status_code : ℕ) (body : Text) → Reply A
unfolding kind_error validated_body show_ℕ
checked_body parse_json parse status_code body =
    if is_success status_code
    then validated_body parse body
    else failed (kind_error parse_json (codes "sentry_returned_" ++ show_ℕ status_code) body)

-- `create_pos_so` and `create_pos_refund`: 409 and 422 carry the reason of a refusal.
unfoldable pub created :
    {A : Type 0}
    → JsonParser
    → (Text → Option A)
    → (default_kind : Text) → (status_code : ℕ) (body : Text) → Reply A
unfolding kind_error checked_body
created parse_json parse default_kind status_code body =
    if status_code == 409 || status_code == 422
    then failed (kind_error parse_json default_kind body)
    else checked_body parse_json parse status_code body

module _ (parse_json : JsonParser) (initial_backoff_ms : ℕ) where
  -- A conflict is a result here: 409 is read like a success.
  unfoldable pub validate_cart :
      (is_mock : Bool) → (Text → Option ValidationResult) → (ℕ → Exchange) → Reply ValidationResult
  unfolding on_response checked_body validated_body request_loop
  validate_cart true parse exchange = returned (record { valid = true; conflicts = [] })
  validate_cart false parse exchange =
      on_response (codes "POST /api/v1/pos/validate-cart")
        (λ status_code body.
          if status_code == 409
          then validated_body parse body
          else checked_body parse_json parse status_code body)
        (request_loop initial_backoff_ms exchange).answer

  -- `parse` reads the `so_id`; the mock's is made of the idempotency key.
  unfoldable pub create_pos_so :
      (is_mock : Bool)
      → (idempotency_key : Text) → (Text → Option Text)
      → (ℕ → Exchange)
      → Reply Text
  unfolding on_response created request_loop
  create_pos_so true idempotency_key parse exchange =
      returned (codes "SO-MOCK-" ++ take 8 idempotency_key)
  create_pos_so false idempotency_key parse exchange =
      on_response (codes "POST /api/v1/pos/checkout")
        (created parse_json parse (codes "checkout_failed"))
        (request_loop initial_backoff_ms exchange).answer

  unfoldable pub create_pos_refund :
      (is_mock : Bool)
      → (idempotency_key : Text) → (Text → Option Text)
      → (ℕ → Exchange)
      → Reply Text
  unfolding on_response created request_loop
  create_pos_refund true idempotency_key parse exchange =
      returned (codes "SO-MOCK-REFUND-" ++ take 8 idempotency_key)
  create_pos_refund false idempotency_key parse exchange =
      on_response (codes "POST /api/v1/pos/refund")
        (created parse_json parse (codes "refund_failed"))
        (request_loop initial_backoff_ms exchange).answer

  -- The reply's body is not read.
  unfoldable pub log_inbound_activity : (is_mock : Bool) → (ℕ → Exchange) → Reply (Unit {0})
  unfolding on_response checked_body request_loop
  log_inbound_activity true exchange = returned tt
  log_inbound_activity false exchange =
      on_response (codes "POST /api/inbound-activity-log")
        (checked_body parse_json (λ body. some tt))
        (request_loop initial_backoff_ms exchange).answer
