-- ===== src/Clients/Replies.antt =====
-- What a reply of `create_pos_so` and `create_pos_refund` of `pos_service/clients/sentry.py` says about
-- the requests that were sent.
use hightower_pos.Prelude.{
  ℕ, ◌+◌, ◌≤◌, ◌<◌, ◌≡◌, refl, ◌⊎◌, inl, inr, true, false, ◌||◌, Option, none, some, arith, ◌==◌,
  Option-cases, if-cases, subst, sym,
}
use hightower_pos.Prelude.Text.{Text, codes}
use hightower_pos.Model.{Reply, returned, failed, crashed}
use hightower_pos.Clients.{
  Exchange, responded, unreachable, broken, Answer, is_server_error, request_loop,
}
use hightower_pos.Clients.Sentry.{
  JsonParser, on_response, created, is_success, checked_body, validated_body, create_pos_so,
  create_pos_refund,
}
use hightower_pos.Clients.Attempts.{is_retried, outcome, request_loop-Ends}

module _ (parse : Text → Option Text) where
  -- The reply and the exchange that it comes from: an order id is read from a success; an exception
  -- that no caller expects comes from the transport or from a success whose body does not parse; any
  -- other end is the client's own error.
  abbrev pub Explains : Exchange → Reply Text → Type 0
  Explains e (returned so_id) =
      (status_code : ℕ) × (body : Text) × (e ≡ responded status_code body)
      × (is_success status_code ≡ true)
      × (parse body ≡ some so_id)
  Explains e crashed =
      (e ≡ broken)
      ⊎ ((status_code : ℕ) × (body : Text) × (e ≡ responded status_code body)
          × (is_success status_code ≡ true)
          × (parse body ≡ none))
  Explains e (failed why) =
      (e ≡ unreachable)
      ⊎ ((status_code : ℕ) × (body : Text) × (e ≡ responded status_code body)
          × (is_success status_code ≡ false))

  -- Some one of the three attempts explains the reply, and all before it were tried again.
  abbrev pub IsExplained : (ℕ → Exchange) → Reply Text → Type 0
  IsExplained exchange reply =
      (k : ℕ) × (k ≤ 2)
      × ((i : ℕ) → i < k → is_retried (exchange i) ≡ true)
      × Explains (exchange k) reply

  body-Explains :
      (status_code : ℕ) (body : Text)
      → is_success status_code ≡ true
      → Explains (responded status_code body) (validated_body parse body)
  unfolding validated_body
  body-Explains status_code body fine = elim (Option-cases (parse body)) [
    | inl unread ↦ rw (validated_body, unread) (inr (status_code, body, refl, fine, unread))
    | inr (so_id, read) ↦ rw (validated_body, read) (status_code, body, refl, fine, read)
  ]

  module _ (parse_json : JsonParser) (default_kind endpoint : Text) where
    created-Explains :
        (status_code : ℕ) (body : Text)
        → Explains
            (responded status_code body)
            (created parse_json parse default_kind status_code body)
    unfolding created checked_body
    created-Explains status_code body =
        if-cases (Explains (responded status_code body)) (status_code == 409 || status_code == 422)
          _ _ (λ refused. inr (status_code, body, refl, ground (arith, refused)))
          (λ _.
            if-cases (Explains (responded status_code body)) (is_success status_code) _ _
              (λ fine. body-Explains status_code body fine)
              (λ bad. inr (status_code, body, refl, bad)))

    outcome-Explains :
        (e : Exchange)
        → Explains e (on_response endpoint (created parse_json parse default_kind) (outcome e))
    unfolding on_response
    outcome-Explains unreachable = inl refl
    outcome-Explains broken = inl refl
    outcome-Explains (responded status_code body) =
        if-cases
          (λ (a : Answer).
            Explains (responded status_code body)
              (on_response endpoint (created parse_json parse default_kind) a))
          (is_server_error status_code) _ _
          (λ down. inr (status_code, body, refl, ground (arith, down)))
          (λ _. created-Explains status_code body)

    request-IsExplained :
        (initial_backoff_ms : ℕ) (exchange : ℕ → Exchange)
        → IsExplained exchange (
            on_response endpoint
              (created parse_json parse default_kind)
              (request_loop initial_backoff_ms exchange).answer)
    request-IsExplained initial_backoff_ms exchange =
        let e = request_loop-Ends initial_backoff_ms exchange in
        (
          e.more,
          e.within,
          λ i h.
              subst (λ k. is_retried (exchange k) ≡ true) (let z : 0 + i ≡ i = omega arith in z)
                (e.retried i h),
          subst
              (λ a.
                Explains (exchange e.more)
                  (on_response endpoint (created parse_json parse default_kind) a))
              (sym (
                subst
                  (λ k. (request_loop initial_backoff_ms exchange).answer ≡ outcome (exchange k))
                  (let z : 0 + e.more ≡ e.more = omega arith in z) e.answer_last))
              (outcome-Explains (exchange e.more)),
        )

  -- Every reply of the two calls of Sentry that write is explained by one of at most three requests,
  -- all before it having failed with a server error or in transport: an order id only by a success
  -- that carries it; an exception that no caller handles only by the transport or by a success whose
  -- body does not parse; the client's own error only by a response that is no success or by no answer.
  pub create_pos-IsExplained :
      (parse_json : JsonParser) (initial_backoff_ms : ℕ) (idempotency_key : Text)
      (exchange : ℕ → Exchange)
      → IsExplained exchange
          (create_pos_so parse_json initial_backoff_ms false idempotency_key parse exchange)
        × IsExplained exchange
            (create_pos_refund parse_json initial_backoff_ms false idempotency_key parse exchange)
  unfolding create_pos_so create_pos_refund
  create_pos-IsExplained parse_json initial_backoff_ms idempotency_key exchange = (
    request-IsExplained parse_json (codes "checkout_failed") (codes "POST /api/v1/pos/checkout")
        initial_backoff_ms exchange,
    request-IsExplained parse_json (codes "refund_failed") (codes "POST /api/v1/pos/refund")
        initial_backoff_ms exchange,
  )
