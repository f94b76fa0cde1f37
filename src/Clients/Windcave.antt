-- ===== src/Clients/Windcave.antt =====
-- `pos_service/clients/windcave.py`: the transport, the cancel, the amounts and the mock replies. The
-- XML library is a parameter.
use hightower_pos.Prelude.{
  ℕ, Bool, true, false, Option, none, some, [], ◌∷◌, ◌++◌, if◌then◌else◌, leb, take,
}
use hightower_pos.Prelude.Int.{ℤ, pos, negsuc}
use hightower_pos.Prelude.Text.{Text, codes, text_eq, strip}
use hightower_pos.Prelude.Digits.{show_ℕ, two_decimals}
use hightower_pos.Model.{ClientError, Reply, returned, failed, crashed, WindcaveStatus}
use hightower_pos.Clients.{
  Exchange, server_error, transport_error, Answer, answered, gave_up, escaped, request_loop,
}

-- `WindcaveClientError(f"windcave returned {status_code}")`
unfoldable pub windcave_returned : ℕ → ClientError
unfolding show_ℕ
windcave_returned status_code = record {
  message = codes "windcave returned " ++ show_ℕ status_code;
  error_code = none;
}

-- The message names the number of attempts; the text of the last exception is left out.
unfoldable pub windcave_unreachable : ClientError
windcave_unreachable = record {
  message = codes "windcave request failed after 3 attempts";
  error_code = none;
}

-- A response that is not a server error: 400 and above raise at once.
unfoldable pub accept_answer : Answer → Reply Text
unfolding windcave_returned windcave_unreachable
accept_answer (answered status_code body) =
    if leb 400 status_code then failed (windcave_returned status_code) else returned body
accept_answer (gave_up (server_error status_code body)) = failed (windcave_returned status_code)
accept_answer (gave_up transport_error) = failed windcave_unreachable
accept_answer escaped = crashed

-- `_raw_post`
unfoldable pub raw_post : (initial_backoff_ms : ℕ) (exchange : ℕ → Exchange) → Reply Text
unfolding request_loop accept_answer
raw_post initial_backoff_ms exchange =
    accept_answer (request_loop initial_backoff_ms exchange).answer

-- `etree.fromstring` with `findtext`: `none` where the text is no XML, else the text of a child by name.
abbrev pub XmlParser : Type 0
XmlParser = Text → Option (Text → Option Text)

unfoldable pub invalid_xml : ClientError
invalid_xml = record { message = codes "invalid xml from windcave"; error_code = none }

-- `(root.findtext(name) or "").strip()`
unfoldable pub child_text : (Text → Option Text) → Text → Text
child_text findtext name = elim (findtext name) [ none ↦ [] | some text ↦ strip text ]

-- The reply of `cancel`, read from the body of the response.
unfoldable pub cancel_reply : XmlParser → Reply Text → Reply Bool
unfolding invalid_xml child_text
cancel_reply parse_xml crashed = crashed
cancel_reply parse_xml (failed e) = failed e
cancel_reply parse_xml (returned raw) = elim (parse_xml raw) [
  | none ↦ failed invalid_xml
  | some findtext ↦ returned (text_eq (child_text findtext (codes "Success")) (codes "1"))
]

unfoldable pub cancel :
    (is_mock : Bool) → XmlParser → (initial_backoff_ms : ℕ) (exchange : ℕ → Exchange) → Reply Bool
unfolding cancel_reply raw_post
cancel true parse_xml initial_backoff_ms exchange = returned true
cancel false parse_xml initial_backoff_ms exchange =
    cancel_reply parse_xml (raw_post initial_backoff_ms exchange)

-- `none` is the ValueError for a negative amount. The formatted float is exact below 2^50 cents, and
-- this is the exact text for every amount.
unfoldable pub format_amount : ℤ → Option Text
unfolding two_decimals
format_amount (negsuc n) = none
format_amount (pos amount_cents) = some (two_decimals amount_cents)

-- `_mock_complete_response`, in the fields that the services read; `override` is
-- `dps_txn_ref_override`.
unfoldable pub mock_complete_response :
    (txn_ref : Text) (amount_cents : ℕ) (override : Option Text) → WindcaveStatus
mock_complete_response txn_ref amount_cents override = record {
  txn_ref = txn_ref;
  complete = true;
  txn_status_id = some (codes "8");
  result = some (record {
    approved = true;
    auth_code = some (codes "000000");
    card_brand = some (codes "Visa");
    card_masked = some (codes "411111******1111");
    card_last4 = some (codes "1111");
    dps_txn_ref = some (or_text_else override (codes "MOCK-TR-" ++ take 12 txn_ref));
    txn_datetime = some (codes "20260508140000");
    response_code = some (codes "00");
    response_text = some [];
    amount_cents = some amount_cents;
  });
  raw_xml = codes "<!-- mock -->";
}
  where
    or_text_else : Option Text → Text → Text
    or_text_else none d = d
    or_text_else (some []) d = d
    or_text_else (some (c ∷ text)) d = c ∷ text
