-- ===== src/Clients/Readings.antt =====
-- What `pos_service/clients/windcave.py` reads from a response that says it as the protocol does.
use native.Mathlib.Nat.{div-add-mod}
use hightower_pos.Prelude.{
  ◌+◌, ◌*◌, ◌/◌, ◌%◌, ◌^◌, ◌<◌, ◌++◌, arith, ℕ, ◌≡◌, ◌≢◌, refl, sym, ◌∙◌, ap, Bool, true, false,
  Option, none, some, List, [], ◌∷◌, if◌then◌else◌,
}
use hightower_pos.Prelude.Int.{pos}
use hightower_pos.Prelude.Text.{Text, codes, text_eq, strip}
use hightower_pos.Prelude.Digits.{show_ℕ, two_decimals}
use hightower_pos.Model.{returned, WindcaveResult, WindcaveStatus}
use hightower_pos.Clients.{Exchange, responded, request_loop, attempts, react}
use hightower_pos.Clients.Windcave.{raw_post, accept_answer, child_text, format_amount}
use hightower_pos.Clients.Terminal.{
  all_digits, int_after, Terminal, Scr, scr, transaction_children, build_transaction_xml, Document,
  DocumentParser, or_none, child_or, int_if_digits, last4, parse_result, read_document,
  parse_status_response, post, charge,
}
use hightower_pos.Clients.Numerals.{
  int_if-show_ℕ, int_after-show_ℕ, show_ℕ-all_digits, show_ℕ-filled,
}

-- The children of an element by name, the first of a name.
abbrev pub child : List (Text × Option Text) → Text → Option Text
child [] name = none
child ((key, text) ∷ fields) name =
    let rest = child fields name in if text_eq key name then text else rest

abbrev pub flag : Bool → Text
flag true = codes "1"
flag false = codes "0"

abbrev pub amount_text : Option ℕ → Option Text
amount_text none = none
amount_text (some n) = some (show_ℕ n)

-- The element `Result` that states a result.
abbrev pub result_element : WindcaveResult → Text → Option Text
result_element r = child (
    (codes "AP", some (flag r.approved))
    ∷ (codes "AC", r.auth_code)
    ∷ (codes "CT", r.card_brand)
    ∷ (codes "CN", r.card_masked)
    ∷ (codes "TR", r.dps_txn_ref)
    ∷ (codes "DT", r.txn_datetime)
    ∷ (codes "RC", r.response_code)
    ∷ (codes "RT", r.response_text)
    ∷ (codes "AmtA", amount_text r.amount_cents)
    ∷ [])

abbrev pub result_child : Option WindcaveResult → Option (Text → Option Text)
result_child none = none
result_child (some r) = some (result_element r)

-- The document that states a status.
abbrev pub document : WindcaveStatus → Document
document r = record {
  findtext = child (
      (codes "TxnRef", some r.txn_ref)
      ∷ (codes "Complete", some (flag r.complete))
      ∷ (codes "TxnStatusId", r.txn_status_id)
      ∷ []);
  result = result_child r.result;
}

-- A text that a document can state: absent, or not empty and without white space around it.
abbrev pub IsClean : Option Text → Type 0
IsClean none = Unit
IsClean (some text) = strip text ≡ text × text ≢ []

abbrev pub last4_of : Option Text → Option Text
last4_of none = none
last4_of (some cn) = last4 cn

-- A result that a document can state. The last digits of the card are those of its masked number.
pub record IsStatable (r : WindcaveResult) : Type 0 where
  pub auth_code : IsClean r.auth_code
  pub card_brand : IsClean r.card_brand
  pub card_masked : IsClean r.card_masked
  pub card_last4 : r.card_last4 ≡ last4_of r.card_masked
  pub dps_txn_ref : IsClean r.dps_txn_ref
  pub txn_datetime : IsClean r.txn_datetime
  pub response_code : IsClean r.response_code
  pub response_text : IsClean r.response_text

abbrev pub AllStatable : Option WindcaveResult → Type 0
AllStatable none = Unit
AllStatable (some r) = IsStatable r

abbrev stripped : Option Text → Text
stripped none = []
stripped (some text) = strip text

clean_lem : (text : Option Text) → IsClean text → or_none (stripped text) ≡ text
clean_lem none h = refl
clean_lem (some []) h = absurd (h.1 refl)
clean_lem (some (c ∷ text)) h = rw h.0 refl

last4_lem : (cn : Option Text) → IsClean cn → last4 (stripped cn) ≡ last4_of cn
unfolding last4
last4_lem none h = refl
last4_lem (some cn) h = ap last4 h.0

amount_lem : (n : Option ℕ) → int_if_digits (stripped (amount_text n)) ≡ n
unfolding int_if_digits
amount_lem none = refl
amount_lem (some n) = int_if-show_ℕ n

flag_lem :
    (name : Text) (b : Bool)
    → text_eq (child_or (λ key. some (flag b)) name (codes "0")) (codes "1") ≡ b
unfolding child_or
flag_lem name true = refl
flag_lem name false = refl

parse_result-element : (r : WindcaveResult) → IsStatable r → parse_result (result_element r) ≡ r
unfolding parse_result child_text child_or
parse_result-element r h = λ i. record {
  approved = flag_lem [] r.approved i;
  auth_code = clean_lem r.auth_code h.auth_code i;
  card_brand = clean_lem r.card_brand h.card_brand i;
  card_masked = clean_lem r.card_masked h.card_masked i;
  card_last4 = (last4_lem r.card_masked h.card_masked ∙ sym h.card_last4) i;
  dps_txn_ref = clean_lem r.dps_txn_ref h.dps_txn_ref i;
  txn_datetime = clean_lem r.txn_datetime h.txn_datetime i;
  response_code = clean_lem r.response_code h.response_code i;
  response_text = clean_lem r.response_text h.response_text i;
  amount_cents = amount_lem r.amount_cents i;
}

read_document-document :
    (r : WindcaveStatus)
    → strip r.txn_ref ≡ r.txn_ref
    → IsClean r.txn_status_id
    → AllStatable r.result
    → read_document r.raw_xml (document r) ≡ r
unfolding read_document child_text child_or
read_document-document r ref status_id stated = λ i. record {
  txn_ref = ref i;
  complete = flag_lem [] r.complete i;
  txn_status_id = clean_lem r.txn_status_id status_id i;
  result = result_lem r.result stated i;
  raw_xml = r.raw_xml;
}
  where
    read : Option (Text → Option Text) → Option WindcaveResult
    read none = none
    read (some findtext) = some (parse_result findtext)

    result_lem :
        (result : Option WindcaveResult) → AllStatable result → read (result_child result) ≡ result
    result_lem none h = refl
    result_lem (some r) h = ap some (parse_result-element r h)

-- The children of a request by name.
abbrev pub field : List (Text × Text) → Text → Text
field [] name = []
field ((key, text) ∷ children) name =
    let rest = field children name in if text_eq key name then text else rest

-- An amount of cents as the protocol writes it: the whole dollars in digits, a point, and two digits for
-- the cents.
pub record IsDollars (amount_cents : ℕ) (text : Text) : Type 0 where
  pub whole : Text
  pub tens : ℕ
  pub ones : ℕ
  pub spelled : text ≡ whole ++ b'.' ∷ (b'0' + tens) ∷ (b'0' + ones) ∷ []
  pub in_digits : all_digits whole ≡ true
  pub filled : whole ≢ []
  pub tens_digit : tens < 10
  pub ones_digit : ones < 10
  pub amount : int_after 0 whole * 100 + tens * 10 + ones ≡ amount_cents

two_decimals-IsDollars : (n : ℕ) → IsDollars n (two_decimals n)
unfolding two_decimals
two_decimals-IsDollars n = record {
  whole = show_ℕ (n / 100);
  tens = n % 100 / 10;
  ones = n % 100 % 10;
  spelled = refl;
  in_digits = show_ℕ-all_digits (n / 100);
  filled = show_ℕ-filled (n / 100);
  tens_digit = ground arith;
  ones_digit = ground arith;
  amount = summed (int_after 0 (show_ℕ (n / 100))) (int_after-show_ℕ (n / 100));
}
  where
    summed : (q : ℕ) → q ≡ n / 100 → q * 100 + n % 100 / 10 * 10 + n % 100 % 10 ≡ n
    summed q e = omega (arith, e, div-add-mod n 100, div-add-mod (n % 100) 10)

-- A request to charge an amount under a reference.
pub record IsPurchase (amount_cents : ℕ) (txn_ref : Text) (request : Scr) : Type 0 where
  pub purchase : field request.children (codes "TxnType") ≡ codes "Purchase"
  pub amount : IsDollars amount_cents (field request.children (codes "Amount"))
  pub reference : field request.children (codes "TxnRef") ≡ txn_ref

module _ (t : Terminal) (parse_xml : DocumentParser) (http : Scr → ℕ → Exchange) where
  first_answer :
      (request : Scr) (raw : Text)
      → http request 0 ≡ responded 200 raw
      → raw_post t.initial_backoff_ms (http request) ≡ returned raw
  unfolding raw_post
  first_answer request raw answered =
      rw (request_loop, attempts, answered, react, accept_answer) refl

  -- A charge of an amount below 2^50 cents, so that the formatted float is exact, comes back with the
  -- status that the terminal states: the terminal answers the first request for a purchase of exactly
  -- that amount, in dollars with two decimals, under that reference with code 200 and a text which is parsed as the document of the status, whose texts are not empty and have no
  -- white space around them, and whose last card digits are those of the masked card number.
  pub charge-states :
      (amount_cents : ℕ) (txn_ref : Text) (m_ref : Option Text) (r : WindcaveStatus)
      → amount_cents < 2 ^ 50
      → ((request : Scr)
          → IsPurchase amount_cents txn_ref request
          → http request 0 ≡ responded 200 r.raw_xml)
      → parse_xml r.raw_xml ≡ some (document r)
      → strip r.txn_ref ≡ r.txn_ref
      → IsClean r.txn_status_id
      → AllStatable r.result
      → charge t parse_xml http (pos amount_cents) txn_ref m_ref ≡ returned r
  unfolding charge build_transaction_xml format_amount transaction_children scr post
      parse_status_response
  charge-states amount_cents txn_ref m_ref r small answers parsed ref status_id stated =
      rw
        (
          first_answer request r.raw_xml (answers request purchase),
          parse_status_response,
          parsed,
          read_document-document r ref status_id stated,
        )
        refl
    where
      request : Scr
      request =
          scr t (
            transaction_children t (codes "Purchase") (two_decimals amount_cents) txn_ref m_ref
              none)

      purchase : IsPurchase amount_cents txn_ref request
      purchase = record {
        purchase = refl;
        amount = two_decimals-IsDollars amount_cents;
        reference = refl;
      }
