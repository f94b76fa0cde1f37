-- ===== src/Clients/Terminal.antt =====
-- The requests of `pos_service/clients/windcave.py` and the reading of their responses. The HTTP and XML
-- libraries are parameters, and the calls are those of a client that is no mock. Of the response, the
-- display, the buttons, the receipt and the timeout are left out, as no service reads them.
use hightower_pos.Prelude.{
  ℕ, ◌+◌, ◌-◌, ◌*◌, Bool, true, false, ◌&&◌, if◌then◌else◌, Option, none, some, List, [], ◌∷◌, ltb,
  length, drop,
}
use hightower_pos.Prelude.Int.{ℤ}
use hightower_pos.Prelude.Text.{Text, codes, text_eq, strip}
use hightower_pos.Model.{
  Reply, returned, failed, crashed, WindcaveResult, WindcaveStatus, is_truthy,
}
use hightower_pos.Clients.{Exchange}
use hightower_pos.Clients.Windcave.{raw_post, child_text, invalid_xml, format_amount}

-- The arguments of the client that its requests are built from.
pub record Terminal : Type 0 where
  pub user : Text
  pub key : Text
  pub station : Text
  pub vendor_id : Text
  pub pos_name : Text
  pub device_id : Text
  pub pos_version : Text
  pub currency : Text
  pub initial_backoff_ms : ℕ

-- The element `Scr` with its children in order.
pub record Scr : Type 0 where
  pub action : Text
  pub user : Text
  pub key : Text
  pub children : List (Text × Text)

unfoldable pub scr : Terminal → List (Text × Text) → Scr
scr t children = record {
  action = codes "doScrHIT";
  user = t.user;
  key = t.key;
  children = children;
}

-- `if text:` in front of a child, where the children that follow are `rest`.
unfoldable pub child_if :
    Bool → (name : Text) → Option Text → List (Text × Text) → List (Text × Text)
child_if true name (some text) rest = (name, text) ∷ rest
child_if true name none rest = rest
child_if false name text rest = rest

-- The children of a request for a purchase or a refund, given the text of the amount.
unfoldable pub transaction_children :
    Terminal
    → (txn_type amount txn_ref : Text) (m_ref dps_txn_ref : Option Text) → List (Text × Text)
unfolding child_if
transaction_children t txn_type amount txn_ref m_ref dps_txn_ref =
    (codes "Amount", amount)
    ∷ (codes "Cur", t.currency)
    ∷ (codes "TxnType", txn_type)
    ∷ (codes "Station", t.station)
    ∷ (codes "TxnRef", txn_ref)
    ∷ child_if (is_truthy dps_txn_ref) (codes "DpsTxnRef") dps_txn_ref (
        (codes "DeviceId", t.device_id)
        ∷ (codes "PosName", t.pos_name)
        ∷ child_if (is_truthy (some t.pos_version)) (codes "PosVersion") (some t.pos_version)
            ((codes "VendorId", t.vendor_id) ∷ child_if (is_truthy m_ref) (codes "MRef") m_ref []))

-- `_build_transaction_xml`; `none` is the ValueError of the amount.
unfoldable pub build_transaction_xml :
    Terminal
    → (txn_type : Text) (amount_cents : ℤ) (txn_ref : Text) (m_ref dps_txn_ref : Option Text)
    → Option Scr
unfolding transaction_children scr format_amount
build_transaction_xml t txn_type amount_cents txn_ref m_ref dps_txn_ref =
    elim (format_amount amount_cents) [
      | none ↦ none
      | some amount ↦
          some (scr t (transaction_children t txn_type amount txn_ref m_ref dps_txn_ref))
    ]

-- A parsed response: `findtext` of its root, and of the child `Result` where there is one.
pub record Document : Type 0 where
  pub findtext : Text → Option Text
  pub result : Option (Text → Option Text)

-- `etree.fromstring`: `none` where the text is no XML.
abbrev pub DocumentParser : Type 0
DocumentParser = Text → Option Document

-- `text or None`
abbrev pub or_none : Text → Option Text
or_none [] = none
or_none (c ∷ text) = some (c ∷ text)

-- `(findtext(name) or default).strip()`
unfoldable pub child_or : (findtext : Text → Option Text) (name default : Text) → Text
child_or findtext name default = elim (findtext name) [
  | none ↦ strip default
  | some text ↦ strip (or_given text default)
]
  where
    or_given : Text → Text → Text
    or_given [] default = default
    or_given (c ∷ text) default = c ∷ text

-- `str.isdigit`, for ASCII.
abbrev pub all_digits : Text → Bool
all_digits [] = true
all_digits (c ∷ text) = ltb 47 c && ltb c 58 && all_digits text

abbrev pub int_after : ℕ → Text → ℕ
int_after n [] = n
int_after n (c ∷ text) = int_after (n * 10 + (c - b'0')) text

-- `int(text) if text.isdigit() else None`; an empty text is no number. Only ASCII digits count here:
-- of the digits of other scripts, Python reads some and raises ValueError on the rest.
unfoldable pub int_if_digits : Text → Option ℕ
int_if_digits [] = none
int_if_digits (c ∷ text) = if all_digits (c ∷ text) then some (int_after 0 (c ∷ text)) else none

-- `cn[-4:] if cn else None`
unfoldable pub last4 : Text → Option Text
last4 [] = none
last4 (c ∷ cn) = some (drop (length (c ∷ cn) - 4) (c ∷ cn))

unfoldable pub parse_result : (Text → Option Text) → WindcaveResult
unfolding child_text child_or int_if_digits last4
parse_result findtext = record {
  approved = text_eq (child_or findtext (codes "AP") (codes "0")) (codes "1");
  auth_code = or_none (child_text findtext (codes "AC"));
  card_brand = or_none (child_text findtext (codes "CT"));
  card_masked = or_none (child_text findtext (codes "CN"));
  card_last4 = last4 (child_text findtext (codes "CN"));
  dps_txn_ref = or_none (child_text findtext (codes "TR"));
  txn_datetime = or_none (child_text findtext (codes "DT"));
  response_code = or_none (child_text findtext (codes "RC"));
  response_text = or_none (child_text findtext (codes "RT"));
  amount_cents = int_if_digits (child_text findtext (codes "AmtA"));
}

-- The response without its text.
unfoldable pub read_document : (raw : Text) → Document → WindcaveStatus
unfolding child_text child_or parse_result
read_document raw root = record {
  txn_ref = child_text root.findtext (codes "TxnRef");
  complete = text_eq (child_or root.findtext (codes "Complete") (codes "0")) (codes "1");
  txn_status_id = or_none (child_text root.findtext (codes "TxnStatusId"));
  result = elim root.result [ none ↦ none | some findtext ↦ some (parse_result findtext) ];
  raw_xml = raw;
}

unfoldable pub parse_status_response : DocumentParser → Reply Text → Reply WindcaveStatus
unfolding invalid_xml read_document
parse_status_response parse_xml crashed = crashed
parse_status_response parse_xml (failed e) = failed e
parse_status_response parse_xml (returned raw) = elim (parse_xml raw) [
  | none ↦ failed invalid_xml
  | some root ↦ returned (read_document raw root)
]

-- `_post`; a request that cannot be built is not sent.
unfoldable pub post :
    Terminal → DocumentParser → (http : Scr → ℕ → Exchange) → Option Scr → Reply WindcaveStatus
unfolding raw_post parse_status_response
post t parse_xml http none = crashed
post t parse_xml http (some request) =
    parse_status_response parse_xml (raw_post t.initial_backoff_ms (http request))

unfoldable pub charge :
    Terminal
    → DocumentParser
    → (http : Scr → ℕ → Exchange) → (amount_cents : ℤ) (txn_ref : Text) (m_ref : Option Text)
    → Reply WindcaveStatus
unfolding build_transaction_xml post
charge t parse_xml http amount_cents txn_ref m_ref =
    post t parse_xml http
      (build_transaction_xml t (codes "Purchase") amount_cents txn_ref m_ref none)

unfoldable pub refund :
    Terminal
    → DocumentParser
    → (http : Scr → ℕ → Exchange)
    → (amount_cents : ℤ) (original_dps_txn_ref txn_ref : Text) (m_ref : Option Text)
    → Reply WindcaveStatus
unfolding build_transaction_xml post
refund t parse_xml http amount_cents original_dps_txn_ref txn_ref m_ref = post t parse_xml http (
    build_transaction_xml t (codes "Refund") amount_cents txn_ref m_ref (some original_dps_txn_ref))

unfoldable pub status_request : Terminal → (txn_ref : Text) → Scr
unfolding scr
status_request t txn_ref = scr t (
    (codes "Station", t.station)
    ∷ (codes "TxnType", codes "Status")
    ∷ (codes "TxnRef", txn_ref)
    ∷ [])

unfoldable pub status :
    Terminal
    → DocumentParser
    → (http : Scr → ℕ → Exchange) → (txn_ref : Text) → Reply WindcaveStatus
unfolding status_request post
status t parse_xml http txn_ref = post t parse_xml http (some (status_request t txn_ref))
