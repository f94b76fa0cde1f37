-- ===== src/Clients/Tests.antt =====
-- Examples for the results on the clients: a server error, then a success.
use hightower_pos.Prelude.{arith, ℕ, zero, suc, ◌≡◌, ◌≢◌, refl, true, false, none, some, [], ◌∷◌}
use hightower_pos.Prelude.Int.{pos}
use hightower_pos.Prelude.Text.{Text, codes}
use hightower_pos.Model.{returned, WindcaveResult, WindcaveStatus}
use hightower_pos.Clients.{Exchange, responded, request_loop}
use hightower_pos.Clients.Windcave.{raw_post, format_amount}
use hightower_pos.Clients.Terminal.{Terminal, charge, last4}
use hightower_pos.Clients.Readings.{document, last4_of, charge-states}
use hightower_pos.Clients.Sentry.{create_pos_so, create_pos_refund, JsonParser}
use hightower_pos.Clients.Attempts.{Ends, request_loop-Ends}
use hightower_pos.Clients.Replies.{IsExplained, create_pos-IsExplained}

abbrev flaky : ℕ → Exchange
flaky zero = responded 503 (codes "down")
flaky (suc n) = responded 200 (codes "SO1")

abbrev no_json : JsonParser
no_json body = none

request_loop-Ends_example : Ends 500 flaky 0 2 (request_loop 500 flaky)
request_loop-Ends_example = request_loop-Ends 500 flaky

second_answer : raw_post 500 flaky ≡ returned (codes "SO1")
unfolding raw_post
second_answer = refl

twelve : format_amount (pos 1205) ≡ some (codes "12.05")
unfolding format_amount
twelve = refl

create_pos-IsExplained_example :
    IsExplained
      (λ body. some body)
      flaky
      (create_pos_so no_json 500 false (codes "k") (λ body. some body) flaky)
    × IsExplained
        (λ body. some body)
        flaky
        (create_pos_refund no_json 500 false (codes "k") (λ body. some body) flaky)
create_pos-IsExplained_example =
    create_pos-IsExplained (λ body. some body) no_json 500 (codes "k") flaky

abbrev terminal : Terminal
terminal = record {
  user = codes "u";
  key = codes "k";
  station = codes "1";
  vendor_id = codes "v";
  pos_name = codes "p";
  device_id = codes "d";
  pos_version = [];
  currency = codes "NZD";
  initial_backoff_ms = 500;
}

abbrev approval : WindcaveResult
approval = record {
  approved = true;
  auth_code = some (codes "A1");
  card_brand = some (codes "Visa");
  card_masked = some (codes "41******1111");
  card_last4 = some (codes "1111");
  dps_txn_ref = some (codes "D1");
  txn_datetime = none;
  response_code = some (codes "00");
  response_text = none;
  amount_cents = some 1205;
}

abbrev approved_status : WindcaveStatus
approved_status = record {
  txn_ref = codes "T1";
  complete = true;
  txn_status_id = some (codes "8");
  result = some approval;
  raw_xml = codes "<Scr/>";
}

filled : (c : ℕ) (text : Text) → (c ∷ text) ≢ []
filled c text e = cc

last_four : some (codes "1111") ≡ last4_of (some (codes "41******1111"))
unfolding last4
last_four = refl

charge-states_example :
    charge terminal
      (λ raw. some (document approved_status))
      (λ request n. responded 200 (codes "<Scr/>"))
      (pos 1205)
      (codes "T1")
      none
    ≡ returned approved_status
charge-states_example =
    charge-states terminal (λ raw. some (document approved_status))
      (λ request n. responded 200 (codes "<Scr/>")) 1205 (codes "T1") none approved_status
      (omega arith) (λ request asked. refl) refl refl (refl, filled 56 [])
      (record {
        auth_code = (refl, filled 65 (codes "1"));
        card_brand = (refl, filled 86 (codes "isa"));
        card_masked = (refl, filled 52 (codes "1******1111"));
        card_last4 = last_four;
        dps_txn_ref = (refl, filled 68 (codes "1"));
        txn_datetime = tt;
        response_code = (refl, filled 48 (codes "0"));
        response_text = tt;
      })
