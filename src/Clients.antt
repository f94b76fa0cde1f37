-- ===== src/Clients.antt =====
-- The calls of the outside services over HTTP: `pos_service/clients/windcave.py` and
-- `pos_service/clients/sentry.py`. The HTTP library is a parameter: what each attempt of a request
-- comes to.
pub mod Windcave
pub mod Sentry
pub mod Terminal
pub mod Numerals
pub mod Readings
pub mod Attempts
pub mod Amounts
pub mod Replies
mod Tests
use hightower_pos.Prelude.{
  ℕ, zero, suc, ◌+◌, ◌*◌, ◌^◌, Bool, ◌&&◌, Option, none, some, List, [], ◌∷◌, if◌then◌else◌, ltb,
  leb, ◌==◌,
}
use hightower_pos.Prelude.Text.{Text}

-- What one attempt comes to: a response, one of the two errors that are tried again (a network error
-- or a time-out), or any other exception.
pub data Exchange : Type 0 where
  responded : (status_code : ℕ) (body : Text) → Exchange
  unreachable broken : Exchange

abbrev pub max_retries : ℕ
max_retries = 3

-- `500 <= r.status_code < 600`
abbrev pub is_server_error : ℕ → Bool
is_server_error status_code = leb 500 status_code && ltb status_code 600

-- `last_exc`
pub data LastExc : Type 0 where
  server_error : (status_code : ℕ) (body : Text) → LastExc
  transport_error : LastExc

-- How the attempts end: with a response, with the last exception, or with one that is not handled.
pub data Answer : Type 0 where
  answered : (status_code : ℕ) (body : Text) → Answer
  gave_up : LastExc → Answer
  escaped : Answer

-- An answer with the number of requests that were sent and the waits after them, in milliseconds.
pub record Attempted : Type 0 where
  pub answer : Answer
  pub sent : ℕ
  pub waits : List ℕ

-- `_backoff`: no wait at all unless the initial wait is positive.
unfoldable pub backoff : (initial_backoff_ms attempt : ℕ) → List ℕ → List ℕ
backoff initial_backoff_ms attempt later =
    if initial_backoff_ms == 0 then later else (initial_backoff_ms * 2 ^ attempt) ∷ later

-- One more request, with the waits around it.
unfoldable pub waited : (initial_backoff_ms attempt : ℕ) → Attempted → Attempted
unfolding backoff
waited initial_backoff_ms attempt later = record {
  answer = later.answer;
  sent = later.sent + 1;
  waits = backoff initial_backoff_ms attempt later.waits;
}

abbrev pub ended : Answer → Attempted
ended answer = record { answer = answer; sent = 1; waits = [] }

-- The body of the loop: a server error and a transport error go on to the next attempt, `again`.
unfoldable pub react : Exchange → (again : LastExc → Attempted) → Attempted
react (responded status_code body) again =
    if is_server_error status_code
    then again (server_error status_code body)
    else ended (answered status_code body)
react unreachable again = again transport_error
react broken again = ended escaped

-- `for attempt in range(MAX_RETRIES)`, from an attempt on: `left` attempts are left.
unfoldable pub attempts :
    (initial_backoff_ms : ℕ) (exchange : ℕ → Exchange) (attempt left : ℕ) → LastExc → Attempted
unfolding waited react
attempts initial_backoff_ms exchange attempt zero last_exc = record {
  answer = gave_up last_exc;
  sent = 0;
  waits = [];
}
attempts initial_backoff_ms exchange attempt (suc left) last_exc = react (exchange attempt) λ last.
    waited initial_backoff_ms attempt (attempts initial_backoff_ms exchange (attempt + 1) left last)

-- The loop of `_raw_post` and `_request`. The last exception is set before it is read, since there is
-- at least one attempt.
unfoldable pub request_loop : (initial_backoff_ms : ℕ) (exchange : ℕ → Exchange) → Attempted
unfolding attempts
request_loop initial_backoff_ms exchange =
    attempts initial_backoff_ms exchange 0 max_retries transport_error
