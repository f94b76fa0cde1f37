-- ===== src/Clients/Attempts.antt =====
-- How the retry loop of `pos_service/clients/windcave.py` and `pos_service/clients/sentry.py` ends.
use hightower_pos.Prelude.{
  ℕ, zero, suc, ◌+◌, ◌*◌, ◌^◌, ◌≤◌, ◌<◌, ◌≡◌, refl, ap, sym, ◌∙◌, subst, Bool, true, false, List,
  [], ◌∷◌, arith, if◌then◌else◌, ◌==◌, Bool-cases, inl, inr,
}
use hightower_pos.Clients.{
  Exchange, responded, unreachable, broken, LastExc, server_error, transport_error, Answer,
  answered, gave_up, escaped, Attempted, is_server_error, react, attempts, request_loop, waited,
  backoff, ended,
}

-- What is tried again.
abbrev pub is_retried : Exchange → Bool
is_retried (responded status_code body) = is_server_error status_code
is_retried unreachable = true
is_retried broken = false

-- The answer that an exchange gives where it is the last one.
abbrev pub outcome : Exchange → Answer
outcome (responded status_code body) =
    if is_server_error status_code
    then gave_up (server_error status_code body)
    else answered status_code body
outcome unreachable = gave_up transport_error
outcome broken = escaped

-- `n` waits from the attempt on, each twice the one before it.
abbrev pub doubling : (initial_backoff_ms attempt n : ℕ) → List ℕ
doubling initial_backoff_ms attempt zero = []
doubling initial_backoff_ms attempt (suc n) =
    (initial_backoff_ms * 2 ^ attempt) ∷ doubling initial_backoff_ms (attempt + 1) n

-- From an attempt on, with `left + 1` attempts left, `more + 1` requests are sent: all before the last
-- were to be tried again, the last one gives the answer, and is to be tried again only where no
-- attempt is left. Every one that is to be tried again is waited after, also the last.
pub record Ends (initial_backoff_ms : ℕ) (exchange : ℕ → Exchange) (attempt left : ℕ)
    (out : Attempted) : Type 0 where
  pub more : ℕ
  pub sent_more : out.sent ≡ more + 1
  pub within : more ≤ left
  pub retried : (i : ℕ) → i < more → is_retried (exchange (attempt + i)) ≡ true
  pub answer_last : out.answer ≡ outcome (exchange (attempt + more))
  pub exhausted : is_retried (exchange (attempt + more)) ≡ true → more ≡ left
  pub waits_double : out.waits ≡ (
      if initial_backoff_ms == 0
      then []
      else doubling initial_backoff_ms attempt
          (if is_retried (exchange (attempt + more)) then more + 1 else more))

-- The error that an exchange leaves behind, of those that are tried again.
abbrev error_of : Exchange → LastExc
error_of (responded status_code body) = server_error status_code body
error_of _ = transport_error

react_lem :
    (e : Exchange) (again : LastExc → Attempted)
    → react e again ≡ (if is_retried e then again (error_of e) else ended (outcome e))
unfolding react
react_lem (responded status_code body) again = ground arith
react_lem unreachable again = refl
react_lem broken again = refl

outcome-retried : (e : Exchange) → is_retried e ≡ true → outcome e ≡ gave_up (error_of e)
outcome-retried (responded status_code body) h = ground (arith, h)
outcome-retried unreachable h = refl
outcome-retried broken h = cc

module _ (b : ℕ) (exchange : ℕ → Exchange) where
  -- An exchange that is not tried again ends the loop.
  final-Ends :
      (attempt left : ℕ)
      → is_retried (exchange attempt) ≡ false
      → Ends b exchange attempt left (ended (outcome (exchange attempt)))
  final-Ends attempt left final = record {
    more = 0;
    sent_more = refl;
    within = omega arith;
    retried = λ i h. absurd (omega arith);
    answer_last = ap (λ k. outcome (exchange k)) (omega arith);
    exhausted = λ h. absurd (ground (arith, final, h));
    waits_double = ground (arith, final);
  }

  -- The last attempt is waited after too.
  last-Ends :
      (attempt : ℕ)
      → is_retried (exchange attempt) ≡ true
      → Ends b exchange attempt 0 (
          waited b attempt
            (record { answer = gave_up (error_of (exchange attempt)); sent = 0; waits = [] }))
  unfolding waited backoff
  last-Ends attempt again = record {
    more = 0;
    sent_more = refl;
    within = omega arith;
    retried = λ i h. absurd (omega arith);
    answer_last =
        sym (outcome-retried (exchange attempt) again)
        ∙ ap (λ k. outcome (exchange k)) (omega arith);
    exhausted = λ h. refl;
    waits_double = ground (arith, again);
  }

  doubling-suc :
      (attempt n : ℕ) → doubling b attempt (n + 1) ≡ (b * 2 ^ attempt) ∷ doubling b (attempt + 1) n
  doubling-suc attempt n = ap (doubling b attempt) (let e : n + 1 ≡ suc n = omega arith in e)

  waits_next :
      (attempt : ℕ) (q : Bool) (more : ℕ) (waits : List ℕ)
      → waits ≡ (if b == 0 then [] else doubling b (attempt + 1) (if q then more + 1 else more))
      → (if b == 0 then waits else (b * 2 ^ attempt) ∷ waits)
        ≡ (if b == 0 then [] else doubling b attempt (if q then more + 1 + 1 else more + 1))
  waits_next attempt q more waits h = elim (Bool-cases (b == 0)) [
    | inl none_at_all ↦ rw none_at_all (rw none_at_all at h)
    | inr some_wait ↦
        rw some_wait (ap (λ ws. (b * 2 ^ attempt) ∷ ws) (rw some_wait at h) ∙ by_flag q)
  ]
    where
      by_flag :
          (q : Bool)
          → (b * 2 ^ attempt) ∷ doubling b (attempt + 1) (if q then more + 1 else more)
            ≡ doubling b attempt (if q then more + 1 + 1 else more + 1)
      by_flag true = sym (doubling-suc attempt (more + 1))
      by_flag false = sym (doubling-suc attempt more)

  -- An exchange that is tried again stands before what follows.
  next-Ends :
      (attempt left : ℕ) (later : Attempted)
      → is_retried (exchange attempt) ≡ true
      → Ends b exchange (attempt + 1) left later
      → Ends b exchange attempt (suc left) (waited b attempt later)
  unfolding waited backoff
  next-Ends attempt left later again e =
      let shift : attempt + 1 + e.more ≡ attempt + (e.more + 1) = omega arith in
      record {
        more = e.more + 1;
        sent_more = ap (λ k. k + 1) e.sent_more;
        within = omega (arith, e.within);
        retried = before;
        answer_last = e.answer_last ∙ ap (λ k. outcome (exchange k)) shift;
        exhausted = λ h.
            omega (arith, e.exhausted (subst (λ k. is_retried (exchange k) ≡ true) (sym shift) h));
        waits_double =
            subst
              (λ k. (if b == 0 then later.waits else (b * 2 ^ attempt) ∷ later.waits) ≡ (
                if b == 0
                then []
                else doubling b attempt
                    (if is_retried (exchange k) then e.more + 1 + 1 else e.more + 1)))
              shift
              (waits_next attempt (is_retried (exchange (attempt + 1 + e.more))) e.more later.waits
                e.waits_double);
      }
    where
      before : (i : ℕ) → i < e.more + 1 → is_retried (exchange (attempt + i)) ≡ true
      before zero h = again_at (omega arith)
        where
          again_at : attempt ≡ attempt + 0 → is_retried (exchange (attempt + 0)) ≡ true
          again_at same = subst (λ k. is_retried (exchange k) ≡ true) same again
      before (suc i) h =
          subst (λ k. is_retried (exchange k) ≡ true) (omega arith) (e.retried i (omega arith))

  attempts-Ends :
      (attempt left : ℕ) (last : LastExc)
      → Ends b exchange attempt left (attempts b exchange attempt (suc left) last)
  unfolding attempts
  attempts-Ends attempt zero last = elim (Bool-cases (is_retried (exchange attempt))) [
    | inl again ↦ rw (attempts, react_lem (exchange attempt), again) (last-Ends attempt again)
    | inr final ↦ rw (attempts, react_lem (exchange attempt), final) (final-Ends attempt 0 final)
  ]
  attempts-Ends attempt (suc left) last = elim (Bool-cases (is_retried (exchange attempt))) [
    | inl again ↦
        rw (attempts, react_lem (exchange attempt), again)
          (next-Ends attempt left _ again
            (attempts-Ends (attempt + 1) left (error_of (exchange attempt))))
    | inr final ↦
        rw (attempts, react_lem (exchange attempt), final) (final-Ends attempt (suc left) final)
  ]

  -- A request is sent at least once and at most three times: every one before the last failed with a
  -- server error or in transport, the last one gives the answer, and it is such a failure only if it
  -- is the third. The waits start at the initial one and double, one after each failure; there are
  -- none if the initial wait is 0.
  pub request_loop-Ends : Ends b exchange 0 2 (request_loop b exchange)
  unfolding request_loop
  request_loop-Ends = attempts-Ends 0 2 transport_error
