-- ===== src/Users/Access.antt =====
-- What a login and a logout of `pos_service/routes/auth.py` do to later requests.
use hightower_pos.Prelude.{
  ℕ, ◌+◌, ◌*◌, ◌≡◌, refl, Bool, true, false, ◌&&◌, Option, none, some, [], ◌∷◌, arith, ltb,
  Option-cases, Bool-cases, inl, inr, if◌then◌else◌, ap, if-cases, subst, sym,
}
use hightower_pos.Prelude.Text.{Text, text_eq, text_eq→eq, ne_of_text_eq}
use hightower_pos.Table
use hightower_pos.Table.{IsKeyed}
use hightower_pos.Model.{User, Session, Store, user_key, session_key}
use hightower_pos.Users.{
  Bcrypt, AuthResult, authed, denied, invalid_credentials, session_expired, verify_password,
  get_auth, token_auth, session_user, admit, create_session, revoke_session,
}
use hightower_pos.Users.Login.{login, logged_in, user_info, logout, LoggedIn}

pub session_user-active :
    (sess : Session) (s : Store) (user : User)
    → Table.find user_key sess.username s.users ≡ some user
    → user.is_active ≡ true
    → session_user sess s ≡ authed (record { user = user; session = sess })
unfolding session_user
session_user-active sess s user found active =
    rw (found, session_user) (by_flag user.is_active active)
  where
    by_flag :
        (b : Bool) → b ≡ true → admit b user sess ≡ authed (record { user = user; session = sess })
    by_flag true e = refl
    by_flag false e = cc

-- The session that a login opens.
abbrev pub opened_session : (now ttl_hours : ℕ) (token username : Text) → Session
opened_session now ttl_hours token username = record {
  session_token = token;
  username = username;
  expires_at = now + ttl_hours * 3600;
}

-- What a login does: it refuses and writes nothing unless the user is stored, active and the password
-- matches; else its token stands for the user until the session runs out.
pub data LoginOutcome (b : Bcrypt) (ttl_hours now : ℕ) (token username password : Text) (s : Store)
    : AuthResult LoggedIn × Store → Type 0 where
  unknown_user :
      Table.find user_key username s.users ≡ none
      → LoginOutcome b ttl_hours now token username password s (denied invalid_credentials, s)
  not_let_in :
      (user : User)
      → Table.find user_key username s.users ≡ some user
      → (user.is_active && verify_password b password user.password_hash) ≡ false
      → LoginOutcome b ttl_hours now token username password s (denied invalid_credentials, s)
  let_in :
      (user : User) (r : LoggedIn) (s' : Store)
      → Table.find user_key username s.users ≡ some user
      → (user.is_active && verify_password b password user.password_hash) ≡ true
      → (r.cookie_token ≡ token) × (r.info.must_change_password ≡ user.must_change_password)
      → s'.users ≡ s.users
      → ((later : ℕ)
          → get_auth (some token) later s' ≡ (
              if ltb (now + ttl_hours * 3600) later
              then denied session_expired
              else authed
                  (record { user = user; session = opened_session now ttl_hours token username })))
      → LoginOutcome b ttl_hours now token username password s (authed r, s')

and_left : (a b : Bool) → a && b ≡ true → a ≡ true
and_left a b h = ground arith

pub opened_get_auth :
    (ttl_hours now later c : ℕ) (token : Text) (user : User) (s : Store)
    → Table.find session_key (c ∷ token) s.sessions ≡ none
    → Table.find user_key user.username s.users ≡ some user
    → user.is_active ≡ true
    → get_auth (some (c ∷ token)) later (logged_in ttl_hours now (c ∷ token) user s).1 ≡ (
        if ltb (now + ttl_hours * 3600) later
        then denied session_expired
        else authed (record {
          user = user;
          session = opened_session now ttl_hours (c ∷ token) user.username;
        }))
unfolding get_auth token_auth logged_in create_session
opened_get_auth ttl_hours now later c token user s fresh found active =
    let sess = opened_session now ttl_hours (c ∷ token) user.username in
    let stored : Table.find session_key (c ∷ token) (Table.insert session_key sess s.sessions)
        ≡ some sess =
      Table.find-insert_self session_key sess s.sessions fresh in
    rw (get_auth, token_auth, logged_in, create_session, stored)
      (ap (λ r. if ltb sess.expires_at later then denied session_expired else r)
        (session_user-active sess (logged_in ttl_hours now (c ∷ token) user s).1 user found active))

-- A login on every branch: it is refused, and writes nothing, unless the user is stored and active and
-- the password matches; else its fresh token authenticates that user until the session's lifetime is
-- over and is refused afterwards.
pub login-LoginOutcome :
    (b : Bcrypt) (ttl_hours now c : ℕ) (token username password : Text) (s : Store)
    → Table.find session_key (c ∷ token) s.sessions ≡ none
    → LoginOutcome b ttl_hours now
        (c ∷ token)
        username
        password
        s
        (login b ttl_hours now (c ∷ token) username password s)
unfolding login logged_in create_session user_info
login-LoginOutcome b ttl_hours now c token username password s fresh =
    elim (Option-cases (Table.find user_key username s.users)) [
      | inl unknown ↦ rw (unknown, login) (unknown_user unknown)
      | inr (user, found) ↦
          rw (found, login)
            (if-cases (LoginOutcome b ttl_hours now (c ∷ token) username password s)
              (user.is_active && verify_password b password user.password_hash) _ _
              (λ yes_in.
                let_in user _ _ found yes_in (refl, refl) refl
                  λ later.
                    let same : user.username ≡ username =
                      Table.find-key user_key username s.users user found in
                    subst
                      (λ name.
                        get_auth (some (c ∷ token)) later
                          (logged_in ttl_hours now (c ∷ token) user s).1
                        ≡ (if ltb (now + ttl_hours * 3600) later
                            then denied session_expired
                            else authed (record {
                              user = user;
                              session = opened_session now ttl_hours (c ∷ token) name;
                            })))
                      same
                      (opened_get_auth ttl_hours now later c token user s fresh
                        (Table.self_found user_key username s.users user found)
                        (and_left user.is_active _ yes_in)))
              (not_let_in user found))
    ]

abbrev pub is_cookie : Text → Option Text → Bool
is_cookie token none = false
is_cookie token (some t) = text_eq t token

-- After a logout with a cookie, a request with that cookie is refused as expired, at every time, and a
-- request with any other cookie fares as before.
pub logout-revokes :
    (c : ℕ) (token : Text) (s : Store) (other : Option Text) (later : ℕ)
    → IsKeyed session_key s.sessions
    → get_auth other later (logout (some (c ∷ token)) s).1
      ≡ (if is_cookie (c ∷ token) other then denied session_expired else get_auth other later s)
unfolding get_auth token_auth logout revoke_session session_user
logout-revokes c token s none later keyed = refl
logout-revokes c token s (some []) later keyed = refl
logout-revokes c token s (some (d ∷ u)) later keyed =
    elim (Bool-cases (text_eq (d ∷ u) (c ∷ token))) [
      | inl same ↦ rw same (
          subst (λ t. token_auth t later (logout (some (c ∷ token)) s).1 ≡ denied session_expired)
            (sym (text_eq→eq (d ∷ u) (c ∷ token) same))
            (rw
              (
                token_auth,
                logout,
                revoke_session,
                Table.find-remove_self session_key (c ∷ token) s.sessions keyed,
              )
              refl))
      | inr apart ↦ rw apart (
          rw
            (
              get_auth,
              token_auth,
              logout,
              revoke_session,
              Table.find-remove_ne session_key (d ∷ u) (c ∷ token) s.sessions
                  (λ e. ne_of_text_eq (d ∷ u) (c ∷ token) apart (sym e)),
            )
            refl)
    ]
