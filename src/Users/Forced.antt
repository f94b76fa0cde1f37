-- ===== src/Users/Forced.antt =====
-- The first login after an admin's reset in `pos_service/routes/admin_users.py`.
use hightower_pos.Prelude.{
  ℕ, ◌≡◌, refl, true, false, ◌&&◌, Option, none, some, ◌∷◌, arith, ltb, ap, if-cases, subst, sym,
  ◌∙◌,
}
use hightower_pos.Prelude.Text.{Text, text_eq}
use hightower_pos.Table
use hightower_pos.Model.{User, Session, Store, user_key, session_key}
use hightower_pos.Users.{
  Bcrypt, IsBcrypt, AuthResult, AuthContext, authed, denied, password_change_required, get_auth,
  get_current_user, verify_password, save_user, change_password, with_auth, token_auth,
  create_session,
}
use hightower_pos.Users.Login.{
  login, logged_in, LoggedIn, change_own, change_password_endpoint, own_info,
}
use hightower_pos.Users.Admin.{reset_password, reset, reset_row}
use hightower_pos.Users.Access.{opened_session, session_user-active}

verified :
    (b : Bcrypt) (password salt hashed : Text)
    → IsBcrypt b
    → b.hashpw password salt ≡ some hashed
    → verify_password b password hashed ≡ true
unfolding verify_password
verified b password salt hashed law made = rw (verify_password, law password salt hashed made) refl

-- The store after an admin's reset of another user's password.
reset_password-store :
    (b : Bcrypt) (username new_password salt hashed : Text) (cookie : Option Text) (now : ℕ)
    (s : Store) (auth : AuthContext) (user : User)
    → get_auth cookie now s ≡ authed auth
    → text_eq username auth.user.username ≡ false
    → Table.find user_key username s.users ≡ some user
    → b.hashpw new_password salt ≡ some hashed
    → (reset_password b username new_password salt cookie now s).1
      ≡ save_user (reset_row hashed user) s
unfolding reset_password reset
reset_password-store b username new_password salt hashed cookie now s auth user let_in other found
      made =
    rw (with_auth, let_in, reset, other, found, made) refl

login-store :
    (b : Bcrypt) (ttl_hours now : ℕ) (token username password : Text) (s : Store) (user : User)
    → Table.find user_key username s.users ≡ some user
    → user.is_active ≡ true
    → verify_password b password user.password_hash ≡ true
    → (login b ttl_hours now token username password s).1 ≡ (logged_in ttl_hours now token user s).1
unfolding login
login-store b ttl_hours now token username password s user found active matches =
    rw (login, found)
      (if-cases
        (λ (r : AuthResult LoggedIn × Store). r.1 ≡ (logged_in ttl_hours now token user s).1)
        (user.is_active && verify_password b password user.password_hash) _ _ (λ _. refl)
        (λ out. absurd (ground (arith, out, active, matches))))

live_get_auth :
    (c now : ℕ) (token : Text) (sess : Session) (user : User) (s : Store)
    → Table.find session_key (c ∷ token) s.sessions ≡ some sess
    → ltb sess.expires_at now ≡ false
    → Table.find user_key sess.username s.users ≡ some user
    → user.is_active ≡ true
    → get_auth (some (c ∷ token)) now s ≡ authed (record { user = user; session = sess })
unfolding get_auth token_auth
live_get_auth c now token sess user s stored live found active =
    rw (get_auth, token_auth, stored, live) (session_user-active sess s user found active)

get_current_user-open :
    (auth : AuthContext)
    → auth.user.must_change_password ≡ false
    → get_current_user (authed auth) ≡ authed auth.user
unfolding get_current_user
get_current_user-open auth h = ground (arith, h)

-- The store after a login with a fresh token.
abbrev pub after_login :
    Bcrypt → (ttl_hours now c : ℕ) (token username password : Text) → Store → Store
after_login b ttl_hours now c token username password s =
    (login b ttl_hours now (c ∷ token) username password s).1

-- The sequence: an admin resets the password of another user, who logs in with it under a fresh token
-- and then changes it.
module _ (b : Bcrypt) (ttl_hours now c : ℕ) (token username new_password hashed : Text) where
  -- The user and the session after that login.
  login_after_reset :
      (salt : Text) (s : Store) (user : User)
      → IsBcrypt b
      → b.hashpw new_password salt ≡ some hashed
      → Table.find user_key username s.users ≡ some user
      → user.is_active ≡ true
      → after_login b ttl_hours now c token username new_password
          (save_user (reset_row hashed user) s)
        ≡ (logged_in ttl_hours now
            (c ∷ token)
            (reset_row hashed user)
            (save_user (reset_row hashed user) s)).1
  unfolding reset_row
  login_after_reset salt s user law made found active =
      login-store b ttl_hours now (c ∷ token) username new_password
        (save_user (reset_row hashed user) s) (reset_row hashed user)
        (Table.find-put_at user_key username (reset_row hashed user) s.users user
          (Table.find-key user_key username s.users user found) found)
        active (verified b new_password salt hashed law made)

  -- The row and the session that the login leaves.
  abbrev first_session : Session
  first_session = opened_session now ttl_hours (c ∷ token) username

  login_reads :
      (s : Store) (row old : User)
      → row.username ≡ username
      → Table.find user_key username s.users ≡ some old
      → Table.find session_key (c ∷ token) s.sessions ≡ none
      → (Table.find user_key username
            (logged_in ttl_hours now (c ∷ token) row (save_user row s)).1.users
          ≡ some row)
        × (Table.find session_key
              (c ∷ token)
              (logged_in ttl_hours now (c ∷ token) row (save_user row s)).1.sessions
            ≡ some first_session)
  unfolding logged_in create_session
  login_reads s row old key found fresh = (
    Table.find-put_at user_key username row s.users old key found,
    subst
        (λ k.
          Table.find session_key (c ∷ token) (
            Table.insert session_key (opened_session now ttl_hours (c ∷ token) row.username)
              s.sessions)
          ≡ some (opened_session now ttl_hours (c ∷ token) k))
        key
        (Table.find-insert_self session_key (opened_session now ttl_hours (c ∷ token) row.username)
          s.sessions fresh),
  )

  not_yet : ltb first_session.expires_at now ≡ false
  not_yet = ground arith

  -- The store after the user has changed the password.
  change_password-store :
      (s : Store) (row : User) (newer salt rehashed : Text)
      → Table.find user_key username s.users ≡ some row
      → Table.find session_key (c ∷ token) s.sessions ≡ some first_session
      → row.is_active ≡ true
      → verify_password b new_password row.password_hash ≡ true
      → text_eq newer new_password ≡ false
      → b.hashpw newer salt ≡ some rehashed
      → (change_password_endpoint b new_password newer salt (some (c ∷ token)) now s).1
        ≡ save_user (record row { password_hash = rehashed; must_change_password = false }) s
  unfolding change_password_endpoint change_own change_password own_info
  change_password-store s row newer salt rehashed found stored active matches differs made =
      rw (with_auth, live_get_auth c now token first_session row s stored not_yet found active)
        (rw (change_own, matches, differs, change_password, made) refl)

  -- After an admin has reset the password of another, active user, a login with the new password
  -- under a fresh token is accepted by `get_auth`, but every route behind `get_current_user` answers
  -- that a password change is required; once the user has changed the password to a different one,
  -- the same token passes, and the row holds the hash of the user's own password.
  pub reset_password-forces :
      (salt newer newer_salt rehashed : Text) (cookie : Option Text) (s : Store)
      (auth : AuthContext) (user : User)
      → IsBcrypt b
      → get_auth cookie now s ≡ authed auth
      → text_eq username auth.user.username ≡ false
      → Table.find user_key username s.users ≡ some user
      → user.is_active ≡ true
      → b.hashpw new_password salt ≡ some hashed
      → Table.find session_key (c ∷ token) s.sessions ≡ none
      → text_eq newer new_password ≡ false
      → b.hashpw newer newer_salt ≡ some rehashed
      → let s' : Store =
          after_login b ttl_hours now c token username new_password
            (reset_password b username new_password salt cookie now s).1 in
        let s'' : Store =
          (change_password_endpoint b new_password newer newer_salt (some (c ∷ token)) now s').1 in
        (get_current_user (get_auth (some (c ∷ token)) now s') ≡ denied password_change_required)
        × (get_current_user (get_auth (some (c ∷ token)) now s'')
            ≡ authed (record user { password_hash = rehashed; must_change_password = false }))
  unfolding get_current_user reset_row
  reset_password-forces salt newer newer_salt rehashed cookie s auth user law caller other found
        active made fresh differs remade =
      let key = Table.find-key user_key username s.users user found in
      let row = reset_row hashed user in
      let t : Store = (logged_in ttl_hours now (c ∷ token) row (save_user row s)).1 in
      let reached : after_login b ttl_hours now c token username new_password
            (reset_password b username new_password salt cookie now s).1
          ≡ t =
        ap (after_login b ttl_hours now c token username new_password) (
          reset_password-store b username new_password salt hashed cookie now s auth user caller
            other found made)
        ∙ login_after_reset salt s user law made found active in
      let (row_stored, sess_stored) = login_reads s row user key found fresh in
      subst
        (λ (s' : Store).
          (get_current_user (get_auth (some (c ∷ token)) now s') ≡ denied password_change_required)
          × (get_current_user (
                get_auth (some (c ∷ token)) now
                  (change_password_endpoint b new_password newer newer_salt (some (c ∷ token)) now
                    s').1)
              ≡ authed (record user { password_hash = rehashed; must_change_password = false })))
        (sym reached)
        (
          ap get_current_user
              (live_get_auth c now token first_session row t sess_stored not_yet row_stored active),
          ap (λ (s'' : Store). get_current_user (get_auth (some (c ∷ token)) now s''))
                (change_password-store t row newer newer_salt rehashed row_stored sess_stored active
                  (verified b new_password salt hashed law made) differs remade)
              ∙ ap get_current_user (
                  live_get_auth c now token first_session
                    (record row { password_hash = rehashed; must_change_password = false })
                    (save_user
                      (record row { password_hash = rehashed; must_change_password = false }) t)
                    sess_stored not_yet
                    (Table.find-put_at user_key username
                      (record row { password_hash = rehashed; must_change_password = false })
                      t.users row key row_stored)
                    active),
        )
