-- ===== src/Users/Invariant.antt =====
-- The invariant of users and sessions, over the endpoints of `pos_service/routes/auth.py`.
use hightower_pos.Prelude.{
  ℕ, ◌+◌, ◌≤◌, ◌≡◌, refl, Bool, Option, none, some, List, [], ◌∷◌, arith, Bool-cases, Option-cases,
  inl, inr, All, All-map, ◌&&◌, not, if-cases,
}
use hightower_pos.Prelude.Text.{Text, text_eq}
use hightower_pos.Table
use hightower_pos.Table.{IsKeyed, self_found}
use hightower_pos.Model.{User, Session, Store, user_key, session_key}
use hightower_pos.Users.{
  Bcrypt, AuthResult, AuthContext, authed, denied, verify_password, change_password, save_user,
  create_session,
}
use hightower_pos.Users.Login.{UserInfo, LoggedIn, own_info, login, logged_in, logout, change_own}
use hightower_pos.Users.Found.{IsCaller}

abbrev pub is_active_user : User → Bool
is_active_user u = u.is_active

abbrev pub IsKnown : List User → Session → Type 0
IsKnown users sess = (u : User) × (Table.find user_key sess.username users ≡ some u)

-- Names and tokens are distinct, every session is a stored user's, and one user is active.
pub record UsersOk (s : Store) : Type 0 where
  pub keyed : IsKeyed user_key s.users
  pub sessions_keyed : IsKeyed session_key s.sessions
  pub known : All (IsKnown s.users) s.sessions
  pub active : 1 ≤ Table.count is_active_user s.users

-- What a handler leaves.
abbrev pub Keeps : (A : Type 0) → AuthResult A × Store → Type 0
Keeps A r = UsersOk r.1

IsKnown-put :
    (users : List User) (a old : User)
    → Table.find user_key a.username users ≡ some old
    → (sess : Session) → IsKnown users sess
    → IsKnown (Table.put user_key a users) sess
IsKnown-put users a old found sess (u, h) = elim (Bool-cases (text_eq a.username sess.username)) [
  | inl same ↦ (a, rw (Table.find-put user_key sess.username a users old found, same) refl)
  | inr other ↦ (u, rw (Table.find-put user_key sess.username a users old found, other) h)
]

pub IsKnown-insert :
    (users : List User) (a : User)
    → Table.find user_key a.username users ≡ none
    → (sess : Session) → IsKnown users sess
    → IsKnown (Table.insert user_key a users) sess
IsKnown-insert users a fresh sess (u, h) = elim (Bool-cases (text_eq a.username sess.username)) [
  | inl same ↦ (a, rw (Table.find-insert user_key sess.username a users fresh, same) refl)
  | inr other ↦ (u, rw (Table.find-insert user_key sess.username a users fresh, other) h)
]

-- A changed row is fine while someone stays active.
pub save_user-UsersOk :
    (s : Store) (a old : User)
    → UsersOk s
    → Table.find user_key a.username s.users ≡ some old
    → 1 + Table.bit old.is_active ≤ Table.count is_active_user s.users + Table.bit a.is_active
    → UsersOk (save_user a s)
save_user-UsersOk s a old ok found enough = record {
  keyed = Table.put-IsKeyed user_key a s.users ok.keyed;
  sessions_keyed = ok.sessions_keyed;
  known =
      All-map (IsKnown s.users) (IsKnown (Table.put user_key a s.users))
        (IsKnown-put s.users a old found) s.sessions ok.known;
  active = omega (arith, Table.count-put is_active_user user_key a s.users old found, enough);
}

logged_in-UsersOk :
    (ttl_hours now : ℕ) (token : Text) (user : User) (s : Store)
    → UsersOk s
    → Table.find session_key token s.sessions ≡ none
    → Table.find user_key user.username s.users ≡ some user
    → UsersOk (logged_in ttl_hours now token user s).1
unfolding logged_in create_session
logged_in-UsersOk ttl_hours now token user s ok fresh found = record {
  keyed = ok.keyed;
  sessions_keyed = Table.insert-IsKeyed session_key _ s.sessions fresh ok.sessions_keyed;
  known = Table.All-insert (IsKnown s.users) session_key _ s.sessions (user, found) ok.known;
  active = ok.active;
}

pub login-UsersOk :
    (b : Bcrypt) (ttl_hours now : ℕ) (token username password : Text) (s : Store)
    → UsersOk s
    → Table.find session_key token s.sessions ≡ none
    → UsersOk (login b ttl_hours now token username password s).1
unfolding login
login-UsersOk b ttl_hours now token username password s ok fresh =
    elim (Option-cases (Table.find user_key username s.users)) [
      | inl unknown ↦ rw (unknown, login) ok
      | inr (user, found) ↦
          rw (found, login)
            (if-cases (Keeps LoggedIn)
              (user.is_active && verify_password b password user.password_hash) _ _
              (λ _.
                logged_in-UsersOk ttl_hours now token user s ok fresh
                  (self_found user_key username s.users user found))
              (λ _. ok))
    ]

pub logout-UsersOk : (token : Option Text) (s : Store) → UsersOk s → UsersOk (logout token s).1
unfolding logout
logout-UsersOk none s ok = ok
logout-UsersOk (some []) s ok = ok
logout-UsersOk (some (c ∷ token)) s ok = record {
  keyed = ok.keyed;
  sessions_keyed = Table.remove-IsKeyed session_key (c ∷ token) s.sessions ok.sessions_keyed;
  known = Table.All-remove (IsKnown s.users) session_key (c ∷ token) s.sessions ok.known;
  active = ok.active;
}

-- A changed row keeps who is active.
pub same_activity-UsersOk :
    (s : Store) (a old : User)
    → UsersOk s
    → Table.find user_key a.username s.users ≡ some old
    → a.is_active ≡ old.is_active
    → UsersOk (save_user a s)
same_activity-UsersOk s a old ok found same =
    save_user-UsersOk s a old ok found (rw same (omega (arith, ok.active)))

change_password-UsersOk :
    (b : Bcrypt) (user : User) (new_password salt : Text) (s : Store)
    → UsersOk s
    → Table.find user_key user.username s.users ≡ some user
    → UsersOk (change_password b user new_password salt s).1
unfolding change_password
change_password-UsersOk b user new_password salt s ok found =
    elim (Option-cases (b.hashpw new_password salt)) [
      | inl fails ↦ rw (fails, change_password) ok
      | inr (hashed, e) ↦ rw (e, change_password) (same_activity-UsersOk s _ user ok found refl)
    ]

own_info-UsersOk :
    (expires_at : ℕ) (r : AuthResult User × Store) → UsersOk r.1 → UsersOk (own_info expires_at r).1
unfolding own_info
own_info-UsersOk expires_at (denied e, s) ok = ok
own_info-UsersOk expires_at (authed user, s) ok = ok

pub change_own-UsersOk :
    (b : Bcrypt) (current_password new_password salt : Text) (auth : AuthContext) (s : Store)
    → UsersOk s
    → IsCaller auth s
    → UsersOk (change_own b current_password new_password salt auth s).1
unfolding change_own
change_own-UsersOk b current_password new_password salt auth s ok caller =
    if-cases (Keeps UserInfo) (not (verify_password b current_password auth.user.password_hash)) _ _
      (λ _. ok)
      (λ _.
        if-cases (Keeps UserInfo) (text_eq new_password current_password) _ _ (λ _. ok)
          (λ _.
            own_info-UsersOk auth.session.expires_at
              (change_password b auth.user new_password salt s)
              (change_password-UsersOk b auth.user new_password salt s ok caller.stored)))
