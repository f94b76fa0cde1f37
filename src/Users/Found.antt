-- ===== src/Users/Found.antt =====
-- What `get_auth` of `pos_service/auth.py` has read when it answers, and the cases of a route
-- behind it.
use hightower_pos.Prelude.{
  ℕ, ◌≡◌, refl, Bool, true, false, Option, none, some, [], ◌∷◌, ltb, Bool-cases, Option-cases, inl,
  inr, ◌⊎◌, subst, sym,
}
use hightower_pos.Prelude.Text.{Text}
use hightower_pos.Table
use hightower_pos.Model.{User, Session, Store, user_key, session_key}
use hightower_pos.Users.{
  AuthResult, AuthContext, Handler, AuthError, authed, denied, admit, session_user, token_auth,
  get_auth, with_auth, user_inactive,
}

pub AuthResult-cases :
    {A : Type 0} (r : AuthResult A)
    → ((a : A) × (r ≡ authed a)) ⊎ ((e : AuthError) × (r ≡ denied e))
AuthResult-cases (authed a) = inl (a, refl)
AuthResult-cases (denied e) = inr (e, refl)

authed_inj : {A : Type 0} {a b : A} → authed a ≡ authed b → a ≡ b
authed_inj h = cc

-- The user of an accepted request is a stored active user.
pub record IsCaller (auth : AuthContext) (s : Store) : Type 0 where
  pub stored : Table.find user_key auth.user.username s.users ≡ some auth.user
  pub active : auth.user.is_active ≡ true
  pub owner : auth.session.username ≡ auth.user.username

-- How a session fares that is stored and has not run out.
pub data Admits (sess : Session) (s : Store) : AuthResult AuthContext → Type 0 where
  admitted :
      (user : User)
      → Table.find user_key sess.username s.users ≡ some user
      → user.is_active ≡ true
      → Admits sess s (authed (record { user = user; session = sess }))
  barred : Admits sess s (denied user_inactive)

pub session_user-Admits : (sess : Session) (s : Store) → Admits sess s (session_user sess s)
unfolding session_user
session_user-Admits sess s = elim (Option-cases (Table.find user_key sess.username s.users)) [
  | inl unknown ↦ rw (unknown, session_user) barred
  | inr (user, found) ↦ rw (found, session_user) (by_flag user.is_active user found refl)
]
  where
    by_flag :
        (b : Bool) (user : User)
        → Table.find user_key sess.username s.users ≡ some user
        → user.is_active ≡ b
        → Admits sess s (admit b user sess)
    by_flag true user found active = admitted user found active
    by_flag false user found active = barred

pub Admits-IsCaller :
    {sess : Session} {s : Store} {r : AuthResult AuthContext} (auth : AuthContext)
    → Admits sess s r
    → r ≡ authed auth
    → IsCaller auth s
Admits-IsCaller {sess} {s} auth (admitted user found active) e =
    subst (λ a. IsCaller a s) (authed_inj e)
      (record {
        stored =
            subst (λ k. Table.find user_key k s.users ≡ some user)
              (sym (Table.find-key user_key sess.username s.users user found)) found;
        active = active;
        owner = sym (Table.find-key user_key sess.username s.users user found);
      })
Admits-IsCaller auth barred e = cc

pub token_auth-IsCaller :
    (token : Text) (now : ℕ) (s : Store) (auth : AuthContext)
    → token_auth token now s ≡ authed auth
    → IsCaller auth s
unfolding token_auth
token_auth-IsCaller token now s auth h =
    elim (Option-cases (Table.find session_key token s.sessions)) [
      | inl missing ↦ cc (rw (token_auth, missing) at h)
      | inr (sess, found) ↦ elim (Bool-cases (ltb sess.expires_at now)) [
        | inl late ↦ cc (rw (token_auth, found, late) at h)
        | inr live ↦
            Admits-IsCaller auth (session_user-Admits sess s) (rw (token_auth, found, live) at h)
      ]
    ]

pub get_auth-IsCaller :
    (token : Option Text) (now : ℕ) (s : Store) (auth : AuthContext)
    → get_auth token now s ≡ authed auth
    → IsCaller auth s
unfolding get_auth
get_auth-IsCaller none now s auth h = cc
get_auth-IsCaller (some []) now s auth h = cc
get_auth-IsCaller (some (c ∷ token)) now s auth h = token_auth-IsCaller (c ∷ token) now s auth h

-- A route behind `get_auth` refuses and changes nothing, or runs for a caller.
pub with_auth-cases :
    {A : Type 0} (P : AuthResult A × Store → Type 0) (token : Option Text) (now : ℕ)
    (handler : AuthContext → Handler A) (s : Store)
    → ((e : AuthError) → get_auth token now s ≡ denied e → P (denied e, s))
    → ((auth : AuthContext)
        → get_auth token now s ≡ authed auth
        → IsCaller auth s
        → P (handler auth s))
    → P (with_auth token now handler s)
with_auth-cases P token now handler s refused accepted =
    elim (AuthResult-cases (get_auth token now s)) [
      | inl (auth, e) ↦ rw (with_auth, e) (accepted auth e (get_auth-IsCaller token now s auth e))
      | inr (why, e) ↦ rw (with_auth, e) (refused why e)
    ]
