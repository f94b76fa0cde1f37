-- ===== src/Users.antt =====
-- Users and their sessions: `pos_service/auth.py`. The library bcrypt is a parameter.
pub mod Login
pub mod Admin
pub mod Found
pub mod Invariant
pub mod Managed
pub mod History
pub mod Access
pub mod Locks
pub mod Forced
mod Tests
use hightower_pos.Prelude.{
  ℕ, ◌+◌, ◌*◌, ◌≡◌, Bool, true, false, Option, none, some, [], ◌∷◌, if◌then◌else◌, ltb,
}
use hightower_pos.Prelude.Text.{Text}
use hightower_pos.Table
use hightower_pos.Model.{User, Session, Store, user_key, session_key}

-- `hashpw` is `none` where bcrypt raises on a password that it does not take; `checkpw` is `none`
-- where it raises ValueError.
pub record Bcrypt : Type 0 where
  pub hashpw : (password salt : Text) → Option Text
  pub checkpw : (password hashed : Text) → Option Bool

-- A password passes the check against its own hash.
abbrev pub IsBcrypt : Bcrypt → Type 0
IsBcrypt b =
    (password salt hashed : Text)
    → b.hashpw password salt ≡ some hashed
    → b.checkpw password hashed ≡ some true

-- The `error` of a refused request; `unhandled` is an exception that reaches the framework.
pub data AuthError : Type 0 where
  not_authenticated session_expired user_inactive invalid_credentials : AuthError
  password_change_required new_password_must_differ username_exists user_not_found : AuthError
  cannot_deactivate_self last_active_user cannot_reset_own_password_here unhandled : AuthError

unfoldable pub http_status : AuthError → ℕ
http_status not_authenticated = 401
http_status session_expired = 401
http_status user_inactive = 401
http_status invalid_credentials = 401
http_status password_change_required = 403
http_status new_password_must_differ = 400
http_status user_not_found = 404
http_status unhandled = 500
http_status _ = 409

pub data AuthResult (A : Type 0) : Type 0 where
  authed : A → AuthResult A
  denied : AuthError → AuthResult A

abbrev pub Handler : Type 0 → Type 0
Handler A = Store → AuthResult A × Store

pub record AuthContext : Type 0 where
  pub user : User
  pub session : Session

unfoldable pub verify_password : Bcrypt → (password hashed : Text) → Bool
verify_password b password hashed = elim (b.checkpw password hashed) [
  | none ↦ false
  | some matches ↦ matches
]

abbrev pub save_user : User → Store → Store
save_user u s = record s { users = Table.put user_key u s.users }

-- `token` is the fresh random token.
unfoldable pub create_session :
    (now : ℕ) (token username : Text) (ttl_hours : ℕ) → Store → Session × Store
create_session now token username ttl_hours s =
    let sess : Session = record {
      session_token = token;
      username = username;
      expires_at = now + ttl_hours * 3600;
    } in
    (sess, record s { sessions = Table.insert session_key sess s.sessions })

unfoldable pub peek_session : Text → Store → Option Session
peek_session token s = Table.find session_key token s.sessions

unfoldable pub revoke_session : Text → Store → Store
revoke_session token s = record s { sessions = Table.remove session_key token s.sessions }

-- The flag is `user.is_active`.
unfoldable pub admit : Bool → User → Session → AuthResult AuthContext
admit false user sess = denied user_inactive
admit true user sess = authed (record { user = user; session = sess })

-- The user of a session that has not run out.
unfoldable pub session_user : Session → Store → AuthResult AuthContext
unfolding admit
session_user sess s = elim (Table.find user_key sess.username s.users) [
  | none ↦ denied user_inactive
  | some user ↦ admit user.is_active user sess
]

unfoldable pub token_auth : Text → (now : ℕ) → Store → AuthResult AuthContext
unfolding session_user
token_auth token now s = elim (Table.find session_key token s.sessions) [
  | none ↦ denied session_expired
  | some sess ↦ if ltb sess.expires_at now then denied session_expired else session_user sess s
]

-- `token` is the request's cookie.
unfoldable pub get_auth : (token : Option Text) (now : ℕ) → Store → AuthResult AuthContext
unfolding token_auth
get_auth none now s = denied not_authenticated
get_auth (some []) now s = denied not_authenticated
get_auth (some (c ∷ token)) now s = token_auth (c ∷ token) now s

unfoldable pub get_current_user : AuthResult AuthContext → AuthResult User
get_current_user (denied e) = denied e
get_current_user (authed auth) =
    if auth.user.must_change_password then denied password_change_required else authed auth.user

unfoldable pub change_password : Bcrypt → User → (new_password salt : Text) → Handler User
change_password b user new_password salt s = elim (b.hashpw new_password salt) [
  | none ↦ (denied unhandled, s)
  | some hashed ↦
      let row : User = record user { password_hash = hashed; must_change_password = false } in
      (authed row, save_user row s)
]

-- A route that depends on `get_auth`.
abbrev pub with_auth :
    {A : Type 0} (token : Option Text) (now : ℕ) → (AuthContext → Handler A) → Handler A
with_auth token now handler s = elim (get_auth token now s) [
  | denied e ↦ (denied e, s)
  | authed auth ↦ handler auth s
]
