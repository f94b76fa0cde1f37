-- ===== src/Users/Login.antt =====
-- The endpoints of `pos_service/routes/auth.py`.
use hightower_pos.Prelude.{
  ℕ, ◌*◌, Bool, true, ◌&&◌, not, Option, none, some, [], ◌∷◌, if◌then◌else◌,
}
use hightower_pos.Prelude.Text.{Text, codes, text_eq}
use hightower_pos.Table
use hightower_pos.Model.{User, TillSession, TillStatus, Store, user_key}
use hightower_pos.Till.{get_open_session}
use hightower_pos.Users.{
  Bcrypt, denied, authed, invalid_credentials, new_password_must_differ, Handler, AuthContext,
  AuthResult, verify_password, create_session, peek_session, revoke_session, change_password,
  with_auth,
}

pub record TillSessionBrief : Type 0 where
  pub session_id : Text
  pub status : TillStatus
  pub opened_at : ℕ

pub record UserInfo : Type 0 where
  pub username : Text
  pub display_name : Text
  pub expires_at : ℕ
  pub must_change_password : Bool
  pub till_session : Option TillSessionBrief

pub record LogoutResponse : Type 0 where
  pub logged_out : Bool
  pub warning : Option Text
  pub session_id : Option Text

-- The reply of a login with the cookie that it sets.
pub record LoggedIn : Type 0 where
  pub info : UserInfo
  pub cookie_token : Text
  pub max_age : ℕ

unfoldable pub user_info : User → (expires_at : ℕ) → Store → UserInfo
unfolding get_open_session
user_info user expires_at s = record {
  username = user.username;
  display_name = user.display_name;
  expires_at = expires_at;
  must_change_password = user.must_change_password;
  till_session = elim (get_open_session user.username s) [
    | none ↦ none
    | some t ↦ some (record { session_id = t.id; status = t.status; opened_at = t.opened_at })
  ];
}

-- `username` is `user.username`.
unfoldable pub logged_in : (ttl_hours now : ℕ) (token : Text) → User → Store → LoggedIn × Store
unfolding create_session user_info
logged_in ttl_hours now token user s =
    let (sess, s') = create_session now token user.username ttl_hours s in
    (
      record {
        info = user_info user sess.expires_at s';
        cookie_token = sess.session_token;
        max_age = ttl_hours * 3600;
      },
      s',
    )

unfoldable pub login :
    Bcrypt → (ttl_hours now : ℕ) (token username password : Text) → Handler LoggedIn
unfolding logged_in verify_password
login b ttl_hours now token username password s = elim (Table.find user_key username s.users) [
  | none ↦ (denied invalid_credentials, s)
  | some user ↦
      if user.is_active && verify_password b password user.password_hash
      then (let (r, s') = logged_in ttl_hours now token user s in (authed r, s'))
      else (denied invalid_credentials, s)
]

-- The open till of the cookie's cashier.
unfoldable pub till_left_open : Text → Store → Option TillSession
unfolding peek_session get_open_session
till_left_open token s = elim (peek_session token s) [
  | none ↦ none
  | some sess ↦ get_open_session sess.username s
]

unfoldable pub logout_response : Option TillSession → LogoutResponse
logout_response none = record { logged_out = true; warning = none; session_id = none }
logout_response (some t) = record {
  logged_out = true;
  warning = some (codes "open_till_session");
  session_id = some t.id;
}

unfoldable pub logout : (token : Option Text) → Store → LogoutResponse × Store
unfolding till_left_open logout_response revoke_session
logout none s = (logout_response none, s)
logout (some []) s = (logout_response none, s)
logout (some (c ∷ token)) s =
    (logout_response (till_left_open (c ∷ token) s), revoke_session (c ∷ token) s)

unfoldable pub own_view : AuthContext → Handler UserInfo
unfolding user_info
own_view auth s = (authed (user_info auth.user auth.session.expires_at s), s)

unfoldable pub me : (token : Option Text) (now : ℕ) → Handler UserInfo
unfolding own_view
me token now = with_auth token now own_view

-- The reply after the service has changed the password.
unfoldable pub own_info : (expires_at : ℕ) → AuthResult User × Store → AuthResult UserInfo × Store
unfolding user_info
own_info expires_at (denied e, s) = (denied e, s)
own_info expires_at (authed user, s) = (authed (user_info user expires_at s), s)

unfoldable pub change_own :
    Bcrypt → (current_password new_password salt : Text) → AuthContext → Handler UserInfo
unfolding verify_password change_password own_info
change_own b current_password new_password salt auth s =
    if not (verify_password b current_password auth.user.password_hash)
    then (denied invalid_credentials, s)
    else if text_eq new_password current_password
    then (denied new_password_must_differ, s)
    else own_info auth.session.expires_at (change_password b auth.user new_password salt s)

-- `POST /api/auth/change-password`
unfoldable pub change_password_endpoint :
    Bcrypt
    → (current_password new_password salt : Text) → (token : Option Text) (now : ℕ)
    → Handler UserInfo
unfolding change_own
change_password_endpoint b current_password new_password salt token now =
    with_auth token now (change_own b current_password new_password salt)
