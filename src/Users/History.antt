-- ===== src/Users/History.antt =====
-- Sequences of requests to the endpoints of `pos_service/routes/auth.py` and
-- `pos_service/routes/admin_users.py`.
use hightower_pos.Prelude.{ℕ, ◌≡◌, none, Option, List}
use hightower_pos.Prelude.Text.{Text}
use hightower_pos.Table
use hightower_pos.Model.{Store, session_key}
use hightower_pos.Users.{Bcrypt}
use hightower_pos.Users.Login.{
  login, logout, me, own_view, change_own, change_password_endpoint, UserInfo,
}
use hightower_pos.Users.Admin.{
  list_users, all_users, create, create_user, deactivate, deactivate_user, reset, reset_password,
  UserSummary,
}
use hightower_pos.Users.Found.{with_auth-cases}
use hightower_pos.Users.Invariant.{
  UsersOk, Keeps, login-UsersOk, logout-UsersOk, change_own-UsersOk,
}
use hightower_pos.Users.Managed.{create-UsersOk, deactivate-UsersOk, reset-UsersOk}

-- One request, with the cookie, the clock, the salt and the fresh token that it is served with.
pub data UserCall : Type 0 where
  login_call : (token username password : Text) → UserCall
  logout_call me_call list_users_call : UserCall
  change_password_call : (current_password new_password salt : Text) → UserCall
  create_user_call : (username initial_password display_name salt : Text) → UserCall
  deactivate_user_call : (username : Text) → UserCall
  reset_password_call : (username new_password salt : Text) → UserCall

module _ (b : Bcrypt) (ttl_hours : ℕ) where
  -- The store that a request leaves.
  unfoldable pub serve_user : (cookie : Option Text) (now : ℕ) → UserCall → Store → Store
  serve_user cookie now (login_call token username password) s =
      (login b ttl_hours now token username password s).1
  serve_user cookie now logout_call s = (logout cookie s).1
  serve_user cookie now me_call s = (me cookie now s).1
  serve_user cookie now list_users_call s = (list_users cookie now s).1
  serve_user cookie now (change_password_call current_password new_password salt) s =
      (change_password_endpoint b current_password new_password salt cookie now s).1
  serve_user cookie now (create_user_call username initial_password display_name salt) s =
      (create_user b username initial_password display_name salt cookie now s).1
  serve_user cookie now (deactivate_user_call username) s =
      (deactivate_user username cookie now s).1
  serve_user cookie now (reset_password_call username new_password salt) s =
      (reset_password b username new_password salt cookie now s).1

  -- The token of a login is new; `token_urlsafe(32)` draws 32 random bytes.
  abbrev pub IsFresh : UserCall → Store → Type 0
  IsFresh (login_call token username password) s = Table.find session_key token s.sessions ≡ none
  IsFresh _ s = Unit

  pub data Visited : Store → Store → Type 0 where
    idle : {s : Store} → Visited s s
    visit :
        {s s' : Store} (cookie : Option Text) (now : ℕ) (c : UserCall)
        → IsFresh c s
        → Visited (serve_user cookie now c s) s'
        → Visited s s'

  serve_user-UsersOk :
      (cookie : Option Text) (now : ℕ) (c : UserCall) (s : Store)
      → IsFresh c s
      → UsersOk s
      → UsersOk (serve_user cookie now c s)
  unfolding serve_user me list_users own_view all_users change_password_endpoint create_user
      deactivate_user reset_password
  serve_user-UsersOk cookie now (login_call token username password) s fresh ok =
      login-UsersOk b ttl_hours now token username password s ok fresh
  serve_user-UsersOk cookie now logout_call s fresh ok = logout-UsersOk cookie s ok
  serve_user-UsersOk cookie now me_call s fresh ok =
      with_auth-cases (Keeps UserInfo) cookie now own_view s (λ e _. ok) (λ auth _ _. ok)
  serve_user-UsersOk cookie now list_users_call s fresh ok =
      with_auth-cases (Keeps (List UserSummary)) cookie now all_users s (λ e _. ok) (λ auth _ _. ok)
  serve_user-UsersOk cookie now (change_password_call old_password new_password salt) s fresh ok =
      with_auth-cases (Keeps UserInfo) cookie now (change_own b old_password new_password salt) s
        (λ e _. ok)
        (λ auth _ caller. change_own-UsersOk b old_password new_password salt auth s ok caller)
  serve_user-UsersOk cookie now (create_user_call username password display_name salt) s fresh ok =
      with_auth-cases (Keeps UserSummary) cookie now
        (λ auth. create b username password display_name salt now) s (λ e _. ok)
        (λ auth _ _. create-UsersOk b username password display_name salt now s ok)
  serve_user-UsersOk cookie now (deactivate_user_call username) s fresh ok =
      with_auth-cases (Keeps UserSummary) cookie now (deactivate username) s (λ e _. ok)
        (λ auth _ _. deactivate-UsersOk username auth s ok)
  serve_user-UsersOk cookie now (reset_password_call username new_password salt) s fresh ok =
      with_auth-cases (Keeps UserSummary) cookie now (reset b username new_password salt) s
        (λ e _. ok) (λ auth _ _. reset-UsersOk b username new_password salt auth s ok)

  -- Over any sequence of logins with fresh tokens, logouts, password changes and user management
  -- requests, with any cookies and clocks, user names and tokens stay distinct, every session
  -- belongs to a stored user, and at least one user stays active.
  pub Visited-UsersOk : {s s' : Store} → Visited s s' → UsersOk s → UsersOk s'
  Visited-UsersOk idle ok = ok
  Visited-UsersOk {s} (visit cookie now c fresh later) ok =
      Visited-UsersOk later (serve_user-UsersOk cookie now c s fresh ok)
