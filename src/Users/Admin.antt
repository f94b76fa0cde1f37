-- ===== src/Users/Admin.antt =====
-- The endpoints of `pos_service/routes/admin_users.py`.
use hightower_pos.Prelude.{
  ℕ, Bool, true, false, not, Option, none, some, List, [], ◌∷◌, if◌then◌else◌, leb, map,
}
use hightower_pos.Prelude.Text.{Text, text_eq, text_leb}
use hightower_pos.Table
use hightower_pos.Model.{User, Store, user_key}
use hightower_pos.Users.{
  Bcrypt, denied, authed, username_exists, user_not_found, cannot_deactivate_self, last_active_user,
  cannot_reset_own_password_here, unhandled, Handler, AuthContext, save_user, with_auth,
}

pub record UserSummary : Type 0 where
  pub username : Text
  pub display_name : Text
  pub is_active : Bool
  pub must_change_password : Bool
  pub created_at : ℕ

unfoldable pub row_to_summary : User → UserSummary
row_to_summary row = record {
  username = row.username;
  display_name = row.display_name;
  is_active = row.is_active;
  must_change_password = row.must_change_password;
  created_at = row.created_at;
}

-- `ORDER BY username`
place_user : User → List User → List User
place_user u [] = u ∷ []
place_user u (v ∷ rows) =
    let rest = place_user u rows in
    if text_leb u.username v.username then u ∷ v ∷ rows else v ∷ rest

by_username : List User → List User
unfolding place_user
by_username [] = []
by_username (u ∷ rows) = place_user u (by_username rows)

unfoldable pub all_users : AuthContext → Handler (List UserSummary)
unfolding by_username row_to_summary
all_users auth s = (authed (map row_to_summary (by_username s.users)), s)

unfoldable pub list_users : (token : Option Text) (now : ℕ) → Handler (List UserSummary)
unfolding all_users
list_users token now = with_auth token now all_users

unfoldable pub new_user : (now : ℕ) (username hashed display_name : Text) → User
new_user now username hashed display_name = record {
  username = username;
  password_hash = hashed;
  display_name = display_name;
  is_active = true;
  must_change_password = true;
  created_at = now;
}

unfoldable pub create :
    Bcrypt → (username initial_password display_name salt : Text) (now : ℕ) → Handler UserSummary
unfolding new_user row_to_summary
create b username initial_password display_name salt now s =
    elim (Table.find user_key username s.users) [
      | some existing ↦ (denied username_exists, s)
      | none ↦ elim (b.hashpw initial_password salt) [
        | none ↦ (denied unhandled, s)
        | some hashed ↦
            let user = new_user now username hashed display_name in
            (authed (row_to_summary user), record s { users = Table.insert user_key user s.users })
      ]
    ]

unfoldable pub create_user :
    Bcrypt
    → (username initial_password display_name salt : Text) → (token : Option Text) (now : ℕ)
    → Handler UserSummary
unfolding create
create_user b username initial_password display_name salt token now =
    with_auth token now (λ auth. create b username initial_password display_name salt now)

-- `SELECT count(username) WHERE is_active`
unfoldable pub active_count : Store → ℕ
active_count s = Table.count (λ u. u.is_active) s.users

-- The user is found: nothing to do if inactive, refused if the last one, else retired.
unfoldable pub retire : User → Handler UserSummary
unfolding active_count row_to_summary
retire user s =
    if not user.is_active
    then (authed (row_to_summary user), s)
    else if leb (active_count s) 1
    then (denied last_active_user, s)
    else (let row : User = record user { is_active = false } in
        (authed (row_to_summary row), save_user row s))

unfoldable pub deactivate : (username : Text) → AuthContext → Handler UserSummary
unfolding retire
deactivate username auth s =
    if text_eq username auth.user.username
    then (denied cannot_deactivate_self, s)
    else elim (Table.find user_key username s.users) [
      | none ↦ (denied user_not_found, s)
      | some user ↦ retire user s
    ]

unfoldable pub deactivate_user :
    (username : Text) (token : Option Text) (now : ℕ) → Handler UserSummary
unfolding deactivate
deactivate_user username token now = with_auth token now (deactivate username)

-- The row that an admin's reset leaves.
unfoldable pub reset_row : Text → User → User
reset_row hashed user = record user { password_hash = hashed; must_change_password = true }

unfoldable pub reset :
    Bcrypt → (username new_password salt : Text) → AuthContext → Handler UserSummary
unfolding reset_row row_to_summary
reset b username new_password salt auth s =
    if text_eq username auth.user.username
    then (denied cannot_reset_own_password_here, s)
    else elim (Table.find user_key username s.users) [
      | none ↦ (denied user_not_found, s)
      | some user ↦ elim (b.hashpw new_password salt) [
        | none ↦ (denied unhandled, s)
        | some hashed ↦
            let row = reset_row hashed user in (authed (row_to_summary row), save_user row s)
      ]
    ]

unfoldable pub reset_password :
    Bcrypt
    → (username new_password salt : Text) → (token : Option Text) (now : ℕ) → Handler UserSummary
unfolding reset
reset_password b username new_password salt token now =
    with_auth token now (reset b username new_password salt)
