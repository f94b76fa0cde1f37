-- ===== src/Users/Managed.antt =====
-- The requests of `pos_service/routes/admin_users.py` keep the invariant of the users.
use hightower_pos.Prelude.{
  ℕ, ◌≡◌, refl, false, some, arith, leb, Option-cases, inl, inr, All-map, not, if-cases,
}
use hightower_pos.Prelude.Text.{Text, text_eq}
use hightower_pos.Table
use hightower_pos.Table.{IsKeyed, self_found}
use hightower_pos.Model.{User, Store, user_key}
use hightower_pos.Users.{Bcrypt, AuthContext}
use hightower_pos.Users.Admin.{
  UserSummary, create, retire, deactivate, active_count, reset, new_user, reset_row,
}
use hightower_pos.Users.Invariant.{
  is_active_user, IsKnown, UsersOk, Keeps, IsKnown-insert, save_user-UsersOk, same_activity-UsersOk,
}

pub create-UsersOk :
    (b : Bcrypt) (username initial_password display_name salt : Text) (now : ℕ) (s : Store)
    → UsersOk s
    → UsersOk (create b username initial_password display_name salt now s).1
unfolding create new_user
create-UsersOk b username initial_password display_name salt now s ok =
    elim (Option-cases (Table.find user_key username s.users)) [
      | inr (user, found) ↦ rw (found, create) ok
      | inl free ↦ elim (Option-cases (b.hashpw initial_password salt)) [
        | inl fails ↦ rw (free, create, fails) ok
        | inr (hashed, e) ↦
            rw (free, create, e)
              (record {
                keyed = Table.insert-IsKeyed user_key _ s.users free ok.keyed;
                sessions_keyed = ok.sessions_keyed;
                known =
                    All-map (IsKnown s.users) (IsKnown (Table.insert user_key _ s.users))
                      (IsKnown-insert s.users _ free) s.sessions ok.known;
                active = omega (
                  arith,
                  Table.count-insert is_active_user user_key
                      (new_user now username hashed display_name) s.users,
                  ok.active,
                );
              })
      ]
    ]

retire-UsersOk :
    (user : User) (s : Store)
    → UsersOk s
    → Table.find user_key user.username s.users ≡ some user
    → UsersOk (retire user s).1
unfolding retire active_count
retire-UsersOk user s ok found =
    if-cases (Keeps UserSummary) (not user.is_active) _ _ (λ _. ok)
      (λ was.
        if-cases (Keeps UserSummary) (leb (Table.count is_active_user s.users) 1) _ _ (λ _. ok)
          (λ more.
            save_user-UsersOk s (record user { is_active = false }) user ok found
              (ground (arith, more))))

pub deactivate-UsersOk :
    (username : Text) (auth : AuthContext) (s : Store)
    → UsersOk s
    → UsersOk (deactivate username auth s).1
unfolding deactivate
deactivate-UsersOk username auth s ok =
    if-cases (Keeps UserSummary) (text_eq username auth.user.username) _ _ (λ _. ok)
      (λ _. elim (Option-cases (Table.find user_key username s.users)) [
        | inl unknown ↦ rw unknown ok
        | inr (user, found) ↦
            rw found (retire-UsersOk user s ok (self_found user_key username s.users user found))
      ])

pub reset-UsersOk :
    (b : Bcrypt) (username new_password salt : Text) (auth : AuthContext) (s : Store)
    → UsersOk s
    → UsersOk (reset b username new_password salt auth s).1
unfolding reset reset_row
reset-UsersOk b username new_password salt auth s ok =
    if-cases (Keeps UserSummary) (text_eq username auth.user.username) _ _ (λ _. ok)
      (λ _. elim (Option-cases (Table.find user_key username s.users)) [
        | inl unknown ↦ rw unknown ok
        | inr (user, found) ↦ elim (Option-cases (b.hashpw new_password salt)) [
          | inl fails ↦ rw (found, fails) ok
          | inr (hashed, e) ↦
              rw (found, e)
                (same_activity-UsersOk s (reset_row hashed user) user ok
                  (self_found user_key username s.users user found) refl)
        ]
      ])
