-- ===== src/Users/Tests.antt =====
-- Examples for the results on users: ann resets bob's password and deactivates him.
use hightower_pos.Prelude.{◌≡◌, refl, true, false, none, some, [], ◌∷◌, arith, ap, sym, ◌∙◌}
use hightower_pos.Prelude.Text.{Text, text_eq, text_eq_refl, codes}
use hightower_pos.Table
use hightower_pos.Table.{some_inj}
use hightower_pos.Model.{User, Session, Store}
use hightower_pos.Samples.{shop}
use hightower_pos.Users.{
  Bcrypt, IsBcrypt, authed, denied, get_auth, get_current_user, password_change_required,
  session_expired,
}
use hightower_pos.Users.Login.{login, logout, change_password_endpoint}
use hightower_pos.Users.Admin.{deactivate_user, reset_password}
use hightower_pos.Users.Invariant.{UsersOk}
use hightower_pos.Users.History.{
  idle, visit, Visited-UsersOk, serve_user, login_call, deactivate_user_call,
}
use hightower_pos.Users.Access.{LoginOutcome, login-LoginOutcome, logout-revokes}
use hightower_pos.Users.Locks.{Locked, deactivate_user-Locked}
use hightower_pos.Users.Forced.{after_login, reset_password-forces}

-- A hash that spells the password stands for bcrypt.
abbrev spelled : Bcrypt
spelled = record {
  hashpw = λ password salt. some password;
  checkpw = λ password hashed. some (text_eq password hashed);
}

abbrev user_named : Text → User
user_named name = record {
  username = name;
  password_hash = codes "secret-password";
  display_name = name;
  is_active = true;
  must_change_password = false;
  created_at = 0;
}

abbrev ann_session : Session
ann_session = record { session_token = codes "k"; username = codes "ann"; expires_at = 1000 }

-- Ann is logged in, bob is not.
abbrev staffed : Store
staffed = record shop {
  users = user_named (codes "ann") ∷ user_named (codes "bob") ∷ [];
  sessions = ann_session ∷ [];
}

staffed-UsersOk : UsersOk staffed
unfolding Table.find Table.count
staffed-UsersOk = record {
  keyed = (refl, (refl, tt));
  sessions_keyed = (refl, tt);
  known = ((user_named (codes "ann"), refl), tt);
  active = omega arith;
}

abbrev after_bob_in : Store
after_bob_in =
    serve_user spelled 8 none 5 (login_call (codes "m") (codes "bob") (codes "secret-password"))
      staffed

abbrev after_bob_out : Store
after_bob_out =
    serve_user spelled 8 (some (codes "k")) 6 (deactivate_user_call (codes "bob")) after_bob_in

Visited-UsersOk_example : UsersOk after_bob_out
unfolding Table.find
Visited-UsersOk_example =
    Visited-UsersOk spelled 8
      (visit none 5 (login_call (codes "m") (codes "bob") (codes "secret-password")) refl
        (visit (some (codes "k")) 6 (deactivate_user_call (codes "bob")) tt idle))
      staffed-UsersOk

login-LoginOutcome_example :
    LoginOutcome spelled 8 5
      (codes "m")
      (codes "bob")
      (codes "secret-password")
      staffed
      (login spelled 8 5 (codes "m") (codes "bob") (codes "secret-password") staffed)
unfolding Table.find
login-LoginOutcome_example =
    login-LoginOutcome spelled 8 5 b'm' [] (codes "bob") (codes "secret-password") staffed refl

logout-revokes_example :
    get_auth (some (codes "k")) 7 (logout (some (codes "k")) staffed).1 ≡ denied session_expired
unfolding Table.find
logout-revokes_example = logout-revokes b'k' [] staffed (some (codes "k")) 7 (refl, tt)

deactivate_user-Locked_example :
    Locked (codes "bob") staffed (deactivate_user (codes "bob") (some (codes "k")) 6 staffed)
deactivate_user-Locked_example = deactivate_user-Locked (codes "bob") (some (codes "k")) 6 staffed

spelled-IsBcrypt : IsBcrypt spelled
spelled-IsBcrypt password salt hashed made =
    ap some (sym (ap (text_eq password) (some_inj (λ (t : Text). t) made)) ∙ text_eq_refl password)

reset_password-forces_example :
    let s' : Store =
      after_login spelled 8 6 b'm' []
        (codes "bob")
        (codes "temporary")
        (reset_password spelled
          (codes "bob")
          (codes "temporary")
          []
          (some (codes "k"))
          6
          staffed).1 in
    let s'' : Store =
      (change_password_endpoint spelled
        (codes "temporary")
        (codes "bobs-own-word")
        []
        (some (codes "m"))
        6
        s').1 in
    (get_current_user (get_auth (some (codes "m")) 6 s') ≡ denied password_change_required)
    × (get_current_user (get_auth (some (codes "m")) 6 s'')
        ≡ authed (record (user_named (codes "bob")) {
          password_hash = codes "bobs-own-word";
          must_change_password = false;
        }))
unfolding get_auth Table.find
reset_password-forces_example =
    reset_password-forces spelled 8 6 b'm' [] (codes "bob") (codes "temporary") (codes "temporary")
      [] (codes "bobs-own-word") [] (codes "bobs-own-word") (some (codes "k")) staffed
      (record { user = user_named (codes "ann"); session = ann_session }) (user_named (codes "bob"))
      spelled-IsBcrypt refl refl refl refl refl refl refl refl
