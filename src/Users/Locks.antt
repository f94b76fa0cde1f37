-- ===== src/Users/Locks.antt =====
-- What deactivating a user in `pos_service/routes/admin_users.py` shuts, and the guard that never fires.
use hightower_pos.Prelude.{
  ℕ, ◌≤◌, ◌≡◌, ◌≢◌, refl, Bool, true, false, not, ◌&&◌, Option, none, some, List, [], ◌∷◌, arith,
  leb, ltb, Option-cases, Bool-cases, inl, inr, ap, if-cases, subst, sym, ◌∙◌,
}
use hightower_pos.Prelude.Text.{Text, text_eq, text_eq→eq}
use hightower_pos.Table
use hightower_pos.Model.{User, Session, Store, user_key, session_key}
use hightower_pos.Users.{
  Bcrypt, AuthResult, AuthContext, AuthError, authed, denied, invalid_credentials, session_expired,
  user_inactive, last_active_user, not_authenticated, verify_password, get_auth, token_auth,
  session_user, admit, save_user,
}
use hightower_pos.Users.Login.{login, LoggedIn}
use hightower_pos.Users.Admin.{UserSummary, deactivate_user, deactivate, retire, active_count}
use hightower_pos.Users.Found.{IsCaller, with_auth-cases}
use hightower_pos.Users.Invariant.{is_active_user}

-- The user is stored and inactive, no login lets it in, none of its sessions is accepted, and no other
-- row has changed.
pub record Locks (username : Text) (s s' : Store) : Type 0 where
  pub retired :
      (u : User) × (Table.find user_key username s'.users ≡ some u) × (u.is_active ≡ false)
  pub no_login :
      (b : Bcrypt) (ttl_hours now : ℕ) (token password : Text)
      → login b ttl_hours now token username password s' ≡ (denied invalid_credentials, s')
  pub no_access :
      (token : Text) (later : ℕ) (sess : Session)
      → Table.find session_key token s'.sessions ≡ some sess
      → sess.username ≡ username
      → (e : AuthError) × (get_auth (some token) later s' ≡ denied e)
  pub others :
      (name : Text)
      → name ≢ username
      → Table.find user_key name s'.users ≡ Table.find user_key name s.users
  pub sessions : s'.sessions ≡ s.sessions

retired_no_login :
    (username : Text) (s : Store) (u : User)
    → Table.find user_key username s.users ≡ some u
    → u.is_active ≡ false
    → (b : Bcrypt) (ttl_hours now : ℕ) (token password : Text)
    → login b ttl_hours now token username password s ≡ (denied invalid_credentials, s)
unfolding login
retired_no_login username s u found retired b ttl_hours now token password =
    rw (found, login)
      (if-cases (λ (r : AuthResult LoggedIn × Store). r ≡ (denied invalid_credentials, s))
        (u.is_active && verify_password b password u.password_hash) _ _
        (λ yes_in. absurd (ground (arith, yes_in, retired))) (λ _. refl))

retired_session_user :
    (s : Store) (u : User) (sess : Session)
    → Table.find user_key sess.username s.users ≡ some u
    → u.is_active ≡ false
    → session_user sess s ≡ denied user_inactive
unfolding session_user admit
retired_session_user s u sess found retired = rw (found, session_user) (by_flag u.is_active retired)
  where
    by_flag : (b : Bool) → b ≡ false → admit b u sess ≡ denied user_inactive
    by_flag true e = cc
    by_flag false e = refl

-- A stored session of a user that is refused is refused.
refused_token :
    (token : Text) (later : ℕ) (s : Store) (sess : Session)
    → Table.find session_key token s.sessions ≡ some sess
    → session_user sess s ≡ denied user_inactive
    → (e : AuthError) × (get_auth (some token) later s ≡ denied e)
unfolding get_auth token_auth
refused_token [] later s sess stored refused = (not_authenticated, refl)
refused_token (c ∷ token) later s sess stored refused =
    elim (Bool-cases (ltb sess.expires_at later)) [
      | inl late ↦ (session_expired, rw (get_auth, token_auth, stored, late) refl)
      | inr live ↦ (user_inactive, rw (get_auth, token_auth, stored, live) refused)
    ]

retired-Locks :
    (username : Text) (s s' : Store) (u : User)
    → Table.find user_key username s'.users ≡ some u
    → u.is_active ≡ false
    → ((name : Text)
        → name ≢ username
        → Table.find user_key name s'.users ≡ Table.find user_key name s.users)
    → s'.sessions ≡ s.sessions
    → Locks username s s'
retired-Locks username s s' u found retired others same = record {
  retired = (u, found, retired);
  no_login = retired_no_login username s' u found retired;
  no_access = λ token later sess stored owner. refused_token token later s' sess stored (
      retired_session_user s' u sess
        (subst (λ k. Table.find user_key k s'.users ≡ some u) (sym owner) found) retired);
  others = others;
  sessions = same;
}

count_one :
    (k : Text) (rows : List User) (u : User)
    → Table.find user_key k rows ≡ some u
    → u.is_active ≡ true
    → 1 ≤ Table.count is_active_user rows
unfolding Table.find Table.count
count_one k [] u found active = cc
count_one k (r ∷ rows) u found active = ground (arith, count_one k rows u)

count_two :
    (j k : Text) (rows : List User) (u v : User)
    → text_eq j k ≡ false
    → Table.find user_key j rows ≡ some u
    → Table.find user_key k rows ≡ some v
    → u.is_active ≡ true
    → v.is_active ≡ true
    → 2 ≤ Table.count is_active_user rows
unfolding Table.find Table.count
count_two j k [] u v apart fu fv au av = cc
count_two j k (r ∷ rows) u v apart fu fv au av = ground (
  arith,
  count_two j k rows u v,
  count_one j rows u,
  count_one k rows v,
  text_eq→eq r.username j,
  text_eq→eq r.username k,
)

get_auth_spares :
    (cookie : Option Text) (now : ℕ) (s : Store) → get_auth cookie now s ≢ denied last_active_user
unfolding get_auth token_auth session_user
get_auth_spares none now s h = cc
get_auth_spares (some []) now s h = cc
get_auth_spares (some (c ∷ token)) now s h = ground arith

-- A refusal writes nothing, and it is never for the last active user.
abbrev pub Locked : Text → Store → AuthResult UserSummary × Store → Type 0
Locked username s (denied e, s') = (s' ≡ s) × (e ≢ last_active_user)
Locked username s (authed summary, s') = Locks username s s'

retire-Locked :
    (username : Text) (auth : AuthContext) (s : Store) (user : User)
    → IsCaller auth s
    → text_eq username auth.user.username ≡ false
    → Table.find user_key username s.users ≡ some user
    → Locked username s (retire user s)
unfolding retire active_count
retire-Locked username auth s user caller apart found =
    if-cases (Locked username s) (not user.is_active) _ _
      (λ idle. retired-Locks username s s user found (ground (arith, idle)) (λ name h. refl) refl)
      (λ was.
        if-cases (Locked username s) (leb (Table.count is_active_user s.users) 1) _ _
          (λ few. absurd (
            ground (
              arith,
              few,
              was,
              caller.active,
              count_two username auth.user.username s.users user auth.user apart found
                  caller.stored,
            )))
          (λ more. saved (Table.find-key user_key username s.users user found)))
  where
    saved :
        user.username ≡ username
        → Locks username s (save_user (record user { is_active = false }) s)
    saved key =
        retired-Locks username s _ (record user { is_active = false })
          (Table.find-put_at user_key username (record user { is_active = false }) s.users user key
            found)
          refl
          (λ name h.
            Table.find-put_ne user_key name (record user { is_active = false }) s.users
              (λ e. h (e ∙ key)))
          refl

-- A request to deactivate a user, on every branch: a refusal writes nothing and is never for the last
-- active user, since the caller is another one; after an acceptance the user is stored as inactive,
-- every login under the name is refused, so is every request with a session of the user, and the
-- other users and all sessions are as before.
pub deactivate_user-Locked :
    (username : Text) (cookie : Option Text) (now : ℕ) (s : Store)
    → Locked username s (deactivate_user username cookie now s)
unfolding deactivate_user deactivate
deactivate_user-Locked username cookie now s =
    with_auth-cases (Locked username s) cookie now (deactivate username) s
      (λ e refused. (refl, λ same. get_auth_spares cookie now s (refused ∙ ap denied same)))
      (λ auth accepted caller.
        if-cases (Locked username s) (text_eq username auth.user.username) _ _
          (λ _. (refl, λ same. cc))
          (λ apart. elim (Option-cases (Table.find user_key username s.users)) [
            | inl unknown ↦ rw unknown (refl, λ same. cc)
            | inr (user, found) ↦ rw found (retire-Locked username auth s user caller apart found)
          ]))
