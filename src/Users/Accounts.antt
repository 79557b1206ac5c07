-- ===== src/Users/Accounts.antt =====
-- web/src/app/api/users/route.ts (POST) and web/src/app/api/auth: creating an account, logging in
-- and out, and changing the own password. `jti` and the new id are drawn by the caller.
pub mod Keep
use simple_rss_notifications.Base.{
  ℕ, ◌+◌, ◌/◌, Bool, true, false, not, ◌&&◌, ◌||◌, Option, none, some, List, [], ◌∷◌, ◌++◌, Text,
  leb, ◌==◌, if◌then◌else◌, find, any, all, length, update, delete,
}
use simple_rss_notifications.Base.Strings.{codes, text_eq, is_digit, is_lower, trim, to_lower}
use simple_rss_notifications.Db.{Database, User, WebSession}
use simple_rss_notifications.Auth.{
  no_session, Session, AdminGate, admitted, refused, require_admin, user_of,
}
use simple_rss_notifications.RateLimit.{
  Bucket, Check, user_key, text_key, rate_limit, rate_limit_all,
}
use simple_rss_notifications.Users.{
  Reply, done, csrf, gate_error, bad_request, rate_limited, invalid_username, username_taken,
  same_password, invalid_credentials, has_id,
}

abbrev is_name_start : ℕ → Bool
is_name_start c = is_lower c || is_digit c

abbrev is_name_rest : ℕ → Bool
is_name_rest c = is_lower c || is_digit c || c == b'.' || c == b'_' || c == b'-'

-- `/^[a-z0-9][a-z0-9._-]{0,63}$/`
unfoldable pub is_username : Text → Bool
is_username [] = false
is_username (c ∷ s) = is_name_start c && all is_name_rest s && leb (length s) 63

pub record CreateBody : Type 0 where
  pub username : Text
  pub password_hash : Text
  pub is_admin : Bool
  pub must_change_password : Bool

-- The INSERT; `none` is the unique violation (23505) on the name or the id.
unfoldable pub insert_user : ℕ → ℕ → Text → CreateBody → Database → Option Database
insert_user now new_id username b db =
    if any (λ (u : User). text_eq u.username username || u.id == new_id) db.users
    then none
    else some (record db {
      users =
          db.users
          ++ record {
            id = new_id;
            username = username;
            password_hash = b.password_hash;
            is_admin = b.is_admin;
            must_change_password = b.must_change_password;
            password_changed_at = now;
          }
            ∷ [];
    })

inserted : Database → Option Database → Reply × Database
inserted db none = (username_taken, db)
inserted db (some db') = (done, db')

create_body : ℕ → ℕ → Option CreateBody → Database → Reply × Database
unfolding inserted insert_user is_username trim
create_body now new_id none db = (bad_request, db)
create_body now new_id (some b) db =
    let username = to_lower (trim b.username) in
    if not (is_username username)
    then (invalid_username, db)
    else inserted db (insert_user now new_id username b db)

create_gated :
    ℕ
    → ℕ
    → ℕ
    → Option CreateBody
    → AdminGate
    → Database
    → List Bucket
    → Reply × Database × List Bucket
unfolding create_body
create_gated now js_now new_id body (refused status code) db bs = (gate_error status code, db, bs)
create_gated now js_now new_id body (admitted s) db bs =
    let (r, bs') =
      rate_limit now js_now (user_key (codes "users:create") s.uid)
        (record { limit = 10; window_ms = 60000 }) bs in
    let (reply, db') = create_body now new_id body db in
    if not r.ok then (rate_limited r.retry_after_sec, db, bs') else (reply, db', bs')

-- `POST /api/users`
unfoldable pub create_route :
    ℕ
    → ℕ
    → (same_origin : Bool) → Option Session
    → ℕ
    → Option CreateBody
    → Database
    → List Bucket
    → Reply × Database × List Bucket
unfolding create_gated
create_route now js_now same_origin session new_id body db bs =
    if not same_origin
    then (csrf, db, bs)
    else create_gated now js_now new_id body (require_admin now db session) db bs

abbrev session_ttl_ms : ℕ
session_ttl_ms = 259_200_000

pub record Credentials : Type 0 where
  pub username : Text
  pub password : Text

-- The transaction of `POST /api/auth/change-password`.
unfoldable pub set_password : ℕ → ℕ → Text → Database → Database
set_password now uid new_hash db = record db {
  users =
      update (has_id uid)
        (λ (u : User). record u {
          password_hash = new_hash;
          password_changed_at = now;
          must_change_password = false;
        })
        db.users;
  web_sessions = delete (λ (w : WebSession). w.user_id == uid) db.web_sessions;
}

-- What `POST /api/auth/logout` deletes.
unfoldable pub logout_session : Option Session → Database → Database
logout_session none db = db
logout_session (some s) db = record db {
  web_sessions = delete (λ (w : WebSession). w.jti == s.jti) db.web_sessions;
}

-- `POST /api/auth/logout`; the cookie is cleared unless the request is refused.
unfoldable pub logout_route : (same_origin : Bool) → Option Session → Database → Reply × Database
unfolding logout_session
logout_route same_origin session db =
    if not same_origin then (csrf, db) else (done, logout_session session db)

pub record PasswordChange : Type 0 where
  pub current_password : Text
  pub new_password : Text

module _ (verify : (hash password : Text) → Bool) where
  login_as : ℕ → ℕ → Text → Option User → Database → Reply × Option Session × Database
  login_as now jti password none db = (invalid_credentials, none, db)
  login_as now jti password (some u) db =
      if not (verify u.password_hash password) then (invalid_credentials, none, db) else (
        done,
        some (record {
          jti = jti;
          uid = u.id;
          username = u.username;
          iat = now / 1000;
          elevated_until = none;
        }),
        record db {
          web_sessions =
              record {
                jti = jti;
                user_id = u.id;
                revoked_at = none;
                expires_at = now + session_ttl_ms;
              }
              ∷ db.web_sessions;
        },
      )

  -- `POST /api/auth/login`, for a body that the schema accepts; the second part is the new cookie.
  unfoldable pub login_route :
      ℕ
      → ℕ
      → (same_origin : Bool) → (ip : Text) → (jti : ℕ) → Option Credentials
      → Database
      → List Bucket
      → (Reply × Option Session × Database) × List Bucket
  unfolding login_as trim
  login_route now js_now same_origin ip jti none db bs =
      if not same_origin then ((csrf, none, db), bs) else ((bad_request, none, db), bs)
  login_route now js_now same_origin ip jti (some c) db bs =
      let username = to_lower (trim c.username) in
      let (r, bs') =
        rate_limit_all now js_now
          (record {
            key = text_key (codes "login:ip") ip;
            opts = record { limit = 5; window_ms = 60000 };
          })
          (record {
            key = text_key (codes "login:user") username;
            opts = record { limit = 10; window_ms = 3_600_000 };
          }
            ∷ [])
          bs in
      if not same_origin
      then ((csrf, none, db), bs)
      else if not r.ok
      then ((rate_limited r.retry_after_sec, none, db), bs')
      else (
        login_as now jti c.password (find (λ (u : User). text_eq u.username username) db.users) db,
        bs',
      )

  change_checked :
      (hash : Text → Text)
      → ℕ
      → Session
      → PasswordChange
      → Option User
      → Database
      → Reply × Database
  unfolding set_password
  change_checked hash now s b none db = (invalid_credentials, db)
  change_checked hash now s b (some u) db =
      if not (verify u.password_hash b.current_password)
      then (invalid_credentials, db)
      else (done, set_password now s.uid (hash b.new_password) db)

  change_body :
      (hash : Text → Text) → ℕ → Session → Option PasswordChange → Database → Reply × Database
  unfolding change_checked
  change_body hash now s none db = (bad_request, db)
  change_body hash now s (some b) db =
      if text_eq b.new_password b.current_password
      then (same_password, db)
      else change_checked hash now s b (user_of db s.uid) db

  -- `POST /api/auth/change-password`: the session is the signed cookie alone.
  unfoldable pub change_password_route :
      (hash : Text → Text)
      → ℕ
      → ℕ
      → (same_origin : Bool) → Option Session
      → (ip : Text) → Option PasswordChange
      → Database
      → List Bucket
      → Reply × Database × List Bucket
  unfolding change_body
  change_password_route hash now js_now same_origin none ip body db bs =
      if not same_origin then (csrf, db, bs) else (gate_error 401 no_session, db, bs)
  change_password_route hash now js_now same_origin (some s) ip body db bs =
      let (r, bs') =
        rate_limit now js_now (user_key (codes "change-pw:user") s.uid)
          (record { limit = 5; window_ms = 60000 }) bs in
      let (ip_r, bs'') =
        rate_limit now js_now (text_key (codes "change-pw:ip") ip)
          (record { limit = 10; window_ms = 3_600_000 }) bs' in
      let (reply, db') = change_body hash now s body db in
      if not same_origin
      then (csrf, db, bs)
      else if not r.ok
      then (rate_limited r.retry_after_sec, db, bs')
      else if not ip_r.ok
      then (rate_limited ip_r.retry_after_sec, db, bs'')
      else (reply, db', bs'')
