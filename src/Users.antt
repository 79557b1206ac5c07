-- ===== src/Users.antt =====
-- web/src/app/api/users: creating, changing and deleting accounts, and
-- web/src/app/api/auth/{login,logout,change-password}: what they write.
-- The argon2 hash and its check, the JSON body and its schema are given: a handler takes the parsed
-- body, `none` where the schema refuses it. Audit rows are written beside and left out.
pub mod Accounts
pub mod Admins
pub mod Sessions
mod Tests
use simple_rss_notifications.Base.{
  ℕ, ◌+◌, ◌*◌, ◌≡◌, Bool, true, false, not, ◌&&◌, ◌||◌, Option, none, some, List, [], ◌∷◌, ◌++◌,
  Text, ltb, leb, ◌==◌, if◌then◌else◌, get_or, find, any, all, length, select, update, delete,
}
use simple_rss_notifications.Base.Strings.{codes, text_eq, is_digit, is_lower, trim, to_lower}
use simple_rss_notifications.Db.{Database, User, WebSession}
use simple_rss_notifications.Db.Cascade.{delete_user}
use simple_rss_notifications.Auth.{
  Session, Denial, AdminGate, admitted, refused, require_admin, user_of,
}
use simple_rss_notifications.RateLimit.{Bucket, user_key, rate_limit}

pub data Reply : Type 0 where
  done : Reply
  csrf : Reply
  gate_error : (status : ℕ) → Denial → Reply
  bad_id bad_request not_found : Reply
  rate_limited : (retry_after_sec : ℕ) → Reply
  cannot_demote_self cannot_delete_self last_admin : Reply
  invalid_username username_taken same_password invalid_credentials : Reply

abbrev is_admin_row : User → Bool
is_admin_row u = u.is_admin

abbrev pub has_id : ℕ → User → Bool
has_id id u = u.id == id

-- The id in a request's path: the uuid that it spells, and whether the text is the one that the
-- database prints, in lower case. `UUID_RE` takes either case and `::uuid` reads either, but `===`
-- compares texts.
pub record PathId : Type 0 where
  pub uuid : ℕ
  pub is_canonical : Bool

-- `id === uid`, for a `uid` that comes from the database.
abbrev pub is_same_text : PathId → ℕ → Bool
is_same_text id uid = id.is_canonical && uid == id.uuid

abbrev pub has_text_id : PathId → User → Bool
has_text_id id u = is_same_text id u.id

-- `admins.length <= 1 && admins.some((a) => a.id === id)`
unfoldable pub is_last_admin : PathId → List User → Bool
is_last_admin id users =
    let admins = select is_admin_row users in leb (length admins) 1 && any (has_text_id id) admins

-- The body of PATCH, with the password already hashed.
pub record Patch : Type 0 where
  pub is_admin : Option Bool
  pub must_change_password : Option Bool
  pub password_hash : Option Text

abbrev pub patched_user : ℕ → Patch → User → User
patched_user now p u = record u {
  is_admin = get_or p.is_admin u.is_admin;
  must_change_password = get_or p.must_change_password u.must_change_password;
  password_hash = get_or p.password_hash u.password_hash;
  password_changed_at = elim p.password_hash [ none ↦ u.password_changed_at | some h ↦ now ];
}

abbrev is_set : Option Text → Bool
is_set none = false
is_set (some t) = true

abbrev demotes : Patch → Bool
demotes p = elim p.is_admin [ none ↦ false | some b ↦ not b ]

-- The transaction of PATCH; `none` is the thrown `LastAdminError`, which rolls it back.
unfoldable pub patch_user : ℕ → PathId → Patch → Database → Option Database
unfolding is_last_admin
patch_user now id p db =
    if demotes p && is_last_admin id db.users
    then none
    else some (record db {
      users = update (has_id id.uuid) (patched_user now p) db.users;
      web_sessions =
          if is_set p.password_hash
          then delete (λ (w : WebSession). w.user_id == id.uuid) db.web_sessions
          else db.web_sessions;
    })

-- The transaction of DELETE.
unfoldable pub remove_user : PathId → Database → Option Database
unfolding is_last_admin
remove_user id db = if is_last_admin id db.users then none else some (delete_user id.uuid db)

-- The result of a transaction that may throw: a reply, and the database as it is then.
settled : Database → Option Database → Reply × Database
settled db none = (last_admin, db)
settled db (some db') = (done, db')

patch_checked : ℕ → PathId → Session → Patch → Database → Option User → Reply × Database
unfolding settled patch_user
patch_checked now id s p db none = (not_found, db)
patch_checked now id s p db (some target) =
    if is_same_text id s.uid && demotes p
    then (cannot_demote_self, db)
    else settled db (patch_user now id p db)

patch_body : ℕ → PathId → Session → Option Patch → Database → Reply × Database
unfolding patch_checked
patch_body now id s none db = (bad_request, db)
patch_body now id s (some p) db = patch_checked now id s p db (user_of db id.uuid)

abbrev minute : ℕ
minute = 60000

-- The order of the guards: id shape, rate limit, body, target.
patch_gated :
    ℕ
    → ℕ
    → Bool
    → PathId
    → Option Patch
    → AdminGate
    → Database
    → List Bucket
    → Reply × Database × List Bucket
unfolding patch_body
patch_gated now js_now id_ok id body (refused status code) db bs = (gate_error status code, db, bs)
patch_gated now js_now id_ok id body (admitted s) db bs =
    let (r, bs') =
      rate_limit now js_now (user_key (codes "users:update") s.uid)
        (record { limit = 30; window_ms = minute }) bs in
    let (reply, db') = patch_body now id s body db in
    if not id_ok
    then (bad_id, db, bs)
    else if not r.ok
    then (rate_limited r.retry_after_sec, db, bs')
    else (reply, db', bs')

-- `PATCH /api/users/[id]`; `id_ok` is that the id has the shape of a uuid.
unfoldable pub patch_route :
    ℕ
    → ℕ
    → (same_origin : Bool) → Option Session
    → (id_ok : Bool) → PathId
    → Option Patch
    → Database
    → List Bucket
    → Reply × Database × List Bucket
unfolding patch_gated
patch_route now js_now same_origin session id_ok id body db bs =
    if not same_origin
    then (csrf, db, bs)
    else patch_gated now js_now id_ok id body (require_admin now db session) db bs

delete_checked : PathId → Session → Database → Option User → Reply × Database
unfolding settled remove_user
delete_checked id s db none = (not_found, db)
delete_checked id s db (some target) = settled db (remove_user id db)

delete_gated :
    ℕ → ℕ → Bool → PathId → AdminGate → Database → List Bucket → Reply × Database × List Bucket
unfolding delete_checked
delete_gated now js_now id_ok id (refused status code) db bs = (gate_error status code, db, bs)
delete_gated now js_now id_ok id (admitted s) db bs =
    let (r, bs') =
      rate_limit now js_now (user_key (codes "users:delete") s.uid)
        (record { limit = 20; window_ms = minute }) bs in
    let (reply, db') = delete_checked id s db (user_of db id.uuid) in
    if not id_ok
    then (bad_id, db, bs)
    else if not r.ok
    then (rate_limited r.retry_after_sec, db, bs')
    else if is_same_text id s.uid
    then (cannot_delete_self, db, bs')
    else (reply, db', bs')

-- `DELETE /api/users/[id]`
unfoldable pub delete_route :
    ℕ
    → ℕ
    → (same_origin : Bool) → Option Session
    → (id_ok : Bool) → PathId
    → Database
    → List Bucket
    → Reply × Database × List Bucket
unfolding delete_gated
delete_route now js_now same_origin session id_ok id db bs =
    if not same_origin
    then (csrf, db, bs)
    else delete_gated now js_now id_ok id (require_admin now db session) db bs
