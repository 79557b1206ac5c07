-- ===== src/Auth.antt =====
-- web/src/lib/auth: who may call what. `admin.ts`, `withAuth.ts`, `csrf.ts`, `currentUser.ts`.
-- What a signed cookie decodes to is given (`Option Session`), and so is `new URL`. An instant is
-- in milliseconds; `iat` is in seconds.
pub mod Gates
pub mod WithAuth
mod Tests
use simple_rss_notifications.Base.{
  ℕ, ◌/◌, Bool, true, false, not, ◌&&◌, ◌||◌, Option, none, some, List, [], ◌∷◌, Text, ltb, leb,
  ◌==◌, if◌then◌else◌, find,
}
use simple_rss_notifications.Base.Strings.{codes, text_eq}
use simple_rss_notifications.Db.{Database, User, WebSession}

pub record Session : Type 0 where
  pub jti : ℕ
  pub uid : ℕ
  pub username : Text
  pub iat : ℕ
  pub elevated_until : Option ℕ

pub data Denial : Type 0 where
  no_session user_missing password_changed session_revoked not_admin : Denial

pub data SessionCheck : Type 0 where
  live : SessionCheck
  dead : Denial → SessionCheck

-- `Math.floor(password_changed_at / 1000) > iat`
abbrev pub is_stale : User → Session → Bool
is_stale u s = ltb s.iat (u.password_changed_at / 1000)

abbrev pub user_of : Database → ℕ → Option User
user_of db uid = find (λ (u : User). u.id == uid) db.users

abbrev pub session_of : Database → ℕ → Option WebSession
session_of db jti = find (λ (w : WebSession). w.jti == jti) db.web_sessions

abbrev is_set : Option ℕ → Bool
is_set none = false
is_set (some n) = true

unfoldable pub check_mirror : ℕ → Option WebSession → SessionCheck
check_mirror now none = dead session_revoked
check_mirror now (some w) =
    if is_set w.revoked_at || ltb w.expires_at now then dead session_revoked else live

unfoldable pub check_user : ℕ → Database → Session → Option User → SessionCheck
unfolding check_mirror
check_user now db s none = dead user_missing
check_user now db s (some u) =
    if is_stale u s then dead password_changed else check_mirror now (session_of db s.jti)

-- `checkSessionLive`
unfoldable pub check_session_live : ℕ → Database → Session → SessionCheck
unfolding check_user
check_session_live now db s = check_user now db s (user_of db s.uid)

pub data AdminGate : Type 0 where
  admitted : Session → AdminGate
  refused : (status : ℕ) → Denial → AdminGate

admin_mirror : ℕ → User → Session → Option WebSession → AdminGate
admin_mirror now u s none = refused 401 session_revoked
admin_mirror now u s (some w) =
    if is_set w.revoked_at || ltb w.expires_at now
    then refused 401 session_revoked
    else if not u.is_admin
    then refused 403 not_admin
    else admitted s

admin_user : ℕ → Database → Session → Option User → AdminGate
unfolding admin_mirror
admin_user now db s none = refused 401 user_missing
admin_user now db s (some u) =
    if is_stale u s
    then refused 401 password_changed
    else admin_mirror now u s (session_of db s.jti)

-- `requireAdmin`
unfoldable pub require_admin : ℕ → Database → Option Session → AdminGate
unfolding admin_user
require_admin now db none = refused 401 no_session
require_admin now db (some s) = admin_user now db s (user_of db s.uid)

-- `isAdmin`
unfoldable pub is_admin_user : Database → ℕ → Bool
is_admin_user db uid = elim (user_of db uid) [ none ↦ false | some u ↦ u.is_admin ]

current_row : Session → Option User → Option (Session × User)
current_row s none = none
current_row s (some u) = if is_stale u s then none else some (s, u)

-- `getCurrentUser`
unfoldable pub get_current_user : Database → Option Session → Option (Session × User)
unfolding current_row
get_current_user db none = none
get_current_user db (some s) = current_row s (user_of db s.uid)

-- The headers and the method that the checks read.
pub record Request : Type 0 where
  pub method : Text
  pub origin : Option Text
  pub referer : Option Text

abbrev is_some_text : Option Text → Option Text → Bool
is_some_text none e = false
is_some_text (some t) none = false
is_some_text (some t) (some e) = text_eq t e

abbrev pub truthy : Option Text → Option Text
truthy (some (c ∷ s)) = some (c ∷ s)
truthy _ = none

-- `url_origin` is `new URL(…)`'s protocol and host, or `none` where it throws.
module _ (url_origin : Text → Option Text) where
  check_referer : Text → Option Text → Bool
  check_referer expected none = true
  check_referer expected (some r) = is_some_text (url_origin r) (some expected)

  pub check_origin : Text → Option Text → Option Text → Bool
  unfolding check_referer
  check_origin expected (some o) referer = text_eq o expected
  check_origin expected none referer = check_referer expected referer

  -- `isSameOrigin`; an empty header counts as absent.
  unfoldable pub is_same_origin : Text → Request → Bool
  unfolding check_origin
  is_same_origin public_base_url req = elim (url_origin public_base_url) [
    | none ↦ false
    | some expected ↦ check_origin expected (truthy req.origin) (truthy req.referer)
  ]
