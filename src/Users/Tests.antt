-- ===== src/Users/Tests.antt =====
-- The account routes at concrete inputs: two admins, one of whom tries to remove both.
use simple_rss_notifications.Base.{
  ℕ, ◌≡◌, ◌≢◌, refl, true, false, none, some, List, [], ◌∷◌, arith, select, update, delete,
}
use simple_rss_notifications.Base.Strings.{codes, text_eq}
use simple_rss_notifications.Db.{Database, User}
use simple_rss_notifications.Db.Cascade.{delete_user}
use simple_rss_notifications.RateLimit.{user_key, rate_limit}
use simple_rss_notifications.Auth.{Session, live, check_session_live, admitted, require_admin}
use simple_rss_notifications.Users.{
  PathId, Patch, patched_user, patch_user, remove_user, done, delete_route,
}
use simple_rss_notifications.Users.Accounts.{set_password}
use simple_rss_notifications.Users.Accounts.Keep.{Event, deletes, patches, run, run-IsAdministered}
use simple_rss_notifications.Users.Admins.Routes.{IsAdministered}
use simple_rss_notifications.Users.Admins.Spelling.{delete_route-upper}
use simple_rss_notifications.Users.Sessions.{
  OwnsRow, set_password-ends_sessions, patch_user-ends_sessions, remove_user-ends_sessions,
}

abbrev user : ℕ → User
user i = record {
  id = i;
  username = codes "u";
  password_hash = codes "h";
  is_admin = true;
  must_change_password = false;
  password_changed_at = 1000;
}

abbrev database : Database
database = record {
  users = user 1 ∷ user 2 ∷ [];
  web_sessions =
      record { jti = 9; user_id = 1; revoked_at = none; expires_at = 900_000 }
      ∷ record { jti = 8; user_id = 2; revoked_at = none; expires_at = 900_000 }
      ∷ [];
  feeds = [];
  feed_items = [];
  routes = [];
  route_destinations = [];
  dispatches = [];
  sinks = record {
    sinks_smtp = [];
    sinks_resend = [];
    sinks_ntfy = [];
    sinks_discord_webhook = [];
  };
}

abbrev session : ℕ → ℕ → Session
session jti uid = record {
  jti = jti;
  uid = uid;
  username = codes "u";
  iat = 5;
  elevated_until = none;
}

abbrev spelled : ℕ → PathId
spelled i = record { uuid = i; is_canonical = true }

abbrev reset : Patch
reset = record {
  is_admin = none;
  must_change_password = some true;
  password_hash = some (codes "new");
}

abbrev demotion : Patch
demotion = record { is_admin = some false; must_change_password = none; password_hash = none }

abbrev requests : List (Event (λ h p. text_eq h p) (λ p. p))
requests =
    deletes 6000 6000 true (some (session 9 1)) true (spelled 2)
    ∷ patches 6000 6000 true (some (session 9 1)) true (spelled 1) (some demotion)
    ∷ deletes 6000 6000 true (some (session 8 2)) true (spelled 1)
    ∷ []

run-IsAdministered_example :
    IsAdministered (run (λ h p. text_eq h p) (λ p. p) requests (database, [])).0.users
run-IsAdministered_example =
    run-IsAdministered (λ h p. text_eq h p) (λ p. p) requests (database, [])
      (refl, (refl, (refl, tt))) (record { unique = (refl, (refl, tt)); administered = refl })

owned : OwnsRow (session 9 1) database
owned = (λ h. refl, (λ h. absurd (omega (arith, h)), tt))

set_password-ends_sessions_example :
    check_session_live 7000 (set_password 6000 1 (codes "new") database) (session 9 1) ≢ live
set_password-ends_sessions_example =
    set_password-ends_sessions 6000 7000 (session 9 1) database owned (codes "new")

abbrev reset_database : Database
reset_database = record database {
  users = patched_user 6000 reset (user 1) ∷ user 2 ∷ [];
  web_sessions = record { jti = 8; user_id = 2; revoked_at = none; expires_at = 900_000 } ∷ [];
}

is_reset : patch_user 6000 (spelled 1) reset database ≡ some reset_database
unfolding patch_user update delete
is_reset = refl

patch_user-ends_sessions_example :
    (check_session_live 7000 reset_database (session 9 1) ≢ live)
    × (require_admin 7000 reset_database (some (session 9 1)) ≢ admitted (session 9 1))
patch_user-ends_sessions_example =
    patch_user-ends_sessions 6000 7000 (session 9 1) database owned true reset (codes "new")
      reset_database refl is_reset

abbrev removed_database : Database
removed_database = record database {
  users = user 2 ∷ [];
  web_sessions = record { jti = 8; user_id = 2; revoked_at = none; expires_at = 900_000 } ∷ [];
}

is_removed : remove_user (spelled 1) database ≡ some removed_database
unfolding remove_user select delete_user delete
is_removed = refl

remove_user-ends_sessions_example : check_session_live 7000 removed_database (session 9 1) ≢ live
remove_user-ends_sessions_example =
    remove_user-ends_sessions 6000 7000 (session 9 1) database owned true removed_database
      is_removed

is_admitted : require_admin 6000 database (some (session 9 1)) ≡ admitted (session 9 1)
unfolding require_admin
is_admitted = refl

is_within :
    (rate_limit 6000 6000
      (user_key (codes "users:delete") 1)
      (record { limit = 20; window_ms = 60000 })
      []).0.ok
    ≡ true
unfolding rate_limit
is_within = refl

delete_route-upper_example :
    ((delete_route 6000 6000 true
        (some (session 9 1))
        true
        (record { uuid = 1; is_canonical = false })
        database
        []).0
      ≡ done)
    × ((delete_route 6000 6000 true
          (some (session 9 1))
          true
          (record { uuid = 1; is_canonical = false })
          database
          []).1
        ≡ delete_user 1 database)
delete_route-upper_example =
    delete_route-upper 6000 6000 (session 9 1) database [] is_admitted is_within
