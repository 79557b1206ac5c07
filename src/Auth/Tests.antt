-- ===== src/Auth/Tests.antt =====
-- The gates at concrete inputs.
use simple_rss_notifications.Base.{
  ◌≡◌, ◌≢◌, ◌↔◌, refl, true, false, Option, none, some, [], ◌∷◌, Text,
}
use simple_rss_notifications.Base.Strings.{codes}
use simple_rss_notifications.Db.{Database, User}
use simple_rss_notifications.RateLimit.{rate_limit}
use simple_rss_notifications.Auth.{
  Session, live, check_session_live, admitted, require_admin, is_admin_user, get_current_user,
  user_of, Request,
}
use simple_rss_notifications.Auth.Gates.{require_admin_iff, get_current_user_of_live, IsFromUs}
use simple_rss_notifications.Auth.WithAuth.{
  WithAuthOptions, proceed, user_hit, ip_hit, is_elevated, with_auth, with_auth-proceed,
}

abbrev ann : User
ann = record {
  id = 1;
  username = codes "ann";
  password_hash = codes "h";
  is_admin = true;
  must_change_password = false;
  password_changed_at = 1000;
}

abbrev database : Database
database = record {
  users = ann ∷ [];
  web_sessions = record { jti = 9; user_id = 1; revoked_at = none; expires_at = 900_000 } ∷ [];
  feeds = [];
  feed_items = [];
  routes = [];
  route_destinations = [];
  dispatches = [];
  sinks = record {
    sinks_smtp = [];
    sinks_resend = [];
    sinks_ntfy = [];
    sinks_discord_webhook = [];
  };
}

abbrev session : Session
session = record { jti = 9; uid = 1; username = codes "ann"; iat = 5; elevated_until = some 700 }

abbrev options : WithAuthOptions
options = record { require_elevated = true; rate_limit_per_user = none; rate_limit_per_ip = none }

require_admin_iff_example :
    (require_admin 6000 database (some session) ≡ admitted session)
    ↔ ((check_session_live 6000 database session ≡ live) × (is_admin_user database 1 ≡ true))
require_admin_iff_example = require_admin_iff 6000 database session

is_live : check_session_live 6000 database session ≡ live
unfolding check_session_live
is_live = refl

get_current_user_of_live_example :
    (u : User) × (get_current_user database (some session) ≡ some (session, u))
    × (user_of database 1 ≡ some u)
get_current_user_of_live_example = get_current_user_of_live 6000 database session is_live

-- Stands for `new URL`: every text is its own origin.
abbrev own_origin : Text → Option Text
own_origin t = some t

abbrev request : Request
request = record { method = codes "POST"; origin = some (codes "https://a"); referer = none }

proceeds :
    (with_auth own_origin
      (codes "https://a")
      6000
      6000
      database
      options
      request
      (codes "10.0.0.1")
      (some session)
      []).0
    ≡ proceed session
unfolding with_auth check_session_live rate_limit
proceeds = refl

with_auth-proceed_example :
    (some session ≡ some session)
    × (check_session_live 6000 database session ≡ live)
    × (codes "POST" ≢ codes "GET"
        → codes "POST" ≢ codes "HEAD"
        → IsFromUs own_origin (codes "https://a") request)
    × ((user_hit 6000 6000 options session []).0.ok ≡ true)
    × ((ip_hit 6000 6000 options (codes "10.0.0.1") (user_hit 6000 6000 options session []).1).0.ok
        ≡ true)
    × (options.require_elevated ≡ true → is_elevated 6 session.elevated_until ≡ true)
with_auth-proceed_example =
    with_auth-proceed own_origin (codes "https://a") 6000 6000 database options request
      (codes "10.0.0.1") (some session) [] session proceeds
