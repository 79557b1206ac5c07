-- ===== src/Maintenance/Tests.antt =====
-- The sweep at a concrete input: one session has expired, and one is live.
use simple_rss_notifications.Base.{◌≡◌, refl, true, false, none, [], ◌∷◌, arith}
use simple_rss_notifications.Base.Strings.{codes}
use simple_rss_notifications.Db.{Database}
use simple_rss_notifications.Auth.{Session, check_session_live}
use simple_rss_notifications.Maintenance.{run_maintenance}
use simple_rss_notifications.Maintenance.Harmless.{run_maintenance-check_session_live}

abbrev database : Database
database = record {
  users =
      record {
        id = 1;
        username = codes "ann";
        password_hash = codes "h";
        is_admin = true;
        must_change_password = false;
        password_changed_at = 1000;
      }
      ∷ [];
  web_sessions =
      record { jti = 8; user_id = 1; revoked_at = none; expires_at = 3000 }
      ∷ record { jti = 9; user_id = 1; revoked_at = none; expires_at = 900_000 }
      ∷ [];
  feeds = [];
  feed_items = [];
  routes = [];
  route_destinations = [];
  dispatches = [];
  sinks = record {
    sinks_smtp = [];
    sinks_resend = [];
    sinks_ntfy = [];
    sinks_discord_webhook = [];
  };
}

abbrev session : Session
session = record { jti = 9; uid = 1; username = codes "ann"; iat = 5; elevated_until = none }

run_maintenance-check_session_live_example :
    check_session_live 6000 (run_maintenance 5000 true true database []).0 session
    ≡ check_session_live 6000 database session
run_maintenance-check_session_live_example =
    run_maintenance-check_session_live 5000 6000 true true database [] session (refl, (refl, tt))
      (omega arith)
