-- ===== src/Db/Access.antt =====
-- web/src/lib/db/withUser.ts, and the row-level security of web/src/lib/db/migrations: which rows a
-- statement reaches. A policy's USING holds for the rows that a statement reads and writes, its WITH
-- CHECK for those that it inserts. A cascade is not subject to a policy.
use simple_rss_notifications.Base.{ℕ, Bool, true, List, ◌&&◌, ◌==◌, any}
use simple_rss_notifications.Db.{
  Feed, Route, RouteDestination, Dispatch, SinkSmtp, SinkResend, SinkNtfy, SinkDiscordWebhook,
}

-- The role of a transaction. The owner of the tables, as which `db` connects, bypasses the policies;
-- `web_role` is held to them, with what `app.current_user_id` is set to.
pub data Role : Type 0 where
  owner : Role
  web_role : (current_user_id : ℕ) → Role

-- `user_id = current_setting('app.current_user_id')`
abbrev pub is_current_user : Role → ℕ → Bool
is_current_user owner user_id = true
is_current_user (web_role uid) user_id = user_id == uid

-- The policies `feeds_owner`, `routes_owner`, `dispatches_owner`, `route_destinations_owner` and
-- those of the sinks.
abbrev pub sees_feed : Role → Feed → Bool
sees_feed tx f = is_current_user tx f.user_id

abbrev pub sees_route : Role → Route → Bool
sees_route tx r = is_current_user tx r.user_id

abbrev pub sees_dispatch : Role → Dispatch → Bool
sees_dispatch tx d = is_current_user tx d.user_id

abbrev pub sees_destination : Role → List Route → RouteDestination → Bool
sees_destination owner rs rd = true
sees_destination (web_role uid) rs rd =
    any (λ (r : Route). r.user_id == uid && r.id == rd.route_id) rs

abbrev pub sees_smtp : Role → SinkSmtp → Bool
sees_smtp tx s = is_current_user tx s.user_id

abbrev pub sees_resend : Role → SinkResend → Bool
sees_resend tx s = is_current_user tx s.user_id

abbrev pub sees_ntfy : Role → SinkNtfy → Bool
sees_ntfy tx s = is_current_user tx s.user_id

abbrev pub sees_discord_webhook : Role → SinkDiscordWebhook → Bool
sees_discord_webhook tx s = is_current_user tx s.user_id

-- `withUser`: a transaction of the role `web_role`, for the user.
abbrev pub with_user {ℓ} : {A : Type ℓ} → ℕ → (Role → A) → A
with_user uid fn = fn (web_role uid)
