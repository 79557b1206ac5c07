-- ===== src/Db.antt =====
-- web/src/lib/db/schema: the tables that the program reads and writes, one row type each.
-- A uuid is a number, an instant is a number of milliseconds, and NULL is `none`. Columns that no
-- modelled statement reads or writes are left out.
pub mod Access
pub mod Cascade
pub mod Consistent
use simple_rss_notifications.Base.{ℕ, Bool, Option, List, Text}

pub record User : Type 0 where
  pub id : ℕ
  pub username : Text
  pub password_hash : Text
  pub is_admin : Bool
  pub must_change_password : Bool
  pub password_changed_at : ℕ

-- web_sessions
pub record WebSession : Type 0 where
  pub jti : ℕ
  pub user_id : ℕ
  pub revoked_at : Option ℕ
  pub expires_at : ℕ

pub data FeedKind : Type 0 where
  rss webhook : FeedKind

pub data BackfillMode : Type 0 where
  backfill_none backfill_count backfill_days backfill_done : BackfillMode

pub record Feed : Type 0 where
  pub id : ℕ
  pub user_id : ℕ
  pub label : Text
  pub kind : FeedKind
  pub url : Option Text
  pub token_hash : Option Text
  pub enabled : Bool
  pub poll_interval_s : ℕ
  pub etag : Option Text
  pub last_modified : Option Text
  pub last_polled_at : Option ℕ
  pub last_success_at : Option ℕ
  pub last_error : Option Text
  pub last_error_at : Option ℕ
  pub consecutive_failures : ℕ
  pub backfill_mode : BackfillMode
  pub backfill_value : ℕ
  pub backfill_pace_seconds : ℕ

-- feed_items
pub record FeedItem : Type 0 where
  pub id : ℕ
  pub feed_id : ℕ
  pub guid : Text
  pub link : Option Text
  pub title : Option Text
  pub summary : Option Text
  pub published_at : Option ℕ

pub record Route : Type 0 where
  pub id : ℕ
  pub user_id : ℕ
  pub feed_id : ℕ
  pub enabled : Bool

-- route_destinations
pub record RouteDestination : Type 0 where
  pub id : ℕ
  pub route_id : ℕ
  pub sink_type : Text
  pub sink_id : ℕ
  pub destination : Option Text
  pub enabled : Bool

pub data Status : Type 0 where
  pending sent failed skipped : Status

-- dispatches
pub record Dispatch : Type 0 where
  pub id : ℕ
  pub route_destination_id : ℕ
  pub route_id : ℕ
  pub feed_item_id : ℕ
  pub user_id : ℕ
  pub status : Status
  pub attempts : ℕ
  pub scheduled_at : ℕ
  pub dispatched_at : Option ℕ
  pub error : Option Text
  pub provider_message_id : Option Text
  pub created_at : ℕ

abbrev pub is_pending : Status → Bool
is_pending pending = Bool.true
is_pending _ = Bool.false

abbrev pub is_failed : Status → Bool
is_failed failed = Bool.true
is_failed _ = Bool.false

-- The sinks, with the columns that the dispatcher reads.
pub record SinkSmtp : Type 0 where
  pub id : ℕ
  pub user_id : ℕ
  pub from_email : Text

pub record SinkResend : Type 0 where
  pub id : ℕ
  pub user_id : ℕ

pub record SinkNtfy : Type 0 where
  pub id : ℕ
  pub user_id : ℕ
  pub include_link : Bool

pub record SinkDiscordWebhook : Type 0 where
  pub id : ℕ
  pub user_id : ℕ
  pub use_embeds : Bool

pub record Sinks : Type 0 where
  pub sinks_smtp : List SinkSmtp
  pub sinks_resend : List SinkResend
  pub sinks_ntfy : List SinkNtfy
  pub sinks_discord_webhook : List SinkDiscordWebhook

pub record Database : Type 0 where
  pub users : List User
  pub web_sessions : List WebSession
  pub feeds : List Feed
  pub feed_items : List FeedItem
  pub routes : List Route
  pub route_destinations : List RouteDestination
  pub dispatches : List Dispatch
  pub sinks : Sinks
