-- ===== src/Db/Cascade.antt =====
-- web/src/lib/db/schema: `ON DELETE CASCADE`. Deleting rows deletes what refers to them.
use simple_rss_notifications.Base.{ℕ, Bool, ◌==◌, any, select, delete}
use simple_rss_notifications.Db.{
  Database, User, WebSession, Feed, FeedItem, Route, RouteDestination, Dispatch, Sinks,
}

-- Deleting destinations deletes their dispatches.
unfoldable pub delete_destinations : (RouteDestination → Bool) → Database → Database
delete_destinations p db =
    let gone = select p db.route_destinations in
    record db {
      route_destinations = delete p db.route_destinations;
      dispatches =
          delete (λ d. any (λ (r : RouteDestination). r.id == d.route_destination_id) gone)
            db.dispatches;
    }

-- Deleting routes deletes their destinations and dispatches.
unfoldable pub delete_routes : (Route → Bool) → Database → Database
unfolding delete_destinations
delete_routes p db =
    let gone = select p db.routes in
    let db' = delete_destinations (λ rd. any (λ (r : Route). r.id == rd.route_id) gone) db in
    record db' {
      routes = delete p db.routes;
      dispatches = delete (λ d. any (λ (r : Route). r.id == d.route_id) gone) db'.dispatches;
    }

-- Deleting feeds deletes their items and routes, and the dispatches of the items.
unfoldable pub delete_feeds : (Feed → Bool) → Database → Database
unfolding delete_routes
delete_feeds p db =
    let gone = select p db.feeds in
    let of_gone = λ (fi : FeedItem). any (λ (f : Feed). f.id == fi.feed_id) gone in
    let gone_items = select of_gone db.feed_items in
    let db' = delete_routes (λ r. any (λ (f : Feed). f.id == r.feed_id) gone) db in
    record db' {
      feeds = delete p db.feeds;
      feed_items = delete of_gone db.feed_items;
      dispatches =
          delete (λ d. any (λ (fi : FeedItem). fi.id == d.feed_item_id) gone_items) db'.dispatches;
    }

unfoldable pub delete_sinks : ℕ → Sinks → Sinks
delete_sinks uid s = record {
  sinks_smtp = delete (λ x. x.user_id == uid) s.sinks_smtp;
  sinks_resend = delete (λ x. x.user_id == uid) s.sinks_resend;
  sinks_ntfy = delete (λ x. x.user_id == uid) s.sinks_ntfy;
  sinks_discord_webhook = delete (λ x. x.user_id == uid) s.sinks_discord_webhook;
}

-- Deleting a user deletes all that is his.
unfoldable pub delete_user : ℕ → Database → Database
unfolding delete_feeds delete_sinks
delete_user uid db =
    let db' = delete_routes (λ r. r.user_id == uid) (delete_feeds (λ f. f.user_id == uid) db) in
    record db' {
      users = delete (λ (u : User). u.id == uid) db.users;
      web_sessions = delete (λ (w : WebSession). w.user_id == uid) db.web_sessions;
      dispatches = delete (λ (d : Dispatch). d.user_id == uid) db'.dispatches;
      sinks = delete_sinks uid db.sinks;
    }
