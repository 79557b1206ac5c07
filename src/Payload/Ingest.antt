-- ===== src/Payload/Ingest.antt =====
-- web/src/lib/hooks/ingest.ts: `findWebhookFeed` and the transaction of `ingestItem`. The columns
-- priority, color, source and raw of the item, and the notifications of listeners, are left out;
-- the guid is the one that `randomUUID` draws.

use simple_rss_notifications.Base.{
  ℕ, Bool, true, false, ◌&&◌, Option, none, some, [], ◌∷◌, ◌++◌, Text, find, if◌then◌else◌,
}
use simple_rss_notifications.Base.Strings.{text_eq}
use simple_rss_notifications.Base.Integers.{ℤ}
use simple_rss_notifications.Db.{Database, Feed, FeedItem, FeedKind, rss, webhook}
use simple_rss_notifications.Poller.Persist.{Draw, open_destinations, fan_item}
use simple_rss_notifications.Payload.Fields.{Priority, level, inherited, is_empty}
use simple_rss_notifications.Payload.Values.{text_to_html}
use simple_rss_notifications.Payload.Normalize.Discord.{NormalizedHook}

abbrev is_webhook : FeedKind → Bool
is_webhook webhook = true
is_webhook rss = false

abbrev has_token_hash : Text → Feed → Bool
has_token_hash hash f =
    elim f.token_hash [ none ↦ false | some h ↦ text_eq h hash ] && is_webhook f.kind

unfoldable pub find_webhook_feed : (Text → Text) → Text → Database → Option Feed
find_webhook_feed hash_token token db = find (has_token_hash (hash_token token)) db.feeds

-- What a request to store an item brings from outside: the clock, the uuids, and the column's value
-- for a JavaScript instant.
pub record Stamps : Type 0 where
  pub now : ℕ
  pub draw : Draw
  pub guid : Text
  pub timestamptz : ℤ → ℕ

unfoldable pub webhook_item : Stamps → Feed → NormalizedHook → FeedItem
unfolding text_to_html
webhook_item stamps feed n = record {
  id = stamps.draw.item_id stamps.guid;
  feed_id = feed.id;
  guid = stamps.guid;
  link = n.url;
  title = some n.title;
  summary = if is_empty n.body then none else some (text_to_html n.body);
  published_at = elim n.published_at [ none ↦ none | some t ↦ some (stamps.timestamptz t) ];
}

-- The tables with an item more, and its dispatches.
unfoldable pub with_item : Stamps → Feed → FeedItem → Database → Database
unfolding open_destinations fan_item
with_item stamps feed item db = record db {
  feed_items = db.feed_items ++ item ∷ [];
  dispatches =
      fan_item stamps.now stamps.draw feed.user_id 0 item
        (open_destinations feed.id db.route_destinations db.routes) db.dispatches;
}

-- `none` where the transaction fails: the cast to smallint refuses what is not a number.
unfoldable pub insert_cast : Stamps → Feed → FeedItem → Priority → Database → Option Database
unfolding with_item
insert_cast stamps feed item inherited db = none
insert_cast stamps feed item (level p) db = some (with_item stamps feed item db)

unfoldable pub ingest_item : Stamps → Feed → NormalizedHook → Database → Option Database
unfolding insert_cast webhook_item
ingest_item stamps feed n db = insert_cast stamps feed (webhook_item stamps feed n) n.priority db
