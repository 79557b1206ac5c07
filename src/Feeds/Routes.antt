-- ===== src/Feeds/Routes.antt =====
-- web/src/app/api/routes: routes and their destinations, behind the wrapper `withAuth`; their
-- statements run in `withUser`. The policy of destinations holds for those inserted, since their
-- route has just been seen. The label of a route is left out.
use simple_rss_notifications.Base.{
  ℕ, suc, Bool, true, false, not, ◌&&◌, ◌||◌, Option, none, some, List, [], ◌∷◌, ◌++◌, Text, leb,
  ◌==◌, if◌then◌else◌, any, all, length, get_or, update,
}
use simple_rss_notifications.Base.Strings.{codes}
use simple_rss_notifications.Db.{
  Database, Route, RouteDestination, Sinks, SinkSmtp, SinkResend, SinkNtfy, SinkDiscordWebhook,
}
use simple_rss_notifications.Db.Access.{
  Role, sees_route, sees_destination, sees_smtp, sees_resend, sees_ntfy, sees_discord_webhook,
  with_user,
}
use simple_rss_notifications.Db.Cascade.{delete_routes, delete_destinations}
use simple_rss_notifications.Feeds.{is_visible_feed}

pub data SinkType : Type 0 where
  smtp resend ntfy discord_webhook : SinkType

pub record DestinationInput : Type 0 where
  pub sink_type : SinkType
  pub sink_id : ℕ
  pub destination : Option Text
  pub enabled : Bool

pub record RouteBody : Type 0 where
  pub feed_id : ℕ
  pub enabled : Bool
  pub destinations : List DestinationInput

pub record DestinationPatch : Type 0 where
  -- `none` for undefined, `some none` for null.
  pub destination : Option (Option Text)
  pub enabled : Option Bool

pub data RouteReply : Type 0 where
  bad_request feed_not_found sink_not_found route_not_found not_found threw : RouteReply
  created : ℕ → RouteReply
  done : RouteReply

abbrev pub sink_type_text : SinkType → Text
sink_type_text smtp = codes "smtp"
sink_type_text resend = codes "resend"
sink_type_text ntfy = codes "ntfy"
sink_type_text discord_webhook = codes "discord_webhook"

-- EMAIL_SINK_TYPES
abbrev pub is_email_sink : SinkType → Bool
is_email_sink smtp = true
is_email_sink resend = true
is_email_sink _ = false

abbrev is_line_end : ℕ → Bool
is_line_end c = c == 10 || c == 13 || c == 0x2028 || c == 0x2029

-- An `@` with a unit of the same line right behind it, `before` telling of the unit before it.
abbrev pub has_at : Bool → Text → Bool
has_at before [] = false
has_at before (c ∷ []) = false
has_at before (c ∷ d ∷ s) =
    (before && c == b'@' && not (is_line_end d)) || has_at (not (is_line_end c)) (d ∷ s)

-- `/.+@.+/.test(t)`
unfoldable pub is_address : Text → Bool
is_address t = has_at false t

abbrev is_short : Option Text → Bool
is_short none = true
is_short (some t) = leb (length t) 320

-- The schema of a destination.
unfoldable pub accepts_destination : DestinationInput → Bool
unfolding is_address
accepts_destination d =
    is_short d.destination
    && (not (is_email_sink d.sink_type)
        || (elim d.destination [ none ↦ false | some t ↦ is_address t ]))

unfoldable pub accepts_route : RouteBody → Bool
unfolding accepts_destination
accepts_route b =
    all accepts_destination b.destinations
    && leb 1 (length b.destinations)
    && leb (length b.destinations) 20

unfoldable pub has_sink : Role → SinkType → ℕ → Sinks → Bool
has_sink tx smtp i s = any (λ (x : SinkSmtp). sees_smtp tx x && x.id == i) s.sinks_smtp
has_sink tx resend i s = any (λ (x : SinkResend). sees_resend tx x && x.id == i) s.sinks_resend
has_sink tx ntfy i s = any (λ (x : SinkNtfy). sees_ntfy tx x && x.id == i) s.sinks_ntfy
has_sink tx discord_webhook i s =
    any (λ (x : SinkDiscordWebhook). sees_discord_webhook tx x && x.id == i) s.sinks_discord_webhook

abbrev pub has_sink_of : Role → Sinks → DestinationInput → Bool
unfolding has_sink
has_sink_of tx s d = has_sink tx d.sink_type d.sink_id s

-- A new row; ntfy and Discord have no address.
abbrev pub new_destination : ℕ → ℕ → DestinationInput → RouteDestination
new_destination id route_id d = record {
  id = id;
  route_id = route_id;
  sink_type = sink_type_text d.sink_type;
  sink_id = d.sink_id;
  destination = if is_email_sink d.sink_type then d.destination else none;
  enabled = d.enabled;
}

-- The rows of the inserts, with uuids drawn by position.
unfoldable pub new_destinations : (ℕ → ℕ) → ℕ → ℕ → List DestinationInput → List RouteDestination
new_destinations draw idx route_id [] = []
new_destinations draw idx route_id (d ∷ ds) =
    new_destination (draw idx) route_id d ∷ new_destinations draw (suc idx) route_id ds

unfoldable pub add_route : (ℕ → ℕ) → Route → List DestinationInput → Database → Database
unfolding new_destinations
add_route draw r ds db = record db {
  routes = db.routes ++ r ∷ [];
  route_destinations = db.route_destinations ++ new_destinations draw 0 r.id ds;
}

-- The transaction of `POST /api/routes`.
unfoldable pub insert_route :
    (ℕ → ℕ) → Route → List DestinationInput → Database → Role → RouteReply × Database
unfolding has_sink add_route
insert_route draw row ds db tx =
    if not (any (is_visible_feed tx row.feed_id) db.feeds)
    then (feed_not_found, db)
    else if not (all (has_sink_of tx db.sinks) ds)
    then (sink_not_found, db)
    else if sees_route tx row
    then (created row.id, add_route draw row ds db)
    else (threw, db)

-- `POST /api/routes`
unfoldable pub post_route : ℕ → (ℕ → ℕ) → ℕ → Option RouteBody → Database → RouteReply × Database
unfolding accepts_route insert_route
post_route route_id draw uid none db = (bad_request, db)
post_route route_id draw uid (some b) db =
    let row : Route = record {
      id = route_id;
      user_id = uid;
      feed_id = b.feed_id;
      enabled = b.enabled;
    } in
    if not (accepts_route b)
    then (bad_request, db)
    else with_user uid (λ tx. insert_route draw row b.destinations db tx)

-- `WHERE id = …` in a transaction.
abbrev pub is_visible_route : Role → ℕ → Route → Bool
is_visible_route tx id r = sees_route tx r && r.id == id

-- `PATCH /api/routes/[id]`; `none` for a body that is refused.
unfoldable pub change_route : ℕ → ℕ → Option (Option Bool) → Database → RouteReply × Database
change_route uid id none db = (bad_request, db)
change_route uid id (some enabled) db =
    let patched = λ (r : Route). record r { enabled = get_or enabled r.enabled } in
    with_user uid (λ tx.
      if any (is_visible_route tx id) db.routes
      then (done, record db { routes = update (is_visible_route tx id) patched db.routes })
      else (not_found, db))

-- `DELETE /api/routes/[id]`
unfoldable pub remove_route : ℕ → ℕ → Database → RouteReply × Database
unfolding delete_routes
remove_route uid id db = with_user uid (λ tx.
    if any (is_visible_route tx id) db.routes
    then (done, delete_routes (is_visible_route tx id) db)
    else (not_found, db))

-- The transaction of `POST /api/routes/[id]/destinations`.
unfoldable pub insert_destination :
    ℕ → ℕ → DestinationInput → Database → Role → RouteReply × Database
unfolding has_sink
insert_destination dest_id id d db tx =
    if not (any (is_visible_route tx id) db.routes)
    then (route_not_found, db)
    else if not (has_sink_of tx db.sinks d)
    then (sink_not_found, db)
    else (
      created dest_id,
      record db { route_destinations = db.route_destinations ++ new_destination dest_id id d ∷ [] },
    )

-- `POST /api/routes/[id]/destinations`
unfoldable pub add_destination :
    ℕ → ℕ → ℕ → Option DestinationInput → Database → RouteReply × Database
unfolding accepts_destination insert_destination
add_destination dest_id uid id none db = (bad_request, db)
add_destination dest_id uid id (some d) db =
    if not (accepts_destination d)
    then (bad_request, db)
    else with_user uid (λ tx. insert_destination dest_id id d db tx)

-- `WHERE id = … AND route_id = …` in a transaction.
abbrev pub is_visible_destination : Role → ℕ → ℕ → List Route → RouteDestination → Bool
is_visible_destination tx id dest_id rs rd =
    sees_destination tx rs rd && rd.id == dest_id && rd.route_id == id

abbrev pub patched_destination : DestinationPatch → RouteDestination → RouteDestination
patched_destination p rd = record rd {
  destination = get_or p.destination rd.destination;
  enabled = get_or p.enabled rd.enabled;
}

abbrev pub accepts_destination_patch : DestinationPatch → Bool
accepts_destination_patch p = elim p.destination [ none ↦ true | some t ↦ is_short t ]

-- `UPDATE … RETURNING id`, and the reply.
abbrev pub update_destination :
    (RouteDestination → Bool)
    → (RouteDestination → RouteDestination)
    → Database
    → RouteReply × Database
update_destination matches patched db =
    if any matches db.route_destinations
    then (done, record db { route_destinations = update matches patched db.route_destinations })
    else (not_found, db)

-- `PATCH /api/routes/[id]/destinations/[destId]`
unfoldable pub patch_destination :
    ℕ → ℕ → ℕ → Option DestinationPatch → Database → RouteReply × Database
patch_destination uid id dest_id none db = (bad_request, db)
patch_destination uid id dest_id (some p) db =
    if not (accepts_destination_patch p)
    then (bad_request, db)
    else with_user uid (λ tx.
      update_destination (is_visible_destination tx id dest_id db.routes) (patched_destination p)
        db)

-- `DELETE /api/routes/[id]/destinations/[destId]`
unfoldable pub remove_destination : ℕ → ℕ → ℕ → Database → RouteReply × Database
unfolding delete_destinations
remove_destination uid id dest_id db = with_user uid (λ tx.
    let matches = is_visible_destination tx id dest_id db.routes in
    if any matches db.route_destinations
    then (done, delete_destinations matches db)
    else (not_found, db))
