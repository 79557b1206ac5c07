-- ===== src/System/Requests.antt =====
-- web/src/app/api/feeds and web/src/app/api/routes: the requests of a user as one type.
use simple_rss_notifications.Base.{
  ℕ, ◌≡◌, true, refl, Bool, Option, none, some, List, [], ◌∷◌, arith, get_or,
}
use simple_rss_notifications.Db.{Database, Feed, Route}
use simple_rss_notifications.Db.Access.{web_role}
use simple_rss_notifications.Db.Consistent.{IsConsistent, has_user}
use simple_rss_notifications.Feeds.{
  FeedEnv, FeedBody, FeedPatch, create_feed, patch_feed, remove_feed, regenerate_token,
  is_visible_feed, patched_feed, new_webhook, new_rss, is_visible_webhook,
}
use simple_rss_notifications.Feeds.Routes.{
  RouteBody, DestinationInput, DestinationPatch, post_route, change_route, remove_route,
  add_destination, patch_destination, remove_destination, new_destination, insert_route,
  insert_destination, is_visible_route, is_visible_destination, patched_destination,
}
use simple_rss_notifications.System.Polls.{with_feeds-IsConsistent}
use simple_rss_notifications.System.Rows.{
  add_feed-IsConsistent, with_destinations-IsConsistent, own_feed-there, own_route-there,
  add_route-IsConsistent, update_routes-IsConsistent, update_destinations-IsConsistent,
}
use simple_rss_notifications.System.Deletions.{
  delete_feeds-IsConsistent, delete_routes-IsConsistent, destinations-IsConsistent,
}

pub data UserRequest : Type 0 where
  feed_post : FeedEnv → Option FeedBody → UserRequest
  feed_patch : FeedEnv → (id : ℕ) → Option FeedPatch → UserRequest
  feed_delete token_post : FeedEnv → (id : ℕ) → UserRequest
  route_post : (id : ℕ) (draw : ℕ → ℕ) → Option RouteBody → UserRequest
  route_patch : (id : ℕ) → Option (Option Bool) → UserRequest
  route_delete : (id : ℕ) → UserRequest
  destination_post : (dest_id id : ℕ) → Option DestinationInput → UserRequest
  destination_patch : (id dest_id : ℕ) → Option DestinationPatch → UserRequest
  destination_delete : (id dest_id : ℕ) → UserRequest

-- The database after a request of a user.
unfoldable pub perform : ℕ → UserRequest → Database → Database
unfolding create_feed patch_feed remove_feed regenerate_token post_route change_route remove_route
    add_destination patch_destination remove_destination
perform uid (feed_post env b) db = (create_feed env uid b db).1
perform uid (feed_patch env id p) db = (patch_feed env uid id p db).1
perform uid (feed_delete env id) db = (remove_feed uid id db).1
perform uid (token_post env id) db = (regenerate_token env uid id db).1
perform uid (route_post id draw b) db = (post_route id draw uid b db).1
perform uid (route_patch id e) db = (change_route uid id e db).1
perform uid (route_delete id) db = (remove_route uid id db).1
perform uid (destination_post dest_id id d) db = (add_destination dest_id uid id d db).1
perform uid (destination_patch id dest_id p) db = (patch_destination uid id dest_id p db).1
perform uid (destination_delete id dest_id) db = (remove_destination uid id dest_id db).1

insert_route-IsConsistent :
    (uid : ℕ) (draw : ℕ → ℕ) (r : Route) (ds : List DestinationInput) (db : Database)
    → has_user r.user_id db.users ≡ true
    → IsConsistent db
    → IsConsistent (insert_route draw r ds db (web_role uid)).1
unfolding insert_route
insert_route-IsConsistent uid draw r ds db owned h =
    ground (arith, own_feed-there uid r.feed_id db.feeds, add_route-IsConsistent draw r ds db)

insert_destination-IsConsistent :
    (uid dest_id id : ℕ) (d : DestinationInput) (db : Database)
    → IsConsistent db
    → IsConsistent (insert_destination dest_id id d db (web_role uid)).1
unfolding insert_destination
insert_destination-IsConsistent uid dest_id id d db h = ground (
  arith,
  own_route-there uid id db.routes,
  with_destinations-IsConsistent (new_destination dest_id id d ∷ []) db,
)

pub perform-IsConsistent :
    (uid : ℕ) (r : UserRequest) (db : Database)
    → has_user uid db.users ≡ true
    → IsConsistent db
    → IsConsistent (perform uid r db)
unfolding perform
perform-IsConsistent uid (feed_post env none) db owned h = h
perform-IsConsistent uid (feed_post env (some b)) db owned h = ground (
  arith,
  add_feed-IsConsistent (new_webhook env uid b) db owned h,
  add_feed-IsConsistent (new_rss env uid (get_or b.url []) b) db owned h,
)
perform-IsConsistent uid (feed_patch env id none) db owned h = h
perform-IsConsistent uid (feed_patch env id (some p)) db owned h = ground (
  arith,
  with_feeds-IsConsistent db (is_visible_feed (web_role uid) id) (patched_feed p) (λ f. refl)
      (λ f. refl) h,
)
perform-IsConsistent uid (feed_delete env id) db owned h =
    ground (arith, delete_feeds-IsConsistent (is_visible_feed (web_role uid) id) db h)
perform-IsConsistent uid (token_post env id) db owned h =
    let rekeyed = λ (f : Feed). record f { token_hash = some env.token_hash } in
    ground (
      arith,
      with_feeds-IsConsistent db (is_visible_webhook (web_role uid) id) rekeyed (λ f. refl)
          (λ f. refl) h,
    )
perform-IsConsistent uid (route_post id draw none) db owned h = h
perform-IsConsistent uid (route_post id draw (some b)) db owned h =
    let row : Route = record { id = id; user_id = uid; feed_id = b.feed_id; enabled = b.enabled } in
    ground (arith, insert_route-IsConsistent uid draw row b.destinations db owned h)
perform-IsConsistent uid (route_patch id none) db owned h = h
perform-IsConsistent uid (route_patch id (some e)) db owned h =
    let patched = λ (r : Route). record r { enabled = get_or e r.enabled } in
    ground (
      arith,
      update_routes-IsConsistent (is_visible_route (web_role uid) id) patched db (λ r. refl)
          (λ r. refl) (λ r. refl) h,
    )
perform-IsConsistent uid (route_delete id) db owned h =
    ground (arith, delete_routes-IsConsistent (is_visible_route (web_role uid) id) db h)
perform-IsConsistent uid (destination_post dest_id id none) db owned h = h
perform-IsConsistent uid (destination_post dest_id id (some d)) db owned h =
    ground (arith, insert_destination-IsConsistent uid dest_id id d db h)
perform-IsConsistent uid (destination_patch id dest_id none) db owned h = h
perform-IsConsistent uid (destination_patch id dest_id (some p)) db owned h = ground (
  arith,
  update_destinations-IsConsistent (is_visible_destination (web_role uid) id dest_id db.routes)
      (patched_destination p) db (λ rd. refl) (λ rd. refl) h,
)
perform-IsConsistent uid (destination_delete id dest_id) db owned h = ground (
  arith,
  destinations-IsConsistent (is_visible_destination (web_role uid) id dest_id db.routes) db h,
)
