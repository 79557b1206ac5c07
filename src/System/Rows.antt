-- ===== src/System/Rows.antt =====
-- web/src/app/api/feeds and web/src/app/api/routes: the foreign keys after the writes of a request.
use simple_rss_notifications.Base.{
  ℕ, ◌≡◌, refl, ◌∙◌, suc, Bool, true, List, [], ◌∷◌, ◌++◌, ◌==◌, ==_refl, All, All-imp, All-append,
  All-update, any, any-append, arith, update,
}
use simple_rss_notifications.Db.{Database, Feed, FeedItem, Route, RouteDestination, Dispatch}
use simple_rss_notifications.Db.Access.{web_role}
use simple_rss_notifications.Db.Consistent.{
  DispatchIsKeyed, FeedIsKeyed, RouteIsKeyed, has_user, DestinationIsKeyed, IsConsistent, has_feed,
  has_route, has_destination, any-update, any-left,
}
use simple_rss_notifications.Feeds.{add_feed, is_visible_feed}
use simple_rss_notifications.Feeds.Routes.{
  DestinationInput, add_route, new_destinations, is_visible_route,
}

pub add_feed-IsConsistent :
    (f : Feed) (db : Database)
    → has_user f.user_id db.users ≡ true
    → IsConsistent db
    → IsConsistent (add_feed f db)
add_feed-IsConsistent f db owned h = record {
  feeds = All-append (FeedIsKeyed db.users) db.feeds (f ∷ []) h.feeds (owned, tt);
  items =
      All-imp (λ (fi : FeedItem) k. any-left (λ (g : Feed). g.id == fi.feed_id) db.feeds (f ∷ []) k)
        db.feed_items h.items;
  routes =
      All-imp
        (λ (r : Route) (k : RouteIsKeyed db.users db.feeds r).
          (any-left (λ (g : Feed). g.id == r.feed_id) db.feeds (f ∷ []) k.0, k.1))
        db.routes h.routes;
  destinations = h.destinations;
  dispatches = h.dispatches;
}

pub with_destinations-IsConsistent :
    (rds : List RouteDestination) (db : Database)
    → All (DestinationIsKeyed db.routes) rds
    → IsConsistent db
    → IsConsistent (record db { route_destinations = db.route_destinations ++ rds })
with_destinations-IsConsistent rds db k h = record {
  feeds = h.feeds;
  items = h.items;
  routes = h.routes;
  destinations =
      All-append (DestinationIsKeyed db.routes) db.route_destinations rds h.destinations k;
  dispatches =
      All-imp
        (λ (d : Dispatch)
            (k' : DispatchIsKeyed db.users db.route_destinations db.routes db.feed_items d).
          (
            any-left (λ (rd : RouteDestination). rd.id == d.route_destination_id)
                db.route_destinations rds k'.0,
            k'.1,
            k'.2,
            k'.3,
          ))
        db.dispatches h.dispatches;
}

with_route-IsConsistent :
    (r : Route) (db : Database)
    → has_feed r.feed_id db.feeds ≡ true
    → has_user r.user_id db.users ≡ true
    → IsConsistent db
    → IsConsistent (record db { routes = db.routes ++ r ∷ [] })
with_route-IsConsistent r db here owned h = record {
  feeds = h.feeds;
  items = h.items;
  routes =
      All-append (RouteIsKeyed db.users db.feeds) db.routes (r ∷ []) h.routes ((here, owned), tt);
  destinations =
      All-imp
        (λ (rd : RouteDestination) k.
          any-left (λ (x : Route). x.id == rd.route_id) db.routes (r ∷ []) k)
        db.route_destinations h.destinations;
  dispatches =
      All-imp
        (λ (d : Dispatch)
            (k : DispatchIsKeyed db.users db.route_destinations db.routes db.feed_items d).
          (k.0, any-left (λ (x : Route). x.id == d.route_id) db.routes (r ∷ []) k.1, k.2, k.3))
        db.dispatches h.dispatches;
}

-- What is there for the user is there.
pub own_feed-there :
    (uid id : ℕ) (fs : List Feed)
    → any (is_visible_feed (web_role uid) id) fs ≡ true
    → has_feed id fs ≡ true
own_feed-there uid id [] h = h
own_feed-there uid id (f ∷ fs) h = ground (arith, own_feed-there uid id fs)

pub own_route-there :
    (uid id : ℕ) (rs : List Route)
    → any (is_visible_route (web_role uid) id) rs ≡ true
    → has_route id rs ≡ true
own_route-there uid id [] h = h
own_route-there uid id (r ∷ rs) h = ground (arith, own_route-there uid id rs)

new_destinations-keyed :
    (rs : List Route) (draw : ℕ → ℕ) (idx id : ℕ) (ds : List DestinationInput)
    → has_route id rs ≡ true
    → All (DestinationIsKeyed rs) (new_destinations draw idx id ds)
unfolding new_destinations
new_destinations-keyed rs draw idx id [] h = tt
new_destinations-keyed rs draw idx id (d ∷ ds) h =
    (h, new_destinations-keyed rs draw (suc idx) id ds h)

pub add_route-IsConsistent :
    (draw : ℕ → ℕ) (r : Route) (ds : List DestinationInput) (db : Database)
    → has_feed r.feed_id db.feeds ≡ true
    → has_user r.user_id db.users ≡ true
    → IsConsistent db
    → IsConsistent (add_route draw r ds db)
unfolding add_route
add_route-IsConsistent draw r ds db here owned h =
    with_destinations-IsConsistent (new_destinations draw 0 r.id ds)
      (record db { routes = db.routes ++ r ∷ [] })
      (new_destinations-keyed (db.routes ++ r ∷ []) draw 0 r.id ds
        (ground (arith, any-append (λ (x : Route). x.id == r.id) db.routes (r ∷ []), ==_refl r.id)))
      (with_route-IsConsistent r db here owned h)

pub update_routes-IsConsistent :
    (p : Route → Bool) (g : Route → Route) (db : Database)
    → ((r : Route) → (g r).id ≡ r.id)
    → ((r : Route) → (g r).feed_id ≡ r.feed_id)
    → ((r : Route) → (g r).user_id ≡ r.user_id)
    → IsConsistent db
    → IsConsistent (record db { routes = update p g db.routes })
update_routes-IsConsistent p g db same same' owned h = record {
  feeds = h.feeds;
  items = h.items;
  routes =
      All-update (RouteIsKeyed db.users db.feeds) p g db.routes (λ r e k. rw (same' r, owned r) k)
        h.routes;
  destinations =
      All-imp (λ (rd : RouteDestination) k. there rd.route_id ∙ k) db.route_destinations
        h.destinations;
  dispatches =
      All-imp
        (λ (d : Dispatch)
            (k : DispatchIsKeyed db.users db.route_destinations db.routes db.feed_items d).
          (k.0, there d.route_id ∙ k.1, k.2, k.3))
        db.dispatches h.dispatches;
}
  where
    there : (i : ℕ) → has_route i (update p g db.routes) ≡ has_route i db.routes
    there i = any-update (λ (r : Route). r.id == i) p g db.routes (λ r. rw (same r) refl)

pub update_destinations-IsConsistent :
    (p : RouteDestination → Bool) (g : RouteDestination → RouteDestination) (db : Database)
    → ((rd : RouteDestination) → (g rd).id ≡ rd.id)
    → ((rd : RouteDestination) → (g rd).route_id ≡ rd.route_id)
    → IsConsistent db
    → IsConsistent (record db { route_destinations = update p g db.route_destinations })
update_destinations-IsConsistent p g db same same' h = record {
  feeds = h.feeds;
  items = h.items;
  routes = h.routes;
  destinations =
      All-update (DestinationIsKeyed db.routes) p g db.route_destinations
        (λ rd e k. rw (same' rd) k) h.destinations;
  dispatches =
      All-imp
        (λ (d : Dispatch)
            (k : DispatchIsKeyed db.users db.route_destinations db.routes db.feed_items d).
          (there d.route_destination_id ∙ k.0, k.1, k.2, k.3))
        db.dispatches h.dispatches;
}
  where
    there :
        (i : ℕ)
        → has_destination i (update p g db.route_destinations)
          ≡ has_destination i db.route_destinations
    there i =
        any-update (λ (rd : RouteDestination). rd.id == i) p g db.route_destinations
          (λ rd. rw (same rd) refl)
