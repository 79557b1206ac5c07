-- ===== src/System/Deletions.antt =====
-- web/src/lib/db/schema, `ON DELETE CASCADE`: the foreign keys after deletions.
use simple_rss_notifications.Base.{
  ℕ, ◌≡◌, Bool, true, false, List, [], ◌∷◌, ◌==◌, All, any, arith, select, delete,
}
use simple_rss_notifications.Db.{Database, User, Feed, FeedItem, Route, RouteDestination, Dispatch}
use simple_rss_notifications.Db.Cascade.{
  delete_destinations, delete_routes, delete_feeds, delete_user,
}
use simple_rss_notifications.Db.Consistent.{
  DispatchIsKeyed, FeedIsKeyed, has_user, any-delete, ItemIsKeyed, RouteIsKeyed, DestinationIsKeyed,
  IsConsistent,
}

-- A row that is there and not among the deleted ones is there after the deletion.
any-kept {ℓ} :
    {A : Type ℓ} (q p : A → Bool) (xs : List A)
    → any q xs ≡ true
    → any q (select p xs) ≡ false
    → any q (delete p xs) ≡ true
unfolding select delete
any-kept q p [] h k = h
any-kept q p (x ∷ xs) h k = ground (arith, any-kept q p xs)

All-delete {ℓ κ μ} :
    {A : Type ℓ} {P : A → Type κ} (Q : A → Type μ) (gone : A → Bool) (xs : List A)
    → ((x : A) → P x → gone x ≡ false → Q x)
    → All P xs
    → All Q (delete gone xs)
unfolding select delete
All-delete Q gone [] step h = tt
All-delete Q gone (x ∷ xs) step h = ground (arith, step x h.0, All-delete Q gone xs step h.1)

pub destinations-IsConsistent :
    (p : RouteDestination → Bool) (db : Database)
    → IsConsistent db
    → IsConsistent (delete_destinations p db)
unfolding delete_destinations
destinations-IsConsistent p db h = record {
  feeds = h.feeds;
  items = h.items;
  routes = h.routes;
  destinations =
      All-delete (DestinationIsKeyed db.routes) p db.route_destinations (λ rd k e. k)
        h.destinations;
  dispatches =
      All-delete (DispatchIsKeyed db.users (delete p db.route_destinations) db.routes db.feed_items)
        (λ d.
          any (λ (r : RouteDestination). r.id == d.route_destination_id)
            (select p db.route_destinations))
        db.dispatches
        (λ d k e. (
          any-kept (λ (r : RouteDestination). r.id == d.route_destination_id) p
              db.route_destinations k.0 e,
          k.1,
          k.2,
          k.3,
        ))
        h.dispatches;
}

pub delete_routes-IsConsistent :
    (p : Route → Bool) (db : Database) → IsConsistent db → IsConsistent (delete_routes p db)
unfolding delete_routes
delete_routes-IsConsistent p db h =
    let gone = select p db.routes in
    let of_gone = λ (rd : RouteDestination). any (λ (r : Route). r.id == rd.route_id) gone in
    let db' = delete_destinations of_gone db in
    let h' = destinations-IsConsistent of_gone db h in
    record {
      feeds = h.feeds;
      items = h.items;
      routes = All-delete (RouteIsKeyed db.users db.feeds) p db.routes (λ r k e. k) h.routes;
      destinations =
          unfold delete_destinations in
          All-delete (DestinationIsKeyed (delete p db.routes)) of_gone db.route_destinations
            (λ rd k e. any-kept (λ (r : Route). r.id == rd.route_id) p db.routes k e)
            h.destinations;
      dispatches =
          All-delete
            (DispatchIsKeyed db.users db'.route_destinations (delete p db.routes) db.feed_items)
            (λ d. any (λ (r : Route). r.id == d.route_id) gone) db'.dispatches
            (λ d k e.
              (k.0, any-kept (λ (r : Route). r.id == d.route_id) p db.routes k.1 e, k.2, k.3))
            h'.dispatches;
    }

pub delete_feeds-IsConsistent :
    (p : Feed → Bool) (db : Database) → IsConsistent db → IsConsistent (delete_feeds p db)
unfolding delete_feeds
delete_feeds-IsConsistent p db h =
    let gone = select p db.feeds in
    let of_gone = λ (fi : FeedItem). any (λ (f : Feed). f.id == fi.feed_id) gone in
    let routed = λ (r : Route). any (λ (f : Feed). f.id == r.feed_id) gone in
    let db' = delete_routes routed db in
    let h' = delete_routes-IsConsistent routed db h in
    record {
      feeds = All-delete (FeedIsKeyed db.users) p db.feeds (λ f k e. k) h.feeds;
      items =
          All-delete (ItemIsKeyed (delete p db.feeds)) of_gone db.feed_items
            (λ fi k e. any-kept (λ (f : Feed). f.id == fi.feed_id) p db.feeds k e) h.items;
      routes =
          unfold delete_routes delete_destinations in
          All-delete (RouteIsKeyed db.users (delete p db.feeds)) routed db.routes
            (λ r k e. (any-kept (λ (f : Feed). f.id == r.feed_id) p db.feeds k.0 e, k.1)) h.routes;
      destinations = h'.destinations;
      dispatches =
          All-delete
            (DispatchIsKeyed db.users db'.route_destinations db'.routes
              (delete of_gone db.feed_items))
            (λ d. any (λ (fi : FeedItem). fi.id == d.feed_item_id) (select of_gone db.feed_items))
            db'.dispatches
            (λ d k e. (
              k.0,
              k.1,
              any-kept (λ (fi : FeedItem). fi.id == d.feed_item_id) of_gone db.feed_items k.2 e,
              k.3,
            ))
            h'.dispatches;
    }

-- A user who is not deleted is there after the deletion.
user-kept :
    (uid i : ℕ) (us : List User)
    → has_user i us ≡ true
    → (i == uid) ≡ false
    → has_user i (delete (λ (u : User). u.id == uid) us) ≡ true
user-kept uid i us h other =
    any-delete (λ (u : User). u.id == i) (λ (u : User). u.id == uid) us h (λ u e. ground arith)

pub delete_user-IsConsistent :
    (uid : ℕ) (db : Database) → IsConsistent db → IsConsistent (delete_user uid db)
unfolding delete_user
delete_user-IsConsistent uid db h =
    let us = delete (λ (u : User). u.id == uid) db.users in
    let no_feeds = delete_feeds (λ f. f.user_id == uid) db in
    let h0 = delete_feeds-IsConsistent (λ f. f.user_id == uid) db h in
    let db' = delete_routes (λ r. r.user_id == uid) no_feeds in
    let h' = delete_routes-IsConsistent (λ r. r.user_id == uid) no_feeds h0 in
    record {
      feeds =
          unfold delete_feeds delete_routes delete_destinations in
          All-delete (FeedIsKeyed us) (λ (f : Feed). f.user_id == uid) db.feeds
            (λ f k e. user-kept uid f.user_id db.users k e) h.feeds;
      items = h'.items;
      routes =
          unfold delete_feeds delete_routes delete_destinations in
          All-delete (RouteIsKeyed us no_feeds.feeds) (λ (r : Route). r.user_id == uid)
            no_feeds.routes (λ r k e. (k.0, user-kept uid r.user_id db.users k.1 e)) h0.routes;
      destinations = h'.destinations;
      dispatches =
          unfold delete_feeds delete_routes delete_destinations in
          All-delete (DispatchIsKeyed us db'.route_destinations db'.routes db'.feed_items)
            (λ (d : Dispatch). d.user_id == uid) db'.dispatches
            (λ d k e. (k.0, k.1, k.2, user-kept uid d.user_id db.users k.3 e)) h'.dispatches;
    }
