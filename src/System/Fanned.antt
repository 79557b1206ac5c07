-- ===== src/System/Fanned.antt =====
-- web/src/worker/rssPoller.ts and web/src/lib/hooks/ingest.ts: the keys of the rows that fanning an
-- item out adds.
use mathlib.Core.List.{reverse, reverse_aux}
use simple_rss_notifications.Base.{
  ℕ, ◌+◌, ◌*◌, ◌≡◌, true, ◌&&◌, List, [], ◌∷◌, ◌++◌, ◌==◌, ==_refl, All, All-append, All-select,
  All-zip, All-take, All-order_by, any, select, if_holds, order_by, take,
}
use simple_rss_notifications.Db.{
  User, Feed, FeedItem, Route, RouteDestination, Dispatch, backfill_none, backfill_count,
  backfill_days, backfill_done,
}
use simple_rss_notifications.Db.Consistent.{
  DispatchIsKeyed, DestinationIsKeyed, has_destination, has_route, has_item, has_user, All-any_self,
}
use simple_rss_notifications.Poller.Persist.{
  Draw, open_destinations, is_open_destination, new_dispatch, add_dispatch, fan_item, fan_out,
  is_dispatch, select_backfill_items, is_recent, published_key,
}

module _ (rds : List RouteDestination) (rs : List Route) where
  -- A destination that is there, of a route that is there.
  abbrev pub IsOpen : RouteDestination → Type 0
  IsOpen rd = (has_destination rd.id rds ≡ true) × (has_route rd.route_id rs ≡ true)

  all-IsOpen : All (DestinationIsKeyed rs) rds → All IsOpen rds
  all-IsOpen h =
      All-zip (λ x a b. (a, b)) rds
        (All-any_self (λ (x y : RouteDestination). y.id == x.id) rds (λ x. ==_refl x.id)) h

  pub open_destinations-IsOpen :
      (feed_id : ℕ) (rs' : List Route)
      → All (DestinationIsKeyed rs) rds
      → All IsOpen (open_destinations feed_id rds rs')
  unfolding open_destinations
  open_destinations-IsOpen feed_id [] h = tt
  open_destinations-IsOpen feed_id (r ∷ rs') h =
      if_holds (All IsOpen) (r.feed_id == feed_id && r.enabled)
        (select (is_open_destination r.id) rds ++ open_destinations feed_id rds rs')
        (open_destinations feed_id rds rs')
        (λ e.
          All-append IsOpen (select (is_open_destination r.id) rds)
            (open_destinations feed_id rds rs')
            (All-select IsOpen (is_open_destination r.id) rds (all-IsOpen h))
            (open_destinations-IsOpen feed_id rs' h))
        (λ e. open_destinations-IsOpen feed_id rs' h)

  module _ (us : List User) (is : List FeedItem) where
    abbrev Keyed : Dispatch → Type 0
    Keyed d = DispatchIsKeyed us rds rs is d

    add_dispatch-Keyed :
        (d : Dispatch) (ds : List Dispatch) → Keyed d → All Keyed ds → All Keyed (add_dispatch d ds)
    unfolding add_dispatch
    add_dispatch-Keyed d ds k h =
        if_holds (All Keyed) (any (is_dispatch d.route_destination_id d.feed_item_id) ds) ds
          (ds ++ d ∷ []) (λ e. h) (λ e. All-append Keyed ds (d ∷ []) h (k, tt))

    pub fan_item-Keyed :
        (now : ℕ) (draw : Draw) (user_id offset_sec : ℕ) (item : FeedItem)
        (dests : List RouteDestination) (ds : List Dispatch)
        → has_user user_id us ≡ true
        → has_item item.id is ≡ true
        → All IsOpen dests
        → All Keyed ds
        → All Keyed (fan_item now draw user_id offset_sec item dests ds)
    unfolding fan_item
    fan_item-Keyed now draw user_id offset_sec item [] ds hu hi ho h = h
    fan_item-Keyed now draw user_id offset_sec item (rd ∷ dests) ds hu hi ho h =
        fan_item-Keyed now draw user_id offset_sec item dests
          (add_dispatch (new_dispatch now draw user_id offset_sec rd item) ds) hu hi ho.1
          (add_dispatch-Keyed (new_dispatch now draw user_id offset_sec rd item) ds
            (ho.0.0, ho.0.1, hi, hu) h)

    pub fan_out-Keyed :
        (now : ℕ) (draw : Draw) (user_id pace idx : ℕ) (items : List FeedItem)
        (dests : List RouteDestination) (ds : List Dispatch)
        → has_user user_id us ≡ true
        → All (λ (i : FeedItem). has_item i.id is ≡ true) items
        → All IsOpen dests
        → All Keyed ds
        → All Keyed (fan_out now draw user_id pace idx items dests ds)
    unfolding fan_out
    fan_out-Keyed now draw user_id pace idx [] dests ds hu hi ho h = h
    fan_out-Keyed now draw user_id pace idx (i ∷ items) dests ds hu hi ho h =
        fan_out-Keyed now draw user_id pace (idx + 1) items dests
          (fan_item now draw user_id (pace * idx) i dests ds) hu hi.1 ho
          (fan_item-Keyed now draw user_id (pace * idx) i dests ds hu hi.0 ho h)

-- What is chosen from the new items is among them.
module _ {κ} (P : FeedItem → Type κ) where
  All-reverse_aux : (xs ys : List FeedItem) → All P xs → All P ys → All P (reverse_aux xs ys)
  All-reverse_aux [] ys h k = k
  All-reverse_aux (x ∷ xs) ys h k = All-reverse_aux xs (x ∷ ys) h.1 (h.0, k)

  All-reverse : (xs : List FeedItem) → All P xs → All P (reverse xs)
  All-reverse xs h = All-reverse_aux xs [] h tt

  pub All-select_backfill_items :
      (now : ℕ) (feed : Feed) (items : List FeedItem)
      → All P items
      → All P (select_backfill_items now feed items)
  unfolding select_backfill_items
  All-select_backfill_items now feed items h =
      elim feed.backfill_mode
        as (λ m. All P (elim m [
          | backfill_none ↦ []
          | backfill_count ↦
              take feed.backfill_value (reverse (order_by published_key (reverse items)))
          | backfill_days ↦ select (is_recent now feed.backfill_value) items
          | backfill_done ↦ items
        ])) [
          | backfill_none ↦ tt
          | backfill_count ↦
              All-take P feed.backfill_value (reverse (order_by published_key (reverse items))) (
                All-reverse (order_by published_key (reverse items))
                  (All-order_by P published_key (reverse items) (All-reverse items h)))
          | backfill_days ↦ All-select P (is_recent now feed.backfill_value) items h
          | backfill_done ↦ h
        ]
