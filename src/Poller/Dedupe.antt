-- ===== src/Poller/Dedupe.antt =====
-- web/src/worker/rssPoller.ts: items that a feed still has when it is polled again.
use simple_rss_notifications.Base.{
  ℕ, ◌≡◌, refl, ◌∙◌, ap, Bool, true, false, Option, List, [], ◌∷◌, ◌++◌, Text, if◌then◌else◌, any,
  any-append, take-of_le, select, order_by, All, arith, Bool-cases, inl, inr, ==_refl,
}
use simple_rss_notifications.Base.Strings.{text_eq_refl}
use simple_rss_notifications.Db.{
  Database, Feed, FeedItem, BackfillMode, backfill_none, backfill_count, backfill_days,
  backfill_done,
}
use simple_rss_notifications.Poller.Persist.{
  ParsedItem, Draw, is_item, item_row, insert_items, select_backfill_items, fan_out, persist,
  is_first_poll, published_key,
}

module _ (draw : Draw) (feed_id : ℕ) where
  any-insert_items :
      (q : FeedItem → Bool) (its : List ParsedItem) (table : List FeedItem)
      → any q table ≡ true
      → any q (insert_items draw feed_id its table).1 ≡ true
  unfolding insert_items
  any-insert_items q [] table h = h
  any-insert_items q (it ∷ its) table h = elim (Bool-cases (any (is_item feed_id it.guid) table)) [
    | inl seen ↦ rw seen (any-insert_items q its table h)
    | inr fresh ↦ rw fresh (
        any-insert_items q its (table ++ item_row draw feed_id it ∷ [])
          (rw (any-append q table (item_row draw feed_id it ∷ []), h) refl))
  ]

  abbrev is_present : List FeedItem → ParsedItem → Bool
  is_present table it = any (is_item feed_id it.guid) table

  insert_items-present :
      (its : List ParsedItem) (table table' : List FeedItem)
      → (insert_items draw feed_id its table).1 ≡ table'
      → All (λ it. is_present table' it ≡ true) its
  unfolding insert_items
  insert_items-present [] table table' e = tt
  insert_items-present (it ∷ its) table table' e =
      elim (Bool-cases (any (is_item feed_id it.guid) table)) [
        | inl seen ↦
            let rest : (insert_items draw feed_id its table).1 ≡ table' = ground (arith, e, seen) in
            (
              rw (← rest) (any-insert_items (is_item feed_id it.guid) its table seen),
              insert_items-present its table table' rest,
            )
        | inr fresh ↦
            let grown = table ++ item_row draw feed_id it ∷ [] in
            let rest : (insert_items draw feed_id its grown).1 ≡ table' =
              ground (arith, e, fresh) in
            (
              rw (← rest) (any-insert_items (is_item feed_id it.guid) its grown (added it table)),
              insert_items-present its grown table' rest,
            )
      ]
    where
      added :
          (it : ParsedItem) (table : List FeedItem)
          → any (is_item feed_id it.guid) (table ++ item_row draw feed_id it ∷ []) ≡ true
      added it table =
          any-append (is_item feed_id it.guid) table (item_row draw feed_id it ∷ [])
          ∙ rw (==_refl feed_id, text_eq_refl it.guid) (ground arith)

  insert_items-seen :
      (its : List ParsedItem) (table : List FeedItem)
      → All (λ it. is_present table it ≡ true) its
      → insert_items draw feed_id its table ≡ ([], table)
  unfolding insert_items
  insert_items-seen [] table h = refl
  insert_items-seen (it ∷ its) table h = rw h.0 (insert_items-seen its table h.1)

select_backfill_items-nil : (now : ℕ) (feed : Feed) → select_backfill_items now feed [] ≡ []
unfolding select_backfill_items order_by select
select_backfill_items-nil now feed = modes feed.backfill_mode refl
  where
    modes : (m : BackfillMode) → feed.backfill_mode ≡ m → select_backfill_items now feed [] ≡ []
    modes backfill_none e = rw (e, select_backfill_items) refl
    modes backfill_count e =
        rw (e, select_backfill_items) (take-of_le feed.backfill_value [] (omega arith))
    modes backfill_days e = rw (e, select_backfill_items) refl
    modes backfill_done e = rw (e, select_backfill_items) refl

nothing_chosen :
    (now : ℕ) (feed : Feed) (new_items : List FeedItem)
    → new_items ≡ []
    → order_by published_key
        (if is_first_poll feed then select_backfill_items now feed new_items else new_items)
      ≡ []
unfolding order_by
nothing_chosen now feed new_items e =
    rw (e, select_backfill_items-nil now feed) (by_test (is_first_poll feed))
  where
    by_test : (b : Bool) → order_by published_key (if b then [] else []) ≡ []
    by_test true = refl
    by_test false = refl

-- Polling a feed that still has the items of the last poll stores no item again and adds no
-- dispatch, whatever the backfill settings, the instant and the uuids drawn are then.
pub persist-again :
    (now now' : ℕ) (draw draw' : Draw) (feed feed' : Feed) (items : List ParsedItem)
    (etag etag' last_modified last_modified' : Option Text) (db : Database)
    → feed'.id ≡ feed.id
    → ((persist now' draw' feed' items etag' last_modified'
          (persist now draw feed items etag last_modified db)).feed_items
        ≡ (persist now draw feed items etag last_modified db).feed_items)
      × ((persist now' draw' feed' items etag' last_modified'
            (persist now draw feed items etag last_modified db)).dispatches
          ≡ (persist now draw feed items etag last_modified db).dispatches)
unfolding persist
persist-again now now' draw draw' feed feed' items etag etag' last_modified last_modified' db same =
    let db' = persist now draw feed items etag last_modified db in
    let seen : insert_items draw' feed'.id items db'.feed_items ≡ ([], db'.feed_items) = rw same (
      insert_items-seen draw' feed.id items db'.feed_items
        (insert_items-present draw feed.id items db.feed_items db'.feed_items refl)) in
    let none_chosen =
      nothing_chosen now' feed' (insert_items draw' feed'.id items db'.feed_items).0
        (ap (λ r. r.0) seen) in
    (ap (λ r. r.1) seen, rw none_chosen (unfold fan_out in refl))
