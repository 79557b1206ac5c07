-- ===== src/Feeds/Own.antt =====
-- web/src/app/api/feeds: what a request leaves of the feeds of other users.
use simple_rss_notifications.Base.{
  ℕ, ◌≡◌, refl, Bool, true, false, Option, none, some, List, [], ◌∷◌, ◌++◌, ◌==◌, select, update,
  delete, arith, get_or,
}
use simple_rss_notifications.Db.{Database, Feed}
use simple_rss_notifications.Db.Access.{web_role}
use simple_rss_notifications.Db.Cascade.{delete_feeds}
use simple_rss_notifications.Feeds.{
  FeedEnv, FeedBody, FeedPatch, create_feed, create_accepted, patch_feed, remove_feed,
  regenerate_token, new_webhook, new_rss, is_visible_feed, is_visible_webhook, patched_feed,
}

abbrev pub is_of : ℕ → Feed → Bool
is_of uid f = f.user_id == uid

module _ (uid v : ℕ) (other : (uid == v) ≡ false) where
  update_others :
      (p : Feed → Bool) (g : Feed → Feed) (fs : List Feed)
      → ((f : Feed) → p f ≡ true → f.user_id ≡ uid)
      → ((f : Feed) → (g f).user_id ≡ f.user_id)
      → select (is_of v) (update p g fs) ≡ select (is_of v) fs
  unfolding select update
  update_others p g [] own same = refl
  update_others p g (f ∷ fs) own same = ground (arith, own f, same f, update_others p g fs own same)

  delete_others :
      (p : Feed → Bool) (fs : List Feed)
      → ((f : Feed) → p f ≡ true → f.user_id ≡ uid)
      → select (is_of v) (delete p fs) ≡ select (is_of v) fs
  unfolding select delete
  delete_others p [] own = refl
  delete_others p (f ∷ fs) own = ground (arith, own f, delete_others p fs own)

  add_others :
      (f : Feed) (fs : List Feed)
      → f.user_id ≡ uid
      → select (is_of v) (fs ++ f ∷ []) ≡ select (is_of v) fs
  unfolding select
  add_others f [] own = ground arith
  add_others f (g ∷ fs) own = ground (arith, add_others f fs own)

  abbrev Leaves : Database → Database → Type 0
  Leaves db db' = select (is_of v) db'.feeds ≡ select (is_of v) db.feeds

  pub create_feed-others :
      (env : FeedEnv) (b : Option FeedBody) (db : Database) → Leaves db (create_feed env uid b db).1
  unfolding create_feed create_accepted
  create_feed-others env none db = refl
  create_feed-others env (some b) db = ground (
    arith,
    add_others (new_webhook env uid b) db.feeds refl,
    add_others (new_rss env uid (get_or b.url []) b) db.feeds refl,
  )

  pub patch_feed-others :
      (env : FeedEnv) (id : ℕ) (p : Option FeedPatch) (db : Database)
      → Leaves db (patch_feed env uid id p db).1
  unfolding patch_feed
  patch_feed-others env id none db = refl
  patch_feed-others env id (some p) db = ground (
    arith,
    update_others (is_visible_feed (web_role uid) id) (patched_feed p) db.feeds
        (λ f e. ground arith) (λ f. refl),
  )

  pub remove_feed-others : (id : ℕ) (db : Database) → Leaves db (remove_feed uid id db).1
  unfolding remove_feed delete_feeds
  remove_feed-others id db =
      ground
        (arith, delete_others (is_visible_feed (web_role uid) id) db.feeds (λ f e. ground arith))

  pub regenerate_token-others :
      (env : FeedEnv) (id : ℕ) (db : Database) → Leaves db (regenerate_token env uid id db).1
  unfolding regenerate_token
  regenerate_token-others env id db =
      let rekeyed = λ (f : Feed). record f { token_hash = some env.token_hash } in
      ground (
        arith,
        update_others (is_visible_webhook (web_role uid) id) rekeyed db.feeds (λ f e. ground arith)
            (λ f. refl),
      )
