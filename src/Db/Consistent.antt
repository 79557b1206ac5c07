-- ===== src/Db/Consistent.antt =====
-- web/src/lib/db/schema/feeds.ts: the foreign keys of feeds, items, routes, destinations and
-- dispatches, as an invariant of the tables.
use simple_rss_notifications.Base.{
  ℕ, ◌≡◌, refl, Bool, true, false, some, List, [], ◌∷◌, ◌++◌, ◌==◌, any, any-append, find, All,
  ◌&&◌, ==_iff, subst, All-imp, arith, update, select, delete, Bool-cases, inl, inr,
}
use simple_rss_notifications.Db.{Database, User, Feed, FeedItem, Route, RouteDestination, Dispatch}

abbrev pub has_user : ℕ → List User → Bool
has_user i us = any (λ (u : User). u.id == i) us

abbrev pub has_feed : ℕ → List Feed → Bool
has_feed i fs = any (λ (f : Feed). f.id == i) fs

abbrev pub has_item : ℕ → List FeedItem → Bool
has_item i is = any (λ (fi : FeedItem). fi.id == i) is

abbrev pub has_route : ℕ → List Route → Bool
has_route i rs = any (λ (r : Route). r.id == i) rs

abbrev pub has_destination : ℕ → List RouteDestination → Bool
has_destination i rds = any (λ (rd : RouteDestination). rd.id == i) rds

-- The destination, the route, the item and the user of a dispatch are there.
abbrev pub DispatchIsKeyed :
    List User → List RouteDestination → List Route → List FeedItem → Dispatch → Type 0
DispatchIsKeyed us rds rs is d =
    (has_destination d.route_destination_id rds ≡ true)
    × (has_route d.route_id rs ≡ true)
    × (has_item d.feed_item_id is ≡ true)
    × (has_user d.user_id us ≡ true)

abbrev pub ItemIsKeyed : List Feed → FeedItem → Type 0
ItemIsKeyed fs fi = has_feed fi.feed_id fs ≡ true

abbrev pub FeedIsKeyed : List User → Feed → Type 0
FeedIsKeyed us f = has_user f.user_id us ≡ true

abbrev pub RouteIsKeyed : List User → List Feed → Route → Type 0
RouteIsKeyed us fs r = (has_feed r.feed_id fs ≡ true) × (has_user r.user_id us ≡ true)

abbrev pub DestinationIsKeyed : List Route → RouteDestination → Type 0
DestinationIsKeyed rs rd = has_route rd.route_id rs ≡ true

-- Every foreign key of these tables leads to a row.
pub record IsConsistent (db : Database) : Type 0 where
  pub feeds : All (FeedIsKeyed db.users) db.feeds
  pub items : All (ItemIsKeyed db.feeds) db.feed_items
  pub routes : All (RouteIsKeyed db.users db.feeds) db.routes
  pub destinations : All (DestinationIsKeyed db.routes) db.route_destinations
  pub dispatches :
      All (DispatchIsKeyed db.users db.route_destinations db.routes db.feed_items) db.dispatches

-- A row that is there is found.
pub find-any {ℓ} :
    {A : Type ℓ} (p : A → Bool) (xs : List A) → any p xs ≡ true → (x : A) × (find p xs ≡ some x)
find-any p [] h = absurd (ground arith)
find-any p (x ∷ xs) h = elim (Bool-cases (p x)) [
  | inl e ↦ (x, rw (e, find) refl)
  | inr e ↦ let (y, found) = find-any p xs (rw e at h) in (y, rw (e, find) found)
]

-- A test that does not see the columns that an UPDATE writes.
pub any-update {ℓ} :
    {A : Type ℓ} (q p : A → Bool) (f : A → A) (xs : List A)
    → ((x : A) → q (f x) ≡ q x)
    → any q (update p f xs) ≡ any q xs
unfolding update
any-update q p f [] h = refl
any-update q p f (x ∷ xs) h = ground (arith, h x, any-update q p f xs h)

-- A row that is not deleted stays.
pub any-delete {ℓ} :
    {A : Type ℓ} (q p : A → Bool) (xs : List A)
    → any q xs ≡ true
    → ((x : A) → q x ≡ true → p x ≡ false)
    → any q (delete p xs) ≡ true
unfolding delete select
any-delete q p [] h k = h
any-delete q p (x ∷ xs) h k = ground (arith, k x, any-delete q p xs)

pub any-left {ℓ} :
    {A : Type ℓ} (q : A → Bool) (xs ys : List A) → any q xs ≡ true → any q (xs ++ ys) ≡ true
any-left q xs ys h = ground (arith, any-append q xs ys)

pub All-any {ℓ} :
    {A : Type ℓ} (q : A → Bool) (xs : List A) → any q xs ≡ false → All (λ x. q x ≡ false) xs
All-any q [] h = tt
All-any q (x ∷ xs) h = ground (arith, All-any q xs)

-- Each row is in its own table.
pub All-any_self {ℓ} :
    {A : Type ℓ} (q : A → A → Bool) (xs : List A)
    → ((x : A) → q x x ≡ true)
    → All (λ x. any (q x) xs ≡ true) xs
All-any_self q [] h = tt
All-any_self q (x ∷ xs) h =
    (ground (arith, h x), All-imp (λ y e. ground arith) xs (All-any_self q xs h))

-- The feed is there, with its user.
abbrev pub has_row : Feed → List Feed → Bool
has_row f fs = any (λ (g : Feed). g.id == f.id && g.user_id == f.user_id) fs

pub has_row-has_feed : (f : Feed) (fs : List Feed) → has_row f fs ≡ true → has_feed f.id fs ≡ true
has_row-has_feed f [] h = h
has_row-has_feed f (g ∷ fs) h = ground (arith, has_row-has_feed f fs)

pub has_row-has_user :
    (us : List User) (f : Feed) (fs : List Feed)
    → All (FeedIsKeyed us) fs
    → has_row f fs ≡ true
    → has_user f.user_id us ≡ true
has_row-has_user us f [] k h = absurd (ground arith)
has_row-has_user us f (g ∷ fs) k h = elim (Bool-cases (g.user_id == f.user_id)) [
  | inl e ↦ subst (λ i. has_user i us ≡ true) ((==_iff g.user_id f.user_id).0 e) k.0
  | inr e ↦ has_row-has_user us f fs k.1 (ground arith)
]

pub any-of_find {ℓ} :
    {A : Type ℓ} (p : A → Bool) (xs : List A) (y : A) → find p xs ≡ some y → any p xs ≡ true
any-of_find p [] y h = absurd (ground arith)
any-of_find p (x ∷ xs) y h = elim (Bool-cases (p x)) [
  | inl e ↦ rw e refl
  | inr e ↦ rw e (any-of_find p xs y (rw (e, find) at h))
]
