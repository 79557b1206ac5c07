-- ===== src/Users/Admins.antt =====
-- web/src/app/api/users: the ids and the admins of a user table under an update and a delete.
pub mod Routes
pub mod Spelling
use simple_rss_notifications.Base.{
  ℕ, zero, suc, ◌+◌, ◌≤◌, ◌<◌, ◌≡◌, ◌≢◌, ◌⊎◌, inl, inr, refl, Bool, true, false, not, ◌&&◌, ◌||◌,
  Option, none, some, List, [], ◌∷◌, ◌++◌, Text, ltb, leb, ◌==◌, if◌then◌else◌, any, length, select,
  update, delete, arith, Bool-cases, Option-cases, ==_iff,
}
use simple_rss_notifications.Db.{Database, User}
use simple_rss_notifications.Db.Cascade.{delete_user}
use simple_rss_notifications.Auth.{Session, AdminGate, admitted, refused, require_admin, user_of}
use simple_rss_notifications.RateLimit.{Bucket}
use simple_rss_notifications.Users.{
  Patch, PathId, has_text_id, patched_user, is_admin_row, has_id, is_last_admin, patch_user,
  remove_user, demotes, patch_route, delete_route,
}

-- No two users share an id.
abbrev pub HasUniqueIds : List User → Type 0
HasUniqueIds [] = Unit
HasUniqueIds (u ∷ us) = (any (has_id u.id) us ≡ false) × HasUniqueIds us

abbrev pub HasAdmin : List User → Type 0
HasAdmin us = any is_admin_row us ≡ true

admin_count : List User → ℕ
admin_count us = length (select is_admin_row us)

HasAdmin-of_count : (us : List User) → 1 ≤ admin_count us → HasAdmin us
unfolding admin_count select
HasAdmin-of_count [] h = absurd (omega arith)
HasAdmin-of_count (u ∷ us) h = ground (arith, HasAdmin-of_count us)

count-of_HasAdmin : (us : List User) → HasAdmin us → 1 ≤ admin_count us
unfolding admin_count select
count-of_HasAdmin [] h = cc
count-of_HasAdmin (u ∷ us) h = ground (arith, count-of_HasAdmin us)

-- Without a row of the id, deleting or changing by it does nothing.
delete-absent : (id : ℕ) (us : List User) → any (has_id id) us ≡ false → delete (has_id id) us ≡ us
unfolding delete select
delete-absent id [] h = refl
delete-absent id (u ∷ us) h = ground (arith, delete-absent id us)

update-absent :
    (id : ℕ) (f : User → User) (us : List User)
    → any (has_id id) us ≡ false
    → update (has_id id) f us ≡ us
unfolding update
update-absent id f [] h = refl
update-absent id f (u ∷ us) h = ground (arith, update-absent id f us)

absent_of_same :
    (id : ℕ) (u : User) (us : List User)
    → (u.id == id) ≡ true
    → any (has_id u.id) us ≡ false
    → any (has_id id) us ≡ false
absent_of_same id u us e h = let same = (==_iff u.id id).0 e in rw (← same) h

-- Deleting or changing one row loses one admin at most.
count-delete :
    (id : ℕ) (us : List User)
    → HasUniqueIds us
    → admin_count us ≤ admin_count (delete (has_id id) us) + 1
unfolding admin_count delete select
count-delete id [] h = omega arith
count-delete id (u ∷ us) h = elim (Bool-cases (u.id == id)) [
  | inl e ↦ ground (arith, delete-absent id us (absent_of_same id u us e h.0))
  | inr e ↦ ground (arith, count-delete id us h.1)
]

count-update :
    (id : ℕ) (f : User → User) (us : List User)
    → HasUniqueIds us
    → admin_count us ≤ admin_count (update (has_id id) f us) + 1
unfolding admin_count update select
count-update id f [] h = omega arith
count-update id f (u ∷ us) h = elim (Bool-cases (u.id == id)) [
  | inl e ↦ ground (arith, update-absent id f us (absent_of_same id u us e h.0))
  | inr e ↦ ground (arith, count-update id f us h.1)
]

-- If no admin has the id, none is lost.
count-delete_other :
    (id : ℕ) (us : List User)
    → any (has_id id) (select is_admin_row us) ≡ false
    → admin_count us ≤ admin_count (delete (has_id id) us)
unfolding admin_count delete select
count-delete_other id [] h = omega arith
count-delete_other id (u ∷ us) h = ground (arith, count-delete_other id us)

count-update_other :
    (id : ℕ) (f : User → User) (us : List User)
    → any (has_id id) (select is_admin_row us) ≡ false
    → admin_count us ≤ admin_count (update (has_id id) f us)
unfolding admin_count update select
count-update_other id f [] h = omega arith
count-update_other id f (u ∷ us) h = ground (arith, count-update_other id f us)

-- A change that demotes nobody keeps every admin.
count-update_keeping :
    (id : ℕ) (f : User → User) (us : List User)
    → ((u : User) → u.is_admin ≡ true → (f u).is_admin ≡ true)
    → admin_count us ≤ admin_count (update (has_id id) f us)
unfolding admin_count update select
count-update_keeping id f [] h = omega arith
count-update_keeping id f (u ∷ us) h = ground (arith, h u, count-update_keeping id f us h)

any-delete_absent :
    (k id : ℕ) (us : List User)
    → any (has_id k) us ≡ false
    → any (has_id k) (delete (has_id id) us) ≡ false
unfolding delete select
any-delete_absent k id [] h = refl
any-delete_absent k id (u ∷ us) h = ground (arith, any-delete_absent k id us)

any-update_absent :
    (k id : ℕ) (f : User → User) (us : List User)
    → ((u : User) → (f u).id ≡ u.id)
    → any (has_id k) us ≡ false
    → any (has_id k) (update (has_id id) f us) ≡ false
unfolding update
any-update_absent k id f [] same h = refl
any-update_absent k id f (u ∷ us) same h = ground (arith, same u, any-update_absent k id f us same)

pub update-HasUniqueIds :
    (id : ℕ) (f : User → User) (us : List User)
    → ((u : User) → (f u).id ≡ u.id)
    → HasUniqueIds us
    → HasUniqueIds (update (has_id id) f us)
unfolding update
update-HasUniqueIds id f [] same h = tt
update-HasUniqueIds id f (u ∷ us) same h =
    ground
      (arith, same u, update-HasUniqueIds id f us same h.1, any-update_absent u.id id f us same)

delete-HasUniqueIds :
    (id : ℕ) (us : List User) → HasUniqueIds us → HasUniqueIds (delete (has_id id) us)
unfolding delete select
delete-HasUniqueIds id [] h = tt
delete-HasUniqueIds id (u ∷ us) h =
    ground (arith, delete-HasUniqueIds id us h.1, any-delete_absent u.id id us)

any-has_text_id :
    (id : PathId) (us : List User)
    → id.is_canonical ≡ true
    → any (has_text_id id) us ≡ any (has_id id.uuid) us
any-has_text_id id [] canon = refl
any-has_text_id id (u ∷ us) canon = ground (arith, any-has_text_id id us canon)

-- The guard of both routes keeps an admin: `is_last_admin` is false, so there are two admins, or
-- the row is none.
guard_cases :
    (id : PathId) (us : List User)
    → id.is_canonical ≡ true
    → is_last_admin id us ≡ false
    → (2 ≤ admin_count us) ⊎ (any (has_id id.uuid) (select is_admin_row us) ≡ false)
unfolding is_last_admin admin_count
guard_cases id us canon ok = ground (arith, any-has_text_id id (select is_admin_row us) canon)

pub delete-HasAdmin :
    (id : PathId) (us : List User)
    → id.is_canonical ≡ true
    → HasUniqueIds us
    → HasAdmin us
    → is_last_admin id us ≡ false
    → HasAdmin (delete (has_id id.uuid) us)
delete-HasAdmin id us canon uniq adm ok = elim (guard_cases id us canon ok) [
  | inl two ↦
      HasAdmin-of_count (delete (has_id id.uuid) us) (omega (arith, count-delete id.uuid us uniq))
  | inr other ↦
      HasAdmin-of_count (delete (has_id id.uuid) us)
        (omega (arith, count-delete_other id.uuid us other, count-of_HasAdmin us adm))
]

pub update-HasAdmin :
    (id : PathId) (f : User → User) (us : List User)
    → HasUniqueIds us
    → HasAdmin us
    → (((id.is_canonical ≡ true) × (is_last_admin id us ≡ false))
        ⊎ ((u : User) → u.is_admin ≡ true → (f u).is_admin ≡ true))
    → HasAdmin (update (has_id id.uuid) f us)
update-HasAdmin id f us uniq adm (inl (canon, ok)) = elim (guard_cases id us canon ok) [
  | inl two ↦
      HasAdmin-of_count (update (has_id id.uuid) f us)
        (omega (arith, count-update id.uuid f us uniq))
  | inr other ↦
      HasAdmin-of_count (update (has_id id.uuid) f us)
        (omega (arith, count-update_other id.uuid f us other, count-of_HasAdmin us adm))
]
update-HasAdmin id f us uniq adm (inr keeps) =
    HasAdmin-of_count (update (has_id id.uuid) f us)
      (omega (arith, count-update_keeping id.uuid f us keeps, count-of_HasAdmin us adm))
