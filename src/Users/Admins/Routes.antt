-- ===== src/Users/Admins/Routes.antt =====
-- web/src/app/api/users: what the routes that change accounts keep of the user table.
use simple_rss_notifications.Base.{
  ℕ, ◌≡◌, ◌⊎◌, inl, inr, refl, Bool, true, false, not, ◌&&◌, ◌||◌, Option, none, some, List, [],
  ◌∷◌, ◌++◌, Text, ◌==◌, if◌then◌else◌, any, any-append, update, delete, arith, Bool-cases,
}
use simple_rss_notifications.Base.Strings.{text_eq}
use simple_rss_notifications.Db.{Database, User}
use simple_rss_notifications.Db.Cascade.{delete_user}
use simple_rss_notifications.Auth.{Session, AdminGate, admitted, refused, require_admin, user_of}
use simple_rss_notifications.RateLimit.{Bucket}
use simple_rss_notifications.Users.{
  PathId, Patch, patched_user, demotes, has_id, is_admin_row, is_last_admin, patch_user,
  is_same_text, remove_user, settled, patch_checked, patch_body, patch_gated, patch_route,
  delete_checked, delete_gated, delete_route,
}
use simple_rss_notifications.Users.Accounts.{CreateBody, insert_user}
use simple_rss_notifications.Users.Admins.{
  HasUniqueIds, HasAdmin, delete-HasAdmin, update-HasAdmin, delete-HasUniqueIds,
  update-HasUniqueIds,
}

-- Ids are unique, and somebody is an admin.
pub record IsAdministered (us : List User) : Type 0 where
  pub unique : HasUniqueIds us
  pub administered : HasAdmin us

patched-keeps :
    (now : ℕ) (p : Patch) (u : User)
    → demotes p ≡ false
    → u.is_admin ≡ true
    → (patched_user now p u).is_admin ≡ true
patched-keeps now p u d h = ground arith

settled-IsAdministered :
    (db : Database) (r : Option Database)
    → IsAdministered db.users
    → ((db' : Database) → r ≡ some db' → IsAdministered db'.users)
    → IsAdministered (settled db r).1.users
unfolding settled
settled-IsAdministered db none v h = v
settled-IsAdministered db (some db') v h = h db' refl

pub patch_user-IsAdministered :
    (now : ℕ) (id : PathId) (p : Patch) (db db' : Database)
    → id.is_canonical ≡ true
    → IsAdministered db.users
    → patch_user now id p db ≡ some db'
    → IsAdministered db'.users
unfolding patch_user
patch_user-IsAdministered now id p db db' canon v e =
    elim (Bool-cases (demotes p && is_last_admin id db.users)) [
      | inl stop ↦ ground arith
      | inr go ↦
          let f = patched_user now p in
          let users' : update (has_id id.uuid) f db.users ≡ db'.users = ground arith in
          rw (← users') (record {
            unique = update-HasUniqueIds id.uuid f db.users (λ u. refl) v.unique;
            administered =
                update-HasAdmin id f db.users v.unique v.administered
                  (keeps (Bool-cases (demotes p)) go);
          })
    ]
  where
    keeps :
        (demotes p ≡ true) ⊎ (demotes p ≡ false)
        → (demotes p && is_last_admin id db.users) ≡ false
        → ((id.is_canonical ≡ true) × (is_last_admin id db.users ≡ false))
          ⊎ ((u : User) → u.is_admin ≡ true → (patched_user now p u).is_admin ≡ true)
    keeps (inl d) g = inl (canon, ground arith)
    keeps (inr d) g = inr (λ u. patched-keeps now p u d)

pub remove_user-IsAdministered :
    (id : PathId) (db db' : Database)
    → id.is_canonical ≡ true
    → IsAdministered db.users
    → remove_user id db ≡ some db'
    → IsAdministered db'.users
unfolding remove_user delete_user
remove_user-IsAdministered id db db' canon v e = elim (Bool-cases (is_last_admin id db.users)) [
  | inl stop ↦ ground arith
  | inr go ↦
      let users' : delete (has_id id.uuid) db.users ≡ db'.users = ground arith in
      rw (← users') (record {
        unique = delete-HasUniqueIds id.uuid db.users v.unique;
        administered = delete-HasAdmin id db.users canon v.unique v.administered go;
      })
]

HasUniqueIds-append :
    (us : List User) (u : User)
    → HasUniqueIds us
    → any (has_id u.id) us ≡ false
    → HasUniqueIds (us ++ u ∷ [])
HasUniqueIds-append [] u h a = (refl, tt)
HasUniqueIds-append (x ∷ us) u h a = (
  ground (arith, any-append (has_id x.id) us (u ∷ [])),
  HasUniqueIds-append us u h.1 (ground arith),
)

taken_apart :
    (name : Text) (id : ℕ) (us : List User)
    → any (λ (u : User). text_eq u.username name || u.id == id) us ≡ false
    → any (has_id id) us ≡ false
taken_apart name id [] h = refl
taken_apart name id (u ∷ us) h = ground (arith, taken_apart name id us)

pub insert_user-IsAdministered :
    (now new_id : ℕ) (name : Text) (b : CreateBody) (db db' : Database)
    → IsAdministered db.users
    → insert_user now new_id name b db ≡ some db'
    → IsAdministered db'.users
unfolding insert_user
insert_user-IsAdministered now new_id name b db db' v e =
    elim (Bool-cases (any (λ (u : User). text_eq u.username name || u.id == new_id) db.users)) [
      | inl taken ↦ ground arith
      | inr free ↦
          let u : User = record {
            id = new_id;
            username = name;
            password_hash = b.password_hash;
            is_admin = b.is_admin;
            must_change_password = b.must_change_password;
            password_changed_at = now;
          } in
          let users' : db.users ++ u ∷ [] ≡ db'.users = ground arith in
          rw (← users') (record {
            unique =
                HasUniqueIds-append db.users u v.unique (taken_apart name new_id db.users free);
            administered =
                ground (arith, any-append is_admin_row db.users (u ∷ []), v.administered);
          })
    ]

abbrev pub Kept : {A B : Type 0} → A × Database × B → Type 0
Kept r = IsAdministered r.1.users

-- The branches of a guard chain: a refusal leaves the database, the last branch changes it.
pub guarded :
    {A B : Type 0} (b : Bool) (x y : A × Database × B) → Kept x → Kept y → Kept (if b then x else y)
guarded true x y h k = h
guarded false x y h k = k

patch_checked-IsAdministered :
    (now : ℕ) (id : PathId) (s : Session) (p : Patch) (db : Database) (target : Option User)
    → id.is_canonical ≡ true
    → IsAdministered db.users
    → IsAdministered (patch_checked now id s p db target).1.users
unfolding patch_checked
patch_checked-IsAdministered now id s p db none canon v = v
patch_checked-IsAdministered now id s p db (some u) canon v =
    elim (Bool-cases (is_same_text id s.uid && demotes p)) [
      | inl self ↦ rw self v
      | inr other ↦ rw other (
          settled-IsAdministered db (patch_user now id p db) v
            (λ db' e. patch_user-IsAdministered now id p db db' canon v e))
    ]

patch_body-IsAdministered :
    (now : ℕ) (id : PathId) (s : Session) (body : Option Patch) (db : Database)
    → id.is_canonical ≡ true
    → IsAdministered db.users
    → IsAdministered (patch_body now id s body db).1.users
unfolding patch_body
patch_body-IsAdministered now id s none db canon v = v
patch_body-IsAdministered now id s (some p) db canon v =
    patch_checked-IsAdministered now id s p db (user_of db id.uuid) canon v

patch_gated-IsAdministered :
    (now js_now : ℕ) (id_ok : Bool) (id : PathId) (body : Option Patch) (gate : AdminGate)
    (db : Database) (bs : List Bucket)
    → id.is_canonical ≡ true
    → IsAdministered db.users
    → Kept (patch_gated now js_now id_ok id body gate db bs)
unfolding patch_gated
patch_gated-IsAdministered now js_now id_ok id body (refused status code) db bs canon v = v
patch_gated-IsAdministered now js_now id_ok id body (admitted s) db bs canon v =
    guarded (not id_ok) _ _ v (guarded _ _ _ v (patch_body-IsAdministered now id s body db canon v))

-- PATCH keeps it, for an id that is spelled as the database does.
pub patch_route-IsAdministered :
    (now js_now : ℕ) (same_origin : Bool) (session : Option Session) (id_ok : Bool) (id : PathId)
    (body : Option Patch) (db : Database) (bs : List Bucket)
    → id.is_canonical ≡ true
    → IsAdministered db.users
    → Kept (patch_route now js_now same_origin session id_ok id body db bs)
unfolding patch_route
patch_route-IsAdministered now js_now same_origin session id_ok id body db bs canon v =
    guarded (not same_origin) _ _ v (
      patch_gated-IsAdministered now js_now id_ok id body (require_admin now db session) db bs canon
        v)

delete_checked-IsAdministered :
    (id : PathId) (s : Session) (db : Database) (target : Option User)
    → id.is_canonical ≡ true
    → IsAdministered db.users
    → IsAdministered (delete_checked id s db target).1.users
unfolding delete_checked
delete_checked-IsAdministered id s db none canon v = v
delete_checked-IsAdministered id s db (some u) canon v =
    settled-IsAdministered db (remove_user id db) v
      (λ db' e. remove_user-IsAdministered id db db' canon v e)

delete_gated-IsAdministered :
    (now js_now : ℕ) (id_ok : Bool) (id : PathId) (gate : AdminGate) (db : Database)
    (bs : List Bucket)
    → id.is_canonical ≡ true
    → IsAdministered db.users
    → Kept (delete_gated now js_now id_ok id gate db bs)
unfolding delete_gated
delete_gated-IsAdministered now js_now id_ok id (refused status code) db bs canon v = v
delete_gated-IsAdministered now js_now id_ok id (admitted s) db bs canon v =
    guarded (not id_ok) _ _ v (
      guarded _ _ _ v (
        guarded (is_same_text id s.uid) _ _ v
          (delete_checked-IsAdministered id s db (user_of db id.uuid) canon v)))

-- DELETE keeps it, for an id that is spelled as the database does.
pub delete_route-IsAdministered :
    (now js_now : ℕ) (same_origin : Bool) (session : Option Session) (id_ok : Bool) (id : PathId)
    (db : Database) (bs : List Bucket)
    → id.is_canonical ≡ true
    → IsAdministered db.users
    → Kept (delete_route now js_now same_origin session id_ok id db bs)
unfolding delete_route
delete_route-IsAdministered now js_now same_origin session id_ok id db bs canon v =
    guarded (not same_origin) _ _ v
      (delete_gated-IsAdministered now js_now id_ok id (require_admin now db session) db bs canon v)
