-- ===== src/Users/Accounts/Keep.antt =====
-- web/src/app/api/users, web/src/app/api/auth: series of requests to the routes on accounts, and
-- what they keep of the user table.
use simple_rss_notifications.Base.{
  ℕ, ◌≡◌, refl, Bool, true, false, not, Option, none, some, List, [], ◌∷◌, Text, inr, if◌then◌else◌,
  arith, All,
}
use simple_rss_notifications.Base.Strings.{trim, to_lower}
use simple_rss_notifications.Db.{Database, User}
use simple_rss_notifications.Auth.{Session, AdminGate, admitted, refused, require_admin, user_of}
use simple_rss_notifications.RateLimit.{Bucket}
use simple_rss_notifications.Users.{PathId, Patch, patch_route, delete_route}
use simple_rss_notifications.Users.Accounts.{
  CreateBody, insert_user, inserted, create_body, create_gated, create_route, Credentials, login_as,
  login_route, set_password, PasswordChange, change_checked, change_body, change_password_route,
  logout_route, logout_session,
}
use simple_rss_notifications.Users.Admins.{update-HasUniqueIds, update-HasAdmin}
use simple_rss_notifications.Users.Admins.Routes.{
  IsAdministered, Kept, guarded, insert_user-IsAdministered, patch_route-IsAdministered,
  delete_route-IsAdministered,
}

inserted-IsAdministered :
    (db : Database) (r : Option Database)
    → IsAdministered db.users
    → ((db' : Database) → r ≡ some db' → IsAdministered db'.users)
    → IsAdministered (inserted db r).1.users
unfolding inserted
inserted-IsAdministered db none v h = v
inserted-IsAdministered db (some db') v h = h db' refl

abbrev Leaves : {A : Type 0} → A × Database → Type 0
Leaves r = IsAdministered r.1.users

kept_by_test :
    {A : Type 0} (b : Bool) (x y : A × Database) → Leaves x → Leaves y → Leaves (if b then x else y)
kept_by_test true x y h k = h
kept_by_test false x y h k = k

create_body-IsAdministered :
    (now new_id : ℕ) (body : Option CreateBody) (db : Database)
    → IsAdministered db.users
    → Leaves (create_body now new_id body db)
unfolding create_body
create_body-IsAdministered now new_id none db v = v
create_body-IsAdministered now new_id (some b) db v = kept_by_test _ _ _ v (
    inserted-IsAdministered db (insert_user now new_id (to_lower (trim b.username)) b db) v
      (λ db' e. insert_user-IsAdministered now new_id (to_lower (trim b.username)) b db db' v e))

create_gated-IsAdministered :
    (now js_now new_id : ℕ) (body : Option CreateBody) (gate : AdminGate) (db : Database)
    (bs : List Bucket)
    → IsAdministered db.users
    → Kept (create_gated now js_now new_id body gate db bs)
unfolding create_gated
create_gated-IsAdministered now js_now new_id body (refused status code) db bs v = v
create_gated-IsAdministered now js_now new_id body (admitted s) db bs v =
    guarded _ _ _ v (create_body-IsAdministered now new_id body db v)

create_route-IsAdministered :
    (now js_now : ℕ) (same_origin : Bool) (session : Option Session) (new_id : ℕ)
    (body : Option CreateBody) (db : Database) (bs : List Bucket)
    → IsAdministered db.users
    → Kept (create_route now js_now same_origin session new_id body db bs)
unfolding create_route
create_route-IsAdministered now js_now same_origin session new_id body db bs v =
    guarded (not same_origin) _ _ v
      (create_gated-IsAdministered now js_now new_id body (require_admin now db session) db bs v)

set_password-IsAdministered :
    (now uid : ℕ) (h : Text) (db : Database)
    → IsAdministered db.users
    → IsAdministered (set_password now uid h db).users
unfolding set_password
set_password-IsAdministered now uid h db v = record {
  unique = update-HasUniqueIds uid _ db.users (λ u. refl) v.unique;
  administered =
      update-HasAdmin (record { uuid = uid; is_canonical = true }) _ db.users v.unique
        v.administered (inr (λ u adm. adm));
}

module _ (verify : (hash password : Text) → Bool) (hash : Text → Text) where
  change_body-IsAdministered :
      (now : ℕ) (s : Session) (body : Option PasswordChange) (db : Database)
      → IsAdministered db.users
      → Leaves (change_body verify hash now s body db)
  unfolding change_body
  change_body-IsAdministered now s none db v = v
  change_body-IsAdministered now s (some b) db v = kept_by_test _ _ _ v (checked (user_of db s.uid))
    where
      checked : (u : Option User) → Leaves (change_checked verify hash now s b u db)
      checked none = v
      checked (some u) =
          kept_by_test _ _ _ v (set_password-IsAdministered now s.uid (hash b.new_password) db v)

  -- A request to one of the routes on accounts, with all that it brings.
  pub data Event : Type 0 where
    patches :
        (now js_now : ℕ) (same_origin : Bool)
        → Option Session
        → (id_ok : Bool) → PathId
        → Option Patch
        → Event
    deletes :
        (now js_now : ℕ) (same_origin : Bool) → Option Session → (id_ok : Bool) → PathId → Event
    creates : (now js_now : ℕ) (same_origin : Bool) → Option Session → ℕ → Option CreateBody → Event
    changes_password :
        (now js_now : ℕ) (same_origin : Bool)
        → Option Session
        → Text
        → Option PasswordChange
        → Event
    logs_in : (now js_now : ℕ) (same_origin : Bool) → Text → (jti : ℕ) → Option Credentials → Event
    logs_out : (same_origin : Bool) → Option Session → Event

  -- What a request leaves of the database.
  pub step : Event → Database × List Bucket → Database × List Bucket
  step (patches now js_now same_origin session id_ok id body) (db, bs) =
      let (reply, db', bs') = patch_route now js_now same_origin session id_ok id body db bs in
      (db', bs')
  step (deletes now js_now same_origin session id_ok id) (db, bs) =
      let (reply, db', bs') = delete_route now js_now same_origin session id_ok id db bs in
      (db', bs')
  step (creates now js_now same_origin session new_id body) (db, bs) =
      let (reply, db', bs') = create_route now js_now same_origin session new_id body db bs in
      (db', bs')
  step (changes_password now js_now same_origin session ip body) (db, bs) =
      let (reply, db', bs') =
        change_password_route verify hash now js_now same_origin session ip body db bs in
      (db', bs')
  step (logs_in now js_now same_origin ip jti body) (db, bs) =
      let (result, bs') = login_route verify now js_now same_origin ip jti body db bs in
      (result.2, bs')
  step (logs_out same_origin session) (db, bs) = ((logout_route same_origin session db).1, bs)

  pub run : List Event → Database × List Bucket → Database × List Bucket
  run [] w = w
  run (e ∷ es) w = run es (step e w)

  change_route-IsAdministered :
      (now js_now : ℕ) (same_origin : Bool) (session : Option Session) (ip : Text)
      (body : Option PasswordChange) (db : Database) (bs : List Bucket)
      → IsAdministered db.users
      → Kept (change_password_route verify hash now js_now same_origin session ip body db bs)
  unfolding change_password_route
  change_route-IsAdministered now js_now same_origin none ip body db bs v = ground arith
  change_route-IsAdministered now js_now same_origin (some s) ip body db bs v =
      ground (arith, change_body-IsAdministered now s body db v)

  login_as-users :
      (now jti : ℕ) (password : Text) (u : Option User) (db : Database)
      → (login_as verify now jti password u db).2.users ≡ db.users
  unfolding login_as
  login_as-users now jti password none db = refl
  login_as-users now jti password (some u) db = ground arith

  login_route-users :
      (now js_now : ℕ) (same_origin : Bool) (ip : Text) (jti : ℕ) (body : Option Credentials)
      (db : Database) (bs : List Bucket)
      → (login_route verify now js_now same_origin ip jti body db bs).0.2.users ≡ db.users
  unfolding login_route
  login_route-users now js_now same_origin ip jti none db bs = ground arith
  login_route-users now js_now same_origin ip jti (some c) db bs =
      ground (arith, login_as-users now jti c.password)

  logout_route-users :
      (same_origin : Bool) (session : Option Session) (db : Database)
      → (logout_route same_origin session db).1.users ≡ db.users
  unfolding logout_route logout_session
  logout_route-users same_origin none db = ground arith
  logout_route-users same_origin (some s) db = ground arith

  -- The path of the request, if it has an id, spells it as the database does.
  abbrev pub IsCanonical : Event → Type 0
  IsCanonical (patches now js_now same_origin session id_ok id body) = id.is_canonical ≡ true
  IsCanonical (deletes now js_now same_origin session id_ok id) = id.is_canonical ≡ true
  IsCanonical (creates now js_now same_origin session new_id body) = Unit
  IsCanonical (changes_password now js_now same_origin session ip body) = Unit
  IsCanonical (logs_in now js_now same_origin ip jti body) = Unit
  IsCanonical (logs_out same_origin session) = Unit

  step-IsAdministered :
      (e : Event) (w : Database × List Bucket)
      → IsCanonical e
      → IsAdministered w.0.users
      → IsAdministered (step e w).0.users
  unfolding step
  step-IsAdministered (patches now js_now same_origin session id_ok id body) (db, bs) c v =
      patch_route-IsAdministered now js_now same_origin session id_ok id body db bs c v
  step-IsAdministered (deletes now js_now same_origin session id_ok id) (db, bs) c v =
      delete_route-IsAdministered now js_now same_origin session id_ok id db bs c v
  step-IsAdministered (creates now js_now same_origin session new_id body) (db, bs) c v =
      create_route-IsAdministered now js_now same_origin session new_id body db bs v
  step-IsAdministered (changes_password now js_now same_origin session ip body) (db, bs) c v =
      change_route-IsAdministered now js_now same_origin session ip body db bs v
  step-IsAdministered (logs_in now js_now same_origin ip jti body) (db, bs) c v =
      rw (login_route-users now js_now same_origin ip jti body db bs) v
  step-IsAdministered (logs_out same_origin session) (db, bs) c v =
      rw (logout_route-users same_origin session db) v

  -- Whatever requests come to the account routes, in whatever order and from whomever, if their paths
  -- spell ids in lower case: while ids are unique and somebody is an admin at the start, both hold at
  -- the end.
  pub run-IsAdministered :
      (es : List Event) (w : Database × List Bucket)
      → All IsCanonical es
      → IsAdministered w.0.users
      → IsAdministered (run es w).0.users
  unfolding run
  run-IsAdministered [] w c v = v
  run-IsAdministered (e ∷ es) w c v =
      run-IsAdministered es (step e w) c.1 (step-IsAdministered e w c.0 v)
