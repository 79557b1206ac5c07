-- ===== src/Users/Admins/Spelling.antt =====
-- web/src/app/api/users/[id]/route.ts: what the guards make of an id that is not in lower case.
use simple_rss_notifications.Base.{
  ℕ, ◌≡◌, inl, inr, refl, true, false, some, List, [], ◌∷◌, any, select, arith, Option-cases,
}
use simple_rss_notifications.Base.Strings.{codes}
use simple_rss_notifications.Db.{Database, User}
use simple_rss_notifications.Db.Cascade.{delete_user}
use simple_rss_notifications.Auth.{Session, admitted, require_admin, is_admin_user, user_of}
use simple_rss_notifications.Auth.Gates.{require_admin_iff}
use simple_rss_notifications.RateLimit.{Bucket, user_key, rate_limit}
use simple_rss_notifications.Users.{
  PathId, has_text_id, is_admin_row, is_last_admin, remove_user, done, delete_route, delete_gated,
}

abbrev upper : ℕ → PathId
upper i = record { uuid = i; is_canonical = false }

unguarded : (i : ℕ) (us : List User) → any (has_text_id (upper i)) us ≡ false
unguarded i [] = refl
unguarded i (u ∷ us) = unguarded i us

remove_user-upper : (i : ℕ) (db : Database) → remove_user (upper i) db ≡ some (delete_user i db)
unfolding remove_user is_last_admin
remove_user-upper i db = ground (arith, unguarded i (select is_admin_row db.users))

admin_row :
    (now : ℕ) (db : Database) (s : Session)
    → require_admin now db (some s) ≡ admitted s
    → (u : User) × (user_of db s.uid ≡ some u)
unfolding is_admin_user
admin_row now db s h = elim (Option-cases (user_of db s.uid)) [
  | inl e ↦
      absurd (ground (arith, e, rw (e, is_admin_user) at ((require_admin_iff now db s).0 h).1))
  | inr found ↦ found
]

-- The guards against deleting oneself and against deleting the last admin miss an id that is not
-- spelled in lower case: a request with it, within the rate limit, deletes the admin who sends it,
-- whether or not there is another.
pub delete_route-upper :
    (now js_now : ℕ) (s : Session) (db : Database) (bs : List Bucket)
    → require_admin now db (some s) ≡ admitted s
    → (rate_limit now js_now
        (user_key (codes "users:delete") s.uid)
        (record { limit = 20; window_ms = 60000 })
        bs).0.ok
      ≡ true
    → ((delete_route now js_now true
          (some s)
          true
          (record { uuid = s.uid; is_canonical = false })
          db
          bs).0
        ≡ done)
      × ((delete_route now js_now true
            (some s)
            true
            (record { uuid = s.uid; is_canonical = false })
            db
            bs).1
          ≡ delete_user s.uid db)
unfolding delete_route
delete_route-upper now js_now s db bs admin within =
    let (u, found) = admin_row now db s admin in
    rw (admin, delete_gated) (rw (within, found, remove_user-upper s.uid db) (refl, refl))
