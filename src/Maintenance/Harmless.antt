-- ===== src/Maintenance/Harmless.antt =====
-- web/src/worker/maintenance.ts: the sweep, seen from the session check.
use simple_rss_notifications.Base.{
  ℕ, ◌≤◌, ◌≡◌, refl, Bool, true, false, Option, none, some, List, [], ◌∷◌, ◌==◌, ==_iff, find,
  select, delete, arith, Bool-cases, inl, inr,
}
use simple_rss_notifications.Db.{Database, WebSession, User}
use simple_rss_notifications.Auth.{Session, check_session_live, check_user, check_mirror, user_of}
use simple_rss_notifications.Maintenance.{is_expired, sweep_sessions, run_maintenance}

-- `jti` is the primary key of the table.
abbrev pub HasUniqueJtis : List WebSession → Type 0
HasUniqueJtis [] = Unit
HasUniqueJtis (w ∷ ws) = (find (λ (x : WebSession). x.jti == w.jti) ws ≡ none) × HasUniqueJtis ws

find-delete-none :
    (j now : ℕ) (ws : List WebSession)
    → find (λ (x : WebSession). x.jti == j) ws ≡ none
    → find (λ (x : WebSession). x.jti == j) (delete (is_expired now) ws) ≡ none
unfolding delete select
find-delete-none j now [] h = refl
find-delete-none j now (w ∷ ws) h = ground (arith, find-delete-none j now ws)

mirror-delete :
    (j now t : ℕ) (ws : List WebSession)
    → HasUniqueJtis ws
    → now ≤ t
    → check_mirror t (find (λ (x : WebSession). x.jti == j) (delete (is_expired now) ws))
      ≡ check_mirror t (find (λ (x : WebSession). x.jti == j) ws)
unfolding delete select check_mirror
mirror-delete j now t [] u h = refl
mirror-delete j now t (w ∷ ws) u h = elim (Bool-cases (w.jti == j)) [
  | inl mine ↦
      let same = (==_iff w.jti j).0 mine in
      let gone = find-delete-none j now ws (rw (← same) u.0) in ground (arith, mine, gone)
  | inr other ↦ ground (arith, other, mirror-delete j now t ws u.1 h)
]

-- A sweep changes the answer of no session check that is made at its time or later.
pub run_maintenance-check_session_live :
    (now t : ℕ) (sessions_ok buckets_ok : Bool) (db : Database)
    (bs : List simple_rss_notifications.RateLimit.Bucket) (s : Session)
    → HasUniqueJtis db.web_sessions
    → now ≤ t
    → check_session_live t (run_maintenance now sessions_ok buckets_ok db bs).0 s
      ≡ check_session_live t db s
unfolding run_maintenance
run_maintenance-check_session_live now t false buckets_ok db bs s u h = refl
run_maintenance-check_session_live now t true buckets_ok db bs s u h =
    unfold check_session_live in by_user (user_of db s.uid)
  where
    by_user : (o : Option User) → check_user t (sweep_sessions now db) s o ≡ check_user t db s o
    by_user none = unfold check_user in refl
    by_user (some v) = unfold check_user in rw (mirror-delete s.jti now t db.web_sessions u h) refl
