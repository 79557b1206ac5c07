-- ===== src/Users/Sessions.antt =====
-- web/src/app/api/users, web/src/app/api/auth/change-password: what the changes of an account leave
-- of its sessions.
use simple_rss_notifications.Base.{
  ℕ, ◌≡◌, ◌≢◌, refl, Bool, none, some, List, [], ◌∷◌, Text, ◌==◌, find, delete, select, All, arith,
  Option-cases, inl, inr,
}
use simple_rss_notifications.Db.{Database, WebSession}
use simple_rss_notifications.Db.Cascade.{delete_user}
use simple_rss_notifications.Auth.{
  Session, live, check_session_live, require_admin, admitted, user_of, session_of,
}
use simple_rss_notifications.Auth.Gates.{require_admin_iff}
use simple_rss_notifications.Users.{Patch, patch_user, remove_user}
use simple_rss_notifications.Users.Accounts.{set_password}

-- The row of the session belongs to the session's user, as the login writes it.
abbrev pub OwnsRow : Session → Database → Type 0
OwnsRow s db = All (λ (w : WebSession). w.jti ≡ s.jti → w.user_id ≡ s.uid) db.web_sessions

find-delete :
    (s : Session) (ws : List WebSession)
    → All (λ (w : WebSession). w.jti ≡ s.jti → w.user_id ≡ s.uid) ws
    → find (λ (w : WebSession). w.jti == s.jti) (delete (λ (w : WebSession). w.user_id == s.uid) ws)
      ≡ none
unfolding delete select
find-delete s [] h = refl
find-delete s (w ∷ ws) h = ground (arith, find-delete s ws h.1, h.0)

-- Without its row a session is not live.
dead_without_row :
    (t : ℕ) (db : Database) (s : Session)
    → session_of db s.jti ≡ none
    → check_session_live t db s ≢ live
unfolding check_session_live
dead_without_row t db s e = elim (Option-cases (user_of db s.uid)) [
  | inl missing ↦ rw (missing, check_session_live) (λ h. cc)
  | inr (u, found) ↦ rw (found, check_session_live) (rw e (ground arith))
]

module _ (now t : ℕ) (s : Session) (db : Database) (owns : OwnsRow s db) where
  -- After the user changes the password, no earlier session of his is live, at any time.
  pub set_password-ends_sessions :
      (new_hash : Text) → check_session_live t (set_password now s.uid new_hash db) s ≢ live
  unfolding set_password
  set_password-ends_sessions new_hash = dead_without_row t _ s (find-delete s db.web_sessions owns)

  -- After an admin resets a password, no earlier session of that user is live, and none of them
  -- passes the admin gate.
  pub patch_user-ends_sessions :
      (canonical : Bool) (p : Patch) (new_hash : Text) (db' : Database)
      → p.password_hash ≡ some new_hash
      → patch_user now (record { uuid = s.uid; is_canonical = canonical }) p db ≡ some db'
      → (check_session_live t db' s ≢ live) × (require_admin t db' (some s) ≢ admitted s)
  unfolding patch_user
  patch_user-ends_sessions canonical p new_hash db' given e =
      let rows : delete (λ (w : WebSession). w.user_id == s.uid) db.web_sessions
          ≡ db'.web_sessions =
        ground arith in
      let no_row : session_of db' s.jti ≡ none = rw (← rows) (find-delete s db.web_sessions owns) in
      let dead = dead_without_row t db' s no_row in
      (dead, λ h. dead ((require_admin_iff t db' s).0 h).0)

  -- After an account is deleted, none of its sessions is live.
  pub remove_user-ends_sessions :
      (canonical : Bool) (db' : Database)
      → remove_user (record { uuid = s.uid; is_canonical = canonical }) db ≡ some db'
      → check_session_live t db' s ≢ live
  unfolding remove_user delete_user
  remove_user-ends_sessions canonical db' e =
      let rows : delete (λ (w : WebSession). w.user_id == s.uid) db.web_sessions
          ≡ db'.web_sessions =
        ground arith in
      dead_without_row t db' s (rw (← rows) (find-delete s db.web_sessions owns))
