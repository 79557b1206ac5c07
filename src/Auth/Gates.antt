-- ===== src/Auth/Gates.antt =====
-- What the gates let through.
use simple_rss_notifications.Base.{
  ℕ, ◌≡◌, ap, ◌↔◌, true, Option, none, some, Text, arith, Option-cases, inl, inr,
}
use simple_rss_notifications.Base.Strings.{text_eq_iff}
use simple_rss_notifications.Db.{Database, User}
use simple_rss_notifications.Auth.{
  Session, live, check_session_live, admitted, require_admin, is_admin_user, user_of, session_of,
  get_current_user, is_same_origin, is_some_text, Request, truthy, check_origin, check_user,
  current_row,
}

-- The two implementations of the session check agree: the admin gate admits a session exactly where
-- the check that API routes make finds it live and its user is an admin.
pub require_admin_iff :
    (now : ℕ) (db : Database) (s : Session)
    → (require_admin now db (some s) ≡ admitted s)
      ↔ ((check_session_live now db s ≡ live) × (is_admin_user db s.uid ≡ true))
unfolding require_admin check_session_live is_admin_user
require_admin_iff now db s = elim (Option-cases (user_of db s.uid)) [
  | inl e ↦ rw e (ground arith)
  | inr (u, e) ↦ elim (Option-cases (session_of db s.jti)) [
    | inl missing ↦ rw (e, missing) (ground arith)
    | inr (w, found) ↦ rw (e, found) (ground arith)
  ]
]

-- A live session is one that pages accept too.
pub get_current_user_of_live :
    (now : ℕ) (db : Database) (s : Session)
    → check_session_live now db s ≡ live
    → (u : User) × (get_current_user db (some s) ≡ some (s, u)) × (user_of db s.uid ≡ some u)
unfolding get_current_user check_session_live
get_current_user_of_live now db s h = elim (Option-cases (user_of db s.uid)) [
  | inl e ↦ cc (rw e at h)
  | inr (u, e) ↦ (u, rw e (accepted u (rw e at h)), e)
]
  where
    accepted :
        (u : User) → check_user now db s (some u) ≡ live → current_row s (some u) ≡ some (s, u)
    accepted u k = ground arith

-- What the headers must say: the origin is ours; without one, the referer is on our origin; or both
-- are missing.
abbrev AgreesWith : (Text → Option Text) → Text → Option Text → Option Text → Type 0
AgreesWith url_origin ours (some origin) referer = origin ≡ ours
AgreesWith url_origin ours none (some referer) = url_origin referer ≡ some ours
AgreesWith url_origin ours none none = Unit

abbrev pub IsFromUs : (Text → Option Text) → Text → Request → Type 0
IsFromUs url_origin base req =
    (ours : Text) × (url_origin base ≡ some ours)
    × AgreesWith url_origin ours (truthy req.origin) (truthy req.referer)

pub is_same_origin-IsFromUs :
    (url_origin : Text → Option Text) (base : Text) (req : Request)
    → is_same_origin url_origin base req ≡ true
    → IsFromUs url_origin base req
unfolding is_same_origin
is_same_origin-IsFromUs url_origin base req h = elim (Option-cases (url_origin base)) [
  | inl e ↦ absurd (ground (arith, rw (e, is_same_origin) at h))
  | inr (ours, e) ↦
      (ours, e, agrees ours (truthy req.origin) (truthy req.referer) (rw (e, is_same_origin) at h))
]
  where
    same : (o : Option Text) (ours : Text) → is_some_text o (some ours) ≡ true → o ≡ some ours
    same none ours k = absurd (ground arith)
    same (some t) ours k = ap some ((text_eq_iff t ours).0 k)

    agrees :
        (ours : Text) (origin referer : Option Text)
        → check_origin url_origin ours origin referer ≡ true
        → AgreesWith url_origin ours origin referer
    agrees ours (some o) referer k = (text_eq_iff o ours).0 k
    agrees ours none (some r) k = same (url_origin r) ours k
    agrees ours none none k = tt
