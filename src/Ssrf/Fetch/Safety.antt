-- ===== src/Ssrf/Fetch/Safety.antt =====
-- web/src/lib/ssrf.ts: the requests of `safeFetch`, their targets, methods and bodies.
use simple_rss_notifications.Base.{
  ℕ, ◌+◌, ◌*◌, ◌≤◌, ◌≡◌, ◌⊎◌, inl, inr, refl, Bool, true, false, not, ◌&&◌, Option, none, some,
  List, [], ◌∷◌, Text, All, All-select, length, Bool-cases, Option-cases,
}
use simple_rss_notifications.Ssrf.Resolve.{
  Url, Platform, Address, Resolved, targets, no_hostname, local_name, private_literal,
  lookup_failed, no_records, unexpected_family, private_record, ip_family, is_private_address,
  resolve_and_validate, is_http,
}
use simple_rss_notifications.Ssrf.Resolve.Targets.{IsPublic, HasPublicTargets, has_public_targets}
use simple_rss_notifications.Ssrf.Fetch.{
  LookupOptions, Request, World, FetchResult, Hop, refused, sent, first_only, matches, lookup,
  connect_to, connect, send_to, send_url, single_request, get, downgrades, next_hop, safe_fetch,
}
use simple_rss_notifications.Ssrf.Fetch.Laws.{SentSatisfies, fetch_from-All, length-fetch_from}

first_only-IsPublic :
    (p : Platform) (all : Bool) (ts : List Address)
    → All (IsPublic p) ts
    → All (IsPublic p) (first_only all ts)
unfolding first_only
first_only-IsPublic p true ts h = h
first_only-IsPublic p false [] h = tt
first_only-IsPublic p false (t ∷ ts) h = (h.0, tt)

connect_to-IsPublic :
    (p : Platform) (o : LookupOptions) (host : Text) (ts : List Address)
    → All (IsPublic p) ts
    → All (IsPublic p) (connect_to p o host ts)
unfolding connect_to lookup
connect_to-IsPublic p o host ts h = elim (Option-cases (ip_family p host)) [
  | inl name ↦
      rw (name, connect_to)
        (first_only-IsPublic p o.all _ (
          All-select (IsPublic p)
            (λ (t : Address). not (is_private_address p t) && matches o.family t.family) ts h))
  | inr (f, literal) ↦ rw (literal, connect_to) h
]

connect-satisfies :
    (Q : Request → Type 0) (w : World) (n : ℕ) (req : Request)
    → Q req
    → SentSatisfies Q (connect w n req)
unfolding connect
connect-satisfies Q w n req q = cases req.addresses
  where
    cases :
        (ts : List Address)
        → SentSatisfies Q (elim ts [
          | [] ↦ refused FetchResult.request_failed
          | t ∷ us ↦ sent req (w.answer n req)
        ])
    cases [] = tt
    cases (t ∷ us) = q

-- A request goes to public addresses, over http or https.
abbrev pub IsSafe : Platform → Request → Type 0
IsSafe p req = All (IsPublic p) req.addresses × (is_http req.url ≡ true)

send_to-IsSafe :
    (p : Platform) (w : World) (n : ℕ) (h : Hop) (u : Url) (r : Resolved)
    → is_http u ≡ true
    → HasPublicTargets p r
    → SentSatisfies (IsSafe p) (send_to p w n h u r)
unfolding send_to
send_to-IsSafe p w n h u (targets ts) http k =
    connect-satisfies (IsSafe p) w n _ (connect_to-IsPublic p (w.options n) u.hostname ts k, http)
send_to-IsSafe p w n h u no_hostname http k = tt
send_to-IsSafe p w n h u local_name http k = tt
send_to-IsSafe p w n h u private_literal http k = tt
send_to-IsSafe p w n h u lookup_failed http k = tt
send_to-IsSafe p w n h u no_records http k = tt
send_to-IsSafe p w n h u unexpected_family http k = tt
send_to-IsSafe p w n h u private_record http k = tt

send_url-IsSafe :
    (p : Platform) (w : World) (n : ℕ) (h : Hop) (u : Option Url)
    → SentSatisfies (IsSafe p) (send_url p w n h u)
unfolding send_url
send_url-IsSafe p w n h none = tt
send_url-IsSafe p w n h (some u) = elim (Bool-cases (is_http u)) [
  | inl http ↦ rw http (
      send_to-IsSafe p w n h u (resolve_and_validate p (w.dns (2 * n)) u.hostname) http
        (has_public_targets p (w.dns (2 * n)) u.hostname))
  | inr other ↦ rw other tt
]

single_request-IsSafe :
    (p : Platform) (w : World) (n : ℕ) (h : Hop) → SentSatisfies (IsSafe p) (single_request p w n h)
unfolding single_request
single_request-IsSafe p w n h = send_url-IsSafe p w n h (p.new_url h.url none)

-- Whatever URL it is given, whatever the servers redirect to and however the DNS changes its answers
-- in between, a fetch connects to public addresses only, over http or https, and it makes at most
-- one request more than it may follow redirects.
pub safe_fetch-IsSafe :
    (p : Platform) (w : World) (max_redirects : ℕ) (h : Hop)
    → All (IsSafe p) (safe_fetch p w max_redirects h).0
      × (length (safe_fetch p w max_redirects h).0 ≤ max_redirects + 1)
unfolding safe_fetch
safe_fetch-IsSafe p w max_redirects h = (
  fetch_from-All p w (λ _. Unit) (IsSafe p) (λ n h' _. single_request-IsSafe p w n h')
      (λ status h' u i. tt) max_redirects 0 h tt,
  length-fetch_from p w max_redirects 0 h,
)

-- The method and the body are those of the caller, or the method is GET and there is no body.
abbrev pub IsFaithful : Text → Option Text → Text → Option Text → Type 0
IsFaithful method body m b = ((m ≡ method) × (b ≡ body)) ⊎ ((m ≡ get) × (b ≡ none))

abbrev RequestFits : Text → Option Text → Request → Type 0
RequestFits method body req = IsFaithful method body req.method req.body

abbrev HopFits : Text → Option Text → Hop → Type 0
HopFits method body h = IsFaithful method body h.method h.body

next_hop-fits :
    (method : Text) (body : Option Text) (status : ℕ) (h : Hop) (u : Url)
    → HopFits method body h
    → HopFits method body (next_hop status h u)
unfolding next_hop
next_hop-fits method body status h u i = elim (Bool-cases (downgrades status h.method)) [
  | inl down ↦ rw down (inr (refl, refl))
  | inr same ↦ rw same i
]

send_to-fits :
    (method : Text) (body : Option Text) (p : Platform) (w : World) (n : ℕ) (h : Hop) (u : Url)
    (r : Resolved)
    → HopFits method body h
    → SentSatisfies (RequestFits method body) (send_to p w n h u r)
unfolding send_to
send_to-fits method body p w n h u (targets ts) i =
    connect-satisfies (RequestFits method body) w n _ i
send_to-fits method body p w n h u no_hostname i = tt
send_to-fits method body p w n h u local_name i = tt
send_to-fits method body p w n h u private_literal i = tt
send_to-fits method body p w n h u lookup_failed i = tt
send_to-fits method body p w n h u no_records i = tt
send_to-fits method body p w n h u unexpected_family i = tt
send_to-fits method body p w n h u private_record i = tt

single_request-fits :
    (method : Text) (body : Option Text) (p : Platform) (w : World) (n : ℕ) (h : Hop)
    → HopFits method body h
    → SentSatisfies (RequestFits method body) (single_request p w n h)
unfolding single_request
single_request-fits method body p w n h i = by_url (p.new_url h.url none)
  where
    by_url : (u : Option Url) → SentSatisfies (RequestFits method body) (send_url p w n h u)
    by_url none = tt
    by_url (some u) = elim (Bool-cases (is_http u)) [
      | inl http ↦ rw (http, send_url) (send_to-fits method body p w n h u _ i)
      | inr other ↦ rw (other, send_url) tt
    ]

-- Every request of a fetch has the caller's method and body, or is a GET without a body.
pub safe_fetch-IsFaithful :
    (p : Platform) (w : World) (max_redirects : ℕ) (h : Hop)
    → All
        (λ (req : Request). IsFaithful h.method h.body req.method req.body)
        (safe_fetch p w max_redirects h).0
unfolding safe_fetch
safe_fetch-IsFaithful p w max_redirects h =
    fetch_from-All p w (HopFits h.method h.body) (RequestFits h.method h.body)
      (single_request-fits h.method h.body p w) (next_hop-fits h.method h.body) max_redirects 0 h
      (inl (refl, refl))
