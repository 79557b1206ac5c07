-- ===== src/Ssrf/Fetch.antt =====
-- web/src/lib/ssrf.ts: `safeFetch`, `singleRequest` and the pinned `lookup`. A world answers each
-- step: the DNS may give another answer at every look-up. The trace lists the requests that are
-- made, with the addresses that the client may connect to.
pub mod Laws
pub mod Safety
use simple_rss_notifications.Base.{
  ℕ, zero, suc, ◌+◌, ◌*◌, Bool, true, false, not, ◌&&◌, ◌||◌, Option, none, some, List, [], ◌∷◌,
  ◌++◌, Text, ◌==◌, if◌then◌else◌, any, select, delete, map, length,
}
use simple_rss_notifications.Base.Strings.{codes, text_eq, to_lower}
use simple_rss_notifications.Ssrf.Resolve.{
  Family, ipv4, ipv6, Url, Platform, Address, DnsRecord, Resolved, targets, ip_family,
  is_private_address, resolve_and_validate, is_http,
}

-- The options with which the client calls `lookup`.
pub data LookupFamily : Type 0 where
  want_v4 want_v6 want_any : LookupFamily

pub record LookupOptions : Type 0 where
  pub family : LookupFamily
  pub all : Bool

pub record Header : Type 0 where
  pub name : Text
  pub value : Text

pub record Request : Type 0 where
  pub url : Url
  pub method : Text
  pub headers : List Header
  pub body : Option Text
  -- Where the client may connect to.
  pub addresses : List Address

pub record Answer : Type 0 where
  pub status : ℕ
  pub location : Option Text

pub record World : Type 0 where
  -- The answer of the n-th look-up.
  pub dns : ℕ → Text → Option (List DnsRecord)
  pub options : ℕ → LookupOptions
  -- `none` is a failure of the connection.
  pub answer : ℕ → Request → Option Answer
  -- Whether the deadline has passed before a hop.
  pub aborted : ℕ → Bool
  -- The byte length of a body in UTF-8, in decimal.
  pub byte_length : Text → Text

pub data FetchResult : Type 0 where
  response : Answer → FetchResult
  timed_out invalid_url ssrf_blocked request_failed too_many_redirects : FetchResult

matches : LookupFamily → Family → Bool
matches want_v4 ipv4 = true
matches want_v4 ipv6 = false
matches want_v6 ipv4 = false
matches want_v6 ipv6 = true
matches want_any f = true

first_only : Bool → List Address → List Address
first_only true ts = ts
first_only false [] = []
first_only false (t ∷ ts) = t ∷ []

-- The `lookup` callback: what it hands to the client; nothing is its error.
unfoldable pub lookup : Platform → LookupOptions → List Address → List Address
unfolding matches first_only
lookup p o pinned =
    first_only o.all
      (select (λ (t : Address). not (is_private_address p t) && matches o.family t.family) pinned)

-- The client connects to a literal address as it is, and asks `lookup` about a name.
connect_to : Platform → LookupOptions → Text → List Address → List Address
unfolding lookup
connect_to p o host pinned = elim (ip_family p host) [ none ↦ lookup p o pinned | some f ↦ pinned ]

has_header : Text → List Header → Bool
has_header name hs = any (λ (h : Header). text_eq (to_lower h.name) name) hs

add_length : World → Option Text → List Header → List Header
unfolding has_header
add_length w none hs = hs
add_length w (some body) hs =
    if has_header (codes "content-length") hs
    then hs
    else hs ++ record { name = codes "Content-Length"; value = w.byte_length body } ∷ []

add_encoding : List Header → List Header
unfolding has_header
add_encoding hs =
    if has_header (codes "accept-encoding") hs
    then hs
    else hs ++ record { name = codes "Accept-Encoding"; value = codes "gzip, deflate, br" } ∷ []

-- What the loop carries from hop to hop.
pub record Hop : Type 0 where
  pub url : Text
  pub method : Text
  pub headers : List Header
  pub body : Option Text

pub data Sent : Type 0 where
  refused : FetchResult → Sent
  sent : Request → Option Answer → Sent

connect : World → ℕ → Request → Sent
connect w n req = elim req.addresses [
  | [] ↦ refused request_failed
  | t ∷ ts ↦ sent req (w.answer n req)
]

send_to : Platform → World → ℕ → Hop → Url → Resolved → Sent
unfolding connect connect_to add_length add_encoding
send_to p w n h u (targets pinned) = connect w n (record {
  url = u;
  method = h.method;
  headers = add_encoding (add_length w h.body h.headers);
  body = h.body;
  addresses = connect_to p (w.options n) u.hostname pinned;
})
send_to p w n h u r = refused ssrf_blocked

send_url : Platform → World → ℕ → Hop → Option Url → Sent
unfolding send_to
send_url p w n h none = refused invalid_url
send_url p w n h (some u) =
    if is_http u
    then send_to p w n h u (resolve_and_validate p (w.dns (2 * n)) u.hostname)
    else refused ssrf_blocked

-- `singleRequest`
unfoldable pub single_request : Platform → World → ℕ → Hop → Sent
unfolding send_url
single_request p w n h = send_url p w n h (p.new_url h.url none)

abbrev is_redirect : ℕ → Bool
is_redirect s = s == 301 || s == 302 || s == 303 || s == 307 || s == 308

abbrev get : Text
get = codes "GET"

-- The deleted names, in their two spellings.
abbrev is_body_header : Header → Bool
is_body_header h =
    text_eq h.name (codes "content-type")
    || text_eq h.name (codes "Content-Type")
    || text_eq h.name (codes "content-length")
    || text_eq h.name (codes "Content-Length")

abbrev downgrades : ℕ → Text → Bool
downgrades status method =
    status == 303
    || ((status == 301 || status == 302)
        && not (text_eq method get)
        && not (text_eq method (codes "HEAD")))

-- The next hop: a downgrade to GET drops the body and its headers.
unfoldable pub next_hop : ℕ → Hop → Url → Hop
next_hop status h u =
    if downgrades status h.method
    then record {
      url = u.href;
      method = get;
      headers = delete is_body_header h.headers;
      body = none;
    }
    else record h { url = u.href }

pub data Step : Type 0 where
  stop : FetchResult → Step
  follow : Hop → Step

check_redirect : ℕ → Hop → Url → Resolved → Step
unfolding next_hop
check_redirect status h u (targets ts) = follow (next_hop status h u)
check_redirect status h u r = stop ssrf_blocked

redirect_to : Platform → World → ℕ → ℕ → Hop → Option Url → Step
unfolding check_redirect
redirect_to p w n status h none = stop invalid_url
redirect_to p w n status h (some u) =
    if is_http u
    then check_redirect status h u (resolve_and_validate p (w.dns (2 * n + 1)) u.hostname)
    else stop ssrf_blocked

-- `!res.location` holds of an empty header too.
location_of : Option Text → Option Text
location_of (some (c ∷ s)) = some (c ∷ s)
location_of _ = none

after_answer : Platform → World → ℕ → (is_last : Bool) → Hop → Answer → Option Text → Step
unfolding redirect_to
after_answer p w n is_last h a none = stop (response a)
after_answer p w n is_last h a (some location) =
    if not (is_redirect a.status)
    then stop (response a)
    else if is_last
    then stop too_many_redirects
    else redirect_to p w n a.status h (p.new_url location (some h.url))

after_sent : Platform → World → ℕ → (is_last : Bool) → Hop → Sent → List Request × Step
unfolding after_answer location_of
after_sent p w n is_last h (refused r) = ([], stop r)
after_sent p w n is_last h (sent req none) = (req ∷ [], stop request_failed)
after_sent p w n is_last h (sent req (some a)) =
    (req ∷ [], after_answer p w n is_last h a (location_of a.location))

-- One turn of the loop.
unfoldable pub hop : Platform → World → ℕ → (is_last : Bool) → Hop → List Request × Step
unfolding after_sent single_request
hop p w n is_last h =
    if w.aborted n
    then ([], stop timed_out)
    else after_sent p w n is_last h (single_request p w n h)

ended : Step → FetchResult
ended (stop r) = r
ended (follow h) = too_many_redirects

-- The loop from the n-th hop on, with so many redirects left.
unfoldable pub fetch_from : Platform → World → ℕ → ℕ → Hop → List Request × FetchResult
unfolding hop ended
fetch_from p w zero n h = let (reqs, step) = hop p w n true h in (reqs, ended step)
fetch_from p w (suc left) n h =
    let turn = hop p w n false h in
    elim turn.1 [
      | stop r ↦ (turn.0, r)
      | follow h' ↦ let (reqs, r) = fetch_from p w left (suc n) h' in (turn.0 ++ reqs, r)
    ]

-- `safeFetch`, with the method in upper case; the trace, and what is returned or thrown.
unfoldable pub safe_fetch :
    Platform → World → (max_redirects : ℕ) → Hop → List Request × FetchResult
unfolding fetch_from
safe_fetch p w max_redirects h = fetch_from p w max_redirects 0 h
