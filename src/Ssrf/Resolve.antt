-- ===== src/Ssrf/Resolve.antt =====
-- web/src/lib/ssrf.ts: `isPrivateAddress`, `resolveAndValidate`, `checkSafeOutboundUrl` and
-- `isPrivateHost`. What `node:net`, `new URL` and `dns.lookup` answer is given.
pub mod Targets
use simple_rss_notifications.Base.{
  ℕ, ◌≡◌, refl, Bool, true, false, not, ◌&&◌, ◌||◌, Option, none, some, List, [], ◌∷◌, Text, ◌==◌,
  if◌then◌else◌, All, arith, Bool-cases, inl, inr, subst,
}
use simple_rss_notifications.Base.Strings.{codes, text_eq, to_lower, ends_with}
use simple_rss_notifications.Ssrf.{is_private_v4}
use simple_rss_notifications.Ssrf.Ipv6.{is_private_v6}

pub data Family : Type 0 where
  ipv4 ipv6 : Family

-- A parsed URL; `protocol` ends in its colon.
pub record Url : Type 0 where
  pub href : Text
  pub protocol : Text
  pub hostname : Text

-- What the platform's functions compute: `net.isIPv4`, `net.isIPv6`, and `new URL(text, base)`,
-- which is `none` where it throws.
pub record Platform : Type 0 where
  pub is_ipv4 : Text → Bool
  pub is_ipv6 : Text → Bool
  pub new_url : Text → Option Text → Option Url

pub record Address : Type 0 where
  pub address : Text
  pub family : Family

-- A record of a DNS answer: an address and the number of its family.
pub record DnsRecord : Type 0 where
  pub address : Text
  pub family : ℕ

pub data Resolved : Type 0 where
  targets : List Address → Resolved
  no_hostname local_name private_literal lookup_failed no_records : Resolved
  unexpected_family private_record : Resolved

-- `ipFamily`
unfoldable pub ip_family : Platform → Text → Option Family
ip_family p s = if p.is_ipv4 s then some ipv4 else if p.is_ipv6 s then some ipv6 else none

-- `isPrivateAddress`, with the family given.
unfoldable pub is_private_address : Platform → Address → Bool
is_private_address p a = elim a.family [
  | ipv4 ↦ is_private_v4 a.address
  | ipv6 ↦ is_private_v6 p.is_ipv4 a.address
]

family_of : ℕ → Option Family
family_of n = if n == 4 then some ipv4 else if n == 6 then some ipv6 else none

add_target : Address → Resolved → Resolved
add_target a (targets ts) = targets (a ∷ ts)
add_target a r = r

check_record : Platform → Text → Option Family → Resolved → Resolved
unfolding add_target
check_record p address none rest = unexpected_family
check_record p address (some f) rest =
    let a : Address = record { address = address; family = f } in
    if is_private_address p a then private_record else add_target a rest

-- The loop over the answer: the first bad record decides.
unfoldable pub check_records : Platform → List DnsRecord → Resolved
unfolding check_record family_of
check_records p [] = targets []
check_records p (r ∷ rs) =
    let rest = check_records p rs in check_record p r.address (family_of r.family) rest

check_answer : Platform → Option (List DnsRecord) → Resolved
unfolding check_records
check_answer p none = lookup_failed
check_answer p (some []) = no_records
check_answer p (some (r ∷ rs)) = check_records p (r ∷ rs)

check_literal : Platform → Text → Option (List DnsRecord) → Option Family → Resolved
unfolding check_answer
check_literal p host dns none = check_answer p dns
check_literal p host dns (some f) =
    let a : Address = record { address = host; family = f } in
    if is_private_address p a then private_literal else targets (a ∷ [])

abbrev is_local_name : Text → Bool
is_local_name host =
    text_eq host (codes "localhost")
    || ends_with (codes ".localhost") host
    || ends_with (codes ".local") host

-- `resolveAndValidate`; `dns` is what a look-up of the host answers now.
unfoldable pub resolve_and_validate :
    Platform → (dns : Text → Option (List DnsRecord)) → Text → Resolved
unfolding check_literal ip_family
resolve_and_validate p dns [] = no_hostname
resolve_and_validate p dns (c ∷ s) =
    if is_local_name (to_lower (c ∷ s))
    then local_name
    else check_literal p (c ∷ s) (dns (c ∷ s)) (ip_family p (c ∷ s))

abbrev pub is_http : Url → Bool
is_http u = text_eq u.protocol (codes "http:") || text_eq u.protocol (codes "https:")

pub data UrlVerdict : Type 0 where
  safe invalid_url bad_scheme : UrlVerdict
  unsafe_host : Resolved → UrlVerdict

verdict_of : Resolved → UrlVerdict
verdict_of (targets ts) = safe
verdict_of r = unsafe_host r

-- `checkSafeOutboundUrl`
unfoldable pub check_safe_outbound_url :
    Platform → (dns : Text → Option (List DnsRecord)) → Text → UrlVerdict
unfolding verdict_of resolve_and_validate
check_safe_outbound_url p dns raw = elim (p.new_url raw none) [
  | none ↦ invalid_url
  | some u ↦ if is_http u then verdict_of (resolve_and_validate p dns u.hostname) else bad_scheme
]

is_refused : Resolved → Bool
is_refused (targets ts) = false
is_refused r = true

-- `isPrivateHost`
unfoldable pub is_private_host : Platform → (dns : Text → Option (List DnsRecord)) → Text → Bool
unfolding is_refused resolve_and_validate
is_private_host p dns host = is_refused (resolve_and_validate p dns host)
