-- ===== src/Ssrf/Tests.antt =====
-- The guard at concrete inputs: a name that resolves to a public address first and to a private one
-- at the next look-up.
use simple_rss_notifications.Base.{
  ℕ, ◌≤◌, ◌+◌, ◌≡◌, refl, true, false, some, List, [], ◌∷◌, ◌==◌, if◌then◌else◌, All, length, arith,
  any, select,
}
use simple_rss_notifications.Base.Strings.{codes, ends_with}
use simple_rss_notifications.Ssrf.{split, parse_int, is_private_octets, is_private_v4}
use simple_rss_notifications.Ssrf.Ipv6.{is_private_bytes, is_private_v6}
use simple_rss_notifications.Ssrf.Octets.{is_private_bytes-embedded}
use simple_rss_notifications.Ssrf.Resolve.{
  Platform, ipv4, DnsRecord, Address, targets, is_private_address, resolve_and_validate,
}
use simple_rss_notifications.Ssrf.Fetch.{World, Hop, Request, want_any, ssrf_blocked, safe_fetch}
use simple_rss_notifications.Ssrf.Fetch.Safety.{
  IsSafe, IsFaithful, safe_fetch-IsSafe, safe_fetch-IsFaithful,
}

abbrev platform : Platform
platform = record {
  is_ipv4 = λ t. length (split b'.' t) == 4;
  is_ipv6 = λ t. any (λ c. c == b':') t;
  new_url = λ t _. some (record { href = t; protocol = codes "http:"; hostname = t });
}

abbrev answer_of : ℕ → List DnsRecord
answer_of n =
    record { address = if n == 0 then codes "93.184.216.34" else codes "10.0.0.1"; family = 4 } ∷ []

abbrev world : World
world = record {
  dns = λ n _. some (answer_of n);
  options = λ _. record { family = want_any; all = true };
  answer = λ n _. some (record { status = 302; location = some (codes "next") });
  aborted = λ _. false;
  byte_length = λ t. codes "4";
}

abbrev post : Hop
post = record {
  url = codes "first";
  method = codes "POST";
  headers = [];
  body = some (codes "text");
}

safe_fetch-IsSafe_example :
    All (IsSafe platform) (safe_fetch platform world 5 post).0
    × (length (safe_fetch platform world 5 post).0 ≤ 5 + 1)
safe_fetch-IsSafe_example = safe_fetch-IsSafe platform world 5 post

safe_fetch-IsFaithful_example :
    All
      (λ (req : Request). IsFaithful post.method post.body req.method req.body)
      (safe_fetch platform world 5 post).0
safe_fetch-IsFaithful_example = safe_fetch-IsFaithful platform world 5 post

-- The redirect is looked up again, and the answer is private.
rebinding_is_blocked :
    ((safe_fetch platform world 5 post).1 ≡ ssrf_blocked)
    × (length (safe_fetch platform world 5 post).0 ≡ 1)
unfolding safe_fetch is_private_v4 split resolve_and_validate ends_with is_private_address select
rebinding_is_blocked = (refl, refl)

is_private_bytes-embedded_example :
    is_private_bytes (0 ∷ 0 ∷ 0 ∷ 0 ∷ 0 ∷ 0 ∷ 0 ∷ 0 ∷ 0 ∷ 0 ∷ 255 ∷ 255 ∷ 127 ∷ 0 ∷ 0 ∷ 1 ∷ [])
    ≡ is_private_octets 127 0
is_private_bytes-embedded_example =
    (is_private_bytes-embedded 127 0 0 1 (omega arith) (omega arith) (omega arith) (omega arith)).0

abbrev public : Address
public = record { address = codes "93.184.216.34"; family = ipv4 }

is_resolved :
    resolve_and_validate platform (λ _. some (answer_of 0)) (codes "host") ≡ targets (public ∷ [])
unfolding resolve_and_validate is_private_v4 split ends_with is_private_address
is_resolved = refl

v6_runs :
    (is_private_v6 platform.is_ipv4 (codes "::ffff:10.1.2.3") ≡ true)
    × (is_private_v6 platform.is_ipv4 (codes "fe80::1%eth0") ≡ true)
    × (is_private_v6 platform.is_ipv4 (codes "2606:4700::1111") ≡ false)
    × (is_private_v6 platform.is_ipv4 (codes "64:ff9b::8.8.8.8") ≡ false)
    × (is_private_v6 platform.is_ipv4 (codes "1:2:3") ≡ true)
unfolding is_private_v6 parse_int is_private_v4
v6_runs = (refl, refl, refl, refl, refl)
