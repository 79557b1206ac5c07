-- ===== src/Ssrf/Resolve/Targets.antt =====
-- web/src/lib/ssrf.ts: the addresses that a host name is resolved to.
use simple_rss_notifications.Base.{
  ◌≡◌, false, Option, none, some, List, [], ◌∷◌, Text, All, Bool-cases, inl, inr, subst,
}
use simple_rss_notifications.Base.Strings.{to_lower}
use simple_rss_notifications.Ssrf.Resolve.{
  Family, Platform, Address, DnsRecord, Resolved, targets, no_hostname, local_name, private_literal,
  lookup_failed, no_records, unexpected_family, private_record, ip_family, is_private_address,
  family_of, add_target, check_record, check_records, check_answer, check_literal, is_local_name,
  resolve_and_validate,
}

abbrev pub IsPublic : Platform → Address → Type 0
IsPublic p a = is_private_address p a ≡ false

abbrev pub HasPublicTargets : Platform → Resolved → Type 0
HasPublicTargets p (targets ts) = All (IsPublic p) ts
HasPublicTargets p _ = Unit

add_target-HasPublicTargets :
    (p : Platform) (a : Address) (r : Resolved)
    → IsPublic p a
    → HasPublicTargets p r
    → HasPublicTargets p (add_target a r)
unfolding add_target
add_target-HasPublicTargets p a (targets ts) h k = (h, k)
add_target-HasPublicTargets p a no_hostname h k = tt
add_target-HasPublicTargets p a local_name h k = tt
add_target-HasPublicTargets p a private_literal h k = tt
add_target-HasPublicTargets p a lookup_failed h k = tt
add_target-HasPublicTargets p a no_records h k = tt
add_target-HasPublicTargets p a unexpected_family h k = tt
add_target-HasPublicTargets p a private_record h k = tt

check_record-HasPublicTargets :
    (p : Platform) (address : Text) (f : Option Family) (rest : Resolved)
    → HasPublicTargets p rest
    → HasPublicTargets p (check_record p address f rest)
unfolding check_record
check_record-HasPublicTargets p address none rest h = tt
check_record-HasPublicTargets p address (some f) rest h =
    let a : Address = record { address = address; family = f } in
    elim (Bool-cases (is_private_address p a)) [
      | inl bad ↦ rw bad tt
      | inr good ↦ rw good (add_target-HasPublicTargets p a rest good h)
    ]

check_records-HasPublicTargets :
    (p : Platform) (rs : List DnsRecord) → HasPublicTargets p (check_records p rs)
unfolding check_records
check_records-HasPublicTargets p [] = tt
check_records-HasPublicTargets p (r ∷ rs) =
    check_record-HasPublicTargets p r.address (family_of r.family) (check_records p rs)
      (check_records-HasPublicTargets p rs)

check_literal-HasPublicTargets :
    (p : Platform) (host : Text) (answer : Option (List DnsRecord)) (f : Option Family)
    → HasPublicTargets p (check_literal p host answer f)
unfolding check_literal check_answer
check_literal-HasPublicTargets p host none none = tt
check_literal-HasPublicTargets p host (some []) none = tt
check_literal-HasPublicTargets p host (some (r ∷ rs)) none =
    check_records-HasPublicTargets p (r ∷ rs)
check_literal-HasPublicTargets p host answer (some f) =
    let a : Address = record { address = host; family = f } in
    elim (Bool-cases (is_private_address p a)) [
      | inl bad ↦ rw bad tt
      | inr good ↦ rw good (good, tt)
    ]

pub has_public_targets :
    (p : Platform) (dns : Text → Option (List DnsRecord)) (host : Text)
    → HasPublicTargets p (resolve_and_validate p dns host)
unfolding resolve_and_validate
has_public_targets p dns [] = tt
has_public_targets p dns (c ∷ s) = elim (Bool-cases (is_local_name (to_lower (c ∷ s)))) [
  | inl local ↦ rw local tt
  | inr other ↦
      rw other (check_literal-HasPublicTargets p (c ∷ s) (dns (c ∷ s)) (ip_family p (c ∷ s)))
]

-- Every address that a host is resolved to is public, whatever the DNS answers.
pub resolve_and_validate-IsPublic :
    (p : Platform) (dns : Text → Option (List DnsRecord)) (host : Text) (ts : List Address)
    → resolve_and_validate p dns host ≡ targets ts
    → All (IsPublic p) ts
resolve_and_validate-IsPublic p dns host ts h =
    subst (HasPublicTargets p) h (has_public_targets p dns host)
