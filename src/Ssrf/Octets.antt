-- ===== src/Ssrf/Octets.antt =====
-- Printing an IPv4 address and reading it again, as the IPv6 classes do for an embedded address.
use simple_rss_notifications.Base.{
  ℕ, ◌+◌, ◌-◌, ◌*◌, ◌/◌, ◌%◌, ◌≤◌, ◌<◌, ◌≡◌, refl, ◌∙◌, ap, Bool, true, not, some, [], ◌∷◌, ◌++◌,
  Text, ltb, ◌==◌, all, arith, Bool-cases, inl, inr,
}
use simple_rss_notifications.Base.Strings.{is_digit, is_space, trim_start, decimal_from}
use simple_rss_notifications.Ssrf.{
  split, split_first, digits_prefix, digits_value, signed, parse_int, is_private_octets,
  is_private_parts, is_private_v4, octet_text, dotted,
}
use simple_rss_notifications.Ssrf.Ipv6.{is_private_bytes}

abbrev lacks : ℕ → Text → Bool
lacks c s = all (λ x. not (x == c)) s

split-lacks : (c : ℕ) (s : Text) → lacks c s ≡ true → split c s ≡ s ∷ []
unfolding split split_first
split-lacks c [] h = refl
split-lacks c (x ∷ s) h = rw (split-lacks c s (ground arith)) (ground arith)

split-append : (c : ℕ) (s t : Text) → lacks c s ≡ true → split c (s ++ c ∷ t) ≡ s ∷ split c t
unfolding split split_first
split-append c [] t h = ground arith
split-append c (x ∷ s) t h = rw (split-append c s t (ground arith)) (ground arith)

octet_text-lacks : (n : ℕ) → n ≤ 255 → lacks b'.' (octet_text n) ≡ true
unfolding octet_text
octet_text-lacks n h = ground arith

parse_int-digit :
    (d : ℕ) (s : Text) → d ≤ 9 → parse_int ((48 + d) ∷ s) ≡ some (decimal_from d (digits_prefix s))
unfolding parse_int trim_start is_space signed digits_prefix digits_value decimal_from
parse_int-digit d s h =
    let digit : is_digit (48 + d) ≡ true = ground arith in
    let back : 10 * 0 + (48 + d - 48) ≡ d = omega arith in ground (arith, digit, back)

digits_prefix-digit :
    (d : ℕ) (s : Text) → d ≤ 9 → digits_prefix ((48 + d) ∷ s) ≡ (48 + d) ∷ digits_prefix s
unfolding digits_prefix
digits_prefix-digit d s h = ground arith

two_digits : (n : ℕ) → n < 100 → parse_int ((48 + n / 10) ∷ (48 + n % 10) ∷ []) ≡ some n
unfolding decimal_from digits_prefix
two_digits n h =
    parse_int-digit (n / 10) _ (omega arith)
    ∙ ap (λ s. some (decimal_from (n / 10) s)) (digits_prefix-digit (n % 10) [] (omega arith))
    ∙ ap some (omega arith)

three_digits :
    (n : ℕ)
    → n ≤ 255
    → parse_int ((48 + n / 100) ∷ (48 + n / 10 % 10) ∷ (48 + n % 10) ∷ []) ≡ some n
unfolding decimal_from digits_prefix
three_digits n h =
    parse_int-digit (n / 100) _ (omega arith)
    ∙ ap (λ s. some (decimal_from (n / 100) s))
        (digits_prefix-digit (n / 10 % 10) ((48 + n % 10) ∷ []) (omega arith)
          ∙ ap (◌∷◌ (48 + n / 10 % 10)) (digits_prefix-digit (n % 10) [] (omega arith)))
    ∙ ap some (omega arith)

parse_int-octet_text : (n : ℕ) → n ≤ 255 → parse_int (octet_text n) ≡ some n
unfolding octet_text
parse_int-octet_text n h = elim (Bool-cases (ltb n 10)) [
  | inl one ↦
      rw one (parse_int-digit n [] (ground arith) ∙ unfold digits_prefix decimal_from in refl)
  | inr more ↦ elim (Bool-cases (ltb n 100)) [
    | inl two ↦ rw (more, two) (two_digits n (ground arith))
    | inr three ↦ rw (more, three) (three_digits n h)
  ]
]

-- A printed IPv4 address is private exactly where its first two octets are in a listed range.
pub is_private_v4-dotted :
    (a b c d : ℕ)
    → a ≤ 255
    → b ≤ 255
    → c ≤ 255
    → d ≤ 255
    → is_private_v4 (dotted a b c d) ≡ is_private_octets a b
unfolding is_private_v4 dotted is_private_parts
is_private_v4-dotted a b c d ha hb hc hd =
    rw
      (
        split-append b'.' (octet_text a)
            (octet_text b ++ b'.' ∷ (octet_text c ++ b'.' ∷ octet_text d)) (octet_text-lacks a ha),
        split-append b'.' (octet_text b) (octet_text c ++ b'.' ∷ octet_text d)
            (octet_text-lacks b hb),
        split-append b'.' (octet_text c) (octet_text d) (octet_text-lacks c hc),
        split-lacks b'.' (octet_text d) (octet_text-lacks d hd),
        parse_int-octet_text a ha,
        parse_int-octet_text b hb,
        parse_int-octet_text c hc,
        parse_int-octet_text d hd,
      )
      (ground arith)

-- An IPv6 address that carries an IPv4 address, mapped (`::ffff:a.b.c.d`), NAT64
-- (`64:ff9b::a.b.c.d`) or 6to4 (`2002:aabb:ccdd::`), is private exactly where that address is.
pub is_private_bytes-embedded :
    (a b c d : ℕ)
    → a ≤ 255
    → b ≤ 255
    → c ≤ 255
    → d ≤ 255
    → (is_private_bytes (0 ∷ 0 ∷ 0 ∷ 0 ∷ 0 ∷ 0 ∷ 0 ∷ 0 ∷ 0 ∷ 0 ∷ 255 ∷ 255 ∷ a ∷ b ∷ c ∷ d ∷ [])
        ≡ is_private_octets a b)
      × (is_private_bytes
            (0 ∷ 0x64 ∷ 255 ∷ 0x9b ∷ 0 ∷ 0 ∷ 0 ∷ 0 ∷ 0 ∷ 0 ∷ 0 ∷ 0 ∷ a ∷ b ∷ c ∷ d ∷ [])
          ≡ is_private_octets a b)
      × (is_private_bytes (0x20 ∷ 2 ∷ a ∷ b ∷ c ∷ d ∷ 0 ∷ 0 ∷ 0 ∷ 0 ∷ 0 ∷ 0 ∷ 0 ∷ 0 ∷ 0 ∷ 0 ∷ [])
          ≡ is_private_octets a b)
unfolding is_private_bytes
is_private_bytes-embedded a b c d ha hb hc hd =
    let same = is_private_v4-dotted a b c d ha hb hc hd in (same, same, same)
