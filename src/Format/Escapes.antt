-- ===== src/Format/Escapes.antt =====
-- web/src/lib/rss/format.ts: `escapeText` against `decodeEntities`.
use simple_rss_notifications.Base.{
  ℕ, ◌≡◌, refl, ◌∙◌, false, Option, some, [], ◌∷◌, ◌++◌, Text, ◌==◌, ==_iff, if◌then◌else◌,
  if_holds,
}
use simple_rss_notifications.Base.Strings.{codes}
use simple_rss_notifications.Payload.Values.{escape_text}
use simple_rss_notifications.Payload.Values.Html.{html_unit, html_units, escape_text_units}
use simple_rss_notifications.Format.{
  decode_from, decode_entities, emitted, both, run_of, ends_at, lookup_entity,
}

abbrev after : ℕ → Text → Option Text
unfolding decode_from
after c s = both (some (c ∷ [])) (decode_from 0 s)

decode_amp : (s : Text) → decode_from 0 (codes "&amp;" ++ s) ≡ after b'&' s
unfolding decode_from run_of ends_at lookup_entity
decode_amp s = refl

decode_lt : (s : Text) → decode_from 0 (codes "&lt;" ++ s) ≡ after b'<' s
unfolding decode_from run_of ends_at lookup_entity
decode_lt s = refl

decode_gt : (s : Text) → decode_from 0 (codes "&gt;" ++ s) ≡ after b'>' s
unfolding decode_from run_of ends_at lookup_entity
decode_gt s = refl

decode_plain : (c : ℕ) (s : Text) → (c == b'&') ≡ false → decode_from 0 (c ∷ s) ≡ after c s
unfolding decode_from emitted
decode_plain c s h = rw h refl

decode_unit : (c : ℕ) (s : Text) → decode_from 0 (html_unit c ++ s) ≡ after c s
unfolding html_unit
decode_unit c s =
    if_holds (λ (u : Text). decode_from 0 (u ++ s) ≡ after c s) (c == b'&') (codes "&amp;")
      (if c == b'<' then codes "&lt;" else if c == b'>' then codes "&gt;" else c ∷ [])
      (λ e. rw ((==_iff c b'&').0 e) (decode_amp s))
      (λ e.
        if_holds (λ (u : Text). decode_from 0 (u ++ s) ≡ after c s) (c == b'<') (codes "&lt;")
          (if c == b'>' then codes "&gt;" else c ∷ [])
          (λ e'. rw ((==_iff c b'<').0 e') (decode_lt s))
          (λ e'.
            if_holds (λ (u : Text). decode_from 0 (u ++ s) ≡ after c s) (c == b'>') (codes "&gt;")
              (c ∷ []) (λ e''. rw ((==_iff c b'>').0 e'') (decode_gt s))
              (λ e''. decode_plain c s e)))

decode_units : (s : Text) → decode_from 0 (html_units s) ≡ some s
unfolding decode_from
decode_units [] = refl
decode_units (c ∷ s) = decode_unit c (html_units s) ∙ rw (decode_units s) refl

-- What `escapeText` writes `decodeEntities` reads back: every text is the decoding of its escaping,
-- which throws nothing.
pub decode_entities-escape_text : (s : Text) → decode_entities (escape_text s) ≡ some s
unfolding decode_entities
decode_entities-escape_text s = rw (escape_text_units s) (decode_units s)
