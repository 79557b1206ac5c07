-- ===== src/Payload/Normalize/Emptiness.antt =====
-- normalize.ts, `normalizeHook`: when there is nothing to store.
use simple_rss_notifications.Base.{
  ℕ, ◌≡◌, refl, ap, ◌∙◌, true, ◌&&◌, [], ◌∷◌, Text, arith, get_or, &&-eq-true,
}
use simple_rss_notifications.Base.Strings.{trim}
use simple_rss_notifications.Payload.Json.{Json, Fields}
use simple_rss_notifications.Payload.Runtime.{Runtime}
use simple_rss_notifications.Payload.Clip.{clip}
use simple_rss_notifications.Payload.Fields.{is_empty, or_else}
use simple_rss_notifications.Payload.Raw.{try_parse_json}
use simple_rss_notifications.Payload.Normalize.Discord.{
  NormalizedHook, Meta, max_title_chars, max_body_chars, from_discord,
}
use simple_rss_notifications.Payload.Normalize.{
  HookInput, read_meta, from_generic, from_other_json, from_text, normalize_hook, with_tags,
}
use simple_rss_notifications.Payload.Normalize.Cases.{normalize_parsed_holds}

is_empty_nil : (s : Text) → is_empty s ≡ true → s ≡ []
is_empty_nil [] h = refl
is_empty_nil (c ∷ s) h = ground arith

clip_empty : (s : Text) (n : ℕ) → is_empty s ≡ true → clip s n ≡ []
unfolding clip
clip_empty [] n h = ground arith
clip_empty (c ∷ s) n h = ground arith

or_else_empty : (s t : Text) → is_empty s ≡ true → or_else s t ≡ t
or_else_empty [] t h = refl
or_else_empty (c ∷ s) t h = ground arith

clip-or_else : (s t : Text) (n : ℕ) → is_empty s ≡ true → clip (or_else s t) n ≡ clip t n
clip-or_else s t n h = ap (λ u. clip u n) (or_else_empty s t h)

text_blank :
    (title body feed_name : Text)
    → (is_empty body && is_empty title) ≡ true
    → (clip (or_else title feed_name) max_title_chars ≡ clip feed_name max_title_chars)
      × (clip body max_body_chars ≡ [])
text_blank title body feed_name h = (
  clip-or_else title feed_name max_title_chars (&&-eq-true (is_empty body) (is_empty title) h).1,
  clip_empty body max_body_chars (&&-eq-true (is_empty body) (is_empty title) h).0,
)

generic_blank :
    (title body feed_name : Text)
    → (is_empty title && is_empty body) ≡ true
    → (clip (or_else title feed_name) max_title_chars ≡ clip feed_name max_title_chars)
      × (clip body max_body_chars ≡ [])
generic_blank title body feed_name h = text_blank title body feed_name (ground arith)

discord_blank :
    (title username body feed_name : Text)
    → (is_empty body && is_empty title && is_empty username) ≡ true
    → (clip (or_else title (or_else username feed_name)) max_title_chars
        ≡ clip feed_name max_title_chars)
      × (body ≡ [])
discord_blank title username body feed_name h = (
  clip-or_else title (or_else username feed_name) max_title_chars (ground arith)
      ∙ clip-or_else username feed_name max_title_chars (ground arith),
  is_empty_nil body (ground arith),
)

-- Nothing but the name of the feed, where the result is empty.
IsBlank : Text → NormalizedHook → Type 0
IsBlank feed_name n = n.empty ≡ true → (n.title ≡ clip feed_name max_title_chars) × (n.body ≡ [])

from_text-IsBlank :
    (rt : Runtime) (input : HookInput) (meta : Meta)
    → IsBlank input.feed_name (from_text rt input meta)
unfolding from_text IsBlank
from_text-IsBlank rt input meta h =
    text_blank meta.title (with_tags (trim input.body) meta.tags) input.feed_name h

from_generic-IsBlank :
    (rt : Runtime) (input : HookInput) (meta : Meta) (o : Fields)
    → IsBlank input.feed_name (from_generic rt input meta o)
unfolding from_generic IsBlank
from_generic-IsBlank rt input meta o h = generic_blank _ _ input.feed_name h

from_discord-IsBlank :
    (rt : Runtime) (o : Fields) (meta : Meta) (feed_name raw_body : Text) (now : ℕ)
    → IsBlank feed_name (from_discord rt o meta feed_name raw_body now)
unfolding from_discord IsBlank
from_discord-IsBlank rt o meta feed_name raw_body now h = discord_blank _ _ _ feed_name h

from_other_json-IsBlank :
    (rt : Runtime) (input : HookInput) (meta : Meta) (v : Json)
    → IsBlank input.feed_name (from_other_json rt input meta v)
unfolding from_other_json IsBlank
from_other_json-IsBlank rt input meta v h = ground arith

hook-IsBlank :
    (rt : Runtime) (input : HookInput) → IsBlank input.feed_name (normalize_hook rt input)
unfolding normalize_hook
hook-IsBlank rt input =
    normalize_parsed_holds (IsBlank input.feed_name) rt input (read_meta rt input)
      (try_parse_json rt input.body (get_or input.content_type []))
      (from_text-IsBlank rt input (read_meta rt input))
      (λ o e. from_discord-IsBlank rt o (read_meta rt input) input.feed_name input.body input.now)
      (λ o e. from_generic-IsBlank rt input (read_meta rt input) o)
      (λ w e. from_other_json-IsBlank rt input (read_meta rt input) w)

-- A request that is found empty, and so is refused, would have been an item with the name of the feed
-- for its title and no body.
pub normalize_hook_empty :
    (rt : Runtime) (input : HookInput)
    → (normalize_hook rt input).empty ≡ true
    → ((normalize_hook rt input).title ≡ clip input.feed_name max_title_chars)
      × ((normalize_hook rt input).body ≡ [])
unfolding IsBlank
normalize_hook_empty rt input h = hook-IsBlank rt input h
