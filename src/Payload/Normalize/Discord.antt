-- ===== src/Payload/Normalize/Discord.antt =====
-- normalize.ts: the shape of a normalised payload, and `isDiscord` and `fromDiscord`.
use simple_rss_notifications.Base.{
  ℕ, Bool, true, false, not, ◌&&◌, ◌||◌, Option, none, some, List, [], ◌∷◌, ◌++◌, map, Text,
  if◌then◌else◌, get_or, take, select,
}
use simple_rss_notifications.Base.Strings.{codes}
use simple_rss_notifications.Base.Integers.{ℤ}
use simple_rss_notifications.Payload.Json.{Json, Fields, string, object, array, member, elements}
use simple_rss_notifications.Payload.Runtime.{Runtime}
use simple_rss_notifications.Payload.Clip.{clip}
use simple_rss_notifications.Payload.Fields.{
  Priority, level, is_empty, or_else, str, safe_url, parse_priority,
}
use simple_rss_notifications.Payload.Values.{parse_color, parse_date}
use simple_rss_notifications.Payload.Raw.{build_raw, contains}

pub data HookSource : Type 0 where
  discord json text ntfy : HookSource

pub record NormalizedHook : Type 0 where
  pub title : Text
  pub body : Text
  pub url : Option Text
  pub priority : Priority
  pub color : Option Text
  pub source : HookSource
  pub published_at : Option ℤ
  pub raw : Json
  pub empty : Bool

pub record Meta : Type 0 where
  pub title : Text
  pub priority : Option Priority
  pub tags : List Text
  pub click : Text
  pub present : Bool

abbrev pub max_title_chars : ℕ
max_title_chars = 250

abbrev pub max_body_chars : ℕ
max_body_chars = 20000

-- `parts.join(sep)`
unfoldable pub join : Text → List Text → Text
join sep [] = []
join sep (t ∷ []) = t
join sep (t ∷ u ∷ ts) = t ++ sep ++ join sep (u ∷ ts)

-- `a ?? b`
unfoldable pub or_priority : Option Priority → Option Priority → Option Priority
or_priority none b = b
or_priority (some a) b = some a

abbrev pub is_array : Option Json → Bool
is_array (some (array vs)) = true
is_array _ = false

abbrev pub is_string : Option Json → Bool
is_string (some (string s)) = true
is_string _ = false

unfoldable pub is_discord : Fields → Bool
unfolding member
is_discord o =
    is_array (member (codes "embeds") o)
    || is_string (member (codes "content") o)
    || is_string (member (codes "username") o)
    || is_string (member (codes "avatar_url") o)

-- `.filter(isObj)`
unfoldable pub objects : List Json → List Fields
objects [] = []
objects (object o ∷ vs) = o ∷ objects vs
objects (_ ∷ vs) = objects vs

-- `(Array.isArray(v) ? v : []).filter(isObj)`
unfoldable pub object_list : Option Json → List Fields
unfolding objects elements
object_list (some (array vs)) = objects (elements vs)
object_list _ = []

abbrev pub text_of : Runtime → Fields → Text → Text
unfolding str member
text_of rt o k = str rt (member k o)

unfoldable pub field_line : Runtime → Fields → Text
unfolding str member
field_line rt f =
    let name = text_of rt f (codes "name") in
    let value = text_of rt f (codes "value") in
    if is_empty name && is_empty value then [] else name ++ codes ": " ++ value

abbrev pub nonempty : List Text → List Text
nonempty ts = select (λ (t : Text). not (is_empty t)) ts

footer_text : Runtime → Option Json → Text
unfolding str member
footer_text rt (some (object o)) = text_of rt o (codes "text")
footer_text rt _ = []

-- What an embed adds to the body behind its title.
unfoldable pub embed_parts : Runtime → Fields → List Text
unfolding field_line object_list footer_text join
embed_parts rt e = nonempty (
    text_of rt e (codes "description")
    ∷ join (codes "\n") (nonempty (map (field_line rt) (object_list (member (codes "fields") e))))
    ∷ footer_text rt (member (codes "footer") e)
    ∷ [])

-- The embeds behind the first, which start with their titles.
unfoldable pub later_parts : Runtime → List Fields → List Text
unfolding embed_parts
later_parts rt [] = []
later_parts rt (e ∷ es) =
    nonempty (text_of rt e (codes "title") ∷ []) ++ embed_parts rt e ++ later_parts rt es

unfoldable pub body_parts : Runtime → Text → List Fields → List Text
unfolding later_parts
body_parts rt content [] = nonempty (content ∷ [])
body_parts rt content (e ∷ es) = nonempty (content ∷ []) ++ embed_parts rt e ++ later_parts rt es

abbrev searched_texts : Runtime → List Fields → List Text
searched_texts rt [] = []
searched_texts rt (e ∷ es) =
    text_of rt e (codes "title") ∷ text_of rt e (codes "description") ∷ searched_texts rt es

unfoldable pub mentions_all : Runtime → Text → List Fields → Bool
unfolding contains join str member
mentions_all rt content embeds =
    let searched = join (codes "\n") (content ∷ searched_texts rt embeds) in
    contains (codes "@everyone") searched || contains (codes "@here") searched

-- A field of the first embed, `none` for undefined and where there is no embed.
abbrev pub of_first : Text → List Fields → Option Json
unfolding member
of_first k [] = none
of_first k (e ∷ es) = member k e

unfoldable pub from_discord : Runtime → Fields → Meta → Text → Text → ℕ → NormalizedHook
unfolding object_list str body_parts clip safe_url parse_priority or_priority mentions_all
    parse_color parse_date build_raw join
from_discord rt o meta feed_name raw_body now =
    let embeds = take 10 (object_list (member (codes "embeds") o)) in
    let content = text_of rt o (codes "content") in
    let embed_title = str rt (of_first (codes "title") embeds) in
    let username = text_of rt o (codes "username") in
    let body = clip (join (codes "\n\n") (body_parts rt content embeds)) max_body_chars in
    let mention = mentions_all rt content embeds in
    record {
      title = clip (or_else embed_title (or_else username feed_name)) max_title_chars;
      body = body;
      url = safe_url rt (str rt (of_first (codes "url") embeds));
      priority =
          get_or (or_priority (parse_priority rt (member (codes "priority") o)) meta.priority)
            (level (if mention then 4 else 3));
      color = parse_color rt (of_first (codes "color") embeds);
      source = discord;
      published_at = parse_date rt now (of_first (codes "timestamp") embeds);
      raw = build_raw rt (some (object o)) raw_body;
      empty = is_empty body && is_empty embed_title && is_empty username;
    }
