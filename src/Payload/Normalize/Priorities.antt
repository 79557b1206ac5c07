-- ===== src/Payload/Normalize/Priorities.antt =====
-- normalize.ts, `normalizeHook`: the priority of the result, and when there is nothing to store.
use simple_rss_notifications.Base.{
  ℕ, ◌≤◌, ◌≡◌, subst, Bool, false, ◌||◌, Option, none, some, [], Text, arith, get_or,
}
use simple_rss_notifications.Base.Strings.{codes}
use simple_rss_notifications.Payload.Json.{Json, Fields, string, object, member}
use simple_rss_notifications.Payload.Runtime.{Runtime}
use simple_rss_notifications.Payload.Fields.{Priority, level, parse_priority}
use simple_rss_notifications.Payload.Fields.Bounds.{
  IsLevel, names_inherited, parse_priority-IsLevel,
}
use simple_rss_notifications.Payload.Raw.{try_parse_json}
use simple_rss_notifications.Payload.Normalize.Discord.{
  NormalizedHook, Meta, from_discord, or_priority,
}
use simple_rss_notifications.Payload.Normalize.Cases.{normalize_parsed_holds}
use simple_rss_notifications.Payload.Normalize.{
  HookInput, prio_of, read_meta, from_generic, from_other_json, from_text, normalize_parsed,
  normalize_hook,
}

-- The priority of an object, `none` for undefined and where there is no object.
unfoldable member_priority : Option Json → Option Json
unfolding member
member_priority (some (object o)) = member (codes "priority") o
member_priority _ = none

-- The JSON of a request, `none` for undefined.
unfoldable parsed_of : Runtime → HookInput → Option Json
unfolding try_parse_json
parsed_of rt input = try_parse_json rt input.body (get_or input.content_type [])

-- Neither the payload nor the headers and the query name a property that all objects inherit.
unfoldable pub asks_inherited : Runtime → HookInput → Bool
unfolding names_inherited member_priority parsed_of prio_of
asks_inherited rt input =
    names_inherited (some (string (prio_of input)))
    || names_inherited (member_priority (parsed_of rt input))

chosen-IsLevel :
    (a b : Option Priority) (d : ℕ)
    → IsLevel a
    → IsLevel b
    → 1 ≤ d
    → d ≤ 5
    → IsLevel (some (get_or (or_priority a b) (level d)))
unfolding or_priority IsLevel
chosen-IsLevel none none d ha hb h k = (h, k)
chosen-IsLevel none (some p) d ha hb h k = hb
chosen-IsLevel (some p) b d ha hb h k = ha

meta-IsLevel :
    (rt : Runtime) (input : HookInput)
    → names_inherited (some (string (prio_of input))) ≡ false
    → IsLevel (read_meta rt input).priority
unfolding read_meta
meta-IsLevel rt input h = parse_priority-IsLevel rt (some (string (prio_of input))) h

abbrev HasLevel : NormalizedHook → Type 0
HasLevel n = IsLevel (some n.priority)

from_discord-HasLevel :
    (rt : Runtime) (o : Fields) (meta : Meta) (feed_name raw_body : Text) (now : ℕ)
    → IsLevel meta.priority
    → names_inherited (member (codes "priority") o) ≡ false
    → HasLevel (from_discord rt o meta feed_name raw_body now)
unfolding from_discord
from_discord-HasLevel rt o meta feed_name raw_body now h k =
    chosen-IsLevel (parse_priority rt (member (codes "priority") o)) meta.priority _
      (parse_priority-IsLevel rt (member (codes "priority") o) k) h (ground arith) (ground arith)

from_generic-HasLevel :
    (rt : Runtime) (input : HookInput) (meta : Meta) (o : Fields)
    → IsLevel meta.priority
    → names_inherited (member (codes "priority") o) ≡ false
    → HasLevel (from_generic rt input meta o)
unfolding from_generic
from_generic-HasLevel rt input meta o h k =
    chosen-IsLevel (parse_priority rt (member (codes "priority") o)) meta.priority 3
      (parse_priority-IsLevel rt (member (codes "priority") o) k) h (ground arith) (ground arith)

from_other_json-HasLevel :
    (rt : Runtime) (input : HookInput) (meta : Meta) (v : Json)
    → IsLevel meta.priority
    → HasLevel (from_other_json rt input meta v)
unfolding from_other_json or_priority IsLevel
from_other_json-HasLevel rt input meta v h =
    chosen-IsLevel none meta.priority 3 tt h (ground arith) (ground arith)

from_text-HasLevel :
    (rt : Runtime) (input : HookInput) (meta : Meta)
    → IsLevel meta.priority
    → HasLevel (from_text rt input meta)
unfolding from_text or_priority IsLevel
from_text-HasLevel rt input meta h =
    chosen-IsLevel none meta.priority 3 tt h (ground arith) (ground arith)

parsed-HasLevel :
    (rt : Runtime) (input : HookInput) (meta : Meta) (v : Option Json)
    → IsLevel meta.priority
    → names_inherited (member_priority v) ≡ false
    → HasLevel (normalize_parsed rt input meta v)
unfolding member_priority
parsed-HasLevel rt input meta v h k =
    normalize_parsed_holds HasLevel rt input meta v (from_text-HasLevel rt input meta h)
      (λ o e.
        from_discord-HasLevel rt o meta input.feed_name input.body input.now h
          (subst (λ w. names_inherited (member_priority w) ≡ false) e k))
      (λ o e.
        from_generic-HasLevel rt input meta o h
          (subst (λ w. names_inherited (member_priority w) ≡ false) e k))
      (λ w e. from_other_json-HasLevel rt input meta w h)

-- Unless the payload or the headers ask for the priority `constructor` or `__proto__`, the priority
-- of the item is one of the levels 1 to 5.
pub normalize_hook-IsLevel :
    (rt : Runtime) (input : HookInput)
    → asks_inherited rt input ≡ false
    → IsLevel (some (normalize_hook rt input).priority)
unfolding normalize_hook asks_inherited
normalize_hook-IsLevel rt input h =
    parsed-HasLevel rt input (read_meta rt input) (parsed_of rt input)
      (meta-IsLevel rt input (ground arith)) (ground arith)
