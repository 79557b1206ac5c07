-- ===== src/Format/Tests.antt =====
-- Rendering at concrete inputs.
use simple_rss_notifications.Base.{◌≡◌, some}
use simple_rss_notifications.Base.Strings.{codes}
use simple_rss_notifications.Payload.Values.{escape_text}
use simple_rss_notifications.Format.{decode_entities}
use simple_rss_notifications.Format.Escapes.{decode_entities-escape_text}

decode_entities-escape_text_example :
    decode_entities (escape_text (codes "a < b & c")) ≡ some (codes "a < b & c")
decode_entities-escape_text_example = decode_entities-escape_text (codes "a < b & c")
