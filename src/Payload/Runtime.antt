-- ===== src/Payload/Runtime.antt =====
-- What normalize.ts calls of the JavaScript runtime: conversions between numbers and text,
-- `JSON.parse` and `JSON.stringify`, `new URL`, `new Date` and the UTF-8 decoder.
use simple_rss_notifications.Base.{ℕ, Option, List, Text}
use simple_rss_notifications.Base.Integers.{ℤ}
use simple_rss_notifications.Payload.Json.{Json, Number}

pub record ParsedUrl : Type 0 where
  pub protocol : Text
  pub hostname : Text
  pub href : Text

pub record Runtime : Type 0 where
  -- `Number(s)`, `String(n)`
  pub read_number : Text → Number
  pub show_number : Number → Text
  -- `none` where `JSON.parse` throws
  pub parse_json : Text → Option Json
  pub stringify : Json → Text
  -- `JSON.stringify(v, null, 2)`
  pub stringify_pretty : Json → Text
  -- `none` where `new URL` throws
  pub parse_url : Text → Option ParsedUrl
  -- `new Date(s).getTime()`, `none` for NaN, and the year of `getUTCFullYear`
  pub parse_time : Text → Option ℤ
  pub utc_year : ℤ → ℤ
  pub decode_utf8 : List ℕ → Text
