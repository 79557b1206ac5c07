-- ===== src/Payload/Body.antt =====
-- normalize.ts, `readBodyLimited`: the body of a request in chunks of bytes. `none` for the chunks
-- where the request has no body; `declared` is `Number` of the content-length header.
use simple_rss_notifications.Base.{
  ℕ, ◌+◌, ◌*◌, ◌^◌, ◌≤◌, ◌≡◌, Bool, false, not, ◌&&◌, Option, none, some, List, [], ◌∷◌, ◌++◌, Text,
  ltb, length, if◌then◌else◌, arith, length-append,
}
use simple_rss_notifications.Payload.Json.{Number, finite, infinite, nan}
use simple_rss_notifications.Payload.Runtime.{Runtime}

pub data BodyResult : Type 0 where
  body_text : Text → BodyResult
  body_too_large : BodyResult

-- `Number.isFinite(n) && n > max`
unfoldable pub declares_over : Number → ℕ → Bool
declares_over (finite negative m k) max_bytes = not negative && ltb (max_bytes * 2 ^ k) m
declares_over (infinite negative) max_bytes = false
declares_over nan max_bytes = false

abbrev pub concat : List Text → Text
concat [] = []
concat (c ∷ cs) = c ++ concat cs

-- The loop: `none` where it cancels the reader, else the chunks it has kept.
unfoldable pub read_chunks : ℕ → ℕ → List Text → Option (List Text)
read_chunks max_bytes total [] = some []
read_chunks max_bytes total (c ∷ cs) =
    let rest = read_chunks max_bytes (total + length c) cs in
    if ltb max_bytes (total + length c) then none else kept c rest
  where
    kept : Text → Option (List Text) → Option (List Text)
    kept c none = none
    kept c (some ds) = some (c ∷ ds)

-- The chunks copied behind each other into one buffer, and decoded.
abbrev decoded : Runtime → Option (List Text) → BodyResult
decoded rt none = body_too_large
decoded rt (some cs) = body_text (rt.decode_utf8 (concat cs))

unfoldable pub read_body_limited : Runtime → ℕ → Number → Option (List Text) → BodyResult
unfolding declares_over read_chunks
read_body_limited rt max_bytes declared chunks =
    if declares_over declared max_bytes
    then body_too_large
    else elim chunks [ none ↦ body_text [] | some cs ↦ decoded rt (read_chunks max_bytes 0 cs) ]

read_chunks_all :
    (max_bytes total : ℕ) (cs : List Text)
    → total ≤ max_bytes
    → read_chunks max_bytes total cs
      ≡ (if ltb max_bytes (total + length (concat cs)) then none else some cs)
unfolding read_chunks
read_chunks_all max_bytes total [] h = ground arith
read_chunks_all max_bytes total (c ∷ cs) h =
    ground (arith, length-append c (concat cs), read_chunks_all max_bytes (total + length c) cs)

-- A body whose declared length is not over the limit is refused exactly when its bytes are more than
-- the limit, however they come in chunks; else the text is all of its bytes decoded, in order.
pub read_body_limited_result :
    (rt : Runtime) (max_bytes : ℕ) (declared : Number) (cs : List Text)
    → declares_over declared max_bytes ≡ false
    → read_body_limited rt max_bytes declared (some cs) ≡ (
        if ltb max_bytes (length (concat cs))
        then body_too_large
        else body_text (rt.decode_utf8 (concat cs)))
unfolding read_body_limited
read_body_limited_result rt max_bytes declared cs h =
    ground (arith, read_chunks_all max_bytes 0 cs (omega arith))
