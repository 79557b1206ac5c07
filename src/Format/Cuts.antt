-- ===== src/Format/Cuts.antt =====
-- web/src/lib/rss/format.ts, `truncate`: the length of its result.
use mathlib.Core.List.{reverse}
use simple_rss_notifications.Base.{
  ℕ, ◌+◌, ◌≤◌, ◌≡◌, [], ◌∷◌, Text, length, take, arith, length-append, length-take,
}
use simple_rss_notifications.Base.Strings.{trim_end, trim_start}
use simple_rss_notifications.Payload.Clip.{ellipsis}
use simple_rss_notifications.Format.{truncate, last_space, cut_at}
use mathlib.Core.List.{reverse_aux}

length-reverse_aux : (s t : Text) → length (reverse_aux s t) ≡ length s + length t
length-reverse_aux [] t = omega arith
length-reverse_aux (c ∷ s) t = omega (arith, length-reverse_aux s (c ∷ t))

length-trim_start : (s : Text) → length (trim_start s) ≤ length s
unfolding trim_start
length-trim_start [] = omega arith
length-trim_start (c ∷ s) = ground (arith, length-trim_start s)

length-trim_end : (s : Text) → length (trim_end s) ≤ length s
unfolding trim_end
length-trim_end s = omega (
  arith,
  length-reverse_aux s [],
  length-trim_start (reverse s),
  length-reverse_aux (trim_start (reverse s)) [],
)

-- A truncated text is at most one unit longer than asked for: the ellipsis comes on top.
pub length-truncate : (text : Text) (n : ℕ) → length (truncate text n) ≤ n + 1
unfolding truncate
length-truncate text n = ground (
  arith,
  length-take n text,
  length-take (cut_at n (last_space (take n text))) (take n text),
  length-trim_end (take (cut_at n (last_space (take n text))) (take n text)),
  length-append (trim_end (take (cut_at n (last_space (take n text))) (take n text)))
      (ellipsis ∷ []),
)
