-- ===== src/Base/Strings.antt =====
-- JavaScript strings as lists of UTF-16 code units, and what the program does with them.
-- `to_lower` changes the ASCII letters only.
use Prim.Native.Char.{code}
use Prim.Native.Nat.{ℕ, ◌+◌, ◌-◌, ◌*◌}
use Prim.Native.String.{String}
use mathlib.Core.Path.{◌≡◌, refl, ap}
use mathlib.Core.Logic.{◌↔◌}
use mathlib.Core.Bool.{Bool, true, false, ◌&&◌, ◌||◌}
use mathlib.Core.List.{[], ◌∷◌, ◌++◌, reverse, reverse-append, map}
use native.Mathlib.Omega.{arith}
use simple_rss_notifications.Base.Tests.{leb, ◌==◌, if◌then◌else◌}
use simple_rss_notifications.Base.Lists.{Text}

abbrev pub codes : String → Text
codes String.[] = []
codes (String.◌∷◌ c s) = code c ∷ codes s

abbrev pub text_eq : Text → Text → Bool
text_eq [] [] = true
text_eq [] (y ∷ ys) = false
text_eq (x ∷ xs) [] = false
text_eq (x ∷ xs) (y ∷ ys) = x == y && text_eq xs ys

pub text_eq_iff : (s t : Text) → (text_eq s t ≡ true) ↔ (s ≡ t)
text_eq_iff [] [] = ground arith
text_eq_iff [] (y ∷ ys) = ground arith
text_eq_iff (x ∷ xs) [] = ground arith
text_eq_iff (x ∷ xs) (y ∷ ys) = ground (arith, text_eq_iff xs ys)

pub text_eq_refl : (s : Text) → text_eq s s ≡ true
text_eq_refl s = (text_eq_iff s s).1 refl

-- `t.startsWith(s)`, `t.endsWith(s)`.
abbrev pub starts_with : Text → Text → Bool
starts_with [] t = true
starts_with (x ∷ xs) [] = false
starts_with (x ∷ xs) (y ∷ ys) = x == y && starts_with xs ys

unfoldable pub ends_with : Text → Text → Bool
ends_with s t = starts_with (reverse s) (reverse t)

abbrev pub is_digit : ℕ → Bool
is_digit c = leb b'0' c && leb c b'9'

abbrev pub is_upper : ℕ → Bool
is_upper c = leb b'A' c && leb c b'Z'

abbrev pub is_lower : ℕ → Bool
is_lower c = leb b'a' c && leb c b'z'

-- White space and line ends, as `trim` and `\s` read them.
unfoldable pub is_space : ℕ → Bool
is_space c =
    (leb 9 c && leb c 13)
    || c == 32
    || c == 160
    || c == 0x1680
    || (leb 0x2000 c && leb c 0x200a)
    || c == 0x2028
    || c == 0x2029
    || c == 0x202f
    || c == 0x205f
    || c == 0x3000
    || c == 0xfeff

abbrev pub lower_unit : ℕ → ℕ
lower_unit c = if is_upper c then c + 32 else c

abbrev pub to_lower : Text → Text
to_lower s = map lower_unit s

unfoldable pub trim_start : Text → Text
unfolding is_space
trim_start [] = []
trim_start (c ∷ s) = if is_space c then trim_start s else c ∷ s

unfoldable pub trim_end : Text → Text
unfolding trim_start
trim_end s = reverse (trim_start (reverse s))

unfoldable pub trim : Text → Text
unfolding trim_end trim_start
trim s = trim_end (trim_start s)

-- The value of a run of digits, most significant first.
unfoldable pub decimal_from : ℕ → Text → ℕ
decimal_from n [] = n
decimal_from n (c ∷ s) = decimal_from (10 * n + (c - b'0')) s

-- Whether a text ends as its last part does.
pub ends_with-append :
    (s p t : Text) → ends_with s (p ++ t) ≡ starts_with (reverse s) (reverse t ++ reverse p)
unfolding ends_with
ends_with-append s p t = ap (starts_with (reverse s)) (reverse-append p t)
