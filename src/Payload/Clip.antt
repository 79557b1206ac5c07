-- ===== src/Payload/Clip.antt =====
-- normalize.ts: `wellFormed` and `clip`, on UTF-16 code units.
pub mod Laws
use simple_rss_notifications.Base.{
  ℕ, ◌-◌, Bool, true, false, not, ◌&&◌, ◌||◌, List, [], ◌∷◌, ◌++◌, Text, ltb, leb, ◌==◌, ◌≡◌, ◌≢◌,
  if◌then◌else◌, length, take,
}

abbrev pub is_high : ℕ → Bool
is_high c = leb 0xd800 c && leb c 0xdbff

abbrev pub is_low : ℕ → Bool
is_low c = leb 0xdc00 c && leb c 0xdfff

-- `s.replace(/\u0000/g, '')`
unfoldable pub drop_nul : Text → Text
drop_nul [] = []
drop_nul (c ∷ s) = if c == 0 then drop_nul s else c ∷ drop_nul s

abbrev pub starts_low : Text → Bool
starts_low [] = false
starts_low (c ∷ s) = is_low c

-- A half that the pattern LONE_SURROGATE matches, `after_high` telling of the unit before it.
abbrev pub is_lone : Bool → ℕ → Text → Bool
is_lone after_high c s = (is_high c && not (starts_low s)) || (is_low c && not after_high)

-- `replace(LONE_SURROGATE, '\uFFFD')`
unfoldable pub replace_lone : Bool → Text → Text
replace_lone after_high [] = []
replace_lone after_high (c ∷ s) =
    (if is_lone after_high c s then 0xfffd else c) ∷ replace_lone (is_high c) s

unfoldable pub well_formed : Text → Text
unfolding drop_nul replace_lone
well_formed s = replace_lone false (drop_nul s)

abbrev pub ellipsis : ℕ
ellipsis = 0x2026

unfoldable pub clip : Text → ℕ → Text
unfolding well_formed
clip s max_length =
    let clean = well_formed s in
    if ltb max_length (length clean)
    then well_formed (take (max_length - 1) clean) ++ ellipsis ∷ []
    else clean

-- No NUL, and each half of a surrogate pair is next to its other half.
unfoldable pub IsWellFormedAfter : Bool → Text → Type 0
IsWellFormedAfter after_high [] = Unit
IsWellFormedAfter after_high (c ∷ s) =
    (c ≢ 0) × is_lone after_high c s ≡ false × IsWellFormedAfter (is_high c) s
