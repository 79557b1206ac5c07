-- ===== src/Payload/Clip/Laws.antt =====
-- normalize.ts: what `wellFormed` and `clip` keep to.
use simple_rss_notifications.Base.{
  ℕ, ◌-◌, ◌≤◌, ◌≡◌, ◌≢◌, refl, Bool, true, false, [], ◌∷◌, ◌++◌, Text, if◌then◌else◌, length, take,
  arith, length-append, length-take,
}
use simple_rss_notifications.Payload.Clip.{
  is_high, starts_low, is_lone, drop_nul, replace_lone, well_formed, ellipsis, clip,
  IsWellFormedAfter,
}

abbrev HasNoNul : Text → Type 0
HasNoNul [] = Unit
HasNoNul (c ∷ s) = (c ≢ 0) × HasNoNul s

drop_nul-HasNoNul : (s : Text) → HasNoNul (drop_nul s)
unfolding drop_nul
drop_nul-HasNoNul [] = tt
drop_nul-HasNoNul (c ∷ s) = ground (arith, drop_nul-HasNoNul s)

length-replace_lone : (b : Bool) (s : Text) → length (replace_lone b s) ≡ length s
unfolding replace_lone
length-replace_lone b [] = refl
length-replace_lone b (c ∷ s) = omega (arith, length-replace_lone (is_high c) s)

length-drop_nul : (s : Text) → length (drop_nul s) ≤ length s
unfolding drop_nul
length-drop_nul [] = ground arith
length-drop_nul (c ∷ s) = ground (arith, length-drop_nul s)

pub length-well_formed : (s : Text) → length (well_formed s) ≤ length s
unfolding well_formed
length-well_formed s = omega (arith, length-drop_nul s, length-replace_lone false (drop_nul s))

starts_low-replace_lone : (s : Text) → starts_low s ≡ true → starts_low (replace_lone true s) ≡ true
unfolding replace_lone
starts_low-replace_lone [] h = ground arith
starts_low-replace_lone (c ∷ s) h = ground arith

-- A half kept after a high half, or after anything else.
replace_lone-IsWellFormedAfter :
    (b b' : Bool) (s : Text)
    → (starts_low s ≡ true → b ≡ b')
    → HasNoNul s
    → IsWellFormedAfter b' (replace_lone b s)
unfolding replace_lone IsWellFormedAfter
replace_lone-IsWellFormedAfter b b' [] k h = tt
replace_lone-IsWellFormedAfter b b' (c ∷ s) k h = ground (
  arith,
  starts_low-replace_lone s,
  replace_lone-IsWellFormedAfter (is_high c) (is_high (if is_lone b c s then 0xfffd else c)) s,
)

pub well_formed-IsWellFormed : (s : Text) → IsWellFormedAfter false (well_formed s)
unfolding well_formed
well_formed-IsWellFormed s =
    replace_lone-IsWellFormedAfter false false (drop_nul s) (λ h. refl) (drop_nul-HasNoNul s)

replace_lone_same : (b : Bool) (s : Text) → IsWellFormedAfter b s → replace_lone b s ≡ s
unfolding replace_lone IsWellFormedAfter
replace_lone_same b [] h = refl
replace_lone_same b (c ∷ s) h = ground (arith, replace_lone_same (is_high c) s)

drop_nul_same : (b : Bool) (s : Text) → IsWellFormedAfter b s → drop_nul s ≡ s
unfolding drop_nul IsWellFormedAfter
drop_nul_same b [] h = refl
drop_nul_same b (c ∷ s) h = ground (arith, drop_nul_same (is_high c) s)

pub well_formed_same : (s : Text) → IsWellFormedAfter false s → well_formed s ≡ s
unfolding well_formed
well_formed_same s h = cc (drop_nul_same false s h, replace_lone_same false s h)

IsWellFormedAfter-append_ellipsis :
    (b : Bool) (s : Text) → IsWellFormedAfter b s → IsWellFormedAfter b (s ++ ellipsis ∷ [])
unfolding IsWellFormedAfter
IsWellFormedAfter-append_ellipsis b [] h = ground arith
IsWellFormedAfter-append_ellipsis b (c ∷ []) h = ground arith
IsWellFormedAfter-append_ellipsis b (c ∷ d ∷ s) h =
    ground (arith, IsWellFormedAfter-append_ellipsis (is_high c) (d ∷ s))

-- A clipped string is at most as long as asked for, and what `jsonb` and UTF-8 can hold: no NUL, no
-- half of a surrogate pair, also where the cut goes through a pair.
pub clip-IsClipped :
    (s : Text) (n : ℕ) → 1 ≤ n → (length (clip s n) ≤ n) × IsWellFormedAfter false (clip s n)
unfolding clip
clip-IsClipped s n h = ground (
  arith,
  well_formed-IsWellFormed s,
  well_formed-IsWellFormed (take (n - 1) (well_formed s)),
  length-well_formed (take (n - 1) (well_formed s)),
  length-append (well_formed (take (n - 1) (well_formed s))) (ellipsis ∷ []),
  length-take (n - 1) (well_formed s),
  IsWellFormedAfter-append_ellipsis false (well_formed (take (n - 1) (well_formed s))),
)

-- A string that is well formed and short enough is left as it is.
pub clip_same : (s : Text) (n : ℕ) → IsWellFormedAfter false s → length s ≤ n → clip s n ≡ s
unfolding clip
clip_same s n h k = ground (arith, well_formed_same s h)
