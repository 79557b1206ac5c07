-- ===== src/Payload/Json/Depth.antt =====
-- normalize.ts, `exceedsDepth`: the loop over an explicit stack, on fuel. The top of the stack is
-- the head of the list.
use simple_rss_notifications.Base.{
  ℕ, zero, suc, ◌+◌, ◌≤◌, ◌≡◌, ◌<◌, refl, ap, Bool, true, false, not, ◌&&◌, ◌||◌, Option, none,
  some, List, [], ◌∷◌, ltb, if◌then◌else◌, any, arith, get_or,
}
use simple_rss_notifications.Payload.Json.{
  Json, Items, Fields, null, boolean, number, string, array, object, nil, cons, end, field,
  is_container, elements, member_values, depth, size, items_depth, items_size, fields_depth,
  fields_size,
}

-- Each child that is an array or an object is pushed, the last one on top.
unfoldable pub push_children : ℕ → List Json → List (Json × ℕ) → List (Json × ℕ)
push_children d [] stack = stack
push_children d (c ∷ cs) stack =
    push_children d cs (if is_container c then (c, d) ∷ stack else stack)

-- `Array.isArray(x) ? x : Object.values(x)`
unfoldable pub children : Json → List Json
unfolding elements member_values
children (array vs) = elements vs
children (object fs) = member_values fs
children _ = []

unfoldable pub depth_loop : ℕ → ℕ → List (Json × ℕ) → Option Bool
unfolding push_children children
depth_loop fuel max_depth [] = some false
depth_loop zero max_depth (x ∷ stack) = none
depth_loop (suc fuel) max_depth ((x, d) ∷ stack) =
    let skipped = depth_loop fuel max_depth stack in
    let pushed = depth_loop fuel max_depth (push_children (suc d) (children x) stack) in
    if not (is_container x) then skipped else if ltb max_depth d then some true else pushed

unfoldable pub exceeds_depth : ℕ → Json → Bool
unfolding depth_loop size
exceeds_depth max_depth v = get_or (depth_loop (size v) max_depth ((v, 1) ∷ [])) true

-- Whether a value on the stack nests deeper than the limit.
abbrev deeper : ℕ → Json × ℕ → Bool
deeper m (x, d) = is_container x && ltb (suc m) (d + depth x)

abbrev weight : List (Json × ℕ) → ℕ
weight [] = 0
weight ((x, d) ∷ stack) = size x + weight stack

abbrev total_size : List Json → ℕ
total_size [] = 0
total_size (c ∷ cs) = size c + total_size cs

abbrev any_deeper : ℕ → ℕ → List Json → Bool
any_deeper m d [] = false
any_deeper m d (c ∷ cs) = deeper m (c, d) || any_deeper m d cs

size-positive : (v : Json) → 1 ≤ size v
unfolding size
size-positive null = ground arith
size-positive (boolean b) = ground arith
size-positive (number n) = ground arith
size-positive (string s) = ground arith
size-positive (array vs) = omega arith
size-positive (object fs) = omega arith

weight-push_children :
    (d : ℕ) (cs : List Json) (stack : List (Json × ℕ))
    → weight (push_children d cs stack) ≤ total_size cs + weight stack
unfolding push_children
weight-push_children d [] stack = omega arith
weight-push_children d (c ∷ cs) stack =
    ground (arith, weight-push_children d cs ((c, d) ∷ stack), weight-push_children d cs stack)

any_deeper-push_children :
    (m d : ℕ) (cs : List Json) (stack : List (Json × ℕ))
    → any (deeper m) (push_children d cs stack) ≡ (any_deeper m d cs || any (deeper m) stack)
unfolding push_children
any_deeper-push_children m d [] stack = refl
any_deeper-push_children m d (c ∷ cs) stack =
    ground (
      arith,
      any_deeper-push_children m d cs ((c, d) ∷ stack),
      any_deeper-push_children m d cs stack,
    )

total_size-elements : (vs : Items) → total_size (elements vs) ≡ items_size vs
unfolding elements size
total_size-elements nil = refl
total_size-elements (cons v vs) = omega (arith, total_size-elements vs)

total_size-member_values : (fs : Fields) → total_size (member_values fs) ≡ fields_size fs
unfolding member_values size
total_size-member_values end = refl
total_size-member_values (field k v fs) = omega (arith, total_size-member_values fs)

total_size-children : (x : Json) → is_container x ≡ true → suc (total_size (children x)) ≡ size x
unfolding children size
total_size-children (array vs) h = ap suc (total_size-elements vs)
total_size-children (object fs) h = ap suc (total_size-member_values fs)
total_size-children null h = ground arith
total_size-children (boolean b) h = ground arith
total_size-children (number n) h = ground arith
total_size-children (string s) h = ground arith

deeper_child : (m d : ℕ) (v : Json) → d ≤ m → deeper m (v, suc d) ≡ ltb (suc m) (suc d + depth v)
unfolding depth
deeper_child m d (array vs) h = refl
deeper_child m d (object fs) h = refl
deeper_child m d null h = ground arith
deeper_child m d (boolean b) h = ground arith
deeper_child m d (number n) h = ground arith
deeper_child m d (string s) h = ground arith

any_deeper-elements :
    (m d : ℕ) (vs : Items)
    → d ≤ m
    → any_deeper m (suc d) (elements vs) ≡ ltb (suc m) (suc d + items_depth vs)
unfolding elements depth
any_deeper-elements m d nil h = ground arith
any_deeper-elements m d (cons v vs) h =
    ground (arith, deeper_child m d v h, any_deeper-elements m d vs h)

any_deeper-member_values :
    (m d : ℕ) (fs : Fields)
    → d ≤ m
    → any_deeper m (suc d) (member_values fs) ≡ ltb (suc m) (suc d + fields_depth fs)
unfolding member_values depth
any_deeper-member_values m d end h = ground arith
any_deeper-member_values m d (field k v fs) h =
    ground (arith, deeper_child m d v h, any_deeper-member_values m d fs h)

any_deeper-children :
    (m d : ℕ) (x : Json)
    → is_container x ≡ true
    → d ≤ m
    → any_deeper m (suc d) (children x) ≡ deeper m (x, d)
unfolding children depth
any_deeper-children m d (array vs) h k = ground (arith, any_deeper-elements m d vs k)
any_deeper-children m d (object fs) h k = ground (arith, any_deeper-member_values m d fs k)
any_deeper-children m d null h k = ground arith
any_deeper-children m d (boolean b) h k = ground arith
any_deeper-children m d (number n) h k = ground arith
any_deeper-children m d (string s) h k = ground arith

deeper_now : (m d : ℕ) (x : Json) → is_container x ≡ true → m < d → deeper m (x, d) ≡ true
unfolding depth
deeper_now m d (array vs) h k = ground arith
deeper_now m d (object fs) h k = ground arith
deeper_now m d null h k = ground arith
deeper_now m d (boolean b) h k = ground arith
deeper_now m d (number n) h k = ground arith
deeper_now m d (string s) h k = ground arith

deeper_root : (m : ℕ) (v : Json) → deeper m (v, 1) ≡ ltb m (depth v)
unfolding depth
deeper_root m (array vs) = ground arith
deeper_root m (object fs) = ground arith
deeper_root m null = ground arith
deeper_root m (boolean b) = ground arith
deeper_root m (number n) = ground arith
deeper_root m (string s) = ground arith

-- The loop ends on fuel for each value on the stack, and finds what nests too deep.
pub depth_loop_result :
    (fuel m : ℕ) (stack : List (Json × ℕ))
    → weight stack ≤ fuel
    → depth_loop fuel m stack ≡ some (any (deeper m) stack)
unfolding depth_loop
depth_loop_result zero m [] h = refl
depth_loop_result (suc fuel) m [] h = refl
depth_loop_result zero m ((x, d) ∷ stack) h = absurd (omega (arith, size-positive x))
depth_loop_result (suc fuel) m ((x, d) ∷ stack) h = ground (
  arith,
  size-positive x,
  total_size-children x,
  weight-push_children (suc d) (children x) stack,
  any_deeper-push_children m (suc d) (children x) stack,
  any_deeper-children m d x,
  deeper_now m d x,
  depth_loop_result fuel m stack,
  depth_loop_result fuel m (push_children (suc d) (children x) stack),
)

-- The stack loop of `exceedsDepth` finds exactly the values whose depth, by recursion, is over the
-- limit. The fuel it is given, the size of the value, is enough.
pub exceeds_depth-depth : (m : ℕ) (v : Json) → exceeds_depth m v ≡ ltb m (depth v)
unfolding exceeds_depth
exceeds_depth-depth m v =
    ground (arith, depth_loop_result (size v) m ((v, 1) ∷ []), deeper_root m v)

-- The loop of `exceedsDepth` on one value ends within as many rounds as the value has parts.
pub depth_loop_total :
    (fuel m : ℕ) (v : Json)
    → size v ≤ fuel
    → depth_loop fuel m ((v, 1) ∷ []) ≡ some (ltb m (depth v))
depth_loop_total fuel m v h =
    ground (arith, depth_loop_result fuel m ((v, 1) ∷ []), deeper_root m v)
