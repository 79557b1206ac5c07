-- ===== src/Ssrf/Fetch/Laws.antt =====
-- What `safeFetch` sends, to whom, and how often.
use simple_rss_notifications.Base.{
  ℕ, zero, suc, ◌+◌, ◌≤◌, ◌≡◌, ◌⊎◌, inl, inr, refl, Bool, true, false, not, Option, none, some,
  Text, if◌then◌else◌, All, All-append, length, length-append, arith, Bool-cases, subst,
}
use simple_rss_notifications.Ssrf.Resolve.{
  Url, Platform, Resolved, targets, no_hostname, local_name, private_literal, lookup_failed,
  no_records, unexpected_family, private_record, is_http,
}
use simple_rss_notifications.Ssrf.Fetch.{
  Request, Answer, World, FetchResult, Hop, Sent, refused, sent, Step, stop, follow, single_request,
  next_hop, check_redirect, redirect_to, after_answer, after_sent, location_of, hop, fetch_from,
  is_redirect,
}

abbrev pub SentSatisfies : (Request → Type 0) → Sent → Type 0
SentSatisfies Q (refused r) = Unit
SentSatisfies Q (sent req a) = Q req

abbrev StepSatisfies : (Hop → Type 0) → Step → Type 0
StepSatisfies I (stop r) = Unit
StepSatisfies I (follow h) = I h

step_cases : (s : Step) → ((r : FetchResult) × (s ≡ stop r)) ⊎ ((h : Hop) × (s ≡ follow h))
step_cases (stop r) = inl (r, refl)
step_cases (follow h) = inr (h, refl)

-- What each single request keeps, the whole trace keeps.
module _ (p : Platform) (w : World) (I : Hop → Type 0) (Q : Request → Type 0)
    (sends : (n : ℕ) (h : Hop) → I h → SentSatisfies Q (single_request p w n h))
    (keeps : (status : ℕ) (h : Hop) (u : Url) → I h → I (next_hop status h u)) where
  check_redirect-follow :
      (status : ℕ) (h : Hop) (u : Url) (r : Resolved)
      → I h
      → StepSatisfies I (check_redirect status h u r)
  unfolding check_redirect
  check_redirect-follow status h u (targets ts) i = keeps status h u i
  check_redirect-follow status h u no_hostname i = tt
  check_redirect-follow status h u local_name i = tt
  check_redirect-follow status h u private_literal i = tt
  check_redirect-follow status h u lookup_failed i = tt
  check_redirect-follow status h u no_records i = tt
  check_redirect-follow status h u unexpected_family i = tt
  check_redirect-follow status h u private_record i = tt

  step_by_test :
      (b : Bool) (x y : Step)
      → StepSatisfies I x
      → StepSatisfies I y
      → StepSatisfies I (if b then x else y)
  step_by_test true x y h k = h
  step_by_test false x y h k = k

  redirect_to-follow :
      (n status : ℕ) (h : Hop) (u : Option Url)
      → I h
      → StepSatisfies I (redirect_to p w n status h u)
  unfolding redirect_to
  redirect_to-follow n status h none i = tt
  redirect_to-follow n status h (some u) i =
      step_by_test (is_http u) _ _ (check_redirect-follow status h u _ i) tt

  after_answer-follow :
      (n : ℕ) (is_last : Bool) (h : Hop) (a : Answer) (location : Option Text)
      → I h
      → StepSatisfies I (after_answer p w n is_last h a location)
  unfolding after_answer
  after_answer-follow n is_last h a none i = tt
  after_answer-follow n is_last h a (some location) i =
      step_by_test (not (is_redirect a.status)) _ _ tt (
        step_by_test is_last _ _ tt
          (redirect_to-follow n a.status h (p.new_url location (some h.url)) i))

  after_sent-keeps :
      (n : ℕ) (is_last : Bool) (h : Hop) (s : Sent)
      → I h
      → SentSatisfies Q s
      → All Q (after_sent p w n is_last h s).0 × StepSatisfies I (after_sent p w n is_last h s).1
  unfolding after_sent
  after_sent-keeps n is_last h (refused r) i q = (tt, tt)
  after_sent-keeps n is_last h (sent req none) i q = ((q, tt), tt)
  after_sent-keeps n is_last h (sent req (some a)) i q =
      ((q, tt), after_answer-follow n is_last h a (location_of a.location) i)

  hop-keeps :
      (n : ℕ) (is_last : Bool) (h : Hop)
      → I h
      → All Q (hop p w n is_last h).0 × StepSatisfies I (hop p w n is_last h).1
  unfolding hop
  hop-keeps n is_last h i = elim (Bool-cases (w.aborted n)) [
    | inl late ↦ rw late (tt, tt)
    | inr running ↦
        rw running (after_sent-keeps n is_last h (single_request p w n h) i (sends n h i))
  ]

  pub fetch_from-All : (left n : ℕ) (h : Hop) → I h → All Q (fetch_from p w left n h).0
  unfolding fetch_from
  fetch_from-All zero n h i = (hop-keeps n true h i).0
  fetch_from-All (suc left) n h i = elim (step_cases (hop p w n false h).1) [
    | inl (r, e) ↦ rw (e, fetch_from) (hop-keeps n false h i).0
    | inr (h', e) ↦
        rw (e, fetch_from)
          (All-append Q (hop p w n false h).0 (fetch_from p w left (suc n) h').0
            (hop-keeps n false h i).0
            (fetch_from-All left (suc n) h' (subst (StepSatisfies I) e (hop-keeps n false h i).1)))
  ]

length-hop :
    (p : Platform) (w : World) (n : ℕ) (is_last : Bool) (h : Hop)
    → length (hop p w n is_last h).0 ≤ 1
unfolding hop
length-hop p w n is_last h = elim (Bool-cases (w.aborted n)) [
  | inl late ↦ rw late (omega arith)
  | inr running ↦ rw running (one (single_request p w n h))
]
  where
    one : (s : Sent) → length (after_sent p w n is_last h s).0 ≤ 1
    one (refused r) = omega arith
    one (sent req none) = omega arith
    one (sent req (some a)) = omega arith

-- A fetch makes at most one request more than it may follow redirects, from any hop on.
pub length-fetch_from :
    (p : Platform) (w : World) (left n : ℕ) (h : Hop)
    → length (fetch_from p w left n h).0 ≤ left + 1
unfolding fetch_from
length-fetch_from p w zero n h = omega (arith, length-hop p w n true h)
length-fetch_from p w (suc left) n h = elim (step_cases (hop p w n false h).1) [
  | inl (r, e) ↦ rw (e, fetch_from) (omega (arith, length-hop p w n false h))
  | inr (h', e) ↦
      rw (e, fetch_from)
        (omega (
          arith,
          length-append (hop p w n false h).0 (fetch_from p w left (suc n) h').0,
          length-hop p w n false h,
          length-fetch_from p w left (suc n) h',
        ))
]
