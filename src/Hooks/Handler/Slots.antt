-- ===== src/Hooks/Handler/Slots.antt =====
-- web/src/lib/hooks/handler.ts: the token look-ups of one client with bad tokens.
use simple_rss_notifications.Base.{
  ℕ, ◌+◌, ◌≤◌, ◌≡◌, ◌⊎◌, Bool, true, false, Option, none, some, List, [], ◌∷◌, Text, if◌then◌else◌,
}
use simple_rss_notifications.Hooks.Limiter.{Bucket, get}
use simple_rss_notifications.Hooks.Handler.{
  Limiters, Reserved, answered, looking_up, reserve, bad_key, handle_hook, Env, WebhookFeed,
}

-- A request, by what it meets and its token.
pub record Knock : Type 0 where
  pub env : Env
  pub token : Text

abbrev pub at : Knock → ℕ
at k = k.env.now

-- The token is unknown, or that of a disabled feed.
abbrev pub IsBad : Knock → Type 0
IsBad k =
    (k.env.find_feed k.token ≡ none)
    ⊎ ((feed : WebhookFeed) × (k.env.find_feed k.token ≡ some feed) × (feed.enabled ≡ false))

abbrev limiters_of : Reserved → Limiters
limiters_of (answered r ls) = ls
limiters_of (looking_up ls) = ls

abbrev is_looking_up : Reserved → Bool
is_looking_up (answered r ls) = false
is_looking_up (looking_up ls) = true

-- How many of the requests of one client, handled one after the other, look their token up.
pub lookups_made : Text → List Knock → Limiters → ℕ
lookups_made ip [] ls = 0
lookups_made ip (k ∷ ks) ls =
    (if is_looking_up (reserve (at k) ip k.token ls) then 1 else 0)
    + lookups_made ip ks (handle_hook k.env ip k.token ls).1

abbrev slot_of : Text → Limiters → Option Bucket
slot_of ip ls = get (bad_key ip) ls.untrusted.buckets

-- What a request leaves of the client's bucket `b`, within its window.
record Slot (ip : Text) (b : Bucket) (r : Reserved) : Type 0 where
  after : Bucket
  is_slot : slot_of ip (limiters_of r) ≡ some after
  same_start : after.start ≡ b.start
  grows : b.count ≤ after.count
  counted : is_looking_up r ≡ true → (after.count ≡ b.count + 1) × (after.count ≤ 30)
