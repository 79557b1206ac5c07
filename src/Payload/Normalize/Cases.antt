-- ===== src/Payload/Normalize/Cases.antt =====
-- normalize.ts, `normalizeHook`: the four shapes of a request as one case analysis.
use simple_rss_notifications.Base.{◌≡◌, refl, Option, none, some, any, if◌then◌else◌, if_holds}
use simple_rss_notifications.Payload.Json.{
  Json, Fields, null, boolean, number, string, array, object,
}
use simple_rss_notifications.Payload.Runtime.{Runtime}
use simple_rss_notifications.Payload.Normalize.Discord.{
  NormalizedHook, Meta, is_discord, from_discord,
}
use simple_rss_notifications.Payload.Normalize.{
  HookInput, from_generic, from_other_json, from_text, normalize_parsed, has_member, generic_keys,
}

module _ {ℓ} (P : NormalizedHook → Type ℓ) (rt : Runtime) (input : HookInput) (meta : Meta) where
  -- What holds of a Discord payload, of one with a known key and of any other JSON holds of any.
  pub normalize_parsed_holds :
      (v : Option Json)
      → P (from_text rt input meta)
      → ((o : Fields)
          → v ≡ some (object o)
          → P (from_discord rt o meta input.feed_name input.body input.now))
      → ((o : Fields) → v ≡ some (object o) → P (from_generic rt input meta o))
      → ((w : Json) → v ≡ some w → P (from_other_json rt input meta w))
      → P (normalize_parsed rt input meta v)
  unfolding normalize_parsed
  normalize_parsed_holds none ht hd hg hj = ht
  normalize_parsed_holds (some null) ht hd hg hj = hj null refl
  normalize_parsed_holds (some (boolean b)) ht hd hg hj = hj (boolean b) refl
  normalize_parsed_holds (some (number n)) ht hd hg hj = hj (number n) refl
  normalize_parsed_holds (some (string s)) ht hd hg hj = hj (string s) refl
  normalize_parsed_holds (some (array vs)) ht hd hg hj = hj (array vs) refl
  normalize_parsed_holds (some (object o)) ht hd hg hj =
      if_holds P (is_discord o) (from_discord rt o meta input.feed_name input.body input.now)
        (if any (has_member o) generic_keys
          then from_generic rt input meta o
          else from_other_json rt input meta (object o))
        (λ h. hd o refl)
        (λ h.
          if_holds P (any (has_member o) generic_keys) (from_generic rt input meta o)
            (from_other_json rt input meta (object o)) (λ k. hg o refl) (λ k. hj (object o) refl))
