-- ===== src/Payload/Serve.antt =====
-- web/src/lib/hooks/handler.ts with normalize.ts and ingest.ts: a request to a webhook from its bytes
-- to the rows. The response itself is `handle_hook`; here is what it does with an admitted body.
use simple_rss_notifications.Base.{
  ℕ, ◌*◌, ◌≡◌, refl, ap, sym, ◌∙◌, Bool, true, false, Option, none, some, List, Text, if◌then◌else◌,
  if_holds, arith,
}
use simple_rss_notifications.Base.Strings.{codes, text_eq}
use simple_rss_notifications.Db.{Database, Feed}
use simple_rss_notifications.Hooks.Handler.{
  WebhookFeed, Response, Ingested, too_large, was_empty, ingest_threw, saved, Limiters, Env, answer,
  handle_hook,
}
use simple_rss_notifications.Hooks.Handler.Stored.{is_stored, IsFrom, handle_hook-IsFrom}
use simple_rss_notifications.Payload.Json.{Number}
use simple_rss_notifications.Payload.Runtime.{Runtime}
use simple_rss_notifications.Payload.Normalize.{HookInput, normalize_hook}
use simple_rss_notifications.Payload.Body.{BodyResult, body_text, body_too_large, read_body_limited}
use simple_rss_notifications.Payload.Ingest.{Stamps, ingest_item, find_webhook_feed}

-- What a request brings: its length header, its chunks, and its headers and query.
pub record Upload : Type 0 where
  pub declared : Number
  pub chunks : Option (List Text)
  pub content_type : Option Text
  pub header : Text → Option Text
  pub query : Text → Option Text
  -- The clock at the start, and where the body is normalised.
  pub arrived : ℕ
  pub normalised_at : ℕ

abbrev pub max_body_bytes : ℕ
max_body_bytes = 64 * 1024

-- `searchParams.get('wait') === 'true'`
abbrev wants_item : Upload → Bool
wants_item up = elim (up.query (codes "wait")) [ none ↦ false | some v ↦ text_eq v (codes "true") ]

abbrev pub input_of : Upload → Feed → Text → HookInput
input_of up feed body = record {
  body = body;
  content_type = up.content_type;
  header = up.header;
  query = up.query;
  feed_name = feed.label;
  now = up.normalised_at;
}

unfoldable pub saved_or_threw : Upload → Database → Option Database → Ingested × Database
saved_or_threw up db none = (ingest_threw, db)
saved_or_threw up db (some db') = (saved (wants_item up), db')

unfoldable pub store_hook :
    Runtime → Stamps → Upload → Feed → Database → BodyResult → Ingested × Database
unfolding normalize_hook ingest_item saved_or_threw
store_hook rt stamps up feed db body_too_large = (too_large, db)
store_hook rt stamps up feed db (body_text body) =
    let n = normalize_hook rt (input_of up feed body) in
    if n.empty then (was_empty, db) else saved_or_threw up db (ingest_item stamps feed n db)

-- From the reading of the body to the insert.
unfoldable pub receive : Runtime → Stamps → Upload → Feed → Database → Ingested × Database
unfolding read_body_limited store_hook
receive rt stamps up feed db =
    store_hook rt stamps up feed db (read_body_limited rt max_body_bytes up.declared up.chunks)

-- The row of `findWebhookFeed` as the handler sees it, its uuids as text.
abbrev pub webhook_feed : (ℕ → Text) → Feed → WebhookFeed
webhook_feed uuid_text f = record {
  id = uuid_text f.id;
  user_id = uuid_text f.user_id;
  label = f.label;
  enabled = f.enabled;
}

-- What the request finds and makes of its feed; nothing is made where there is none.
abbrev outcome_of : Runtime → Stamps → Upload → Database → Option Feed → Ingested × Database
unfolding receive
outcome_of rt stamps up db none = (ingest_threw, db)
outcome_of rt stamps up db (some f) = receive rt stamps up f db

abbrev seen_feed : (ℕ → Text) → Option Feed → Option WebhookFeed
seen_feed uuid_text none = none
seen_feed uuid_text (some f) = some (webhook_feed uuid_text f)

abbrev hook_env : Runtime → (Text → Text) → (ℕ → Text) → Stamps → ℕ → Text → Upload → Database → Env
unfolding receive find_webhook_feed
hook_env rt hash_token uuid_text stamps later token up db = record {
  find_feed = λ t. seen_feed uuid_text (find_webhook_feed hash_token t db);
  ingest = λ _. (outcome_of rt stamps up db (find_webhook_feed hash_token token db)).0;
  now = up.arrived;
  later = later;
}

-- The whole request: the response, the limiters, and the database.
unfoldable pub serve_hook :
    Runtime
    → (Text → Text)
    → (ℕ → Text)
    → Stamps
    → ℕ
    → Text
    → Text
    → Upload
    → Limiters
    → Database
    → Response × Limiters × Database
unfolding receive find_webhook_feed handle_hook
serve_hook rt hash_token uuid_text stamps later ip token up ls db =
    let env = hook_env rt hash_token uuid_text stamps later token up db in
    let (response, ls') = handle_hook env ip token ls in
    let written = (outcome_of rt stamps up db (find_webhook_feed hash_token token db)).1 in
    (response, ls', if is_stored response then written else db)

-- The feed, the body and the item of a request, and that the insert of the item worked.
pub record IsStoredAs (rt : Runtime) (stamps : Stamps) (up : Upload) (db : Database)
    (o : Option Feed) (db' : Database) : Type 0 where
  pub feed : Feed
  pub body : Text
  pub found : o ≡ some feed
  pub enabled : feed.enabled ≡ true
  pub read : read_body_limited rt max_body_bytes up.declared up.chunks ≡ body_text body
  pub not_empty : (normalize_hook rt (input_of up feed body)).empty ≡ false
  pub inserted : ingest_item stamps feed (normalize_hook rt (input_of up feed body)) db ≡ some db'

saved_or_threw-saved :
    (up : Upload) (db : Database) (o : Option Database)
    → is_stored (answer (saved_or_threw up db o).0) ≡ true
    → o ≡ some (saved_or_threw up db o).1
unfolding saved_or_threw
saved_or_threw-saved up db none h = absurd (ground arith)
saved_or_threw-saved up db (some db') h = refl

module _ (rt : Runtime) (stamps : Stamps) (up : Upload) (feed : Feed)
    (enabled : feed.enabled ≡ true) (db : Database) where
  store_hook-IsStoredAs :
      (b : BodyResult)
      → read_body_limited rt max_body_bytes up.declared up.chunks ≡ b
      → is_stored (answer (store_hook rt stamps up feed db b).0) ≡ true
      → IsStoredAs rt stamps up db (some feed) (store_hook rt stamps up feed db b).1
  unfolding store_hook
  store_hook-IsStoredAs body_too_large e = λ h. absurd (ground arith)
  store_hook-IsStoredAs (body_text body) e =
      let n = normalize_hook rt (input_of up feed body) in
      let o = ingest_item stamps feed n db in
      if_holds
        (λ (r : Ingested × Database).
          is_stored (answer r.0) ≡ true → IsStoredAs rt stamps up db (some feed) r.1)
        n.empty (was_empty, db) (saved_or_threw up db o) (λ e' h. absurd (ground arith))
        (λ e' h. record {
          feed = feed;
          body = body;
          found = refl;
          enabled = enabled;
          read = e;
          not_empty = e';
          inserted = saved_or_threw-saved up db o h;
        })

outcome-IsStoredAs :
    (rt : Runtime) (uuid_text : ℕ → Text) (stamps : Stamps) (up : Upload) (db : Database)
    (env : Env) (o : Option Feed)
    → ((w : WebhookFeed) → env.ingest w ≡ (outcome_of rt stamps up db o).0)
    → IsFrom env (seen_feed uuid_text o)
    → IsStoredAs rt stamps up db o (outcome_of rt stamps up db o).1
unfolding IsFrom receive
outcome-IsStoredAs rt uuid_text stamps up db env none same h = absurd (ground arith)
outcome-IsStoredAs rt uuid_text stamps up db env (some feed) same h =
    store_hook-IsStoredAs rt stamps up feed h.0 db
      (read_body_limited rt max_body_bytes up.declared up.chunks) refl
      (ap (λ i. is_stored (answer i)) (sym (same (webhook_feed uuid_text feed))) ∙ h.1)

-- A request that is answered as stored has changed the database by one insert: of the item that its
-- body is normalised to, for the enabled feed of its token, with a body within the limit that is not
-- found empty.
pub serve_hook-IsStoredAs :
    (rt : Runtime) (hash_token : Text → Text) (uuid_text : ℕ → Text) (stamps : Stamps) (later : ℕ)
    (ip token : Text) (up : Upload) (ls : Limiters) (db : Database)
    → is_stored (serve_hook rt hash_token uuid_text stamps later ip token up ls db).0 ≡ true
    → IsStoredAs rt stamps up db
        (find_webhook_feed hash_token token db)
        (serve_hook rt hash_token uuid_text stamps later ip token up ls db).2
unfolding serve_hook
serve_hook-IsStoredAs rt hash_token uuid_text stamps later ip token up ls db h =
    let env = hook_env rt hash_token uuid_text stamps later token up db in
    let o = find_webhook_feed hash_token token db in
    rw h (
      outcome-IsStoredAs rt uuid_text stamps up db env o (λ w. refl)
        (handle_hook-IsFrom env ip token ls h))

-- A request that is answered otherwise leaves the database as it was.
pub serve_hook_kept :
    (rt : Runtime) (hash_token : Text → Text) (uuid_text : ℕ → Text) (stamps : Stamps) (later : ℕ)
    (ip token : Text) (up : Upload) (ls : Limiters) (db : Database)
    → is_stored (serve_hook rt hash_token uuid_text stamps later ip token up ls db).0 ≡ false
    → (serve_hook rt hash_token uuid_text stamps later ip token up ls db).2 ≡ db
unfolding serve_hook
serve_hook_kept rt hash_token uuid_text stamps later ip token up ls db h = rw h refl
