-- ===== src/Dispatch/Deliver.antt =====
-- web/src/worker/dispatcher.ts: `deliverOne`. The provider clients and the builders of bodies are
-- fields of an environment, each of which may throw; so may the writes.
use simple_rss_notifications.Base.{
  ℕ, Bool, true, false, ◌&&◌, Option, none, some, List, [], ◌∷◌, ◌++◌, Text, ◌==◌, if◌then◌else◌,
  get_or, update,
}
use simple_rss_notifications.Base.Strings.{codes}
use simple_rss_notifications.Db.{
  Dispatch, is_pending, SinkSmtp, SinkResend, SinkNtfy, SinkDiscordWebhook,
}
use simple_rss_notifications.Dispatch.{ClaimedJob}
use simple_rss_notifications.Dispatch.Rows.{
  SendResult, skipped_row, no_destination_row, answered_row, rescued_row,
}

-- What a call gives back: a value, or the message of what it throws.
pub data Outcome {ℓ} (A : Type ℓ) : Type ℓ where
  returned : A → Outcome A
  threw : Text → Outcome A

infixl 5 ◌>>=◌
abbrev pub ◌>>=◌ {ℓ κ} : {A : Type ℓ} {B : Type κ} → Outcome A → (A → Outcome B) → Outcome B
returned a >>= f = f a
threw e >>= f = threw e

pub data AnySink : Type 0 where
  smtp_sink : SinkSmtp → AnySink
  resend_sink : SinkResend → AnySink
  ntfy_sink : SinkNtfy → AnySink
  discord_sink : SinkDiscordWebhook → AnySink

-- The argument of the body builders.
pub record ItemArgs : Type 0 where
  pub title : Option Text
  pub summary_html : Option Text
  pub link : Text
  pub feed_label : Text

-- What a provider is handed. The id of the dispatch makes a message id or an idempotency key.
pub data Message : Type 0 where
  smtp_mail : SinkSmtp → (to subject text html : Text) → (id : ℕ) → (domain : Text) → Message
  resend_mail : SinkResend → (to subject text html : Text) → (id : ℕ) → Message
  ntfy_push : SinkNtfy → (title message : Text) → (click : Option Text) → (id : ℕ) → Message
  discord_embed : SinkDiscordWebhook → ItemArgs → (published_at : Option ℕ) → (id : ℕ) → Message
  discord_text :
      SinkDiscordWebhook → (title message : Text) → (link : Option Text) → (id : ℕ) → Message

pub record Env : Type 0 where
  pub now : ℕ
  pub feed_item_body : ItemArgs → Outcome (Text × Text)
  pub ntfy_body : ItemArgs → Outcome Text
  pub send : Message → Outcome SendResult
  -- Whether the write after the send, and the write of the `catch` block, reach the database.
  pub write_ok : Bool
  pub write_error : Text
  pub rescue_ok : Bool

abbrev is_empty : Text → Bool
is_empty [] = true
is_empty (c ∷ s) = false

-- `s || undefined`
abbrev or_undefined : Text → Option Text
or_undefined s = if is_empty s then none else some s

-- `from_email.split('@')[1] ?? 'localhost'`
up_to_at : Text → Text
up_to_at [] = []
up_to_at (c ∷ s) = if c == b'@' then [] else c ∷ up_to_at s

unfoldable pub mail_domain : Text → Text
unfolding up_to_at
mail_domain [] = codes "localhost"
mail_domain (c ∷ s) = if c == b'@' then up_to_at s else mail_domain s

abbrev item_args : ClaimedJob → ItemArgs
item_args job = record {
  title = job.item_title;
  summary_html = job.item_summary;
  link = get_or job.item_link [];
  feed_label = job.feed_label;
}

abbrev subject_of : ClaimedJob → Text
subject_of job = get_or job.item_title (codes "(no title) — " ++ job.feed_label)

abbrev title_of : ClaimedJob → Text
title_of job = get_or job.item_title job.feed_label

-- `none` where the sink needs an address and the destination has none, or an empty one.
unfoldable pub send_job : Env → ClaimedJob → AnySink → Option (Outcome SendResult)
unfolding mail_domain
send_job env job (smtp_sink s) =
    let to = get_or job.destination [] in
    let args = item_args job in
    if is_empty to
    then none
    else some (
        env.feed_item_body args >>= λ body.
        env.send (
          smtp_mail s to (subject_of job) body.0 body.1 job.dispatch_id (mail_domain s.from_email)))
send_job env job (resend_sink s) =
    let to = get_or job.destination [] in
    let args = item_args job in
    if is_empty to
    then none
    else some (
        env.feed_item_body args >>= λ body.
        env.send (resend_mail s to (subject_of job) body.0 body.1 job.dispatch_id))
send_job env job (ntfy_sink s) =
    let args = item_args job in
    some (
      env.ntfy_body args >>= λ message. env.send (
        ntfy_push s (title_of job) message (if s.include_link then or_undefined args.link else none)
          job.dispatch_id))
send_job env job (discord_sink s) =
    let args = item_args job in
    some (
      if s.use_embeds
      then env.send (discord_embed s args job.item_published_at job.dispatch_id)
      else env.ntfy_body args >>= λ md.
          env.send (discord_text s (title_of job) md (or_undefined args.link) job.dispatch_id))

abbrev pub is_row : ClaimedJob → Dispatch → Bool
is_row job d = d.id == job.dispatch_id

-- The `catch` block: only a row that is still pending is touched, and a failing write is dropped.
unfoldable pub rescue : Env → ClaimedJob → Text → List Dispatch → List Dispatch
unfolding rescued_row
rescue env job err ds =
    if env.rescue_ok
    then update (λ d. is_row job d && is_pending d.status) (rescued_row env.now job err) ds
    else ds

-- A write inside the `try` block.
unfoldable pub write : Env → ClaimedJob → (Dispatch → Dispatch) → List Dispatch → List Dispatch
unfolding rescue
write env job row ds =
    if env.write_ok then update (is_row job) row ds else rescue env job env.write_error ds

unfoldable pub deliver_outcome :
    Env → ClaimedJob → Option (Outcome SendResult) → List Dispatch → List Dispatch
unfolding write answered_row
deliver_outcome env job none ds = write env job (no_destination_row env.now) ds
deliver_outcome env job (some (threw err)) ds = rescue env job err ds
deliver_outcome env job (some (returned r)) ds = write env job (answered_row env.now job r) ds

unfoldable pub deliver_one : Env → ClaimedJob → Option AnySink → List Dispatch → List Dispatch
unfolding deliver_outcome send_job
deliver_one env job none ds = write env job skipped_row ds
deliver_one env job (some sink) ds = deliver_outcome env job (send_job env job sink) ds
