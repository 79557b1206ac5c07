-- ===== src/Live.antt =====
-- web/src/lib/itemsListener.ts: `createItemsHub`, which shares one LISTEN connection among all
-- streams. A client is the number of its creation; what a subscriber does inside a callback is a later
-- event. `end` counts as done where it is asked for.
pub mod Sound
mod Tests
use simple_rss_notifications.Base.{
  ℕ, suc, ◌+◌, Bool, true, false, not, Option, none, some, List, [], ◌∷◌, ◌++◌, ltb, ◌==◌,
  if◌then◌else◌, any, find, map, delete, update,
}

-- The last pong of a client.
pub record Pong : Type 0 where
  pub client_id : ℕ
  pub last_pong : ℕ

pub record Hub : Type 0 where
  pub subs : List ℕ
  pub client : Option ℕ
  -- The client whose timer the variable holds, and the clients whose timers run.
  pub watchdog : Option ℕ
  pub timers : List ℕ
  pub pongs : List Pong
  -- The clients that were asked to end, and how many were made.
  pub ended : List ℕ
  pub made : ℕ

pub data Event : Type 0 where
  subscribed : (s now : ℕ) → Event
  unsubscribed : (s : ℕ) → Event
  -- On the connection of a client: its own pong, an item, or a LISTEN done or failed.
  ponged : (c now : ℕ) → Event
  notified listened listen_failed : (c : ℕ) → Event
  -- The timer of a client fires.
  ticked : (c now : ℕ) → Event

-- What subscribers are called with, and what is sent on a client's query connection.
pub data Call : Type 0 where
  on_event on_resync on_error : (s : ℕ) → Call
  ping : (c : ℕ) → Call

abbrev pub pong_timeout_ms : ℕ
pong_timeout_ms = 75000

abbrev pub is_client : ℕ → Option ℕ → Bool
is_client c none = false
is_client c (some d) = d == c

abbrev pub no_one : List ℕ → Bool
no_one [] = true
no_one (x ∷ xs) = false

abbrev pub without : Option ℕ → List ℕ → List ℕ
without none ts = ts
without (some t) ts = delete (λ x. x == t) ts

unfoldable pub stop_watchdog : Hub → Hub
stop_watchdog h = record h { timers = without h.watchdog h.timers; watchdog = none }

-- `start`: a new client with its timer.
unfoldable pub start_client : ℕ → Hub → Hub
unfolding stop_watchdog
start_client now h =
    let c = h.made in
    let h' = stop_watchdog (record h {
      client = some c;
      pongs = record { client_id = c; last_pong = now } ∷ h.pongs;
      made = suc c;
    }) in
    record h' { timers = c ∷ h'.timers; watchdog = some c }

-- The client is dropped: its timer is stopped, and it is ended.
unfoldable pub drop_client : ℕ → Hub → Hub
unfolding stop_watchdog
drop_client c h =
    let h' = stop_watchdog (record h { client = none }) in record h' { ended = c ∷ h'.ended }

unfoldable pub restart_client : ℕ → ℕ → Hub → Hub
unfolding drop_client start_client
restart_client c now h =
    let h' = drop_client c h in
    if not (is_client c h.client) then h else if no_one h'.subs then h' else start_client now h'

abbrev pub last_pong_of : ℕ → List Pong → ℕ
last_pong_of c ps = elim (find (λ (p : Pong). p.client_id == c) ps) [
  | none ↦ 0
  | some p ↦ p.last_pong
]

-- `if (!client) start()`
unfoldable pub ensure_client : ℕ → Option ℕ → Hub → Hub
unfolding start_client
ensure_client now none h = start_client now h
ensure_client now (some c) h = h

unfoldable pub subscribe : ℕ → ℕ → Hub → Hub
unfolding ensure_client
subscribe s now h =
    let h' = record h { subs = if any (λ x. x == s) h.subs then h.subs else h.subs ++ s ∷ [] } in
    ensure_client now h'.client h'

-- The last subscriber has left.
unfoldable pub unsubscribe_last : Option ℕ → Hub → Hub
unfolding drop_client stop_watchdog
unsubscribe_last none h = stop_watchdog h
unsubscribe_last (some c) h = drop_client c h

unfoldable pub unsubscribe : ℕ → Hub → Hub
unfolding unsubscribe_last
unsubscribe s h =
    let h' = record h { subs = delete (λ x. x == s) h.subs } in
    let last = unsubscribe_last h'.client h' in
    if not (any (λ x. x == s) h.subs) then h else if no_one h'.subs then last else h'

unfoldable pub stale_tick : ℕ → Hub → Hub
stale_tick c h = record h {
  timers = delete (λ x. x == c) h.timers;
  watchdog = if is_client c h.watchdog then none else h.watchdog;
}

-- The watchdog's callback; a timer that does not run does not fire.
unfoldable pub tick : ℕ → ℕ → Hub → Hub × List Call
unfolding stale_tick restart_client
tick c now h =
    let stale : Hub × List Call = (stale_tick c h, []) in
    let renewed : Hub × List Call = (restart_client c now h, []) in
    if not (any (λ x. x == c) h.timers)
    then (h, [])
    else if not (is_client c h.client)
    then stale
    else if ltb (last_pong_of c h.pongs + pong_timeout_ms) now
    then renewed
    else (h, ping c ∷ [])

-- One event: the hub after it, and the calls it makes.
unfoldable pub react : Event → Hub → Hub × List Call
unfolding subscribe unsubscribe drop_client tick
react (subscribed s now) h = (subscribe s now h, [])
react (unsubscribed s) h = (unsubscribe s h, [])
react (ponged c now) h = (
  record h {
    pongs =
        update (λ (p : Pong). p.client_id == c) (λ (p : Pong). record p { last_pong = now })
          h.pongs;
  },
  [],
)
react (notified c) h = (h, if is_client c h.client then map on_event h.subs else [])
react (listened c) h = (h, if is_client c h.client then map on_resync h.subs else [])
react (listen_failed c) h =
    let failed : Hub × List Call = (drop_client c h, map on_error h.subs) in
    if is_client c h.client then failed else (h, [])
react (ticked c now) h = tick c now h

unfoldable pub run_events : List Event → Hub → Hub
unfolding react
run_events [] h = h
run_events (e ∷ es) h = run_events es (react e h).0

abbrev pub new_hub : Hub
new_hub = record {
  subs = [];
  client = none;
  watchdog = none;
  timers = [];
  pongs = [];
  ended = [];
  made = 0;
}
