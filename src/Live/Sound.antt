-- ===== src/Live/Sound.antt =====
-- web/src/lib/itemsListener.ts: what the hub keeps to, whatever happens.
use simple_rss_notifications.Base.{
  ℕ, ◌+◌, ◌<◌, ==_refl, Bool-cases, inl, inr, ◌≡◌, refl, ap, ==_iff, sym, true, false, not, Option,
  none, some, List, [], ◌∷◌, ◌++◌, ◌==◌, if◌then◌else◌, if_holds, any, delete, select, length,
  arith,
}
use simple_rss_notifications.Live.{
  Hub, Event, subscribed, unsubscribed, ponged, notified, listened, listen_failed, ticked,
  is_client, no_one, stop_watchdog, start_client, drop_client, restart_client, subscribe,
  unsubscribe, unsubscribe_last, tick, react, run_events, new_hub, without, ensure_client,
  pong_timeout_ms, last_pong_of,
}

abbrev timers_of : Option ℕ → List ℕ
timers_of none = []
timers_of (some c) = c ∷ []

abbrev held : Option ℕ → ℕ
held none = 0
held (some c) = 1

-- The only timer is that of the present client, which the variable holds; without subscribers there is
-- no client; and every client that was made is the present one or was ended, once.
pub record IsSound (h : Hub) : Type 0 where
  pub watched : h.watchdog ≡ h.client
  pub timed : h.timers ≡ timers_of h.client
  pub idle : no_one h.subs ≡ true → h.client ≡ none
  pub accounted : h.made ≡ length h.ended + held h.client
  pub finished :
      (c : ℕ) → c < h.made → is_client c h.client ≡ false → any (λ x. x == c) h.ended ≡ true

without_timers : (o : Option ℕ) → without o (timers_of o) ≡ []
unfolding delete select
without_timers none = refl
without_timers (some c) = ground arith

stopped_timers : (h : Hub) → IsSound h → without h.watchdog h.timers ≡ []
stopped_timers h s = rw (s.watched, s.timed) (without_timers h.client)

start_client-IsSound :
    (now : ℕ) (h : Hub)
    → IsSound h
    → h.client ≡ none
    → no_one h.subs ≡ false
    → IsSound (start_client now h)
unfolding start_client stop_watchdog
start_client-IsSound now h s e k = record {
  watched = refl;
  timed = ap (◌∷◌ h.made) (stopped_timers h s);
  idle = λ i. absurd (ground arith);
  accounted = ground (arith, s.accounted, ap held e);
  finished = λ c i n. ground (arith, s.finished c, e);
}

drop_client-IsSound : (c : ℕ) (h : Hub) → IsSound h → h.client ≡ some c → IsSound (drop_client c h)
unfolding drop_client stop_watchdog
drop_client-IsSound c h s e = record {
  watched = refl;
  timed = stopped_timers h s;
  idle = λ i. refl;
  accounted = ground (arith, s.accounted, ap held e);
  finished = λ d i n. ground (arith, s.finished d, e);
}

own_client : (c : ℕ) (h : Hub) → h.client ≡ some c → is_client c h.client ≡ true
own_client c h e = rw e (==_refl c)

restart_client-IsSound :
    (c now : ℕ) (h : Hub) → IsSound h → h.client ≡ some c → IsSound (restart_client c now h)
unfolding restart_client
restart_client-IsSound c now h s e =
    let s' = drop_client-IsSound c h s e in
    let h' = drop_client c h in
    if_holds IsSound (not (is_client c h.client)) h
      (if no_one h'.subs then h' else start_client now h') (λ k. s)
      (λ k.
        if_holds IsSound (no_one h'.subs) h' (start_client now h') (λ k'. s')
          (λ k'. start_client-IsSound now h' s' (unfold drop_client stop_watchdog in refl) k'))

-- More subscribers, the rest as it is.
with_subs-IsSound :
    (h : Hub) (ss : List ℕ)
    → IsSound h
    → (no_one ss ≡ true → h.client ≡ none)
    → IsSound (record h { subs = ss })
with_subs-IsSound h ss s k = record {
  watched = s.watched;
  timed = s.timed;
  idle = k;
  accounted = s.accounted;
  finished = s.finished;
}

some_client : (c : ℕ) (o : Option ℕ) → is_client c o ≡ true → o ≡ some c
some_client c none h = absurd (ground arith)
some_client c (some d) h = ap some ((==_iff d c).0 h)

ensure_client-IsSound :
    (now : ℕ) (o : Option ℕ) (h : Hub)
    → h.client ≡ o
    → no_one h.subs ≡ false
    → IsSound h
    → IsSound (ensure_client now o h)
unfolding ensure_client
ensure_client-IsSound now none h e k s = start_client-IsSound now h s e k
ensure_client-IsSound now (some c) h e k s = s

no_one-added :
    (s : ℕ) (ss : List ℕ) → no_one (if any (λ x. x == s) ss then ss else ss ++ s ∷ []) ≡ false
no_one-added s [] = refl
no_one-added s (x ∷ ss) = ground arith

subscribe-IsSound : (s now : ℕ) (h : Hub) → IsSound h → IsSound (subscribe s now h)
unfolding subscribe
subscribe-IsSound s now h sound =
    let ss = if any (λ x. x == s) h.subs then h.subs else h.subs ++ s ∷ [] in
    let some_left = no_one-added s h.subs in
    ensure_client-IsSound now h.client (record h { subs = ss }) refl some_left
      (with_subs-IsSound h ss sound (λ e. absurd (ground arith)))

-- The hub whose last subscriber has left, its client still there.
unsubscribe_last-IsSound :
    (o : Option ℕ) (h : Hub)
    → h.client ≡ o
    → h.watchdog ≡ h.client
    → h.timers ≡ timers_of h.client
    → h.made ≡ length h.ended + held h.client
    → ((c : ℕ) → c < h.made → is_client c h.client ≡ false → any (λ x. x == c) h.ended ≡ true)
    → IsSound (unsubscribe_last o h)
unfolding unsubscribe_last stop_watchdog drop_client
unsubscribe_last-IsSound none h e w t a f = record {
  watched = sym e;
  timed = rw (w, t, e) refl;
  idle = λ i. e;
  accounted = a;
  finished = f;
}
unsubscribe_last-IsSound (some c) h e w t a f = record {
  watched = refl;
  timed = rw (w, t) (without_timers h.client);
  idle = λ i. refl;
  accounted = ground (arith, a, ap held e);
  finished = λ d i n. ground (arith, f d, e);
}

unsubscribe-IsSound : (s : ℕ) (h : Hub) → IsSound h → IsSound (unsubscribe s h)
unfolding unsubscribe
unsubscribe-IsSound s h sound =
    let ss = delete (λ x. x == s) h.subs in
    let h' = record h { subs = ss } in
    if_holds IsSound (not (any (λ x. x == s) h.subs)) h
      (if no_one ss then unsubscribe_last h.client h' else h') (λ e. sound)
      (λ e.
        if_holds IsSound (no_one ss) (unsubscribe_last h.client h') h'
          (λ k.
            unsubscribe_last-IsSound h.client h' refl sound.watched sound.timed sound.accounted
              sound.finished)
          (λ k. with_subs-IsSound h ss sound (λ k'. absurd (ground arith))))

no_other_timer :
    (c : ℕ) (o : Option ℕ) → is_client c o ≡ false → any (λ x. x == c) (timers_of o) ≡ false
no_other_timer c none k = refl
no_other_timer c (some d) k = ground arith

no_stale_timer :
    (c : ℕ) (h : Hub)
    → IsSound h
    → is_client c h.client ≡ false
    → any (λ x. x == c) h.timers ≡ false
no_stale_timer c h s k = rw s.timed (no_other_timer c h.client k)

tick-IsSound : (c now : ℕ) (h : Hub) → IsSound h → IsSound (tick c now h).0
unfolding tick
tick-IsSound c now h s =
    ground (arith, no_stale_timer c h s, some_client c h.client, restart_client-IsSound c now h s)

react-IsSound : (e : Event) (h : Hub) → IsSound h → IsSound (react e h).0
unfolding react
react-IsSound (subscribed s now) h sound = subscribe-IsSound s now h sound
react-IsSound (unsubscribed s) h sound = unsubscribe-IsSound s h sound
react-IsSound (ponged c now) h sound = record {
  watched = sound.watched;
  timed = sound.timed;
  idle = sound.idle;
  accounted = sound.accounted;
  finished = sound.finished;
}
react-IsSound (notified c) h sound = sound
react-IsSound (listened c) h sound = sound
react-IsSound (listen_failed c) h sound =
    ground (arith, some_client c h.client, drop_client-IsSound c h sound)
react-IsSound (ticked c now) h sound = tick-IsSound c now h sound

run_kept : (es : List Event) (h : Hub) → IsSound h → IsSound (run_events es h)
unfolding run_events
run_kept [] h s = s
run_kept (e ∷ es) h s = run_kept es (react e h).0 (react-IsSound e h s)

-- After any events in any order the hub has one running timer for its client and none else, no client
-- without subscribers, and has ended every client that it made but the present one, each once: no
-- connection and no timer is left behind.
pub run_events-IsSound : (es : List Event) → IsSound (run_events es new_hub)
run_events-IsSound es = run_kept es new_hub (record {
  watched = refl;
  timed = refl;
  idle = λ i. refl;
  accounted = refl;
  finished = λ c i n. absurd (ground (arith, i));
})

restart_renews :
    (c now : ℕ) (h : Hub)
    → h.client ≡ some c
    → no_one h.subs ≡ false
    → ((restart_client c now h).client ≡ some h.made)
      × (any (λ x. x == c) (restart_client c now h).ended ≡ true)
unfolding restart_client start_client drop_client stop_watchdog
restart_renews c now h e k = ground (arith, own_client c h e)

has_subscribers : (c : ℕ) (h : Hub) → IsSound h → h.client ≡ some c → no_one h.subs ≡ false
has_subscribers c h s e = elim (Bool-cases (no_one h.subs)) [
  | inl k ↦ absurd (ground (arith, s.idle k, e))
  | inr k ↦ k
]

own_timer : (c : ℕ) (h : Hub) → IsSound h → h.client ≡ some c → any (λ x. x == c) h.timers ≡ true
own_timer c h s e = rw (s.timed, e) (ground arith)

tick_late :
    (c now : ℕ) (h : Hub)
    → IsSound h
    → h.client ≡ some c
    → last_pong_of c h.pongs + pong_timeout_ms < now
    → (tick c now h).0 ≡ restart_client c now h
unfolding tick
tick_late c now h s e late = ground (arith, own_timer c h s e, own_client c h e)

-- Where the client of the hub has sent no pong for over 75 s, the next tick of its timer
-- ends it and makes a new one.
pub tick_renews :
    (c now : ℕ) (es : List Event)
    → (run_events es new_hub).client ≡ some c
    → last_pong_of c (run_events es new_hub).pongs + pong_timeout_ms < now
    → ((react (ticked c now) (run_events es new_hub)).0.client ≡ some (run_events es new_hub).made)
      × (any (λ x. x == c) (react (ticked c now) (run_events es new_hub)).0.ended ≡ true)
unfolding react
tick_renews c now es e late =
    let h = run_events es new_hub in
    let s = run_events-IsSound es in
    rw (tick_late c now h s e late) (restart_renews c now h e (has_subscribers c h s e))
