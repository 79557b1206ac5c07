-- ===== src/Live/Tests.antt =====
-- The hub at concrete events: a subscriber, and a connection that goes silent.
use simple_rss_notifications.Base.{◌≡◌, refl, some, [], ◌∷◌, arith, update}
use simple_rss_notifications.Live.{
  Event, subscribed, listened, ponged, ticked, react, run_events, new_hub, last_pong_of,
}
use simple_rss_notifications.Live.Sound.{IsSound, run_events-IsSound, tick_renews}
use simple_rss_notifications.Base.{List}

abbrev events : List Event
events = subscribed 7 1000 ∷ listened 0 ∷ ponged 0 31000 ∷ []

run_events-IsSound_example : IsSound (run_events events new_hub)
run_events-IsSound_example = run_events-IsSound events

connected : (run_events events new_hub).client ≡ some 0
unfolding run_events
connected = refl

last_pong : last_pong_of 0 (run_events events new_hub).pongs ≡ 31000
unfolding run_events update
last_pong = refl

tick_renews_example :
    (react (ticked 0 121000) (run_events events new_hub)).0.client
    ≡ some (run_events events new_hub).made
tick_renews_example = (tick_renews 0 121000 events connected (omega (arith, last_pong))).0
