-- ===== src/Stream/Latest.antt =====
-- What the route hash holds after an event, against the reconstruction from the lake.
use native.Mathlib.Nat.{le_refl}
use weather_demand_forecast.Floats.{Floats}
use weather_demand_forecast.Prelude.{
  ℕ, ◌≤◌, ◌≡◌, refl, sym, ap, ◌∙◌, String, List, [], ◌∷◌, ◌++◌, some, All, All-append, ==_refl,
  String_eq, arith,
}
use weather_demand_forecast.Prelude.Dict.{Dict, get, update, get-put}
use weather_demand_forecast.Stream.RedisOps.{
  ZSet, Redis, Event, w_5m, w_15m, w_1h, or_empty, zcount, zset, hset, add_and_trim,
  update_demand_features,
}
use weather_demand_forecast.Stream.Reconstruct.{count_distinct, reconstruct}
use weather_demand_forecast.Stream.Windows.{track, zcount-track, is_of_type}

track-append :
    (event_type : String) (es : List Event) (e : Event) (zs : Dict String ZSet)
    → track event_type (es ++ e ∷ []) zs
      ≡ add_and_trim (is_of_type event_type e) e (track event_type es zs)
unfolding track
track-append event_type [] e zs = refl
track-append event_type (x ∷ es) e zs = track-append event_type es e _

module _ (fl : Floats) where
  -- The consumer's updates, one for each event with the wall clock's text at that time.
  pub process : List (String × Event) → Redis → Redis
  process [] r = r
  process ((now_iso, e) ∷ es) r = process es (update_demand_features fl now_iso e r)

  abbrev pub events : List (String × Event) → List Event
  events [] = []
  events ((now_iso, e) ∷ es) = e ∷ events es

  searches-process :
      (es : List (String × Event)) (r : Redis)
      → (process es r).searches ≡ track "search" (events es) r.searches
  unfolding process track update_demand_features
  searches-process [] r = refl
  searches-process ((n, e) ∷ es) r = searches-process es (update_demand_features fl n e r)

  bookings-process :
      (es : List (String × Event)) (r : Redis)
      → (process es r).bookings ≡ track "booking" (events es) r.bookings
  unfolding process track update_demand_features
  bookings-process [] r = refl
  bookings-process ((n, e) ∷ es) r = bookings-process es (update_demand_features fl n e r)

  get-hset :
      (route : String) (m : Dict String String) (hs : Dict String (Dict String String))
      → or_empty (get route (hset route m hs)) ≡ update m (or_empty (get route hs))
  unfolding hset
  get-hset route m hs = rw (get-put, ==_refl)

  get-update_four :
      (a b c d : String) (h : Dict String String)
      → let h' =
          update
            (("searches_5m", a)
              ∷ ("bookings_15m", b)
              ∷ ("look_to_book_1h", c)
              ∷ ("stream_computed_at", d)
              ∷ [])
            h in
        (get "searches_5m" h' ≡ some a)
        × (get "bookings_15m" h' ≡ some b)
        × (get "look_to_book_1h" h' ≡ some c)
        × (get "stream_computed_at" h' ≡ some d)
  unfolding update
  get-update_four a b c d h = (simp get-put, simp get-put, simp get-put, simp get-put)

  zcount-last :
      (event_type : String) (epoch_of : String → ℕ) (es : List Event) (e : Event) (window : ℕ)
      → window ≤ w_1h
      → All (λ x. (x.sim_epoch ≡ epoch_of x.event_id) × (x.sim_epoch ≤ e.sim_epoch)) es
      → e.sim_epoch ≡ epoch_of e.event_id
      → zcount window e.sim_epoch
          (zset e.route_id (add_and_trim (is_of_type event_type e) e (track event_type es [])))
        ≡ count_distinct e.route_id event_type window e.sim_epoch (es ++ e ∷ [])
  zcount-last event_type epoch_of es e window short f g =
      ap (λ zs. zcount window e.sim_epoch (zset e.route_id zs))
        (sym (track-append event_type es e []))
      ∙ zcount-track epoch_of e.route_id event_type window e.sim_epoch (es ++ e ∷ []) short
          (All-append _ es (e ∷ []) f ((g, le_refl _), tt))

  -- Start from a Redis with no stream state and process any events, of any routes, also repeated ones.
  -- If an event id always comes with the same time and no earlier event is later than the last one,
  -- then after the last event its route's hash holds the texts of exactly the values that the
  -- reconstruction computes from those events at that event's time.
  pub update_demand_features-reconstruct :
      (epoch_of : String → ℕ) (before : List (String × Event)) (now_iso : String) (e : Event)
      (r : Redis)
      → r.searches ≡ []
      → r.bookings ≡ []
      → All (λ x. (x.sim_epoch ≡ epoch_of x.event_id) × (x.sim_epoch ≤ e.sim_epoch)) (events before)
      → e.sim_epoch ≡ epoch_of e.event_id
      → let after = update_demand_features fl now_iso e (process before r) in
        let hash = or_empty (get e.route_id after.routes) in
        let w = reconstruct fl e.route_id e.sim_epoch (events before ++ e ∷ []) in
        (get "searches_5m" hash ≡ some (fl.str w.searches_5m))
        × (get "bookings_15m" hash ≡ some (fl.str w.bookings_15m))
        × (get "look_to_book_1h" hash ≡ some (fl.str w.look_to_book_1h))
        × (get "stream_computed_at" hash ≡ some now_iso)
  unfolding update_demand_features reconstruct
  update_demand_features-reconstruct epoch_of before now_iso e r s0 b0 f g =
      rw (get-hset, searches-process before r, bookings-process before r, s0, b0)
        (rw
          (
            zcount-last "search" epoch_of (events before) e w_5m (omega arith) f g,
            zcount-last "booking" epoch_of (events before) e w_15m (omega arith) f g,
            zcount-last "booking" epoch_of (events before) e w_1h (omega arith) f g,
            zcount-last "search" epoch_of (events before) e w_1h (omega arith) f g,
          )
          (get-update_four _ _ _ _ _))
