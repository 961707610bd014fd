-- ===== src/Stream/RedisOps.antt =====
-- services/worker/app/stream_features/redis_ops.py. The key patterns `feat:stream:{route}:searches`,
-- `feat:stream:{route}:bookings` and `feat:route:{route}` name different keys for different routes, so
-- each pattern is a dictionary by route. Times are in microseconds since the epoch.
use weather_demand_forecast.Floats.{Floats}
use weather_demand_forecast.Prelude.{
  ℕ, ◌+◌, ◌*◌, String, Bool, true, false, ◌&&◌, List, [], ◌∷◌, ◌++◌, Option, none, some, length,
  filter, leb, ◌==◌, String_eq, if◌then◌else◌,
}
use weather_demand_forecast.Prelude.Dict.{Dict, get, put, update}

-- a sorted set: the members with their scores
abbrev pub ZSet : Type 0
ZSet = Dict String ℕ

abbrev pub Hash : Type 0
Hash = Dict String String

pub record Redis : Type 0 where
  pub searches : Dict String ZSet
  pub bookings : Dict String ZSet
  pub routes : Dict String Hash
  pub sync_completed_at : Option String

abbrev pub second : ℕ
second = 1_000_000

abbrev pub w_5m : ℕ
w_5m = 300 * second

abbrev pub w_15m : ℕ
w_15m = 900 * second

abbrev pub w_1h : ℕ
w_1h = 3600 * second

-- What Redis holds at a missing key.
abbrev pub or_empty {ℓ} : {A : Type ℓ} → Option (List A) → List A
or_empty none = []
or_empty (some d) = d

-- ZREMRANGEBYSCORE key -inf trim_upper, where trim_upper = sim_epoch - 3600 - 1
unfoldable pub trim : ℕ → ZSet → ZSet
unfolding filter
trim sim_epoch = filter (λ e. if leb (e.1 + w_1h + second) sim_epoch then false else true)

-- lo <= score <= sim_epoch, where lo = sim_epoch - window
abbrev pub in_window : ℕ → ℕ → ℕ → Bool
in_window window sim_epoch score = leb sim_epoch (score + window) && leb score sim_epoch

-- ZCOUNT key lo sim_epoch
unfoldable pub zcount : ℕ → ℕ → ZSet → ℕ
unfolding filter
zcount window sim_epoch z = length (filter (λ e. in_window window sim_epoch e.1) z)

abbrev pub zset : String → Dict String ZSet → ZSet
zset route zs = or_empty (get route zs)

-- HSET: the fields of the mapping are written, the others stay.
unfoldable pub hset : String → Hash → Dict String Hash → Dict String Hash
hset route mapping hashes = put route (update mapping (or_empty (get route hashes))) hashes

pub record Event : Type 0 where
  pub route_id : String
  pub event_id : String
  pub event_type : String
  pub sim_epoch : ℕ

-- Phases 1 and 2 on one of the two sets: ZADD if the event is of its type, then the trim.
unfoldable pub add_and_trim : Bool → Event → Dict String ZSet → Dict String ZSet
unfolding trim
add_and_trim is_member e zs =
    let z = zset e.route_id zs in
    put e.route_id (trim e.sim_epoch (if is_member then put e.event_id e.sim_epoch z else z)) zs

module _ (fl : Floats) where
  open fl use {of_ℕ, div, max, round, str}

  abbrev pub ratio : ℕ → ℕ → String
  ratio bookings_1h searches_1h =
      str (round (div (of_ℕ bookings_1h) (max (of_ℕ 1) (of_ℕ searches_1h))) 6)

  -- `now_iso` is the wall clock's text
  unfoldable pub update_demand_features : String → Event → Redis → Redis
  update_demand_features now_iso e r =
      let searches = add_and_trim (e.event_type == "search") e r.searches in
      let bookings = add_and_trim (e.event_type == "booking") e r.bookings in
      let s = zset e.route_id searches in
      let b = zset e.route_id bookings in
      record r {
        searches = searches;
        bookings = bookings;
        routes =
            hset e.route_id
              (("searches_5m", str (of_ℕ (zcount w_5m e.sim_epoch s)))
                ∷ ("bookings_15m", str (of_ℕ (zcount w_15m e.sim_epoch b)))
                ∷ ("look_to_book_1h", ratio (zcount w_1h e.sim_epoch b) (zcount w_1h e.sim_epoch s))
                ∷ ("stream_computed_at", now_iso)
                ∷ [])
              r.routes;
      }

  -- `if x is not None: mapping[field] = …`
  abbrev pub field_unless_none : String → Option String → Hash
  field_unless_none field none = []
  field_unless_none field (some text) = (field, text) ∷ []

  -- the values come as the texts `str(float(x))`, `str(x)` that are written
  unfoldable pub update_weather_features :
      String → String → Option String → Option String → Option String → Redis → Redis
  update_weather_features now_iso route_id temperature_c precip_mm condition r = record r {
    routes =
        hset route_id
          (("stream_computed_at", now_iso) ∷ field_unless_none "weather_temp_c" temperature_c
            ++ field_unless_none "weather_precip_mm" precip_mm
            ++ field_unless_none "weather_condition" condition)
          r.routes;
  }
