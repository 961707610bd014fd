-- ===== src/Events/Poller.antt =====
-- services/weather-poller/app/main.py: the loop that reads the weather of each city and produces it. What the
-- weather service and the Kafka library answer, the signals and the clock come with each visit and each round.
pub mod Readings
pub mod Faults
use weather_demand_forecast.Prelude.{
  ℕ, zero, suc, ◌+◌, ◌-◌, String, Bool, true, false, ◌||◌, not, List, [], ◌∷◌, Option, none, some,
  filter, ltb, ◌==◌, String_eq, if◌then◌else◌,
}
use weather_demand_forecast.Json.{
  Value, str, obj, field, end, Exc, json_decode, key_error, value_error, kafka_error, url_error,
  other, Result, ok, raise, ◌>>=◌, subscript,
}
use weather_demand_forecast.Ingestor.Consumers.{is_empty}
use weather_demand_forecast.Events.Producer.{
  Stamp, EventProducer, produce, exit, new_producer, weather_readings_schema_version,
}

-- The answer to a request: `failed` is what `urlopen` raises as a URLError, also for a status of 4xx or 5xx;
-- `broken` is another exception, such as a TimeoutError of `resp.read()`.
pub data Fetch : Type 0 where
  failed broken : Fetch
  answered : List ℕ → Fetch

-- What the visit of a city meets.
pub record Visit : Type 0 where
  pub shutdown : Bool
  pub fetch : Fetch
  pub polled_at : String
  pub stamp : Stamp
  pub answer : Option Exc

-- A turn of the waiting loop: _SHUTDOWN, and the clock in its test and in the argument of `sleep`.
pub record Look : Type 0 where
  pub shutdown : Bool
  pub now : ℕ
  pub again : ℕ

-- A turn of the main loop. The clock is read before the visits and twice after them.
pub record Round : Type 0 where
  pub shutdown : Bool
  pub cycle_start : ℕ
  pub visit : ℕ → Visit
  pub cycle_end : ℕ
  pub before_wait : ℕ
  pub looks : List Look

-- how the process leaves `main`, unless by an exception
pub data Exit : Type 0 where
  stopped sys_exit : Exit

-- v["a"]["b"] and so on
unfoldable pub path : Value → List String → Result Value
path v [] = ok v
path v (k ∷ ks) = do w ← subscript v k; path w ks

unfoldable pub flatten : String → String → Value → Result Value
unfolding path
flatten city_key polled_at api_response = do
  cc ← subscript api_response "currentConditions"
  temperature_c ← path cc ("temperature" ∷ "degrees" ∷ [])
  feels_like_c ← path cc ("feelsLike" ∷ "degrees" ∷ [])
  dew_point_c ← path cc ("dewPoint" ∷ "degrees" ∷ [])
  humidity_pct ← path cc ("humidity" ∷ [])
  wind_kph ← path cc ("wind" ∷ "speed" ∷ "value" ∷ [])
  wind_direction_deg ← path cc ("wind" ∷ "direction" ∷ "degrees" ∷ [])
  cloud_cover_pct ← path cc ("cloudCover" ∷ [])
  precip_probability_pct ← path cc ("precipitation" ∷ "probability" ∷ "percent" ∷ [])
  precip_mm ← path cc ("precipitation" ∷ "qpf" ∷ "quantity" ∷ [])
  condition ← path cc ("weatherCondition" ∷ "type" ∷ [])
  ok (
      obj (
        field "city" (str city_key) (
          field "polled_at" (str polled_at) (
            field "temperature_c" temperature_c (
              field "feels_like_c" feels_like_c (
                field "dew_point_c" dew_point_c (
                  field "humidity_pct" humidity_pct (
                    field "wind_kph" wind_kph (
                      field "wind_direction_deg" wind_direction_deg (
                        field "cloud_cover_pct" cloud_cover_pct (
                          field "precip_probability_pct" precip_probability_pct (
                            field "precip_mm" precip_mm
                              (field "condition" condition end)))))))))))))

-- except (urllib.error.URLError, KeyError, json.JSONDecodeError)
abbrev pub is_skipped : Exc → Bool
is_skipped url_error = true
is_skipped key_error = true
is_skipped json_decode = true
is_skipped _ = false

-- the keys of CITIES
abbrev pub known_cities : List String
known_cities =
    "london" ∷ "nairobi" ∷ "moscow" ∷ "singapore" ∷ "reykjavik" ∷ "cape_town" ∷ "new_york" ∷ "tokyo"
    ∷ "dubai" ∷ "sydney" ∷ []

unfoldable pub is_in : String → List String → Bool
is_in k [] = false
is_in k (c ∷ cs) = (c == k) || is_in k cs

-- `while not _SHUTDOWN and time.monotonic() < deadline`; `sleep` refuses a negative time
unfoldable pub wait : ℕ → List Look → Result (Unit {0})
wait deadline [] = ok tt
wait deadline (l ∷ ls) =
    let rest = wait deadline ls in
    if l.shutdown || not (ltb l.now deadline)
    then ok tt
    else (if ltb deadline l.again then raise value_error else rest)

-- a KafkaException is logged, and the process exits
unfoldable pub exit_code : Result Exit → Result Exit
exit_code (raise kafka_error) = ok sys_exit
exit_code r = r

module _ (loads : Option (List ℕ) → Result Value) (weather_topic : String) where
  unfoldable pub fetch_current : Fetch → Result Value
  fetch_current failed = raise url_error
  fetch_current broken = raise other
  fetch_current (answered bytes) = loads (some bytes)

  -- the `try` of a visit
  unfoldable pub reading : String → Visit → Result Value
  reading city_key v = do raw ← fetch_current v.fetch; flatten city_key v.polled_at raw

  unfoldable pub visit_city : String → Visit → EventProducer → Result (Unit {0}) × EventProducer
  visit_city city_key v p = elim (reading city_key v) [
    | ok payload ↦
        produce v.answer weather_topic city_key weather_readings_schema_version v.stamp payload p
    | raise e ↦ (if is_skipped e then ok tt else raise e, p)
  ]

  -- for city_key in city_keys, with the number of the visit
  unfoldable pub cycle :
      (ℕ → Visit) → ℕ → List String → EventProducer → Result (Unit {0}) × EventProducer
  cycle visit n [] p = (ok tt, p)
  cycle visit n (city_key ∷ city_keys) p =
      let done = visit_city city_key (visit n) p in
      let rest = cycle visit (suc n) city_keys done.1 in
      if (visit n).shutdown
      then (ok tt, p)
      else elim done.0 [ ok u ↦ rest | raise e ↦ (raise e, done.1) ]

  -- a turn of the loop: the cycle, and the wait for the rest of the interval
  unfoldable pub turn : ℕ → List String → Round → EventProducer → Result (Unit {0}) × EventProducer
  turn poll_interval city_keys r p =
      let done = cycle r.visit 0 city_keys p in
      let elapsed = r.cycle_end - r.cycle_start in
      let deadline = r.before_wait + (poll_interval - elapsed) in
      elim done.0 [ ok u ↦ (wait deadline r.looks, done.1) | raise e ↦ (raise e, done.1) ]

  -- `while not _SHUTDOWN`
  unfoldable pub rounds :
      ℕ → List String → List Round → EventProducer → Result (Unit {0}) × EventProducer
  rounds poll_interval city_keys [] p = (ok tt, p)
  rounds poll_interval city_keys (r ∷ rs) p =
      let done = turn poll_interval city_keys r p in
      let rest = rounds poll_interval city_keys rs done.1 in
      if r.shutdown then (ok tt, p) else elim done.0 [ ok u ↦ rest | raise e ↦ (raise e, done.1) ]

  -- run(settings): unknown cities are skipped, and without a city the process exits
  unfoldable pub run : ℕ → List String → List Round → Result Exit × EventProducer
  run poll_interval cities rs =
      let city_keys = filter (λ k. is_in k known_cities) cities in
      let ended = rounds poll_interval city_keys rs new_producer in
      if is_empty city_keys
      then (ok sys_exit, new_producer)
      else (ended.0 >>= λ u. ok stopped, exit ended.1)

  -- main()
  unfoldable pub main : ℕ → List String → List Round → Result Exit × EventProducer
  main poll_interval cities rs = let ran = run poll_interval cities rs in (exit_code ran.0, ran.1)
