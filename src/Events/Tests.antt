-- ===== src/Events/Tests.antt =====
-- Runs of the two producers on a few messages.
use weather_demand_forecast.Floats.Whole.{whole}
use weather_demand_forecast.Prelude.{
  ℕ, ◌≡◌, refl, String, Bool, true, false, List, [], ◌∷◌, Option, none, some, All, filter, ◌==◌,
  ℕ_eq, String_eq,
}
use weather_demand_forecast.Json.{
  Value, null, int, pos, str, obj, field, end, Result, ok, raise, other, subscript, lookup,
}
use weather_demand_forecast.MockWeather.{ChaosConfig, apply_chaos, nullify, drift, set_field}
use weather_demand_forecast.Ingestor.Consumers.{weather_topic}
use weather_demand_forecast.Events.Producer.{Stamp, Produced, envelope, produce, exit, new_producer}
use weather_demand_forecast.Events.Poller
use weather_demand_forecast.Events.Poller.{
  Visit, Round, answered, path, is_in, known_cities, fetch_current, reading, visit_city, cycle,
  wait, turn, rounds, flatten,
}
use weather_demand_forecast.Events.Poller.Readings.{run-Accepted}
use weather_demand_forecast.Events.Poller.Faults.{main-nulled}
use weather_demand_forecast.Events.Arrival.{Codec, Accepted, IsReadBack}

abbrev degrees : ℕ → Value
degrees n = obj (field "degrees" (int (pos n)) end)

abbrev response : Value
response = obj (
    field "currentConditions"
      (obj (
        field "temperature" (degrees 3) (
          field "feelsLike" (degrees 1) (
            field "dewPoint" (degrees 0) (
              field "humidity" (int (pos 85)) (
                field "wind"
                  (obj (
                    field "speed" (obj (field "value" (int (pos 15)) end))
                      (field "direction" (degrees 270) end)))
                  (field "precipitation"
                    (obj (
                      field "probability" (obj (field "percent" (int (pos 40)) end))
                        (field "qpf" (obj (field "quantity" (int (pos 1)) end)) end)))
                    (field "weatherCondition" (obj (field "type" (str "RAIN") end))
                      (field "cloudCover" (int (pos 80)) end)))))))))
      end)

abbrev stamp : Stamp
stamp = record { event_id = "a"; produced_at = "noon" }

abbrev visit_by : List ℕ → Visit
visit_by bytes = record {
  shutdown = false;
  fetch = answered bytes;
  polled_at = "noon";
  stamp = stamp;
  answer = none;
}

abbrev round : List ℕ → Round
round bytes = record {
  shutdown = false;
  cycle_start = 0;
  visit = λ n. visit_by bytes;
  cycle_end = 2;
  before_wait = 2;
  looks = [];
}

abbrev cities : List String
cities = "london" ∷ "paris" ∷ []

abbrev message : Produced
message = record {
  topic = "weather";
  city = "london";
  schema_version = 1;
  stamp = stamp;
  payload = obj (
      field "city" (str "london") (
        field "polled_at" (str "noon") (
          field "temperature_c" (int (pos 3)) (
            field "feels_like_c" (int (pos 1)) (
              field "dew_point_c" (int (pos 0)) (
                field "humidity_pct" (int (pos 85)) (
                  field "wind_kph" (int (pos 15)) (
                    field "wind_direction_deg" (int (pos 270)) (
                      field "cloud_cover_pct" (int (pos 80)) (
                        field "precip_probability_pct" (int (pos 40)) (
                          field "precip_mm" (int (pos 1))
                            (field "condition" (str "RAIN") end))))))))))));
}

-- the response for one text, and the envelope for any other
abbrev loads_text : List ℕ → Result Value
loads_text [] = ok response
loads_text (c ∷ s) = ok (envelope message)

abbrev loads : Option (List ℕ) → Result Value
loads none = raise other
loads (some s) = loads_text s

abbrev codec : Codec
codec = record { encode = λ s. []; dumps = λ v. 1 ∷ [] }

abbrev same_id : Value → Value → Bool
same_id v w = true

sent : (Poller.run loads "weather" 10 cities (round [] ∷ [])).1.queue ≡ message ∷ []
unfolding Poller.run rounds turn cycle visit_city reading fetch_current flatten path wait filter
    is_in produce exit subscript lookup
sent = refl

sent-IsReadBack :
    All
      (IsReadBack loads same_id codec weather_topic 0 7)
      (Poller.run loads "weather" 10 cities (round [] ∷ [])).1.queue
sent-IsReadBack = rw sent (refl, tt)

run-Accepted_example :
    All
      (Accepted loads same_id codec weather_topic 0 7)
      (Poller.run loads "weather" 10 cities (round [] ∷ [])).1.queue
run-Accepted_example =
    run-Accepted loads "weather" same_id codec 10 cities (round [] ∷ []) 0 7 sent-IsReadBack

-- the first draw is below the rate
abbrev hits : ℕ → ℕ → Bool
hits rate n = n == 0

abbrev renaming : ChaosConfig ℕ
renaming = record { latency_ms = 0; error_rate = 0; null_field_rate = 0; schema_drift = true }

abbrev nulling : ChaosConfig ℕ
nulling = record { latency_ms = 0; error_rate = 0; null_field_rate = 1; schema_drift = false }

abbrev small : Value
small = obj (field "currentConditions" (obj (field "temperature" (degrees 3) end)) end)

abbrev load_by : ChaosConfig ℕ → Option (List ℕ) → Result Value
load_by cfg text = ok (apply_chaos whole hits cfg small)

renamed_response :
    apply_chaos whole hits renaming small
    ≡ obj (field "currentConditions" (obj (field "temp" (degrees 3) end)) end)
unfolding apply_chaos nullify drift set_field
renamed_response = refl

found :
    lookup "currentConditions" (field "currentConditions" (obj (field "temp" (degrees 3) end)) end)
    ≡ some (obj (field "temp" (degrees 3) end))
unfolding lookup
found = refl

nulled_response : apply_chaos whole hits nulling small ≡ obj (field "currentConditions" null end)
unfolding apply_chaos nullify drift
nulled_response = refl

found_null : lookup "currentConditions" (field "currentConditions" null end) ≡ some null
unfolding lookup
found_null = refl

known : filter (λ k. is_in k known_cities) cities ≡ "london" ∷ []
unfolding filter is_in
known = refl

main-nulled_example :
    Poller.main (load_by nulling) "weather" 10 cities (round [] ∷ [])
    ≡ (raise other, exit new_producer)
main-nulled_example =
    main-nulled whole hits nulling (load_by nulling) "weather" 10 cities "london" [] (round []) []
      [] small (field "currentConditions" null end) known refl refl refl refl nulled_response
      found_null
