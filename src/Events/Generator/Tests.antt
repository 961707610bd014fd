-- ===== src/Events/Generator/Tests.antt =====
-- A tick of the generator, with natural numbers in place of floats.
use weather_demand_forecast.Prelude.{
  ◌+◌, refl, true, false, List, [], ◌∷◌, Option, none, some, All, filter, if◌then◌else◌, ◌==◌,
}
use weather_demand_forecast.Prelude.Texts.{Text, Text_eq, same_text, codes}
use weather_demand_forecast.Json.{pos, Value, int, str, Result, ok, raise, other, subscript, lookup}
use weather_demand_forecast.Ingestor.Consumers.{demand_topic}
use weather_demand_forecast.Numbers.{InRange}
use weather_demand_forecast.Numbers.Naturals.{naturals}
use weather_demand_forecast.Weather.{Time, City, WeatherReading, Random, generate_reading}
use weather_demand_forecast.Weather.Bounds.{Agrees, generate_reading_bounds}
use weather_demand_forecast.Events.Demand.{value, generate_quantity}
use weather_demand_forecast.Events.Producer.{Produced, envelope, produce, exit}
use weather_demand_forecast.Events.Poller.{is_in}
use weather_demand_forecast.Events.Arrival.{Codec, Accepted, IsReadBack}
use weather_demand_forecast.Events.Generator.{
  Model, Tick, emit, emit_types, emit_cities, ticks, run, main, dict_keys,
}
use weather_demand_forecast.Events.Generator.Ticks.{main-Accepted}

abbrev noon : Time
noon = record { year = 2024; month = 1; day = 15; hour = 12; yday = 15 }

abbrev rng : Random naturals
rng = record {
  gauss = λ n mu sigma. mu + sigma;
  uniform = λ n lo hi. hi;
  expovariate = λ n rate. rate;
}

abbrev london : City naturals
london = record { name = "London"; lat = 51; lon = 0 }

generate_reading_bounds_example :
    InRange 10 100 (generate_reading naturals (λ seed. rng) london noon).humidity_pct
    × InRange 0 100 (generate_reading naturals (λ seed. rng) london noon).cloud_cover_pct
    × InRange 0 100 (generate_reading naturals (λ seed. rng) london noon).precip_probability_pct
    × Agrees 0
        (generate_reading naturals (λ seed. rng) london noon).condition
        (generate_reading naturals (λ seed. rng) london noon).precip_mm
generate_reading_bounds_example = generate_reading_bounds naturals (λ seed. rng) london noon

abbrev reading : WeatherReading naturals
reading = generate_reading naturals (λ seed. rng) london noon

abbrev model : Model
model = record {
  num = naturals;
  reading = λ city ts. reading;
  gauss = λ seed mu sigma. mu;
  isoformat = λ ts. "noon";
  number = λ x. int (pos x);
  later = λ ts. ts;
}

abbrev tick : Tick
tick = record {
  shutdown = false;
  call = λ city event_type. record {
    stamp = record { event_id = value event_type; produced_at = "noon" };
    answer = none;
  };
}

-- The text of an envelope is the identity of its message, by which it is read back.
abbrev text_of : Result Value → Text
text_of (ok (str s)) = codes s
text_of r = []

abbrev codec : Codec
codec = record { encode = codes; dumps = λ v. text_of (subscript v "event_id") }

find : Text → List Produced → Result Value
find t [] = raise other
find t (m ∷ ms) = if codes m.stamp.event_id == t then ok (envelope m) else find t ms

abbrev loads : Option Text → Result Value
loads none = raise other
loads (some t) = find t (main model "demand" ("london" ∷ []) noon (tick ∷ [])).1.queue

sent-IsReadBack :
    All
      (IsReadBack loads (λ v w. true) codec demand_topic 0 7)
      (main model "demand" ("london" ∷ []) noon (tick ∷ [])).1.queue
unfolding find subscript lookup same_text main run ticks emit_cities emit_types emit
    generate_quantity produce exit filter is_in dict_keys
sent-IsReadBack = (refl, (refl, (refl, (refl, (refl, (refl, tt))))))

main-Accepted_example :
    All
      (Accepted loads (λ v w. true) codec demand_topic 0 7)
      (main model "demand" ("london" ∷ []) noon (tick ∷ [])).1.queue
main-Accepted_example =
    main-Accepted model "demand" loads (λ v w. true) codec ("london" ∷ []) noon (tick ∷ []) 0 7
      sent-IsReadBack
