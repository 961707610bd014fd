-- ===== src/Events/Generator/Ticks.antt =====
-- The messages of the event generator, as the ingestor reads them.
use weather_demand_forecast.Prelude.{
  ℕ, String, refl, inl, inr, Bool, List, [], ◌∷◌, Option, All, Option-cases, Bool-cases, filter,
}
use weather_demand_forecast.Json.{
  Value, Result, is_version_one, contains, lookup, subscript, get_field,
}
use weather_demand_forecast.Ingestor.Db.{demand_row}
use weather_demand_forecast.Ingestor.Envelope.{validate_demand}
use weather_demand_forecast.Ingestor.Consumers.{is_empty, demand_topic}
use weather_demand_forecast.Weather.{Time}
use weather_demand_forecast.Events.Demand.{EventType, event_types, generate_quantity}
use weather_demand_forecast.Events.Producer.{EventProducer, new_producer, exit}
use weather_demand_forecast.Events.Poller.{is_in, known_cities}
use weather_demand_forecast.Events.Arrival.{
  Codec, Fits, IsSent, produce-IsSent, unless_stopped, unless_raised, Accepted, IsReadBack,
  All-Accepted,
}
use weather_demand_forecast.Events.Generator.{
  Model, Tick, payload_of, emit, emit_types, emit_cities, ticks, run, main, dict_keys,
}

module _ (model : Model) (name : String) where
  open model use {num, reading, gauss, later}

  payload_of-Fits :
      (city_key : String) (e : EventType) (sim_ts : Time) (quantity : num.Float)
      → Fits demand_topic (payload_of model name city_key e sim_ts quantity)
  unfolding payload_of validate_demand demand_row is_version_one contains lookup subscript get_field
  payload_of-Fits city_key e sim_ts quantity = (refl, λ p o k r i. refl)

  abbrev AllSent : EventProducer → Type 0
  AllSent p = All (IsSent demand_topic) p.queue

  emit-AllSent :
      (t : Tick) (sim_ts : Time) (c : String) (e : EventType) (p : EventProducer)
      → AllSent p
      → AllSent (emit model name t sim_ts c e p).1
  unfolding emit
  emit-AllSent t sim_ts c e p all =
      let call = t.call c e in
      elim (Option-cases (generate_quantity num gauss e (reading c sim_ts) c sim_ts)) [
        | inl o ↦ rw (o, emit) all
        | inr (q, o) ↦
            rw (o, emit)
              (produce-IsSent demand_topic call.answer name c call.stamp _ p
                (payload_of-Fits c e sim_ts q) all)
      ]

  emit_types-AllSent :
      (t : Tick) (sim_ts : Time) (c : String) (es : List EventType) (p : EventProducer)
      → AllSent p
      → AllSent (emit_types model name t sim_ts c es p).1
  unfolding emit_types
  emit_types-AllSent t sim_ts c [] p all = all
  emit_types-AllSent t sim_ts c (e ∷ es) p all =
      let sent = emit-AllSent t sim_ts c e p all in
      unless_raised AllSent (emit model name t sim_ts c e p) _ sent
        (emit_types-AllSent t sim_ts c es _ sent)

  emit_cities-AllSent :
      (t : Tick) (sim_ts : Time) (cs : List String) (p : EventProducer)
      → AllSent p
      → AllSent (emit_cities model name t sim_ts cs p).1
  unfolding emit_cities
  emit_cities-AllSent t sim_ts [] p all = all
  emit_cities-AllSent t sim_ts (c ∷ cs) p all =
      let sent = emit_types-AllSent t sim_ts c event_types p all in
      unless_raised AllSent (emit_types model name t sim_ts c event_types p) _ sent
        (emit_cities-AllSent t sim_ts cs _ sent)

  ticks-AllSent :
      (cities : List String) (sim_ts : Time) (ts : List Tick) (p : EventProducer)
      → AllSent p
      → AllSent (ticks model name cities sim_ts ts p).1
  unfolding ticks
  ticks-AllSent cities sim_ts [] p all = all
  ticks-AllSent cities sim_ts (t ∷ ts) p all =
      let done = emit_cities model name t sim_ts cities p in
      let sent = emit_cities-AllSent t sim_ts cities p all in
      unless_stopped AllSent t.shutdown p done _ all sent
        (ticks-AllSent cities (later sim_ts) ts done.1 sent)

  run-AllSent :
      (cities : List String) (start : Time) (ts : List Tick)
      → AllSent (run model name cities start ts).1
  unfolding run exit
  run-AllSent cities start ts =
      let known = filter (λ k. is_in k known_cities) cities in
      elim (Bool-cases (is_empty known)) [
        | inl e ↦ rw e tt
        | inr e ↦ rw e (ticks-AllSent (dict_keys [] known) start ts new_producer tt)
      ]

  -- However the generator ends: a message that it has produced is decoded and validated by the demand consumer,
  -- wherever it stands in the topic, and its row has the city, the type, the simulated time, the quantity, the
  -- temperature and the condition of the event, and the identity of the message; if the texts of the envelopes are
  -- read back as the envelopes.
  pub main-Accepted :
      (loads : Option (List ℕ) → Result Value) (same_id : Value → Value → Bool) (codec : Codec)
      (cities : List String) (start : Time) (ts : List Tick) (partition offset : ℕ)
      → All
          (IsReadBack loads same_id codec demand_topic partition offset)
          (main model name cities start ts).1.queue
      → All
          (Accepted loads same_id codec demand_topic partition offset)
          (main model name cities start ts).1.queue
  unfolding main
  main-Accepted loads same_id codec cities start ts partition offset =
      All-Accepted loads same_id codec demand_topic partition offset _ (run-AllSent cities start ts)
