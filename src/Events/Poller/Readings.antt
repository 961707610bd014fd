-- ===== src/Events/Poller/Readings.antt =====
-- The messages of the weather poller, as the ingestor reads them.
use weather_demand_forecast.Prelude.{
  ℕ, suc, String, ◌≡◌, refl, inl, inr, Bool, List, [], ◌∷◌, Option, All, Bool-cases, filter,
}
use weather_demand_forecast.Json.{
  Value, obj, str, field, end, Result, ok, raise, Result-cases, subscript, contains, is_version_one,
  lookup, get_field,
}
use weather_demand_forecast.Ingestor.Db.{weather_row}
use weather_demand_forecast.Ingestor.Envelope.{validate_weather}
use weather_demand_forecast.Ingestor.Consumers.{is_empty, weather_topic}
use weather_demand_forecast.Events.Producer.{EventProducer, exit, new_producer}
use weather_demand_forecast.Events.Arrival.{
  Codec, Fits, IsSent, Ensures, returns, >>=-Ensures, produce-IsSent, unless_stopped, Accepted,
  IsReadBack, All-Accepted,
}
use weather_demand_forecast.Events.Poller.{
  Visit, Round, flatten, path, is_in, known_cities, fetch_current, reading, visit_city, cycle, turn,
  rounds, run,
}

-- the payload of a reading
abbrev payload_of :
    String
    → String
    → Value
    → Value
    → Value
    → Value
    → Value
    → Value
    → Value
    → Value
    → Value
    → Value
    → Value
payload_of city_key polled_at t f d h w wd c pp mm co = obj (
    field "city" (str city_key) (
      field "polled_at" (str polled_at) (
        field "temperature_c" t (
          field "feels_like_c" f (
            field "dew_point_c" d (
              field "humidity_pct" h (
                field "wind_kph" w (
                  field "wind_direction_deg" wd (
                    field "cloud_cover_pct" c (
                      field "precip_probability_pct" pp
                        (field "precip_mm" mm (field "condition" co end))))))))))))

payload_of-Fits :
    (city_key polled_at : String) (t f d h w wd c pp mm co : Value)
    → Ensures (Fits weather_topic) (ok (payload_of city_key polled_at t f d h w wd c pp mm co))
unfolding validate_weather weather_row is_version_one contains lookup subscript get_field
payload_of-Fits city_key polled_at t f d h w wd c pp mm co =
    returns (payload_of city_key polled_at t f d h w wd c pp mm co) (refl, λ p o k r e. refl)

flatten-Fits :
    (city_key polled_at : String) (v : Value)
    → Ensures (Fits weather_topic) (flatten city_key polled_at v)
unfolding flatten
flatten-Fits city_key polled_at v =
    let all = >>=-Ensures (Fits weather_topic) in
    all (subscript v "currentConditions") _ λ cc.
      all (path cc ("temperature" ∷ "degrees" ∷ [])) _ λ t.
        all (path cc ("feelsLike" ∷ "degrees" ∷ [])) _ λ f.
          all (path cc ("dewPoint" ∷ "degrees" ∷ [])) _ λ d. all (path cc ("humidity" ∷ [])) _ λ h.
            all (path cc ("wind" ∷ "speed" ∷ "value" ∷ [])) _ λ w.
              all (path cc ("wind" ∷ "direction" ∷ "degrees" ∷ [])) _ λ wd.
                all (path cc ("cloudCover" ∷ [])) _ λ c.
                  all (path cc ("precipitation" ∷ "probability" ∷ "percent" ∷ [])) _ λ pp.
                    all (path cc ("precipitation" ∷ "qpf" ∷ "quantity" ∷ [])) _ λ mm.
                      all (path cc ("weatherCondition" ∷ "type" ∷ [])) _
                        λ co. payload_of-Fits city_key polled_at t f d h w wd c pp mm co

module _ (loads : Option (List ℕ) → Result Value) (name : String) where
  reading-Fits :
      (city_key : String) (v : Visit) → Ensures (Fits weather_topic) (reading loads name city_key v)
  unfolding reading
  reading-Fits city_key v =
      >>=-Ensures (Fits weather_topic) (fetch_current loads name v.fetch) _
        (flatten-Fits city_key v.polled_at)

  abbrev AllSent : EventProducer → Type 0
  AllSent p = All (IsSent weather_topic) p.queue

  visit_by-AllSent :
      (city_key : String) (v : Visit) (p : EventProducer) (r : Result Value)
      → reading loads name city_key v ≡ r
      → Ensures (Fits weather_topic) r
      → AllSent p
      → AllSent (visit_city loads name city_key v p).1
  unfolding visit_city
  visit_by-AllSent city_key v p (ok payload) e (returns _ fits) all =
      rw (e, visit_city)
        (produce-IsSent weather_topic v.answer name city_key v.stamp payload p fits all)
  visit_by-AllSent city_key v p (raise x) e fits all = rw (e, visit_city) all

  visit_city-AllSent :
      (city_key : String) (v : Visit) (p : EventProducer)
      → AllSent p
      → AllSent (visit_city loads name city_key v p).1
  visit_city-AllSent city_key v p =
      visit_by-AllSent city_key v p (reading loads name city_key v) refl (reading-Fits city_key v)

  cycle-AllSent :
      (visit : ℕ → Visit) (n : ℕ) (cities : List String) (p : EventProducer)
      → AllSent p
      → AllSent (cycle loads name visit n cities p).1
  unfolding cycle
  cycle-AllSent visit n [] p all = all
  cycle-AllSent visit n (c ∷ cs) p all =
      let done = visit_city loads name c (visit n) p in
      let sent = visit_city-AllSent c (visit n) p all in
      unless_stopped AllSent (visit n).shutdown p done _ all sent
        (cycle-AllSent visit (suc n) cs done.1 sent)

  turn-AllSent :
      (interval : ℕ) (cities : List String) (r : Round) (p : EventProducer)
      → AllSent p
      → AllSent (turn loads name interval cities r p).1
  unfolding turn
  turn-AllSent interval cities r p all =
      elim (Result-cases (cycle loads name r.visit 0 cities p).0) [
        | inl (u, o) ↦ rw (o, turn) (cycle-AllSent r.visit 0 cities p all)
        | inr (x, o) ↦ rw (o, turn) (cycle-AllSent r.visit 0 cities p all)
      ]

  rounds-AllSent :
      (interval : ℕ) (cities : List String) (rs : List Round) (p : EventProducer)
      → AllSent p
      → AllSent (rounds loads name interval cities rs p).1
  unfolding rounds
  rounds-AllSent interval cities [] p all = all
  rounds-AllSent interval cities (r ∷ rs) p all =
      let done = turn loads name interval cities r p in
      let sent = turn-AllSent interval cities r p all in
      unless_stopped AllSent r.shutdown p done _ all sent
        (rounds-AllSent interval cities rs done.1 sent)

  run-AllSent :
      (interval : ℕ) (cities : List String) (rs : List Round)
      → AllSent (run loads name interval cities rs).1
  unfolding run exit
  run-AllSent interval cities rs =
      let known = filter (λ k. is_in k known_cities) cities in
      elim (Bool-cases (is_empty known)) [
        | inl e ↦ rw e tt
        | inr e ↦ rw e (rounds-AllSent interval known rs new_producer tt)
      ]

  -- Whatever the weather service answers, and however the poller ends: a message that it has produced is decoded
  -- and validated by the weather consumer, wherever it stands in the topic, and its row has the city, the time of
  -- the poll and the ten values of the reading in the columns' order, and the identity of the message; if the
  -- texts of the envelopes are read back as the envelopes.
  pub run-Accepted :
      (same_id : Value → Value → Bool) (codec : Codec) (interval : ℕ) (cities : List String)
      (rs : List Round) (partition offset : ℕ)
      → All
          (IsReadBack loads same_id codec weather_topic partition offset)
          (run loads name interval cities rs).1.queue
      → All
          (Accepted loads same_id codec weather_topic partition offset)
          (run loads name interval cities rs).1.queue
  run-Accepted same_id codec interval cities rs partition offset =
      All-Accepted loads same_id codec weather_topic partition offset _
        (run-AllSent interval cities rs)
