-- ===== src/Events/Poller/Faults.antt =====
-- The poller against the faults that the mock weather service injects.
use mathlib.Core.Path.{subst}
use weather_demand_forecast.Floats.{Floats}
use weather_demand_forecast.Prelude.{
  ℕ, String, ◌≡◌, refl, ap, ◌∙◌, Bool, true, false, List, ◌∷◌, Option, none, some, ◌==◌, String_eq,
  Bool-cases, inl, inr, filter,
}
use weather_demand_forecast.Json.{
  Value, Fields, null, obj, field, end, Result, ok, raise, key_error, other, subscript, lookup,
  ◌>>=◌,
}
use weather_demand_forecast.MockWeather.{ChaosConfig, apply_chaos}
use weather_demand_forecast.MockWeather.Shape.{Lacks, LacksFields, apply_chaos-Lacks}
use weather_demand_forecast.Events.Producer.{EventProducer, exit, new_producer}
use weather_demand_forecast.Events.Poller.{
  Visit, Round, answered, flatten, path, is_in, known_cities, fetch_current, reading, visit_city,
  cycle, turn, rounds, run, main, exit_code,
}

-- the first access that fails decides
flatten_null :
    (city_key polled_at : String) (fs : Fields)
    → lookup "currentConditions" fs ≡ some null
    → flatten city_key polled_at (obj fs) ≡ raise other
unfolding flatten path subscript
flatten_null city_key polled_at fs e = rw e refl

flatten_missing :
    (city_key polled_at : String) (fs gs : Fields)
    → lookup "currentConditions" fs ≡ some (obj gs)
    → lookup "temperature" gs ≡ none
    → flatten city_key polled_at (obj fs) ≡ raise key_error
unfolding flatten path subscript
flatten_missing city_key polled_at fs gs e missing = rw (e, missing) refl

-- what a lookup finds
abbrev OptionLacks : String → Option Value → Type 0
OptionLacks k none = Unit
OptionLacks k (some v) = Lacks k v

lookup-Lacks :
    (k j : String) (fs : Fields) (v : Value) → LacksFields k fs → lookup j fs ≡ some v → Lacks k v
unfolding lookup LacksFields
lookup-Lacks k j end v h e = cc
lookup-Lacks k j (field i w fs) v h e = elim (Bool-cases (i == j)) [
  | inl same ↦ subst (OptionLacks k) (rw same at e) h.1
  | inr differs ↦ lookup-Lacks k j fs v h.2 (rw differs at e)
]

lookup_lacking : (k : String) (fs : Fields) → LacksFields k fs → lookup k fs ≡ none
unfolding lookup LacksFields
lookup_lacking k end h = refl
lookup_lacking k (field j v fs) h = rw h.0 (lookup_lacking k fs h.2)

module _ (loads : Option (List ℕ) → Result Value) (name : String) where
  reading-answered :
      (city_key : String) (v : Visit) (bytes : List ℕ) (value : Value)
      → v.fetch ≡ answered bytes
      → loads (some bytes) ≡ ok value
      → reading loads name city_key v ≡ flatten city_key v.polled_at value
  unfolding reading fetch_current
  reading-answered city_key v bytes value sent read =
      let next : Value → Result Value = flatten city_key v.polled_at in
      ap (λ f. fetch_current loads name f >>= next) sent ∙ ap (λ r. r >>= next) read

  -- an exception that the visit does not handle leaves the loops one after the other
  cycle-raises :
      (visit : ℕ → Visit) (c : String) (cs : List String) (p : EventProducer)
      → (visit 0).shutdown ≡ false
      → visit_city loads name c (visit 0) p ≡ (raise other, p)
      → cycle loads name visit 0 (c ∷ cs) p ≡ (raise other, p)
  unfolding cycle
  cycle-raises visit c cs p first raised = rw (raised, raised, first) refl

  turn-raises :
      (interval : ℕ) (cities : List String) (r : Round) (p : EventProducer)
      → cycle loads name r.visit 0 cities p ≡ (raise other, p)
      → turn loads name interval cities r p ≡ (raise other, p)
  unfolding turn
  turn-raises interval cities r p raised = rw (raised, turn, raised) refl

  rounds-raises :
      (interval : ℕ) (cities : List String) (r : Round) (rs : List Round) (p : EventProducer)
      → r.shutdown ≡ false
      → turn loads name interval cities r p ≡ (raise other, p)
      → rounds loads name interval cities (r ∷ rs) p ≡ (raise other, p)
  unfolding rounds
  rounds-raises interval cities r rs p on raised = rw (raised, raised, on) refl

  main-raises :
      (interval : ℕ) (cities : List String) (c : String) (cs : List String) (rs : List Round)
      → filter (λ k. is_in k known_cities) cities ≡ c ∷ cs
      → rounds loads name interval (c ∷ cs) rs new_producer ≡ (raise other, new_producer)
      → main loads name interval cities rs ≡ (raise other, exit new_producer)
  unfolding main run exit exit_code
  main-raises interval cities c cs rs known raised =
      let ran : run loads name interval cities rs ≡ (raise other, exit new_producer) =
        rw (run, known, raised) refl in
      rw (main, ran) refl

module _ (fl : Floats) (hits : fl.Float → ℕ → Bool) (cfg : ChaosConfig fl.Float)
    (loads : Option (List ℕ) → Result Value) (name : String) where
  -- Let a visit be answered by a response with conditions, after the faults of the service. If the service renames
  -- fields, the visit is skipped: it raises nothing and produces nothing.
  pub visit_city-renamed :
      (city_key : String) (v : Visit) (bytes : List ℕ) (body : Value) (fs gs : Fields)
      (p : EventProducer)
      → cfg.schema_drift ≡ true
      → v.fetch ≡ answered bytes
      → loads (some bytes) ≡ ok (apply_chaos fl hits cfg body)
      → apply_chaos fl hits cfg body ≡ obj fs
      → lookup "currentConditions" fs ≡ some (obj gs)
      → visit_city loads name city_key v p ≡ (ok tt, p)
  unfolding visit_city Lacks
  visit_city-renamed city_key v bytes body fs gs p drifts sent read shape found =
      let lacking : LacksFields "temperature" fs =
        subst (Lacks "temperature") shape (apply_chaos-Lacks fl hits cfg body drifts) in
      let missing =
        lookup_lacking "temperature" gs (lookup-Lacks "temperature" _ fs (obj gs) lacking found) in
      let raised =
        reading-answered loads name city_key v bytes (obj fs) sent (read ∙ ap ok shape)
        ∙ flatten_missing city_key v.polled_at fs gs found missing in
      rw (raised, visit_city) refl

  -- Let the first visit of a turn of the poller be answered by a response whose conditions the service has set to
  -- null. Then the poller has come to its end, by an exception that neither the visit nor `main` handles.
  pub main-nulled :
      (interval : ℕ) (cities : List String) (c : String) (cs : List String) (r : Round)
      (rs : List Round) (bytes : List ℕ) (body : Value) (fs : Fields)
      → filter (λ k. is_in k known_cities) cities ≡ c ∷ cs
      → r.shutdown ≡ false
      → (r.visit 0).shutdown ≡ false
      → (r.visit 0).fetch ≡ answered bytes
      → loads (some bytes) ≡ ok (apply_chaos fl hits cfg body)
      → apply_chaos fl hits cfg body ≡ obj fs
      → lookup "currentConditions" fs ≡ some null
      → main loads name interval cities (r ∷ rs) ≡ (raise other, exit new_producer)
  unfolding visit_city
  main-nulled interval cities c cs r rs bytes body fs known on first sent read shape found =
      let raised =
        reading-answered loads name c (r.visit 0) bytes (obj fs) sent (read ∙ ap ok shape)
        ∙ flatten_null c (r.visit 0).polled_at fs found in
      let visited : visit_city loads name c (r.visit 0) new_producer ≡ (raise other, new_producer) =
        rw (raised, visit_city) refl in
      let cycled = cycle-raises loads name r.visit c cs new_producer first visited in
      let turned = turn-raises loads name interval (c ∷ cs) r new_producer cycled in
      main-raises loads name interval cities c cs (r ∷ rs) known
        (rounds-raises loads name interval (c ∷ cs) r rs new_producer on turned)
