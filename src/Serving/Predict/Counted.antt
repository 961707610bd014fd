-- ===== src/Serving/Predict/Counted.antt =====
-- The answers of POST /predict and what each of them counts.
use weather_demand_forecast.Floats.{Floats}
use weather_demand_forecast.Prelude.{
  ℕ, ◌+◌, ◌*◌, ◌/◌, ◌≤◌, ◌≡◌, refl, ◌⊎◌, inl, inr, String, Bool, true, false, ◌&&◌, List, Option,
  none, some, if◌then◌else◌, leb, Bool-cases, arith,
}
use weather_demand_forecast.Json.{Result, ok, raise, Exc}
use weather_demand_forecast.Stream.RedisOps.{Hash, w_1h}
use weather_demand_forecast.Features.Online.{fetch_online_features}
use weather_demand_forecast.Serving.Broadcast.{Client, broadcast}
use weather_demand_forecast.Serving.Models.{Loaded, Response, answered, http_error}
use weather_demand_forecast.Serving.Predict.{
  Trig, Base, Row, Forecast, Counts, count_hash, overlay, build_rows, respond, do_predict,
  forecasts_from, handle, announce, predict,
}

module _ (fl : Floats) {M : Type 0} (trig : Trig fl.Float)
    (infer : M → List (Row fl.Float) → Result (List fl.Float)) (float_of : String → Option fl.Float)
    (parse_time : String → Option ℕ) (during after : Loaded fl.Float M) where
  -- why a request is refused without a look at Redis
  abbrev pub IsRefusal :
      Option (Loaded fl.Float M) → Bool → ℕ → Result (Option (Base fl.Float)) → ℕ → Type 0
  IsRefusal loaded pg horizon mart code =
      ((code ≡ 422) × ((1 ≤ horizon × horizon ≤ 168) → ⊥))
      ⊎ (((code ≡ 503) × ((loaded ≡ none) ⊎ (pg ≡ false)))
          ⊎ (((code ≡ 404) × (mart ≡ ok none)) ⊎ ((code ≡ 500) × ((e : Exc) × (mart ≡ raise e)))))

  -- the rows of the mart's latest hour, with the live features over it
  abbrev pub live_rows :
      String → ℕ → ℕ → Counts fl → Base fl.Float → Option Hash → List (Row fl.Float)
  live_rows city horizon as_of c base redis =
      let fetched = fetch_online_features fl float_of parse_time as_of c.miss_counts redis in
      build_rows fl trig city horizon (overlay fetched.result.values base.columns) as_of

  -- what is counted of a look at Redis: a hit if it has a hash for the city, and a miss otherwise
  abbrev pub IsCounted : ℕ → Counts fl → Option Hash → Counts fl → Type 0
  IsCounted as_of c redis c2 =
      let fetched = fetch_online_features fl float_of parse_time as_of c.miss_counts redis in
      (c2.redis_hits ≡ (if fetched.result.hash_present then c.redis_hits + 1 else c.redis_hits))
      × (c2.redis_misses
          ≡ (if fetched.result.hash_present then c.redis_misses else c.redis_misses + 1))
      × (c2.miss_counts ≡ fetched.miss_counts)

  -- An answer is of this city and horizon, and has the predictions for those rows of the model that is served once
  -- the mart and Redis have answered, under the version that is served once the model has answered; it is counted
  -- once and goes to the subscribers. An error goes to none, and is counted only if the model raised on the rows.
  module _ (loaded : Option (Loaded fl.Float M)) (pg : Bool) (city : String) (horizon as_of : ℕ)
      (mart : Result (Option (Base fl.Float))) (redis : Option Hash) (c : Counts fl) where
    pub data IsHandled (subscribers : List (Client (Forecast fl)))
        : Response (Forecast fl) × Counts fl × List (Client (Forecast fl)) → Type 0 where
      refused :
          (code : ℕ)
          → IsRefusal loaded pg horizon mart code
          → IsHandled subscribers (http_error code, c, subscribers)
      failed :
          (l : Loaded fl.Float M) (base : Base fl.Float) (e : Exc) (c2 : Counts fl)
          → loaded ≡ some l
          → mart ≡ ok (some base)
          → infer during.prod_model (live_rows city horizon as_of c base redis) ≡ raise e
          → IsCounted as_of c redis c2
          → IsHandled subscribers (http_error 500, c2, subscribers)
      served :
          (l : Loaded fl.Float M) (f : Forecast fl) (c2 : Counts fl)
          → loaded ≡ some l
          → f.city ≡ city
          → f.as_of ≡ as_of
          → f.horizon_hours ≡ horizon
          → (base : Base fl.Float) (preds : List fl.Float) → mart ≡ ok (some base)
          → infer during.prod_model (live_rows city horizon as_of c base redis) ≡ ok preds
          → f.forecasts ≡ forecasts_from fl (as_of / w_1h * w_1h) 0 preds
          → f.model_version ≡ after.prod_info.version
          → f.online
            ≡ (fetch_online_features fl float_of parse_time as_of c.miss_counts redis).result
          → (1 ≤ horizon) × (horizon ≤ 168)
          → IsCounted as_of c redis c2
          → IsHandled subscribers (answered f, c2, broadcast f subscribers)

  count_hash-IsCounted :
      (as_of : ℕ) (redis : Option Hash) (c : Counts fl)
      → let fetched = fetch_online_features fl float_of parse_time as_of c.miss_counts redis in
        IsCounted as_of c redis (count_hash fl fetched.result fetched.miss_counts c)
  count_hash-IsCounted as_of redis c =
      let fetched = fetch_online_features fl float_of parse_time as_of c.miss_counts redis in
      elim (Bool-cases fetched.result.hash_present) [
        | inl e ↦ rw e (refl, refl, refl)
        | inr e ↦ rw e (refl, refl, refl)
      ]

  do_predict-IsHandled :
      (l : Loaded fl.Float M) (city : String) (horizon as_of : ℕ)
      (mart : Result (Option (Base fl.Float))) (redis : Option Hash) (c : Counts fl)
      (subscribers : List (Client (Forecast fl)))
      → (1 ≤ horizon) × (horizon ≤ 168)
      → IsHandled (some l) true city horizon as_of mart redis c subscribers (
          announce fl trig infer float_of parse_time during after
            (do_predict fl trig infer float_of parse_time during after during city horizon as_of
              mart redis c)
            subscribers)
  unfolding announce do_predict
  do_predict-IsHandled l city horizon as_of (raise e) redis c subscribers h =
      refused 500 (inr (inr (inr (refl, (e, refl)))))
  do_predict-IsHandled l city horizon as_of (ok none) redis c subscribers h =
      refused 404 (inr (inr (inl (refl, refl))))
  do_predict-IsHandled l city horizon as_of (ok (some base)) redis c subscribers h =
      let fetched = fetch_online_features fl float_of parse_time as_of c.miss_counts redis in
      go (infer during.prod_model (live_rows city horizon as_of c base redis)) refl
        (count_hash fl fetched.result fetched.miss_counts c) (count_hash-IsCounted as_of redis c)
    where
      go :
          (r : Result (List fl.Float))
          → infer during.prod_model (live_rows city horizon as_of c base redis) ≡ r
          → (c2 : Counts fl) → IsCounted as_of c redis c2
          → IsHandled (some l) true city horizon as_of (ok (some base)) redis c subscribers (
              announce fl trig infer float_of parse_time during after
                (
                  respond fl trig infer float_of parse_time during after city horizon as_of
                      (fetch_online_features fl float_of parse_time as_of c.miss_counts
                        redis).result
                      r,
                  c2,
                )
                subscribers)
      go (raise e) same c2 counted = failed l base e c2 refl refl same counted
      go (ok preds) same c2 counted =
          served l _ c2 refl refl refl refl base preds refl same refl refl refl h counted

  handle-IsHandled :
      (loaded : Option (Loaded fl.Float M)) (pg : Bool) (city : String) (horizon as_of : ℕ)
      (mart : Result (Option (Base fl.Float))) (redis : Option Hash) (c : Counts fl)
      (subscribers : List (Client (Forecast fl))) (valid : Bool)
      → (leb 1 horizon && leb horizon 168) ≡ valid
      → IsHandled loaded pg city horizon as_of mart redis c subscribers (
          announce fl trig infer float_of parse_time during after
            (handle fl trig infer float_of parse_time during after loaded pg city horizon as_of mart
              redis c)
            subscribers)
  unfolding handle announce
  handle-IsHandled none pg city horizon as_of mart redis c subscribers false h =
      rw h (refused 422 (inl (refl, ground (arith, h))))
  handle-IsHandled none pg city horizon as_of mart redis c subscribers true h =
      rw h (refused 503 (inr (inl (refl, inl refl))))
  handle-IsHandled (some l) pg city horizon as_of mart redis c subscribers false h =
      rw h (refused 422 (inl (refl, ground (arith, h))))
  handle-IsHandled (some l) false city horizon as_of mart redis c subscribers true h =
      rw h (refused 503 (inr (inl (refl, inr refl))))
  handle-IsHandled (some l) true city horizon as_of mart redis c subscribers true h =
      rw h (do_predict-IsHandled l city horizon as_of mart redis c subscribers (ground (arith, h)))

  -- Every request for a prediction, whatever the mart, Redis and the model answer, is either refused, with the
  -- status of its cause and nothing counted or sent; or the model raises on the mart's latest row with the live
  -- features over it, which is 500 and sent to nobody; or it is answered for its city, its time and a horizon of 1
  -- to 168 hours with the model's predictions for those rows, under the version that is served once the model has
  -- answered, and sent to the subscribers. In the last two cases a hit or a miss of Redis is counted, with the
  -- features that it lacks. The model is the one that is served once the mart and Redis have answered.
  pub predict-IsHandled :
      (loaded : Option (Loaded fl.Float M)) (pg : Bool) (city : String) (horizon as_of : ℕ)
      (mart : Result (Option (Base fl.Float))) (redis : Option Hash) (c : Counts fl)
      (subscribers : List (Client (Forecast fl)))
      → IsHandled loaded pg city horizon as_of mart redis c subscribers (
          predict fl trig infer float_of parse_time during after loaded pg city horizon as_of mart
            redis c subscribers)
  unfolding predict
  predict-IsHandled loaded pg city horizon as_of mart redis c subscribers =
      handle-IsHandled loaded pg city horizon as_of mart redis c subscribers
        (leb 1 horizon && leb horizon 168) refl
