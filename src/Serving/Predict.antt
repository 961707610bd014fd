-- ===== src/Serving/Predict.antt =====
-- A prediction: the mart's latest row with the live features over it, one row for each hour, and the model.
-- The task that runs behind the answer is in Serving/Shadow. sin(2π a/b) and cos(2π a/b), the mart's
-- answer and the model are arguments.
pub mod Rows
pub mod Counted
use weather_demand_forecast.Floats.{Floats}
use weather_demand_forecast.Prelude.{
  ℕ, zero, suc, ◌+◌, ◌*◌, ◌/◌, ◌%◌, String, Bool, true, false, ◌&&◌, List, [], ◌∷◌, ◌++◌, Option,
  none, some, leb, ◌==◌, String_eq, if◌then◌else◌,
}
use weather_demand_forecast.Prelude.Dict.{Dict, get, put}
use weather_demand_forecast.Json.{Result, ok, raise}
use weather_demand_forecast.Stream.RedisOps.{Hash, w_1h}
use weather_demand_forecast.Features.Online.{OnlineResult, State, fetch_online_features}
use weather_demand_forecast.Serving.Broadcast.{Client, broadcast}
use weather_demand_forecast.Serving.Models.{Loaded, Response, answered, http_error}

pub record Trig (F : Type 0) : Type 0 where
  pub sin_of : ℕ → ℕ → F
  pub cos_of : ℕ → ℕ → F

abbrev pub Columns : Type 0 → Type 0
Columns F = Dict String (Option F)

-- the latest row of the mart for a city
pub record Base (F : Type 0) : Type 0 where
  pub hour_ts : ℕ
  pub columns : Columns F

-- a row of the feature matrix; its columns in the order of FEATURE_COLS after the city
pub record Row (F : Type 0) : Type 0 where
  pub city : String
  pub columns : Columns F

module _ {F : Type 0} where
  -- base[col] = val for each value that is not None
  unfoldable pub overlay : Columns F → Columns F → Columns F
  unfolding put
  overlay [] base = base
  overlay ((col, none) ∷ values) base = overlay values base
  overlay ((col, some v) ∷ values) base = overlay values (put col (some v) base)

  -- _to_f(base.get(col))
  unfoldable pub column : String → Columns F → Option F
  unfolding get
  column col base = elim (get col base) [ none ↦ none | some v ↦ v ]

module _ (fl : Floats) where
  -- float(v or 0)
  abbrev pub or_zero : Option fl.Float → fl.Float
  or_zero none = fl.of_ℕ 0
  or_zero (some v) = v

  -- _time_feats; the epoch was a Thursday, weekday 3
  abbrev pub time_feats : Trig fl.Float → ℕ → Columns fl.Float
  time_feats trig ts =
      let hour = ts / w_1h % 24 in
      let weekday = (ts / (24 * w_1h) + 3) % 7 in
      ("hour_sin", some (trig.sin_of hour 24))
      ∷ ("hour_cos", some (trig.cos_of hour 24))
      ∷ ("dow_sin", some (trig.sin_of weekday 7))
      ∷ ("dow_cos", some (trig.cos_of weekday 7))
      ∷ []

  unfoldable pub row_at : Trig fl.Float → String → Columns fl.Float → ℕ → Row fl.Float
  unfolding column
  row_at trig city base t = record {
    city = city;
    columns =
        ("event_count", some (or_zero (column "event_count" base)))
        ∷ ("demand_lag_1h", column "demand_lag_1h" base)
        ∷ ("demand_lag_24h", column "demand_lag_24h" base)
        ∷ ("demand_lag_168h", column "demand_lag_168h" base)
        ∷ ("demand_roll_3h", column "demand_roll_3h" base)
        ∷ ("demand_roll_24h", column "demand_roll_24h" base)
        ∷ (time_feats trig t
            ++ (("temperature_c", column "temperature_c" base)
                ∷ ("humidity_pct", column "humidity_pct" base)
                ∷ ("precip_mm", column "precip_mm" base)
                ∷ ("is_holiday", some (or_zero (column "is_holiday" base)))
                ∷ []));
  }

  -- for h in range(h, h + n)
  unfoldable pub rows_from :
      Trig fl.Float → String → Columns fl.Float → ℕ → ℕ → ℕ → List (Row fl.Float)
  unfolding row_at
  rows_from trig city base base_hour zero h = []
  rows_from trig city base base_hour (suc n) h =
      row_at trig city base (base_hour + h * w_1h) ∷ rows_from trig city base base_hour n (h + 1)

  unfoldable pub build_rows :
      Trig fl.Float → String → ℕ → Columns fl.Float → ℕ → List (Row fl.Float)
  unfolding rows_from
  build_rows trig city horizon base as_of = rows_from trig city base (as_of / w_1h * w_1h) horizon 0

  -- the answer; the age of the hash as in OnlineResult
  pub record Forecast : Type 0 where
    pub city : String
    pub as_of : ℕ
    pub horizon_hours : ℕ
    pub model_version : ℕ
    pub online : OnlineResult fl
    pub forecasts : List (ℕ × fl.Float)

  -- for h, p in enumerate(preds)
  unfoldable pub forecasts_from : ℕ → ℕ → List fl.Float → List (ℕ × fl.Float)
  forecasts_from base_hour h [] = []
  forecasts_from base_hour h (p ∷ preds) =
      (base_hour + h * w_1h, fl.round p 4) ∷ forecasts_from base_hour (h + 1) preds

  pub record Counts : Type 0 where
    pub miss_counts : Dict String ℕ
    pub redis_hits : ℕ
    pub redis_misses : ℕ

  abbrev pub count_hash : OnlineResult fl → Dict String ℕ → Counts → Counts
  count_hash online miss_counts c =
      if online.hash_present
      then record c { miss_counts = miss_counts; redis_hits = c.redis_hits + 1 }
      else record c { miss_counts = miss_counts; redis_misses = c.redis_misses + 1 }

  module _ {M : Type 0} (trig : Trig fl.Float)
      (infer : M → List (Row fl.Float) → Result (List fl.Float))
      (float_of : String → Option fl.Float) (parse_time : String → Option ℕ)
      (during after : Loaded fl.Float M) where
    -- What the model's answer is made into. The version is read from the state once the model has answered: `after`
    -- are the models that are served then.
    unfoldable pub respond :
        String → ℕ → ℕ → OnlineResult fl → Result (List fl.Float) → Response Forecast
    unfolding forecasts_from
    respond city horizon as_of online (raise e) = http_error 500
    respond city horizon as_of online (ok preds) = answered (record {
      city = city;
      as_of = as_of;
      horizon_hours = horizon;
      model_version = after.prod_info.version;
      online = online;
      forecasts = forecasts_from (as_of / w_1h * w_1h) 0 preds;
    })

    -- _do_predict, with the models `l` that are served once the mart and Redis have answered; the mart's answer is an error, no row, or the latest row
    unfoldable pub do_predict :
        Loaded fl.Float M
        → String
        → ℕ
        → ℕ
        → Result (Option (Base fl.Float))
        → Option Hash
        → Counts
        → Response Forecast × Counts
    unfolding respond build_rows overlay fetch_online_features
    do_predict l city horizon as_of (raise e) redis c = (http_error 500, c)
    do_predict l city horizon as_of (ok none) redis c = (http_error 404, c)
    do_predict l city horizon as_of (ok (some base)) redis c =
        let fetched = fetch_online_features fl float_of parse_time as_of c.miss_counts redis in
        let rows =
          build_rows trig city horizon (overlay fetched.result.values base.columns) as_of in
        (
          respond city horizon as_of fetched.result (infer l.prod_model rows),
          count_hash fetched.result fetched.miss_counts c,
        )

    -- the checks of POST /predict, with the bounds of PredictRequest; `during` are the models that are served once
    -- the mart and Redis have answered
    unfoldable pub handle :
        Option (Loaded fl.Float M)
        → Bool
        → String
        → ℕ
        → ℕ
        → Result (Option (Base fl.Float))
        → Option Hash
        → Counts
        → Response Forecast × Counts
    unfolding do_predict
    handle none pg city horizon as_of mart redis c =
        if leb 1 horizon && leb horizon 168 then (http_error 503, c) else (http_error 422, c)
    handle (some l) pg city horizon as_of mart redis c =
        if leb 1 horizon && leb horizon 168
        then (if pg then do_predict during city horizon as_of mart redis c else (http_error 503, c))
        else (http_error 422, c)

    -- an answer goes to the subscribers
    unfoldable pub announce :
        Response Forecast × Counts
        → List (Client Forecast)
        → Response Forecast × Counts × List (Client Forecast)
    unfolding broadcast
    announce (http_error code, c) subscribers = (http_error code, c, subscribers)
    announce (answered f, c) subscribers = (answered f, c, broadcast f subscribers)

    unfoldable pub predict :
        Option (Loaded fl.Float M)
        → Bool
        → String
        → ℕ
        → ℕ
        → Result (Option (Base fl.Float))
        → Option Hash
        → Counts
        → List (Client Forecast)
        → Response Forecast × Counts × List (Client Forecast)
    unfolding handle announce
    predict loaded pg city horizon as_of mart redis c subscribers =
        announce (handle loaded pg city horizon as_of mart redis c) subscribers
