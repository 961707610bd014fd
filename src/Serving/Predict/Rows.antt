-- ===== src/Serving/Predict/Rows.antt =====
-- The features that the model is given.
use weather_demand_forecast.Floats.{Floats}
use weather_demand_forecast.Prelude.{
  ℕ, zero, suc, ◌+◌, ◌*◌, ◌/◌, ◌%◌, ◌<◌, ◌≡◌, refl, ap, ◌∙◌, String, true, List, [], ◌∷◌, Option,
  none, some, All, All-map, ◌==◌, String_eq, if◌then◌else◌, arith,
}
use weather_demand_forecast.Prelude.Dict.{Dict, get, put, get-put}
use weather_demand_forecast.Stream.RedisOps.{Hash, w_1h}
use weather_demand_forecast.Features.Registry.{weather_temp_c, weather_precip_mm}
use weather_demand_forecast.Features.Online.{
  State, default_of, miss, serve, use_reading, reading, read_feature, read_features, all_missing,
  age_at, fetch_hash, fetch_online_features,
}
use weather_demand_forecast.Serving.Predict.{
  Trig, Columns, Row, overlay, column, or_zero, row_at, rows_from, build_rows,
}

abbrev pub get_elem? {ℓ} : {A : Type ℓ} → List A → ℕ → Option A
get_elem? [] i = none
get_elem? (x ∷ xs) zero = some x
get_elem? (x ∷ xs) (suc i) = get_elem? xs i

-- the columns that a row takes from the mart or from Redis as they are
abbrev pub held : List String
held =
    "demand_lag_1h" ∷ "demand_lag_24h" ∷ "demand_lag_168h" ∷ "demand_roll_3h" ∷ "demand_roll_24h"
    ∷ "temperature_c" ∷ "humidity_pct" ∷ "precip_mm" ∷ []

module _ (fl : Floats) where
  rows_from-get :
      (trig : Trig fl.Float) (city : String) (base : Columns fl.Float) (base_hour n h i : ℕ)
      → i < n
      → get_elem? (rows_from fl trig city base base_hour n h) i
        ≡ some (row_at fl trig city base (base_hour + (h + i) * w_1h))
  unfolding rows_from
  rows_from-get trig city base base_hour zero h i b = absurd (omega (arith, b))
  rows_from-get trig city base base_hour (suc n) h zero b =
      ap (λ k. some (row_at fl trig city base (base_hour + k * w_1h))) (omega arith)
  rows_from-get trig city base base_hour (suc n) h (suc i) b =
      rows_from-get trig city base base_hour n (h + 1) i (omega (arith, b))
      ∙ ap (λ k. some (row_at fl trig city base (base_hour + k * w_1h))) (omega arith)

  -- the two values that are read from Redis, whatever it answered
  module _ (float_of : String → Option fl.Float) (parse_time : String → Option ℕ) where
    read_from : Option Hash → String → Option fl.Float
    read_from none name = none
    read_from (some raw) name = reading fl float_of parse_time name raw

    -- the column of a row: live, a default, or the mart's
    unfoldable pub live_or_mart : Option Hash → Columns fl.Float → String → Option fl.Float
    unfolding read_from
    live_or_mart redis base col =
        if "precip_mm" == col
        then some (or_zero fl (read_from redis "weather_precip_mm"))
        else (if "temperature_c" == col
            then (elim (read_from redis "weather_temp_c") [
              | none ↦ column col base
              | some v ↦ some v
            ])
            else column col base)

    abbrev live_values : Option fl.Float → Option fl.Float → Columns fl.Float
    live_values t p = ("temperature_c", t) ∷ ("precip_mm", some (or_zero fl p)) ∷ []

    fresh : Option (ℕ × ℕ) → Dict String ℕ → State fl
    fresh age counts = record {
      miss_counts = counts;
      result = record { values = []; missing = []; degraded = []; age = age; hash_present = true };
    }

    two_readings :
        (t p : Option fl.Float) (age : Option (ℕ × ℕ)) (counts : Dict String ℕ)
        → (use_reading fl
            (record { feature = weather_precip_mm; model_col = "precip_mm" })
            p
            (use_reading fl
              (record { feature = weather_temp_c; model_col = "temperature_c" })
              t
              (fresh age counts))).result.values
          ≡ live_values t p
    unfolding use_reading miss serve put default_of fresh
    two_readings none none age counts = refl
    two_readings none (some p) age counts = refl
    two_readings (some t) none age counts = refl
    two_readings (some t) (some p) age counts = refl

    fetch-live :
        (as_of : ℕ) (counts : Dict String ℕ) (redis : Option Hash)
        → (fetch_online_features fl float_of parse_time as_of counts redis).result.values
          ≡ live_values (read_from redis "weather_temp_c") (read_from redis "weather_precip_mm")
    unfolding fetch_online_features fetch_hash all_missing read_features read_feature read_from
        reading miss put default_of get fresh
    fetch-live as_of counts none = refl
    fetch-live as_of counts (some []) = refl
    fetch-live as_of counts (some (e ∷ raw)) =
        two_readings (reading fl float_of parse_time "weather_temp_c" (e ∷ raw))
          (reading fl float_of parse_time "weather_precip_mm" (e ∷ raw))
          (age_at fl float_of parse_time as_of (e ∷ raw)) counts

    column-overlay :
        (t p : Option fl.Float) (base : Columns fl.Float) (col : String)
        → column col (overlay (live_values t p) base) ≡ (
            if "precip_mm" == col
            then some (or_zero fl p)
            else (if "temperature_c" == col
                then (elim t [ none ↦ column col base | some v ↦ some v ])
                else column col base))
    unfolding overlay column
    column-overlay none p base col =
        rw (column, get-put "precip_mm" col (some (or_zero fl p)) base) (ground (arith))
    column-overlay (some t) p base col =
        rw
          (
            column,
            get-put "precip_mm" col (some (or_zero fl p)) (put "temperature_c" (some t) base),
            get-put "temperature_c" col (some t) base,
          )
          (ground arith)

    fetched-column :
        (as_of : ℕ) (counts : Dict String ℕ) (redis : Option Hash) (base : Columns fl.Float)
        (col : String)
        → column col (
            overlay
              (fetch_online_features fl float_of parse_time as_of counts redis).result.values
              base)
          ≡ live_or_mart redis base col
    unfolding live_or_mart
    fetched-column as_of counts redis base col =
        ap (λ values. column col (overlay values base)) (fetch-live as_of counts redis)
        ∙ column-overlay (read_from redis "weather_temp_c") (read_from redis "weather_precip_mm")
            base col

    row_at-held :
        (trig : Trig fl.Float) (city : String) (base : Columns fl.Float) (t : ℕ)
        → All (λ c. get c (row_at fl trig city base t).columns ≡ some (column c base)) held
    unfolding row_at get
    row_at-held trig city base t =
        (refl, (refl, (refl, (refl, (refl, (refl, (refl, (refl, tt))))))))

    row_at-live :
        (trig : Trig fl.Float) (city : String) (as_of : ℕ) (counts : Dict String ℕ)
        (redis : Option Hash) (base : Columns fl.Float) (t : ℕ)
        → let values =
            (fetch_online_features fl float_of parse_time as_of counts redis).result.values in
          All
            (λ c.
              get c (row_at fl trig city (overlay values base) t).columns
              ≡ some (live_or_mart redis base c))
            held
    row_at-live trig city as_of counts redis base t =
        let columns =
          overlay (fetch_online_features fl float_of parse_time as_of counts redis).result.values
            base in
        let row = row_at fl trig city columns t in
        All-map {P = λ c. get c row.columns ≡ some (column c columns)}
          {Q = λ c. get c row.columns ≡ some (live_or_mart redis base c)}
          (λ c e. e ∙ ap some (fetched-column as_of counts redis base c)) held
          (row_at-held trig city columns t)

    -- The matrix of a prediction has for each hour up to the horizon a row of the city with the hour's own
    -- encodings of the hour and the weekday; each other column is the mart's, with zero for a count or a holiday
    -- flag that the mart lacks, save that the temperature is the live one if Redis has it, and
    -- the precipitation is the live one or, whenever Redis has none, zero and never the mart's.
    pub build_rows-live :
        (trig : Trig fl.Float) (city : String) (horizon as_of h : ℕ) (counts : Dict String ℕ)
        (redis : Option Hash) (base : Columns fl.Float)
        → h < horizon
        → let values =
            (fetch_online_features fl float_of parse_time as_of counts redis).result.values in
          let t = as_of / w_1h * w_1h + h * w_1h in
          (row : Row fl.Float) × (get_elem?
              (build_rows fl trig city horizon (overlay values base) as_of)
              h
            ≡ some row)
          × (row.city ≡ city)
          × (get "hour_sin" row.columns ≡ some (some (trig.sin_of (t / w_1h % 24) 24)))
          × (get "hour_cos" row.columns ≡ some (some (trig.cos_of (t / w_1h % 24) 24)))
          × (get "dow_sin" row.columns ≡ some (some (trig.sin_of ((t / (24 * w_1h) + 3) % 7) 7)))
          × (get "dow_cos" row.columns ≡ some (some (trig.cos_of ((t / (24 * w_1h) + 3) % 7) 7)))
          × (get "event_count" row.columns ≡ some (some (or_zero fl (column "event_count" base))))
          × (get "is_holiday" row.columns ≡ some (some (or_zero fl (column "is_holiday" base))))
          × All (λ c. get c row.columns ≡ some (live_or_mart redis base c)) held
    unfolding build_rows row_at get live_or_mart
    build_rows-live trig city horizon as_of h counts redis base b =
        let columns =
          overlay (fetch_online_features fl float_of parse_time as_of counts redis).result.values
            base in
        let base_hour = as_of / w_1h * w_1h in
        (
          row_at fl trig city columns (base_hour + h * w_1h),
          rows_from-get trig city columns base_hour horizon 0 h b
              ∙ ap (λ k. some (row_at fl trig city columns (base_hour + k * w_1h))) (omega arith),
          refl,
          refl,
          refl,
          refl,
          refl,
          ap (λ v. some (some (or_zero fl v)))
              (fetched-column as_of counts redis base "event_count"),
          ap (λ v. some (some (or_zero fl v)))
              (fetched-column as_of counts redis base "is_holiday"),
          row_at-live trig city as_of counts redis base (base_hour + h * w_1h),
        )
