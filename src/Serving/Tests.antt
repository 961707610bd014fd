-- ===== src/Serving/Tests.antt =====
-- Loading, promotion, prediction and broadcast on concrete data.
use mathlib.Core.Path.{subst}
use weather_demand_forecast.Floats.Whole.{whole}
use weather_demand_forecast.Prelude.{
  ℕ, ◌+◌, ◌*◌, ◌/◌, ◌%◌, ◌≡◌, ◌≢◌, refl, sym, String, true, List, [], ◌∷◌, none, some, map, filter,
  All, Option, ◌==◌, ==_iff, String_eq, ℕ_eq, if◌then◌else◌, Bool-cases, inl, inr, arith,
}
use weather_demand_forecast.Prelude.Dict.{get}
use weather_demand_forecast.Json.{Result, other, ok, raise}
use weather_demand_forecast.Stream.RedisOps.{Hash, w_1h}
use weather_demand_forecast.Features.Online.{fetch_online_features}
use weather_demand_forecast.Serving.Models.{
  ModelVersion, Registry, Loaded, in_stage, max_version, max_of, latest_in_stage, rounded, info_of,
  load_staging, load_production, load_versions, admin_promote,
}
use weather_demand_forecast.Serving.Models.Stale.{Reach, promote-stale}
use weather_demand_forecast.Serving.Models.Latest.{IsLatest, latest_in_stage-IsLatest}
use weather_demand_forecast.Serving.Models.Promoted.{
  Loads, IsTransition, IsPromoted, admin_promote-IsPromoted,
}
use weather_demand_forecast.Serving.Predict.{
  Trig, Columns, Base, Row, Forecast, Counts, overlay, or_zero, column, build_rows, predict,
}
use weather_demand_forecast.Serving.Predict.Counted.{IsHandled, predict-IsHandled}
use weather_demand_forecast.Serving.Predict.Rows.{get_elem?, held, live_or_mart, build_rows-live}
use weather_demand_forecast.Serving.Broadcast.{Client}
use weather_demand_forecast.Serving.Broadcast.Ordered.{
  Event, broadcasts, delivers, play, messages, stream, play-ordered,
}
use weather_demand_forecast.Serving.Broadcast.Bounded.{IsDistinct}

abbrev version : ℕ → String → ModelVersion
version n stage = record { version = n; current_stage = stage; run_id = "run"; tags = [] }

abbrev versions : List ModelVersion
versions = version 1 "Production" ∷ version 3 "Staging" ∷ version 2 "Staging" ∷ []

-- a registry that moves a version and archives the others
abbrev moved : ℕ → ModelVersion → ModelVersion
moved n v =
    if v.version == n
    then record v { current_stage = "Production" }
    else (if v.current_stage == "Production" then record v { current_stage = "Archived" } else v)

abbrev transition : ℕ → List ModelVersion → Result (List ModelVersion)
transition n vs = ok (map (moved n) vs)

moved-production :
    (n : ℕ) (v : ModelVersion) → in_stage "Production" (moved n v) ≡ true → (moved n v).version ≡ n
moved-production n v = elim (Bool-cases (v.version == n)) [
  | inl e ↦ rw e (λ h. (==_iff v.version n).0 e)
  | inr e ↦ elim (Bool-cases (v.current_stage == "Production")) [
    | inl p ↦ rw (e, p) (λ h. cc)
    | inr p ↦ rw (e, p) (λ h. cc (p, h))
  ]
]

all_moved :
    (n : ℕ) (vs : List ModelVersion)
    → All (λ v. in_stage "Production" v ≡ true → v.version ≡ n) (map (moved n) vs)
all_moved n [] = tt
all_moved n (v ∷ vs) = (moved-production n v, all_moved n vs)

-- of an answer: no other version is in Production
OnlyProduction : ℕ → Result (List ModelVersion) → Type 0
OnlyProduction n (raise e) = Unit
OnlyProduction n (ok vs) = All (λ v. in_stage "Production" v ≡ true → v.version ≡ n) vs

transition-IsTransition : IsTransition transition
unfolding OnlyProduction
transition-IsTransition n vs vs2 h = subst (OnlyProduction n) h (all_moved n vs)

-- a model is its version
abbrev model_in : String → List ModelVersion → Result ℕ
model_in stage vs = elim (latest_in_stage stage vs) [ none ↦ raise other | some v ↦ ok v.version ]

abbrev registry : List ModelVersion → Registry ℕ ℕ
registry vs = record {
  search = ok vs;
  load_model = λ stage. model_in stage vs;
  val_mae = λ run_id. ok none;
}

registry-Loads :
    (vs : List ModelVersion) (stage : String) → Loads whole (λ m. m) vs stage (model_in stage vs)
registry-Loads vs stage = go (latest_in_stage stage vs) (latest_in_stage-IsLatest stage vs)
  where
    go :
        (o : Option ModelVersion)
        → IsLatest stage vs o
        → Loads whole (λ m. m) vs stage (elim o [ none ↦ raise other | some v ↦ ok v.version ])
    go none latest m e = cc e
    go (some v) latest m e = let same : v.version ≡ m = cc e in (v, latest, sym same)

admin_promote-IsPromoted_example :
    IsPromoted whole
      (λ m. m)
      versions
      none
      (admin_promote whole transition registry (ok versions) versions none)
admin_promote-IsPromoted_example =
    admin_promote-IsPromoted whole transition transition-IsTransition registry (λ vs. refl) (λ m. m)
      registry-Loads versions none

-- the models of the registry before the promotion
abbrev old : Loaded ℕ ℕ
old = record {
  prod_model = 1;
  prod_info = record {
    version = 1;
    stage = "Production";
    run_id = "run";
    val_mae = none;
    tags = [];
  };
  staging =
      some
        (3, record { version = 3; stage = "Staging"; run_id = "run"; val_mae = none; tags = [] });
}

promote-stale_example :
    let after = map (moved 3) versions in
    Reach whole ℕ transition registry
      (record { versions = versions; serving = none; downloads = [] })
      (record { versions = after; serving = some old; downloads = [] })
    × All (λ v. v.version ≡ 1 → in_stage "Production" v ≢ true) after
unfolding load_versions load_production latest_in_stage max_of max_version filter info_of rounded
    load_staging
promote-stale_example =
    promote-stale whole ℕ transition registry transition-IsTransition versions
      (map (moved 3) versions) none old (version 3 "Staging") refl refl refl refl
      (λ h. omega (arith, h))

abbrev trig : Trig ℕ
trig = record { sin_of = λ a b. a; cos_of = λ a b. b }

abbrev float_of : String → Option ℕ
float_of text = if text == "4" then some 4 else none

abbrev parse_time : String → Option ℕ
parse_time text = none

abbrev base : Columns ℕ
base = ("event_count", some 9) ∷ ("temperature_c", some 1) ∷ ("precip_mm", some 8) ∷ []

-- a hash with a temperature and no precipitation
abbrev hash : Hash
hash = ("weather_temp_c", "4") ∷ []

build_rows-live_example :
    let values =
      (fetch_online_features whole float_of parse_time (50 * w_1h) [] (some hash)).result.values in
    let t = 50 * w_1h / w_1h * w_1h + 2 * w_1h in
    (row : Row ℕ) × (get_elem? (build_rows whole trig "oslo" 3 (overlay values base) (50 * w_1h)) 2
      ≡ some row)
    × (row.city ≡ "oslo")
    × (get "hour_sin" row.columns ≡ some (some (trig.sin_of (t / w_1h % 24) 24)))
    × (get "hour_cos" row.columns ≡ some (some (trig.cos_of (t / w_1h % 24) 24)))
    × (get "dow_sin" row.columns ≡ some (some (trig.sin_of ((t / (24 * w_1h) + 3) % 7) 7)))
    × (get "dow_cos" row.columns ≡ some (some (trig.cos_of ((t / (24 * w_1h) + 3) % 7) 7)))
    × (get "event_count" row.columns ≡ some (some (or_zero whole (column "event_count" base))))
    × (get "is_holiday" row.columns ≡ some (some (or_zero whole (column "is_holiday" base))))
    × All
        (λ c. get c row.columns ≡ some (live_or_mart whole float_of parse_time (some hash) base c))
        held
build_rows-live_example =
    build_rows-live whole float_of parse_time trig "oslo" 3 (50 * w_1h) 2 [] (some hash) base
      (omega arith)

abbrev clients : List (Client ℕ)
clients =
    record { id = 1; queue = 5 ∷ []; sent = [] } ∷ record { id = 2; queue = []; sent = 5 ∷ [] } ∷ []

clients-IsDistinct : IsDistinct clients
unfolding IsDistinct
clients-IsDistinct = ((refl, tt), (tt, tt))

abbrev fresh_clients : List (Client ℕ)
fresh_clients =
    record { id = 1; queue = []; sent = [] } ∷ record { id = 2; queue = []; sent = [] } ∷ []

abbrev live_events : List (Event ℕ)
live_events = broadcasts 5 ∷ broadcasts 6 ∷ delivers 1 ∷ broadcasts 7 ∷ delivers 2 ∷ []

fresh_clients-IsDistinct : IsDistinct fresh_clients
unfolding IsDistinct
fresh_clients-IsDistinct = ((refl, tt), (tt, tt))

play-ordered_example : All (λ q. stream q ≡ messages live_events) (play live_events fresh_clients)
play-ordered_example =
    play-ordered live_events fresh_clients fresh_clients-IsDistinct (refl, (refl, tt))

abbrev loaded : Loaded ℕ ℕ
loaded = record {
  prod_model = 7;
  prod_info = record {
    version = 3;
    stage = "Production";
    run_id = "run";
    val_mae = none;
    tags = [];
  };
  staging = none;
}

abbrev infer : ℕ → List (Row ℕ) → Result (List ℕ)
infer model rows = ok (model ∷ [])

abbrev mart : Result (Option (Base ℕ))
mart = ok (some (record { hour_ts = 49 * w_1h; columns = base }))

abbrev counts : Counts whole
counts = record { miss_counts = []; redis_hits = 0; redis_misses = 2 }

abbrev waiting : List (Client (Forecast whole))
waiting = record { id = 1; queue = []; sent = [] } ∷ []

predict-IsHandled_example :
    IsHandled whole trig infer float_of parse_time loaded loaded
      (some loaded)
      true
      "oslo"
      1
      (50 * w_1h)
      mart
      (some hash)
      counts
      waiting
      (predict whole trig infer float_of parse_time loaded loaded
        (some loaded)
        true
        "oslo"
        1
        (50 * w_1h)
        mart
        (some hash)
        counts
        waiting)
predict-IsHandled_example =
    predict-IsHandled whole trig infer float_of parse_time loaded loaded (some loaded) true "oslo" 1
      (50 * w_1h) mart (some hash) counts waiting
