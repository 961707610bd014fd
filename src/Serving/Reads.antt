-- ===== src/Serving/Reads.antt =====
-- The routes of services/api/app/main.py that read the mart and the registry. The mart's table is a list of rows;
-- whether there is a pool and whether Postgres answers are arguments, and so are the texts of times.
pub mod Latest
mod Tests
use weather_demand_forecast.Floats.{Floats}
use weather_demand_forecast.Prelude.{
  ℕ, zero, suc, ◌+◌, String, Bool, true, false, ◌&&◌, not, List, [], ◌∷◌, map, length, filter,
  Option, none, some, ltb, ◌==◌, String_eq, if◌then◌else◌,
}
use weather_demand_forecast.Prelude.Dict.{Dict}
use weather_demand_forecast.Prelude.Sorting.{sort}
use weather_demand_forecast.Json.{ℤ, Result, ok, raise}
use weather_demand_forecast.Ingestor.Consumers.{is_empty}
use weather_demand_forecast.Features.Sync.{take}
use weather_demand_forecast.Stream.Reconstruct.{distinct}
use weather_demand_forecast.Serving.Models.{
  Response, answered, http_error, Loaded, ModelVersion, Registry, rounded, is_own_tag,
}
use weather_demand_forecast.Serving.Prometheus.History.{bounded}

-- the columns of marts.city_hour_features that the routes read
pub record MartHour (F : Type 0) : Type 0 where
  pub city : String
  pub hour_ts : ℕ
  pub total_demand : Option F

pub record DemandHistory (F : Type 0) : Type 0 where
  pub city : String
  pub count : ℕ
  pub history : List (String × F)

pub record VersionEntry (F : Type 0) : Type 0 where
  pub version : ℕ
  pub stage : String
  pub run_id : String
  pub val_mae : Option F
  pub created_at : Option String
  pub tags : Dict String String

-- key=lambda x: int(x.version), reverse=True, which keeps the order of equal versions
abbrev pub higher_version : ModelVersion → ModelVersion → Bool
higher_version v w = ltb w.version v.version

module _ {F : Type 0} where
  abbrev with_time : ℕ → Option F → List (ℕ × F) → List (ℕ × F)
  with_time t none rest = rest
  with_time t (some x) rest = (t, x) ∷ rest

  -- WHERE city = $1 AND total_demand IS NOT NULL
  unfoldable pub demand_of : String → List (MartHour F) → List (ℕ × F)
  demand_of city [] = []
  demand_of city (r ∷ rs) =
      let rest = demand_of city rs in
      if r.city == city then with_time r.hour_ts r.total_demand rest else rest

  -- ORDER BY hour_ts DESC; the query has a LIMIT too
  abbrev pub newer : ℕ × F → ℕ × F → Bool
  newer x y = ltb y.0 x.0

  unfoldable pub history_of_rows : (ℕ → String) → String → List (ℕ × F) → Response (DemandHistory F)
  history_of_rows isoformat city rows =
      if is_empty rows
      then http_error 404
      else answered (record {
        city = city;
        count = length rows;
        history = map (λ r. (isoformat r.0, r.1)) rows;
      })

  -- `pool`: _state.pg is not None; `answers`: whether the query succeeds
  unfoldable pub history :
      (ℕ → String) → Bool → Bool → List (MartHour F) → String → ℤ → Response (DemandHistory F)
  unfolding bounded take sort demand_of history_of_rows
  history isoformat pool answers mart city hours =
      if pool && answers
      then history_of_rows isoformat city
          (take (bounded 8760 hours) (sort newer (demand_of city mart)))
      else http_error 503

  -- `earlier`: the order of texts
  unfoldable pub cities :
      (String → String → Bool) → Bool → Bool → List (MartHour F) → Response (List String)
  unfolding distinct sort
  cities earlier pool answers mart =
      if pool && answers
      then answered (sort earlier (distinct [] (map (λ r. r.city) mart)))
      else http_error 503

module _ (fl : Floats) {M : Type 0} where
  unfoldable pub ready : Option (Loaded fl.Float M) → Response ℕ
  ready none = http_error 503
  ready (some l) = answered l.prod_info.version

  -- `created_at`: the creation time of a version as a text
  abbrev version_entry :
      (ModelVersion → Option String) → Registry fl.Float M → ModelVersion → VersionEntry fl.Float
  version_entry created_at r v = record {
    version = v.version;
    stage = v.current_stage;
    run_id = v.run_id;
    val_mae = rounded fl (r.val_mae v.run_id);
    created_at = created_at v;
    tags = filter is_own_tag v.tags;
  }

  unfoldable pub versions_of :
      (ModelVersion → Option String)
      → Registry fl.Float M
      → Result (List ModelVersion)
      → Response (List (VersionEntry fl.Float))
  unfolding sort rounded filter
  versions_of created_at r (raise e) = http_error 503
  versions_of created_at r (ok all_vs) =
      answered (map (version_entry created_at r) (sort higher_version all_vs))

  -- `initialised`: whether there are settings
  unfoldable pub model_versions :
      (ModelVersion → Option String)
      → Bool
      → Registry fl.Float M
      → Response (List (VersionEntry fl.Float))
  unfolding versions_of
  model_versions created_at initialised r =
      if initialised then versions_of created_at r r.search else http_error 503
