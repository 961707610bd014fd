-- ===== src/Serving/Models.antt =====
-- Loading and promotion of models, from a registry whose answers are arguments. Downloads are the type M.
pub mod Latest
pub mod Promoted
pub mod Stale
use text.Mathlib.Text.{starts_with}
use weather_demand_forecast.Floats.{Floats}
use weather_demand_forecast.Prelude.{
  ℕ, String, Bool, true, false, not, List, [], ◌∷◌, Option, none, some, filter, ltb, ◌==◌,
  String_eq, if◌then◌else◌,
}
use weather_demand_forecast.Prelude.Dict.{Dict}
use weather_demand_forecast.Json.{
  Result, ok, raise, Exc, value_error, json_decode, validation_error, other,
}

pub record ModelVersion : Type 0 where
  pub version : ℕ
  pub current_stage : String
  pub run_id : String
  pub tags : Dict String String

-- What the registry answers while a load lasts: the search, the download of a stage's model, and the metric
-- val_mae of a run.
pub record Registry (F M : Type 0) : Type 0 where
  pub search : Result (List ModelVersion)
  pub load_model : String → Result M
  pub val_mae : String → Result (Option F)

-- prod_info, staging_info; the name of the model and the time of the load are left out
pub record Info (F : Type 0) : Type 0 where
  pub version : ℕ
  pub stage : String
  pub run_id : String
  pub val_mae : Option F
  pub tags : Dict String String

-- max(vs, key=lambda v: int(v.version)): the first of the largest
unfoldable pub max_version : ModelVersion → List ModelVersion → ModelVersion
max_version best [] = best
max_version best (v ∷ vs) = max_version (if ltb best.version v.version then v else best) vs

unfoldable pub max_of : List ModelVersion → Option ModelVersion
unfolding max_version
max_of [] = none
max_of (v ∷ vs) = some (max_version v vs)

abbrev pub in_stage : String → ModelVersion → Bool
in_stage stage v = v.current_stage == stage

unfoldable pub latest_in_stage : String → List ModelVersion → Option ModelVersion
unfolding max_of filter
latest_in_stage stage all_vs = max_of (filter (in_stage stage) all_vs)

abbrev pub is_own_tag : String × String → Bool
is_own_tag t = not (starts_with t.0 "mlflow.")

-- the models in the state of the application, with what is known of them
pub record Loaded (F M : Type 0) : Type 0 where
  pub prod_model : M
  pub prod_info : Info F
  pub staging : Option (M × Info F)

-- what a handler answers: a body or an HTTP error
pub data Response {ℓ} (A : Type ℓ) : Type ℓ where
  answered : A → Response A
  http_error : ℕ → Response A

-- ValueError and what derives from it is 409, any other exception 500
unfoldable pub status_of : Exc → ℕ
status_of value_error = 409
status_of json_decode = 409
status_of validation_error = 409
status_of _ = 500

module _ (fl : Floats) where
  -- `except Exception: val_mae = None`
  unfoldable pub rounded : Result (Option fl.Float) → Option fl.Float
  rounded (raise e) = none
  rounded (ok none) = none
  rounded (ok (some mae)) = some (fl.round mae 6)

module _ (fl : Floats) {M : Type 0} where
  unfoldable pub info_of : Registry fl.Float M → String → ModelVersion → Info fl.Float
  unfolding rounded filter
  info_of r stage v = record {
    version = v.version;
    stage = stage;
    run_id = v.run_id;
    val_mae = rounded fl (r.val_mae v.run_id);
    tags = filter is_own_tag v.tags;
  }

  -- Staging is optional: any failure leaves it out.
  unfoldable pub load_staging :
      Registry fl.Float M → Option ModelVersion → Result M → Option (M × Info fl.Float)
  unfolding info_of
  load_staging r none m = none
  load_staging r (some sv) (raise e) = none
  load_staging r (some sv) (ok m) = some (m, info_of r "Staging" sv)

  unfoldable pub load_production :
      Registry fl.Float M
      → List ModelVersion
      → Option ModelVersion
      → Result M
      → Result (Loaded fl.Float M)
  unfolding load_staging info_of latest_in_stage
  load_production r all_vs none m = raise other
  load_production r all_vs (some pv) (raise e) = raise e
  load_production r all_vs (some pv) (ok m) = ok (record {
    prod_model = m;
    prod_info = info_of r "Production" pv;
    staging = load_staging r (latest_in_stage "Staging" all_vs) (r.load_model "Staging");
  })

  -- _do_load_models, on the answer to the search
  unfoldable pub load_versions :
      Registry fl.Float M → Result (List ModelVersion) → Result (Loaded fl.Float M)
  unfolding load_production latest_in_stage
  load_versions r (raise e) = raise e
  load_versions r (ok all_vs) =
      load_production r all_vs (latest_in_stage "Production" all_vs) (r.load_model "Production")

  abbrev pub do_load_models : Registry fl.Float M → Result (Loaded fl.Float M)
  do_load_models r = load_versions r r.search

  -- the end of /admin/reload: the version that is served, or 500 and the models as they were
  unfoldable pub install :
      Result (Loaded fl.Float M)
      → Option (Loaded fl.Float M)
      → Response ℕ × Option (Loaded fl.Float M)
  install (raise e) s = (http_error 500, s)
  install (ok l) s = (answered l.prod_info.version, some l)

  unfoldable pub admin_reload :
      Registry fl.Float M → Option (Loaded fl.Float M) → Response ℕ × Option (Loaded fl.Float M)
  unfolding install load_versions
  admin_reload r s = install (do_load_models r) s

  -- the reload behind a promotion; the answer has the promoted version and the one that is served
  unfoldable pub promote_install :
      ℕ
      → Result (Loaded fl.Float M)
      → Option (Loaded fl.Float M)
      → Response (ℕ × ℕ) × Option (Loaded fl.Float M)
  unfolding status_of
  promote_install promoted (raise e) s = (http_error (status_of e), s)
  promote_install promoted (ok l) s = (answered (promoted, l.prod_info.version), some l)

  -- `transition` is transition_model_version_stage to Production with the others there archived; `answers` is
  -- what the registry with some versions answers to a load
  module _ (transition : ℕ → List ModelVersion → Result (List ModelVersion))
      (answers : List ModelVersion → Registry fl.Float M) where
    unfoldable pub after_transition :
        ℕ
        → List ModelVersion
        → Option (Loaded fl.Float M)
        → Result (List ModelVersion)
        → Response (ℕ × ℕ) × List ModelVersion × Option (Loaded fl.Float M)
    unfolding promote_install load_versions status_of
    after_transition n vs s (raise e) = (http_error (status_of e), vs, s)
    after_transition n vs s (ok vs2) =
        let done = promote_install n (do_load_models (answers vs2)) s in (done.0, vs2, done.1)

    -- _do_promote and the load, each with the registry that it leaves
    unfoldable pub promote_version :
        Option ModelVersion
        → List ModelVersion
        → Option (Loaded fl.Float M)
        → Response (ℕ × ℕ) × List ModelVersion × Option (Loaded fl.Float M)
    unfolding after_transition
    promote_version none vs s = (http_error 409, vs, s)
    promote_version (some sv) vs s = after_transition sv.version vs s (transition sv.version vs)

    -- /admin/promote, for a registry that holds `vs`
    unfoldable pub admin_promote :
        Result (List ModelVersion)
        → List ModelVersion
        → Option (Loaded fl.Float M)
        → Response (ℕ × ℕ) × List ModelVersion × Option (Loaded fl.Float M)
    unfolding promote_version latest_in_stage status_of
    admin_promote (raise e) vs s = (http_error (status_of e), vs, s)
    admin_promote (ok all_vs) vs s = promote_version (latest_in_stage "Staging" all_vs) vs s
