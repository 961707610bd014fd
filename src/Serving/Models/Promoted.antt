-- ===== src/Serving/Models/Promoted.antt =====
-- What a promotion serves when it answers.
use mathlib.Core.Path.{subst}
use weather_demand_forecast.Floats.{Floats}
use weather_demand_forecast.Prelude.{
  ℕ, ◌≤◌, ◌≡◌, refl, sym, ◌∙◌, ap, inl, inr, true, List, [], ◌∷◌, Option, none, some, All, Any,
  Any-map, String,
}
use weather_demand_forecast.Json.{Result, ok, raise}
use weather_demand_forecast.Serving.Models.{
  ModelVersion, Registry, Loaded, Info, load_staging, Response, answered, http_error, in_stage,
  latest_in_stage, do_load_models, load_versions, load_production, info_of, promote_install,
  after_transition, promote_version, admin_promote,
}
use weather_demand_forecast.Serving.Models.Latest.{IsLatest, same_latest, latest_in_stage-IsLatest}

-- What transition_model_version_stage does to Production with archive_existing_versions: the version is in
-- it, and no other.
abbrev pub IsTransition : (ℕ → List ModelVersion → Result (List ModelVersion)) → Type 0
IsTransition transition =
    (n : ℕ) (vs vs2 : List ModelVersion)
    → transition n vs ≡ ok vs2
    → All (λ v. in_stage "Production" v ≡ true → v.version ≡ n) vs2

agree :
    (n k : ℕ) (vs : List ModelVersion)
    → All (λ v. in_stage "Production" v ≡ true → v.version ≡ n) vs
    → Any (λ v. (in_stage "Production" v ≡ true) × (v.version ≡ k)) vs
    → k ≡ n
agree n k [] all h = elim h [ ]
agree n k (v ∷ vs) all (inl (staged, version)) = sym version ∙ all.0 staged
agree n k (v ∷ vs) all (inr h) = agree n k vs all.1 h

module _ (fl : Floats) {M : Type 0} where
  version_of : Result (Loaded fl.Float M) → ℕ
  version_of (raise e) = 0
  version_of (ok l) = l.prod_info.version

  -- a load that succeeds serves a version in Production
  load_production-version :
      (r : Registry fl.Float M) (vs : List ModelVersion) (pv : Option ModelVersion) (m : Result M)
      (l : Loaded fl.Float M)
      → IsLatest "Production" vs pv
      → load_production fl r vs pv m ≡ ok l
      → Any (λ v. (in_stage "Production" v ≡ true) × (v.version ≡ l.prod_info.version)) vs
  unfolding load_production info_of version_of
  load_production-version r vs none m l latest h = cc
  load_production-version r vs (some pv) (raise e) l latest h = cc
  load_production-version r vs (some pv) (ok m) l latest h =
      Any-map
        (λ v e. (ap (in_stage "Production") e ∙ latest.1, ap (λ x. x.version) e ∙ ap version_of h))
        vs latest.0

  module _ (model_version : M → ℕ) where
    -- a model that is downloaded by the name of a stage is that of the highest version in the stage
    abbrev pub Loads : List ModelVersion → String → Result M → Type 0
    Loads vs stage r =
        (m : M)
        → r ≡ ok m
        → (v : ModelVersion) × IsLatest stage vs (some v) × (model_version m ≡ v.version)

    abbrev IsLabelledStaging : Option (M × Info fl.Float) → Type 0
    IsLabelledStaging none = Unit
    IsLabelledStaging (some s) = model_version s.0 ≡ s.1.version

    -- each model that is served stands with its own version
    abbrev pub IsLabelled : Loaded fl.Float M → Type 0
    IsLabelled l = (model_version l.prod_model ≡ l.prod_info.version) × IsLabelledStaging l.staging

    load_staging-IsLabelled :
        (r : Registry fl.Float M) (vs : List ModelVersion) (sv : Option ModelVersion) (m : Result M)
        → IsLatest "Staging" vs sv
        → Loads vs "Staging" m
        → IsLabelledStaging (load_staging fl r sv m)
    unfolding load_staging info_of
    load_staging-IsLabelled r vs none m latest loads = tt
    load_staging-IsLabelled r vs (some sv) (raise e) latest loads = tt
    load_staging-IsLabelled r vs (some sv) (ok m) latest loads =
        let (v, found, e) = loads m refl in e ∙ same_latest "Staging" vs v sv found latest

    IsLabelledOf : Result (Loaded fl.Float M) → Type 0
    IsLabelledOf (raise e) = Unit
    IsLabelledOf (ok l) = IsLabelled l

    load_production-IsLabelled :
        (r : Registry fl.Float M) (vs : List ModelVersion) (pv : Option ModelVersion) (m : Result M)
        → IsLatest "Production" vs pv
        → Loads vs "Production" m
        → Loads vs "Staging" (r.load_model "Staging")
        → IsLabelledOf (load_production fl r vs pv m)
    unfolding load_production info_of IsLabelledOf
    load_production-IsLabelled r vs none m latest loads staged = tt
    load_production-IsLabelled r vs (some pv) (raise e) latest loads staged = tt
    load_production-IsLabelled r vs (some pv) (ok m) latest loads staged =
        let (v, found, e) = loads m refl in
        (
          e ∙ same_latest "Production" vs v pv found latest,
          load_staging-IsLabelled r vs (latest_in_stage "Staging" vs) (r.load_model "Staging")
              (latest_in_stage-IsLatest "Staging" vs) staged,
        )

    do_load_models-IsLabelled :
        (r : Registry fl.Float M) (vs : List ModelVersion)
        → r.search ≡ ok vs
        → ((stage : String) → Loads vs stage (r.load_model stage))
        → (l : Loaded fl.Float M) → do_load_models fl r ≡ ok l
        → IsLabelled l
    unfolding load_versions IsLabelledOf
    do_load_models-IsLabelled r vs sees loads l h =
        subst IsLabelledOf (ap (load_versions fl r) (sym sees) ∙ h) (
          load_production-IsLabelled r vs (latest_in_stage "Production" vs)
            (r.load_model "Production") (latest_in_stage-IsLatest "Production" vs)
            (loads "Production") (loads "Staging"))

  -- An error leaves the models as they were; an answer has the highest version in Staging, and that is the one
  -- served, with its own model; the Staging model beside it stands with its own version too.
  unfoldable pub IsPromoted :
      (M → ℕ)
      → List ModelVersion
      → Option (Loaded fl.Float M)
      → Response (ℕ × ℕ) × List ModelVersion × Option (Loaded fl.Float M)
      → Type 0
  IsPromoted model_version vs s (http_error code, vs2, s2) = s2 ≡ s
  IsPromoted model_version vs s (answered (promoted, served), vs2, s2) =
      (promoted ≡ served)
      × Any (λ v. (in_stage "Staging" v ≡ true) × (v.version ≡ promoted)) vs
      × All (λ v. in_stage "Staging" v ≡ true → v.version ≤ promoted) vs
      × ((l : Loaded fl.Float M) × (s2 ≡ some l)
          × (l.prod_info.version ≡ promoted)
          × (model_version l.prod_model ≡ promoted)
          × IsLabelled model_version l)

  module _ (transition : ℕ → List ModelVersion → Result (List ModelVersion))
      (moves : IsTransition transition) (answers : List ModelVersion → Registry fl.Float M)
      (sees : (vs : List ModelVersion) → (answers vs).search ≡ ok vs) (model_version : M → ℕ)
      (loads : (vs : List ModelVersion) (stage : String)
        → Loads model_version vs stage ((answers vs).load_model stage)) where
    load-promoted :
        (n : ℕ) (vs vs2 : List ModelVersion) (l : Loaded fl.Float M)
        → transition n vs ≡ ok vs2
        → do_load_models fl (answers vs2) ≡ ok l
        → l.prod_info.version ≡ n
    unfolding load_versions
    load-promoted n vs vs2 l moved loaded =
        let found =
          load_production-version (answers vs2) vs2 (latest_in_stage "Production" vs2)
            ((answers vs2).load_model "Production") l (latest_in_stage-IsLatest "Production" vs2)
            (rw (sees vs2) at loaded) in
        agree n l.prod_info.version vs2 (moves n vs vs2 moved) found

    promote_install-IsPromoted :
        (sv : ModelVersion) (vs vs2 : List ModelVersion) (s : Option (Loaded fl.Float M))
        (r : Result (Loaded fl.Float M))
        → IsLatest "Staging" vs (some sv)
        → ((l : Loaded fl.Float M)
            → r ≡ ok l
            → (l.prod_info.version ≡ sv.version) × IsLabelled model_version l)
        → let done = promote_install fl sv.version r s in
          IsPromoted model_version vs s (done.0, vs2, done.1)
    unfolding promote_install IsPromoted
    promote_install-IsPromoted sv vs vs2 s (raise e) latest serves = refl
    promote_install-IsPromoted sv vs vs2 s (ok l) latest serves = (
      sym (serves l refl).0,
      Any-map (λ v e. (ap (in_stage "Staging") e ∙ latest.1, ap (λ x. x.version) e)) vs latest.0,
      latest.2,
      (l, refl, (serves l refl).0, (serves l refl).1.0 ∙ (serves l refl).0, (serves l refl).1),
    )

    after_transition-IsPromoted :
        (sv : ModelVersion) (vs : List ModelVersion) (s : Option (Loaded fl.Float M))
        (r : Result (List ModelVersion))
        → IsLatest "Staging" vs (some sv)
        → transition sv.version vs ≡ r
        → IsPromoted model_version vs s (after_transition fl transition answers sv.version vs s r)
    unfolding after_transition IsPromoted
    after_transition-IsPromoted sv vs s (raise e) latest q = refl
    after_transition-IsPromoted sv vs s (ok vs2) latest q =
        promote_install-IsPromoted sv vs vs2 s (do_load_models fl (answers vs2)) latest (λ l loaded.
          (
            load-promoted sv.version vs vs2 l q loaded,
            do_load_models-IsLabelled model_version (answers vs2) vs2 (sees vs2) (loads vs2) l
                loaded,
          ))

    promote_version-IsPromoted :
        (sv : Option ModelVersion) (vs : List ModelVersion) (s : Option (Loaded fl.Float M))
        → IsLatest "Staging" vs sv
        → IsPromoted model_version vs s (promote_version fl transition answers sv vs s)
    unfolding promote_version IsPromoted
    promote_version-IsPromoted none vs s latest = refl
    promote_version-IsPromoted (some sv) vs s latest =
        after_transition-IsPromoted sv vs s (transition sv.version vs) latest refl

    -- A promotion that answers has promoted the highest version in Staging, and the model then served is that
    -- version's own, with its label; the Staging model loaded beside it is the one of the version it is shown with.
    -- A promotion that ends in an error leaves the models as they were. This is for a registry in which the
    -- promoted version is then the only one in Production, and which answers a download by stage with the model
    -- of the highest version in that stage.
    pub admin_promote-IsPromoted :
        (vs : List ModelVersion) (s : Option (Loaded fl.Float M))
        → IsPromoted model_version vs s
            (admin_promote fl transition answers (answers vs).search vs s)
    unfolding admin_promote
    admin_promote-IsPromoted vs s =
        subst
          (λ found. IsPromoted model_version vs s (admin_promote fl transition answers found vs s))
          (sym (sees vs))
          (promote_version-IsPromoted (latest_in_stage "Staging" vs) vs s
            (latest_in_stage-IsLatest "Staging" vs))
