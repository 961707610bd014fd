-- ===== src/Serving/Models/Stale.antt =====
-- The loads of the retry loop beside the promotions: a load downloads its models outside the reload lock and
-- installs them under it, later.
use mathlib.Core.Path.{subst}
use weather_demand_forecast.Floats.{Floats}
use weather_demand_forecast.Prelude.{
  ℕ, ◌≡◌, ◌≢◌, refl, sym, ap, ◌∙◌, true, List, [], ◌∷◌, ◌++◌, Option, some, All, All-map,
}
use weather_demand_forecast.Json.{Result, ok}
use weather_demand_forecast.Serving.Models.{
  ModelVersion, Registry, Loaded, Response, in_stage, latest_in_stage, do_load_models, admin_reload,
  after_transition, promote_version, admin_promote,
}
use weather_demand_forecast.Serving.Models.Promoted.{IsTransition}

module _ (fl : Floats) (M : Type 0) where
  -- the registry, the models that are served, and the downloads that are not yet installed
  pub record World : Type 0 where
    pub versions : List ModelVersion
    pub serving : Option (Loaded fl.Float M)
    pub downloads : List (Loaded fl.Float M)

  module _ (transition : ℕ → List ModelVersion → Result (List ModelVersion))
      (answers : List ModelVersion → Registry fl.Float M) where
    -- the world that an answer of /admin/promote leaves
    abbrev pub promoted_world :
        World → Response (ℕ × ℕ) × List ModelVersion × Option (Loaded fl.Float M) → World
    promoted_world w out = record w { versions = out.1; serving = out.2 }

    pub data Step : World → World → Type 0 where
      -- _load_models_async up to the lock, and behind it
      download :
          (w : World) (l : Loaded fl.Float M)
          → do_load_models fl (answers w.versions) ≡ ok l
          → Step w (record w { downloads = w.downloads ++ l ∷ [] })
      install_download :
          (w : World) (l : Loaded fl.Float M) (before after : List (Loaded fl.Float M))
          → w.downloads ≡ before ++ l ∷ after
          → Step w (record w { serving = some l; downloads = before ++ after })
      -- /admin/reload and /admin/promote hold the lock throughout
      reload :
          (w : World)
          → Step w (record w { serving = (admin_reload fl (answers w.versions) w.serving).1 })
      promote :
          (w : World)
          → Step w (
              promoted_world w (
                admin_promote fl transition answers
                  (answers w.versions).search
                  w.versions
                  w.serving))

    pub data Reach (w : World) : World → Type 0 where
      here : Reach w w
      next : {u v : World} → Reach w u → Step u v → Reach w v

    promoted-versions :
        (vs vs2 : List ModelVersion) (s : Option (Loaded fl.Float M)) (sv : ModelVersion)
        → (answers vs).search ≡ ok vs
        → latest_in_stage "Staging" vs ≡ some sv
        → transition sv.version vs ≡ ok vs2
        → (admin_promote fl transition answers (answers vs).search vs s).1 ≡ vs2
    unfolding admin_promote promote_version after_transition
    promoted-versions vs vs2 s sv sees staged moved =
        ap (λ found. (admin_promote fl transition answers found vs s).1) sees
        ∙ ap (λ found. (promote_version fl transition answers found vs s).1) staged
        ∙ ap (λ r. (after_transition fl transition answers sv.version vs s r).1) moved

    -- A download that began before a promotion is installed after it: from any world whose registry can be
    -- loaded, and in which a promotion succeeds to a version other than the one so loaded, a world is reached in
    -- which the registry is the promoted one and the version served is in Production no more.
    pub promote-stale :
        (moves : IsTransition transition) (vs vs2 : List ModelVersion)
        (s : Option (Loaded fl.Float M)) (old : Loaded fl.Float M) (sv : ModelVersion)
        → do_load_models fl (answers vs) ≡ ok old
        → (answers vs).search ≡ ok vs
        → latest_in_stage "Staging" vs ≡ some sv
        → transition sv.version vs ≡ ok vs2
        → old.prod_info.version ≢ sv.version
        → Reach
            (record { versions = vs; serving = s; downloads = [] })
            (record { versions = vs2; serving = some old; downloads = [] })
          × All (λ v. v.version ≡ old.prod_info.version → in_stage "Production" v ≢ true) vs2
    promote-stale moves vs vs2 s old sv loads sees staged moved other =
        let start : World = record { versions = vs; serving = s; downloads = [] } in
        let loading : World = record { versions = vs; serving = s; downloads = old ∷ [] } in
        let out = admin_promote fl transition answers (answers vs).search vs s in
        let promoted : World = record { versions = out.1; serving = out.2; downloads = old ∷ [] } in
        let path =
          next (next (next here (download start old loads)) (promote loading))
            (install_download promoted old [] [] refl) in
        (
          subst (λ v. Reach start (record { versions = v; serving = some old; downloads = [] }))
              (promoted-versions vs vs2 s sv sees staged moved) path,
          All-map (λ v only e staged2. other (sym e ∙ only staged2)) vs2
              (moves sv.version vs vs2 moved),
        )
