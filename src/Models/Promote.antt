-- ===== src/Models/Promote.antt =====
-- services/trainer/app/promote.py: registration of a trained model and the two gates of its promotion.
-- The PSI of a feature, the formatting of texts, and what MLflow and scikit-learn answer are arguments;
-- a tag or a transition that the registry refuses is not modelled, nor is the artifact of the drift
-- report, whose failure the program ignores.
pub mod Decided
pub mod Gates
use weather_demand_forecast.Floats.{Floats}
use weather_demand_forecast.Prelude.{
  ℕ, String, Bool, true, false, List, [], ◌∷◌, Option, none, some, map, filter, String_eq,
  if◌then◌else◌,
}
use weather_demand_forecast.Prelude.Dict.{Dict, get, put}

-- the stage of a version: None, Staging, Production
pub data Stage : Type 0 where
  unassigned staging production : Stage

pub record Version : Type 0 where
  pub stage : Stage
  pub tags : Dict String String

-- the versions of the registered model
abbrev pub Versions : Type 0
Versions = Dict String Version

unfoldable pub on_version : String → (Version → Version) → Versions → Versions
unfolding get put
on_version v f d = elim (get v d) [ none ↦ d | some x ↦ put v (f x) d ]

-- client.set_model_version_tag, client.transition_model_version_stage
abbrev pub set_tag : String → String → Version → Version
set_tag key value x = record x { tags = put key value x.tags }

abbrev pub transition : Stage → Version → Version
transition stage x = record x { stage = stage }

module _ (fl : Floats) where
  pub record DriftReport : Type 0 where
    pub feature_psi : Dict String fl.Float
    pub drifted_features : List String
    pub max_psi : fl.Float
    pub worst_feature : Option String
    pub threshold : fl.Float
    pub passed : Bool

  -- _DRIFT_NUMERIC_FEATURES and _DRIFT_CAT_FEATURES, after the first
  abbrev pub other_features : List String
  other_features = "humidity_pct" ∷ "precip_mm" ∷ "city" ∷ []

  -- [f for f, psi in feature_psi.items() if psi > threshold]
  unfoldable pub drifted : fl.Float → Dict String fl.Float → List String
  drifted threshold [] = []
  drifted threshold ((f, psi) ∷ d) =
      if fl.lt threshold psi then f ∷ drifted threshold d else drifted threshold d

  -- the first entry with the largest value, from a first one on
  unfoldable pub largest : String × fl.Float → Dict String fl.Float → String × fl.Float
  largest best [] = best
  largest best (e ∷ d) = largest (if fl.lt best.1 e.1 then e else best) d

  abbrev pub is_none : List String → Bool
  is_none [] = true
  is_none (f ∷ fs) = false

  -- `psi` is the PSI of a feature, by _psi_numeric or _psi_categorical
  unfoldable pub compute_drift : (String → fl.Float) → fl.Float → DriftReport
  unfolding drifted largest
  compute_drift psi threshold =
      let first : String × fl.Float = ("temperature_c", psi "temperature_c") in
      let others : Dict String fl.Float = map (λ f. (f, psi f)) other_features in
      let feature_psi : Dict String fl.Float = first ∷ others in
      let over = drifted threshold feature_psi in
      let worst = largest first others in
      record {
        feature_psi = feature_psi;
        drifted_features = over;
        max_psi = worst.1;
        worst_feature = some worst.0;
        threshold = threshold;
        passed = is_none over;
      }

  -- f"{x:.4f}", ",".join(…), and the texts of the two rejections
  pub record Texts : Type 0 where
    pub fixed : fl.Float → ℕ → String
    pub joined : List String → String
    pub drift_reason : DriftReport → String
    pub holdout_reason : fl.Float → fl.Float → String → String

  -- What the registry and the evaluation answer: the versions in Production, and the error of the first
  -- of them on the new model's holdout; none where the call raised.
  pub record Answers : Type 0 where
    pub production_versions : Option (List String)
    pub prod_val_mae : Option fl.Float

  abbrev pub or_empty_text : Option String → String
  or_empty_text none = ""
  or_empty_text (some t) = t

  unfoldable pub tag_drift : Texts → DriftReport → Version → Version
  unfolding put
  tag_drift tx drift x = set_tag "drift_drifted_features" (tx.joined drift.drifted_features) (
      set_tag "drift_worst_feature" (or_empty_text drift.worst_feature) (
        set_tag "drift_max_psi" (tx.fixed drift.max_psi 4) (
          set_tag "drift_threshold" (fl.str drift.threshold)
            (set_tag "drift_check_passed" (if drift.passed then "true" else "false") x))))

  module _ (tx : Texts) (new_version : String) (val_mae : fl.Float) where
    -- gate 2
    unfoldable pub compare_holdout : String → Option fl.Float → Versions → Versions
    unfolding on_version
    compare_holdout prod_version none d = on_version new_version (transition staging) d
    compare_holdout prod_version (some prod_val_mae) d =
        let noted =
          on_version new_version (set_tag "prod_val_mae" (tx.fixed prod_val_mae 6))
            (on_version new_version (set_tag "compared_against_prod_version" prod_version) d) in
        if fl.lt val_mae prod_val_mae
        then on_version new_version (transition staging) noted
        else on_version new_version
            (set_tag "rejection_reason" (tx.holdout_reason val_mae prod_val_mae prod_version)) noted

    unfoldable pub against_production : Answers → Option (List String) → Versions → Versions
    unfolding compare_holdout on_version
    against_production a none d = on_version new_version (transition staging) d
    against_production a (some []) d = on_version new_version (transition staging) d
    against_production a (some (v ∷ vs)) d = compare_holdout v a.prod_val_mae d

    -- gate 1, and gate 2 behind it
    unfoldable pub apply_gates : Bool → String → Answers → Versions → Versions
    unfolding against_production on_version
    apply_gates true drift_reason a d = against_production a a.production_versions d
    apply_gates false drift_reason a d =
        on_version new_version (set_tag "rejection_reason" drift_reason) d

    unfoldable pub register_and_maybe_promote :
        (String → fl.Float) → fl.Float → Answers → Versions → Versions
    unfolding compute_drift tag_drift apply_gates on_version put
    register_and_maybe_promote psi threshold a d =
        let registered = put new_version (record { stage = unassigned; tags = [] }) d in
        let drift = compute_drift psi threshold in
        apply_gates drift.passed (tx.drift_reason drift) a
          (on_version new_version (tag_drift tx drift) registered)
