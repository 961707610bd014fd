-- ===== src/Models/Promote/Gates.antt =====
-- Which models are promoted.
use mathlib.Core.Path.{subst}
use weather_demand_forecast.Floats.{Floats}
use weather_demand_forecast.Prelude.{
  ◌≡◌, refl, ap, ◌∙◌, String, Bool, true, false, not, ◌&&◌, List, [], ◌∷◌, Option, none, some, ◌==◌,
  ==_refl, String_eq, arith,
}
use weather_demand_forecast.Prelude.Dict.{get, put, get-put}
use weather_demand_forecast.Models.Promote.Decided.{
  get-on_version_same, get-on_version_other, is_some, IsDecided, Decided, decide,
  tag_and_decide-Decided, tag_and_decide-other,
}
use weather_demand_forecast.Models.Promote.{
  unassigned, staging, Version, Versions, on_version, set_tag, transition, drifted, compute_drift,
  Texts, Answers, tag_drift, compare_holdout, against_production, apply_gates,
  register_and_maybe_promote,
}

module _ (fl : Floats) where
  -- no PSI is above the threshold
  unfoldable pub passes_drift : (String → fl.Float) → fl.Float → Bool
  passes_drift psi threshold =
      not (fl.lt threshold (psi "temperature_c"))
      && (not (fl.lt threshold (psi "humidity_pct"))
          && (not (fl.lt threshold (psi "precip_mm")) && not (fl.lt threshold (psi "city"))))

  -- nothing serves in Production, or what serves cannot be evaluated, or the new model has a lower error
  unfoldable pub beats_production : fl.Float → Option (List String) → Option fl.Float → Bool
  beats_production val_mae none e = true
  beats_production val_mae (some []) e = true
  beats_production val_mae (some (v ∷ vs)) none = true
  beats_production val_mae (some (v ∷ vs)) (some prod_val_mae) = fl.lt val_mae prod_val_mae

  compute_drift-passes_drift :
      (psi : String → fl.Float) (threshold : fl.Float)
      → (compute_drift fl psi threshold).passed ≡ passes_drift psi threshold
  unfolding compute_drift drifted passes_drift
  compute_drift-passes_drift psi threshold = ground arith

  module _ (tx : Texts fl) (new_version : String) (val_mae : fl.Float) where
    compare_holdout-Decided :
        (v : String) (vs : List String) (e : Option fl.Float) (d : Versions) {x : Version}
        → get new_version d ≡ some x
        → x.stage ≡ unassigned
        → get "rejection_reason" x.tags ≡ none
        → Decided new_version
            (beats_production val_mae (some (v ∷ vs)) e)
            (compare_holdout fl tx new_version val_mae v e d)
    unfolding compare_holdout IsDecided beats_production
    compare_holdout-Decided v vs none d found fresh clear =
        decide new_version true (transition staging) d found (refl, ap is_some clear)
    compare_holdout-Decided v vs (some mae) d found fresh clear =
        tag_and_decide-Decided new_version ("compared_against_prod_version", v)
          ("prod_val_mae", tx.fixed mae 6) (tx.holdout_reason val_mae mae v) (fl.lt val_mae mae) d
          found fresh clear refl refl

    against_production-Decided :
        (a : Answers fl) (vs : Option (List String)) (d : Versions) {x : Version}
        → get new_version d ≡ some x
        → x.stage ≡ unassigned
        → get "rejection_reason" x.tags ≡ none
        → Decided new_version
            (beats_production val_mae vs a.prod_val_mae)
            (against_production fl tx new_version val_mae a vs d)
    unfolding against_production compare_holdout IsDecided beats_production
    against_production-Decided a none d found fresh clear =
        decide new_version true (transition staging) d found (refl, ap is_some clear)
    against_production-Decided a (some []) d found fresh clear =
        decide new_version true (transition staging) d found (refl, ap is_some clear)
    against_production-Decided a (some (v ∷ vs)) d found fresh clear =
        compare_holdout-Decided v vs a.prod_val_mae d found fresh clear

    compare_holdout-other :
        (w v : String) (e : Option fl.Float) (d : Versions)
        → (new_version == w) ≡ false
        → get w (compare_holdout fl tx new_version val_mae v e d) ≡ get w d
    unfolding compare_holdout
    compare_holdout-other w v none d differ =
        get-on_version_other new_version w (transition staging) d differ
    compare_holdout-other w v (some mae) d differ =
        tag_and_decide-other new_version w ("compared_against_prod_version", v)
          ("prod_val_mae", tx.fixed mae 6) (tx.holdout_reason val_mae mae v) (fl.lt val_mae mae) d
          differ

    against_production-other :
        (w : String) (a : Answers fl) (vs : Option (List String)) (d : Versions)
        → (new_version == w) ≡ false
        → get w (against_production fl tx new_version val_mae a vs d) ≡ get w d
    unfolding against_production
    against_production-other w a none d differ =
        get-on_version_other new_version w (transition staging) d differ
    against_production-other w a (some []) d differ =
        get-on_version_other new_version w (transition staging) d differ
    against_production-other w a (some (v ∷ vs)) d differ =
        compare_holdout-other w v a.prod_val_mae d differ

    apply_gates-Decided :
        (passed : Bool) (reason : String) (a : Answers fl) (d : Versions) {x : Version}
        → get new_version d ≡ some x
        → x.stage ≡ unassigned
        → get "rejection_reason" x.tags ≡ none
        → Decided new_version
            (passed && beats_production val_mae a.production_versions a.prod_val_mae)
            (apply_gates fl tx new_version val_mae passed reason a d)
    unfolding apply_gates IsDecided
    apply_gates-Decided true reason a d found fresh clear =
        against_production-Decided a a.production_versions d found fresh clear
    apply_gates-Decided false reason a d {x} found fresh clear =
        decide new_version false (set_tag "rejection_reason" reason) d found
          (fresh, ap is_some (get-put "rejection_reason" "rejection_reason" reason x.tags))

    apply_gates-other :
        (w : String) (passed : Bool) (reason : String) (a : Answers fl) (d : Versions)
        → (new_version == w) ≡ false
        → get w (apply_gates fl tx new_version val_mae passed reason a d) ≡ get w d
    unfolding apply_gates
    apply_gates-other w true reason a d differ =
        against_production-other w a a.production_versions d differ
    apply_gates-other w false reason a d differ =
        get-on_version_other new_version w (set_tag "rejection_reason" reason) d differ

    -- A model that is registered is moved to Staging exactly when no monitored feature's PSI is above the
    -- threshold and either no version is known to be in Production, or the first one cannot be evaluated, or
    -- its error on the holdout is above the new model's; otherwise the new version keeps its stage and has
    -- a rejection reason, which a promoted one has not. No other version is changed.
    pub register_and_maybe_promote-Decided :
        (psi : String → fl.Float) (threshold : fl.Float) (a : Answers fl) (d : Versions)
        → let after = register_and_maybe_promote fl tx new_version val_mae psi threshold a d in
          let promoted =
            passes_drift psi threshold
            && beats_production val_mae a.production_versions a.prod_val_mae in
          ((y : Version) × (get new_version after ≡ some y) × IsDecided promoted y)
          × ((w : String) → (new_version == w) ≡ false → get w after ≡ get w d)
    unfolding register_and_maybe_promote Decided tag_drift put get
    register_and_maybe_promote-Decided psi threshold a d =
        let start : Version = record { stage = unassigned; tags = [] } in
        let drift = compute_drift fl psi threshold in
        let reason = tx.drift_reason drift in
        let registered = put new_version start d in
        let tagged = on_version new_version (tag_drift fl tx drift) registered in
        let at_start : get new_version registered ≡ some start =
          get-put new_version new_version start d ∙ rw (==_refl new_version) refl in
        let found =
          get-on_version_same new_version (tag_drift fl tx drift) registered {x = start} at_start in
        let decided = apply_gates-Decided drift.passed reason a tagged found refl refl in
        (
          subst
              (λ b.
                Decided new_version
                  (b && beats_production val_mae a.production_versions a.prod_val_mae)
                  (apply_gates fl tx new_version val_mae drift.passed reason a tagged))
              (compute_drift-passes_drift psi threshold) decided,
          λ w differ.
              apply_gates-other w drift.passed reason a tagged differ
              ∙ get-on_version_other new_version w (tag_drift fl tx drift) registered differ
              ∙ get-put new_version w start d
              ∙ rw (differ) refl,
        )
