-- ===== src/Retrain/Cooldown.antt =====
-- When a drift check starts a run.
use weather_demand_forecast.Floats.{Floats}
use weather_demand_forecast.Prelude.{
  ℕ, ◌+◌, ◌*◌, ◌≤◌, ◌≡◌, ◌↔◌, ◌⊎◌, inl, inr, refl, true, false, ◌||◌, List, [], ◌∷◌, Option, none,
  some, Any, Bool-cases, arith,
}
use weather_demand_forecast.Stream.RedisOps.{second}
use weather_demand_forecast.Ingestor.Consumers.{is_empty}
use weather_demand_forecast.Retrain.{Score, Settings, exceeding, is_cooling, maybe_trigger_retrain}

module _ (fl : Floats) where
  -- the score is above the threshold, or drift was detected without it
  abbrev pub Exceeds : fl.Float → Score fl.Float → Type 0
  Exceeds threshold s = (fl.lt threshold s.score ≡ true) ⊎ (s.detected ≡ true)

  -- no run has been started within the cooldown
  abbrev pub IsCool : Settings fl.Float → ℕ → Option ℕ → Type 0
  IsCool settings now none = Unit
  IsCool settings now (some last) = last + settings.retrain_cooldown_minutes * 60 * second ≤ now

  exceeding-Any :
      (threshold : fl.Float) (scores : List (Score fl.Float))
      → is_empty (exceeding fl threshold scores) ≡ false
      → Any (Exceeds threshold) scores
  unfolding exceeding
  exceeding-Any threshold [] h = cc
  exceeding-Any threshold (s ∷ ss) h = elim (Bool-cases (fl.lt threshold s.score)) [
    | inl over ↦ inl (inl over)
    | inr under ↦ elim (Bool-cases s.detected) [
      | inl found ↦ inl (inr found)
      | inr not_found ↦ inr (exceeding-Any threshold ss (rw (under, not_found) at h))
    ]
  ]

  Any-exceeding :
      (threshold : fl.Float) (scores : List (Score fl.Float))
      → Any (Exceeds threshold) scores
      → is_empty (exceeding fl threshold scores) ≡ false
  unfolding exceeding
  Any-exceeding threshold [] h = elim h [ ]
  Any-exceeding threshold (s ∷ ss) (inl (inl over)) = rw over refl
  Any-exceeding threshold (s ∷ ss) (inl (inr found)) = elim (Bool-cases (fl.lt threshold s.score)) [
    | inl over ↦ rw over refl
    | inr under ↦ rw (under, found) refl
  ]
  Any-exceeding threshold (s ∷ ss) (inr h) =
      elim (Bool-cases (fl.lt threshold s.score || s.detected)) [
        | inl over ↦ rw over refl
        | inr under ↦ rw under (Any-exceeding threshold ss h)
      ]

  is_cooling_iff :
      (settings : Settings fl.Float) (now : ℕ) (last : Option ℕ)
      → (is_cooling fl settings now last ≡ false) ↔ IsCool settings now last
  unfolding is_cooling
  is_cooling_iff settings now none = (λ h. tt, λ h. refl)
  is_cooling_iff settings now (some last) = ground arith

  -- A drift check starts a run exactly when retraining on drift is set, some feature exceeds the threshold
  -- or was detected, and the last run, if any, was started at least the cooldown ago.
  pub maybe_trigger_retrain_iff :
      (settings : Settings fl.Float) (now : ℕ) (scores : List (Score fl.Float)) (last : Option ℕ)
      → (maybe_trigger_retrain fl settings now scores last ≡ true) ↔ (
          (settings.auto_retrain_on_drift ≡ true)
          × Any (Exceeds settings.retrain_drift_threshold) scores
          × IsCool settings now last)
  unfolding maybe_trigger_retrain
  maybe_trigger_retrain_iff settings now scores last =
      let over = exceeding fl settings.retrain_drift_threshold scores in
      let cooling = is_cooling fl settings now last in
      elim (Bool-cases settings.auto_retrain_on_drift) [
        | inr off ↦ rw off (λ h. cc, λ h. cc (h.0))
        | inl on ↦ elim (Bool-cases (is_empty over)) [
          | inl none_over ↦
              rw (on, none_over)
                (
                  λ h. cc,
                  λ h. cc (none_over, Any-exceeding settings.retrain_drift_threshold scores h.1),
                )
          | inr some_over ↦ elim (Bool-cases cooling) [
            | inl warm ↦
                rw (on, some_over, warm)
                  (λ h. cc, λ h. cc (warm, (is_cooling_iff settings now last).1 h.2))
            | inr cool ↦
                rw (on, some_over, cool)
                  (
                    λ h. (
                      refl,
                      exceeding-Any settings.retrain_drift_threshold scores some_over,
                      (is_cooling_iff settings now last).0 cool,
                    ),
                    λ h. refl,
                  )
          ]
        ]
      ]
