-- ===== src/Drift/Persisted.antt =====
-- What a drift check commits and starts.
use weather_demand_forecast.Floats.{Floats}
use weather_demand_forecast.Prelude.{
  ℕ, ◌+◌, ◌≡◌, ◌⊎◌, false, List, ◌++◌, map, Option, ltb, All, if◌then◌else◌,
}
use weather_demand_forecast.Ingestor.Consumers.{is_empty}
use weather_demand_forecast.Retrain.{Settings, maybe_trigger_retrain}
use weather_demand_forecast.Drift.{ReportRow, State, summary_of}

module _ (fl : Floats) (settings : Settings fl.Float) (checked_at now ended_at min_rows : ℕ)
    (last_triggered : Option ℕ) where
  -- rows of this check, on at least the minimum of current rows
  IsOfCheck : ReportRow fl.Float → Type 0
  IsOfCheck r = (r.checked_at ≡ checked_at) × (ltb r.current_count min_rows ≡ false)

  -- Nothing is committed and nothing started; or some rows of this check are committed, and the retraining is
  -- started exactly if their scores ask for it.
  unfoldable pub IsPersisted : State fl.Float → State fl.Float → Type 0
  unfolding IsOfCheck
  IsPersisted s t =
      ((t.reports ≡ s.reports) × (t.started ≡ s.started))
      ⊎ ((rows : List (ReportRow fl.Float)) × (is_empty rows ≡ false)
          × All IsOfCheck rows
          × (t.reports ≡ s.reports ++ rows)
          × (t.started ≡ (
              if maybe_trigger_retrain fl settings now (map (summary_of fl) rows) last_triggered
              then s.started + 1
              else s.started)))
