-- ===== src/Retrain/Split.antt =====
-- The split by time leaves no row out and lets no later row into the training set.
use weather_demand_forecast.Prelude.{
  ℕ, ◌+◌, ◌*◌, ◌<◌, ◌≡◌, Bool, not, List, ltb→lt, All, All-map, filter, count, count-filter,
  All-filter, arith,
}
use weather_demand_forecast.Retrain.{FeatureRow, day, latest, is_training, time_split}

-- Every training row is more than `val_days` before the last row of the table, and earlier than every
-- validation row; and each kind of row is as often in the two sets together as in the table.
pub time_split_lem :
    (val_days : ℕ) (rows : List FeatureRow)
    → let (train_df, val_df) = time_split val_days rows in
      All (λ t. t.hour_ts + val_days * day < latest 0 rows) train_df
      × All (λ t. All (λ v. t.hour_ts < v.hour_ts) val_df) train_df
      × ((p : FeatureRow → Bool) → count p train_df + count p val_df ≡ count p rows)
unfolding time_split is_training
time_split_lem val_days rows =
    let training = is_training (latest 0 rows) val_days in
    let early = All-filter training rows in
    let late = All-filter (λ r. not (training r)) rows in
    (
      All-map (λ t e. ltb→lt (t.hour_ts + val_days * day) (latest 0 rows) e) (filter training rows)
          early,
      All-map
          (λ t e. All-map (λ v l. ground (arith, e, l)) (filter (λ r. not (training r)) rows) late)
          (filter training rows) early,
      λ p. count-filter p training rows,
    )
