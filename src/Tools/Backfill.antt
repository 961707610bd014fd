-- ===== src/Tools/Backfill.antt =====
-- tools/backfill.py: the partitions of the lake go back to the raw tables. A day is its ordinal. The objects of the
-- lake, the text of a date, the test for NaN, what Postgres stores for a tuple of values and how it answers a
-- partition's transaction are arguments.
pub mod Restored
pub mod Again
use weather_demand_forecast.Prelude.{
  ℕ, zero, suc, ◌+◌, ◌-◌, String, Bool, true, false, ◌||◌, not, List, [], ◌∷◌, ◌++◌, map, Option,
  none, some, length, leb, ◌==◌, String_eq, if◌then◌else◌,
}
use weather_demand_forecast.Prelude.Dict.{Dict, get}
use weather_demand_forecast.Prelude.Texts.{Text, Text_eq, codes}
use weather_demand_forecast.Json.{Value, null, float, db_error, Result, ok, raise}
use weather_demand_forecast.Ingestor.Db.{Row, insert_rows}
use weather_demand_forecast.Ingestor.Consumers.{Insert, stored, failed, unconfirmed, is_empty}
use weather_demand_forecast.Ingestor.Hourly.Keys.{s3_key}

-- the answer of S3 and of the Parquet reader for an object
pub data Download : Type 0 where
  absent client_error unreadable : Download
  read : List (Dict String Value) → Download

pub record Environment : Type 0 where
  pub lake : Text → Download
  pub isoformat : ℕ → Text
  -- v != v of the float with this pattern
  pub is_nan : ℕ → Bool
  -- the row that Postgres makes of a tuple, or none for a psycopg2.Error
  pub store : Text → List Value → Option Row
  pub same_id : Value → Value → Bool

pub record Partition : Type 0 where
  pub day : ℕ
  pub table : Text
  pub hour : ℕ

pub record Run : Type 0 where
  pub raw : Text → List Row
  pub total_rows : ℕ
  pub total_files : ℕ
  pub conn_open : Bool

abbrev demand_cols : List String
demand_cols =
    "city" ∷ "event_type" ∷ "sim_ts" ∷ "quantity" ∷ "temperature_c" ∷ "condition"
    ∷ "kafka_partition" ∷ "kafka_offset" ∷ "schema_version" ∷ "event_id" ∷ []

abbrev weather_cols : List String
weather_cols =
    "city" ∷ "polled_at" ∷ "temperature_c" ∷ "feels_like_c" ∷ "dew_point_c" ∷ "humidity_pct"
    ∷ "wind_kph" ∷ "wind_direction_deg" ∷ "cloud_cover_pct" ∷ "precip_probability_pct" ∷ "precip_mm"
    ∷ "condition" ∷ "kafka_partition" ∷ "kafka_offset" ∷ "schema_version" ∷ "event_id" ∷ []

-- _TABLE_COLS[table], of the two tables that the command line admits
unfoldable pub table_cols : Text → List String
table_cols table = if table == codes "demand_events" then demand_cols else weather_cols

-- `while d <= stop`
unfoldable pub days : ℕ → ℕ → ℕ → List ℕ
days zero d stop = []
days (suc fuel) d stop = let rest = days fuel (d + 1) stop in if leb d stop then d ∷ rest else []

unfoldable pub date_range : ℕ → ℕ → List ℕ
unfolding days
date_range start stop = days (suc stop - start) start stop

-- range(24), from an hour on
unfoldable pub hours : ℕ → ℕ → List ℕ
hours zero h = []
hours (suc n) h = h ∷ hours n (h + 1)

unfoldable pub hours_of : ℕ → Text → List ℕ → List Partition
hours_of day table [] = []
hours_of day table (h ∷ hs) = record { day = day; table = table; hour = h } ∷ hours_of day table hs

unfoldable pub tables_of : ℕ → List Text → List Partition
unfolding hours_of hours
tables_of day [] = []
tables_of day (t ∷ ts) = hours_of day t (hours 24 0) ++ tables_of day ts

-- the three loops
unfoldable pub partitions : List ℕ → List Text → List Partition
unfolding tables_of
partitions [] tables = []
partitions (d ∷ ds) tables = tables_of d tables ++ partitions ds tables

module _ (env : Environment) where
  abbrev pub key_of : Partition → Text
  key_of p = s3_key p.table (env.isoformat p.day) p.hour

  -- None where the object is absent, S3 fails or the file cannot be read
  unfoldable pub download_parquet : Text → Option (List (Dict String Value))
  download_parquet key = elim (env.lake key) [ read df ↦ some df | _ ↦ none ]

  -- a cell of a row: a missing column and NaN become None
  pub cell : Option Value → Value
  cell none = null
  cell (some (float bits)) = if env.is_nan bits then null else float bits
  cell (some v) = v

  unfoldable pub to_row : List String → Dict String Value → List Value
  unfolding cell get
  to_row [] df_row = []
  to_row (c ∷ cols) df_row = cell (get c df_row) ∷ to_row cols df_row

  pub cons_row : Option Row → Option (List Row) → Option (List Row)
  cons_row none rest = none
  cons_row (some row) none = none
  cons_row (some row) (some rows) = some (row ∷ rows)

  -- the rows of a partition, as Postgres takes them
  unfoldable pub rows_of : Text → List (Dict String Value) → Option (List Row)
  unfolding to_row table_cols cons_row
  rows_of table [] = some []
  rows_of table (r ∷ df) =
      cons_row (env.store table (to_row (table_cols table) r)) (rows_of table df)

  abbrev pub write : Text → List Row → (Text → List Row) → Text → List Row
  write table rows raw t = if t == table then rows else raw t

  -- The transaction for the rows of a partition; its result is cur.rowcount.
  unfoldable pub commit :
      Insert → Text → Option (List Row) → (Text → List Row) → Result ℕ × (Text → List Row)
  commit answer table none raw = (raise db_error, raw)
  commit stored table (some rows) raw =
      let after = insert_rows env.same_id rows (raw table) in
      (ok (length after - length (raw table)), write table after raw)
  commit failed table (some rows) raw = (raise db_error, raw)
  commit unconfirmed table (some rows) raw =
      (raise db_error, write table (insert_rows env.same_id rows (raw table)) raw)

  abbrev pub counted : ℕ → Run → Run
  counted inserted s = record s {
    total_files = s.total_files + 1;
    total_rows = s.total_rows + inserted;
  }

  -- _insert_partition, behind the test for a missing or an empty frame, and the totals
  unfoldable pub insert_partition :
      Bool → Insert → Text → Option (List (Dict String Value)) → Run → Result (Unit {0}) × Run
  insert_partition dry_run answer table none s = (ok tt, s)
  insert_partition dry_run answer table (some []) s = (ok tt, s)
  insert_partition true answer table (some (r ∷ df)) s = (ok tt, counted (length (r ∷ df)) s)
  insert_partition false answer table (some (r ∷ df)) s =
      let done = commit answer table (rows_of table (r ∷ df)) s.raw in
      let s' = record s { raw = done.1 } in
      elim done.0 [ ok n ↦ (ok tt, counted n s') | raise e ↦ (raise e, s') ]

  -- a turn of the innermost loop
  unfoldable pub visit : Bool → (Partition → Insert) → Partition → Run → Result (Unit {0}) × Run
  visit dry_run answer p s =
      insert_partition dry_run (answer p) p.table (download_parquet (key_of p)) s

  unfoldable pub visit_all :
      Bool → (Partition → Insert) → List Partition → Run → Result (Unit {0}) × Run
  visit_all dry_run answer [] s = (ok tt, s)
  visit_all dry_run answer (p ∷ ps) s =
      let done = visit dry_run answer p s in
      let rest = visit_all dry_run answer ps done.1 in
      elim done.0 [ ok u ↦ rest | raise e ↦ (raise e, done.1) ]

  abbrev pub opened : Bool → Run → Run
  opened dry_run s = record s { total_rows = 0; total_files = 0; conn_open = not dry_run }

  -- backfill(…): without a dry run the connection is opened first and closed at the end
  unfoldable pub backfill :
      Bool → Bool → (Partition → Insert) → ℕ → ℕ → List Text → Run → Result (Unit {0}) × Run
  backfill dry_run connected answer start stop tables s =
      let ended =
        visit_all dry_run answer (partitions (date_range start stop) tables) (opened dry_run s) in
      if dry_run || connected
      then (ended.0, record ended.1 { conn_open = false })
      else (raise db_error, s)
