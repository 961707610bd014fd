-- ===== src/Ingestor/Hourly.antt =====
-- services/ingestor/app/parquet_writer.py: each completed hour of the raw tables goes to the lake as one
-- object per table. What Postgres, S3 and the clock answer comes with each round; the dates that strftime
-- writes, float() and the characters that are digits are arguments. The Parquet encoding is left out.
pub mod Keys
pub mod Reading
pub mod Schedule
pub mod Once
pub mod Complete
pub mod Missed
pub mod Restart
mod Tests
use weather_demand_forecast.Prelude.{
  ℕ, zero, suc, ◌+◌, ◌-◌, ◌*◌, ◌/◌, ◌%◌, ◌≡◌, String, Bool, true, false, ◌&&◌, ◌||◌, ◌↔◌, List, [],
  ◌∷◌, ◌++◌, map, Option, none, some, filter, ltb, leb, Eq, ◌==◌, ==_iff, ℕ_eq, String_eq,
  if◌then◌else◌, arith,
}
use weather_demand_forecast.Prelude.Dict.{Dict}
use weather_demand_forecast.Prelude.Texts.{Text, Text_eq, codes}
use weather_demand_forecast.Json.{Value, float}
use weather_demand_forecast.Ingestor.Consumers.{is_empty}
use weather_demand_forecast.Stream.RedisOps.{w_1h}
use weather_demand_forecast.Ingestor.Hourly.Keys.{parse_s3_key, s3_key}

-- What the writer calls of Python: strftime("%Y-%m-%d"), float() of a Decimal as the pattern of the float,
-- and the value of a character that is a decimal digit.
pub record Python : Type 0 where
  pub strftime : ℕ → Text
  pub to_float : String → ℕ
  pub digit : ℕ → Option ℕ

-- an element of the set _written
pub record Key : Type 0 where
  pub table : Text
  pub dt : Text
  pub hour : ℕ

abbrev pub same_key : Key → Key → Bool
same_key j k = (j.table == k.table) && ((j.dt == k.dt) && (j.hour == k.hour))

pub same_key_iff : (j k : Key) → (same_key j k ≡ true) ↔ (j ≡ k)
same_key_iff j k = ground (arith, ==_iff j.table k.table, ==_iff j.dt k.dt, ==_iff j.hour k.hour)

instance abbrev pub Key_eq : Eq Key
Key_eq = record { same = same_key; same_iff = same_key_iff }

unfoldable pub member : Key → List Key → Bool
member k [] = false
member k (j ∷ ks) = (j == k) || member k ks

-- a value of a column
pub data Cell : Type 0 where
  decimal : String → Cell
  plain : Value → Cell

pub record TableRow : Type 0 where
  pub ingested_at : ℕ
  pub columns : Dict String Cell

-- an object put to the lake
pub record Put : Type 0 where
  pub table : Text
  pub hour_start : ℕ
  pub s3_key : Text
  pub rows : List TableRow

-- Answers to the attempt at a table and an hour: the rows of raw.{table}, none for psycopg2.Error; and
-- whether S3 takes the object, false for ClientError.
pub record Answers : Type 0 where
  pub raw : Text → ℕ → Option (List TableRow)
  pub takes : Text → ℕ → Bool

pub record Writer : Type 0 where
  pub written : List Key
  pub puts : List Put

abbrev pub floor_hour : ℕ → ℕ
floor_hour dt = dt / w_1h * w_1h

-- _TABLE_CFG
abbrev pub tables : List Text
tables = codes "demand_events" ∷ codes "weather_readings" ∷ []

abbrev pub lookback_hours : ℕ
lookback_hours = 25

-- WHERE ingested_at >= hour_start AND ingested_at < hour_end
abbrev pub in_hour : ℕ → TableRow → Bool
in_hour hour_start r = leb hour_start r.ingested_at && ltb r.ingested_at (hour_start + w_1h)

pub record Round : Type 0 where
  pub now : ℕ
  pub answers : Answers

-- enough fuel for the hours up to `up_to_hour`
abbrev pub fuel_for : ℕ → ℕ
fuel_for up_to_hour = up_to_hour / w_1h + 2

-- A whole run: the listing, the catch-up at its time, the time at which the loop starts, the rounds.
pub record Run : Type 0 where
  pub pages : List (Option (List Text))
  pub startup : Round
  pub tracked_from : ℕ
  pub rounds : List Round
  pub last : Round

module _ (py : Python) where
  abbrev pub key_of : Text → ℕ → Key
  key_of table hour_start = record {
    table = table;
    dt = py.strftime hour_start;
    hour = hour_start / w_1h % 24;
  }

  coerce : Cell → Cell
  coerce (decimal d) = plain (float (py.to_float d))
  coerce (plain v) = plain v

  unfoldable pub coerce_row : TableRow → TableRow
  unfolding coerce
  coerce_row r = record r { columns = map (λ c. (c.0, coerce c.1)) r.columns }

  -- the upload, and what _write_partition returns
  unfoldable pub upload : Text → ℕ → Bool → List TableRow → List Put → Bool × List Put
  unfolding coerce_row
  upload table hour_start taken [] puts = (false, puts)
  upload table hour_start false (r ∷ rows) puts = (false, puts)
  upload table hour_start true (r ∷ rows) puts = (
    true,
    puts
        ++ record {
          table = table;
          hour_start = hour_start;
          s3_key = s3_key table (py.strftime hour_start) (hour_start / w_1h % 24);
          rows = map coerce_row (r ∷ rows);
        }
          ∷ [],
  )

  unfoldable pub write_partition :
      Text → ℕ → Option (List TableRow) → Bool → List Put → Bool × List Put
  unfolding upload filter
  write_partition table hour_start none taken puts = (false, puts)
  write_partition table hour_start (some all) taken puts =
      upload table hour_start taken (filter (in_hour hour_start) all) puts

  unfoldable pub maybe_write : Answers → Text → ℕ → Writer → Writer
  unfolding write_partition member
  maybe_write a table hour_start s =
      let k = key_of table hour_start in
      if member k s.written
      then s
      else (let w =
            write_partition table hour_start (a.raw table hour_start) (a.takes table hour_start)
              s.puts in
          record { written = if w.0 then k ∷ s.written else s.written; puts = w.1 })

  -- for table in _TABLE_CFG
  unfoldable pub write_tables : Answers → List Text → ℕ → Writer → Writer
  unfolding maybe_write
  write_tables a [] hour_start s = s
  write_tables a (t ∷ ts) hour_start s = write_tables a ts hour_start (maybe_write a t hour_start s)

  -- the `while` loop with fuel; none if it runs out
  unfoldable pub flush_rolled_hours : ℕ → Answers → ℕ → ℕ → Writer → Option Writer
  unfolding write_tables
  flush_rolled_hours zero a cursor up_to_hour s = none
  flush_rolled_hours (suc fuel) a cursor up_to_hour s =
      let rest =
        flush_rolled_hours fuel a (cursor + w_1h) up_to_hour (write_tables a tables cursor s) in
      if ltb cursor up_to_hour then rest else some s

  -- for hours_ago in range(k, k + n)
  unfoldable pub catch_up_hours : ℕ → ℕ → Answers → ℕ → Writer → Writer
  unfolding write_tables
  catch_up_hours zero k a now s = s
  catch_up_hours (suc n) k a now s =
      catch_up_hours n (k + 1) a now (write_tables a tables (floor_hour (now - k * w_1h)) s)

  unfoldable pub catch_up : Answers → ℕ → Writer → Writer
  unfolding catch_up_hours
  catch_up = catch_up_hours lookback_hours 1

  -- The pages of the listing; none for a ClientError, which ends it.
  unfoldable pub add_parsed : Option (Text × Text × ℕ) → List Key → List Key
  unfolding member
  add_parsed none ks = ks
  add_parsed (some p) ks =
      let k : Key = record { table = p.0; dt = p.1; hour = p.2 } in
      if member k ks then ks else k ∷ ks

  unfoldable pub add_page : List Text → List Key → List Key
  unfolding add_parsed parse_s3_key
  add_page [] ks = ks
  add_page (o ∷ os) ks = add_page os (add_parsed (parse_s3_key py.digit o) ks)

  unfoldable pub sync_written_set_from_s3 : List (Option (List Text)) → List Key → List Key
  unfolding add_page
  sync_written_set_from_s3 [] ks = ks
  sync_written_set_from_s3 (none ∷ pages) ks = ks
  sync_written_set_from_s3 (some os ∷ pages) ks = sync_written_set_from_s3 pages (add_page os ks)

  -- `if now_hour > tracked_hour`, of a round or of the end
  unfoldable pub roll : Answers → ℕ → ℕ → Writer → Option Writer
  unfolding flush_rolled_hours
  roll a tracked_hour now_hour s =
      if ltb tracked_hour now_hour
      then flush_rolled_hours (fuel_for now_hour) a tracked_hour now_hour s
      else some s

  -- the rounds until the stop event is set, and the last check behind them
  unfoldable pub rounds : List Round → Round → ℕ → Writer → Option Writer
  unfolding roll
  rounds [] last tracked_hour s = roll last.answers tracked_hour (floor_hour last.now) s
  rounds (r ∷ rs) last tracked_hour s =
      let now_hour = floor_hour r.now in
      elim (roll r.answers tracked_hour now_hour s) [
        | none ↦ none
        | some s2 ↦ rounds rs last (if ltb tracked_hour now_hour then now_hour else tracked_hour) s2
      ]

  unfoldable pub run : Run → Option Writer
  unfolding sync_written_set_from_s3 catch_up rounds
  run r =
      let synced : Writer = record { written = sync_written_set_from_s3 r.pages []; puts = [] } in
      rounds r.rounds r.last (floor_hour r.tracked_from)
        (catch_up r.startup.answers r.startup.now synced)
