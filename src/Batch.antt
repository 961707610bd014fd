-- ===== src/Batch.antt =====
-- services/worker/app: sql_runner.py, staging.py, marts.py and pipeline.py, the batch from the raw tables to the
-- mart and the first fit. A SQL file is an argument, a function on the database that returns its row of
-- counters or fails; so are the calendars of the library holidays and the fit. The database is the mart's rows
-- and the rest of it.
pub mod Transactions
pub mod Quality
pub mod Pipeline
mod Tests
use weather_demand_forecast.Prelude.{
  ℕ, zero, suc, ◌+◌, ◌-◌, ◌*◌, ◌/◌, ◌≡◌, String, Bool, true, false, ◌&&◌, List, [], ◌∷◌, ◌++◌, map,
  Option, none, some, length, count, ltb, ◌==◌, String_eq, ℕ_eq, if◌then◌else◌,
}
use weather_demand_forecast.Prelude.Dict.{Dict, get}
use weather_demand_forecast.Json.{Result, ok, raise, Exc, db_error, other}
use weather_demand_forecast.Ingestor.Consumers.{is_empty}
use weather_demand_forecast.Stream.RedisOps.{w_1h}

-- a row of marts.city_hour_features: its key, the flag, and which other columns are NULL
pub record MartRow : Type 0 where
  pub city : String
  pub hour_ts : ℕ
  pub is_holiday : Option Bool
  pub is_null : String → Bool

pub record Db (R : Type 0) : Type 0 where
  pub mart : List MartRow
  pub others : R

-- the row that a SQL file returns: counters, some of them NULL
abbrev pub Counters : Type 0
Counters = Dict String (Option ℕ)

abbrev pub Params : Type 0
Params = List (String × ℕ)

pub record SqlFile (R : Type 0) : Type 0 where
  pub name : String
  pub execute : Params → Db R → Result (Option Counters × Db R)

-- What a connection answers: to connect, to the statements of Python, to commit.
pub record Link : Type 0 where
  pub connects : Bool
  pub executes : Bool
  pub commits : Bool

-- int(r.get(k, 0) or 0)
unfoldable pub counter : String → Counters → ℕ
unfolding get
counter k r = elim (get k r) [ none ↦ 0 | some v ↦ elim v [ none ↦ 0 | some n ↦ n ] ]

abbrev pub or_no_counters : Option Counters → Counters
or_no_counters none = []
or_no_counters (some r) = r

module _ {R : Type 0} where
  unfoldable pub execute_files :
      Params → List (SqlFile R) → Db R → Result (List (String × Counters) × Db R)
  execute_files params [] db = ok ([], db)
  execute_files params (f ∷ fs) db = elim (f.execute params db) [
    | raise e ↦ raise e
    | ok (row, db2) ↦ elim (execute_files params fs db2) [
      | raise e ↦ raise e
      | ok (rows, db3) ↦ ok ((f.name, or_no_counters row) ∷ rows, db3)
    ]
  ]

-- `before` is Python's order on the names of the files
module _ {R : Type 0} (before : String → String → Bool) where
  unfoldable pub insert : SqlFile R → List (SqlFile R) → List (SqlFile R)
  insert f [] = f ∷ []
  insert f (g ∷ gs) =
      let rest = insert f gs in if before g.name f.name then g ∷ rest else f ∷ g ∷ gs

  -- sorted(sql_dir.glob("*.sql"))
  unfoldable pub sort : List (SqlFile R) → List (SqlFile R)
  unfolding insert
  sort [] = []
  sort (f ∷ fs) = insert f (sort fs)

  -- SqlRunner.run; none is a directory that does not exist
  unfoldable pub run_files :
      Params → Option (List (SqlFile R)) → Db R → Result (List (String × Counters) × Db R)
  unfolding execute_files sort
  run_files params none db = raise other
  run_files params (some files) db = execute_files params (sort files) db

module _ {R : Type 0} where
  -- connect, the body, commit, and rollback where the body or the commit raises
  unfoldable pub in_transaction {ℓ} :
      {A : Type ℓ} → Link → (Db R → Result (A × Db R)) → Db R → Result A × Db R
  in_transaction l body db =
      if l.connects
      then (elim (body db) [
        | raise e ↦ (raise e, db)
        | ok (a, db2) ↦ if l.commits then (ok a, db2) else (raise db_error, db)
      ])
      else (raise db_error, db)

-- sum(int(r.get(k, 0) or 0) for r in results)
unfoldable pub total : String → List (String × Counters) → ℕ
unfolding counter
total k [] = 0
total k (r ∷ rs) = counter k r.1 + total k rs

unfoldable pub first_counter : String → List (String × Counters) → ℕ
unfolding counter
first_counter k [] = 0
first_counter k (r ∷ rs) = counter k r.1

unfoldable pub window : ℕ → ℕ → Params
window now lookback_days =
    let window_end = now / w_1h * w_1h in
    ("window_start", window_end - lookback_days * (24 * w_1h)) ∷ ("window_end", window_end) ∷ []

abbrev pub on_ok {ℓ κ} : {A : Type ℓ} {B : Type κ} → (A → B) → Result A → Result B
on_ok f (ok a) = ok (f a)
on_ok f (raise e) = raise e

-- What the marts need of the library holidays and of dates: city.lower(), the year of a day, and
-- `d in hol.country_holidays(country, years=year)`. Days are counted from the epoch.
pub record Calendars : Type 0 where
  pub lower : String → String
  pub year : ℕ → ℕ
  pub is_holiday : String → ℕ → ℕ → Bool

abbrev pub city_country : Dict String (Option String)
city_country =
    ("london", some "GB")
    ∷ ("new_york", some "US")
    ∷ ("tokyo", some "JP")
    ∷ ("sydney", some "AU")
    ∷ ("dubai", none)
    ∷ []

unfoldable pub in_holidays : Calendars → Option (Option String) → ℕ → ℕ → Bool
in_holidays c none year d = false
in_holidays c (some none) year d = false
in_holidays c (some (some country)) year d = c.is_holiday country year d

-- hour_ts.date() in _holidays_for(city, d.year)
unfoldable pub holiday_flag : Calendars → String → ℕ → Bool
unfolding in_holidays get
holiday_flag c city hour_ts =
    let d = hour_ts / (24 * w_1h) in in_holidays c (get (c.lower city) city_country) (c.year d) d

-- a row of the temporary table
pub record HolidayFlag : Type 0 where
  pub flag : Bool
  pub city : String
  pub hour_ts : ℕ

unfoldable pub flag_of : String → ℕ → List HolidayFlag → Option Bool
flag_of city hour_ts [] = none
flag_of city hour_ts (h ∷ hs) =
    let rest = flag_of city hour_ts hs in
    if h.city == city && (h.hour_ts == hour_ts) then some h.flag else rest

-- UPDATE … SET is_holiday = h.flag FROM _holiday_flags h WHERE …, with its row count
unfoldable pub set_flag : List HolidayFlag → MartRow → MartRow
unfolding flag_of
set_flag hs m = elim (flag_of m.city m.hour_ts hs) [
  | none ↦ m
  | some flag ↦ record m { is_holiday = some flag }
]

abbrev pub is_flagged : List HolidayFlag → MartRow → Bool
is_flagged hs m = elim (flag_of m.city m.hour_ts hs) [ none ↦ false | some flag ↦ true ]

abbrev pub update_rows : Calendars → List MartRow → List HolidayFlag
update_rows c mart =
    map (λ m. record { flag = holiday_flag c m.city m.hour_ts; city = m.city; hour_ts = m.hour_ts })
      mart

module _ {R : Type 0} where
  unfoldable pub apply_holidays : Calendars → Bool → Db R → Result (ℕ × Db R)
  unfolding set_flag flag_of holiday_flag
  apply_holidays c executes db =
      if executes
      then (let hs = update_rows c db.mart in
          ok (count (is_flagged hs) db.mart, record db { mart = map (set_flag hs) db.mart }))
      else raise db_error

-- _MUST_BE_COMPLETE, without is_holiday
abbrev pub must_be_complete : List String
must_be_complete =
    "total_demand" ∷ "event_count" ∷ "hour_sin" ∷ "hour_cos" ∷ "dow_sin" ∷ "dow_cos" ∷ []

pub data Failure : Type 0 where
  nothing_written : Failure
  row_count_mismatch : ℕ → ℕ → Failure
  nulls : String → ℕ → Failure

-- COUNT(*) FILTER (WHERE {col} IS NULL)
abbrev pub flag_is_null : MartRow → Bool
flag_is_null m = elim m.is_holiday [ none ↦ true | some b ↦ false ]

abbrev pub null_count : String → List MartRow → ℕ
null_count col mart = count (λ m. m.is_null col) mart

unfoldable pub null_failure : String → ℕ → List Failure
null_failure col n = if ltb 0 n then nulls col n ∷ [] else []

unfoldable pub null_failures : List String → List MartRow → List Failure
unfolding null_failure
null_failures [] mart = []
null_failures (col ∷ cols) mart = null_failure col (null_count col mart) ++ null_failures cols mart

-- the list `errors` of _assert_quality
unfoldable pub hard_failures : ℕ → List MartRow → List Failure
hard_failures staging_rows mart =
    (if length mart == 0 then nothing_written ∷ [] else [])
    ++ ((if length mart == staging_rows
          then []
          else row_count_mismatch (length mart) staging_rows ∷ [])
        ++ (null_failures must_be_complete mart
            ++ null_failure "is_holiday" (count flag_is_null mart)))

unfoldable pub assert_quality : ℕ → List MartRow → Result (Unit {0})
assert_quality staging_rows mart =
    if is_empty (hard_failures staging_rows mart) then ok tt else raise other

module _ {R : Type 0} where
  -- `staging` is SELECT COUNT(*) FROM staging.demand_hourly
  unfoldable pub check_marts : (R → ℕ) → Link → ℕ → Db R → Result ℕ × Db R
  check_marts staging l rows_upserted db =
      if l.connects && l.executes
      then (on_ok (λ u. rows_upserted) (assert_quality (staging db.others) db.mart), db)
      else (raise db_error, db)

  -- the checks behind the transaction of the flags
  unfoldable pub checked : (R → ℕ) → Link → ℕ → Result ℕ × Db R → Result ℕ × Db R
  checked staging l rows_upserted (raise e, db) = (raise e, db)
  checked staging l rows_upserted (ok n, db) = check_marts staging l rows_upserted db

  unfoldable pub flag_marts : Calendars → (R → ℕ) → Link → Link → ℕ → Db R → Result ℕ × Db R
  flag_marts c staging l2 l3 rows_upserted db =
      if rows_upserted == 0
      then (ok 0, db)
      else checked staging l3 rows_upserted (in_transaction l2 (apply_holidays c l2.executes) db)

  -- what follows the transaction of the SQL files
  unfoldable pub flagged :
      Calendars → (R → ℕ) → Link → Link → Result (List (String × Counters)) × Db R → Result ℕ × Db R
  flagged c staging l2 l3 (raise e, db) = (raise e, db)
  flagged c staging l2 l3 (ok results, db) =
      flag_marts c staging l2 l3 (first_counter "rows_upserted" results) db

  -- (total_staging, total_rejects)
  unfoldable pub totals : Result (List (String × Counters)) × Db R → Result (ℕ × ℕ) × Db R
  totals (raise e, db) = (raise e, db)
  totals (ok results, db) =
      (ok (total "staging_written" results, total "rejects_written" results), db)

module _ {R : Type 0} (before : String → String → Bool) where
  unfoldable pub run_staging :
      Link → ℕ → ℕ → Option (List (SqlFile R)) → Db R → Result (ℕ × ℕ) × Db R
  run_staging l now lookback_days files db =
      totals (in_transaction l (run_files before (window now lookback_days) files) db)

  unfoldable pub run_marts :
      Calendars → (R → ℕ) → Link → Link → Link → Option (List (SqlFile R)) → Db R → Result ℕ × Db R
  run_marts c staging l1 l2 l3 files db =
      flagged c staging l2 l3 (in_transaction l1 (run_files before [] files) db)
