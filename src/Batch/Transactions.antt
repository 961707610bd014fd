-- ===== src/Batch/Transactions.antt =====
-- What a transaction of the batch leaves, whatever fails in it.
use weather_demand_forecast.Prelude.{
  ℕ, ◌≡◌, refl, ◌⊎◌, inl, inr, String, Bool, List, [], ◌∷◌, Option, some, Bool-cases,
}
use weather_demand_forecast.Json.{Result, Result-cases, ok, raise, Exc, db_error}
use weather_demand_forecast.Batch.{
  Db, SqlFile, Counters, Params, Link, or_no_counters, sort, execute_files, run_files,
  in_transaction, total, totals, window, run_staging,
}

module _ {R : Type 0} where
  -- Either the transaction raises and the database is as before, or the body's is committed.
  pub in_transaction-cases {ℓ} :
      {A : Type ℓ} (l : Link) (body : Db R → Result (A × Db R)) (db : Db R)
      → ((e : Exc) × (in_transaction l body db ≡ (raise e, db)))
        ⊎ ((a : A) × (db2 : Db R) × (body db ≡ ok (a, db2))
            × (in_transaction l body db ≡ (ok a, db2)))
  unfolding in_transaction
  in_transaction-cases l body db = elim (Bool-cases l.connects) [
    | inr off ↦ inl (db_error, rw off refl)
    | inl on ↦ elim (Result-cases (body db)) [
      | inr (e, q) ↦ inl (e, rw (on, q) refl)
      | inl ((a, db2), q) ↦ elim (Bool-cases l.commits) [
        | inl kept ↦ inr (a, db2, q, rw (on, q, kept) refl)
        | inr refused ↦ inl (db_error, rw (on, q, refused) refl)
      ]
    ]
  ]

  -- the files one after the other, each on what the one before left
  pub data Executes (params : Params)
      : List (SqlFile R) → Db R → List (String × Counters) → Db R → Type 0 where
    done : (db : Db R) → Executes params [] db [] db
    then_file :
        (f : SqlFile R) (fs : List (SqlFile R)) (db db2 db3 : Db R) (row : Option Counters)
        (rows : List (String × Counters))
        → f.execute params db ≡ ok (row, db2)
        → Executes params fs db2 rows db3
        → Executes params (f ∷ fs) db ((f.name, or_no_counters row) ∷ rows) db3

  -- when the files have run
  abbrev IfRan :
      Params → List (SqlFile R) → Db R → Result (List (String × Counters) × Db R) → Type 0
  IfRan params fs db (raise e) = Unit
  IfRan params fs db (ok ran) = Executes params fs db ran.0 ran.1

  execute_files-Executes :
      (params : Params) (fs : List (SqlFile R)) (db : Db R)
      → IfRan params fs db (execute_files params fs db)
  unfolding execute_files
  execute_files-Executes params [] db = done db
  execute_files-Executes params (f ∷ fs) db = elim (Result-cases (f.execute params db)) [
    | inr (e, q) ↦ rw q tt
    | inl ((row, db2), q) ↦ elim (Result-cases (execute_files params fs db2)) [
      | inr (e, q2) ↦ rw (q, q2) tt
      | inl ((rows, db3), q2) ↦
          rw (q, q2)
            (then_file f fs db db2 db3 row rows q (rw q2 at (execute_files-Executes params fs db2)))
    ]
  ]

  -- A run of the staging either raises and leaves the database as it was, or executes every file of the
  -- directory, in the order of the names, each on what the one before left, commits what the last one left,
  -- and returns the sums of their counters.
  pub run_staging-Executes :
      (before : String → String → Bool) (l : Link) (now lookback_days : ℕ)
      (files : List (SqlFile R)) (db : Db R)
      → let out = run_staging before l now lookback_days (some files) db in
        ((e : Exc) × (out ≡ (raise e, db)))
        ⊎ ((rows : List (String × Counters)) × (db2 : Db R) × Executes
              (window now lookback_days)
              (sort before files)
              db
              rows
              db2
            × (out ≡ (ok (total "staging_written" rows, total "rejects_written" rows), db2)))
  unfolding run_staging run_files totals
  run_staging-Executes before l now lookback_days files db =
      let params = window now lookback_days in
      elim (in_transaction-cases l (run_files before params (some files)) db) [
        | inl (e, q) ↦ inl (e, rw q refl)
        | inr (rows, db2, q, q2) ↦
            inr (
              rows,
              db2,
              rw q at (execute_files-Executes params (sort before files) db),
              rw q2 refl,
            )
      ]
