-- ===== src/Batch/Pipeline.antt =====
-- services/worker/app/pipeline.py: the stages in order, their counters, and the first fit.
use weather_demand_forecast.Prelude.{
  ℕ, ◌+◌, ◌≡◌, refl, inl, inr, String, Bool, true, false, ◌&&◌, List, [], ◌∷◌, Option, none, some,
  Bool-cases, if◌then◌else◌,
}
use weather_demand_forecast.Json.{Result, ok, raise, Exc, db_error, other}
use weather_demand_forecast.Batch.{MartRow, Db, SqlFile, Link, Calendars, run_staging, run_marts}

-- What a run is given: its settings and files, and the answers of Postgres, S3 and scikit-learn. S3's answer
-- to head_object is an unexpected error, or says whether there is an artifact.
pub record Job (R A : Type 0) : Type 0 where
  pub before : String → String → Bool
  pub now : ℕ
  pub lookback_days : ℕ
  pub staging_files : Option (List (SqlFile R))
  pub marts_files : Option (List (SqlFile R))
  pub calendars : Calendars
  pub staging_count : R → ℕ
  pub staging_link : Link
  pub marts_link : Link
  pub holidays_link : Link
  pub quality_link : Link
  pub head_refused : Bool
  pub fit_link : Link
  pub fit_pipeline : List MartRow → Result A
  pub saves : Bool
  pub ended_at : ℕ

-- the database, the artifact in S3, and the counters of the metrics
pub record State (R A : Type 0) : Type 0 where
  pub db : Db R
  pub artifact : Option A
  pub staging_rows : ℕ
  pub rejects : ℕ
  pub marts_rows : ℕ
  pub successes : ℕ
  pub failures : ℕ
  pub last_run : Option ℕ

module _ {A : Type 0} where
  unfoldable pub save : Bool → Result A → Result (Unit {0}) × Option A
  save saves (raise e) = (raise e, none)
  save true (ok a) = (ok tt, some a)
  save false (ok a) = (raise other, none)

module _ {R A : Type 0} where
  unfoldable pub fit_on : Job R A → List MartRow → Result (Unit {0}) × Option A
  unfolding save
  fit_on job [] = (ok tt, none)
  fit_on job (m ∷ ms) = save job.saves (job.fit_pipeline (m ∷ ms))

  -- _maybe_fit_features_pipeline, on the artifact that there is
  unfoldable pub maybe_fit : Job R A → List MartRow → Option A → Result (Unit {0}) × Option A
  unfolding fit_on
  maybe_fit job mart artifact =
      if job.head_refused then (raise other, artifact) else (elim artifact [
        | some a ↦ (ok tt, some a)
        | none ↦
            if job.fit_link.connects && job.fit_link.executes
            then fit_on job mart
            else (raise db_error, none)
      ])

  -- the `except` clause
  abbrev pub failed : Exc → State R A → Result (Unit {0}) × State R A
  failed e s = (raise e, record s { failures = s.failures + 1 })

  unfoldable pub after_fit :
      Job R A → State R A → Result (Unit {0}) × Option A → Result (Unit {0}) × State R A
  after_fit job s (raise e, artifact) = failed e (record s { artifact = artifact })
  after_fit job s (ok u, artifact) = (
    ok tt,
    record s { artifact = artifact; successes = s.successes + 1; last_run = some job.ended_at },
  )

  unfoldable pub after_marts : Job R A → State R A → Result ℕ × Db R → Result (Unit {0}) × State R A
  after_marts job s (raise e, db) = failed e (record s { db = db })
  after_marts job s (ok n, db) =
      after_fit job (record s { db = db; marts_rows = s.marts_rows + n })
        (maybe_fit job db.mart s.artifact)

  unfoldable pub after_staging :
      Job R A → State R A → Result (ℕ × ℕ) × Db R → Result (Unit {0}) × State R A
  after_staging job s (raise e, db) = failed e (record s { db = db })
  after_staging job s (ok (written, rejected), db) =
      after_marts job
        (record s {
          db = db;
          staging_rows = s.staging_rows + written;
          rejects = s.rejects + rejected;
        })
        (run_marts job.before job.calendars job.staging_count job.marts_link job.holidays_link
          job.quality_link job.marts_files db)

  unfoldable pub run_pipeline : Job R A → State R A → Result (Unit {0}) × State R A
  run_pipeline job s =
      after_staging job s
        (run_staging job.before job.staging_link job.now job.lookback_days job.staging_files s.db)

  -- one more success, at its time, or one more failure
  abbrev pub IsCounted : Job R A → State R A → Result (Unit {0}) × State R A → Type 0
  IsCounted job s (ok u, t) =
      (t.successes ≡ s.successes + 1) × (t.failures ≡ s.failures) × (t.last_run ≡ some job.ended_at)
  IsCounted job s (raise e, t) =
      (t.successes ≡ s.successes) × (t.failures ≡ s.failures + 1) × (t.last_run ≡ s.last_run)

  -- the artifact that there was, or one fitted on the mart that the run leaves, or none
  abbrev pub IsKept : Job R A → List MartRow → Option A → Option A → Type 0
  IsKept job mart (some a) now = now ≡ some a
  IsKept job mart none none = Unit
  IsKept job mart none (some a) = job.fit_pipeline mart ≡ ok a

  save-IsKept :
      (job : Job R A) (mart : List MartRow) (saves : Bool) (r : Result A)
      → job.fit_pipeline mart ≡ r
      → IsKept job mart none (save saves r).1
  unfolding save
  save-IsKept job mart saves (raise e) h = tt
  save-IsKept job mart true (ok a) h = h
  save-IsKept job mart false (ok a) h = tt

  fit_on-IsKept : (job : Job R A) (mart : List MartRow) → IsKept job mart none (fit_on job mart).1
  unfolding fit_on
  fit_on-IsKept job [] = tt
  fit_on-IsKept job (m ∷ ms) = save-IsKept job (m ∷ ms) job.saves (job.fit_pipeline (m ∷ ms)) refl

  maybe_fit-IsKept :
      (job : Job R A) (mart : List MartRow) (artifact : Option A)
      → IsKept job mart artifact (maybe_fit job mart artifact).1
  unfolding maybe_fit
  maybe_fit-IsKept job mart (some a) = elim (Bool-cases job.head_refused) [
    | inl e ↦ rw e refl
    | inr e ↦ rw e refl
  ]
  maybe_fit-IsKept job mart none = elim (Bool-cases job.head_refused) [
    | inl e ↦ rw e tt
    | inr e ↦ elim (Bool-cases (job.fit_link.connects && job.fit_link.executes)) [
      | inl f ↦ rw (e, f) (fit_on-IsKept job mart)
      | inr f ↦ rw (e, f) tt
    ]
  ]

  -- what is promised of a run from `s`
  IsGood : Job R A → State R A → Result (Unit {0}) × State R A → Type 0
  IsGood job s out = IsCounted job s out × IsKept job out.1.db.mart s.artifact out.1.artifact

  same_artifact :
      (job : Job R A) (mart : List MartRow) (artifact : Option A)
      → IsKept job mart artifact artifact
  same_artifact job mart none = tt
  same_artifact job mart (some a) = refl

  after_fit-IsGood :
      (job : Job R A) (s : State R A) (out : Result (Unit {0}) × Option A)
      → IsKept job s.db.mart s.artifact out.1
      → IsGood job s (after_fit job s out)
  unfolding after_fit IsGood
  after_fit-IsGood job s (raise e, artifact) h = ((refl, refl, refl), h)
  after_fit-IsGood job s (ok u, artifact) h = ((refl, refl, refl), h)

  after_marts-IsGood :
      (job : Job R A) (s : State R A) (out : Result ℕ × Db R) → IsGood job s (after_marts job s out)
  unfolding after_marts IsGood
  after_marts-IsGood job s (raise e, db) =
      ((refl, refl, refl), same_artifact job db.mart s.artifact)
  after_marts-IsGood job s (ok n, db) =
      after_fit-IsGood job (record s { db = db; marts_rows = s.marts_rows + n })
        (maybe_fit job db.mart s.artifact) (maybe_fit-IsKept job db.mart s.artifact)

  after_staging-IsGood :
      (job : Job R A) (s : State R A) (out : Result (ℕ × ℕ) × Db R)
      → IsGood job s (after_staging job s out)
  unfolding after_staging IsGood
  after_staging-IsGood job s (raise e, db) =
      ((refl, refl, refl), same_artifact job db.mart s.artifact)
  after_staging-IsGood job s (ok (written, rejected), db) =
      after_marts-IsGood job
        (record s {
          db = db;
          staging_rows = s.staging_rows + written;
          rejects = s.rejects + rejected;
        })
        _

  -- Each run of the pipeline, whichever stage fails, counts as one success, with its time, when it returns, and
  -- as one failure when it raises, with the other count and, in that case, the time as before; and an artifact
  -- that there was is never replaced, while a new one was fitted on the mart that the run leaves.
  pub run_pipeline_lem :
      (job : Job R A) (s : State R A)
      → let out = run_pipeline job s in
        IsCounted job s out × IsKept job out.1.db.mart s.artifact out.1.artifact
  unfolding run_pipeline IsGood
  run_pipeline_lem job s =
      after_staging-IsGood job s
        (run_staging job.before job.staging_link job.now job.lookback_days job.staging_files s.db)
