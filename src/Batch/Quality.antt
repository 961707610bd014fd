-- ===== src/Batch/Quality.antt =====
-- What a run of the marts leaves when it returns.
use mathlib.Core.Path.{subst}
use weather_demand_forecast.Prelude.{
  ℕ, suc, ◌<◌, ◌≡◌, refl, sym, ap, ◌↔◌, inl, inr, String, Bool, true, false, ◌&&◌, List, [], ◌∷◌,
  ◌++◌, map, Option, some, length, count, ◌==◌, ==_iff, String_eq, ℕ_eq, if◌then◌else◌, All,
  All-map, Any, Bool-cases, arith,
}
use weather_demand_forecast.Json.{Result, Result-cases, ok, raise}
use weather_demand_forecast.Ingestor.Consumers.{is_empty}
use weather_demand_forecast.Batch.{
  MartRow, Db, SqlFile, Link, Calendars, holiday_flag, HolidayFlag, flag_of, set_flag, update_rows,
  apply_holidays, must_be_complete, Failure, flag_is_null, null_count, null_failure, null_failures,
  hard_failures, assert_quality, run_files, first_counter, check_marts, checked, flagged,
  flag_marts, run_marts,
}
use weather_demand_forecast.Batch.Transactions.{in_transaction-cases}

-- as many rows as staging has, at least one, and no NULL in a column that must be complete
abbrev pub IsSound : ℕ → List MartRow → Type 0
IsSound staging_rows mart =
    (0 < length mart)
    × (length mart ≡ staging_rows)
    × All (λ col. All (λ m. m.is_null col ≡ false) mart) must_be_complete
    × All (λ m. flag_is_null m ≡ false) mart

count_none :
    (p : MartRow → Bool) (mart : List MartRow) → (count p mart ≡ 0) ↔ All (λ m. p m ≡ false) mart
count_none p [] = (λ h. tt, λ h. refl)
count_none p (m ∷ mart) = ground (arith, count_none p mart)

is_empty-append :
    (xs ys : List Failure)
    → (is_empty (xs ++ ys) ≡ true) ↔ ((is_empty xs ≡ true) × (is_empty ys ≡ true))
is_empty-append [] ys = (λ h. (refl, h), λ h. h.1)
is_empty-append (x ∷ xs) ys = (λ h. cc, λ h. cc (h.0))

null_failure_iff : (col : String) (n : ℕ) → (is_empty (null_failure col n) ≡ true) ↔ (n ≡ 0)
unfolding null_failure
null_failure_iff col n = ground arith

null_failures_iff :
    (cols : List String) (mart : List MartRow)
    → (is_empty (null_failures cols mart) ≡ true) ↔ All (λ col. null_count col mart ≡ 0) cols
unfolding null_failures
null_failures_iff [] mart = (λ h. tt, λ h. refl)
null_failures_iff (col ∷ cols) mart =
    let split =
      is_empty-append (null_failure col (null_count col mart)) (null_failures cols mart) in
    let here = null_failure_iff col (null_count col mart) in
    let there = null_failures_iff cols mart in
    (λ h. (here.0 (split.0 h).0, there.0 (split.0 h).1), λ h. split.1 (here.1 h.0, there.1 h.1))

written_iff :
    (n : ℕ) → (is_empty (if n == 0 then Failure.nothing_written ∷ [] else []) ≡ true) ↔ (0 < n)
written_iff n = ground arith

matched_iff :
    (n staging_rows : ℕ)
    → (is_empty (if n == staging_rows then [] else Failure.row_count_mismatch n staging_rows ∷ [])
        ≡ true)
      ↔ (n ≡ staging_rows)
matched_iff n staging_rows = ground arith

hard_failures_iff :
    (staging_rows : ℕ) (mart : List MartRow)
    → (is_empty (hard_failures staging_rows mart) ≡ true) ↔ IsSound staging_rows mart
unfolding hard_failures
hard_failures_iff staging_rows mart =
    let flagged = null_failure "is_holiday" (count flag_is_null mart) in
    let complete = null_failures must_be_complete mart in
    let matched =
      if length mart == staging_rows
      then []
      else Failure.row_count_mismatch (length mart) staging_rows ∷ [] in
    let written = if length mart == 0 then Failure.nothing_written ∷ [] else [] in
    let outer = is_empty-append written (matched ++ (complete ++ flagged)) in
    let middle = is_empty-append matched (complete ++ flagged) in
    let inner = is_empty-append complete flagged in
    let nulls = null_failures_iff must_be_complete mart in
    let flags = null_failure_iff "is_holiday" (count flag_is_null mart) in
    (
      λ h.
          let (w, h2) = outer.0 h in
          let (m, h3) = middle.0 h2 in
          let (n, f) = inner.0 h3 in
          (
            (written_iff (length mart)).0 w,
            (matched_iff (length mart) staging_rows).0 m,
            All-map (λ col e. (count_none (λ r. r.is_null col) mart).0 e) must_be_complete
                (nulls.0 n),
            (count_none flag_is_null mart).0 (flags.0 f),
          ),
      λ h. outer.1 (
        (written_iff (length mart)).1 h.0,
        middle.1 (
          (matched_iff (length mart) staging_rows).1 h.1,
          inner.1 (
            nulls.1 (
                All-map (λ col e. (count_none (λ r. r.is_null col) mart).1 e) must_be_complete h.2),
            flags.1 ((count_none flag_is_null mart).1 h.3),
          ),
        ),
      ),
    )

-- The assertions pass exactly when there are as many rows as staging has, at least one, and no NULL in
-- a column that must be complete.
pub assert_quality_iff :
    (staging_rows : ℕ) (mart : List MartRow)
    → (assert_quality staging_rows mart ≡ ok tt) ↔ IsSound staging_rows mart
unfolding assert_quality
assert_quality_iff staging_rows mart =
    let sound = hard_failures_iff staging_rows mart in
    elim (Bool-cases (is_empty (hard_failures staging_rows mart))) [
      | inl e ↦ (λ h. sound.0 e, λ h. rw e refl)
      | inr e ↦ (λ h. cc (rw e at h), λ h. cc (e, sound.1 h))
    ]

-- every row has the flag of its city and day
abbrev pub IsFlagged : Calendars → List MartRow → Type 0
IsFlagged c mart = All (λ m. m.is_holiday ≡ some (holiday_flag c m.city m.hour_ts)) mart

set_flag-some :
    (hs : List HolidayFlag) (m : MartRow) (b : Bool)
    → flag_of m.city m.hour_ts hs ≡ some b
    → set_flag hs m ≡ record m { is_holiday = some b }
unfolding set_flag
set_flag-some hs m b e = rw (set_flag, e) refl

keys :
    (x m : MartRow)
    → (x.city == m.city && (x.hour_ts == m.hour_ts)) ≡ true
    → (x.city ≡ m.city) × (x.hour_ts ≡ m.hour_ts)
keys x m e = ground (arith, e, ==_iff x.city m.city, ==_iff x.hour_ts m.hour_ts)

different : (x m : MartRow) → (x.city == m.city && (x.hour_ts == m.hour_ts)) ≡ false → x ≡ m → ⊥
different x m e same = ground (
  arith,
  e,
  ==_iff x.city m.city,
  ==_iff x.hour_ts m.hour_ts,
  ap (λ r. r.city) same,
  ap (λ r. r.hour_ts) same,
)

module _ (c : Calendars) where
  flag_of-update_rows :
      (m : MartRow) (mart : List MartRow)
      → Any (λ x. x ≡ m) mart
      → flag_of m.city m.hour_ts (update_rows c mart) ≡ some (holiday_flag c m.city m.hour_ts)
  unfolding flag_of
  flag_of-update_rows m [] h = elim h [ ]
  flag_of-update_rows m (x ∷ mart) h =
      elim (Bool-cases (x.city == m.city && (x.hour_ts == m.hour_ts))) [
        | inl e ↦ rw e (cc ((keys x m e).0, (keys x m e).1))
        | inr e ↦ rw e (elim h [
          | inl same ↦ absurd (different x m e same)
          | inr more ↦ flag_of-update_rows m mart more
        ])
      ]

  set_flags-IsFlagged :
      (all mart : List MartRow)
      → All (λ m. Any (λ x. x ≡ m) all) mart
      → IsFlagged c (map (set_flag (update_rows c all)) mart)
  set_flags-IsFlagged all [] h = tt
  set_flags-IsFlagged all (m ∷ mart) h = (
    subst (λ r. r.is_holiday ≡ some (holiday_flag c r.city r.hour_ts))
        (sym (
          set_flag-some (update_rows c all) m (holiday_flag c m.city m.hour_ts)
            (flag_of-update_rows m all h.0)))
        refl,
    set_flags-IsFlagged all mart h.1,
  )

  members : (mart : List MartRow) → All (λ m. Any (λ x. x ≡ m) mart) mart
  members [] = tt
  members (m ∷ mart) = (inl refl, All-map (λ x h. inr h) mart (members mart))

  apply_holidays-IsFlagged :
      {R : Type 0} (executes : Bool) (db : Db R) {n : ℕ} {db2 : Db R}
      → apply_holidays c executes db ≡ ok (n, db2)
      → IsFlagged c db2.mart
  unfolding apply_holidays
  apply_holidays-IsFlagged false db h = cc
  apply_holidays-IsFlagged true db h =
      subst (λ r. elim r [ raise e ↦ Unit | ok done ↦ IsFlagged c done.1.mart ]) h
        (set_flags-IsFlagged db.mart db.mart (members db.mart))

  module _ {R : Type 0} (staging : R → ℕ) where
    -- of an outcome with rows: the mart is sound and flagged
    unfoldable pub IsGood : Result ℕ × Db R → Type 0
    IsGood done =
        (n : ℕ)
        → done.0 ≡ ok (suc n)
        → IsSound (staging done.1.others) done.1.mart × IsFlagged c done.1.mart

    check_marts-IsGood :
        (l : Link) (n : ℕ) (db : Db R) → IsFlagged c db.mart → IsGood (check_marts staging l n db)
    unfolding check_marts IsGood
    check_marts-IsGood l n db flagged = elim (Bool-cases (l.connects && l.executes)) [
      | inr e ↦ rw e (λ k h. cc)
      | inl e ↦ elim (Result-cases (assert_quality (staging db.others) db.mart)) [
        | inl (u, q) ↦ rw e (λ k h. ((assert_quality_iff (staging db.others) db.mart).0 q, flagged))
        | inr (x, q) ↦ rw (e, q) (λ k h. cc)
      ]
    ]

    flag_marts-IsGood :
        (l2 l3 : Link) (n : ℕ) (db : Db R) → IsGood (flag_marts c staging l2 l3 n db)
    unfolding flag_marts checked IsGood
    flag_marts-IsGood l2 l3 n db = elim (Bool-cases (n == 0)) [
      | inl e ↦ rw e (λ k h. cc)
      | inr e ↦ elim (in_transaction-cases l2 (apply_holidays c l2.executes) db) [
        | inl (x, q) ↦ rw (e, q) (λ k h. cc)
        | inr (m, db2, q, q2) ↦
            rw (e, q2) (check_marts-IsGood l3 n db2 (apply_holidays-IsFlagged l2.executes db q))
      ]
    ]

    -- When a run of the marts returns a number of rows above zero, the committed mart has as many rows as the
    -- committed staging has, at least one, no NULL in a column that must be complete, and on each row the holiday
    -- flag of its city and day; whatever the SQL files do and whichever statements fail before.
    pub run_marts-IsSound :
        (before : String → String → Bool) (l1 l2 l3 : Link) (files : Option (List (SqlFile R)))
        (db : Db R)
        → let done = run_marts before c staging l1 l2 l3 files db in
          (n : ℕ)
          → done.0 ≡ ok (suc n)
          → IsSound (staging done.1.others) done.1.mart × IsFlagged c done.1.mart
    unfolding run_marts flagged IsGood
    run_marts-IsSound before l1 l2 l3 files db =
        elim (in_transaction-cases l1 (run_files before [] files) db) [
          | inl (x, q) ↦ rw q (λ k h. cc)
          | inr (results, db2, q, q2) ↦
              rw q2 (flag_marts-IsGood l2 l3 (first_counter "rows_upserted" results) db2)
        ]
