-- ===== src/Tools/Tests.antt =====
-- A backfill of two days, and a replay of two partitions.
use mathlib.Core.Path.{subst}
use weather_demand_forecast.Prelude.{
  ℕ, ◌≡◌, refl, sym, inl, inr, Any, Bool-cases, none, String, Bool, true, false, List, [], ◌∷◌,
  some, ◌==◌, ℕ_eq, String_eq, if◌then◌else◌, arith,
}
use weather_demand_forecast.Prelude.Dict.{Dict}
use weather_demand_forecast.Prelude.Texts.{Text, Text_eq, same_text, codes}
use weather_demand_forecast.Json.{Value, null, str, ok}
use weather_demand_forecast.Ingestor.Db.{Row, insert_rows}
use weather_demand_forecast.Ingestor.Consumers.{stored, is_empty}
use weather_demand_forecast.Ingestor.Hourly.Keys.{s3_key}
use weather_demand_forecast.Tools.Backfill.{
  Environment, Partition, Run, Download, absent, read, backfill, download_parquet, key_of,
  visit_all, visit, insert_partition, commit, rows_of, date_range, partitions, to_row, table_cols,
}
use weather_demand_forecast.Tools.Backfill.Restored.{Held, backfill-Held}
use weather_demand_forecast.Tools.Backfill.Again.{HasId, HaveIds, backfill-again}

abbrev demand : Text
demand = codes "demand_events"

abbrev date_of : ℕ → Text
date_of d = if d == 5 then codes "2026-09-05" else codes "2026-09-06"

abbrev frame : List (Dict String Value)
frame = (("city", str "oslo") ∷ ("event_id", str "a") ∷ []) ∷ []

abbrev lake : Text → Download
lake key = if key == s3_key demand (date_of 5) 3 then read frame else absent

abbrev same_id : Value → Value → Bool
same_id (str s) (str t) = s == t
same_id v w = false

-- the last value of a tuple is its event_id
abbrev last : List Value → Value
last [] = null
last (v ∷ vs) = if is_empty vs then v else last vs

abbrev row : List Value → Row
row vs = record {
  columns = vs;
  kafka_partition = 0;
  kafka_offset = 0;
  schema_version = null;
  event_id = last vs;
}

abbrev env : Environment
env = record {
  lake = lake;
  isoformat = date_of;
  is_nan = λ bits. false;
  store = λ t vs. some (row vs);
  same_id = same_id;
}

abbrev empty : Run
empty = record { raw = λ t. []; total_rows = 0; total_files = 0; conn_open = false }

abbrev partition : Partition
partition = record { day = 5; table = demand; hour = 3 }

first_run : (backfill env false true (λ p. stored) 5 6 (demand ∷ []) empty).0 ≡ ok tt
unfolding backfill visit_all visit download_parquet insert_partition commit rows_of date_range
    partitions insert_rows same_text s3_key
first_run = refl

second_run :
    (backfill env false true
      (λ p. stored)
      5
      6
      (demand ∷ [])
      (backfill env false true (λ p. stored) 5 6 (demand ∷ []) empty).1).0
    ≡ ok tt
unfolding backfill visit_all visit download_parquet insert_partition commit rows_of date_range
    partitions insert_rows same_text s3_key
second_run = refl

downloaded : download_parquet env (key_of env partition) ≡ some frame
unfolding download_parquet same_text s3_key
downloaded = refl

backfill-Held_example :
    Held env demand
      (("city", str "oslo") ∷ ("event_id", str "a") ∷ [])
      (backfill env false true (λ p. stored) 5 6 (demand ∷ []) empty).1.raw
backfill-Held_example =
    backfill-Held env true (λ p. stored) 5 6 (demand ∷ []) empty partition
      (("city", str "oslo") ∷ ("event_id", str "a") ∷ []) frame first_run (omega arith)
      (omega arith) (inl refl) (omega arith) downloaded (inl refl)

abbrev frame_row : Dict String Value
frame_row = ("city", str "oslo") ∷ ("event_id", str "a") ∷ []

row_id : (t : Text) → (row (to_row env (table_cols t) frame_row)).event_id ≡ str "a"
unfolding to_row table_cols
row_id t = elim (Bool-cases (t == codes "demand_events")) [ inl e ↦ rw e refl | inr e ↦ rw e refl ]

frame_ids : (t : Text) → HasId env t frame_row
frame_ids t x e =
    let is_row : row (to_row env (table_cols t) frame_row) ≡ x = cc e in
    subst (λ (y : Row). same_id y.event_id y.event_id ≡ true) is_row
      (subst (λ v. same_id v v ≡ true) (sym (row_id t)) refl)

frame_rows : (r : Dict String Value) → Any (λ d. d ≡ r) frame → r ≡ frame_row
frame_rows r (inl e) = sym e
frame_rows r (inr h) = elim h [ ]

only_frame :
    (key : Text) (df : List (Dict String Value)) → download_parquet env key ≡ some df → df ≡ frame
unfolding download_parquet
only_frame key df found = elim (Bool-cases (key == s3_key demand (date_of 5) 3)) [
  | inl k ↦ let read_it : some frame ≡ some df = rw (k, download_parquet) at found in cc read_it
  | inr k ↦ let nothing : none ≡ some df = rw (k, download_parquet) at found in cc nothing
]

lake_ids : HaveIds env (partitions (date_range 5 6) (demand ∷ []))
lake_ids p df r among found mem =
    let listed : Any (λ d. d ≡ r) frame =
      subst (Any (λ d. d ≡ r)) (only_frame (key_of env p) df found) mem in
    subst (HasId env p.table) (sym (frame_rows r listed)) (frame_ids p.table)

backfill-again_example :
    ((backfill env false true
        (λ p. stored)
        5
        6
        (demand ∷ [])
        (backfill env false true (λ p. stored) 5 6 (demand ∷ []) empty).1).1.raw
      ≡ (backfill env false true (λ p. stored) 5 6 (demand ∷ []) empty).1.raw)
    × ((backfill env false true
          (λ p. stored)
          5
          6
          (demand ∷ [])
          (backfill env false true (λ p. stored) 5 6 (demand ∷ []) empty).1).1.total_rows
        ≡ 0)
backfill-again_example =
    backfill-again env true true (λ p. stored) (λ p. stored) 5 6 (demand ∷ []) empty lake_ids
      first_run second_run
