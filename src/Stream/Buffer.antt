-- ===== src/Stream/Buffer.antt =====
-- services/worker/app/stream_features/parquet_buffer.py. What becomes of the upload of a partition is the argument
-- `answer`: only a ClientError is caught, and any other exception leaves the flush. The lake is the table's objects
-- in the bucket: one that is put under the key of another takes its place.
pub mod Kept
mod Parts
pub mod Returns
use text.Mathlib.Text.{starts_with}
use weather_demand_forecast.Prelude.{
  ℕ, String, Bool, true, false, not, ◌&&◌, List, [], ◌∷◌, ◌++◌, map, filter, ◌==◌, String_eq, ℕ_eq,
  if◌then◌else◌,
}
use weather_demand_forecast.Prelude.Dict.{Dict}
use weather_demand_forecast.Json.{Value, Exc, Result, ok, raise}

-- The routing keys `_dt` and `_hour` of a buffered event, and its other fields.
pub record Record : Type 0 where
  pub dt : String
  pub hour : ℕ
  pub fields : Dict String Value

-- One partition of a flush: its key and its records, in the order of arrival.
pub record Part : Type 0 where
  pub dt : String
  pub hour : ℕ
  pub records : List Record

-- stream/{table}/dt={dt}/hour={hour}/part_{epoch_ms}.parquet
pub record Object : Type 0 where
  pub dt : String
  pub hour : ℕ
  pub epoch_ms : ℕ
  pub rows : List (Dict String Value)

-- What _upload_partition does: it puts the object, catches a ClientError and returns False, or is left by another
-- exception, of the serialisation or of the call, with nothing put.
pub data Upload : Type 0 where
  taken : Upload
  refused : Upload
  fails : Exc → Upload

pub record ParquetBuffer : Type 0 where
  pub pending : List Record
  pub lake : List Object

unfoldable pub append : Record → ParquetBuffer → ParquetBuffer
append r b = record b { pending = b.pending ++ r ∷ [] }

-- parts.setdefault((record["_dt"], record["_hour"]), []).append(record)
unfoldable pub add_to : Record → List Part → List Part
add_to r [] = record { dt = r.dt; hour = r.hour; records = r ∷ [] } ∷ []
add_to r (p ∷ ps) =
    if p.dt == r.dt && p.hour == r.hour
    then record p { records = p.records ++ r ∷ [] } ∷ ps
    else p ∷ add_to r ps

unfoldable pub partition : List Record → List Part → List Part
partition [] parts = parts
partition (r ∷ rs) parts = partition rs (add_to r parts)

-- {k: v for k, v in r.items() if not k.startswith("_")}
unfoldable pub strip : Record → Dict String Value
strip r = filter (λ e. not (starts_with e.0 "_")) r.fields

-- the same partition, and in it the same part_{epoch_ms}
abbrev pub same_key : Object → Object → Bool
same_key o x = (o.dt == x.dt && o.hour == x.hour) && o.epoch_ms == x.epoch_ms

unfoldable pub put_object : Object → List Object → List Object
put_object o lake = filter (λ x. not (same_key o x)) lake ++ o ∷ []

abbrev pub object_of : ℕ → Part → Object
object_of epoch_ms p = record {
  dt = p.dt;
  hour = p.hour;
  epoch_ms = epoch_ms;
  rows = map strip p.records;
}

-- the loop over the parts: `failed` or the exception that ends it, and the lake
unfoldable pub upload_all :
    (Part → Upload) → ℕ → List Part → List Record → List Object → Result (List Record) × List Object
unfolding put_object strip
upload_all answer epoch_ms [] failed lake = (ok failed, lake)
upload_all answer epoch_ms (p ∷ ps) failed lake = elim (answer p) [
  | taken ↦ upload_all answer epoch_ms ps failed (put_object (object_of epoch_ms p) lake)
  | refused ↦ upload_all answer epoch_ms ps (failed ++ p.records) lake
  | fails e ↦ (raise e, lake)
]

-- the end of a flush: `_pending` was emptied at its start, so an exception leaves there what arrived since
unfoldable pub restore :
    List Record → Result (List Record) × List Object → Result (Unit {0}) × ParquetBuffer
restore arrived (ok failed, lake) = (ok tt, record { pending = failed ++ arrived; lake = lake })
restore arrived (raise e, lake) = (raise e, record { pending = arrived; lake = lake })

-- `arrived` are the records that another thread appends while the uploads run
unfoldable pub flush :
    (Part → Upload) → ℕ → List Record → ParquetBuffer → Result (Unit {0}) × ParquetBuffer
unfolding partition upload_all restore
flush answer epoch_ms arrived b =
    restore arrived (upload_all answer epoch_ms (partition b.pending []) [] b.lake)
