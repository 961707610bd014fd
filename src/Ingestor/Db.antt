-- ===== src/Ingestor/Db.antt =====
-- services/ingestor/app/db.py: rows for the raw tables and the bulk insert. The unique constraint on
-- `event_id` is Postgres' own: `same_id` says which ids it takes for equal (no id equals a NULL).
pub mod Unique
use weather_demand_forecast.Prelude.{
  ℕ, String, Bool, true, false, List, [], ◌∷◌, ◌++◌, Option, if◌then◌else◌,
}
use weather_demand_forecast.Json.{Value, Result, ok, ◌>>=◌, subscript, get_field}

-- A validated, decoded Kafka message ready for batch insertion.
pub record Buffered : Type 0 where
  pub partition : ℕ
  pub offset : ℕ
  pub key : Option (List ℕ)
  pub raw_value : Option (List ℕ)
  pub schema_version : Value
  pub event_id : Value
  pub payload : Value

-- A row of a raw table: the columns from the payload, in the order of the INSERT, and the rest.
pub record Row : Type 0 where
  pub columns : List Value
  pub kafka_partition : ℕ
  pub kafka_offset : ℕ
  pub schema_version : Value
  pub event_id : Value

pub required : Value → List String → Result (List Value)
required payload [] = ok []
required payload (f ∷ fs) = do v ← subscript payload f; vs ← required payload fs; ok (v ∷ vs)

pub optional : Value → List String → Result (List Value)
optional payload [] = ok []
optional payload (f ∷ fs) = do v ← get_field payload f; vs ← optional payload fs; ok (v ∷ vs)

abbrev pub row_of : List String → List String → Buffered → Result Row
row_of must may item = do
  vs ← required item.payload must
  ws ← optional item.payload may
  ok (record {
    columns = vs ++ ws;
    kafka_partition = item.partition;
    kafka_offset = item.offset;
    schema_version = item.schema_version;
    event_id = item.event_id;
  })

unfoldable pub demand_row : Buffered → Result Row
unfolding required optional
demand_row =
    row_of ("city" ∷ "event_type" ∷ "sim_ts" ∷ "quantity" ∷ []) ("temperature_c" ∷ "condition" ∷ [])

unfoldable pub weather_row : Buffered → Result Row
unfolding required optional
weather_row = row_of ("city" ∷ "polled_at" ∷ []) (
    "temperature_c" ∷ "feels_like_c" ∷ "dew_point_c" ∷ "humidity_pct" ∷ "wind_kph"
    ∷ "wind_direction_deg" ∷ "cloud_cover_pct" ∷ "precip_probability_pct" ∷ "precip_mm"
    ∷ "condition" ∷ [])

-- [row(item) for item in items]
unfoldable pub rows_of : (Buffered → Result Row) → List Buffered → Result (List Row)
rows_of row [] = ok []
rows_of row (item ∷ items) = do r ← row item; rs ← rows_of row items; ok (r ∷ rs)

module _ (same_id : Value → Value → Bool) where
  unfoldable pub has_id : Value → List Row → Bool
  has_id i [] = false
  has_id i (r ∷ rs) = if same_id r.event_id i then true else has_id i rs

  -- INSERT … VALUES rows ON CONFLICT (event_id) DO NOTHING
  unfoldable pub insert_rows : List Row → List Row → List Row
  unfolding has_id
  insert_rows [] table = table
  insert_rows (r ∷ rs) table =
      insert_rows rs (if has_id r.event_id table then table else table ++ r ∷ [])
