-- ===== src/Tools/Replay.antt =====
-- tools/replay.py: the offsets of a consumer group are set to a time. What the broker answers, and the calls of
-- datetime, are arguments; an offset below zero of `offsets_for_times` is `none`.
pub mod Offsets
mod Tests
use weather_demand_forecast.Prelude.{
  ℕ, String, Bool, true, false, List, [], ◌∷◌, map, Option, none, some, leb, ◌==◌, ℕ_eq, String_eq,
  if◌then◌else◌,
}
use weather_demand_forecast.Prelude.Dict.{Dict, get, update}
use weather_demand_forecast.Prelude.Texts.{Text}

-- datetime.fromisoformat and what is called on its result
pub record Datetimes : Type 1 where
  pub Datetime : Type 0
  pub fromisoformat : Text → Option Datetime
  pub is_naive : Datetime → Bool
  pub with_utc : Datetime → Datetime
  -- int(dt.timestamp() * 1000)
  pub timestamp_ms : Datetime → ℕ

-- the answer to `list_topics`
pub data Metadata : Type 0 where
  kafka_exception missing topic_error : Metadata
  partitions : List ℕ → Metadata

-- `none` is a KafkaException, and in a resolved offset one below zero
pub record Broker : Type 0 where
  pub list_topics : String → Metadata
  pub offsets_for_times : ℕ → List ℕ → Option (List (ℕ × Option ℕ))
  pub get_watermark_offsets : ℕ → Option (ℕ × ℕ)
  pub takes_commit : Bool

-- the offsets of the group on the topic, and the consumer
pub record State : Type 0 where
  pub committed : Dict ℕ ℕ
  pub consumer_open : Bool

-- the end of the process: by the end of `main`, or by sys.exit(1)
pub data Exit : Type 0 where
  returned exited : Exit

abbrev pub group_topics : Dict String String
group_topics =
    ("ingestor-demand", "demand.events.v1")
    ∷ ("ingestor-weather", "weather.readings.v1")
    ∷ ("worker-stream-demand", "demand.events.v1")
    ∷ ("worker-stream-weather", "weather.readings.v1")
    ∷ []

-- ts_str.rstrip("Z")
unfoldable pub rstrip_z : Text → Text
rstrip_z [] = []
rstrip_z (c ∷ s) =
    let rest = rstrip_z s in
    elim rest [ [] ↦ (if c == b'Z' then [] else c ∷ []) | d ∷ t ↦ c ∷ d ∷ t ]

module _ (py : Datetimes) where
  open py use {Datetime, fromisoformat, is_naive, with_utc, timestamp_ms}

  abbrev in_utc : Datetime → Datetime
  in_utc dt = if is_naive dt then with_utc dt else dt

  -- none for SystemExit
  unfoldable pub parse_timestamp_ms : Text → Option ℕ
  unfolding rstrip_z
  parse_timestamp_ms ts_str = elim (fromisoformat (rstrip_z ts_str)) [
    | none ↦ none
    | some dt ↦ some (timestamp_ms (in_utc dt))
  ]

-- topic, or the topic of a well-known group
unfoldable pub topic_of : String → Option String → Option String
unfolding get
topic_of group none = get group group_topics
topic_of group (some topic) = some topic

-- sorted(keys)
unfoldable pub insert : ℕ → List ℕ → List ℕ
insert a [] = a ∷ []
insert a (b ∷ bs) = let rest = insert a bs in if leb a b then a ∷ b ∷ bs else b ∷ rest

unfoldable pub sorted : List ℕ → List ℕ
unfolding insert
sorted [] = []
sorted (a ∷ as') = insert a (sorted as')

module _ (broker : Broker) where
  -- the offset of one partition: the one that was found, or the end
  unfoldable pub settle : ℕ → Option ℕ → Option ℕ
  settle partition (some offset) = some offset
  settle partition none = elim (broker.get_watermark_offsets partition) [
    | none ↦ none
    | some (low, high) ↦ some high
  ]

  pub cons_offset : ℕ → Option ℕ → Option (Dict ℕ ℕ) → Option (Dict ℕ ℕ)
  cons_offset partition none rest = none
  cons_offset partition (some offset) none = none
  cons_offset partition (some offset) (some final) = some ((partition, offset) ∷ final)

  -- the list `final`
  unfoldable pub final_of : List (ℕ × Option ℕ) → Option (Dict ℕ ℕ)
  unfolding settle cons_offset
  final_of [] = some []
  final_of ((partition, offset) ∷ resolved) =
      cons_offset partition (settle partition offset) (final_of resolved)

  -- assign(final) and commit(offsets=final)
  unfoldable pub commit : Option (Dict ℕ ℕ) → Dict ℕ ℕ → Exit × Dict ℕ ℕ
  unfolding update
  commit none committed = (exited, committed)
  commit (some final) committed =
      if broker.takes_commit then (returned, update final committed) else (exited, committed)

  unfoldable pub resolve : Option (List (ℕ × Option ℕ)) → Dict ℕ ℕ → Exit × Dict ℕ ℕ
  unfolding final_of commit
  resolve none committed = (exited, committed)
  resolve (some resolved) committed = commit (final_of resolved) committed

  -- the `try`
  unfoldable pub reset : ℕ → Metadata → Dict ℕ ℕ → Exit × Dict ℕ ℕ
  unfolding sorted resolve
  reset ts_ms kafka_exception committed = (exited, committed)
  reset ts_ms missing committed = (exited, committed)
  reset ts_ms topic_error committed = (exited, committed)
  reset ts_ms (partitions ids) committed =
      resolve (broker.offsets_for_times ts_ms (sorted ids)) committed

  -- once the arguments are known: the consumer is closed in any case
  unfoldable pub with_consumer : Option String → Option ℕ → State → Exit × State
  unfolding reset
  with_consumer none ts_ms s = (exited, s)
  with_consumer (some topic) none s = (exited, s)
  with_consumer (some topic) (some ts_ms) s =
      let done = reset ts_ms (broker.list_topics topic) s.committed in
      (done.0, record { committed = done.1; consumer_open = false })

  -- replay(group, timestamp, topic, servers)
  unfoldable pub replay : Datetimes → String → Text → Option String → State → Exit × State
  unfolding topic_of parse_timestamp_ms with_consumer
  replay py group timestamp topic s =
      with_consumer (topic_of group topic) (parse_timestamp_ms py timestamp) s
