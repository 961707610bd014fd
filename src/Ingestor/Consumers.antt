-- ===== src/Ingestor/Consumers.antt =====
-- The two consumer threads of services/ingestor/app/consumers.py. Their code is the same up to the
-- topic's validation and rows, so it is written once over a `Topic`. What the libraries answer comes
-- with each round of the loop: the message that `poll` returned, the clock, whether Postgres took the
-- batch, whether the broker took a dead letter or a commit. Logging is left out.
pub mod Settled
pub mod Flush
pub mod Loop
pub mod Handle
pub mod NoLoss
pub mod Batches
pub mod Unique
use weather_demand_forecast.Prelude.{
  ℕ, ◌+◌, ◌≡◌, refl, ◌⊎◌, inl, inr, Bool, true, false, ◌&&◌, ◌||◌, List, [], ◌∷◌, ◌++◌, Option,
  none, some, length, leb, ltb, ℕ_eq, if◌then◌else◌,
}
use weather_demand_forecast.Prelude.Dict.{Dict, get, put}
use weather_demand_forecast.Json.{
  Value, Exc, json_decode, key_error, validation_error, kafka_error, db_error, other, Result, ok,
  raise, ◌>>=◌, ◌>>◌, get_field,
}
use weather_demand_forecast.Ingestor.Db.{
  Buffered, Row, rows_of, insert_rows, demand_row, weather_row,
}
use weather_demand_forecast.Ingestor.Envelope.{unwrap, validate_demand, validate_weather}

abbrev pub batch_size : ℕ
batch_size = 500

-- in microseconds
abbrev pub batch_timeout : ℕ
batch_timeout = 2_000_000

pub record Message : Type 0 where
  pub partition : ℕ
  pub offset : ℕ
  pub key : Option (List ℕ)
  pub value : Option (List ℕ)

pub record DeadLetter : Type 0 where
  pub key : Option (List ℕ)
  pub value : Option (List ℕ)
  pub reason : Exc

-- The producer's answer to `produce`: a KafkaException is caught, a BufferError is not.
pub data Delivery : Type 0 where
  accepted refused buffer_full : Delivery

-- The outcome of `execute_values` and `conn.commit()`: `unconfirmed` is an error raised although the
-- transaction was committed.
pub data Insert : Type 0 where
  stored failed unconfirmed : Insert

-- What a flush meets.
pub record Answers : Type 0 where
  pub deliver : DeadLetter → Delivery
  pub insert : Insert
  pub commit_taken : Bool

pub data Poll : Type 0 where
  nothing poll_error : Poll
  message : Message → Poll

pub Poll-cases : (p : Poll) → ((p ≡ nothing) ⊎ (p ≡ poll_error)) ⊎ ((m : Message) × (p ≡ message m))
Poll-cases nothing = inl (inl refl)
Poll-cases poll_error = inl (inr refl)
Poll-cases (message m) = inr (m, refl)

-- One round of the loop.
pub record Tick : Type 0 where
  pub poll : Poll
  pub now : ℕ
  pub answers : Answers

-- Postgres, the dead-letter topic, and the counters. `dlq_failures` are the letters of which
-- `dlq_produce_failed` was logged.
pub record Store : Type 0 where
  pub raw : List Row
  pub dlq : List DeadLetter
  pub dlq_failures : List DeadLetter
  pub messages_consumed : ℕ
  pub validation_failed : ℕ
  pub messages_dlq : ℕ
  pub rows_written : ℕ

-- `delivered` are the messages that the broker has handed out, `committed` the group's offsets.
pub record State : Type 0 where
  pub store : Store
  pub delivered : List Message
  pub committed : Dict ℕ ℕ
  pub batch : List Buffered
  pub pending_offsets : Dict ℕ ℕ
  pub batch_started : ℕ
  pub consumer_open : Bool
  pub conn_open : Bool

pub record Topic : Type 0 where
  pub validate : Value → Value → Result (Unit {0})
  pub row : Buffered → Result Row

unfoldable pub send_to_dlq :
    (DeadLetter → Delivery) → DeadLetter → Store → Result (Unit {0}) × Store
send_to_dlq deliver d w = elim (deliver d) [
  | accepted ↦ (ok tt, record w { dlq = w.dlq ++ d ∷ [] })
  | refused ↦ (ok tt, record w { dlq_failures = w.dlq_failures ++ d ∷ [] })
  | buffer_full ↦ (raise other, w)
]

abbrev pub letter : Exc → Buffered → DeadLetter
letter e item = record { key = item.key; value = item.raw_value; reason = e }

abbrev count_dlq : Store → Store
count_dlq w = record w { messages_dlq = w.messages_dlq + 1 }

-- for item in batch: _send_to_dlq(…); messages_dlq_total.inc()
unfoldable pub send_all :
    (DeadLetter → Delivery) → List Buffered → Store → Result (Unit {0}) × Store
send_all deliver [] w = (ok tt, w)
send_all deliver (item ∷ items) w =
    let sent = send_to_dlq deliver (letter db_error item) w in
    let rest = send_all deliver items (count_dlq sent.1) in
    elim sent.0 [ ok u ↦ rest | raise e ↦ (raise e, sent.1) ]

unfoldable pub update_max_offset : ℕ → ℕ → Dict ℕ ℕ → Dict ℕ ℕ
update_max_offset partition offset offsets = elim (get partition offsets) [
  | none ↦ put partition offset offsets
  | some o ↦ if ltb o offset then put partition offset offsets else offsets
]

-- consumer.commit(offsets=[TopicPartition(topic, p, o + 1) …])
unfoldable pub commit_offsets : Dict ℕ ℕ → Dict ℕ ℕ → Dict ℕ ℕ
commit_offsets [] committed = committed
commit_offsets ((p, o) ∷ offsets) committed = commit_offsets offsets (put p (o + 1) committed)

abbrev pub is_empty {ℓ} : {A : Type ℓ} → List A → Bool
is_empty [] = true
is_empty (x ∷ xs) = false

module _ (loads : Option (List ℕ) → Result Value) (same_id : Value → Value → Bool)
    (topic : Topic) where
  abbrev add_rows : List Row → Store → Store
  add_rows rows w = record w { raw = insert_rows same_id rows w.raw }

  -- the `try` of the flush, when the rows could be built
  unfoldable pub insert_batch :
      Answers → List Buffered → List Row → Store → Result (Unit {0}) × Store
  insert_batch a batch rows w = elim a.insert [
    | stored ↦ (ok tt, record (add_rows rows w) { rows_written = w.rows_written + length batch })
    | failed ↦ send_all a.deliver batch w
    | unconfirmed ↦ send_all a.deliver batch (add_rows rows w)
  ]

  -- `if batch:`; what the building of the rows raises is no psycopg2.Error
  unfoldable pub write_batch : Answers → List Buffered → Store → Result (Unit {0}) × Store
  write_batch a batch w = if is_empty batch then (ok tt, w) else elim (rows_of topic.row batch) [
    | ok rows ↦ insert_batch a batch rows w
    | raise e ↦ (raise e, w)
  ]

  unfoldable pub flush_batch : Answers → State → Result (Unit {0}) × State
  flush_batch a s =
      let written = write_batch a s.batch s.store in
      let s' = record s { store = written.1 } in
      elim written.0 [
        | ok u ↦
            if a.commit_taken
            then (ok tt, record s' { committed = commit_offsets s.pending_offsets s.committed })
            else (raise kafka_error, s')
        | raise e ↦ (raise e, s')
      ]

  -- what the `try` of the loop computes from a message before it changes anything
  unfoldable pub decode : Message → Result Buffered
  decode m = do
    (schema_version, event_id, payload) ← unwrap loads m.value
    topic.validate schema_version payload
    ok (record {
      partition = m.partition;
      offset = m.offset;
      key = m.key;
      raw_value = m.value;
      schema_version = schema_version;
      event_id = event_id;
      payload = payload;
    })

  -- except (json.JSONDecodeError, KeyError, ValidationError)
  abbrev pub is_caught : Exc → Bool
  is_caught json_decode = true
  is_caught key_error = true
  is_caught validation_error = true
  is_caught _ = false

  unfoldable pub reject : Answers → Message → Exc → Store → Result (Unit {0}) × Store
  reject a m e w =
      if is_caught e
      then send_to_dlq a.deliver (record { key = m.key; value = m.value; reason = e })
          (record w {
            validation_failed = w.validation_failed + 1;
            messages_dlq = w.messages_dlq + 1;
          })
      else (raise e, w)

  -- batch.append(…); the debug line reads `payload.get("city")`, which only objects have
  unfoldable pub buffer : Buffered → State → Result (Unit {0}) × State
  buffer b s =
      let s' = record s {
        batch = s.batch ++ b ∷ [];
        store = record s.store { messages_consumed = s.store.messages_consumed + 1 };
      } in
      elim (get_field b.payload "city") [ ok v ↦ (ok tt, s') | raise e ↦ (raise e, s') ]

  abbrev note_offset : Message → State → State
  note_offset m s = record s {
    pending_offsets = update_max_offset m.partition m.offset s.pending_offsets;
  }

  unfoldable pub handle : Answers → Message → State → Result (Unit {0}) × State
  handle a m s = elim (decode m) [
    | ok b ↦
        let done = buffer b s in
        elim done.0 [ ok u ↦ (ok tt, note_offset m done.1) | raise e ↦ (raise e, done.1) ]
    | raise e ↦
        let sent = reject a m e s.store in
        let s' = record s { store = sent.1 } in
        elim sent.0 [ ok u ↦ (ok tt, note_offset m s') | raise x ↦ (raise x, s') ]
  ]

  unfoldable pub receive : Tick → State → Result (Unit {0}) × State
  receive t s = elim t.poll [
    | nothing ↦ (ok tt, s)
    | poll_error ↦ (ok tt, s)
    | message m ↦ handle t.answers m (record s { delivered = s.delivered ++ m ∷ [] })
  ]

  unfoldable pub is_due : Tick → State → Bool
  is_due t s =
      if is_empty s.pending_offsets
      then false
      else leb batch_size (length s.batch) || leb (s.batch_started + batch_timeout) t.now

  unfoldable pub flush_if_due : Tick → State → Result (Unit {0}) × State
  flush_if_due t s =
      let flushed = flush_batch t.answers s in
      let cleared = record flushed.1 { batch = []; pending_offsets = []; batch_started = t.now } in
      if is_due t s
      then (elim flushed.0 [ ok u ↦ (ok tt, cleared) | raise e ↦ (raise e, flushed.1) ])
      else (ok tt, s)

  -- one round of `while not stop_event.is_set()`
  unfoldable pub iterate : Tick → State → Result (Unit {0}) × State
  iterate t s =
      let received = receive t s in
      elim received.0 [ ok u ↦ flush_if_due t received.1 | raise e ↦ (raise e, received.1) ]

  -- the rounds until `stop_event` is set or an exception leaves the loop
  unfoldable pub rounds : List Tick → State → Result (Unit {0}) × State
  rounds [] s = (ok tt, s)
  rounds (t ∷ ts) s =
      let done = iterate t s in
      let rest = rounds ts done.1 in elim done.0 [ ok u ↦ rest | raise e ↦ (raise e, done.1) ]

  -- the `finally` block once the connection stands; its flush swallows every exception
  unfoldable pub shut_down : Answers → State → State
  shut_down a s =
      let flushed = if is_empty s.pending_offsets then s else (flush_batch a s).1 in
      record flushed { consumer_open = false; conn_open = false }

  -- The whole thread. Where `connect` raises an OperationalError, the `finally` block reads
  -- `pending_offsets` before it was assigned, and the UnboundLocalError leaves it at once. The clock
  -- at the start of the loop is the state's `batch_started`.
  unfoldable pub consumer_loop : Bool → List Tick → Answers → State → Result (Unit {0}) × State
  consumer_loop connected ticks last s =
      let opened = record s { consumer_open = true } in
      let ended =
        rounds ticks (record opened { conn_open = true; batch = []; pending_offsets = [] }) in
      if connected then (ended.0, shut_down last ended.1) else (raise other, opened)

abbrev pub demand_topic : Topic
demand_topic = record { validate = validate_demand; row = demand_row }

abbrev pub weather_topic : Topic
weather_topic = record { validate = validate_weather; row = weather_row }

module _ (loads : Option (List ℕ) → Result Value) (same_id : Value → Value → Bool) where
  unfoldable pub demand_consumer_loop :
      Bool → List Tick → Answers → State → Result (Unit {0}) × State
  demand_consumer_loop = consumer_loop loads same_id demand_topic

  unfoldable pub weather_consumer_loop :
      Bool → List Tick → Answers → State → Result (Unit {0}) × State
  weather_consumer_loop = consumer_loop loads same_id weather_topic
