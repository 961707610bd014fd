-- ===== src/Ingestor/Consumers/Unique.antt =====
-- The raw table keeps its unique constraint through everything that the thread does.
use weather_demand_forecast.Prelude.{
  ℕ, ◌+◌, ◌≡◌, refl, ◌⊎◌, inl, inr, Bool, true, false, List, [], ◌∷◌, ◌++◌, Option, arith,
  Bool-cases,
}
use weather_demand_forecast.Json.{Value, Exc, Result, db_error, Result-cases}
use weather_demand_forecast.Ingestor.Db.{Buffered, Row, rows_of}
use weather_demand_forecast.Ingestor.Db.Unique.{IsUnique, insert_rows-IsUnique}
use weather_demand_forecast.Ingestor.Consumers.{
  DeadLetter, Delivery, Tick, Answers, State, Store, Topic, Message, send_to_dlq, send_all, letter,
  insert_batch, write_batch, flush_batch, reject, buffer, handle, receive, flush_if_due, iterate,
  rounds, shut_down, consumer_loop, Insert, stored, failed, unconfirmed, Poll-cases, is_empty,
  decode,
}

Insert-cases : (v : Insert) → (v ≡ stored) ⊎ (v ≡ failed) ⊎ (v ≡ unconfirmed)
Insert-cases stored = inl refl
Insert-cases failed = inr (inl refl)
Insert-cases unconfirmed = inr (inr refl)

raw-send_to_dlq :
    (deliver : DeadLetter → Delivery) (d : DeadLetter) (w : Store)
    → (send_to_dlq deliver d w).1.raw ≡ w.raw
unfolding send_to_dlq
raw-send_to_dlq deliver d w = ground arith

raw-send_all :
    (deliver : DeadLetter → Delivery) (items : List Buffered) (w : Store)
    → (send_all deliver items w).1.raw ≡ w.raw
unfolding send_all
raw-send_all deliver [] w = refl
raw-send_all deliver (b ∷ bs) w =
    let sent = send_to_dlq deliver (letter db_error b) w in
    let w' = record sent.1 { messages_dlq = sent.1.messages_dlq + 1 } in
    ground (arith, raw-send_to_dlq deliver (letter db_error b) w, raw-send_all deliver bs w')

module _ (loads : Option (List ℕ) → Result Value) (same_id : Value → Value → Bool)
    (topic : Topic) where
  abbrev Keeps : {A : Type 0} → (Store → A × Store) → Type 0
  Keeps f = (w : Store) → IsUnique same_id w.raw → IsUnique same_id (f w).1.raw

  insert_batch-IsUnique :
      (a : Answers) (batch : List Buffered) (rows : List Row)
      → Keeps (insert_batch loads same_id topic a batch rows)
  unfolding insert_batch
  insert_batch-IsUnique a batch rows w u = elim (Insert-cases a.insert) [
    | inl e ↦ rw (e, insert_batch) (insert_rows-IsUnique same_id rows w.raw u)
    | inr (inl e) ↦ rw (e, insert_batch) (rw (raw-send_all a.deliver batch w) u)
    | inr (inr e) ↦
        rw (e, insert_batch) (rw raw-send_all (insert_rows-IsUnique same_id rows w.raw u))
  ]

  write_batch-IsUnique :
      (a : Answers) (batch : List Buffered) → Keeps (write_batch loads same_id topic a batch)
  unfolding write_batch
  write_batch-IsUnique a [] w u = u
  write_batch-IsUnique a (x ∷ xs) w u = elim (Result-cases (rows_of topic.row (x ∷ xs))) [
    | inl (rows, e) ↦ rw (e, write_batch) (insert_batch-IsUnique a (x ∷ xs) rows w u)
    | inr (exc, e) ↦ rw (e, write_batch) u
  ]

  raw-reject :
      (a : Answers) (m : Message) (e : Exc) (w : Store)
      → (reject loads same_id topic a m e w).1.raw ≡ w.raw
  unfolding reject send_to_dlq
  raw-reject a m e w = ground arith

  raw-handle :
      (a : Answers) (m : Message) (s : State)
      → (handle loads same_id topic a m s).1.store.raw ≡ s.store.raw
  unfolding handle buffer
  raw-handle a m s = elim (Result-cases (decode loads same_id topic m)) [
    | inl (b, d) ↦ rw (d, handle) (ground arith)
    | inr (x, d) ↦ rw (d, handle) (ground (arith, raw-reject a m x s.store))
  ]

  raw-receive : (t : Tick) (s : State) → (receive loads same_id topic t s).1.store.raw ≡ s.store.raw
  unfolding receive
  raw-receive t s = elim (Poll-cases t.poll) [
    | inl (inl e) ↦ rw (e, receive)
    | inl (inr e) ↦ rw (e, receive)
    | inr (m, e) ↦
        rw (e, receive) (raw-handle t.answers m (record s { delivered = s.delivered ++ m ∷ [] }))
  ]

  raw-flush_batch :
      (a : Answers) (s : State)
      → (flush_batch loads same_id topic a s).1.store.raw
        ≡ (write_batch loads same_id topic a s.batch s.store).1.raw
  unfolding flush_batch
  raw-flush_batch a s = ground arith

  abbrev Holds : State → Type 0
  Holds s = IsUnique same_id s.store.raw

  flush_batch-IsUnique :
      (a : Answers) (s : State) → Holds s → Holds (flush_batch loads same_id topic a s).1
  flush_batch-IsUnique a s u = rw raw-flush_batch (write_batch-IsUnique a s.batch s.store u)

  raw-flush_if_due :
      (t : Tick) (s : State)
      → let raw = (flush_if_due loads same_id topic t s).1.store.raw in
        (raw ≡ s.store.raw) ⊎ (raw ≡ (flush_batch loads same_id topic t.answers s).1.store.raw)
  unfolding flush_if_due
  raw-flush_if_due t s = ground arith

  flush_if_due-IsUnique :
      (t : Tick) (s : State) → Holds s → Holds (flush_if_due loads same_id topic t s).1
  flush_if_due-IsUnique t s u = elim (raw-flush_if_due t s) [
    | inl e ↦ rw e u
    | inr e ↦ rw e (flush_batch-IsUnique t.answers s u)
  ]

  iterate-IsUnique : (t : Tick) (s : State) → Holds s → Holds (iterate loads same_id topic t s).1
  unfolding iterate
  iterate-IsUnique t s u =
      let u' : Holds (receive loads same_id topic t s).1 = rw raw-receive u in
      elim (Result-cases (receive loads same_id topic t s).0) [
        | inl (tt, e) ↦ rw (e, iterate) (flush_if_due-IsUnique t _ u')
        | inr (x, e) ↦ rw (e, iterate) u'
      ]

  rounds-IsUnique :
      (ticks : List Tick) (s : State) → Holds s → Holds (rounds loads same_id topic ticks s).1
  unfolding rounds
  rounds-IsUnique [] s u = u
  rounds-IsUnique (t ∷ ts) s u =
      let u' = iterate-IsUnique t s u in
      elim (Result-cases (iterate loads same_id topic t s).0) [
        | inl (tt, e) ↦ rw (e, rounds) (rounds-IsUnique ts (iterate loads same_id topic t s).1 u')
        | inr (x, e) ↦ rw (e, rounds) u'
      ]

  -- If no two rows of the raw table have ids that Postgres takes for equal when the thread starts,
  -- no two have when it has ended, however often messages are delivered again.
  pub consumer_loop-IsUnique :
      (connected : Bool) (ticks : List Tick) (last : Answers) (s : State)
      → IsUnique same_id s.store.raw
      → IsUnique same_id (consumer_loop loads same_id topic connected ticks last s).1.store.raw
  unfolding consumer_loop shut_down
  consumer_loop-IsUnique false ticks last s u = u
  consumer_loop-IsUnique true ticks last s u =
      let started = record s {
        consumer_open = true;
        conn_open = true;
        batch = [];
        pending_offsets = [];
      } in
      let ended = (rounds loads same_id topic ticks started).1 in
      let u' = rounds-IsUnique ticks started u in
      elim (Bool-cases (is_empty ended.pending_offsets)) [
        | inl e ↦ rw e u'
        | inr e ↦ rw e (flush_batch-IsUnique last ended u')
      ]
