-- ===== src/Ingestor/Consumers/Settled.antt =====
-- A message is settled when its event is in the raw table, or it is a dead letter, or the failure to
-- produce it as one was logged. What the writing part of a flush settles.
use weather_demand_forecast.Prelude.{
  ◌≡◌, refl, ◌⊎◌, inl, inr, Bool, List, [], ◌∷◌, ◌++◌, Option, Any, Any-append_left,
  Any-append_right, Any-map, Any-witness, ℕ, arith,
}
use weather_demand_forecast.Json.{Value, Exc, Result, ok, db_error, Result-cases, >>=-eq-ok}
use weather_demand_forecast.Ingestor.Db.{Buffered, Row, rows_of, insert_rows}
use weather_demand_forecast.Ingestor.Db.Unique.{
  Covers, insert_rows-grows, insert_rows-Covers, rows_of-Any,
}
use weather_demand_forecast.Ingestor.Envelope.{unwrap}
use weather_demand_forecast.Ingestor.Consumers.{
  Message, DeadLetter, Delivery, accepted, refused, buffer_full, Store, Topic, Insert, stored,
  failed, unconfirmed, Answers, send_to_dlq, send_all, insert_batch, write_batch, decode, letter,
}

Delivery-cases : (v : Delivery) → (v ≡ accepted) ⊎ (v ≡ refused) ⊎ (v ≡ buffer_full)
Delivery-cases accepted = inl refl
Delivery-cases refused = inr (inl refl)
Delivery-cases buffer_full = inr (inr refl)

Insert-cases : (v : Insert) → (v ≡ stored) ⊎ (v ≡ failed) ⊎ (v ≡ unconfirmed)
Insert-cases stored = inl refl
Insert-cases failed = inr (inl refl)
Insert-cases unconfirmed = inr (inr refl)

module _ (loads : Option (List ℕ) → Result Value) (same_id : Value → Value → Bool)
    (topic : Topic) where
  -- The row of the message, or a row that Postgres takes for the same event.
  abbrev pub IsStored : Message → Row → Type 0
  IsStored m t =
      (b : Buffered) × (r : Row) × (decode loads same_id topic m ≡ ok b)
      × (topic.row b ≡ ok r)
      × Covers same_id r t

  abbrev pub IsLetter : Message → DeadLetter → Type 0
  IsLetter m d = (d.key ≡ m.key) × (d.value ≡ m.value)

  abbrev pub Settled : Store → Message → Type 0
  Settled w m = Any (IsStored m) w.raw ⊎ Any (IsLetter m) w.dlq ⊎ Any (IsLetter m) w.dlq_failures

  -- The batch holds the decoded message.
  abbrev pub IsWaiting : List Buffered → Message → Type 0
  IsWaiting batch m = Any (λ b. decode loads same_id topic m ≡ ok b) batch

  abbrev pub Grows : Store → Store → Type 0
  Grows w w' = (m : Message) → Settled w m → Settled w' m

  Settled-letter :
      (w : Store) (d : DeadLetter) (m : Message)
      → Settled w m
      → Settled (record w { dlq = w.dlq ++ d ∷ [] }) m
  Settled-letter w d m (inl p) = inl p
  Settled-letter w d m (inr (inl p)) = inr (inl (Any-append_left (IsLetter m) w.dlq (d ∷ []) p))
  Settled-letter w d m (inr (inr p)) = inr (inr p)

  Settled-failure :
      (w : Store) (d : DeadLetter) (m : Message)
      → Settled w m
      → Settled (record w { dlq_failures = w.dlq_failures ++ d ∷ [] }) m
  Settled-failure w d m (inl p) = inl p
  Settled-failure w d m (inr (inl p)) = inr (inl p)
  Settled-failure w d m (inr (inr p)) =
      inr (inr (Any-append_left (IsLetter m) w.dlq_failures (d ∷ []) p))

  pub send_to_dlq-Grows :
      (deliver : DeadLetter → Delivery) (d : DeadLetter) (w : Store)
      → Grows w (send_to_dlq deliver d w).1
  unfolding send_to_dlq
  send_to_dlq-Grows deliver d w m s = elim (Delivery-cases (deliver d)) [
    | inl e ↦ rw (e, send_to_dlq) (Settled-letter w d m s)
    | inr (inl e) ↦ rw (e, send_to_dlq) (Settled-failure w d m s)
    | inr (inr e) ↦ rw (e, send_to_dlq) s
  ]

  first_or_rest : {P Q R : Type 0} → P ⊎ Q → (P → R) → (Q → R) → R
  first_or_rest (inl p) f g = f p
  first_or_rest (inr q) f g = g q

  -- A letter that was sent settles its message.
  pub send_to_dlq-settles :
      (deliver : DeadLetter → Delivery) (d : DeadLetter) (w : Store) (m : Message)
      → IsLetter m d
      → (send_to_dlq deliver d w).0 ≡ ok tt
      → Settled (send_to_dlq deliver d w).1 m
  unfolding send_to_dlq
  send_to_dlq-settles deliver d w m p h = elim (Delivery-cases (deliver d)) [
    | inl e ↦ rw (e, send_to_dlq) (inr (inl (Any-append_right (IsLetter m) w.dlq (d ∷ []) (inl p))))
    | inr (inl e) ↦
        rw (e, send_to_dlq)
          (inr (inr (Any-append_right (IsLetter m) w.dlq_failures (d ∷ []) (inl p))))
    | inr (inr e) ↦ absurd (ground (arith, e, h))
  ]

  send_all-Grows :
      (deliver : DeadLetter → Delivery) (items : List Buffered) (w : Store)
      → Grows w (send_all deliver items w).1
  unfolding send_all
  send_all-Grows deliver [] w m s = s
  send_all-Grows deliver (item ∷ items) w m s =
      let d = letter db_error item in
      let sent = send_to_dlq-Grows deliver d w m s in
      elim (Result-cases (send_to_dlq deliver d w).0) [
        | inl (u, e) ↦ rw (e, send_all) (send_all-Grows deliver items _ m sent)
        | inr (x, e) ↦ rw (e, send_all) sent
      ]

  IsLetter-waiting :
      (e : Exc) (b : Buffered) (m : Message)
      → decode loads same_id topic m ≡ ok b
      → IsLetter m (letter e b)
  unfolding decode
  IsLetter-waiting e b m h =
      let (t, _, h') = >>=-eq-ok (unwrap loads m.value) _ h in
      let (_, _, h'') = >>=-eq-ok (topic.validate t.0 t.2) _ h' in ground arith

  send_all-settles :
      (deliver : DeadLetter → Delivery) (items : List Buffered) (w : Store) (m : Message)
      → IsWaiting items m
      → (send_all deliver items w).0 ≡ ok tt
      → Settled (send_all deliver items w).1 m
  unfolding send_all
  send_all-settles deliver [] w m h r = elim h [ ]
  send_all-settles deliver (item ∷ items) w m h r =
      elim (Result-cases (send_to_dlq deliver (letter db_error item) w).0) [
        | inl (tt, e) ↦
            rw (e, send_all)
              (first_or_rest h
                (λ p.
                  send_all-Grows deliver items _ m
                    (send_to_dlq-settles deliver _ w m (IsLetter-waiting db_error item m p) e))
                (λ p. send_all-settles deliver items _ m p (rw (e, send_all) at r)))
        | inr (x, e) ↦ absurd (ground (arith, e, r))
      ]

  add_rows-Grows :
      (rows : List Row) (w : Store) → Grows w (record w { raw = insert_rows same_id rows w.raw })
  add_rows-Grows rows w m (inl p) = inl (insert_rows-grows same_id (IsStored m) rows w.raw p)
  add_rows-Grows rows w m (inr p) = inr p

  insert_batch-Grows :
      (a : Answers) (batch : List Buffered) (rows : List Row) (w : Store)
      → Grows w (insert_batch loads same_id topic a batch rows w).1
  unfolding insert_batch
  insert_batch-Grows a batch rows w m s = elim (Insert-cases a.insert) [
    | inl e ↦ rw (e, insert_batch) (add_rows-Grows rows w m s)
    | inr (inl e) ↦ rw (e, insert_batch) (send_all-Grows a.deliver batch w m s)
    | inr (inr e) ↦
        rw (e, insert_batch) (send_all-Grows a.deliver batch _ m (add_rows-Grows rows w m s))
  ]

  rows-IsStored :
      (batch : List Buffered) (rows : List Row) (w : Store) (m : Message)
      → rows_of topic.row batch ≡ ok rows
      → IsWaiting batch m
      → Any (IsStored m) (insert_rows same_id rows w.raw)
  rows-IsStored batch rows w m built h =
      let (b, dec, mem) = Any-witness (λ b. decode loads same_id topic m ≡ ok b) batch h in
      let (r, built_r, mem_r) = rows_of-Any topic.row b batch rows built mem in
      Any-map (λ t c. (b, r, dec, built_r, c)) (insert_rows same_id rows w.raw)
        (insert_rows-Covers same_id r rows w.raw mem_r)

  insert_batch-settles :
      (a : Answers) (batch : List Buffered) (rows : List Row) (w : Store) (m : Message)
      → rows_of topic.row batch ≡ ok rows
      → IsWaiting batch m
      → (insert_batch loads same_id topic a batch rows w).0 ≡ ok tt
      → Settled (insert_batch loads same_id topic a batch rows w).1 m
  unfolding insert_batch
  insert_batch-settles a batch rows w m built h r = elim (Insert-cases a.insert) [
    | inl e ↦ rw (e, insert_batch) (inl (rows-IsStored batch rows w m built h))
    | inr (inl e) ↦
        rw (e, insert_batch) (send_all-settles a.deliver batch w m h (rw (e, insert_batch) at r))
    | inr (inr e) ↦
        rw (e, insert_batch) (send_all-settles a.deliver batch _ m h (rw (e, insert_batch) at r))
  ]

  pub write_batch-Grows :
      (a : Answers) (batch : List Buffered) (w : Store)
      → Grows w (write_batch loads same_id topic a batch w).1
  unfolding write_batch
  write_batch-Grows a [] w m s = s
  write_batch-Grows a (x ∷ xs) w m s = elim (Result-cases (rows_of topic.row (x ∷ xs))) [
    | inl (rows, e) ↦ rw (e, write_batch) (insert_batch-Grows a (x ∷ xs) rows w m s)
    | inr (exc, e) ↦ rw (e, write_batch) s
  ]

  -- A batch that was written, to the table or as dead letters, settles each of its messages.
  pub write_batch-settles :
      (a : Answers) (batch : List Buffered) (w : Store) (m : Message)
      → IsWaiting batch m
      → (write_batch loads same_id topic a batch w).0 ≡ ok tt
      → Settled (write_batch loads same_id topic a batch w).1 m
  unfolding write_batch
  write_batch-settles a [] w m h r = elim h [ ]
  write_batch-settles a (x ∷ xs) w m h r = elim (Result-cases (rows_of topic.row (x ∷ xs))) [
    | inl (rows, e) ↦
        rw (e, write_batch)
          (insert_batch-settles a (x ∷ xs) rows w m e h (rw (e, write_batch) at r))
    | inr (exc, e) ↦ absurd (ground (arith, e, r))
  ]
