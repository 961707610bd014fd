-- ===== src/Ingestor/Consumers/Batches.antt =====
-- The size of the batch.
use weather_demand_forecast.Prelude.{
  ℕ, ◌<◌, ◌≡◌, refl, inl, inr, Bool, true, false, List, [], ◌∷◌, Option, arith, length, Bool-cases,
  ℕ_eq,
}
use weather_demand_forecast.Prelude.Dict.{Dict, get, put}
use weather_demand_forecast.Json.{Value, Result, ok, Result-cases}
use weather_demand_forecast.Ingestor.Consumers.{
  Poll-cases, Message, Tick, Answers, State, Topic, is_empty, batch_size, update_max_offset, decode,
  buffer, handle, receive, is_due, flush_if_due, iterate, rounds,
}

is_empty-put : (p o : ℕ) (d : Dict ℕ ℕ) → is_empty (put p o d) ≡ false
unfolding put
is_empty-put p o [] = refl
is_empty-put p o ((q, v) ∷ d) = ground arith

is_empty-update : (p o : ℕ) (d : Dict ℕ ℕ) → is_empty (update_max_offset p o d) ≡ false
unfolding update_max_offset get
is_empty-update p o [] = is_empty-put p o []
is_empty-update p o ((q, v) ∷ d) = ground (arith, is_empty-put p o ((q, v) ∷ d))

length-empty {ℓ} : {A : Type ℓ} (xs : List A) → is_empty xs ≡ true → length xs ≡ 0
length-empty [] h = refl
length-empty (x ∷ xs) h = absurd (ground arith)

module _ (loads : Option (List ℕ) → Result Value) (same_id : Value → Value → Bool)
    (topic : Topic) where
  -- What waits has an offset to commit.
  abbrev IsCovered : State → Type 0
  IsCovered s = is_empty s.pending_offsets ≡ true → is_empty s.batch ≡ true

  handle-IsCovered :
      (a : Answers) (m : Message) (s : State)
      → (handle loads same_id topic a m s).0 ≡ ok tt
      → is_empty (handle loads same_id topic a m s).1.pending_offsets ≡ false
  unfolding handle
  handle-IsCovered a m s h = elim (Result-cases (decode loads same_id topic m)) [
    | inl (b, d) ↦
        let s' = (buffer loads same_id topic b s).1 in
        rw (d, handle)
          (ground (arith, d, h, is_empty-update m.partition m.offset s'.pending_offsets))
    | inr (x, d) ↦
        rw (d, handle)
          (ground (arith, d, h, is_empty-update m.partition m.offset s.pending_offsets))
  ]

  flush_if_due-bounded :
      (t : Tick) (s : State)
      → IsCovered s
      → (flush_if_due loads same_id topic t s).0 ≡ ok tt
      → IsCovered (flush_if_due loads same_id topic t s).1
        × (length (flush_if_due loads same_id topic t s).1.batch < batch_size)
  unfolding flush_if_due is_due
  flush_if_due-bounded t s c h = elim (Bool-cases (is_empty s.pending_offsets)) [
    | inl e ↦ ground (arith, c, e, h, length-empty s.batch)
    | inr e ↦ ground (arith, c, e, h)
  ]

  receive-IsCovered :
      (t : Tick) (s : State)
      → IsCovered s
      → (receive loads same_id topic t s).0 ≡ ok tt
      → IsCovered (receive loads same_id topic t s).1
  unfolding receive
  receive-IsCovered t s c h = elim (Poll-cases t.poll) [
    | inl (inl e) ↦ rw (e, receive) c
    | inl (inr e) ↦ rw (e, receive) c
    | inr (m, e) ↦
        rw (e, receive)
          (λ p. ground (arith, p, handle-IsCovered t.answers m _ (rw (e, receive) at h)))
  ]

  iterate-bounded :
      (t : Tick) (s : State)
      → IsCovered s
      → (iterate loads same_id topic t s).0 ≡ ok tt
      → IsCovered (iterate loads same_id topic t s).1
        × (length (iterate loads same_id topic t s).1.batch < batch_size)
  unfolding iterate
  iterate-bounded t s c h = elim (Result-cases (receive loads same_id topic t s).0) [
    | inr (x, e) ↦ absurd (ground (arith, e, h))
    | inl (tt, e) ↦
        rw (e, iterate)
          (flush_if_due-bounded t _ (receive-IsCovered t s c e) (rw (e, iterate) at h))
  ]

  -- From a state whose batch holds fewer than `BATCH_SIZE` messages, and none where no offset is
  -- pending, the batch holds fewer than `BATCH_SIZE` messages after any rounds that end without an
  -- exception.
  pub rounds-bounded :
      (ticks : List Tick) (s : State)
      → (is_empty s.pending_offsets ≡ true → is_empty s.batch ≡ true)
      → length s.batch < batch_size
      → (rounds loads same_id topic ticks s).0 ≡ ok tt
      → length (rounds loads same_id topic ticks s).1.batch < batch_size
  unfolding rounds
  rounds-bounded [] s c b h = b
  rounds-bounded (t ∷ ts) s c b h = elim (Result-cases (iterate loads same_id topic t s).0) [
    | inr (x, e) ↦ absurd (ground (arith, e, h))
    | inl (tt, e) ↦
        let (c', b') = iterate-bounded t s c e in
        rw (e, rounds)
          (rounds-bounded ts (iterate loads same_id topic t s).1 c' b' (rw (e, rounds) at h))
  ]
