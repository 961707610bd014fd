-- ===== src/Ingestor/Consumers/Loop.antt =====
-- The invariant of the consumer loop, through a flush and through the `finally` block.
use weather_demand_forecast.Prelude.{
  ℕ, ◌≤◌, ◌≡◌, ◌⊎◌, inl, inr, Bool, List, Option, All, All-map, Bool-cases, arith, ℕ_eq,
}
use weather_demand_forecast.Prelude.Dict.{Dict, get}
use weather_demand_forecast.Json.{Value, Exc, Result, ok, raise, Result-cases}
use weather_demand_forecast.Ingestor.Consumers.{
  Message, Tick, Answers, State, Topic, write_batch, flush_batch, commit_offsets, flush_if_due,
  shut_down, is_empty, is_due,
}
use weather_demand_forecast.Ingestor.Consumers.Settled.{
  Settled, IsWaiting, write_batch-Grows, write_batch-settles,
}
use weather_demand_forecast.Ingestor.Consumers.Flush.{next, at, EndsBy, commit_offsets-le}

-- The group's position in the message's partition is not past the message.
abbrev pub Behind : Dict ℕ ℕ → Message → Type 0
Behind committed m = at (get m.partition committed) ≤ m.offset

module _ (loads : Option (List ℕ) → Result Value) (same_id : Value → Value → Bool)
    (topic : Topic) where
  abbrev pub Safe : State → Message → Type 0
  Safe s m = Settled loads same_id topic s.store m ⊎ Behind s.committed m

  -- While the loop runs, a message is settled, or it waits in the batch and is not committed.
  abbrev pub Held : State → Message → Type 0
  Held s m =
      Settled loads same_id topic s.store m
      ⊎ (Behind s.committed m × IsWaiting loads same_id topic s.batch m)

  -- After an exception a message may also be one that no pending offset covers.
  abbrev pub Left : State → Message → Type 0
  Left s m =
      Settled loads same_id topic s.store m
      ⊎ (Behind s.committed m
          × (IsWaiting loads same_id topic s.batch m
              ⊎ EndsBy m.partition m.offset s.pending_offsets))

  pub record IsRunning (floor : ℕ → ℕ) (s : State) : Type 0 where
    pub held : All (Held s) s.delivered
    pub position : (p : ℕ) → at (get p s.committed) ≤ next floor p s.delivered
    pub pending : (p : ℕ) → EndsBy p (next floor p s.delivered) s.pending_offsets

  flush-raise :
      (a : Answers) (s : State) (e : Exc)
      → (flush_batch loads same_id topic a s).0 ≡ raise e
      → (flush_batch loads same_id topic a s).1
        ≡ record s { store = (write_batch loads same_id topic a s.batch s.store).1 }
  unfolding flush_batch
  flush-raise a s e h = ground (arith, h)

  flush-ok :
      (a : Answers) (s : State)
      → (flush_batch loads same_id topic a s).0 ≡ ok tt
      → ((write_batch loads same_id topic a s.batch s.store).0 ≡ ok tt)
        × ((flush_batch loads same_id topic a s).1 ≡ record s {
          store = (write_batch loads same_id topic a s.batch s.store).1;
          committed = commit_offsets s.pending_offsets s.committed;
        })
  unfolding flush_batch
  flush-ok a s h = ground (arith, h)

  Safe-Left_ok :
      (a : Answers) (s : State) (m : Message)
      → Left s m
      → (write_batch loads same_id topic a s.batch s.store).0 ≡ ok tt
      → Settled loads same_id topic (write_batch loads same_id topic a s.batch s.store).1 m
        ⊎ Behind (commit_offsets s.pending_offsets s.committed) m
  Safe-Left_ok a s m (inl p) h = inl (write_batch-Grows loads same_id topic a s.batch s.store m p)
  Safe-Left_ok a s m (inr (b, inl w)) h =
      inl (write_batch-settles loads same_id topic a s.batch s.store m w h)
  Safe-Left_ok a s m (inr (b, inr e)) h =
      inr (commit_offsets-le s.pending_offsets s.committed m.partition m.offset b e)

  Safe-Left_raise :
      (a : Answers) (s : State) (m : Message)
      → Left s m
      → Settled loads same_id topic (write_batch loads same_id topic a s.batch s.store).1 m
        ⊎ Behind s.committed m
  Safe-Left_raise a s m (inl p) = inl (write_batch-Grows loads same_id topic a s.batch s.store m p)
  Safe-Left_raise a s m (inr (b, _)) = inr b

  Safe-of_Left : (s : State) (m : Message) → Left s m → Safe s m
  Safe-of_Left s m (inl p) = inl p
  Safe-of_Left s m (inr (b, _)) = inr b

  pub Left-of_Held : (s : State) (m : Message) → Held s m → Left s m
  Left-of_Held s m (inl p) = inl p
  Left-of_Held s m (inr (b, w)) = inr (b, inl w)

  flush-Safe :
      (a : Answers) (s : State)
      → All (Left s) s.delivered
      → All
          (Safe (flush_batch loads same_id topic a s).1)
          (flush_batch loads same_id topic a s).1.delivered
  flush-Safe a s h = elim (Result-cases (flush_batch loads same_id topic a s).0) [
    | inl (tt, e) ↦
        let (written, eq) = flush-ok a s e in
        rw eq (All-map (λ m l. Safe-Left_ok a s m l written) s.delivered h)
    | inr (x, e) ↦ rw (flush-raise a s x e) (All-map (λ m l. Safe-Left_raise a s m l) s.delivered h)
  ]

  -- The `finally` block loses nothing.
  pub shut_down-Safe :
      (a : Answers) (s : State)
      → All (Left s) s.delivered
      → All (Safe (shut_down loads same_id topic a s)) (shut_down loads same_id topic a s).delivered
  unfolding shut_down
  shut_down-Safe a s h = elim (Bool-cases (is_empty s.pending_offsets)) [
    | inl e ↦ rw e (All-map (λ m l. Safe-of_Left s m l) s.delivered h)
    | inr e ↦ rw e (flush-Safe a s h)
  ]

  Held-flushed :
      (a : Answers) (s : State) (m : Message)
      → Held s m
      → (write_batch loads same_id topic a s.batch s.store).0 ≡ ok tt
      → Settled loads same_id topic (write_batch loads same_id topic a s.batch s.store).1 m
  Held-flushed a s m (inl p) h = write_batch-Grows loads same_id topic a s.batch s.store m p
  Held-flushed a s m (inr (b, w)) h =
      write_batch-settles loads same_id topic a s.batch s.store m w h

  Left-flushed :
      (a : Answers) (s : State) (m : Message)
      → Held s m
      → Left (record s { store = (write_batch loads same_id topic a s.batch s.store).1 }) m
  Left-flushed a s m (inl p) = inl (write_batch-Grows loads same_id topic a s.batch s.store m p)
  Left-flushed a s m (inr (b, w)) = inr (b, inl w)

  pub flush_if_due-ok :
      {floor : ℕ → ℕ} (t : Tick) (s : State)
      → IsRunning floor s
      → (flush_if_due loads same_id topic t s).0 ≡ ok tt
      → IsRunning floor (flush_if_due loads same_id topic t s).1
  unfolding flush_if_due
  flush_if_due-ok {floor} t s r h = elim (Bool-cases (is_due loads same_id topic t s)) [
    | inr later ↦ rw (later, flush_if_due) r
    | inl due ↦ elim (Result-cases (flush_batch loads same_id topic t.answers s).0) [
      | inr (x, e) ↦ absurd (ground (arith, due, e, h))
      | inl (tt, e) ↦
          let (written, eq) = flush-ok t.answers s e in
          rw (due, e, eq, flush_if_due)
            (record {
              held = All-map (λ m l. inl (Held-flushed t.answers s m l written)) s.delivered r.held;
              position = λ p.
                  commit_offsets-le s.pending_offsets s.committed p (next floor p s.delivered)
                    (r.position p) (r.pending p);
              pending = λ p. tt;
            })
    ]
  ]

  pub flush_if_due-raise :
      {floor : ℕ → ℕ} (t : Tick) (s : State) (x : Exc)
      → IsRunning floor s
      → (flush_if_due loads same_id topic t s).0 ≡ raise x
      → All
          (Left (flush_if_due loads same_id topic t s).1)
          (flush_if_due loads same_id topic t s).1.delivered
  unfolding flush_if_due
  flush_if_due-raise t s x r h = elim (Bool-cases (is_due loads same_id topic t s)) [
    | inr later ↦ absurd (ground (arith, later, h))
    | inl due ↦ elim (Result-cases (flush_batch loads same_id topic t.answers s).0) [
      | inl (tt, e) ↦ absurd (ground (arith, due, e, h))
      | inr (y, e) ↦
          rw (due, e, flush-raise t.answers s y e, flush_if_due)
            (All-map (λ m l. Left-flushed t.answers s m l) s.delivered r.held)
    ]
  ]

  delivered-flush_batch :
      (a : Answers) (s : State) → (flush_batch loads same_id topic a s).1.delivered ≡ s.delivered
  unfolding flush_batch
  delivered-flush_batch a s = ground arith

  pub delivered-flush_if_due :
      (t : Tick) (s : State) → (flush_if_due loads same_id topic t s).1.delivered ≡ s.delivered
  unfolding flush_if_due
  delivered-flush_if_due t s = ground (arith, delivered-flush_batch t.answers s)
