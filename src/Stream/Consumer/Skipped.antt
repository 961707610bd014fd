-- ===== src/Stream/Consumer/Skipped.antt =====
-- What a RedisError does to the offsets.
use weather_demand_forecast.Prelude.{
  ℕ, ◌+◌, ◌≤◌, ◌<◌, ◌≡◌, ◌≢◌, refl, String, true, List, [], ◌∷◌, some, leb, arith, Bool-cases, inl,
  inr, sym, ap, ◌∙◌, ℕ_eq, ==_refl, le→leb,
}
use mathlib.Core.Path.{subst}
use weather_demand_forecast.Prelude.Dict.{get, put, get-put}
use weather_demand_forecast.Json.{Exc, Result, ok, raise}
use weather_demand_forecast.Ingestor.Consumers.{Message, message, update_max_offset, commit_offsets}
use weather_demand_forecast.Stream.Buffer.{Record, Part, ParquetBuffer, fails, append, flush}
use weather_demand_forecast.Stream.Buffer.Returns.{flush_returns}
use weather_demand_forecast.Stream.RedisOps.{Redis}
use weather_demand_forecast.Stream.Consumer.{
  Plan, Tick, State, answered, failed, commit_timeout, note_offset, carry_out, handle, receive,
  commit_if_due, after_flush, flush_if_due, iterate, rounds,
}

module _ (plan_of : String → Message → Result Plan) (now_iso : ℕ → String) (interval : ℕ) where
  module _ (t : Tick) (m : Message) (s : State) {plan : Plan} (polled : t.poll ≡ message m)
      (planned : plan_of (now_iso t.now) m ≡ ok plan) where
    -- After a RedisError the offsets are what they were.
    receive-redis_error :
        {partial : Redis → Redis}
        → t.redis_answers ≡ failed partial
        → receive plan_of now_iso interval t s ≡ (ok tt, record s { redis = partial s.redis })
    unfolding receive
    receive-redis_error down = rw (polled, planned, down, receive, handle, carry_out)

    receive-redis_ok :
        {r : Record}
        → t.redis_answers ≡ answered
        → plan.row ≡ ok r
        → receive plan_of now_iso interval t s ≡ (
          ok tt,
          note_offset m (record s { redis = plan.write s.redis; buffer = append r s.buffer }),
        )
    unfolding receive
    receive-redis_ok up row = rw (polled, planned, up, row, receive, handle, carry_out)

  finish : Tick → Result (Unit {0}) × State → Result (Unit {0}) × State → Result (Unit {0}) × State
  finish t done received = elim received.0 [
    | ok u ↦ elim done.0 [
      | ok v ↦ flush_if_due plan_of now_iso interval t done.1
      | raise e ↦ (raise e, done.1)
    ]
    | raise e ↦ (raise e, received.1)
  ]

  module _ (t : Tick) (s : State) where
    commit_empty : s.pending_offsets ≡ [] → commit_if_due plan_of now_iso interval t s ≡ (ok tt, s)
    unfolding commit_if_due
    commit_empty none_pending = rw (none_pending, commit_if_due)

    commit_due :
        {p o : ℕ}
        → s.pending_offsets ≡ (p, o) ∷ []
        → s.commit_started + commit_timeout ≤ t.now
        → t.commit_taken ≡ true
        → commit_if_due plan_of now_iso interval t s ≡ (
          ok tt,
          record s {
            committed = put p (o + 1) s.committed;
            pending_offsets = [];
            commit_started = t.now;
          },
        )
    unfolding commit_if_due commit_offsets
    commit_due noted due taken =
        rw (noted, taken, le→leb (s.commit_started + commit_timeout) t.now due, commit_if_due)

    Keeps : State → Type 0
    Keeps a =
        (a.committed ≡ s.committed)
        × (a.redis ≡ s.redis)
        × (a.pending_offsets ≡ s.pending_offsets)
        × (a.commit_started ≡ s.commit_started)

    after_flush-Keeps :
        (done : Result (Unit {0}) × ParquetBuffer)
        → done.0 ≡ ok tt
        → (a : State) × (after_flush plan_of now_iso interval t s done ≡ (ok tt, a)) × Keeps a
    unfolding Keeps
    after_flush-Keeps (ok u, b) h = (_, refl, (refl, refl, refl, refl))
    after_flush-Keeps (raise e, b) h = cc

    -- Where no upload raises, the timer changes nothing but the buffer and itself.
    flush_if_due-Keeps :
        ((p : Part) (e : Exc) → t.upload_answer p ≢ fails e)
        → (a : State) × (flush_if_due plan_of now_iso interval t s ≡ (ok tt, a)) × Keeps a
    unfolding flush_if_due Keeps
    flush_if_due-Keeps safe = elim (Bool-cases (leb (s.parquet_flushed + interval) t.now)) [
      | inl fires ↦
          rw (fires, flush_if_due)
            (after_flush-Keeps (flush t.upload_answer t.epoch_ms [] s.buffer)
              (flush_returns t.upload_answer t.epoch_ms [] s.buffer safe))
      | inr quiet ↦ rw (quiet, flush_if_due) (s, refl, (refl, refl, refl, refl))
    ]

    iterate_lem :
        {s1 s2 : State}
        → receive plan_of now_iso interval t s ≡ (ok tt, s1)
        → commit_if_due plan_of now_iso interval t s1 ≡ (ok tt, s2)
        → iterate plan_of now_iso interval t s ≡ flush_if_due plan_of now_iso interval t s2
    unfolding iterate finish
    iterate_lem {s1} {s2} received done =
        subst
          (λ r.
            finish t (commit_if_due plan_of now_iso interval t r.1) r
            ≡ flush_if_due plan_of now_iso interval t s2)
          (sym received) (rw done refl)

  follow : List Tick → Result (Unit {0}) × State → Result (Unit {0}) × State
  follow ts done = elim done.0 [
    | ok u ↦ rounds plan_of now_iso interval ts done.1
    | raise e ↦ (raise e, done.1)
  ]

  rounds_two :
      (t1 t2 : Tick) (s : State) {a b : State}
      → iterate plan_of now_iso interval t1 s ≡ (ok tt, a)
      → iterate plan_of now_iso interval t2 a ≡ (ok tt, b)
      → rounds plan_of now_iso interval (t1 ∷ t2 ∷ []) s ≡ (ok tt, b)
  unfolding rounds follow
  rounds_two t1 t2 s {b = b} first then_second =
      subst (λ d. follow (t2 ∷ []) d ≡ (ok tt, b)) (sym first)
        (subst (λ d. follow [] d ≡ (ok tt, b)) (sym then_second) refl)

  noted_alone :
      (m : Message) (s : State)
      → s.pending_offsets ≡ []
      → (note_offset m s).pending_offsets ≡ (m.partition, m.offset) ∷ []
  unfolding update_max_offset get put
  noted_alone m s none_pending = ap (update_max_offset m.partition m.offset) none_pending

  -- A message whose Redis call failed is passed over: if no upload of the two rounds raises another exception than
  -- a ClientError, no offset is pending, and a later message of
  -- its partition is carried out in the next round, in which a commit is due and taken, then the
  -- group's committed offset is past both messages, and all that Redis has of the first message is
  -- what the calls before the error had done.
  pub redis_error_committed :
      (t1 t2 : Tick) (m1 m2 : Message) (s : State) {p1 p2 : Plan} {r : Record}
      {partial : Redis → Redis}
      → s.pending_offsets ≡ []
      → m1.partition ≡ m2.partition
      → m1.offset < m2.offset
      → t1.poll ≡ message m1
      → plan_of (now_iso t1.now) m1 ≡ ok p1
      → t1.redis_answers ≡ failed partial
      → t2.poll ≡ message m2
      → plan_of (now_iso t2.now) m2 ≡ ok p2
      → t2.redis_answers ≡ answered
      → p2.row ≡ ok r
      → s.commit_started + commit_timeout ≤ t2.now
      → t2.commit_taken ≡ true
      → ((p : Part) (e : Exc) → t1.upload_answer p ≢ fails e)
      → ((p : Part) (e : Exc) → t2.upload_answer p ≢ fails e)
      → ((c : ℕ) × (get m1.partition (rounds plan_of now_iso interval (t1 ∷ t2 ∷ []) s).1.committed
            ≡ some c)
          × (m1.offset < c)
          × (m2.offset < c))
        × ((rounds plan_of now_iso interval (t1 ∷ t2 ∷ []) s).0 ≡ ok tt)
        × ((rounds plan_of now_iso interval (t1 ∷ t2 ∷ []) s).1.redis ≡ p2.write (partial s.redis))
  unfolding Keeps
  redis_error_committed t1 t2 m1 m2 s {p2 = p2} {r} {partial} none_pending same later polled1
        planned1 down polled2 planned2 up row due taken safe1 safe2 =
      let s1 = record s { redis = partial s.redis } in
      let (a, flushed, k) = flush_if_due-Keeps t1 s1 safe1 in
      let n = note_offset m2 (record a { redis = p2.write a.redis; buffer = append r a.buffer }) in
      let c = record n {
        committed = put m2.partition (m2.offset + 1) n.committed;
        pending_offsets = [];
        commit_started = t2.now;
      } in
      let (b, flushed2, k2) = flush_if_due-Keeps t2 c safe2 in
      let both =
        rounds_two t1 t2 s
          (iterate_lem t1 s (receive-redis_error t1 m1 s polled1 planned1 down)
              (commit_empty t1 s1 none_pending)
            ∙ flushed)
          (iterate_lem t2 a (receive-redis_ok t2 m2 a polled2 planned2 up row)
              (commit_due t2 n (noted_alone m2 a (k.2 ∙ none_pending)) (rw (k.3) due) taken)
            ∙ flushed2) in
      let found = get-put m2.partition m1.partition (m2.offset + 1) a.committed in
      rw (both) (
        (
          m2.offset + 1,
          ap (get m1.partition) k2.0 ∙ found ∙ rw (same, ==_refl m2.partition) refl,
          omega (arith, later),
          omega arith,
        ),
        refl,
        k2.1 ∙ ap p2.write k.1,
      )
