-- ===== src/Ingestor/Consumers/NoLoss.antt =====
-- No message is lost: what the group's offsets have passed is settled, however the thread ended.
use weather_demand_forecast.Prelude.{
  ℕ, ◌≤◌, ◌≡◌, sym, ◌∙◌, inl, inr, Bool, true, false, List, [], ◌∷◌, ◌++◌, Option, All, All-map,
  arith, ℕ_eq,
}
use mathlib.Core.Path.{subst}
use native.Mathlib.Nat.{le_refl}
use weather_demand_forecast.Prelude.Dict.{get}
use weather_demand_forecast.Json.{Value, Exc, Result, ok, raise, Result-cases}
use weather_demand_forecast.Ingestor.Consumers.{
  Poll-cases, Message, Poll, message, Tick, Answers, State, Topic, receive, iterate, rounds,
  consumer_loop,
}
use weather_demand_forecast.Ingestor.Consumers.Flush.{next, next-nil, at}
use weather_demand_forecast.Ingestor.Consumers.Loop.{
  Safe, Left, Left-of_Held, IsRunning, flush_if_due-ok, flush_if_due-raise, shut_down-Safe,
  delivered-flush_if_due,
}
use weather_demand_forecast.Ingestor.Consumers.Handle.{
  taken, handle-ok, handle-raise, delivered-handle,
}

-- What the broker has handed out after a poll.
abbrev pub deliver : Poll → List Message → List Message
deliver (message m) ds = ds ++ m ∷ []
deliver _ ds = ds

abbrev pub Fits : (ℕ → ℕ) → Poll → List Message → Type 0
Fits floor (message m) ds = next floor m.partition ds ≤ m.offset
Fits floor _ ds = Unit

-- The broker hands out each partition's messages by rising offsets, from `floor` on.
abbrev pub InOrder : (ℕ → ℕ) → List Message → List Tick → Type 0
InOrder floor ds [] = Unit
InOrder floor ds (t ∷ ts) = Fits floor t.poll ds × InOrder floor (deliver t.poll ds) ts

module _ (loads : Option (List ℕ) → Result Value) (same_id : Value → Value → Bool)
    (topic : Topic) where
  delivered-receive :
      (t : Tick) (s : State)
      → (receive loads same_id topic t s).1.delivered ≡ deliver t.poll s.delivered
  unfolding receive
  delivered-receive t s = elim (Poll-cases t.poll) [
    | inl (inl e) ↦ rw (e, receive)
    | inl (inr e) ↦ rw (e, receive)
    | inr (m, e) ↦
        rw (e, receive)
          (delivered-handle loads same_id topic t.answers m (taken loads same_id topic m s))
  ]

  receive-ok :
      {floor : ℕ → ℕ} (t : Tick) (s : State)
      → IsRunning loads same_id topic floor s
      → Fits floor t.poll s.delivered
      → (receive loads same_id topic t s).0 ≡ ok tt
      → IsRunning loads same_id topic floor (receive loads same_id topic t s).1
  unfolding receive
  receive-ok t s r o h = elim (Poll-cases t.poll) [
    | inl (inl e) ↦ rw (e, receive) r
    | inl (inr e) ↦ rw (e, receive) r
    | inr (m, e) ↦
        rw (e, receive)
          (handle-ok loads same_id topic t.answers m s r (rw e at o) (rw (e, receive) at h))
  ]

  receive-raise :
      {floor : ℕ → ℕ} (t : Tick) (s : State) (x : Exc)
      → IsRunning loads same_id topic floor s
      → Fits floor t.poll s.delivered
      → (receive loads same_id topic t s).0 ≡ raise x
      → All
          (Left loads same_id topic (receive loads same_id topic t s).1)
          (receive loads same_id topic t s).1.delivered
  unfolding receive
  receive-raise t s x r o h = elim (Poll-cases t.poll) [
    | inl (inl e) ↦ absurd (ground (arith, e, h))
    | inl (inr e) ↦ absurd (ground (arith, e, h))
    | inr (m, e) ↦
        rw (e, receive)
          (handle-raise loads same_id topic t.answers m s r (rw e at o) x (rw (e, receive) at h))
  ]

  iterate-ok :
      {floor : ℕ → ℕ} (t : Tick) (s : State)
      → IsRunning loads same_id topic floor s
      → Fits floor t.poll s.delivered
      → (iterate loads same_id topic t s).0 ≡ ok tt
      → IsRunning loads same_id topic floor (iterate loads same_id topic t s).1
  unfolding iterate
  iterate-ok t s r o h = elim (Result-cases (receive loads same_id topic t s).0) [
    | inr (x, e) ↦ absurd (ground (arith, e, h))
    | inl (tt, e) ↦
        rw (e, iterate)
          (flush_if_due-ok loads same_id topic t _ (receive-ok t s r o e) (rw (e, iterate) at h))
  ]

  delivered-iterate :
      (t : Tick) (s : State)
      → (iterate loads same_id topic t s).1.delivered ≡ deliver t.poll s.delivered
  unfolding iterate
  delivered-iterate t s =
      let after = (receive loads same_id topic t s).1 in
      elim (Result-cases (receive loads same_id topic t s).0) [
        | inr (x, e) ↦ rw (e, iterate) (delivered-receive t s)
        | inl (tt, e) ↦
            rw (e, iterate)
              (delivered-flush_if_due loads same_id topic t after ∙ delivered-receive t s)
      ]

  iterate-raise :
      {floor : ℕ → ℕ} (t : Tick) (s : State) (x : Exc)
      → IsRunning loads same_id topic floor s
      → Fits floor t.poll s.delivered
      → (iterate loads same_id topic t s).0 ≡ raise x
      → All
          (Left loads same_id topic (iterate loads same_id topic t s).1)
          (iterate loads same_id topic t s).1.delivered
  unfolding iterate
  iterate-raise t s x r o h = elim (Result-cases (receive loads same_id topic t s).0) [
    | inr (y, e) ↦ rw (e, iterate) (receive-raise t s y r o e)
    | inl (tt, e) ↦
        rw (e, iterate)
          (flush_if_due-raise loads same_id topic t _ x (receive-ok t s r o e)
            (rw (e, iterate) at h))
  ]

  -- However the rounds end, nothing that a later flush needs is gone.
  rounds-Left :
      {floor : ℕ → ℕ} (ts : List Tick) (s : State)
      → IsRunning loads same_id topic floor s
      → InOrder floor s.delivered ts
      → All
          (Left loads same_id topic (rounds loads same_id topic ts s).1)
          (rounds loads same_id topic ts s).1.delivered
  unfolding rounds
  rounds-Left [] s r o = All-map (λ m h. Left-of_Held loads same_id topic s m h) s.delivered r.held
  rounds-Left {floor} (t ∷ ts) s r (o, os) =
      elim (Result-cases (iterate loads same_id topic t s).0) [
        | inr (x, e) ↦ rw (e, rounds) (iterate-raise t s x r o e)
        | inl (tt, e) ↦
            rw (e, rounds)
              (rounds-Left ts (iterate loads same_id topic t s).1 (iterate-ok t s r o e)
                (subst (λ ds. InOrder floor ds ts) (sym (delivered-iterate t s)) os))
      ]

-- Where a group reads on: the committed offset of each partition.
abbrev pub committed_floor : State → ℕ → ℕ
committed_floor s p = at (get p s.committed)

module _ (loads : Option (List ℕ) → Result Value) (same_id : Value → Value → Bool)
    (topic : Topic) where
  -- Let the broker have handed out nothing when the thread starts, and then hand out each
  -- partition's messages by rising offsets, from the group's offset on. Whatever the messages hold
  -- and whatever Postgres, the broker and the dead-letter topic answer, and however the thread
  -- ends: a message that it was handed is in the raw table (or a row with its event is), or is a
  -- dead letter, or was logged as one that could not be produced, or the group's offset has not
  -- passed it, so that it will be read again.
  pub consumer_loop-Safe :
      (connected : Bool) (ticks : List Tick) (last : Answers) (s : State)
      → s.delivered ≡ []
      → InOrder (committed_floor s) [] ticks
      → let after = (consumer_loop loads same_id topic connected ticks last s).1 in
        All (Safe loads same_id topic after) after.delivered
  unfolding consumer_loop
  consumer_loop-Safe false ticks last s d o = rw d tt
  consumer_loop-Safe true ticks last s d o = shut_down-Safe loads same_id topic last _ (
      rounds-Left loads same_id topic {floor = committed_floor s} ticks _
        (record { held = rw d tt; position = λ p. rw (d, next-nil) (le_refl _); pending = λ p. tt })
        (rw d o))
