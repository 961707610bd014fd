-- ===== src/Tools/Replay/Tests.antt =====
-- A replay of two partitions to the fifteenth millisecond: the first has messages every ten milliseconds, the
-- second has older ones only.
use mathlib.Core.Path.{subst}
use weather_demand_forecast.Prelude.{
  ℕ, ◌*◌, ◌≡◌, refl, inl, inr, true, false, List, [], ◌∷◌, Option, none, some, ◌==◌, ℕ_eq, Any, All,
  if◌then◌else◌, Bool-cases, arith,
}
use weather_demand_forecast.Prelude.Dict.{get}
use weather_demand_forecast.Prelude.Texts.{codes}
use weather_demand_forecast.Tools.Replay.{
  Datetimes, Broker, State, partitions, returned, parse_timestamp_ms, topic_of, replay,
  with_consumer, reset, resolve, final_of, commit, sorted, settle,
}
use weather_demand_forecast.Tools.Replay.Offsets.{IsFirst, IsReset, replay-IsReset}

abbrev time_of : ℕ → ℕ → ℕ
time_of p i = if p == 0 then i * 10 else 0

abbrev end_of : ℕ → ℕ
end_of p = 3

abbrev first_of : ℕ → Option ℕ
first_of p = if p == 0 then some 2 else none

abbrev resolved_of : List ℕ → List (ℕ × Option ℕ)
resolved_of [] = []
resolved_of (p ∷ ps) = (p, first_of p) ∷ resolved_of ps

abbrev broker : Broker
broker = record {
  list_topics = λ t. partitions (1 ∷ 0 ∷ []);
  offsets_for_times = λ ts ps. some (resolved_of ps);
  get_watermark_offsets = λ p. some (0, 3);
  takes_commit = true;
}

abbrev py : Datetimes
py = record {
  Datetime = ℕ;
  fromisoformat = λ s. some 15;
  is_naive = λ dt. true;
  with_utc = λ dt. dt;
  timestamp_ms = λ dt. dt;
}

ends : (p low high : ℕ) → broker.get_watermark_offsets p ≡ some (low, high) → high ≡ 3
ends p low high e = ground (arith, e)

first_of-IsFirst : (p : ℕ) → IsFirst time_of end_of 15 (p, first_of p)
first_of-IsFirst p = elim (Bool-cases (p == 0)) [
  | inl e ↦ rw e (ground arith, λ i lt. ground arith)
  | inr e ↦ rw e (λ i lt. ground arith)
]

resolved_of-IsFirst : (ps : List ℕ) → All (IsFirst time_of end_of 15) (resolved_of ps)
resolved_of-IsFirst [] = tt
resolved_of-IsFirst (p ∷ ps) = (first_of-IsFirst p, resolved_of-IsFirst ps)

resolved_of-Any : (q : ℕ) (ps : List ℕ) → Any (λ x. x ≡ q) ps → Any (λ f. f.0 ≡ q) (resolved_of ps)
resolved_of-Any q [] h = elim h [ ]
resolved_of-Any q (p ∷ ps) (inl e) = inl e
resolved_of-Any q (p ∷ ps) (inr h) = inr (resolved_of-Any q ps h)

resolves :
    (ps : List ℕ) (resolved : List (ℕ × Option ℕ))
    → broker.offsets_for_times 15 ps ≡ some resolved
    → All (IsFirst time_of end_of 15) resolved
      × ((q : ℕ) → Any (λ x. x ≡ q) ps → Any (λ f. f.0 ≡ q) resolved)
resolves ps resolved e =
    let same : resolved_of ps ≡ resolved = cc e in
    (
      subst (All (IsFirst time_of end_of 15)) same (resolved_of-IsFirst ps),
      λ q h. subst (Any (λ f. f.0 ≡ q)) same (resolved_of-Any q ps h),
    )

abbrev before : State
before = record { committed = (0, 3) ∷ []; consumer_open = true }

named : topic_of "ingestor-demand" none ≡ some "demand.events.v1"
unfolding topic_of get
named = refl

parsed : parse_timestamp_ms py (codes "then") ≡ some 15
unfolding parse_timestamp_ms
parsed = refl

ended : (replay broker py "ingestor-demand" (codes "then") none before).0 ≡ returned
unfolding replay topic_of get parse_timestamp_ms with_consumer reset resolve final_of commit sorted
    settle
ended = refl

replay-IsReset_example :
    ((o : ℕ) × (get 1 (replay broker py "ingestor-demand" (codes "then") none before).1.committed
        ≡ some o)
      × IsReset time_of end_of 15 1 o)
    × ((replay broker py "ingestor-demand" (codes "then") none before).1.consumer_open ≡ false)
replay-IsReset_example =
    replay-IsReset time_of end_of 15 broker ends py "ingestor-demand" (codes "then") none
      "demand.events.v1" (1 ∷ 0 ∷ []) before 1 resolves named parsed refl (inl refl) ended
