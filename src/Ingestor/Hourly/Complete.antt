-- ===== src/Ingestor/Hourly/Complete.antt =====
-- A completed hour reaches the lake when the services answer.
use mathlib.Core.Path.{subst}
use weather_demand_forecast.Prelude.{
  ℕ, zero, suc, ◌+◌, ◌-◌, ◌*◌, ◌/◌, ◌%◌, ◌≤◌, ◌<◌, ◌≡◌, refl, sym, true, false, List, [], ◌∷◌, some,
  Any, All, Any-append_left, Any-append_right, count, count-append, filter, ltb, ltb→lt, arith,
  ==_refl, Bool-cases, ◌⊎◌, inl, inr,
}
use weather_demand_forecast.Prelude.Texts.{Text}
use weather_demand_forecast.Stream.RedisOps.{w_1h}
use weather_demand_forecast.Ingestor.Consumers.{is_empty}
use weather_demand_forecast.Ingestor.Hourly.{
  Python, Key, Key_eq, TableRow, Put, Answers, Writer, Round, Run, tables, lookback_hours, in_hour,
  floor_hour, member, same_key_iff, key_of, upload, write_partition, maybe_write,
  sync_written_set_from_s3, run,
}
use weather_demand_forecast.Ingestor.Hourly.Once.{has_key, Outcome, write_partition-Outcome}
use weather_demand_forecast.Ingestor.Hourly.Schedule.{
  Attempt, of_tables, of_hours, every_hour, hour_count, rolled, back, later, rollovers, plan,
  carry_out, synced, run-carry_out,
}

-- Postgres answers for the table and has rows of the hour, and S3 takes the object.
unfoldable pub Serves : Text → ℕ → Answers → Type 0
unfolding filter
Serves table h a =
    (all : List TableRow) × (a.raw table h ≡ some all)
    × (is_empty (filter (in_hour h) all) ≡ false)
    × (a.takes table h ≡ true)

-- An hour that the run is to write: one of the 25 before its start, or one that starts between the hour in
-- which the loop starts and the hour of the end.
abbrev pub IsDue : Run → ℕ → Type 0
IsDue r h =
    Any (λ b. b ≡ h) (back lookback_hours 1 r.startup.now)
    ⊎ ((h % w_1h ≡ 0) × (floor_hour r.tracked_from ≤ h) × (h < floor_hour r.last.now))

-- every answer to an attempt at the table and the hour
abbrev pub AllServe : Text → ℕ → Run → Type 0
AllServe table h r =
    Serves table h r.startup.answers
    × All (λ x. Serves table h x.answers) r.rounds
    × Serves table h r.last.answers

-- an attempt at the table and the hour that succeeds
abbrev pub IsGood : Text → ℕ → Attempt → Type 0
IsGood table h a = (a.table ≡ table) × (a.hour_start ≡ h) × Serves table h a.answers

of_tables-Any :
    (a : Answers) (table : Text) (h : ℕ) (ts : List Text)
    → Any (λ t. t ≡ table) ts
    → Serves table h a
    → Any (IsGood table h) (of_tables a h ts)
of_tables-Any a table h [] m serves = elim m [ ]
of_tables-Any a table h (t ∷ ts) (inl e) serves = inl (e, refl, serves)
of_tables-Any a table h (t ∷ ts) (inr m) serves = inr (of_tables-Any a table h ts m serves)

of_hours-Any :
    (a : Answers) (table : Text) (h : ℕ) (hs : List ℕ)
    → Any (λ t. t ≡ table) tables
    → Any (λ x. x ≡ h) hs
    → Serves table h a
    → Any (IsGood table h) (of_hours a hs)
of_hours-Any a table h [] known m serves = elim m [ ]
of_hours-Any a table h (x ∷ hs) known (inl e) serves =
    Any-append_left (IsGood table h) (of_tables a x tables) (of_hours a hs) (
      subst (λ y. Any (IsGood table h) (of_tables a y tables)) (sym e)
        (of_tables-Any a table h tables known serves))
of_hours-Any a table h (x ∷ hs) known (inr m) serves =
    Any-append_right (IsGood table h) (of_tables a x tables) (of_hours a hs)
      (of_hours-Any a table h hs known m serves)

every_hour-Any :
    (n cursor h k : ℕ) → h ≡ cursor + k * w_1h → k < n → Any (λ x. x ≡ h) (every_hour n cursor)
every_hour-Any zero cursor h k e b = absurd (omega (arith, b))
every_hour-Any (suc n) cursor h zero e b = inl (omega (arith, e))
every_hour-Any (suc n) cursor h (suc k) e b =
    inr (every_hour-Any n (cursor + w_1h) h k (omega (arith, e)) (omega (arith, b)))

rolled-Any :
    (from_hour up_to h : ℕ)
    → from_hour % w_1h ≡ 0
    → h % w_1h ≡ 0
    → from_hour ≤ h
    → h < up_to
    → Any (λ x. x ≡ h) (rolled from_hour up_to)
rolled-Any from_hour up_to h a b lo hi =
    every_hour-Any (hour_count from_hour up_to) from_hour h ((h - from_hour) / w_1h)
      (omega (arith, a, b, lo)) (omega (arith, a, b, lo, hi))

rollovers-Any :
    (table : Text) (h : ℕ) (rs : List Round) (last : Round) (tracked : ℕ)
    → Any (λ t. t ≡ table) tables
    → tracked % w_1h ≡ 0
    → h % w_1h ≡ 0
    → tracked ≤ h
    → h < floor_hour last.now
    → All (λ x. Serves table h x.answers) rs
    → Serves table h last.answers
    → Any (IsGood table h) (rollovers rs last tracked)
rollovers-Any table h [] last tracked known a b lo hi serves serves_last =
    of_hours-Any last.answers table h (rolled tracked (floor_hour last.now)) known
      (rolled-Any tracked (floor_hour last.now) h a b lo hi) serves_last
rollovers-Any table h (r ∷ rs) last tracked known a b lo hi serves serves_last =
    let now_hour = floor_hour r.now in
    let first = of_hours r.answers (rolled tracked now_hour) in
    let rest = rollovers rs last (later tracked now_hour) in
    elim (Bool-cases (ltb h now_hour)) [
      | inl e ↦ Any-append_left (IsGood table h) first rest (
          of_hours-Any r.answers table h (rolled tracked now_hour) known
            (rolled-Any tracked now_hour h a b lo (ltb→lt h now_hour e)) serves.0)
      | inr e ↦ Any-append_right (IsGood table h) first rest (
          rollovers-Any table h rs last (later tracked now_hour) known (ground (arith, a)) b
            (ground (arith, lo, e)) hi serves.1 serves_last)
    ]

plan-Any :
    (r : Run) (table : Text) (h : ℕ)
    → Any (λ t. t ≡ table) tables
    → IsDue r h
    → AllServe table h r
    → Any (IsGood table h) (plan r)
plan-Any r table h known due serves =
    let caught = of_hours r.startup.answers (back lookback_hours 1 r.startup.now) in
    let rest = rollovers r.rounds r.last (floor_hour r.tracked_from) in
    elim due [
      | inl m ↦ Any-append_left (IsGood table h) caught rest (
          of_hours-Any r.startup.answers table h (back lookback_hours 1 r.startup.now) known m
            serves.0)
      | inr (b, lo, hi) ↦ Any-append_right (IsGood table h) caught rest (
          rollovers-Any table h r.rounds r.last (floor_hour r.tracked_from) known (omega arith) b lo
            hi serves.1 serves.2)
    ]

module _ (py : Python) where
  -- what is known as written was listed or has been put
  unfoldable pub IsBacked : List Key → Writer → Type 0
  unfolding member
  IsBacked base s =
      (k : Key)
      → member k s.written ≡ true
      → (member k base ≡ true) ⊎ (0 < count (has_key py k) s.puts)

  maybe_write-IsBacked :
      (base : List Key) (a : Answers) (table : Text) (h : ℕ) (s : Writer)
      → IsBacked base s
      → IsBacked base (maybe_write py a table h s)
  unfolding maybe_write IsBacked Outcome member
  maybe_write-IsBacked base a table h s backed =
      elim (Bool-cases (member (key_of py table h) s.written)) [
        | inl e ↦ rw e backed
        | inr e ↦
            elim (write_partition-Outcome py table h (a.raw table h) (a.takes table h) s.puts) [
              | inl w ↦ rw (e, w) backed
              | inr (p, w, t, at) ↦
                  rw (e, w)
                    (λ k m. ground (
                      arith,
                      backed k,
                      e,
                      t,
                      at,
                      m,
                      count-append (has_key py k) s.puts (p ∷ []),
                      same_key_iff (key_of py table h) k,
                    ))
            ]
      ]

  maybe_write-written :
      (k : Key) (a : Answers) (table : Text) (h : ℕ) (s : Writer)
      → member k s.written ≡ true
      → member k (maybe_write py a table h s).written ≡ true
  unfolding maybe_write Outcome member
  maybe_write-written k a table h s m = elim (Bool-cases (member (key_of py table h) s.written)) [
    | inl e ↦ rw e m
    | inr e ↦ elim (write_partition-Outcome py table h (a.raw table h) (a.takes table h) s.puts) [
      | inl w ↦ rw (e, w) m
      | inr (p, w, t, at) ↦ rw (e, w) (ground (arith, m))
    ]
  ]

  upload-taken :
      (table : Text) (h : ℕ) (rows : List TableRow) (puts : List Put)
      → is_empty rows ≡ false
      → (upload py table h true rows puts).0 ≡ true
  unfolding upload
  upload-taken table h [] puts e = cc
  upload-taken table h (r ∷ rows) puts e = refl

  maybe_write-Serves :
      (a : Answers) (table : Text) (h : ℕ) (s : Writer)
      → Serves table h a
      → member (key_of py table h) (maybe_write py a table h s).written ≡ true
  unfolding maybe_write Serves write_partition member
  maybe_write-Serves a table h s (all, raw, rows, takes) =
      elim (Bool-cases (member (key_of py table h) s.written)) [
        | inl e ↦ rw e e
        | inr e ↦
            rw
              (
                e,
                raw,
                takes,
                upload-taken table h (filter (in_hour h) all) s.puts rows,
                ==_refl (key_of py table h),
              )
              refl
      ]

  carry_out-IsBacked :
      (base : List Key) (rest : List Attempt) (s : Writer)
      → IsBacked base s
      → IsBacked base (carry_out py rest s)
  unfolding carry_out
  carry_out-IsBacked base [] s backed = backed
  carry_out-IsBacked base (a ∷ rest) s backed =
      carry_out-IsBacked base rest (maybe_write py a.answers a.table a.hour_start s)
        (maybe_write-IsBacked base a.answers a.table a.hour_start s backed)

  carry_out-written :
      (k : Key) (rest : List Attempt) (s : Writer)
      → member k s.written ≡ true
      → member k (carry_out py rest s).written ≡ true
  unfolding carry_out
  carry_out-written k [] s m = m
  carry_out-written k (a ∷ rest) s m =
      carry_out-written k rest (maybe_write py a.answers a.table a.hour_start s)
        (maybe_write-written k a.answers a.table a.hour_start s m)

  carry_out-IsGood :
      (table : Text) (h : ℕ) (rest : List Attempt) (s : Writer)
      → Any (IsGood table h) rest
      → member (key_of py table h) (carry_out py rest s).written ≡ true
  unfolding carry_out
  carry_out-IsGood table h [] s m = elim m [ ]
  carry_out-IsGood table h (a ∷ rest) s (inr m) =
      carry_out-IsGood table h rest (maybe_write py a.answers a.table a.hour_start s) m
  carry_out-IsGood table h (a ∷ rest) s (inl (t, at, serves)) =
      carry_out-written (key_of py table h) rest (maybe_write py a.answers a.table a.hour_start s)
        (rw (t, at) (maybe_write-Serves a.answers table h s serves))

  -- An hour that is due, of one of the two tables, is in the lake when the run ends, found there by its
  -- listing or put by it, if each time that it may be attempted there are rows of it and the services answer.
  pub run_completes :
      (r : Run) (table : Text) (h : ℕ)
      → Any (λ t. t ≡ table) tables
      → IsDue r h
      → AllServe table h r
      → (s : Writer) × (run py r ≡ some s)
        × ((member (key_of py table h) (sync_written_set_from_s3 py r.pages []) ≡ true)
            ⊎ (0 < count (has_key py (key_of py table h)) s.puts))
  unfolding IsBacked
  run_completes r table h known due serves =
      let start = synced py r in
      (
        carry_out py (plan r) start,
        run-carry_out py r,
        carry_out-IsBacked start.written (plan r) start (λ k m. inl m) (key_of py table h)
            (carry_out-IsGood table h (plan r) start (plan-Any r table h known due serves)),
      )
