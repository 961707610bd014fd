-- ===== src/Ingestor/Hourly/Schedule.antt =====
-- The attempts that a run makes, without its loops: which table and hour, in which order.
use weather_demand_forecast.Prelude.{
  ℕ, zero, suc, ◌+◌, ◌-◌, ◌*◌, ◌/◌, ◌≤◌, ◌<◌, ◌≡◌, refl, sym, ap, ◌∙◌, List, [], ◌∷◌, ◌++◌, some,
  arith, ltb, ltb→lt, Bool-cases, inl, inr, if◌then◌else◌,
}
use weather_demand_forecast.Prelude.Texts.{Text}
use weather_demand_forecast.Stream.RedisOps.{w_1h}
use weather_demand_forecast.Ingestor.Hourly.{
  Python, Answers, Writer, Round, Run, tables, floor_hour, lookback_hours, maybe_write,
  write_tables, flush_rolled_hours, fuel_for, roll, rounds, catch_up_hours, catch_up,
  sync_written_set_from_s3, run,
}

pub record Attempt : Type 0 where
  pub answers : Answers
  pub table : Text
  pub hour_start : ℕ

abbrev pub of_tables : Answers → ℕ → List Text → List Attempt
of_tables a h [] = []
of_tables a h (t ∷ ts) = record { answers = a; table = t; hour_start = h } ∷ of_tables a h ts

-- every table at each of the hours
abbrev pub of_hours : Answers → List ℕ → List Attempt
of_hours a [] = []
of_hours a (h ∷ hs) = of_tables a h tables ++ of_hours a hs

abbrev pub every_hour : ℕ → ℕ → List ℕ
every_hour zero h = []
every_hour (suc n) h = h ∷ every_hour n (h + w_1h)

-- how many hours start in [from_hour, up_to_hour), counted from the first
abbrev pub hour_count : ℕ → ℕ → ℕ
hour_count from_hour up_to_hour = (up_to_hour - from_hour + (w_1h - 1)) / w_1h

abbrev pub rolled : ℕ → ℕ → List ℕ
rolled from_hour up_to_hour = every_hour (hour_count from_hour up_to_hour) from_hour

abbrev pub back : ℕ → ℕ → ℕ → List ℕ
back zero k now = []
back (suc n) k now = floor_hour (now - k * w_1h) ∷ back n (k + 1) now

abbrev pub later : ℕ → ℕ → ℕ
later tracked now_hour = if ltb tracked now_hour then now_hour else tracked

abbrev pub rollovers : List Round → Round → ℕ → List Attempt
rollovers [] last tracked = of_hours last.answers (rolled tracked (floor_hour last.now))
rollovers (r ∷ rs) last tracked =
    of_hours r.answers (rolled tracked (floor_hour r.now))
    ++ rollovers rs last (later tracked (floor_hour r.now))

abbrev pub plan : Run → List Attempt
plan r =
    of_hours r.startup.answers (back lookback_hours 1 r.startup.now)
    ++ rollovers r.rounds r.last (floor_hour r.tracked_from)

module _ (py : Python) where
  unfoldable pub carry_out : List Attempt → Writer → Writer
  carry_out [] s = s
  carry_out (a ∷ rest) s = carry_out rest (maybe_write py a.answers a.table a.hour_start s)

  abbrev pub synced : Run → Writer
  synced r = record { written = sync_written_set_from_s3 py r.pages []; puts = [] }

  carry_out-append :
      (xs ys : List Attempt) (s : Writer) → carry_out (xs ++ ys) s ≡ carry_out ys (carry_out xs s)
  unfolding carry_out
  carry_out-append [] ys s = refl
  carry_out-append (x ∷ xs) ys s =
      carry_out-append xs ys (maybe_write py x.answers x.table x.hour_start s)

  write_tables-carry_out :
      (a : Answers) (ts : List Text) (h : ℕ) (s : Writer)
      → write_tables py a ts h s ≡ carry_out (of_tables a h ts) s
  unfolding write_tables carry_out
  write_tables-carry_out a [] h s = refl
  write_tables-carry_out a (t ∷ ts) h s = write_tables-carry_out a ts h (maybe_write py a t h s)

  of_hours_cons :
      (a : Answers) (h : ℕ) (hs : List ℕ) (s : Writer)
      → carry_out (of_hours a hs) (write_tables py a tables h s) ≡ carry_out (of_hours a (h ∷ hs)) s
  of_hours_cons a h hs s =
      ap (carry_out (of_hours a hs)) (write_tables-carry_out a tables h s)
      ∙ sym (carry_out-append (of_tables a h tables) (of_hours a hs) s)

  flush-carry_out :
      (n fuel : ℕ) (a : Answers) (cursor up_to : ℕ) (s : Writer)
      → n < fuel
      → up_to ≤ cursor + n * w_1h
      → cursor + n * w_1h < up_to + w_1h
      → flush_rolled_hours py fuel a cursor up_to s
        ≡ some (carry_out (of_hours a (every_hour n cursor)) s)
  unfolding flush_rolled_hours carry_out
  flush-carry_out n zero a cursor up_to s f lo hi = absurd (omega (arith, f))
  flush-carry_out zero (suc fuel) a cursor up_to s f lo hi = elim (Bool-cases (ltb cursor up_to)) [
    | inl e ↦ absurd (ground (arith, e, lo))
    | inr e ↦ rw e refl
  ]
  flush-carry_out (suc n) (suc fuel) a cursor up_to s f lo hi =
      elim (Bool-cases (ltb cursor up_to)) [
        | inl e ↦ rw e (
            flush-carry_out n fuel a (cursor + w_1h) up_to (write_tables py a tables cursor s)
              (omega (arith, f)) (omega (arith, lo)) (omega (arith, hi))
            ∙ ap some (of_hours_cons a cursor (every_hour n (cursor + w_1h)) s))
        | inr e ↦ absurd (ground (arith, e, hi))
      ]

  roll-carry_out :
      (a : Answers) (tracked now_hour : ℕ) (s : Writer)
      → roll py a tracked now_hour s ≡ some (carry_out (of_hours a (rolled tracked now_hour)) s)
  unfolding roll carry_out
  roll-carry_out a tracked now_hour s = elim (Bool-cases (ltb tracked now_hour)) [
    | inl e ↦
        let before = ltb→lt tracked now_hour e in
        rw e (
          flush-carry_out (hour_count tracked now_hour) (fuel_for now_hour) a tracked now_hour s
            (omega (arith, before)) (omega (arith, before)) (omega (arith, before)))
    | inr e ↦
        let none_rolled : hour_count tracked now_hour ≡ 0 = ground (arith, e) in
        rw (e, ap (λ n. carry_out (of_hours a (every_hour n tracked)) s) none_rolled) refl
  ]

  rounds-carry_out :
      (rs : List Round) (last : Round) (tracked : ℕ) (s : Writer)
      → rounds py rs last tracked s ≡ some (carry_out (rollovers rs last tracked) s)
  unfolding rounds
  rounds-carry_out [] last tracked s = roll-carry_out last.answers tracked (floor_hour last.now) s
  rounds-carry_out (r ∷ rs) last tracked s =
      let now_hour = floor_hour r.now in
      let first = of_hours r.answers (rolled tracked now_hour) in
      rw (rounds, roll-carry_out r.answers tracked now_hour s)
        (rounds-carry_out rs last (later tracked now_hour) (carry_out first s)
          ∙ ap some (sym (carry_out-append first (rollovers rs last (later tracked now_hour)) s)))

  catch_up_hours-carry_out :
      (n k : ℕ) (a : Answers) (now : ℕ) (s : Writer)
      → catch_up_hours py n k a now s ≡ carry_out (of_hours a (back n k now)) s
  unfolding catch_up_hours carry_out
  catch_up_hours-carry_out zero k a now s = refl
  catch_up_hours-carry_out (suc n) k a now s =
      catch_up_hours-carry_out n (k + 1) a now
        (write_tables py a tables (floor_hour (now - k * w_1h)) s)
      ∙ of_hours_cons a (floor_hour (now - k * w_1h)) (back n (k + 1) now) s

  -- A run always comes to its end, and makes exactly these attempts, each table at each hour: the 25 hours
  -- before the catch-up, latest first, then with every round the hours that start from the tracked one up to
  -- the round's own, which is the tracked one from then on.
  pub run-carry_out : (r : Run) → run py r ≡ some (carry_out (plan r) (synced r))
  unfolding run catch_up
  run-carry_out r =
      let caught = of_hours r.startup.answers (back lookback_hours 1 r.startup.now) in
      let rest = rollovers r.rounds r.last (floor_hour r.tracked_from) in
      ap (rounds py r.rounds r.last (floor_hour r.tracked_from))
        (catch_up_hours-carry_out lookback_hours 1 r.startup.answers r.startup.now (synced r))
      ∙ rounds-carry_out r.rounds r.last (floor_hour r.tracked_from) (carry_out caught (synced r))
      ∙ ap some (sym (carry_out-append caught rest (synced r)))
