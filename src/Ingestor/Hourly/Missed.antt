-- ===== src/Ingestor/Hourly/Missed.antt =====
-- An hour that ends between the catch-up and the start of the loop.
use weather_demand_forecast.Prelude.{
  ℕ, zero, suc, ◌+◌, ◌-◌, ◌*◌, ◌≤◌, ◌<◌, ◌≡◌, refl, ◌∙◌, some, Bool, false, List, [], ◌∷◌, All,
  All-append, count, count-append, ◌==◌, ℕ_eq, arith, Bool-cases, inl, inr,
}
use weather_demand_forecast.Prelude.Texts.{Text}
use weather_demand_forecast.Stream.RedisOps.{w_1h}
use weather_demand_forecast.Ingestor.Hourly.{
  Python, Put, Answers, Writer, Round, Run, Key_eq, lookback_hours, floor_hour, member, key_of,
  maybe_write, run,
}
use weather_demand_forecast.Ingestor.Hourly.Once.{Outcome, write_partition-Outcome}
use weather_demand_forecast.Ingestor.Hourly.Schedule.{
  Attempt, of_hours, every_hour, hour_count, rolled, back, later, rollovers, plan, carry_out,
  synced, run-carry_out,
}

abbrev pub is_at : ℕ → Put → Bool
is_at h p = p.hour_start == h

-- an attempt at another hour
abbrev IsElsewhere : ℕ → Attempt → Type 0
IsElsewhere h a = (a.hour_start == h) ≡ false

of_hours-All :
    (h : ℕ) (a : Answers) (hs : List ℕ)
    → All (λ x. (x == h) ≡ false) hs
    → All (IsElsewhere h) (of_hours a hs)
of_hours-All h a [] others = tt
of_hours-All h a (x ∷ hs) (o, others) = (o, (o, of_hours-All h a hs others))

earlier :
    (d now h : ℕ) → w_1h ≤ d → w_1h ≤ now → floor_hour now ≤ h → (floor_hour (now - d) == h) ≡ false
earlier d now h far late b = ground (arith, far, late, b)

back-All :
    (n k now h : ℕ)
    → 1 ≤ k
    → w_1h ≤ now
    → floor_hour now ≤ h
    → All (λ x. (x == h) ≡ false) (back n k now)
back-All zero k now h k1 late b = tt
back-All (suc n) k now h k1 late b = (
  earlier (k * w_1h) now h (omega (arith, k1)) late b,
  back-All n (k + 1) now h (omega (arith, k1)) late b,
)

every_hour-All : (n cursor h : ℕ) → h < cursor → All (λ x. (x == h) ≡ false) (every_hour n cursor)
every_hour-All zero cursor h b = tt
every_hour-All (suc n) cursor h b =
    (ground (arith, b), every_hour-All n (cursor + w_1h) h (omega (arith, b)))

rollovers-All :
    (rs : List Round) (last : Round) (tracked h : ℕ)
    → h < tracked
    → All (IsElsewhere h) (rollovers rs last tracked)
rollovers-All [] last tracked h b =
    of_hours-All h last.answers (rolled tracked (floor_hour last.now))
      (every_hour-All (hour_count tracked (floor_hour last.now)) tracked h b)
rollovers-All (r ∷ rs) last tracked h b =
    let now_hour = floor_hour r.now in
    All-append (IsElsewhere h) (of_hours r.answers (rolled tracked now_hour))
      (rollovers rs last (later tracked now_hour))
      (of_hours-All h r.answers (rolled tracked now_hour)
        (every_hour-All (hour_count tracked now_hour) tracked h b))
      (rollovers-All rs last (later tracked now_hour) h (ground (arith, b)))

module _ (py : Python) where
  maybe_write-elsewhere :
      (h : ℕ) (a : Answers) (table : Text) (at : ℕ) (s : Writer)
      → (at == h) ≡ false
      → count (is_at h) (maybe_write py a table at s).puts ≡ count (is_at h) s.puts
  unfolding maybe_write Outcome
  maybe_write-elsewhere h a table at s other =
      elim (Bool-cases (member (key_of py table at) s.written)) [
        | inl e ↦ rw e refl
        | inr e ↦
            elim (write_partition-Outcome py table at (a.raw table at) (a.takes table at) s.puts) [
              | inl w ↦ rw (e, w) refl
              | inr (p, w, t, there) ↦
                  rw (e, w) (ground (arith, other, there, count-append (is_at h) s.puts (p ∷ [])))
            ]
      ]

  carry_out-elsewhere :
      (h : ℕ) (rest : List Attempt) (s : Writer)
      → All (IsElsewhere h) rest
      → count (is_at h) (carry_out py rest s).puts ≡ count (is_at h) s.puts
  unfolding carry_out
  carry_out-elsewhere h [] s others = refl
  carry_out-elsewhere h (a ∷ rest) s (o, others) =
      carry_out-elsewhere h rest (maybe_write py a.answers a.table a.hour_start s) others
      ∙ maybe_write-elsewhere h a.answers a.table a.hour_start s o

  -- An hour that is not over at the catch-up but is over when the loop starts is put by no attempt of the
  -- run, whatever the services answer and however long the run lasts (times are at least an hour after the
  -- epoch).
  pub startup_hour_missed :
      (r : Run) (h : ℕ)
      → w_1h ≤ r.startup.now
      → floor_hour r.startup.now ≤ h
      → h < floor_hour r.tracked_from
      → (s : Writer) × (run py r ≡ some s) × (count (is_at h) s.puts ≡ 0)
  startup_hour_missed r h late from_hour up_to =
      let caught = of_hours r.startup.answers (back lookback_hours 1 r.startup.now) in
      let rest = rollovers r.rounds r.last (floor_hour r.tracked_from) in
      (
        carry_out py (plan r) (synced py r),
        run-carry_out py r,
        carry_out-elsewhere h (plan r) (synced py r) (
            All-append (IsElsewhere h) caught rest
              (of_hours-All h r.startup.answers (back lookback_hours 1 r.startup.now)
                (back-All lookback_hours 1 r.startup.now h (omega arith) late from_hour))
              (rollovers-All r.rounds r.last (floor_hour r.tracked_from) h up_to)),
      )
