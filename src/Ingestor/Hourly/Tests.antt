-- ===== src/Ingestor/Hourly/Tests.antt =====
-- The hourly writer on concrete tables and clocks.
use weather_demand_forecast.Prelude.{
  ℕ, ◌+◌, ◌-◌, ◌*◌, ◌/◌, ◌%◌, ◌≤◌, ◌<◌, ◌≡◌, refl, ◌⊎◌, inl, inr, true, [], ◌∷◌, ◌++◌, Option, none,
  some, count, leb, if◌then◌else◌, arith, ◌&&◌,
}
use weather_demand_forecast.Prelude.Texts.{codes}
use weather_demand_forecast.Stream.RedisOps.{second, w_1h}
use weather_demand_forecast.Ingestor.Hourly.Keys.{s3_key, is_digit}
use weather_demand_forecast.Ingestor.Hourly.{
  Python, Key, Answers, Writer, Run, member, key_of, sync_written_set_from_s3, run,
}
use weather_demand_forecast.Ingestor.Hourly.Reading.{IsDate, KnowsAscii}
use weather_demand_forecast.Ingestor.Hourly.Schedule.{plan, carry_out, synced, run-carry_out}
use weather_demand_forecast.Ingestor.Hourly.Once.{has_key, run-uploads_once}
use weather_demand_forecast.Ingestor.Hourly.Complete.{Serves, run_completes}
use weather_demand_forecast.Ingestor.Hourly.Missed.{is_at, startup_hour_missed}
use weather_demand_forecast.Ingestor.Hourly.Restart.{listed_not_uploaded}

-- the ten digits, and the days of January 2024
abbrev ascii_digit : ℕ → Option ℕ
ascii_digit c = if leb 48 c && leb c 57 then some (c - 48) else none

abbrev python : Python
python = record {
  strftime =
      λ t. codes "2024-01-" ++ (48 + t / (24 * w_1h) / 10 % 10) ∷ (48 + t / (24 * w_1h) % 10) ∷ [];
  to_float = λ d. 0;
  digit = ascii_digit;
}

ascii_digit-KnowsAscii : KnowsAscii ascii_digit
ascii_digit-KnowsAscii n h = ground (arith, h)

january_third-IsDate : IsDate ascii_digit (codes "2024-01-03")
unfolding is_digit
january_third-IsDate = (
  codes "2024",
  codes "01",
  codes "03",
  (refl, (refl, (refl, (refl, (refl, tt))))),
  (refl, (refl, (refl, tt))),
  (refl, (refl, (refl, tt))),
  refl,
)

abbrev hour_80 : ℕ
hour_80 = 80 * w_1h

-- one row in each hour, and an S3 that takes every object
abbrev serving : Answers
serving = record {
  raw = λ table h. some (record { ingested_at = h; columns = [] } ∷ []);
  takes = λ table h. true;
}

-- starts in hour 79, tracks from there and ends in hour 81
abbrev a_run : Run
a_run = record {
  pages = some (s3_key (codes "demand_events") (codes "2024-01-03") 6 ∷ []) ∷ none ∷ [];
  startup = record { now = 79 * w_1h; answers = serving };
  tracked_from = 79 * w_1h + second;
  rounds = record { now = 79 * w_1h + 60 * second; answers = serving } ∷ [];
  last = record { now = 81 * w_1h; answers = serving };
}

run-carry_out_example :
    run python a_run ≡ some (carry_out python (plan a_run) (synced python a_run))
run-carry_out_example = run-carry_out python a_run

run-uploads_once_example :
    (s : Writer) × (run python a_run ≡ some s)
    × ((k : Key)
        → (count (has_key python k) s.puts ≤ 1)
          × (member k (sync_written_set_from_s3 python a_run.pages []) ≡ true
              → count (has_key python k) s.puts ≡ 0))
run-uploads_once_example = run-uploads_once python a_run

serving-Serves : Serves (codes "demand_events") hour_80 serving
unfolding Serves
serving-Serves = (_, refl, refl, refl)

run_completes_example :
    (s : Writer) × (run python a_run ≡ some s)
    × ((member
            (key_of python (codes "demand_events") hour_80)
            (sync_written_set_from_s3 python a_run.pages [])
          ≡ true)
        ⊎ (0 < count (has_key python (key_of python (codes "demand_events") hour_80)) s.puts))
run_completes_example =
    run_completes python a_run (codes "demand_events") hour_80 (inl refl)
      (inr (refl, omega arith, omega arith)) (serving-Serves, (serving-Serves, tt), serving-Serves)

-- the loop starts one hour later
abbrev slow_start : Run
slow_start = record a_run { tracked_from = 80 * w_1h + second }

startup_hour_missed_example :
    (s : Writer) × (run python slow_start ≡ some s) × (count (is_at (79 * w_1h)) s.puts ≡ 0)
startup_hour_missed_example =
    startup_hour_missed python slow_start (79 * w_1h) (omega arith) (omega arith) (omega arith)

listed_not_uploaded_example :
    (s : Writer) × (run python a_run ≡ some s)
    × (count (has_key python (key_of python (codes "demand_events") (78 * w_1h))) s.puts ≡ 0)
listed_not_uploaded_example =
    listed_not_uploaded python a_run 100 (codes "emand_events") (78 * w_1h) ascii_digit-KnowsAscii
      (
        refl,
        (
          refl,
          (
            refl,
            (refl, (refl, (refl, (refl, (refl, (refl, (refl, (refl, (refl, (refl, tt)))))))))),
          ),
        ),
      )
      january_third-IsDate (inl refl)
