-- ===== src/Ingestor/Hourly/Reading.antt =====
-- The key that the writer gives an object is read back as the table, the date and the hour.
use mathlib.Core.List.{append_assoc}
use weather_demand_forecast.Prelude.{
  ℕ, zero, suc, ◌+◌, ◌/◌, ◌%◌, ◌<◌, ◌≡◌, refl, ap, ◌∙◌, true, false, [], ◌∷◌, ◌++◌, Option, some,
  All, length, arith, ◌==◌, ==_refl, ℕ_eq,
}
use weather_demand_forecast.Prelude.Texts.{Text, codes}
use weather_demand_forecast.Ingestor.Hourly.Keys.{
  s3_key, and_then, strip, segment, is_digit, digits, date, int_of, at_end, match_tail,
  match_segment, match_here, parse_s3_key,
}

strip-append : (p s : Text) → strip p (p ++ s) ≡ some s
unfolding strip
strip-append [] s = refl
strip-append (c ∷ p) s = rw (==_refl c, strip-append p s) refl

-- a segment of a path
abbrev pub IsSegment : Text → Type 0
IsSegment t = All (λ c. (c == b'/') ≡ false) t

segment-append : (t s : Text) → IsSegment t → segment (t ++ b'/' ∷ s) ≡ (t, b'/' ∷ s)
unfolding segment
segment-append [] s h = refl
segment-append (c ∷ t) s h = rw (h.0, segment-append t s h.1) refl

module _ (digit : ℕ → Option ℕ) where
  -- n digits
  abbrev pub IsNumber : ℕ → Text → Type 0
  IsNumber n t = (length t ≡ n) × All (λ c. is_digit digit c ≡ true) t

  -- a date as strftime("%Y-%m-%d") writes it
  abbrev pub IsDate : Text → Type 0
  IsDate dt =
      (y : Text) × (m : Text) × (d : Text) × IsNumber 4 y
      × IsNumber 2 m
      × IsNumber 2 d
      × (dt ≡ y ++ b'-' ∷ (m ++ b'-' ∷ d))

  digits-append : (n : ℕ) (t s : Text) → IsNumber n t → digits digit n (t ++ s) ≡ some (t, s)
  unfolding digits and_then
  digits-append zero [] s h = refl
  digits-append (suc n) [] s h = cc
  digits-append zero (c ∷ t) s h = cc
  digits-append (suc n) (c ∷ t) s (len, ds) =
      rw (ds.0, digits-append n t s (omega (arith, len), ds.1)) refl

  date-append : (dt s : Text) → IsDate dt → date digit (dt ++ s) ≡ some (dt, s)
  unfolding date and_then strip
  date-append dt s (y, m, d, hy, hm, hd, eq) =
      rw
        (
          eq,
          append_assoc,
          append_assoc,
          digits-append 4 y (b'-' ∷ (m ++ b'-' ∷ (d ++ s))) hy,
          digits-append 2 m (b'-' ∷ (d ++ s)) hm,
          digits-append 2 d s hd,
        )
        refl

  -- what the value of a character has to be for int() to read what {hour:02d} writes
  abbrev pub KnowsAscii : Type 0
  KnowsAscii = (n : ℕ) → n < 10 → digit (48 + n) ≡ some n

  hour-IsNumber :
      KnowsAscii → (hour : ℕ) → hour < 24 → IsNumber 2 ((48 + hour / 10) ∷ (48 + hour % 10) ∷ [])
  unfolding is_digit
  hour-IsNumber ascii hour h = (
    refl,
    (
      rw (ascii (hour / 10) (omega arith), is_digit) refl,
      (rw (ascii (hour % 10) (omega arith), is_digit) refl, tt),
    ),
  )

  int_of-hour :
      KnowsAscii
      → (hour : ℕ) → hour < 24
      → int_of digit 0 ((48 + hour / 10) ∷ (48 + hour % 10) ∷ []) ≡ hour
  unfolding int_of
  int_of-hour ascii hour h =
      rw (ascii (hour % 10) (omega arith), int_of, ascii (hour / 10) (omega arith)) (omega arith)

  match_tail-key :
      KnowsAscii
      → (table dt : Text) (hour : ℕ) → IsDate dt
      → hour < 24
      → match_tail digit table (
          codes "/dt="
          ++ (dt
              ++ (codes "/hour=" ++ (48 + hour / 10) ∷ (48 + hour % 10) ∷ codes "/data.parquet")))
        ≡ some (table, dt, hour)
  unfolding match_tail strip and_then at_end
  match_tail-key ascii table dt hour hd h =
      let number : Text = (48 + hour / 10) ∷ (48 + hour % 10) ∷ [] in
      rw
        (
          date-append dt (codes "/hour=" ++ number ++ codes "/data.parquet") hd,
          digits-append 2 number (codes "/data.parquet") (hour-IsNumber ascii hour h),
          int_of-hour ascii hour h,
        )
        refl

  match_here-key :
      KnowsAscii
      → (c : ℕ) (table dt : Text) (hour : ℕ) → IsSegment (c ∷ table)
      → IsDate dt
      → hour < 24
      → match_here digit (s3_key (c ∷ table) dt hour) ≡ some (c ∷ table, dt, hour)
  unfolding match_here match_segment s3_key strip and_then
  match_here-key ascii c table dt hour ht hd h =
      let hour_on = codes "/hour=" ++ (48 + hour / 10) ∷ (48 + hour % 10) ∷ codes "/data.parquet" in
      ap (match_segment digit) (segment-append (c ∷ table) (codes "dt=" ++ (dt ++ hour_on)) ht)
      ∙ match_tail-key ascii (c ∷ table) dt hour hd h

  -- The key that an object is put under is read back as the table, the date and the hour that it was made
  -- of, for a table whose name is not empty and has no slash, a date as strftime writes it and an hour of
  -- the day, where the ten digits are known.
  pub parse_s3_key-s3_key :
      KnowsAscii
      → (c : ℕ) (table dt : Text) (hour : ℕ) → IsSegment (c ∷ table)
      → IsDate dt
      → hour < 24
      → parse_s3_key digit (s3_key (c ∷ table) dt hour) ≡ some (c ∷ table, dt, hour)
  unfolding parse_s3_key s3_key
  parse_s3_key-s3_key ascii c table dt hour ht hd h =
      rw (parse_s3_key, match_here-key ascii c table dt hour ht hd h) refl
