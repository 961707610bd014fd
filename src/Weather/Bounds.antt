-- ===== src/Weather/Bounds.antt =====
-- The ranges of a reading, and its condition.
use weather_demand_forecast.Prelude.{
  ℕ, ◌≤◌, ◌≡◌, refl, ◌⊎◌, inl, inr, String, true, false, List, [], ◌∷◌, String_eq, Any, Bool-cases,
  arith,
}
use weather_demand_forecast.Json.{ℤ, pos, negsuc}
use weather_demand_forecast.Numbers.{Numbers, InRange, clamp-InRange, lt_int}
use weather_demand_forecast.Weather.{
  Time, City, Random, generate_reading, seed_of, humidity, cloud_cover, precip_probability,
  precip_mm, condition,
}

abbrev pub wet : List String
wet = "HEAVY_RAIN" ∷ "RAIN" ∷ "DRIZZLE" ∷ []

abbrev pub dry : List String
dry = "CLOUDY" ∷ "MOSTLY_CLOUDY" ∷ "PARTLY_CLOUDY_DAY" ∷ "MOSTLY_CLEAR" ∷ "CLEAR_DAY" ∷ []

-- One of the labels of rain; or one of the others, without rain.
abbrev pub Agrees : {F : Type 0} → F → String → F → Type 0
Agrees none label mm = Any (λ c. c ≡ label) wet ⊎ (Any (λ c. c ≡ label) dry × (mm ≡ none))

module _ (num : Numbers) where
  open num use {lit}

  condition-wet :
      (cloud prob : ℤ) → lt_int prob 20 ≡ false → Any (λ c. c ≡ condition num cloud prob) wet
  unfolding condition
  condition-wet cloud prob h = elim (Bool-cases (lt_int prob 70)) [
    | inr e ↦ rw e (inl refl)
    | inl e ↦ elim (Bool-cases (lt_int prob 40)) [
      | inr f ↦ rw (e, f) (inr (inl refl))
      | inl f ↦ rw (e, f, h) (inr (inr (inl refl)))
    ]
  ]

  below : (z : ℤ) (m n : ℕ) → m ≤ n → lt_int z m ≡ true → lt_int z n ≡ true
  unfolding lt_int
  below (pos k) m n h e = ground arith
  below (negsuc k) m n h e = refl

  condition-dry :
      (cloud prob : ℤ) → lt_int prob 20 ≡ true → Any (λ c. c ≡ condition num cloud prob) dry
  unfolding condition
  condition-dry cloud prob h =
      rw (below prob 20 70 (omega arith) h, below prob 20 40 (omega arith) h, h)
        (elim (Bool-cases (lt_int cloud 90)) [
          | inr a ↦ rw a (inl refl)
          | inl a ↦ elim (Bool-cases (lt_int cloud 70)) [
            | inr b ↦ rw (a, b) (inr (inl refl))
            | inl b ↦ elim (Bool-cases (lt_int cloud 40)) [
              | inr c ↦ rw (a, b, c) (inr (inr (inl refl)))
              | inl c ↦ elim (Bool-cases (lt_int cloud 20)) [
                | inr d ↦ rw (a, b, c, d) (inr (inr (inr (inl refl))))
                | inl d ↦ rw (a, b, c, d) (inr (inr (inr (inr (inl refl)))))
              ]
            ]
          ]
        ])

  agrees :
      (cloud prob : ℤ) (rng : Random num)
      → Agrees (lit 0 1) (condition num cloud prob) (precip_mm num prob rng)
  unfolding precip_mm
  agrees cloud prob rng = elim (Bool-cases (lt_int prob 20)) [
    | inl h ↦ inr (condition-dry cloud prob h, rw h refl)
    | inr h ↦ inl (condition-wet cloud prob h)
  ]

  -- Whatever the draws: the humidity of a reading is between 10 and 100 percent, its cloud cover and its probability
  -- of rain are between 0 and 100; and its condition is one of the three labels of rain, or one of the other five
  -- and there is no precipitation.
  pub generate_reading_bounds :
      (random : num.Float × num.Float × ℕ × ℕ × ℕ × ℕ → Random num) (city : City num) (ts : Time)
      → InRange 10 100 (generate_reading num random city ts).humidity_pct
        × InRange 0 100 (generate_reading num random city ts).cloud_cover_pct
        × InRange 0 100 (generate_reading num random city ts).precip_probability_pct
        × Agrees
            (lit 0 1)
            (generate_reading num random city ts).condition
            (generate_reading num random city ts).precip_mm
  unfolding generate_reading humidity cloud_cover precip_probability
  generate_reading_bounds random city ts =
      let rng = random (seed_of num city ts) in
      let cloud = cloud_cover num (humidity num city ts rng) rng in
      let prob = precip_probability num (humidity num city ts rng) cloud in
      (
        clamp-InRange 10 100 _ (omega arith),
        clamp-InRange 0 100 _ (omega arith),
        clamp-InRange 0 100 _ (omega arith),
        agrees cloud prob rng,
      )
