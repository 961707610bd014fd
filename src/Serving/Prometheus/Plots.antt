-- ===== src/Serving/Prometheus/Plots.antt =====
-- The lines of a history of drift, and the points of a line.
use mathlib.Core.Path.{subst}
use weather_demand_forecast.Floats.{Floats}
use weather_demand_forecast.Prelude.{
  ℕ, ◌≡◌, refl, sym, ◌⊎◌, inl, inr, String, Bool, false, List, [], ◌∷◌, Option, none, some,
  if◌then◌else◌,
}
use weather_demand_forecast.Ingestor.Consumers.{is_empty}
use weather_demand_forecast.Serving.Prometheus.{finite, get_or_empty}
use weather_demand_forecast.Serving.Prometheus.History.{Ranged, Point, Line, lines, points}

module _ (fl : Floats) (to_float : String → Option fl.Float) (is_finite : fl.Float → Bool) where
  -- the number of a text, if it is finite
  abbrev pub sample_of : String → Option fl.Float
  sample_of text = elim (to_float text) [
    | none ↦ none
    | some v ↦ if is_finite v then some v else none
  ]

  -- the points of a series: its finite samples at their times, rounded, in their order
  abbrev pub IsPlot : List (ℕ × String) → List (Point fl to_float is_finite) → Type 0
  IsPlot [] ps = ps ≡ []
  IsPlot ((t, text) ∷ rest) ps =
      ((sample_of text ≡ none) × IsPlot rest ps)
      ⊎ ((v : fl.Float) × (sample_of text ≡ some v)
          × (qs : List (Point fl to_float is_finite)) × (ps
              ≡ record { ts = t; score = fl.round v 6 } ∷ qs)
          × IsPlot rest qs)

  points-IsPlot :
      (samples : List (ℕ × String)) → IsPlot samples (points fl to_float is_finite samples)
  unfolding points
  points-IsPlot [] = refl
  points-IsPlot ((t, text) ∷ rest) =
      go (finite fl to_float is_finite text) refl (points-IsPlot rest)
    where
      go :
          (o : Option fl.Float)
          → finite fl to_float is_finite text ≡ o
          → IsPlot rest (points fl to_float is_finite rest)
          → IsPlot ((t, text) ∷ rest) (points fl to_float is_finite ((t, text) ∷ rest))
      go none e h = rw (e, points) (inl (refl, h))
      go (some v) e h = rw (e, points) (inr (v, refl, _, refl, h))

  -- The lines of these series: one for each series that has a point, in their order.
  abbrev pub IsLines : List Ranged → List (Line fl to_float is_finite) → Type 0
  IsLines [] ls = ls ≡ []
  IsLines (r ∷ rs) ls =
      (IsPlot r.values [] × IsLines rs ls)
      ⊎ ((l : Line fl to_float is_finite) × (rest : List (Line fl to_float is_finite)) × (ls
            ≡ l ∷ rest)
          × (l.feature ≡ get_or_empty "feature" r.metric)
          × IsPlot r.values l.points
          × (is_empty l.points ≡ false)
          × IsLines rs rest)

  abbrev line_of : Ranged → Line fl to_float is_finite
  line_of r = record {
    feature = get_or_empty "feature" r.metric;
    points = points fl to_float is_finite r.values;
  }

  lines-none :
      (r : Ranged) (rs : List Ranged)
      → points fl to_float is_finite r.values ≡ []
      → lines fl to_float is_finite (r ∷ rs) ≡ lines fl to_float is_finite rs
  unfolding lines
  lines-none r rs e = rw (e, lines) refl

  lines-cons :
      (r : Ranged) (rs : List Ranged) {p : Point fl to_float is_finite}
      {ps : List (Point fl to_float is_finite)}
      → points fl to_float is_finite r.values ≡ p ∷ ps
      → lines fl to_float is_finite (r ∷ rs) ≡ line_of r ∷ lines fl to_float is_finite rs
  unfolding lines
  lines-cons r rs e = rw (e, lines) refl

  pub lines-IsLines : (rs : List Ranged) → IsLines rs (lines fl to_float is_finite rs)
  unfolding lines
  lines-IsLines [] = refl
  lines-IsLines (r ∷ rs) = go (points fl to_float is_finite r.values) refl (lines-IsLines rs)
    where
      go :
          (ps : List (Point fl to_float is_finite))
          → points fl to_float is_finite r.values ≡ ps
          → IsLines rs (lines fl to_float is_finite rs)
          → IsLines (r ∷ rs) (lines fl to_float is_finite (r ∷ rs))
      go [] e rest = inl (
        subst (IsPlot r.values) e (points-IsPlot r.values),
        subst (IsLines rs) (sym (lines-none r rs e)) rest,
      )
      go (p ∷ ps) e rest =
          subst (IsLines (r ∷ rs)) (sym (lines-cons r rs e))
            (inr (line_of r, _, refl, refl, points-IsPlot r.values, rw e refl, rest))
