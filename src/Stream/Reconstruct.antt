-- ===== src/Stream/Reconstruct.antt =====
-- tools/reconstruct.py: the same aggregates by a query over the rows of the lake.
use weather_demand_forecast.Floats.{Floats}
use weather_demand_forecast.Prelude.{
  ℕ, zero, suc, ◌+◌, ◌-◌, ◌/◌, String, Bool, true, false, ◌&&◌, List, [], ◌∷◌, ◌++◌, map, length,
  filter, leb, ◌==◌, String_eq, if◌then◌else◌,
}
use weather_demand_forecast.Stream.RedisOps.{Event, w_5m, w_15m, w_1h, in_window}

unfoldable pub has : String → List String → Bool
has x [] = false
has x (y ∷ ys) = if y == x then true else has x ys

-- COUNT(DISTINCT …): the ids in the order of their first row
unfoldable pub distinct : List String → List String → List String
unfolding has
distinct seen [] = seen
distinct seen (x ∷ xs) = distinct (if has x seen then seen else seen ++ x ∷ []) xs

-- the rows that `CASE WHEN … THEN event_id END` counts, within the WHERE clause of the query
abbrev pub selects : String → String → ℕ → ℕ → Event → Bool
selects route event_type window t_epoch row =
    (row.route_id == route && in_window w_1h t_epoch row.sim_epoch)
    && (row.event_type == event_type && leb t_epoch (row.sim_epoch + window))

abbrev pub id_of : Event → String
id_of row = row.event_id

unfoldable pub count_distinct : String → String → ℕ → ℕ → List Event → ℕ
unfolding distinct filter
count_distinct route event_type window t_epoch rows =
    length (distinct [] (map id_of (filter (selects route event_type window t_epoch) rows)))

pub record WindowResult (F : Type 0) : Type 0 where
  pub searches_5m : F
  pub bookings_15m : F
  pub look_to_book_1h : F
  pub searches_1h : F
  pub bookings_1h : F

module _ (fl : Floats) where
  open fl use {Float, of_ℕ, div, max, round}

  -- the query and what is made of its row
  unfoldable pub reconstruct : String → ℕ → List Event → WindowResult Float
  reconstruct route t_epoch rows =
      let searches_1h = of_ℕ (count_distinct route "search" w_1h t_epoch rows) in
      let bookings_1h = of_ℕ (count_distinct route "booking" w_1h t_epoch rows) in
      record {
        searches_5m = of_ℕ (count_distinct route "search" w_5m t_epoch rows);
        bookings_15m = of_ℕ (count_distinct route "booking" w_15m t_epoch rows);
        look_to_book_1h = round (div bookings_1h (max (of_ℕ 1) searches_1h)) 6;
        searches_1h = searches_1h;
        bookings_1h = bookings_1h;
      }

unfoldable pub hours_from : ℕ → ℕ → List ℕ
hours_from zero h = []
hours_from (suc n) h = h ∷ hours_from n (h + 1)

-- The hours since the epoch whose partitions are read; the source writes each as a date and an hour.
unfoldable pub window_slots : ℕ → List ℕ
unfolding hours_from
window_slots t_epoch =
    let lo_h = (t_epoch - w_1h) / w_1h in
    let hi_h = t_epoch / w_1h in hours_from (hi_h + 1 - lo_h) lo_h
