-- ===== src/Stream/Slots.antt =====
-- The partitions that the reconstruction reads cover its window.
use native.Mathlib.Decide.{dec_le}
use weather_demand_forecast.Prelude.{
  ℕ, zero, suc, ◌+◌, ◌-◌, ◌/◌, ◌≤◌, ◌<◌, ◌≡◌, refl, inl, inr, Any, length, arith,
}
use weather_demand_forecast.Stream.RedisOps.{w_1h}
use weather_demand_forecast.Stream.Reconstruct.{hours_from, window_slots}

hours_from-Any : (n h k : ℕ) → h ≤ k → k < h + n → Any (λ x. x ≡ k) (hours_from n h)
unfolding hours_from
hours_from-Any zero h k a b = absurd (omega arith)
hours_from-Any (suc n) h k a b = elim (dec_le k h) [
  | yes p ↦ inl (omega arith)
  | no p ↦ inr (hours_from-Any n (h + 1) k (omega arith) (omega arith))
]

length-hours_from : (n h : ℕ) → length (hours_from n h) ≡ n
unfolding hours_from
length-hours_from zero h = refl
length-hours_from (suc n) h = omega (arith, length-hours_from n (h + 1))

-- From one hour after the epoch on, exactly two hourly partitions are read, and each time in the last
-- hour up to `t_epoch`, both ends included, falls in one of them.
pub window_slots_cover :
    (t_epoch : ℕ)
    → w_1h ≤ t_epoch
    → (length (window_slots t_epoch) ≡ 2)
      × ((sim_epoch : ℕ)
          → t_epoch ≤ sim_epoch + w_1h
          → sim_epoch ≤ t_epoch
          → Any (λ hour. hour ≡ sim_epoch / w_1h) (window_slots t_epoch))
unfolding window_slots
window_slots_cover t_epoch late = (
  omega (
    arith,
    length-hours_from (t_epoch / w_1h + 1 - (t_epoch - w_1h) / w_1h) ((t_epoch - w_1h) / w_1h),
  ),
  λ s a b. hours_from-Any _ _ (s / w_1h) (omega arith) (omega arith),
)
