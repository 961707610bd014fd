-- ===== src/Stream/Buffer/Parts.antt =====
-- What an upload does, and the keys of the partitions of a flush.
use weather_demand_forecast.Prelude.{
  ◌≡◌, ◌⊎◌, refl, false, Bool, ◌&&◌, List, [], ◌∷◌, All, Bool-cases, inl, inr, ◌==◌, ==_iff,
  String_eq, ℕ_eq, arith,
}
use weather_demand_forecast.Json.{Exc}
use weather_demand_forecast.Stream.Buffer.{
  Record, Part, Upload, taken, refused, fails, add_to, partition,
}

pub Upload-cases : (u : Upload) → ((u ≡ taken) ⊎ (u ≡ refused)) ⊎ ((e : Exc) × (u ≡ fails e))
Upload-cases taken = inl (inl refl)
Upload-cases refused = inl (inr refl)
Upload-cases (fails e) = inr (e, refl)

abbrev pub same_part : Part → Part → Bool
same_part p q = p.dt == q.dt && p.hour == q.hour

pub same_part_sym : (p q : Part) → same_part p q ≡ same_part q p
same_part_sym p q =
    ground (arith, ==_iff p.dt q.dt, ==_iff q.dt p.dt, ==_iff p.hour q.hour, ==_iff q.hour p.hour)

-- no two parts have the same key
unfoldable pub IsDistinct : List Part → Type 0
IsDistinct [] = Unit
IsDistinct (p ∷ ps) = All (λ q. same_part p q ≡ false) ps × IsDistinct ps

apart-add_to :
    (p : Part) (r : Record) (ps : List Part)
    → (p.dt == r.dt && p.hour == r.hour) ≡ false
    → All (λ q. same_part p q ≡ false) ps
    → All (λ q. same_part p q ≡ false) (add_to r ps)
unfolding add_to
apart-add_to p r [] e all = (e, tt)
apart-add_to p r (q ∷ ps) e all = elim (Bool-cases (q.dt == r.dt && q.hour == r.hour)) [
  | inl h ↦ rw h all
  | inr h ↦ rw h (all.0, apart-add_to p r ps e all.1)
]

IsDistinct-add_to : (r : Record) (ps : List Part) → IsDistinct ps → IsDistinct (add_to r ps)
unfolding add_to IsDistinct
IsDistinct-add_to r [] d = (tt, tt)
IsDistinct-add_to r (p ∷ ps) d = elim (Bool-cases (p.dt == r.dt && p.hour == r.hour)) [
  | inl h ↦ rw h d
  | inr h ↦ rw h (apart-add_to p r ps h d.0, IsDistinct-add_to r ps d.1)
]

pub IsDistinct-partition :
    (rs : List Record) (ps : List Part) → IsDistinct ps → IsDistinct (partition rs ps)
unfolding partition
IsDistinct-partition [] ps d = d
IsDistinct-partition (r ∷ rs) ps d =
    IsDistinct-partition rs (add_to r ps) (IsDistinct-add_to r ps d)
