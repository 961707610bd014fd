-- ===== src/Serving/Models/Latest.antt =====
-- Which version of a stage is loaded.
use mathlib.Core.Path.{subst}
use weather_demand_forecast.Prelude.{
  ◌≤◌, ◌≡◌, refl, inl, inr, String, Bool, true, false, List, [], ◌∷◌, Option, none, some, filter,
  ltb, All, Any, Bool-cases, arith, if◌then◌else◌, sym, ◌∙◌, ap,
}
use weather_demand_forecast.Serving.Models.{
  ModelVersion, max_version, max_of, in_stage, latest_in_stage,
}

-- the largest version of a list, and one of it
abbrev IsMax : ModelVersion → List ModelVersion → Type 0
IsMax m vs = Any (λ v. v ≡ m) vs × All (λ v. v.version ≤ m.version) vs

keep :
    (a v : ModelVersion) (vs : List ModelVersion) (m : ModelVersion)
    → Any (λ x. x ≡ m) (a ∷ vs)
    → Any (λ x. x ≡ m) (a ∷ v ∷ vs)
keep a v vs m (inl e) = inl e
keep a v vs m (inr h) = inr (inr h)

max_version-IsMax :
    (best : ModelVersion) (vs : List ModelVersion) → IsMax (max_version best vs) (best ∷ vs)
unfolding max_version
max_version-IsMax best [] = (inl refl, (omega arith, tt))
max_version-IsMax best (v ∷ vs) = elim (Bool-cases (ltb best.version v.version)) [
  | inl e ↦
      let (m, h) = max_version-IsMax v vs in
      subst (λ r. IsMax r (best ∷ v ∷ vs))
        (sym (ap (λ t. max_version (if t then v else best) vs) e))
        (inr m, (ground (arith, e, h.0), h))
  | inr e ↦
      let (m, h) = max_version-IsMax best vs in
      subst (λ r. IsMax r (best ∷ v ∷ vs))
        (sym (ap (λ t. max_version (if t then v else best) vs) e))
        (keep best v vs (max_version best vs) m, (h.0, (ground (arith, e, h.0), h.1)))
]

-- the answer for a stage: none when no version is in it, or the largest of those in it
abbrev pub IsLatest : String → List ModelVersion → Option ModelVersion → Type 0
IsLatest stage vs none = All (λ v. in_stage stage v ≡ false) vs
IsLatest stage vs (some m) =
    Any (λ v. v ≡ m) vs
    × (in_stage stage m ≡ true)
    × All (λ v. in_stage stage v ≡ true → v.version ≤ m.version) vs

-- two versions that are the highest of a stage are one number
at_most :
    (stage : String) (vs : List ModelVersion) (a b : ModelVersion)
    → Any (λ v. v ≡ a) vs
    → in_stage stage a ≡ true
    → All (λ v. in_stage stage v ≡ true → v.version ≤ b.version) vs
    → a.version ≤ b.version
at_most stage [] a b h staged all = elim h [ ]
at_most stage (v ∷ vs) a b (inl e) staged all =
    subst (λ x. x.version ≤ b.version) e (all.0 (ap (in_stage stage) e ∙ staged))
at_most stage (v ∷ vs) a b (inr h) staged all = at_most stage vs a b h staged all.1

pub same_latest :
    (stage : String) (vs : List ModelVersion) (a b : ModelVersion)
    → IsLatest stage vs (some a)
    → IsLatest stage vs (some b)
    → a.version ≡ b.version
same_latest stage vs a b ha hb =
    let below = at_most stage vs a b ha.0 ha.1 hb.2 in
    let above = at_most stage vs b a hb.0 hb.1 ha.2 in omega (arith, below, above)

module _ (p : ModelVersion → Bool) where
  filter-Any :
      (m : ModelVersion) (vs : List ModelVersion)
      → Any (λ v. v ≡ m) (filter p vs)
      → Any (λ v. v ≡ m) vs × (p m ≡ true)
  unfolding filter
  filter-Any m [] h = elim h [ ]
  filter-Any m (v ∷ vs) h = elim (Bool-cases (p v)) [
    | inl e ↦ elim (rw e at h) [
      | inl same ↦ (inl same, sym (ap p same) ∙ e)
      | inr more ↦ let (a, b) = filter-Any m vs more in (inr a, b)
    ]
    | inr e ↦ let (a, b) = filter-Any m vs (rw e at h) in (inr a, b)
  ]

  filter-All :
      (P : ModelVersion → Type 0) (vs : List ModelVersion)
      → All P (filter p vs)
      → All (λ v. p v ≡ true → P v) vs
  unfolding filter
  filter-All P [] h = tt
  filter-All P (v ∷ vs) h = elim (Bool-cases (p v)) [
    | inl e ↦ let (a, b) = rw e at h in (λ x. a, filter-All P vs b)
    | inr e ↦ (λ x. cc (e, x), filter-All P vs (rw e at h))
  ]

  filter-none : (vs : List ModelVersion) → filter p vs ≡ [] → All (λ v. p v ≡ false) vs
  unfolding filter
  filter-none [] h = tt
  filter-none (v ∷ vs) h = elim (Bool-cases (p v)) [
    | inl e ↦ cc (rw e at h)
    | inr e ↦ (e, filter-none vs (rw e at h))
  ]

max_of-IsLatest :
    (stage : String) (vs found : List ModelVersion)
    → filter (in_stage stage) vs ≡ found
    → IsLatest stage vs (max_of found)
unfolding max_of
max_of-IsLatest stage vs [] h = filter-none (in_stage stage) vs h
max_of-IsLatest stage vs (v ∷ found) h =
    let best = max_version v found in
    let (member, largest) = max_version-IsMax v found in
    let (here, staged) =
      filter-Any (in_stage stage) best vs (subst (λ l. Any (λ x. x ≡ best) l) (sym h) member) in
    (
      here,
      staged,
      filter-All (in_stage stage) (λ x. x.version ≤ best.version) vs
          (subst (λ l. All (λ x. x.version ≤ best.version) l) (sym h) largest),
    )

-- The version of a stage that is looked up is in the list, is in that stage, and no other of the stage is
-- higher; and there is none only if no version of the list is in the stage.
pub latest_in_stage-IsLatest :
    (stage : String) (all_vs : List ModelVersion)
    → IsLatest stage all_vs (latest_in_stage stage all_vs)
unfolding latest_in_stage
latest_in_stage-IsLatest stage all_vs =
    max_of-IsLatest stage all_vs (filter (in_stage stage) all_vs) refl
