-- ===== src/Models/Promote/Decided.antt =====
-- What the registry knows of a version after the steps of a promotion.
use weather_demand_forecast.Prelude.{
  ◌≡◌, refl, ap, ◌∙◌, inl, inr, String, Bool, true, false, not, Option, none, some, Option-cases,
  ◌==◌, ==_refl, String_eq, if◌then◌else◌,
}
use weather_demand_forecast.Prelude.Dict.{get, get-put}
use weather_demand_forecast.Models.Promote.{
  unassigned, staging, Version, Versions, on_version, set_tag, transition,
}

pub get-on_version_same :
    (v : String) (f : Version → Version) (d : Versions) {x : Version}
    → get v d ≡ some x
    → get v (on_version v f d) ≡ some (f x)
unfolding on_version
get-on_version_same v f d {x} found =
    rw (found, on_version) (get-put v v (f x) d ∙ rw (==_refl v) refl)

pub get-on_version_other :
    (v w : String) (f : Version → Version) (d : Versions)
    → (v == w) ≡ false
    → get w (on_version v f d) ≡ get w d
unfolding on_version
get-on_version_other v w f d differ = elim (Option-cases (get v d)) [
  | inl absent ↦ rw (absent, on_version) refl
  | inr (x, found) ↦ rw (found, on_version) (get-put v w (f x) d ∙ rw (differ) refl)
]

abbrev pub is_some {ℓ} : {A : Type ℓ} → Option A → Bool
is_some none = false
is_some (some x) = true

-- promoted to Staging, or left as it was with a reason
unfoldable pub IsDecided : Bool → Version → Type 0
unfolding get
IsDecided promoted y =
    (y.stage ≡ (if promoted then staging else unassigned))
    × (is_some (get "rejection_reason" y.tags) ≡ not promoted)

module _ (new_version : String) where
  unfoldable pub Decided : Bool → Versions → Type 0
  unfolding IsDecided
  Decided promoted d = (y : Version) × (get new_version d ≡ some y) × IsDecided promoted y

  pub decide :
      (promoted : Bool) (f : Version → Version) (d : Versions) {x : Version}
      → get new_version d ≡ some x
      → IsDecided promoted (f x)
      → Decided promoted (on_version new_version f d)
  unfolding Decided
  decide promoted f d {x} found h = (f x, get-on_version_same new_version f d found, h)

  -- two tags, and then the transition or the reason
  abbrev pub tag_and_decide :
      String × String → String × String → String → Bool → Versions → Versions
  tag_and_decide one two reason lower d =
      let noted =
        on_version new_version (set_tag two.0 two.1)
          (on_version new_version (set_tag one.0 one.1) d) in
      if lower
      then on_version new_version (transition staging) noted
      else on_version new_version (set_tag "rejection_reason" reason) noted

  pub tag_and_decide-Decided :
      (one two : String × String) (reason : String) (lower : Bool) (d : Versions) {x : Version}
      → get new_version d ≡ some x
      → x.stage ≡ unassigned
      → get "rejection_reason" x.tags ≡ none
      → (one.0 == "rejection_reason") ≡ false
      → (two.0 == "rejection_reason") ≡ false
      → Decided lower (tag_and_decide one two reason lower d)
  unfolding IsDecided
  tag_and_decide-Decided one two reason lower d {x} found fresh clear other1 other2 =
      let first = set_tag one.0 one.1 in
      let second = set_tag two.0 two.1 in
      let once = on_version new_version first d in
      let noted = on_version new_version second once in
      let found2 =
        get-on_version_same new_version second once
          (get-on_version_same new_version first d found) in
      let clear2 : get "rejection_reason" (second (first x)).tags ≡ none =
        get-put two.0 "rejection_reason" two.1 (first x).tags
        ∙ rw (other2) (get-put one.0 "rejection_reason" one.1 x.tags ∙ rw (other1) clear) in
      elim lower as (λ b. Decided b (tag_and_decide one two reason b d)) [
        | true ↦ decide true (transition staging) noted found2 (refl, ap is_some clear2)
        | false ↦ decide false (set_tag "rejection_reason" reason) noted found2 (
          fresh,
          ap is_some (get-put "rejection_reason" "rejection_reason" reason (second (first x)).tags),
        )
      ]

  pub tag_and_decide-other :
      (w : String) (one two : String × String) (reason : String) (lower : Bool) (d : Versions)
      → (new_version == w) ≡ false
      → get w (tag_and_decide one two reason lower d) ≡ get w d
  tag_and_decide-other w one two reason lower d differ =
      let first = set_tag one.0 one.1 in
      let second = set_tag two.0 two.1 in
      let once = on_version new_version first d in
      let noted = on_version new_version second once in
      let kept =
        get-on_version_other new_version w second once differ
        ∙ get-on_version_other new_version w first d differ in
      elim lower as (λ b. get w (tag_and_decide one two reason b d) ≡ get w d) [
        | true ↦ get-on_version_other new_version w (transition staging) noted differ ∙ kept
        | false ↦
            get-on_version_other new_version w (set_tag "rejection_reason" reason) noted differ
            ∙ kept
      ]
