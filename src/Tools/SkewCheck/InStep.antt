-- ===== src/Tools/SkewCheck/InStep.antt =====
-- What the exit code of the skew check says of the two tables.
use weather_demand_forecast.Prelude.{
  ℕ, ◌≡◌, ◌≢◌, ◌⊎◌, refl, sym, inl, inr, Bool, true, false, not, List, [], ◌∷◌, map, Option, none,
  some, All, All-append, All-append_split, All-map, filter, ◌==◌, ==_iff, String_eq, ℕ_eq,
  Bool-cases, arith,
}
use weather_demand_forecast.Tools.SkewCheck.{
  Feature, offline_features, Served, Mart, Joined, matches, serving_hour, partners, joined,
  is_stale, coalesce, differs, main,
}
use weather_demand_forecast.Tools.SkewCheck.Clean.{IsClean, main_rows}

-- what passes the test holds Q
All-filter {ℓ} :
    {A : Type ℓ} (test : A → Bool) (Q : A → Type 0) (xs : List A)
    → (All Q (filter test xs) → All (λ x. test x ≡ true → Q x) xs)
      × (All (λ x. test x ≡ true → Q x) xs → All Q (filter test xs))
unfolding filter
All-filter test Q [] = (λ h. tt, λ h. tt)
All-filter test Q (x ∷ xs) =
    let (to, from) = All-filter test Q xs in
    elim (Bool-cases (test x)) [
      | inl e ↦ rw e (λ h. (λ same. h.0, to h.1), λ h. (h.0 refl, from h.1))
      | inr e ↦ rw e (λ h. (λ same. absurd (cc same), to h), λ h. from h.1)
    ]

is_stale-at :
    (h : ℕ) (o : Option ℕ)
    → let stale : Bool = elim o [ none ↦ false | some t ↦ not (t == h) ] in
      (stale ≡ true → (t : ℕ) × (o ≡ some t) × (t ≢ h))
      × ((t : ℕ) × (o ≡ some t) × (t ≢ h) → stale ≡ true)
is_stale-at h none = (λ e. absurd (cc e), λ (t, e, d). absurd (cc e))
is_stale-at h (some t) = (
  λ e. (t, refl, ground (arith, e, ==_iff t h)),
  λ (u, e, d). (let same : t ≡ u = cc e in ground (arith, same, d, ==_iff t h)),
)

all_unit {ℓ} : {A : Type ℓ} (xs : List A) → All (λ x. Unit {0}) xs
all_unit [] = tt
all_unit (x ∷ xs) = (tt, all_unit xs)

module _ {F : Type 0} where
  -- the row of the warehouse for the city and the hour of the served vector
  abbrev pub IsOfHour : Served F → Mart F → Type 0
  IsOfHour s w = (w.city ≡ s.city) × (w.hour_ts ≡ serving_hour s.requested_at)

  matches_iff :
      (s : Served F) (w : Mart F)
      → (matches s w ≡ true → IsOfHour s w) × (IsOfHour s w → matches s w ≡ true)
  matches_iff s w =
      let city = ==_iff w.city s.city in
      let hour = ==_iff w.hour_ts (serving_hour s.requested_at) in
      (λ h. ground (arith, h, city, hour), λ h. ground (arith, h, city, hour))

  -- the vector was made from the mart's row of another hour
  abbrev pub IsOlder : Served F → Type 0
  IsOlder s = (t : ℕ) × (s.mart_hour_ts ≡ some t) × (t ≢ serving_hour s.requested_at)

  is_stale_iff : (s : Served F) → (is_stale s ≡ true → IsOlder s) × (IsOlder s → is_stale s ≡ true)
  unfolding is_stale
  is_stale_iff s = is_stale-at (serving_hour s.requested_at) s.mart_hour_ts

  -- P of the vector's pairs: with each row of its hour, and alone where there is none
  Paired : (Joined F → Type 0) → List (Mart F) → Served F → Type 0
  Paired P warehouse s =
      All (λ w. matches s w ≡ true → P (s, some w)) warehouse
      × (All (λ w. matches s w ≡ true → ⊥) warehouse → P (s, none))

  All-pairs :
      (P : Joined F → Type 0) (s : Served F) (ws : List (Mart F))
      → (All P (map (λ w. (s, w)) (map some ws)) → All (λ w. P (s, some w)) ws)
        × (All (λ w. P (s, some w)) ws → All P (map (λ w. (s, w)) (map some ws)))
  All-pairs P s [] = (λ h. tt, λ h. tt)
  All-pairs P s (w ∷ ws) =
      let (to, from) = All-pairs P s ws in (λ h. (h.0, to h.1), λ h. (h.0, from h.1))

  partners-Paired :
      (P : Joined F → Type 0) (warehouse : List (Mart F)) (s : Served F) (ws : List (Mart F))
      → filter (matches s) warehouse ≡ ws
      → (All P (map (λ w. (s, w)) (partners ws)) → Paired P warehouse s)
        × (Paired P warehouse s → All P (map (λ w. (s, w)) (partners ws)))
  unfolding partners Paired
  partners-Paired P warehouse s [] q =
      let some_in = All-filter (matches s) (λ w. P (s, some w)) warehouse in
      let none_in = All-filter (matches s) (λ w. ⊥) warehouse in
      (λ h. (some_in.0 (rw q tt), λ alone. h.0), λ h. (h.1 (none_in.0 (rw q tt)), tt))
  partners-Paired P warehouse s (w ∷ ws) q =
      let some_in = All-filter (matches s) (λ w. P (s, some w)) warehouse in
      let none_in = All-filter (matches s) (λ w. ⊥) warehouse in
      let pairs = All-pairs P s (w ∷ ws) in
      (
        λ h. (some_in.0 (rw q (pairs.0 h)), λ alone. absurd ((rw q at (none_in.1 alone)).0)),
        λ h. pairs.1 (rw q at (some_in.1 h.0)),
      )

  joined-Paired :
      (P : Joined F → Type 0) (warehouse : List (Mart F)) (served : List (Served F))
      → (All P (joined warehouse served) → All (Paired P warehouse) served)
        × (All (Paired P warehouse) served → All P (joined warehouse served))
  unfolding joined
  joined-Paired P warehouse [] = (λ h. tt, λ h. tt)
  joined-Paired P warehouse (s ∷ ss) =
      let (to, from) = partners-Paired P warehouse s (filter (matches s) warehouse) refl in
      let (to_rest, from_rest) = joined-Paired P warehouse ss in
      let first = map (λ w. (s, w)) (partners (filter (matches s) warehouse)) in
      (
        λ h.
            (let both = All-append_split P first (joined warehouse ss) h in
              (to both.0, to_rest both.1)),
        λ h. All-append P first (joined warehouse ss) (from h.0) (from_rest h.1),
      )

  module _ (zero : F) (distance : F → F → F) (beyond : F → Bool) where
    abbrev or_zero : Option F → F
    or_zero none = zero
    or_zero (some x) = x

    -- within the tolerance of each row of its hour, and of zero where the warehouse has none
    abbrev pub Agrees : Feature → List (Mart F) → Served F → Type 0
    Agrees f warehouse s =
        All
          (λ w.
            IsOfHour s w → beyond (distance (or_zero (s.value f)) (or_zero (w.value f))) ≡ false)
          warehouse
        × (All (λ w. IsOfHour s w → ⊥) warehouse
            → beyond (distance (or_zero (s.value f)) zero) ≡ false)

    or_zero_lem : (o : Option F) → coalesce zero distance beyond o ≡ or_zero o
    or_zero_lem none = refl
    or_zero_lem (some x) = refl

    near_some :
        (f : Feature) (s : Served F) (w : Mart F)
        → is_stale s ≡ false
        → (IsClean zero distance beyond f (s, some w)
            → beyond (distance (or_zero (s.value f)) (or_zero (w.value f))) ≡ false)
          × (beyond (distance (or_zero (s.value f)) (or_zero (w.value f))) ≡ false
              → IsClean zero distance beyond f (s, some w))
    unfolding differs
    near_some f s w fresh =
        rw (sym (or_zero_lem (s.value f)), sym (or_zero_lem (w.value f)))
          (λ h. elim h [ inl stale ↦ cc | inr near ↦ near ], λ near. inr near)

    near_none :
        (f : Feature) (s : Served F)
        → is_stale s ≡ false
        → (IsClean zero distance beyond f (s, none)
            → beyond (distance (or_zero (s.value f)) zero) ≡ false)
          × (beyond (distance (or_zero (s.value f)) zero) ≡ false
              → IsClean zero distance beyond f (s, none))
    unfolding differs
    near_none f s fresh =
        rw (sym (or_zero_lem (s.value f)))
          (λ h. elim h [ inl stale ↦ cc | inr near ↦ near ], λ near. inr near)

    stale_Paired :
        (f : Feature) (warehouse : List (Mart F)) (s : Served F)
        → is_stale s ≡ true
        → Paired (IsClean zero distance beyond f) warehouse s
    unfolding Paired
    stale_Paired f warehouse s e =
        (All-map (λ w u same. inl e) warehouse (all_unit warehouse), λ alone. inl e)

    Paired-IsInStep :
        (f : Feature) (warehouse : List (Mart F)) (s : Served F)
        → (Paired (IsClean zero distance beyond f) warehouse s → IsOlder s ⊎ Agrees f warehouse s)
          × (IsOlder s ⊎ Agrees f warehouse s → Paired (IsClean zero distance beyond f) warehouse s)
    unfolding Paired
    Paired-IsInStep f warehouse s = elim (Bool-cases (is_stale s)) [
      | inl e ↦ (λ h. inl ((is_stale_iff s).0 e), λ h. stale_Paired f warehouse s e)
      | inr e ↦ (
        λ h. inr (
          All-map (λ w clean here. (near_some f s w e).0 (clean ((matches_iff s w).1 here)))
              warehouse h.0,
          λ alone.
              (near_none f s e).0
                (h.1 (All-map (λ w no same. no ((matches_iff s w).0 same)) warehouse alone)),
        ),
        λ h. elim h [
          | inl older ↦ stale_Paired f warehouse s ((is_stale_iff s).1 older)
          | inr agrees ↦ (
            All-map (λ w near same. (near_some f s w e).1 (near ((matches_iff s w).0 same)))
                warehouse agrees.0,
            λ alone.
                (near_none f s e).1
                  (agrees.1 (All-map (λ w no here. no ((matches_iff s w).1 here)) warehouse alone)),
          )
        ],
      )
    ]

    feature_iff :
        (warehouse : List (Mart F)) (served : List (Served F)) (f : Feature)
        → (All (IsClean zero distance beyond f) (joined warehouse served)
            → All (λ s. IsOlder s ⊎ Agrees f warehouse s) served)
          × (All (λ s. IsOlder s ⊎ Agrees f warehouse s) served
              → All (IsClean zero distance beyond f) (joined warehouse served))
    feature_iff warehouse served f =
        let (to, from) = joined-Paired (IsClean zero distance beyond f) warehouse served in
        (
          λ h. All-map (λ s. (Paired-IsInStep f warehouse s).0) served (to h),
          λ h. from (All-map (λ s. (Paired-IsInStep f warehouse s).1) served h),
        )

    -- The exit code is 0 exactly if each served vector was made from the mart's row of another hour, or is, in each of
    -- the eight offline features, within the tolerance of every row that the warehouse has for its city
    -- and hour, and within the tolerance of zero where the warehouse has none; a missing value counts as zero.
    pub main_iff :
        (warehouse : List (Mart F)) (served : List (Served F))
        → (main zero distance beyond warehouse served ≡ 0
            → All (λ f. All (λ s. IsOlder s ⊎ Agrees f warehouse s) served) offline_features)
          × (All (λ f. All (λ s. IsOlder s ⊎ Agrees f warehouse s) served) offline_features
              → main zero distance beyond warehouse served ≡ 0)
    main_iff warehouse served =
        let (to, from) = main_rows zero distance beyond warehouse served in
        (
          λ h. All-map (λ f. (feature_iff warehouse served f).0) offline_features (to h),
          λ h. from (All-map (λ f. (feature_iff warehouse served f).1) offline_features h),
        )
