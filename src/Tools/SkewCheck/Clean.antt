-- ===== src/Tools/SkewCheck/Clean.antt =====
-- The exit code of the skew check by the rows of the join.
use weather_demand_forecast.Prelude.{
  ℕ, suc, ◌≡◌, refl, sym, ◌∙◌, ◌⊎◌, inl, inr, Bool, true, false, ◌&&◌, not, List, [], ◌∷◌, All,
  All-map, filter, length, ◌==◌, ℕ_eq, Bool-cases, arith,
}
use weather_demand_forecast.Tools.SkewCheck.{
  Feature, offline_features, Served, Mart, Joined, joined, is_stale, differs, true_bug, summary,
  sum_of, exit_code, print_report, main,
}

-- none is counted exactly if none passes the test
filter-none {ℓ} :
    {A : Type ℓ} (test : A → Bool) (xs : List A)
    → (length (filter test xs) ≡ 0 → All (λ a. test a ≡ false) xs)
      × (All (λ a. test a ≡ false) xs → length (filter test xs) ≡ 0)
unfolding filter
filter-none test [] = (λ h. tt, λ h. refl)
filter-none test (x ∷ xs) =
    let (to, from) = filter-none test xs in
    elim (Bool-cases (test x)) [
      | inl e ↦ (λ h. absurd (omega (arith, rw e at h)), λ h. cc)
      | inr e ↦ (λ h. (e, to (rw e at h)), λ h. rw e (from h.1))
    ]

sum_of-none :
    (n : Feature → ℕ) (fs : List Feature)
    → (sum_of n fs ≡ 0 → All (λ f. n f ≡ 0) fs) × (All (λ f. n f ≡ 0) fs → sum_of n fs ≡ 0)
unfolding sum_of
sum_of-none n [] = (λ h. tt, λ h. refl)
sum_of-none n (f ∷ fs) =
    let (to, from) = sum_of-none n fs in
    (
      λ h. (omega arith, to (omega arith)),
      λ h. (let rest = from h.1 in let first = h.0 in omega arith),
    )

exit-none : (n : ℕ) → exit_code n ≡ 0 → n ≡ 0
exit-none n h = ground arith

exit-zero : (n : ℕ) → n ≡ 0 → exit_code n ≡ 0
exit-zero n h = rw h refl

suc-nonzero : (n : ℕ) → (suc n == 0) ≡ false
suc-nonzero n = ground arith

module _ {F : Type 0} (zero : F) (distance : F → F → F) (beyond : F → Bool) where
  -- the served vector is of an older hour of the mart, or it agrees in this feature
  abbrev pub IsClean : Feature → Joined F → Type 0
  IsClean f row = (is_stale row.0 ≡ true) ⊎ (differs zero distance beyond f row ≡ false)

  clean :
      (f : Feature) (row : Joined F)
      → ((not (is_stale row.0) && differs zero distance beyond f row) ≡ false → IsClean f row)
        × (IsClean f row → (not (is_stale row.0) && differs zero distance beyond f row) ≡ false)
  clean f row = elim (Bool-cases (is_stale row.0)) [
    | inl e ↦ (λ h. inl e, λ h. rw e refl)
    | inr e ↦ (λ h. inr (rw e at h), λ h. elim h [ inl g ↦ cc | inr g ↦ rw (e, g) refl ])
  ]

  true_bug-none :
      (rows : List (Joined F)) (f : Feature)
      → (true_bug zero distance beyond rows f ≡ 0 → All (IsClean f) rows)
        × (All (IsClean f) rows → true_bug zero distance beyond rows f ≡ 0)
  unfolding true_bug
  true_bug-none rows f =
      let (to, from) =
        filter-none (λ row. not (is_stale row.0) && differs zero distance beyond f row) rows in
      (
        λ h. All-map (λ row. (clean f row).0) rows (to h),
        λ h. from (All-map (λ row. (clean f row).1) rows h),
      )

  main-eq :
      (warehouse : List (Mart F)) (s : Served F) (ss : List (Served F))
      → main zero distance beyond warehouse (s ∷ ss)
        ≡ exit_code
            (sum_of (true_bug zero distance beyond (joined warehouse (s ∷ ss))) offline_features)
  unfolding main print_report summary
  main-eq warehouse s ss = rw (suc-nonzero (length ss)) refl

  -- the exit code by the rows of the join
  pub main_rows :
      (warehouse : List (Mart F)) (served : List (Served F))
      → (main zero distance beyond warehouse served ≡ 0
          → All (λ f. All (IsClean f) (joined warehouse served)) offline_features)
        × (All (λ f. All (IsClean f) (joined warehouse served)) offline_features
            → main zero distance beyond warehouse served ≡ 0)
  unfolding main print_report summary
  main_rows warehouse [] = (λ h. (tt, (tt, (tt, (tt, (tt, (tt, (tt, (tt, tt)))))))), λ h. refl)
  main_rows warehouse (s ∷ ss) =
      let rows = joined warehouse (s ∷ ss) in
      let (to, from) = sum_of-none (true_bug zero distance beyond rows) offline_features in
      (
        λ h.
            All-map (λ f. (true_bug-none rows f).0) offline_features
              (to (exit-none _ (sym (main-eq warehouse s ss) ∙ h))),
        λ h.
            main-eq warehouse s ss
            ∙ exit-zero _ (from (All-map (λ f. (true_bug-none rows f).1) offline_features h)),
      )
