-- ===== src/Features/Registry/Names.antt =====
-- A registry that is built has one entry for every feature, under its own name.
use mathlib.Core.Path.{subst}
use weather_demand_forecast.Prelude.{
  suc, ◌+◌, ◌≤◌, ◌≡◌, refl, sym, ap, ◌∙◌, ◌⊎◌, inl, inr, String, List, [], ◌∷◌, none, some,
  Bool-cases, All, All-map, length, ◌==◌, ==_iff, ==_refl, String_eq, ℕ_eq, arith,
}
use weather_demand_forecast.Prelude.Dict.{Dict, get, put, get-put}
use weather_demand_forecast.Json.{Exc, Result, ok, raise}
use weather_demand_forecast.Features.Registry.{
  Feature, Registry, index_by_name, registry, get_item, key_error_unless,
}

length-put :
    (k : String) (f : Feature) (d : Dict String Feature)
    → ((get k d ≡ none) × (length (put k f d) ≡ suc (length d))) ⊎ (length (put k f d) ≡ length d)
unfolding get put
length-put k f [] = inl (refl, refl)
length-put k f ((j, g) ∷ d) = elim (Bool-cases (j == k)) [
  | inl same ↦ inr (rw (same) refl)
  | inr differ ↦ elim (length-put k f d) [
    | inl (fresh, longer) ↦ inl (rw (differ) fresh, rw (differ) (ap suc longer))
    | inr known ↦ inr (rw (differ) (ap suc known))
  ]
]

length-index :
    (fs : List Feature) (d : Dict String Feature)
    → length (index_by_name fs d) ≤ length fs + length d
unfolding index_by_name
length-index [] d = omega arith
length-index (f ∷ fs) d = elim (length-put f.name f d) [
  | inl (fresh, longer) ↦ omega (arith, length-index fs (put f.name f d), longer)
  | inr known ↦ omega (arith, length-index fs (put f.name f d), known)
]

ok_raise {ℓ κ} : {A : Type ℓ} {B : Type κ} {a : A} {e : Exc} → raise e ≡ ok a → B
ok_raise h = cc

none_some {ℓ κ} : {A : Type ℓ} {B : Type κ} {a : A} → none ≡ some a → B
none_some h = cc

-- what a full index keeps and has
index-full :
    (fs : List Feature) (d : Dict String Feature)
    → length (index_by_name fs d) ≡ length fs + length d
    → ((k : String) (g : Feature) → get k d ≡ some g → get k (index_by_name fs d) ≡ some g)
      × All (λ f. get f.name (index_by_name fs d) ≡ some f) fs
unfolding index_by_name
index-full [] d full = (λ k g h. h, tt)
index-full (f ∷ fs) d full = elim (length-put f.name f d) [
  | inr known ↦ absurd (omega (arith, length-index fs (put f.name f d), known, full))
  | inl (fresh, longer) ↦
      let (keeps, has) = index-full fs (put f.name f d) (omega (arith, full, longer)) in
      (
        λ k g h. keeps k g (
            get-put f.name k f d ∙ elim (Bool-cases (f.name == k)) [
              | inl same ↦ none_some (sym fresh ∙ ap (λ x. get x d) ((==_iff f.name k).0 same) ∙ h)
              | inr differ ↦ rw (differ) h
            ]),
        (keeps f.name f (get-put f.name f.name f d ∙ rw (==_refl f.name) refl), has),
      )
]

by_name_of : Result Registry → Dict String Feature
by_name_of (ok r) = r.by_name
by_name_of (raise e) = []

-- If the registry of a list of features is built, its lookup by name returns, for every feature of
-- the list, that feature.
pub registry-get_item :
    (fs : List Feature) {r : Registry} → registry fs ≡ ok r → All (λ f. get_item r f.name ≡ ok f) fs
unfolding registry get_item key_error_unless by_name_of
registry-get_item fs {r} built = elim (Bool-cases (length (index_by_name fs []) == length fs)) [
  | inl full ↦
      let index : index_by_name fs [] ≡ r.by_name = ap by_name_of (rw (full) at built) in
      let (keeps, has) = index-full fs [] (ground (arith, full)) in
      subst (λ d. All (λ f. key_error_unless (get f.name d) ≡ ok f) fs) index
        (All-map (λ f found. ap key_error_unless found) fs has)
  | inr short ↦ ok_raise (rw (short) at built)
]
