-- ===== src/Prelude/Sorting.antt =====
-- Python's `sorted`, which keeps the order of equal elements. `before x y` says that x has to stand before y.
use mathlib.Core.List.{Perm}
use mathlib.Core.List.Perm
use weather_demand_forecast.Prelude.{
  ◌≡◌, inl, inr, Bool, true, false, List, [], ◌∷◌, All, Bool-cases, if◌then◌else◌,
}

module _ {A : Type 0} (before : A → A → Bool) where
  unfoldable pub insert : A → List A → List A
  insert x [] = x ∷ []
  insert x (y ∷ ys) = let rest = insert x ys in if before y x then y ∷ rest else x ∷ y ∷ ys

  unfoldable pub sort : List A → List A
  unfolding insert
  sort [] = []
  sort (x ∷ xs) = insert x (sort xs)

  abbrev pub IsSorted : List A → Type 0
  IsSorted [] = Unit
  IsSorted (x ∷ xs) = All (λ y. before y x ≡ false) xs × IsSorted xs

  insert-Perm : (x : A) (xs : List A) → Perm (insert x xs) (x ∷ xs)
  unfolding insert
  insert-Perm x [] = Perm.refl (x ∷ [])
  insert-Perm x (y ∷ ys) = elim (Bool-cases (before y x)) [
    | inl e ↦ rw e (Perm.trans (Perm.cons y (insert-Perm x ys)) (Perm.swap x y ys))
    | inr e ↦ rw e (Perm.refl (x ∷ y ∷ ys))
  ]

  pub sort-Perm : (xs : List A) → Perm (sort xs) xs
  unfolding sort
  sort-Perm [] = Perm.refl []
  sort-Perm (x ∷ xs) = Perm.trans (insert-Perm x (sort xs)) (Perm.cons x (sort-Perm xs))

  -- What holds of all elements holds of them in any order.
  insert-All : (P : A → Type 0) (x : A) (xs : List A) → P x → All P xs → All P (insert x xs)
  unfolding insert
  insert-All P x [] p all = (p, tt)
  insert-All P x (y ∷ ys) p (q, all) = elim (Bool-cases (before y x)) [
    | inl e ↦ rw e (q, insert-All P x ys p all)
    | inr e ↦ rw e (p, (q, all))
  ]

  pub sort-All : (P : A → Type 0) (xs : List A) → All P xs → All P (sort xs)
  unfolding sort
  sort-All P [] all = tt
  sort-All P (x ∷ xs) (p, all) = insert-All P x (sort xs) p (sort-All P xs all)

  -- `P`: where `before` is a strict weak order
  module _ (P : A → Type 0) (asym : (x y : A) → P x → P y → before x y ≡ true → before y x ≡ false)
      (trans : (x y z : A)
        → P x
        → P y
        → P z
        → before y x ≡ false
        → before z y ≡ false
        → before z x ≡ false) where
    not_before_all :
        (x y : A) (ys : List A)
        → P x
        → P y
        → All P ys
        → before y x ≡ false
        → All (λ z. before z y ≡ false) ys
        → All (λ z. before z x ≡ false) ys
    not_before_all x y [] p q all e h = tt
    not_before_all x y (z ∷ zs) p q (r, all) e (g, h) =
        (trans x y z p q r e g, not_before_all x y zs p q all e h)

    insert-IsSorted : (x : A) (xs : List A) → P x → All P xs → IsSorted xs → IsSorted (insert x xs)
    unfolding insert
    insert-IsSorted x [] p all h = (tt, tt)
    insert-IsSorted x (y ∷ ys) p (q, all) (h, hs) = elim (Bool-cases (before y x)) [
      | inl e ↦ rw e (
        insert-All (λ z. before z y ≡ false) x ys (asym y x q p e) h,
        insert-IsSorted x ys p all hs,
      )
      | inr e ↦ rw e ((e, not_before_all x y ys p q all e h), (h, hs))
    ]

    pub sort-IsSorted : (xs : List A) → All P xs → IsSorted (sort xs)
    unfolding sort
    sort-IsSorted [] all = tt
    sort-IsSorted (x ∷ xs) (p, all) =
        insert-IsSorted x (sort xs) p (sort-All P xs all) (sort-IsSorted xs all)
