-- ===== src/Ingestor/Db/Unique.antt =====
-- The bulk insert: what it keeps, what it adds, and the unique constraint.
use weather_demand_forecast.Prelude.{
  ◌≡◌, refl, sym, ap, ◌∙◌, ◌⊎◌, inl, inr, Bool, true, false, List, [], ◌∷◌, ◌++◌, Any,
  Any-append_left, Any-append_right, Bool-cases, arith, if◌then◌else◌, All, All-append,
}
use weather_demand_forecast.Json.{Value, Result, ok, >>=-eq-ok}
use weather_demand_forecast.Ingestor.Db.{Buffered, Row, rows_of, has_id, insert_rows}

module _ (same_id : Value → Value → Bool) where
  -- The row itself, or one that Postgres takes for the same event.
  abbrev pub Covers : Row → Row → Type 0
  Covers r t = (t ≡ r) ⊎ (same_id t.event_id r.event_id ≡ true)

  has_id-Any :
      (r : Row) (table : List Row) → has_id same_id r.event_id table ≡ true → Any (Covers r) table
  unfolding has_id
  has_id-Any r [] h = absurd (ground arith)
  has_id-Any r (t ∷ ts) h = elim (Bool-cases (same_id t.event_id r.event_id)) [
    | inl same ↦ inl (inr same)
    | inr differs ↦ inr (has_id-Any r ts (rw differs at h))
  ]

  pub insert_rows-grows :
      (P : Row → Type 0) (rows table : List Row)
      → Any P table
      → Any P (insert_rows same_id rows table)
  unfolding insert_rows
  insert_rows-grows P [] table h = h
  insert_rows-grows P (r ∷ rs) table h = elim (Bool-cases (has_id same_id r.event_id table)) [
    | inl old ↦ rw old (insert_rows-grows P rs table h)
    | inr new ↦
        rw new (insert_rows-grows P rs (table ++ r ∷ []) (Any-append_left P table (r ∷ []) h))
  ]

  pub insert_rows-Covers :
      (r : Row) (rows table : List Row)
      → Any (λ x. x ≡ r) rows
      → Any (Covers r) (insert_rows same_id rows table)
  unfolding insert_rows
  insert_rows-Covers r [] table h = elim h [ ]
  insert_rows-Covers r (x ∷ xs) table (inl e) =
      elim (Bool-cases (has_id same_id x.event_id table)) [
        | inl old ↦ rw old (
            insert_rows-grows (Covers r) xs table (
              has_id-Any r table (rw (ap (λ (y : Row). has_id same_id y.event_id table) e) at old)))
        | inr new ↦ rw new (
            insert_rows-grows (Covers r) xs (table ++ x ∷ [])
              (Any-append_right (Covers r) table (x ∷ []) (inl (inl e))))
      ]
  insert_rows-Covers r (x ∷ xs) table (inr h) =
      insert_rows-Covers r xs (if has_id same_id x.event_id table then table else table ++ x ∷ []) h

  -- No row has an id that Postgres takes for that of an earlier row.
  abbrev pub IsUnique : List Row → Type 0
  IsUnique [] = Unit
  IsUnique (t ∷ ts) = All (λ u. same_id t.event_id u.event_id ≡ false) ts × IsUnique ts

  IsUnique-append :
      (table : List Row) (r : Row)
      → IsUnique table
      → has_id same_id r.event_id table ≡ false
      → IsUnique (table ++ r ∷ [])
  unfolding has_id
  IsUnique-append [] r u h = (tt, tt)
  IsUnique-append (t ∷ ts) r u h = elim (Bool-cases (same_id t.event_id r.event_id)) [
    | inl same ↦ absurd (ground (arith, h, same))
    | inr differs ↦ (
      All-append (λ u. same_id t.event_id u.event_id ≡ false) ts (r ∷ []) u.0 (differs, tt),
      IsUnique-append ts r u.1 (rw differs at h),
    )
  ]

  -- If no two rows of the table have ids that Postgres takes for equal, no two have after an
  -- insert, whatever the rows inserted.
  pub insert_rows-IsUnique :
      (rows table : List Row) → IsUnique table → IsUnique (insert_rows same_id rows table)
  unfolding insert_rows
  insert_rows-IsUnique [] table u = u
  insert_rows-IsUnique (r ∷ rs) table u = elim (Bool-cases (has_id same_id r.event_id table)) [
    | inl old ↦ rw old (insert_rows-IsUnique rs table u)
    | inr new ↦ rw new (insert_rows-IsUnique rs (table ++ r ∷ []) (IsUnique-append table r u new))
  ]

rows_of-cons :
    (row : Buffered → Result Row) (x : Buffered) (xs : List Buffered) (rows : List Row)
    → rows_of row (x ∷ xs) ≡ ok rows
    → (r : Row) × (rs : List Row) × (row x ≡ ok r) × (rows_of row xs ≡ ok rs) × (rows ≡ r ∷ rs)
unfolding rows_of
rows_of-cons row x xs rows e =
    let (r, p, e') = >>=-eq-ok (row x) _ e in
    let (rs, q, e'') = >>=-eq-ok (rows_of row xs) _ e' in (r, rs, p, q, cc e'')

-- The rows that are built have one for each item of the batch.
pub rows_of-Any :
    (row : Buffered → Result Row) (b : Buffered) (items : List Buffered) (rows : List Row)
    → rows_of row items ≡ ok rows
    → Any (λ x. x ≡ b) items
    → (r : Row) × (row b ≡ ok r) × Any (λ x. x ≡ r) rows
rows_of-Any row b [] rows e h = elim h [ ]
rows_of-Any row b (x ∷ xs) rows e (inl p) =
    let (r, rs, px, pxs, eq) = rows_of-cons row x xs rows e in
    (r, ap row (sym p) ∙ px, rw eq (inl refl))
rows_of-Any row b (x ∷ xs) rows e (inr h) =
    let (_, rs, px, pxs, eq) = rows_of-cons row x xs rows e in
    let (r, pb, mem) = rows_of-Any row b xs rs pxs h in (r, pb, rw eq (inr mem))
