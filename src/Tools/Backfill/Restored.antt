-- ===== src/Tools/Backfill/Restored.antt =====
-- What a backfill leaves in the raw tables.
use mathlib.Core.Path.{subst}
use weather_demand_forecast.Prelude.{
  ℕ, zero, suc, ◌+◌, ◌-◌, ◌≤◌, ◌<◌, ◌≡◌, refl, sym, ap, ◌∙◌, inl, inr, String, Bool, true, false,
  List, [], ◌∷◌, Option, none, some, ◌==◌, ==_iff, ==_refl, String_eq, Bool-cases, Any,
  Any-append_left, Any-append_right, le→leb, ltb→lt, ltb, arith,
}
use weather_demand_forecast.Prelude.Dict.{Dict}
use weather_demand_forecast.Prelude.Texts.{Text, Text_eq}
use weather_demand_forecast.Json.{Value, ok, Result-cases}
use weather_demand_forecast.Ingestor.Db.{Row, insert_rows}
use weather_demand_forecast.Ingestor.Db.Unique.{Covers, insert_rows-grows, insert_rows-Covers}
use weather_demand_forecast.Ingestor.Consumers.{Insert, stored, failed, unconfirmed}
use weather_demand_forecast.Tools.Backfill.{
  Environment, Partition, Run, days, date_range, hours, hours_of, tables_of, partitions, key_of,
  download_parquet, to_row, table_cols, cons_row, rows_of, write, commit, insert_partition, visit,
  visit_all, opened, backfill,
}

module _ (env : Environment) where
  module _ (P : Row → Type 0) (t : Text) where
    write-grows :
        (table : Text) (rows : List Row) (raw : Text → List Row)
        → Any P (raw t)
        → Any P (write env table (insert_rows env.same_id rows (raw table)) raw t)
    write-grows table rows raw h = elim (Bool-cases (t == table)) [
      | inl e ↦ rw e (
          insert_rows-grows env.same_id P rows (raw table)
            (subst (λ u. Any P (raw u)) ((==_iff t table).0 e) h))
      | inr e ↦ rw e h
    ]

    commit-grows :
        (a : Insert) (table : Text) (rows : Option (List Row)) (raw : Text → List Row)
        → Any P (raw t)
        → Any P ((commit env a table rows raw).1 t)
    unfolding commit
    commit-grows a table none raw h = h
    commit-grows stored table (some rows) raw h = write-grows table rows raw h
    commit-grows failed table (some rows) raw h = h
    commit-grows unconfirmed table (some rows) raw h = write-grows table rows raw h

    insert_partition-grows :
        (dry : Bool) (a : Insert) (table : Text) (df : Option (List (Dict String Value))) (s : Run)
        → Any P (s.raw t)
        → Any P ((insert_partition env dry a table df s).1.raw t)
    unfolding insert_partition
    insert_partition-grows dry a table none s h = h
    insert_partition-grows dry a table (some []) s h = h
    insert_partition-grows true a table (some (r ∷ df)) s h = h
    insert_partition-grows false a table (some (r ∷ df)) s h =
        let grown = commit-grows a table (rows_of env table (r ∷ df)) s.raw h in
        elim (Result-cases (commit env a table (rows_of env table (r ∷ df)) s.raw).0) [
          | inl (n, e) ↦ rw (insert_partition, e) grown
          | inr (x, e) ↦ rw (insert_partition, e) grown
        ]

    visit_all-grows :
        (dry : Bool) (answer : Partition → Insert) (ps : List Partition) (s : Run)
        → Any P (s.raw t)
        → Any P ((visit_all env dry answer ps s).1.raw t)
    unfolding visit_all visit
    visit_all-grows dry answer [] s h = h
    visit_all-grows dry answer (p ∷ ps) s h =
        let done = visit env dry answer p s in
        let grown =
          insert_partition-grows dry (answer p) p.table (download_parquet env (key_of env p)) s h in
        elim (Result-cases done.0) [
          | inl (u, e) ↦ rw (visit_all, e) (visit_all-grows dry answer ps done.1 grown)
          | inr (x, e) ↦ rw (visit_all, e) grown
        ]

  -- A row of a frame: what Postgres makes of it is in the table, or a row with its event is.
  abbrev pub Held : Text → Dict String Value → (Text → List Row) → Type 0
  Held t r raw =
      (x : Row) × (env.store t (to_row env (table_cols t) r) ≡ some x)
      × Any (Covers env.same_id x) (raw t)

  pub cons_row-some :
      (a : Option Row) (b : Option (List Row)) (rows : List Row)
      → cons_row env a b ≡ some rows
      → (x : Row) × (xs : List Row) × (a ≡ some x) × (b ≡ some xs) × (rows ≡ x ∷ xs)
  unfolding cons_row
  cons_row-some none b rows e = absurd (ground (arith, e))
  cons_row-some (some x) none rows e = absurd (ground (arith, e))
  cons_row-some (some x) (some xs) rows e = (x, xs, refl, refl, cc)

  rows_of-Any :
      (t : Text) (r : Dict String Value) (df : List (Dict String Value)) (rows : List Row)
      → rows_of env t df ≡ some rows
      → Any (λ d. d ≡ r) df
      → (x : Row) × (env.store t (to_row env (table_cols t) r) ≡ some x) × Any (λ y. y ≡ x) rows
  unfolding rows_of
  rows_of-Any t r [] rows e h = elim h [ ]
  rows_of-Any t r (d ∷ df) rows e (inl p) =
      let (x, xs, a, b, eq) =
        cons_row-some (env.store t (to_row env (table_cols t) d)) (rows_of env t df) rows e in
      (
        x,
        ap (λ (y : Dict String Value). env.store t (to_row env (table_cols t) y)) (sym p) ∙ a,
        rw eq (inl refl),
      )
  rows_of-Any t r (d ∷ df) rows e (inr h) =
      let (x, xs, a, b, eq) =
        cons_row-some (env.store t (to_row env (table_cols t) d)) (rows_of env t df) rows e in
      let (y, sy, mem) = rows_of-Any t r df xs b h in (y, sy, rw eq (inr mem))

  -- a transaction that Postgres confirms
  commit-Held :
      (a : Insert) (t : Text) (r : Dict String Value) (df : List (Dict String Value))
      (rows : Option (List Row)) (raw : Text → List Row) (n : ℕ)
      → rows_of env t df ≡ rows
      → (commit env a t rows raw).0 ≡ ok n
      → Any (λ d. d ≡ r) df
      → Held t r (commit env a t rows raw).1
  unfolding commit
  commit-Held a t r df none raw n o e h = absurd (ground (arith, e))
  commit-Held failed t r df (some rows) raw n o e h = absurd (ground (arith, e))
  commit-Held unconfirmed t r df (some rows) raw n o e h = absurd (ground (arith, e))
  commit-Held stored t r df (some rows) raw n o e h =
      let (x, sx, mem) = rows_of-Any t r df rows o h in
      (x, sx, rw (==_refl t) (insert_rows-Covers env.same_id x rows (raw t) mem))

  insert_partition-Held :
      (a : Insert) (t : Text) (r : Dict String Value) (df : List (Dict String Value)) (s : Run)
      → (insert_partition env false a t (some df) s).0 ≡ ok tt
      → Any (λ d. d ≡ r) df
      → Held t r (insert_partition env false a t (some df) s).1.raw
  unfolding insert_partition
  insert_partition-Held a t r [] s e h = elim h [ ]
  insert_partition-Held a t r (d ∷ df) s e h =
      elim (Result-cases (commit env a t (rows_of env t (d ∷ df)) s.raw).0) [
        | inl (n, o) ↦ rw (o, insert_partition) (commit-Held a t r (d ∷ df) _ s.raw n refl o h)
        | inr (x, o) ↦ absurd (ground (arith, e, o))
      ]

  visited :
      (answer : Partition → Insert) (p : Partition) (r : Dict String Value)
      (df : List (Dict String Value)) (s : Run)
      → (visit env false answer p s).0 ≡ ok tt
      → download_parquet env (key_of env p) ≡ some df
      → Any (λ d. d ≡ r) df
      → Held p.table r (visit env false answer p s).1.raw
  unfolding visit
  visited answer p r df s e found mem =
      subst
        (λ o.
          (insert_partition env false (answer p) p.table o s).0 ≡ ok tt
          → Held p.table r (insert_partition env false (answer p) p.table o s).1.raw)
        (sym found) (λ done. insert_partition-Held (answer p) p.table r df s done mem) e

  visit-Held :
      (answer : Partition → Insert) (q p : Partition) (r : Dict String Value)
      (df : List (Dict String Value)) (s : Run)
      → q ≡ p
      → (visit env false answer q s).0 ≡ ok tt
      → download_parquet env (key_of env p) ≡ some df
      → Any (λ d. d ≡ r) df
      → Held p.table r (visit env false answer q s).1.raw
  visit-Held answer q p r df s same e found mem =
      subst
        (λ v.
          (visit env false answer v s).0 ≡ ok tt
          → Held p.table r (visit env false answer v s).1.raw)
        (sym same) (λ o. visited answer p r df s o found mem) e

  pub visit_all-Held :
      (answer : Partition → Insert) (p : Partition) (r : Dict String Value)
      (df : List (Dict String Value)) (ps : List Partition) (s : Run)
      → (visit_all env false answer ps s).0 ≡ ok tt
      → download_parquet env (key_of env p) ≡ some df
      → Any (λ d. d ≡ r) df
      → Any (λ q. q ≡ p) ps
      → Held p.table r (visit_all env false answer ps s).1.raw
  unfolding visit_all
  visit_all-Held answer p r df [] s e found mem h = elim h [ ]
  visit_all-Held answer p r df (q ∷ ps) s e found mem (inl same) =
      let done = visit env false answer q s in
      elim (Result-cases done.0) [
        | inl (u, o) ↦
            let (x, sx, held) = visit-Held answer q p r df s same o found mem in
            rw (o, visit_all)
              (x, sx, visit_all-grows (Covers env.same_id x) p.table false answer ps done.1 held)
        | inr (x, o) ↦ absurd (ground (arith, e, o))
      ]
  visit_all-Held answer p r df (q ∷ ps) s e found mem (inr h) =
      let done = visit env false answer q s in
      elim (Result-cases done.0) [
        | inl (u, o) ↦
            rw (o, visit_all)
              (visit_all-Held answer p r df ps done.1 (rw (visit_all, o) at e) found mem h)
        | inr (x, o) ↦ absurd (ground (arith, e, o))
      ]

-- the partitions of the loops
pub days-Any :
    (fuel d stop day : ℕ)
    → suc stop ≤ d + fuel
    → d ≤ day
    → day ≤ stop
    → Any (λ x. x ≡ day) (days fuel d stop)
unfolding days
days-Any zero d stop day f lo hi = absurd (omega arith)
days-Any (suc fuel) d stop day f lo hi =
    rw (le→leb d stop (omega arith)) (elim (Bool-cases (ltb d day)) [
      | inl e ↦
          inr (days-Any fuel (d + 1) stop day (omega arith) (omega (arith, ltb→lt d day e)) hi)
      | inr e ↦ inl (ground arith)
    ])

hours-Any : (n h hour : ℕ) → h ≤ hour → hour < h + n → Any (λ x. x ≡ hour) (hours n h)
unfolding hours
hours-Any zero h hour lo hi = absurd (omega arith)
hours-Any (suc n) h hour lo hi = elim (Bool-cases (ltb h hour)) [
  | inl e ↦ inr (hours-Any n (h + 1) hour (omega (arith, ltb→lt h hour e)) (omega arith))
  | inr e ↦ inl (ground arith)
]

hours_of-Any :
    (day : ℕ) (t : Text) (hour : ℕ) (hs : List ℕ)
    → Any (λ x. x ≡ hour) hs
    → Any (λ p. p ≡ record { day = day; table = t; hour = hour }) (hours_of day t hs)
unfolding hours_of
hours_of-Any day t hour [] h = elim h [ ]
hours_of-Any day t hour (x ∷ hs) (inl e) =
    inl (ap (λ y. record { day = day; table = t; hour = y }) e)
hours_of-Any day t hour (x ∷ hs) (inr h) = inr (hours_of-Any day t hour hs h)

tables_of-Any :
    (day : ℕ) (t : Text) (hour : ℕ) (ts : List Text)
    → Any (λ x. x ≡ t) ts
    → hour < 24
    → Any (λ p. p ≡ record { day = day; table = t; hour = hour }) (tables_of day ts)
unfolding tables_of
tables_of-Any day t hour [] h lt = elim h [ ]
tables_of-Any day t hour (x ∷ ts) (inl e) lt =
    let is : Partition → Type 0 = λ p. p ≡ record { day = day; table = t; hour = hour } in
    Any-append_left is (hours_of day x (hours 24 0)) (tables_of day ts) (
      subst (λ u. Any is (hours_of day u (hours 24 0))) (sym e)
        (hours_of-Any day t hour (hours 24 0) (hours-Any 24 0 hour (omega arith) (omega arith))))
tables_of-Any day t hour (x ∷ ts) (inr h) lt =
    Any-append_right _ (hours_of day x (hours 24 0)) (tables_of day ts)
      (tables_of-Any day t hour ts h lt)

pub partitions-Any :
    (p : Partition) (ds : List ℕ) (ts : List Text)
    → Any (λ x. x ≡ p.day) ds
    → Any (λ x. x ≡ p.table) ts
    → p.hour < 24
    → Any (λ q. q ≡ p) (partitions ds ts)
unfolding partitions
partitions-Any p [] ts h m lt = elim h [ ]
partitions-Any p (d ∷ ds) ts (inl e) m lt =
    Any-append_left (λ q. q ≡ p) (tables_of d ts) (partitions ds ts)
      (subst (λ u. Any (λ q. q ≡ p) (tables_of u ts)) (sym e)
        (tables_of-Any p.day p.table p.hour ts m lt))
partitions-Any p (d ∷ ds) ts (inr h) m lt =
    Any-append_right _ (tables_of d ts) (partitions ds ts) (partitions-Any p ds ts h m lt)

module _ (env : Environment) where
  -- Let a backfill that is no dry run end without an exception. Then for every day from the first to the last, every
  -- table that was asked for and every hour of the day: for each row of the partition, if the lake has it and it
  -- can be read, the raw table has what Postgres makes of the row, or a row with the same event.
  pub backfill-Held :
      (connected : Bool) (answer : Partition → Insert) (start stop : ℕ) (tables : List Text)
      (s : Run) (p : Partition) (r : Dict String Value) (df : List (Dict String Value))
      → (backfill env false connected answer start stop tables s).0 ≡ ok tt
      → start ≤ p.day
      → p.day ≤ stop
      → Any (λ t. t ≡ p.table) tables
      → p.hour < 24
      → download_parquet env (key_of env p) ≡ some df
      → Any (λ d. d ≡ r) df
      → Held env p.table r (backfill env false connected answer start stop tables s).1.raw
  unfolding backfill date_range
  backfill-Held false answer start stop tables s p r df e lo hi named hour found mem =
      absurd (ground (arith, e))
  backfill-Held true answer start stop tables s p r df e lo hi named hour found mem =
      visit_all-Held env answer p r df (partitions (date_range start stop) tables)
        (opened env false s) e found mem
        (partitions-Any p (date_range start stop) tables
          (days-Any (suc stop - start) start stop p.day (omega arith) lo hi) named hour)
