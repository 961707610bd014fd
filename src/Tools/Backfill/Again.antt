-- ===== src/Tools/Backfill/Again.antt =====
-- A backfill that runs again.
use mathlib.Core.Path.{subst, fun_ext}
use weather_demand_forecast.Prelude.{
  ℕ, ◌-◌, ◌≡◌, refl, sym, ap, ◌∙◌, inl, inr, String, Bool, true, false, List, [], ◌∷◌, Option, none,
  some, length, ◌==◌, ==_iff, Bool-cases, Option-cases, Any, All, arith,
}
use weather_demand_forecast.Prelude.Dict.{Dict}
use weather_demand_forecast.Prelude.Texts.{Text, Text_eq}
use weather_demand_forecast.Json.{Value, ok, Result-cases}
use weather_demand_forecast.Ingestor.Db.{Row, has_id, insert_rows}
use weather_demand_forecast.Ingestor.Db.Unique.{Covers}
use weather_demand_forecast.Ingestor.Consumers.{Insert, stored, failed, unconfirmed}
use weather_demand_forecast.Tools.Backfill.{
  Environment, Partition, Run, date_range, partitions, key_of, download_parquet, to_row, table_cols,
  rows_of, write, commit, insert_partition, visit, visit_all, opened, backfill,
}
use weather_demand_forecast.Tools.Backfill.Restored.{Held, cons_row-some, visit_all-Held}

module _ (env : Environment) where
  insert_present :
      (rows table : List Row)
      → All (λ r. has_id env.same_id r.event_id table ≡ true) rows
      → insert_rows env.same_id rows table ≡ table
  unfolding insert_rows
  insert_present [] table h = refl
  insert_present (r ∷ rs) table h = rw h.0 (insert_present rs table h.1)

  Any-has_id :
      (x : Row) (table : List Row)
      → env.same_id x.event_id x.event_id ≡ true
      → Any (Covers env.same_id x) table
      → has_id env.same_id x.event_id table ≡ true
  unfolding has_id
  Any-has_id x [] self h = elim h [ ]
  Any-has_id x (t ∷ ts) self (inl (inl e)) =
      rw (ap (λ (y : Row). env.same_id y.event_id x.event_id) e ∙ self) refl
  Any-has_id x (t ∷ ts) self (inl (inr e)) = rw e refl
  Any-has_id x (t ∷ ts) self (inr h) = elim (Bool-cases (env.same_id t.event_id x.event_id)) [
    | inl e ↦ rw e refl
    | inr e ↦ rw e (Any-has_id x ts self h)
  ]

  write_same : (t : Text) (raw : Text → List Row) → write env t (raw t) raw ≡ raw
  write_same t raw = fun_ext (λ u. elim (Bool-cases (u == t)) [
    | inl e ↦ rw e (ap raw (sym ((==_iff u t).0 e)))
    | inr e ↦ rw e refl
  ])

  -- the id that Postgres stores for a row of the lake is not NULL
  abbrev pub HasId : Text → Dict String Value → Type 0
  HasId t r =
      (x : Row)
      → env.store t (to_row env (table_cols t) r) ≡ some x
      → env.same_id x.event_id x.event_id ≡ true

  -- a row of the lake that is held, and by its id
  abbrev HeldById : Text → (Text → List Row) → Dict String Value → Type 0
  HeldById t raw d = Held env t d raw × HasId t d

  rows_of-present :
      (t : Text) (df : List (Dict String Value)) (rows : List Row) (raw : Text → List Row)
      → rows_of env t df ≡ some rows
      → All (HeldById t raw) df
      → All (λ x. has_id env.same_id x.event_id (raw t) ≡ true) rows
  unfolding rows_of
  rows_of-present t [] rows raw e held =
      let none_left : [] ≡ rows = cc e in
      subst (All (λ x. has_id env.same_id x.event_id (raw t) ≡ true)) none_left tt
  rows_of-present t (d ∷ df) rows raw e held =
      let (x, xs, a, b, eq) =
        cons_row-some env (env.store t (to_row env (table_cols t) d)) (rows_of env t df) rows e in
      let (y, sy, mem) = held.0.0 in
      let same : y ≡ x = cc (sym sy ∙ a) in
      let has = Any-has_id y (raw t) (held.0.1 y sy) mem in
      rw eq (
        subst (λ z. has_id env.same_id z.event_id (raw t) ≡ true) same has,
        rows_of-present t df xs raw b held.1,
      )

  commit-same :
      (a : Insert) (t : Text) (df : List (Dict String Value)) (rows : Option (List Row))
      (raw : Text → List Row) (n : ℕ)
      → rows_of env t df ≡ rows
      → All (HeldById t raw) df
      → (commit env a t rows raw).0 ≡ ok n
      → ((commit env a t rows raw).1 ≡ raw) × (n ≡ 0)
  unfolding commit
  commit-same a t df none raw n o held e = absurd (ground (arith, e))
  commit-same failed t df (some rows) raw n o held e = absurd (ground (arith, e))
  commit-same unconfirmed t df (some rows) raw n o held e = absurd (ground (arith, e))
  commit-same stored t df (some rows) raw n o held e =
      let kept = insert_present rows (raw t) (rows_of-present t df rows raw o held) in
      let m : length (insert_rows env.same_id rows (raw t)) - length (raw t) ≡ n = cc e in
      (rw kept (write_same t raw), omega (arith, ap length kept, m))

  -- a state with the tables as they were and nothing counted
  abbrev IsIdle : (Text → List Row) → Run → Type 0
  IsIdle raw s = (s.raw ≡ raw) × (s.total_rows ≡ 0)

  insert_partition-IsIdle :
      (a : Insert) (t : Text) (df : List (Dict String Value)) (raw : Text → List Row) (s : Run)
      → All (HeldById t raw) df
      → IsIdle raw s
      → (insert_partition env false a t (some df) s).0 ≡ ok tt
      → IsIdle raw (insert_partition env false a t (some df) s).1
  unfolding insert_partition
  insert_partition-IsIdle a t [] raw s held idle e = idle
  insert_partition-IsIdle a t (d ∷ df) raw s held idle e =
      let here : All (HeldById t s.raw) (d ∷ df) =
        subst (λ (q : Text → List Row). All (HeldById t q) (d ∷ df)) (sym idle.0) held in
      elim (Result-cases (commit env a t (rows_of env t (d ∷ df)) s.raw).0) [
        | inl (n, o) ↦
            let (kept, none_new) =
              commit-same a t (d ∷ df) (rows_of env t (d ∷ df)) s.raw n refl here o in
            rw (insert_partition, o) (kept ∙ idle.0, omega (arith, none_new, idle.1))
        | inr (x, o) ↦ absurd (ground (arith, e, o))
      ]

  -- every row that the lake has of the partition is held
  abbrev IsHeld : (Text → List Row) → Partition → Type 0
  IsHeld raw p =
      (df : List (Dict String Value)) (r : Dict String Value)
      → download_parquet env (key_of env p) ≡ some df
      → Any (λ d. d ≡ r) df
      → HeldById p.table raw r

  All-each :
      (t : Text) (raw : Text → List Row) (df : List (Dict String Value))
      → ((r : Dict String Value) → Any (λ d. d ≡ r) df → HeldById t raw r)
      → All (HeldById t raw) df
  All-each t raw [] h = tt
  All-each t raw (d ∷ df) h = (h d (inl refl), All-each t raw df (λ r m. h r (inr m)))

  visit-IsIdle :
      (answer : Partition → Insert) (p : Partition) (raw : Text → List Row) (s : Run)
      → IsHeld raw p
      → IsIdle raw s
      → (visit env false answer p s).0 ≡ ok tt
      → IsIdle raw (visit env false answer p s).1
  unfolding visit insert_partition
  visit-IsIdle answer p raw s held idle e =
      elim (Option-cases (download_parquet env (key_of env p))) [
        | inl o ↦ rw (o, visit) idle
        | inr (df, o) ↦
            rw (o, visit)
              (insert_partition-IsIdle (answer p) p.table df raw s
                (All-each p.table raw df (λ r m. held df r o m)) idle (rw (visit, o) at e))
      ]

  visit_all-IsIdle :
      (answer : Partition → Insert) (ps : List Partition) (raw : Text → List Row) (s : Run)
      → All (IsHeld raw) ps
      → IsIdle raw s
      → (visit_all env false answer ps s).0 ≡ ok tt
      → IsIdle raw (visit_all env false answer ps s).1
  unfolding visit_all
  visit_all-IsIdle answer [] raw s held idle e = idle
  visit_all-IsIdle answer (p ∷ ps) raw s held idle e =
      let done = visit env false answer p s in
      elim (Result-cases done.0) [
        | inl (u, o) ↦
            rw (o, visit_all)
              (visit_all-IsIdle answer ps raw done.1 held.1
                (visit-IsIdle answer p raw s held.0 idle o) (rw (visit_all, o) at e))
        | inr (x, o) ↦ absurd (ground (arith, e, o))
      ]

  -- every row that the lake has of these partitions is stored with an id
  abbrev pub HaveIds : List Partition → Type 0
  HaveIds ps =
      (p : Partition) (df : List (Dict String Value)) (r : Dict String Value)
      → Any (λ q. q ≡ p) ps
      → download_parquet env (key_of env p) ≡ some df
      → Any (λ d. d ≡ r) df
      → HasId p.table r

  -- after a first run, the partitions it went through
  All-IsHeld :
      (answer : Partition → Insert) (all ps : List Partition) (s : Run)
      → (visit_all env false answer all s).0 ≡ ok tt
      → ((p : Partition) → Any (λ q. q ≡ p) ps → Any (λ q. q ≡ p) all)
      → HaveIds all
      → All (IsHeld (visit_all env false answer all s).1.raw) ps
  All-IsHeld answer all [] s e among ids = tt
  All-IsHeld answer all (p ∷ ps) s e among ids = (
    λ df r found mem. (
      visit_all-Held env answer p r df all s e found mem (among p (inl refl)),
      ids p df r (among p (inl refl)) found mem,
    ),
    All-IsHeld answer all ps s e (λ q m. among q (inr m)) ids,
  )

  -- Let each row that the lake has of these days and tables be stored with an id that is not NULL, and let two
  -- backfills of the same days and tables, neither of them a dry run, end
  -- without an exception, one after the other. Then the second leaves every raw table as it was, and reports no
  -- new row.
  pub backfill-again :
      (connected connected2 : Bool) (answer answer2 : Partition → Insert) (start stop : ℕ)
      (tables : List Text) (s : Run)
      → HaveIds (partitions (date_range start stop) tables)
      → (backfill env false connected answer start stop tables s).0 ≡ ok tt
      → (backfill env false connected2 answer2 start stop tables
          (backfill env false connected answer start stop tables s).1).0
        ≡ ok tt
      → IsIdle
          (backfill env false connected answer start stop tables s).1.raw
          (backfill env false connected2 answer2 start stop tables
            (backfill env false connected answer start stop tables s).1).1
  unfolding backfill
  backfill-again false c2 answer answer2 start stop tables s ids e1 e2 = absurd (ground (arith, e1))
  backfill-again true false answer answer2 start stop tables s ids e1 e2 =
      absurd (ground (arith, e2))
  backfill-again true true answer answer2 start stop tables s ids e1 e2 =
      let ps = partitions (date_range start stop) tables in
      visit_all-IsIdle answer2 ps _ _
        (All-IsHeld answer ps ps (opened env false s) e1 (λ p m. m) ids) (refl, refl) e2
