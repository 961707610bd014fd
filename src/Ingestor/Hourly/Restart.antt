-- ===== src/Ingestor/Hourly/Restart.antt =====
-- A restart: what the listing shows is not put again.
use weather_demand_forecast.Prelude.{
  ℕ, ◌/◌, ◌%◌, ◌≡◌, refl, true, List, [], ◌∷◌, ◌++◌, Option, none, some, Any, Any-append-cases,
  count, arith, ==_refl, Bool-cases, inl, inr,
}
use weather_demand_forecast.Prelude.Texts.{Text}
use weather_demand_forecast.Stream.RedisOps.{w_1h}
use weather_demand_forecast.Ingestor.Hourly.Keys.{s3_key, parse_s3_key}
use weather_demand_forecast.Ingestor.Hourly.{
  Python, Key, Key_eq, Writer, Run, member, key_of, add_parsed, add_page, sync_written_set_from_s3,
  run,
}
use weather_demand_forecast.Ingestor.Hourly.Reading.{
  IsSegment, IsDate, KnowsAscii, parse_s3_key-s3_key,
}
use weather_demand_forecast.Ingestor.Hourly.Once.{has_key, run-uploads_once}

-- the names listed before an error
abbrev pub listed : List (Option (List Text)) → List Text
listed [] = []
listed (none ∷ pages) = []
listed (some os ∷ pages) = os ++ listed pages

module _ (py : Python) where
  add_parsed-member :
      (k : Key) (p : Option (Text × Text × ℕ)) (ks : List Key)
      → member k ks ≡ true
      → member k (add_parsed py p ks) ≡ true
  unfolding add_parsed member
  add_parsed-member k none ks m = m
  add_parsed-member k (some p) ks m =
      elim (Bool-cases (member (record { table = p.0; dt = p.1; hour = p.2 }) ks)) [
        | inl e ↦ rw e m
        | inr e ↦ rw e (ground (arith, m))
      ]

  add_page-member :
      (k : Key) (os : List Text) (ks : List Key)
      → member k ks ≡ true
      → member k (add_page py os ks) ≡ true
  unfolding add_page
  add_page-member k [] ks m = m
  add_page-member k (o ∷ os) ks m =
      add_page-member k os (add_parsed py (parse_s3_key py.digit o) ks)
        (add_parsed-member k (parse_s3_key py.digit o) ks m)

  sync-member :
      (k : Key) (pages : List (Option (List Text))) (ks : List Key)
      → member k ks ≡ true
      → member k (sync_written_set_from_s3 py pages ks) ≡ true
  unfolding sync_written_set_from_s3
  sync-member k [] ks m = m
  sync-member k (none ∷ pages) ks m = m
  sync-member k (some os ∷ pages) ks m =
      sync-member k pages (add_page py os ks) (add_page-member k os ks m)

  add_parsed-new :
      (k : Key) (ks : List Key) → member k (add_parsed py (some (k.table, k.dt, k.hour)) ks) ≡ true
  unfolding add_parsed member
  add_parsed-new k ks = elim (Bool-cases (member k ks)) [
    | inl e ↦ rw e e
    | inr e ↦ rw (e, ==_refl k) refl
  ]

  module _ (k : Key) (name : Text)
      (reads : parse_s3_key py.digit name ≡ some (k.table, k.dt, k.hour)) where
    add_page-Any :
        (os : List Text) (ks : List Key)
        → Any (λ o. o ≡ name) os
        → member k (add_page py os ks) ≡ true
    unfolding add_page
    add_page-Any [] ks m = elim m [ ]
    add_page-Any (o ∷ os) ks (inl e) =
        add_page-member k os (add_parsed py (parse_s3_key py.digit o) ks)
          (rw (e, reads) (add_parsed-new k ks))
    add_page-Any (o ∷ os) ks (inr m) =
        add_page-Any os (add_parsed py (parse_s3_key py.digit o) ks) m

    sync-Any :
        (pages : List (Option (List Text))) (ks : List Key)
        → Any (λ o. o ≡ name) (listed pages)
        → member k (sync_written_set_from_s3 py pages ks) ≡ true
    unfolding sync_written_set_from_s3
    sync-Any [] ks m = elim m [ ]
    sync-Any (none ∷ pages) ks m = elim m [ ]
    sync-Any (some os ∷ pages) ks m = elim (Any-append-cases (λ o. o ≡ name) os (listed pages) m) [
      | inl l ↦ sync-member k pages (add_page py os ks) (add_page-Any os ks l)
      | inr r ↦ sync-Any pages (add_page py os ks) r
    ]

  -- When the listing of a run shows, before any error, the name under which a table's hour is put, the run
  -- does not put that table's hour: names are read back, for a table whose name is not empty and has no
  -- slash, where the date is written in digits and the ten digits are known.
  pub listed_not_uploaded :
      (r : Run) (c : ℕ) (table : Text) (h : ℕ)
      → KnowsAscii py.digit
      → IsSegment (c ∷ table)
      → IsDate py.digit (py.strftime h)
      → Any (λ o. o ≡ s3_key (c ∷ table) (py.strftime h) (h / w_1h % 24)) (listed r.pages)
      → (s : Writer) × (run py r ≡ some s)
        × (count (has_key py (key_of py (c ∷ table) h)) s.puts ≡ 0)
  listed_not_uploaded r c table h ascii segment dated shown =
      let k = key_of py (c ∷ table) h in
      let reads =
        parse_s3_key-s3_key py.digit ascii c table (py.strftime h) (h / w_1h % 24) segment dated
          (omega arith) in
      let (s, ran, once) = run-uploads_once py r in
      (
        s,
        ran,
        (once k).1 (
            sync-Any k (s3_key (c ∷ table) (py.strftime h) (h / w_1h % 24)) reads r.pages [] shown),
      )
