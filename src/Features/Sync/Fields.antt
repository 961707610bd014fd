-- ===== src/Features/Sync/Fields.antt =====
-- The hash fields that the nightly batch and the stream consumer write.
use weather_demand_forecast.Floats.{Floats}
use weather_demand_forecast.Prelude.{
  ℕ, ◌+◌, ◌≡◌, refl, sym, ap, ◌∙◌, String, Bool, true, false, List, [], ◌∷◌, Option, none, some,
  inl, inr, Bool-cases, ◌||◌, length, ◌==◌, ==_iff, String_eq, if◌then◌else◌,
}
use weather_demand_forecast.Prelude.Dict.{Dict, get, put, update, get-put}
use weather_demand_forecast.Json.{Result, ok, raise}
use weather_demand_forecast.Stream.RedisOps.{Redis, Hash, hset, or_empty}
use weather_demand_forecast.Features.Registry.{Feature, batch, by_source, route_features, names}
use weather_demand_forecast.Features.Sync.{
  Executed, executed, broke, take, batches, Row, put_value, mapping_of, write_row, write_rows,
  write_batches, set_sentinel, sync_to_redis,
}

-- HGET feat:route:{route} field
abbrev pub field_of : String → String → Redis → Option String
field_of route f r = get f (or_empty (get route r.routes))

abbrev pub overlay : Option String → Option String → Option String
overlay none v = v
overlay (some w) v = some w

-- what a mapping leaves at a key
unfoldable pub last : String → Hash → Option String
last f [] = none
last f ((k, v) ∷ m) = overlay (last f m) (if k == f then some v else none)

pub overlay_assoc : (a b c : Option String) → overlay (overlay a b) c ≡ overlay a (overlay b c)
overlay_assoc none b c = refl
overlay_assoc (some a) b c = refl

get-update : (f : String) (m d : Hash) → get f (update m d) ≡ overlay (last f m) (get f d)
unfolding update last
get-update f [] d = refl
get-update f ((k, v) ∷ m) d =
    get-update f m (put k v d)
    ∙ ap (overlay (last f m)) (get-put k f v d)
    ∙ elim (Bool-cases (k == f)) [
      | inl same ↦ rw (same) (sym (overlay_assoc (last f m) (some v) (get f d)))
      | inr differ ↦ rw (differ) (sym (overlay_assoc (last f m) none (get f d)))
    ]

pub field-hset :
    (route f key : String) (m : Hash) (hashes : Dict String Hash)
    → get f (or_empty (get route (hset key m hashes)))
      ≡ overlay (if key == route then last f m else none) (get f (or_empty (get route hashes)))
unfolding hset
field-hset route f key m hashes =
    ap (λ h. get f (or_empty h)) (get-put key route (update m (or_empty (get key hashes))) hashes)
    ∙ elim (Bool-cases (key == route)) [
      | inl same ↦ rw (same) (
          get-update f m (or_empty (get key hashes))
          ∙ ap (λ k. overlay (last f m) (get f (or_empty (get k hashes))))
              ((==_iff key route).0 same))
      | inr differ ↦ rw (differ) refl
    ]

pub last-put_other :
    (f k : String) (v : String) (m : Hash) → (k == f) ≡ false → last f (put k v m) ≡ last f m
unfolding last put
last-put_other f k v [] differ = rw (differ) refl
last-put_other f k v ((j, w) ∷ m) differ = elim (Bool-cases (j == k)) [
  | inl same ↦ rw (same, ap (λ x. x == f) ((==_iff j k).0 same) ∙ differ) refl
  | inr other ↦
      rw (other)
        (ap (λ l. overlay l (if j == f then some w else none)) (last-put_other f k v m differ))
]

unfoldable pub is_one_of : String → List String → Bool
is_one_of f [] = false
is_one_of f (k ∷ ks) = (k == f) || is_one_of f ks

-- the fields of the two writers
unfoldable pub batch_fields : List String
unfolding names by_source
batch_fields = "batch_computed_at" ∷ names (by_source batch route_features)

unfoldable pub demand_fields : List String
demand_fields = "searches_5m" ∷ "bookings_15m" ∷ "look_to_book_1h" ∷ "stream_computed_at" ∷ []

-- A change of Redis that leaves the stream's sets, and at each hash field either writes a value or,
-- outside the fields of the batch, leaves what was there.
pub record Overlays (op : Redis → Redis) : Type 0 where
  pub written :
      (route f : String)
      → (w : Option String) × ((r : Redis)
          → field_of route f (op r) ≡ overlay w (field_of route f r))
        × (is_one_of f batch_fields ≡ false → w ≡ none)
  pub searches_kept : (r : Redis) → (op r).searches ≡ r.searches
  pub bookings_kept : (r : Redis) → (op r).bookings ≡ r.bookings

Overlays-id : Overlays (λ r. r)
Overlays-id = record {
  written = λ route f. (none, λ r. refl, λ outside. refl);
  searches_kept = λ r. refl;
  bookings_kept = λ r. refl;
}

Overlays-compose :
    {op op2 : Redis → Redis} → Overlays op → Overlays op2 → Overlays (λ r. op2 (op r))
Overlays-compose {op} {op2} a b = record {
  written = λ route f.
      let (v, v_written, v_none) = a.written route f in
      let (w, w_written, w_none) = b.written route f in
      (
        overlay w v,
        λ r.
            w_written (op r)
            ∙ ap (overlay w) (v_written r)
            ∙ sym (overlay_assoc w v (field_of route f r)),
        λ outside. rw (w_none outside, v_none outside) refl,
      );
  searches_kept = λ r. b.searches_kept (op r) ∙ a.searches_kept r;
  bookings_kept = λ r. b.bookings_kept (op r) ∙ a.bookings_kept r;
}

module _ (fl : Floats) (now : String) where
  put_value-last_other :
      (f name : String) (v : Option fl.Float) (m : Hash)
      → (name == f) ≡ false
      → last f (put_value fl name v m) ≡ last f m
  unfolding put_value
  put_value-last_other f name none m differ = refl
  put_value-last_other f name (some x) m differ = last-put_other f name (fl.str x) m differ

  pub mapping_of-last_other :
      (f : String) (fs : List Feature) (row : Row fl) (m : Hash)
      → is_one_of f (names fs) ≡ false
      → last f (mapping_of fl fs row m) ≡ last f m
  unfolding mapping_of names is_one_of
  mapping_of-last_other f [] row m outside = refl
  mapping_of-last_other f (g ∷ fs) row m outside = elim (Bool-cases (g.name == f)) [
    | inl same ↦ cc
    | inr differ ↦
        mapping_of-last_other f fs row (put_value fl g.name (row.value g.name) m)
          (rw (differ) at outside)
        ∙ put_value-last_other f g.name (row.value g.name) m differ
  ]

  row_mapping : Row fl → Hash
  row_mapping row =
      put "batch_computed_at" now (mapping_of fl (by_source batch route_features) row [])

  row_mapping-last_other :
      (f : String) (row : Row fl)
      → is_one_of f batch_fields ≡ false
      → last f (row_mapping row) ≡ none
  unfolding is_one_of batch_fields row_mapping last
  row_mapping-last_other f row outside = elim (Bool-cases ("batch_computed_at" == f)) [
    | inl same ↦ cc
    | inr differ ↦
        last-put_other f "batch_computed_at" now
          (mapping_of fl (by_source batch route_features) row []) differ
        ∙ mapping_of-last_other f (by_source batch route_features) row [] (rw (differ) at outside)
  ]

  write_row-Overlays : (row : Row fl) → Overlays (write_row fl now row)
  unfolding write_row row_mapping
  write_row-Overlays row = record {
    written = λ route f. (
      if row.route_id == route then last f (row_mapping row) else none,
      λ r. field-hset route f row.route_id (row_mapping row) r.routes,
      λ outside. elim (Bool-cases (row.route_id == route)) [
        | inl same ↦ rw (same) (row_mapping-last_other f row outside)
        | inr differ ↦ rw (differ) refl
      ],
    );
    searches_kept = λ r. refl;
    bookings_kept = λ r. refl;
  }

  write_rows-Overlays : (rows : List (Row fl)) → Overlays (write_rows fl now rows)
  unfolding write_rows
  write_rows-Overlays [] = Overlays-id
  write_rows-Overlays (row ∷ rows) =
      Overlays-compose (write_row-Overlays row) (write_rows-Overlays rows)

  module _ (answers : ℕ → Executed) where
    write_batches-Overlays :
        (i : ℕ) (bs : List (List (Row fl)))
        → Overlays (λ r. (write_batches fl now answers i bs r).1)
    unfolding write_batches
    write_batches-Overlays i [] = Overlays-id
    write_batches-Overlays i (b ∷ bs) = go (answers i) refl (write_batches-Overlays (i + 1) bs)
      where
        go :
            (a : Executed)
            → answers i ≡ a
            → Overlays (λ r. (write_batches fl now answers (i + 1) bs r).1)
            → Overlays (λ r. (write_batches fl now answers i (b ∷ bs) r).1)
        go executed e rest = rw (e, write_batches) (Overlays-compose (write_rows-Overlays b) rest)
        go (broke n) e rest = rw (e, write_batches) (write_rows-Overlays (take n b))

    set_sentinel-keeps :
        (taken : Bool) (p : Result (Unit {0}) × Redis)
        → ((set_sentinel fl now taken p).1.routes ≡ p.1.routes)
          × ((set_sentinel fl now taken p).1.searches ≡ p.1.searches)
          × ((set_sentinel fl now taken p).1.bookings ≡ p.1.bookings)
    unfolding set_sentinel
    set_sentinel-keeps taken (raise e, r) = (refl, refl, refl)
    set_sentinel-keeps true (ok u, r) = (refl, refl, refl)
    set_sentinel-keeps false (ok u, r) = (refl, refl, refl)

    set_sentinel-Overlays :
        (taken : Bool) (op : Redis → Result (Unit {0}) × Redis)
        → Overlays (λ r. (op r).1)
        → Overlays (λ r. (set_sentinel fl now taken (op r)).1)
    set_sentinel-Overlays taken op o = record {
      written = λ route f.
          let (w, w_written, w_none) = o.written route f in
          (
            w,
            λ r.
                ap (λ hs. get f (or_empty (get route hs))) (set_sentinel-keeps taken (op r)).0
                ∙ w_written r,
            w_none,
          );
      searches_kept = λ r. (set_sentinel-keeps taken (op r)).1 ∙ o.searches_kept r;
      bookings_kept = λ r. (set_sentinel-keeps taken (op r)).2 ∙ o.bookings_kept r;
    }

    pub sync_to_redis-Overlays :
        (size : ℕ) (taken : Bool) (fetched : Result (List (Row fl)))
        → Overlays (λ r. (sync_to_redis fl size now answers taken fetched r).1)
    unfolding sync_to_redis
    sync_to_redis-Overlays size taken (raise e) = Overlays-id
    sync_to_redis-Overlays size taken (ok []) = Overlays-id
    sync_to_redis-Overlays size taken (ok (row ∷ rows)) =
        set_sentinel-Overlays taken
          (write_batches fl now answers 0 (batches (length (row ∷ rows)) size (row ∷ rows)))
          (write_batches-Overlays 0 (batches (length (row ∷ rows)) size (row ∷ rows)))
