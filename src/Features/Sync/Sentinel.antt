-- ===== src/Features/Sync/Sentinel.antt =====
-- What the sentinel `feat:sync:completed_at` says of the routes' hashes.
use mathlib.Core.Path.{subst}
use weather_demand_forecast.Floats.{Floats}
use weather_demand_forecast.Prelude.{
  ℕ, zero, suc, ◌+◌, ◌≤◌, ◌≡◌, refl, sym, ap, ◌∙◌, ◌⊎◌, inl, inr, String, Bool, true, false, List,
  [], ◌∷◌, ◌++◌, Option, none, some, Bool-cases, All, length, ◌==◌, ==_refl, String_eq,
  if◌then◌else◌, arith,
}
use weather_demand_forecast.Json.{Result, ok, raise, redis_error}
use weather_demand_forecast.Stream.RedisOps.{Redis, Hash}
use weather_demand_forecast.Prelude.Dict.{put}
use weather_demand_forecast.Features.Registry.{batch, names, by_source, route_features}
use weather_demand_forecast.Features.Sync.{
  Executed, executed, broke, take, drop, batches, Row, mapping_of, write_row, write_rows,
  write_batches, set_sentinel, sync_to_redis,
}
use weather_demand_forecast.Features.Sync.Fields.{
  field_of, overlay, last, field-hset, is_one_of, mapping_of-last_other,
}

-- the batches are the rows again
take-drop {ℓ} : {A : Type ℓ} (n : ℕ) (xs : List A) → take n xs ++ drop n xs ≡ xs
unfolding take drop
take-drop zero [] = refl
take-drop (suc n) [] = refl
take-drop zero (x ∷ xs) = refl
take-drop (suc n) (x ∷ xs) = ap (λ t. x ∷ t) (take-drop n xs)

length-drop {ℓ} : {A : Type ℓ} (n : ℕ) (xs : List A) → length (drop n xs) ≤ length xs
unfolding drop
length-drop zero [] = omega arith
length-drop (suc n) [] = omega arith
length-drop zero (x ∷ xs) = omega arith
length-drop (suc n) (x ∷ xs) = omega (arith, length-drop n xs)

join {ℓ} : {A : Type ℓ} → List (List A) → List A
join [] = []
join (xs ∷ xss) = xs ++ join xss

join-batches {ℓ} :
    {A : Type ℓ} (fuel size : ℕ) (rows : List A)
    → length rows ≤ fuel
    → join (batches fuel (suc size) rows) ≡ rows
unfolding batches join take drop
join-batches zero size [] enough = refl
join-batches zero size (r ∷ rows) enough = absurd (omega (arith, enough))
join-batches (suc fuel) size [] enough = refl
join-batches (suc fuel) size (r ∷ rows) enough =
    ap (λ t. r ∷ take size rows ++ t)
      (join-batches fuel size (drop size rows) (omega (arith, enough, length-drop size rows)))
    ∙ ap (λ t. r ∷ t) (take-drop size rows)

overlay-none : (a b : Option String) → overlay a b ≡ none → (a ≡ none) × (b ≡ none)
overlay-none none b h = (refl, h)
overlay-none (some a) b h = cc

not_same : (j k w : String) → (if j == k then some w else none) ≡ none → (j == k) ≡ false
not_same j k w h = elim (Bool-cases (j == k)) [
  | inl same ↦ absurd_none w (rw (same) at h)
  | inr differ ↦ differ
]
  where
    absurd_none : (x : String) → some x ≡ none → (j == k) ≡ false
    absurd_none x e = cc

last-put_new : (k v : String) (m : Hash) → last k m ≡ none → last k (put k v m) ≡ some v
unfolding last put
last-put_new k v [] fresh = rw (==_refl k) refl
last-put_new k v ((j, w) ∷ m) fresh =
    let (rest, head) = overlay-none (last k m) (if j == k then some w else none) fresh in
    rw (not_same j k w head, last-put_new k v m rest) refl

module _ (fl : Floats) (now : String) where
  -- the hash of the route is stamped with the time of this run
  unfoldable pub Stamped : Redis → Row fl → Type 0
  Stamped r row = field_of row.route_id "batch_computed_at" r ≡ some now

  write_row-field :
      (row : Row fl) (route : String) (r : Redis)
      → field_of route "batch_computed_at" (write_row fl now row r)
        ≡ (if row.route_id == route then some now else field_of route "batch_computed_at" r)
  unfolding write_row last is_one_of by_source names
  write_row-field row route r =
      let m = mapping_of fl (by_source batch route_features) row [] in
      let fresh =
        mapping_of-last_other fl now "batch_computed_at" (by_source batch route_features) row []
          refl in
      field-hset route "batch_computed_at" row.route_id (put "batch_computed_at" now m) r.routes
      ∙ elim (Bool-cases (row.route_id == route)) [
        | inl same ↦ rw (same, last-put_new "batch_computed_at" now m fresh) refl
        | inr differ ↦ rw (differ) refl
      ]

  write_row-Stamped : (row : Row fl) (r : Redis) → Stamped (write_row fl now row r) row
  unfolding Stamped
  write_row-Stamped row r = write_row-field row row.route_id r ∙ rw (==_refl row.route_id) refl

  write_row-keeps :
      (row other : Row fl) (r : Redis) → Stamped r other → Stamped (write_row fl now row r) other
  unfolding Stamped
  write_row-keeps row other r stamped =
      write_row-field row other.route_id r ∙ elim (Bool-cases (row.route_id == other.route_id)) [
        | inl same ↦ rw (same) refl
        | inr differ ↦ rw (differ) stamped
      ]

  write_rows-keeps :
      (rows : List (Row fl)) (other : Row fl) (r : Redis)
      → Stamped r other
      → Stamped (write_rows fl now rows r) other
  unfolding write_rows
  write_rows-keeps [] other r stamped = stamped
  write_rows-keeps (row ∷ rows) other r stamped =
      write_rows-keeps rows other (write_row fl now row r) (write_row-keeps row other r stamped)

  write_rows-Stamped :
      (rows : List (Row fl)) (r : Redis) → All (Stamped (write_rows fl now rows r)) rows
  unfolding write_rows
  write_rows-Stamped [] r = tt
  write_rows-Stamped (row ∷ rows) r = (
    write_rows-keeps rows row (write_row fl now row r) (write_row-Stamped row r),
    write_rows-Stamped rows (write_row fl now row r),
  )

  write_rows-append :
      (xs ys : List (Row fl)) (r : Redis)
      → write_rows fl now (xs ++ ys) r ≡ write_rows fl now ys (write_rows fl now xs r)
  unfolding write_rows
  write_rows-append [] ys r = refl
  write_rows-append (x ∷ xs) ys r = write_rows-append xs ys (write_row fl now x r)

  module _ (answers : ℕ → Executed) where
    -- the batches fail, or they have written every row
    write_batches-all :
        (i : ℕ) (bs : List (List (Row fl))) (r : Redis)
        → ((write_batches fl now answers i bs r).0 ≡ raise redis_error)
          ⊎ (write_batches fl now answers i bs r ≡ (ok tt, write_rows fl now (join bs) r))
    unfolding write_batches join write_rows
    write_batches-all i [] r = inr refl
    write_batches-all i (b ∷ bs) r =
        go (answers i) refl (write_batches-all (i + 1) bs (write_rows fl now b r))
      where
        go :
            (a : Executed)
            → answers i ≡ a
            → ((write_batches fl now answers (i + 1) bs (write_rows fl now b r)).0
                ≡ raise redis_error)
              ⊎ (write_batches fl now answers (i + 1) bs (write_rows fl now b r)
                  ≡ (ok tt, write_rows fl now (join bs) (write_rows fl now b r)))
            → ((write_batches fl now answers i (b ∷ bs) r).0 ≡ raise redis_error)
              ⊎ (write_batches fl now answers i (b ∷ bs) r
                  ≡ (ok tt, write_rows fl now (b ++ join bs) r))
        go (broke n) e rest = inl (rw (e, write_batches) refl)
        go executed e (inl failure) = inl (rw (e, write_batches) failure)
        go executed e (inr done) = inr (rw (e, write_rows-append b (join bs) r, write_batches) done)

    write_rows-sentinel :
        (rows : List (Row fl)) (r : Redis)
        → (write_rows fl now rows r).sync_completed_at ≡ r.sync_completed_at
    unfolding write_rows write_row
    write_rows-sentinel [] r = refl
    write_rows-sentinel (row ∷ rows) r = write_rows-sentinel rows (write_row fl now row r)

    write_batches-sentinel :
        (i : ℕ) (bs : List (List (Row fl))) (r : Redis)
        → (write_batches fl now answers i bs r).1.sync_completed_at ≡ r.sync_completed_at
    unfolding write_batches
    write_batches-sentinel i [] r = refl
    write_batches-sentinel i (b ∷ bs) r =
        go (answers i) refl (write_batches-sentinel (i + 1) bs (write_rows fl now b r))
      where
        go :
            (a : Executed)
            → answers i ≡ a
            → (write_batches fl now answers (i + 1) bs (write_rows fl now b r)).1.sync_completed_at
              ≡ (write_rows fl now b r).sync_completed_at
            → (write_batches fl now answers i (b ∷ bs) r).1.sync_completed_at ≡ r.sync_completed_at
        go executed e rest = rw (e, write_batches) (rest ∙ write_rows-sentinel b r)
        go (broke n) e rest = rw (e, write_batches) (write_rows-sentinel (take n b) r)

    set_sentinel-outcome :
        (taken : Bool) (p : Result (Unit {0}) × Redis) (rows : List (Row fl)) (r : Redis)
        → p.1.sync_completed_at ≡ r.sync_completed_at
        → (p.0 ≡ raise redis_error) ⊎ ((p.0 ≡ ok tt) × All (Stamped p.1) rows)
        → let after = set_sentinel fl now taken p in
          ((after.0 ≡ ok tt) × (after.1.sync_completed_at ≡ some now) × All (Stamped after.1) rows)
          ⊎ ((after.0 ≡ raise redis_error) × (after.1.sync_completed_at ≡ r.sync_completed_at))
    unfolding set_sentinel Stamped
    set_sentinel-outcome taken (raise e, q) rows r kept (inl failure) = inr (failure, kept)
    set_sentinel-outcome taken (raise e, q) rows r kept (inr (done, stamped)) = cc
    set_sentinel-outcome true (ok u, q) rows r kept (inl failure) = cc
    set_sentinel-outcome true (ok u, q) rows r kept (inr (done, stamped)) =
        inl (refl, refl, stamped)
    set_sentinel-outcome false (ok u, q) rows r kept h = inr (refl, kept)

    -- Take any batch size above zero. If the sync of a table that is not empty succeeds, the sentinel
    -- is the time of this run and the hash of every route in the table is stamped with it; else a batch or
    -- the write of the sentinel has failed, and the sentinel is what it was.
    pub sync_to_redis-sentinel :
        (size : ℕ) (taken : Bool) (row : Row fl) (rows : List (Row fl)) (r : Redis)
        → let after = sync_to_redis fl (suc size) now answers taken (ok (row ∷ rows)) r in
          ((after.0 ≡ ok tt)
            × (after.1.sync_completed_at ≡ some now)
            × All (Stamped after.1) (row ∷ rows))
          ⊎ ((after.0 ≡ raise redis_error) × (after.1.sync_completed_at ≡ r.sync_completed_at))
    unfolding sync_to_redis
    sync_to_redis-sentinel size taken row rows r =
        let table = row ∷ rows in
        let bs = batches (length table) (suc size) table in
        let whole = join-batches (length table) size table (omega arith) in
        let stamped =
          subst (λ xs. All (Stamped (write_rows fl now xs r)) table) (sym whole)
            (write_rows-Stamped table r) in
        set_sentinel-outcome taken (write_batches fl now answers 0 bs r) table r
          (write_batches-sentinel 0 bs r)
          (elim (write_batches-all 0 bs r) [
            | inl failure ↦ inl failure
            | inr done ↦
                inr (ap (λ p. p.0) done, subst (λ p. All (Stamped p.1) table) (sym done) stamped)
          ])
