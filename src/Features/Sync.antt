-- ===== src/Features/Sync.antt =====
-- services/worker/app/feature_store.py: the nightly job. The SQL of the mart and of the query for the
-- latest row of each route is not written in this program; what they answer is an argument.
pub mod Fields
pub mod Commute
pub mod Sentinel
use weather_demand_forecast.Floats.{Floats}
use weather_demand_forecast.Prelude.{
  ℕ, zero, suc, ◌+◌, String, Bool, true, false, List, [], ◌∷◌, Option, none, some, if◌then◌else◌,
  length, String_eq,
}
use weather_demand_forecast.Prelude.Dict.{put}
use weather_demand_forecast.Json.{Exc, redis_error, Result, ok, raise, ◌>>=◌}
use weather_demand_forecast.Stream.RedisOps.{Redis, Hash, hset}
use weather_demand_forecast.Features.Registry.{Feature, batch, by_source, route_features}

abbrev pub pipeline_batch_size : ℕ
pipeline_batch_size = 500

-- l[:n] and l[n:]
unfoldable pub take {ℓ} : {A : Type ℓ} → ℕ → List A → List A
take n [] = []
take zero (x ∷ xs) = []
take (suc n) (x ∷ xs) = x ∷ take n xs

unfoldable pub drop {ℓ} : {A : Type ℓ} → ℕ → List A → List A
drop n [] = []
drop zero (x ∷ xs) = x ∷ xs
drop (suc n) (x ∷ xs) = drop n xs

-- rows[start : start + size] for start in range(0, len(rows), size); `fuel` bounds the number of
-- batches
unfoldable pub batches {ℓ} : {A : Type ℓ} → ℕ → ℕ → List A → List (List A)
unfolding take drop
batches zero size rows = []
batches (suc fuel) size [] = []
batches (suc fuel) size (r ∷ rows) = take size (r ∷ rows) ∷ batches fuel size (drop size (r ∷ rows))

-- what the execution of a pipeline did: all its commands, or the first few and then RedisError
pub data Executed : Type 0 where
  executed : Executed
  broke : ℕ → Executed

module _ (fl : Floats) where
  pub record Row : Type 0 where
    pub route_id : String
    -- row.get(name)
    pub value : String → Option fl.Float

  unfoldable pub put_value : String → Option fl.Float → Hash → Hash
  unfolding put
  put_value name none mapping = mapping
  put_value name (some v) mapping = put name (fl.str v) mapping

  unfoldable pub mapping_of : List Feature → Row → Hash → Hash
  unfolding put_value
  mapping_of [] row mapping = mapping
  mapping_of (f ∷ fs) row mapping = mapping_of fs row (put_value f.name (row.value f.name) mapping)

  -- the HSET of a row
  unfoldable pub write_row : String → Row → Redis → Redis
  unfolding mapping_of by_source put
  write_row batch_computed_at row r = record r {
    routes =
        hset row.route_id
          (put "batch_computed_at" batch_computed_at
            (mapping_of (by_source batch route_features) row []))
          r.routes;
  }

  unfoldable pub write_rows : String → List Row → Redis → Redis
  unfolding write_row
  write_rows now [] r = r
  write_rows now (row ∷ rows) r = write_rows now rows (write_row now row r)

  -- what the batches answer, by their number
  unfoldable pub write_batches :
      String → (ℕ → Executed) → ℕ → List (List Row) → Redis → Result (Unit {0}) × Redis
  unfolding write_rows take
  write_batches now answers i [] r = (ok tt, r)
  write_batches now answers i (b ∷ bs) r =
      let rest = write_batches now answers (i + 1) bs (write_rows now b r) in
      elim (answers i) [
        | executed ↦ rest
        | broke n ↦ (raise redis_error, write_rows now (take n b) r)
      ]

  -- the sentinel, after the last batch
  unfoldable pub set_sentinel :
      String → Bool → Result (Unit {0}) × Redis → Result (Unit {0}) × Redis
  set_sentinel now taken (raise e, r) = (raise e, r)
  set_sentinel now taken (ok u, r) =
      if taken then (ok tt, record r { sync_completed_at = some now }) else (raise redis_error, r)

  unfoldable pub sync_to_redis :
      ℕ → String → (ℕ → Executed) → Bool → Result (List Row) → Redis → Result (Unit {0}) × Redis
  unfolding write_batches batches set_sentinel
  sync_to_redis size now answers set_taken (raise e) r = (raise e, r)
  sync_to_redis size now answers set_taken (ok []) r = (ok tt, r)
  sync_to_redis size now answers set_taken (ok (row ∷ rows)) r =
      set_sentinel now set_taken
        (write_batches now answers 0 (batches (length (row ∷ rows)) size (row ∷ rows)) r)

  -- run_feature_store; `mart` is the outcome of the mart's SQL
  unfoldable pub run_feature_store :
      Result (Unit {0})
      → String
      → (ℕ → Executed)
      → Bool
      → Result (List Row)
      → Redis
      → Result (Unit {0}) × Redis
  unfolding sync_to_redis
  run_feature_store (raise e) now answers set_taken rows r = (raise e, r)
  run_feature_store (ok u) now answers set_taken rows r =
      sync_to_redis pipeline_batch_size now answers set_taken rows r
