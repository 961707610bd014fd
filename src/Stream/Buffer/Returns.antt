-- ===== src/Stream/Buffer/Returns.antt =====
-- When a flush returns.
use weather_demand_forecast.Prelude.{
  ℕ, ◌≡◌, ◌≢◌, refl, List, [], ◌∷◌, ◌++◌, inl, inr, String_eq, ℕ_eq,
}
use weather_demand_forecast.Json.{Exc, Result, ok, raise}
use weather_demand_forecast.Stream.Buffer.{
  Record, Part, Object, ParquetBuffer, Upload, fails, partition, put_object, object_of, upload_all,
  restore, flush,
}
use weather_demand_forecast.Stream.Buffer.Parts.{Upload-cases}

restore_ok :
    (arrived : List Record) (done : Result (List Record) × List Object)
    → ((e : Exc) → done.0 ≢ raise e)
    → (restore arrived done).0 ≡ ok tt
unfolding restore
restore_ok arrived (ok failed, lake) safe = refl
restore_ok arrived (raise e, lake) safe = absurd (safe e refl)

upload_all-safe :
    (answer : Part → Upload) (epoch_ms : ℕ) (ps : List Part) (failed : List Record)
    (lake : List Object)
    → ((p : Part) (e : Exc) → answer p ≢ fails e)
    → (e : Exc) → (upload_all answer epoch_ms ps failed lake).0 ≢ raise e
unfolding upload_all
upload_all-safe answer epoch_ms [] failed lake safe e = λ h. cc h
upload_all-safe answer epoch_ms (p ∷ ps) failed lake safe e = elim (Upload-cases (answer p)) [
  | inl (inl h) ↦
      rw (h, upload_all)
        (upload_all-safe answer epoch_ms ps failed (put_object (object_of epoch_ms p) lake) safe e)
  | inl (inr h) ↦
      rw (h, upload_all) (upload_all-safe answer epoch_ms ps (failed ++ p.records) lake safe e)
  | inr (x, h) ↦ absurd (safe p x h)
]

-- a flush returns where no upload raises
pub flush_returns :
    (answer : Part → Upload) (epoch_ms : ℕ) (arrived : List Record) (b : ParquetBuffer)
    → ((p : Part) (e : Exc) → answer p ≢ fails e)
    → (flush answer epoch_ms arrived b).0 ≡ ok tt
unfolding flush
flush_returns answer epoch_ms arrived b safe =
    restore_ok arrived (upload_all answer epoch_ms (partition b.pending []) [] b.lake)
      (upload_all-safe answer epoch_ms (partition b.pending []) [] b.lake safe)
