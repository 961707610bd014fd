-- ===== src/Ingestor/Hourly/Once.antt =====
-- No object is put twice, and none that is in the lake.
use weather_demand_forecast.Prelude.{
  ℕ, ◌+◌, ◌≤◌, ◌≡◌, refl, Bool, true, false, List, [], ◌∷◌, ◌++◌, Option, none, some, count,
  count-append, arith, Bool-cases, ◌⊎◌, inl, inr, if◌then◌else◌,
}
use weather_demand_forecast.Prelude.Texts.{Text}
use weather_demand_forecast.Ingestor.Hourly.{
  Python, Key, Key_eq, TableRow, Put, Answers, Writer, Run, member, same_key, same_key_iff, key_of,
  upload, write_partition, maybe_write, sync_written_set_from_s3, run,
}
use weather_demand_forecast.Ingestor.Hourly.Schedule.{
  Attempt, plan, carry_out, synced, run-carry_out,
}

module _ (py : Python) where
  abbrev pub has_key : Key → Put → Bool
  has_key k p = same_key (key_of py p.table p.hour_start) k

  -- An attempt that puts nothing, or one object of the table and the hour.
  unfoldable pub Outcome : Text → ℕ → List Put → Bool × List Put → Type 0
  Outcome table h puts w =
      (w ≡ (false, puts))
      ⊎ ((p : Put) × (w ≡ (true, puts ++ p ∷ [])) × (p.table ≡ table) × (p.hour_start ≡ h))

  upload-Outcome :
      (table : Text) (h : ℕ) (taken : Bool) (rows : List TableRow) (puts : List Put)
      → Outcome table h puts (upload py table h taken rows puts)
  unfolding upload Outcome
  upload-Outcome table h taken [] puts = inl refl
  upload-Outcome table h false (r ∷ rows) puts = inl refl
  upload-Outcome table h true (r ∷ rows) puts = inr (_, refl, refl, refl)

  pub write_partition-Outcome :
      (table : Text) (h : ℕ) (raw : Option (List TableRow)) (taken : Bool) (puts : List Put)
      → Outcome table h puts (write_partition py table h raw taken puts)
  unfolding write_partition Outcome
  write_partition-Outcome table h none taken puts = inl refl
  write_partition-Outcome table h (some all) taken puts = upload-Outcome table h taken _ puts

  bit : Bool → ℕ
  bit b = if b then 1 else 0

  -- An object with a key is put once at most, not at all if the key is among `base`, and is then known.
  unfoldable pub IsOnce : List Key → Writer → Type 0
  unfolding member bit
  IsOnce base s =
      (k : Key) → count (has_key k) s.puts + bit (member k base) ≤ bit (member k s.written)

  maybe_write-IsOnce :
      (base : List Key) (a : Answers) (table : Text) (h : ℕ) (s : Writer)
      → IsOnce base s
      → IsOnce base (maybe_write py a table h s)
  unfolding maybe_write IsOnce Outcome member bit
  maybe_write-IsOnce base a table h s once =
      elim (Bool-cases (member (key_of py table h) s.written)) [
        | inl e ↦ rw e once
        | inr e ↦ elim (write_partition-Outcome table h (a.raw table h) (a.takes table h) s.puts) [
          | inl w ↦ rw (e, w) once
          | inr (p, w, t, at) ↦
              rw (e, w)
                (λ k. ground (
                  arith,
                  once k,
                  e,
                  t,
                  at,
                  count-append (has_key k) s.puts (p ∷ []),
                  same_key_iff (key_of py table h) k,
                ))
        ]
      ]

  carry_out-IsOnce :
      (base : List Key) (rest : List Attempt) (s : Writer)
      → IsOnce base s
      → IsOnce base (carry_out py rest s)
  unfolding carry_out
  carry_out-IsOnce base [] s once = once
  carry_out-IsOnce base (a ∷ rest) s once =
      carry_out-IsOnce base rest (maybe_write py a.answers a.table a.hour_start s)
        (maybe_write-IsOnce base a.answers a.table a.hour_start s once)

  -- A run puts each key at most once, and no key that its listing of the lake found, whatever fails in it and
  -- however the clock runs.
  pub run-uploads_once :
      (r : Run)
      → (s : Writer) × (run py r ≡ some s)
        × ((k : Key)
            → (count (has_key k) s.puts ≤ 1)
              × (member k (sync_written_set_from_s3 py r.pages []) ≡ true
                  → count (has_key k) s.puts ≡ 0))
  unfolding IsOnce bit
  run-uploads_once r =
      let s = carry_out py (plan r) (synced py r) in
      let once = carry_out-IsOnce (synced py r).written (plan r) (synced py r) (λ k. omega arith) in
      (s, run-carry_out py r, λ k. ground (arith, once k))
