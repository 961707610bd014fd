-- ===== src/Stream/Buffer/Kept.antt =====
-- What a flush keeps.
use weather_demand_forecast.Prelude.{
  ℕ, ◌+◌, ◌≡◌, ◌≢◌, refl, not, false, filter, String, Bool, ◌&&◌, List, [], ◌∷◌, ◌++◌, map, ap, All,
  All-append, Bool-cases, inl, inr, count, count-append, ◌==◌, ==_iff, String_eq, ℕ_eq,
  if◌then◌else◌, arith,
}
use weather_demand_forecast.Prelude.Dict.{Dict}
use weather_demand_forecast.Json.{Value, Result, ok, raise}
use mathlib.Core.Path.{subst}
use weather_demand_forecast.Stream.Buffer.{
  Record, Part, Object, ParquetBuffer, Upload, fails, strip, add_to, partition, same_key,
  put_object, object_of, upload_all, restore, flush,
}
use weather_demand_forecast.Stream.Buffer.Parts.{
  Upload-cases, same_part, same_part_sym, IsDistinct, IsDistinct-partition,
}

module _ (test : String → ℕ → Dict String Value → Bool) where
  -- A test of a record by its partition and its stripped row.
  abbrev pub of_record : Record → Bool
  of_record r = test r.dt r.hour (strip r)

  abbrev pub in_parts : List Part → ℕ
  in_parts [] = 0
  in_parts (p ∷ ps) = count of_record p.records + in_parts ps

  abbrev pub in_lake : List Object → ℕ
  in_lake [] = 0
  in_lake (o ∷ os) = count (test o.dt o.hour) o.rows + in_lake os

  -- The records of a part have its key.
  abbrev Belongs : Part → Type 0
  Belongs p = All (λ r. (r.dt ≡ p.dt) × (r.hour ≡ p.hour)) p.records

  in_parts-add_to :
      (r : Record) (ps : List Part)
      → in_parts (add_to r ps) ≡ in_parts ps + count of_record (r ∷ [])
  unfolding add_to
  in_parts-add_to r [] = omega arith
  in_parts-add_to r (p ∷ ps) =
      ground (arith, count-append of_record p.records (r ∷ []), in_parts-add_to r ps)

  Belongs-add_to : (r : Record) (ps : List Part) → All Belongs ps → All Belongs (add_to r ps)
  unfolding add_to
  Belongs-add_to r [] b = (((refl, refl), tt), tt)
  Belongs-add_to r (p ∷ ps) b = elim (Bool-cases (p.dt == r.dt && p.hour == r.hour)) [
    | inl e ↦ rw e (
      All-append _ p.records (r ∷ []) b.0
          (ground (arith, e, ==_iff p.dt r.dt, ==_iff p.hour r.hour), tt),
      b.1,
    )
    | inr e ↦ rw e (b.0, Belongs-add_to r ps b.1)
  ]

  in_parts-partition :
      (rs : List Record) (ps : List Part)
      → in_parts (partition rs ps) ≡ in_parts ps + count of_record rs
  unfolding partition
  in_parts-partition [] ps = omega arith
  in_parts-partition (r ∷ rs) ps =
      omega (arith, in_parts-partition rs (add_to r ps), in_parts-add_to r ps)

  Belongs-partition :
      (rs : List Record) (ps : List Part) → All Belongs ps → All Belongs (partition rs ps)
  unfolding partition
  Belongs-partition [] ps b = b
  Belongs-partition (r ∷ rs) ps b = Belongs-partition rs (add_to r ps) (Belongs-add_to r ps b)

  in_lake-append : (xs ys : List Object) → in_lake (xs ++ ys) ≡ in_lake xs + in_lake ys
  in_lake-append [] ys = omega arith
  in_lake-append (x ∷ xs) ys = omega (arith, in_lake-append xs ys)

  -- Nothing is replaced where no object has the key.
  in_lake-put_object :
      (o : Object) (lake : List Object)
      → All (λ x. same_key o x ≡ false) lake
      → in_lake (put_object o lake) ≡ in_lake lake + count (test o.dt o.hour) o.rows
  unfolding put_object filter
  in_lake-put_object o [] free = omega arith
  in_lake-put_object o (x ∷ lake) (e, free) = rw e (omega (arith, in_lake-put_object o lake free))

  -- In a part of that key the rows pass the test as their records do.
  count-strip :
      (dt : String) (hour : ℕ) (rs : List Record)
      → All (λ r. (r.dt ≡ dt) × (r.hour ≡ hour)) rs
      → count (test dt hour) (map strip rs) ≡ count of_record rs
  unfolding strip
  count-strip dt hour [] b = refl
  count-strip dt hour (r ∷ rs) b =
      rw (b.0.0, b.0.1)
        (ap (λ n. (if test dt hour (strip r) then 1 else 0) + n) (count-strip dt hour rs b.1))

  -- The lake has no object of this time for the partition.
  abbrev Free : ℕ → List Object → Part → Type 0
  Free epoch_ms lake p = All (λ x. same_key (object_of epoch_ms p) x ≡ false) lake

  Free-put_object :
      (epoch_ms : ℕ) (p q : Part) (lake : List Object)
      → same_part p q ≡ false
      → Free epoch_ms lake q
      → Free epoch_ms (put_object (object_of epoch_ms p) lake) q
  unfolding put_object filter
  Free-put_object epoch_ms p q [] apart free = (ground (arith, apart, same_part_sym p q), tt)
  Free-put_object epoch_ms p q (x ∷ lake) apart (e, free) =
      elim (Bool-cases (not (same_key (object_of epoch_ms p) x))) [
        | inl h ↦ rw h (e, Free-put_object epoch_ms p q lake apart free)
        | inr h ↦ rw h (Free-put_object epoch_ms p q lake apart free)
      ]

  all_Free :
      (epoch_ms : ℕ) (p : Part) (ps : List Part) (lake : List Object)
      → All (λ q. same_part p q ≡ false) ps
      → All (Free epoch_ms lake) ps
      → All (Free epoch_ms (put_object (object_of epoch_ms p) lake)) ps
  all_Free epoch_ms p [] lake apart free = tt
  all_Free epoch_ms p (q ∷ ps) lake (e, apart) (f, free) =
      (Free-put_object epoch_ms p q lake e f, all_Free epoch_ms p ps lake apart free)

  -- What the loop leaves: it ended, and every record is in `failed` or in the lake, or an upload raised.
  Uploaded : (Part → Upload) → ℕ → Result (List Record) × List Object → Type 0
  Uploaded answer n (ok failed, lake) = count of_record failed + in_lake lake ≡ n
  Uploaded answer n (raise e, lake) = (p : Part) × (answer p ≡ fails e)

  upload_all-Uploaded :
      (answer : Part → Upload) (epoch_ms : ℕ) (ps : List Part) (failed : List Record)
      (lake : List Object)
      → All Belongs ps
      → IsDistinct ps
      → All (Free epoch_ms lake) ps
      → Uploaded answer
          (count of_record failed + in_lake lake + in_parts ps)
          (upload_all answer epoch_ms ps failed lake)
  unfolding upload_all Uploaded IsDistinct
  upload_all-Uploaded answer epoch_ms [] failed lake b d free = omega arith
  upload_all-Uploaded answer epoch_ms (p ∷ ps) failed lake b d free =
      elim (Upload-cases (answer p)) [
        | inl (inl e) ↦
            rw (e, upload_all)
              (subst
                (λ n.
                  Uploaded answer n
                    (upload_all answer epoch_ms ps failed (put_object (object_of epoch_ms p) lake)))
                (omega (
                  arith,
                  in_lake-put_object (object_of epoch_ms p) lake free.0,
                  count-strip p.dt p.hour p.records b.0,
                ))
                (upload_all-Uploaded answer epoch_ms ps failed
                  (put_object (object_of epoch_ms p) lake) b.1 d.1
                  (all_Free epoch_ms p ps lake d.0 free.1)))
        | inl (inr e) ↦
            rw (e, upload_all)
              (subst
                (λ n. Uploaded answer n (upload_all answer epoch_ms ps (failed ++ p.records) lake))
                (omega (arith, count-append of_record failed p.records))
                (upload_all-Uploaded answer epoch_ms ps (failed ++ p.records) lake b.1 d.1 free.1))
        | inr (x, e) ↦ rw (e, upload_all) (p, e)
      ]

  -- the lake is older than the flush
  Older-Free :
      (epoch_ms : ℕ) (p : Part) (lake : List Object)
      → All (λ o. o.epoch_ms ≢ epoch_ms) lake
      → Free epoch_ms lake p
  Older-Free epoch_ms p [] older = tt
  Older-Free epoch_ms p (o ∷ lake) (e, older) =
      (ground (arith, e, ==_iff epoch_ms o.epoch_ms), Older-Free epoch_ms p lake older)

  Older-All :
      (epoch_ms : ℕ) (ps : List Part) (lake : List Object)
      → All (λ o. o.epoch_ms ≢ epoch_ms) lake
      → All (Free epoch_ms lake) ps
  Older-All epoch_ms [] lake older = tt
  Older-All epoch_ms (p ∷ ps) lake older =
      (Older-Free epoch_ms p lake older, Older-All epoch_ms ps lake older)

  -- Of a flush that returns, the records in the buffer and in the lake that pass the test are `n`. One that raises
  -- has the exception of an upload, and leaves in the buffer what arrived and nothing else.
  unfoldable pub IsKept :
      (Part → Upload) → List Record → ℕ → Result (Unit {0}) × ParquetBuffer → Type 0
  IsKept answer arrived n (ok u, after) = count of_record after.pending + in_lake after.lake ≡ n
  IsKept answer arrived n (raise e, after) =
      ((p : Part) × (answer p ≡ fails e)) × (after.pending ≡ arrived)

  restore-IsKept :
      (answer : Part → Upload) (arrived : List Record) (n : ℕ)
      (done : Result (List Record) × List Object)
      → Uploaded answer n done
      → IsKept answer arrived (n + count of_record arrived) (restore arrived done)
  unfolding restore IsKept Uploaded
  restore-IsKept answer arrived n (ok failed, lake) h =
      omega (arith, h, count-append of_record failed arrived)
  restore-IsKept answer arrived n (raise e, lake) h = (h, refl)

  -- Let no object of the lake have been put at the time of the flush. A flush that returns, whichever partitions S3
  -- refuses and whatever arrives meanwhile, keeps every record: for any test of a record's date, hour and
  -- stripped fields, as many pass it afterwards in the buffer and in the lake together as did before in these
  -- and among the arrived. A flush that raises has the exception of an upload, other than the one that is
  -- caught, and then the buffer has only what arrived.
  pub flush_keeps :
      (answer : Part → Upload) (epoch_ms : ℕ) (arrived : List Record) (b : ParquetBuffer)
      → All (λ o. o.epoch_ms ≢ epoch_ms) b.lake
      → IsKept answer arrived
          (count of_record b.pending + in_lake b.lake + count of_record arrived)
          (flush answer epoch_ms arrived b)
  unfolding flush IsDistinct
  flush_keeps answer epoch_ms arrived b older =
      let parts = partition b.pending [] in
      restore-IsKept answer arrived (count of_record b.pending + in_lake b.lake)
        (upload_all answer epoch_ms parts [] b.lake)
        (subst (λ n. Uploaded answer n (upload_all answer epoch_ms parts [] b.lake))
          (omega (arith, in_parts-partition b.pending []))
          (upload_all-Uploaded answer epoch_ms parts [] b.lake (Belongs-partition b.pending [] tt)
            (IsDistinct-partition b.pending [] tt) (Older-All epoch_ms parts b.lake older)))
