-- ===== src/Retrain/Lock.antt =====
-- The threads that may run at once: the weekly job and any number of drift triggers. A thread takes the
-- lock without waiting, stamps the time, trains, and releases the lock; between these steps others run.
use mathlib.Core.Path.{subst}
use weather_demand_forecast.Floats.{Floats}
use weather_demand_forecast.Prelude.{
  ℕ, ◌+◌, ◌≤◌, ◌<◌, ◌≡◌, refl, sym, ap, Bool, true, false, List, [], ◌∷◌, ◌++◌, none, some, inl,
  inr, Bool-cases, count, count-append, arith, if◌then◌else◌,
}
use weather_demand_forecast.Models.Promote.{Versions, Texts}
use weather_demand_forecast.Retrain.{Environment, Trigger, Shared, retrain}

-- where a thread stands in run_auto_retrain
pub data Place : Type 0 where
  called locked_in stamped trained returned : Place

pub record Thread : Type 0 where
  pub trigger : Trigger
  pub place : Place

pub record World : Type 0 where
  pub shared : Shared
  pub threads : List Thread

abbrev pub holds : Thread → Bool
holds t = elim t.place [ locked_in ↦ true | stamped ↦ true | trained ↦ true | _ ↦ false ]

-- one thread of the list moves
abbrev pub at : List Thread → Trigger → Place → List Thread → List Thread
at before trigger place after = before ++ record { trigger = trigger; place = place } ∷ after

module _ (fl : Floats) (tx : Texts fl) (val_days : ℕ) where
  pub data Step : World → World → Type 0 where
    -- the scheduler, or a drift check, calls run_auto_retrain
    call :
        (s : Shared) (ts : List Thread) (g : Trigger)
        → Step
            (record { shared = s; threads = ts })
            (record { shared = s; threads = at ts g called [] })
    acquire :
        (s : Shared) (xs ys : List Thread) (g : Trigger)
        → s.locked ≡ false
        → Step
            (record { shared = s; threads = at xs g called ys })
            (record { shared = record s { locked = true }; threads = at xs g locked_in ys })
    refuse :
        (s : Shared) (xs ys : List Thread) (g : Trigger)
        → s.locked ≡ true
        → Step
            (record { shared = s; threads = at xs g called ys })
            (record { shared = s; threads = at xs g returned ys })
    stamp :
        (s : Shared) (xs ys : List Thread) (g : Trigger) (now : ℕ)
        → Step
            (record { shared = s; threads = at xs g locked_in ys })
            (record {
              shared = record s { last_triggered = some now };
              threads = at xs g stamped ys;
            })
    train :
        (s : Shared) (xs ys : List Thread) (g : Trigger) (env : Environment fl)
        → Step
            (record { shared = s; threads = at xs g stamped ys })
            (record {
              shared = record s { versions = (retrain fl tx val_days env g s.versions).1 };
              threads = at xs g trained ys;
            })
    release :
        (s : Shared) (xs ys : List Thread) (g : Trigger)
        → Step
            (record { shared = s; threads = at xs g trained ys })
            (record { shared = record s { locked = false }; threads = at xs g returned ys })

  pub data Reach (w : World) : World → Type 0 where
    here : Reach w w
    next : {u v : World} → Reach w u → Step u v → Reach w v

  -- As many threads are between the acquisition and the release as the lock says.
  unfoldable pub IsExclusive : World → Type 0
  IsExclusive w = count holds w.threads ≡ (if w.shared.locked then 1 else 0)

  count-at :
      (xs ys : List Thread) (g : Trigger) (p : Place)
      → count holds (at xs g p ys)
        ≡ count holds xs
          + ((if holds (record { trigger = g; place = p }) then 1 else 0) + count holds ys)
  count-at xs ys g p = count-append holds xs (record { trigger = g; place = p } ∷ ys)

  Step-IsExclusive : {u v : World} → Step u v → IsExclusive u → IsExclusive v
  unfolding IsExclusive
  Step-IsExclusive (call s ts g) h = omega (arith, h, count-at ts [] g called)
  Step-IsExclusive (acquire s xs ys g free) h =
      ground (arith, h, free, count-at xs ys g called, count-at xs ys g locked_in)
  Step-IsExclusive (refuse s xs ys g taken) h =
      omega (arith, h, count-at xs ys g called, count-at xs ys g returned)
  Step-IsExclusive (stamp s xs ys g now) h =
      omega (arith, h, count-at xs ys g locked_in, count-at xs ys g stamped)
  Step-IsExclusive (train s xs ys g env) h =
      omega (arith, h, count-at xs ys g stamped, count-at xs ys g trained)
  Step-IsExclusive (release s xs ys g) h =
      ground (arith, h, count-at xs ys g trained, count-at xs ys g returned)

  Reach-IsExclusive : {u v : World} → IsExclusive u → Reach u v → IsExclusive v
  Reach-IsExclusive h here = h
  Reach-IsExclusive h (next r st) = Step-IsExclusive st (Reach-IsExclusive h r)

  -- the world before any call
  abbrev pub initial : Versions → World
  initial d = record {
    shared = record { locked = false; last_triggered = none; versions = d };
    threads = [];
  }

  -- Whatever calls there are and however their steps interleave, at most one thread is between taking the
  -- lock and releasing it, and then the lock is held.
  pub Reach-one_trains :
      (d : Versions) (w : World)
      → Reach (initial d) w
      → (count holds w.threads ≤ 1) × (count holds w.threads ≡ 1 → w.shared.locked ≡ true)
  unfolding IsExclusive
  Reach-one_trains d w r = let h = Reach-IsExclusive refl r in ground (arith, h)

  Reach-trans : {u v w : World} → Reach u v → Reach v w → Reach u w
  Reach-trans r here = r
  Reach-trans r (next q st) = next (Reach-trans r q) st

  -- a thread that holds, with those before and after it
  Holder : List Thread → Type 0
  Holder ts =
      (xs : List Thread) × (g : Trigger) × (p : Place) × (ys : List Thread) × (ts ≡ at xs g p ys)
      × (holds (record { trigger = g; place = p }) ≡ true)

  holder : (ts : List Thread) → 0 < count holds ts → Holder ts
  unfolding Holder
  holder [] h = absurd (omega (arith, h))
  holder (t ∷ ts) h = elim (Bool-cases (holds t)) [
    | inl e ↦ ([], t.trigger, t.place, ts, refl, e)
    | inr e ↦
        let (xs, g, p, ys, eq, e2) = holder ts (ground (arith, h, e)) in
        (t ∷ xs, g, p, ys, ap (λ l. t ∷ l) eq, e2)
  ]

  -- from a place at which it holds the lock a thread can go on and release it
  free_from :
      (p : Place) (s : Shared) (xs ys : List Thread) (g : Trigger) (env : Environment fl)
      → holds (record { trigger = g; place = p }) ≡ true
      → (w : World) × Reach (record { shared = s; threads = at xs g p ys }) w
        × (w.shared.locked ≡ false)
  free_from called s xs ys g env h = cc
  free_from returned s xs ys g env h = cc
  free_from trained s xs ys g env h = (_, next here (release s xs ys g), refl)
  free_from stamped s xs ys g env h =
      (_, next (next here (train s xs ys g env)) (release _ xs ys g), refl)
  free_from locked_in s xs ys g env h = (
    _,
    next (next (next here (stamp s xs ys g 0)) (train _ xs ys g env)) (release _ xs ys g),
    refl,
  )

  -- The lock is never stuck: from every world that can be reached from the initial one, by any interleaving of the
  -- threads, a world in which the lock is free can be reached in turn.
  pub Reach-freed :
      (d : Versions) (w : World) (env : Environment fl)
      → Reach (initial d) w
      → (v : World) × Reach w v × (v.shared.locked ≡ false)
  unfolding IsExclusive Holder
  Reach-freed d w env r = elim (Bool-cases w.shared.locked) [
    | inr free ↦ (w, here, free)
    | inl taken ↦
        let h = Reach-IsExclusive {u = initial d} refl r in
        let (xs, g, p, ys, eq, e) = holder w.threads (ground (arith, h, taken)) in
        subst (λ ts. (v : World) × Reach (record w { threads = ts }) v × (v.shared.locked ≡ false))
          (sym eq) (free_from p w.shared xs ys g env e)
  ]
