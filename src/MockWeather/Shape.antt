-- ===== src/MockWeather/Shape.antt =====
-- The shape of a payload after the injected faults.
use weather_demand_forecast.Floats.{Floats}
use weather_demand_forecast.Prelude.{
  ℕ, ◌+◌, ◌≡◌, refl, ◌⊎◌, inl, inr, String, Bool, true, false, Bool-cases, ◌==◌, String_eq,
  if◌then◌else◌,
}
use weather_demand_forecast.Json.{
  Value, Items, Fields, null, bool, int, float, str, arr, obj, end, field, nil, cons,
}
use weather_demand_forecast.MockWeather.{
  ChaosConfig, set_field, renamed, drift, drift_items, drift_fields, nullify, nullify_items,
  nullify_fields, apply_chaos,
}

-- no object has the key, at any depth
unfoldable mutual
  pub Lacks : String → Value → Type 0
  Lacks key null = Unit
  Lacks key (bool b) = Unit
  Lacks key (int n) = Unit
  Lacks key (float x) = Unit
  Lacks key (str s) = Unit
  Lacks key (arr vs) = LacksItems key vs
  Lacks key (obj fs) = LacksFields key fs

  pub LacksItems : String → Items → Type 0
  LacksItems key nil = Unit
  LacksItems key (cons v vs) = Lacks key v × LacksItems key vs

  pub LacksFields : String → Fields → Type 0
  LacksFields key end = Unit
  LacksFields key (field k v fs) = ((k == key) ≡ false) × Lacks key v × LacksFields key fs

renamed-other : (k : String) → (renamed k == "temperature") ≡ false
renamed-other k = elim (Bool-cases (k == "temperature")) [ inl e ↦ rw e refl | inr e ↦ rw e e ]

set_field-LacksFields :
    (key k : String) (v : Value) (fs : Fields)
    → (k == key) ≡ false
    → Lacks key v
    → LacksFields key fs
    → LacksFields key (set_field k v fs)
unfolding set_field LacksFields
set_field-LacksFields key k v end other h hs = (other, h, tt)
set_field-LacksFields key k v (field j w fs) other h hs = elim (Bool-cases (j == k)) [
  | inl e ↦ rw e (hs.0, h, hs.2)
  | inr e ↦ rw e (hs.0, hs.1, set_field-LacksFields key k v fs other h hs.2)
]

mutual
  unfolding drift drift_items drift_fields Lacks LacksItems LacksFields

  drift-Lacks : (v : Value) → Lacks "temperature" (drift v)
  drift-Lacks null = tt
  drift-Lacks (bool b) = tt
  drift-Lacks (int n) = tt
  drift-Lacks (float x) = tt
  drift-Lacks (str s) = tt
  drift-Lacks (arr vs) = drift_items-LacksItems vs
  drift-Lacks (obj fs) = drift_fields-LacksFields fs end tt

  drift_items-LacksItems : (vs : Items) → LacksItems "temperature" (drift_items vs)
  drift_items-LacksItems nil = tt
  drift_items-LacksItems (cons v vs) = (drift-Lacks v, drift_items-LacksItems vs)

  drift_fields-LacksFields :
      (fs done : Fields)
      → LacksFields "temperature" done
      → LacksFields "temperature" (drift_fields fs done)
  drift_fields-LacksFields end done h = h
  drift_fields-LacksFields (field k v fs) done h =
      drift_fields-LacksFields fs (set_field (renamed k) (drift v) done) (
        set_field-LacksFields "temperature" (renamed k) (drift v) done (renamed-other k)
          (drift-Lacks v) h)

-- The second value is the first with some fields of its objects set to null, at any depth.
unfoldable mutual
  pub Nulled : Value → Value → Type 0
  Nulled (arr vs) w = (ws : Items) × (w ≡ arr ws) × NulledItems vs ws
  Nulled (obj fs) w = (gs : Fields) × (w ≡ obj gs) × NulledFields fs gs
  Nulled v w = w ≡ v

  pub NulledItems : Items → Items → Type 0
  NulledItems nil ws = ws ≡ nil
  NulledItems (cons v vs) ws =
      (w : Value) × (rest : Items) × (ws ≡ cons w rest) × Nulled v w × NulledItems vs rest

  pub NulledFields : Fields → Fields → Type 0
  NulledFields end gs = gs ≡ end
  NulledFields (field k v fs) gs =
      (w : Value) × (rest : Fields) × (gs ≡ field k w rest)
      × ((w ≡ null) ⊎ Nulled v w)
      × NulledFields fs rest

mutual
  unfolding Nulled NulledItems NulledFields

  Nulled-refl : (v : Value) → Nulled v v
  Nulled-refl null = refl
  Nulled-refl (bool b) = refl
  Nulled-refl (int n) = refl
  Nulled-refl (float x) = refl
  Nulled-refl (str s) = refl
  Nulled-refl (arr vs) = (vs, refl, NulledItems-refl vs)
  Nulled-refl (obj fs) = (fs, refl, NulledFields-refl fs)

  NulledItems-refl : (vs : Items) → NulledItems vs vs
  NulledItems-refl nil = refl
  NulledItems-refl (cons v vs) = (v, vs, refl, Nulled-refl v, NulledItems-refl vs)

  NulledFields-refl : (fs : Fields) → NulledFields fs fs
  NulledFields-refl end = refl
  NulledFields-refl (field k v fs) = (v, fs, refl, inr (Nulled-refl v), NulledFields-refl fs)

module _ (hit : ℕ → Bool) where
  -- one field, by its draw
  draw-Nulled :
      (b : Bool) (v : Value) (r : Value × ℕ) (n : ℕ)
      → Nulled v r.0
      → ((if b then (null, n) else r).0 ≡ null) ⊎ Nulled v (if b then (null, n) else r).0
  draw-Nulled true v r n h = inl refl
  draw-Nulled false v r n h = inr h

  mutual
    unfolding nullify nullify_items nullify_fields Nulled NulledItems NulledFields

    nullify-Nulled : (v : Value) (n : ℕ) → Nulled v (nullify hit v n).0
    nullify-Nulled null n = refl
    nullify-Nulled (bool b) n = refl
    nullify-Nulled (int i) n = refl
    nullify-Nulled (float x) n = refl
    nullify-Nulled (str s) n = refl
    nullify-Nulled (arr vs) n = (_, refl, nullify_items-NulledItems vs n)
    nullify-Nulled (obj fs) n = (_, refl, nullify_fields-NulledFields fs n)

    nullify_items-NulledItems : (vs : Items) (n : ℕ) → NulledItems vs (nullify_items hit vs n).0
    nullify_items-NulledItems nil n = refl
    nullify_items-NulledItems (cons v vs) n =
        (_, _, refl, nullify-Nulled v n, nullify_items-NulledItems vs _)

    nullify_fields-NulledFields :
        (fs : Fields) (n : ℕ) → NulledFields fs (nullify_fields hit fs n).0
    nullify_fields-NulledFields end n = refl
    nullify_fields-NulledFields (field k v fs) n = (
      _,
      _,
      refl,
      draw-Nulled (hit n) v (nullify hit v (n + 1)) (n + 1) (nullify-Nulled v (n + 1)),
      nullify_fields-NulledFields fs _,
    )

module _ (fl : Floats) (hits : fl.Float → ℕ → Bool) where
  -- With schema drift no object of a payload has a key "temperature", at any depth, whatever fields are nulled.
  pub apply_chaos-Lacks :
      (cfg : ChaosConfig fl.Float) (body : Value)
      → cfg.schema_drift ≡ true
      → Lacks "temperature" (apply_chaos fl hits cfg body)
  unfolding apply_chaos
  apply_chaos-Lacks cfg body e = rw e (drift-Lacks _)

  -- Without schema drift a payload keeps its shape: the same keys in the same order and lists of the same
  -- length, at any depth, with some fields of objects set to null.
  pub apply_chaos-Nulled :
      (cfg : ChaosConfig fl.Float) (body : Value)
      → cfg.schema_drift ≡ false
      → Nulled body (apply_chaos fl hits cfg body)
  unfolding apply_chaos
  apply_chaos-Nulled cfg body e = elim (Bool-cases (fl.lt (fl.of_ℕ 0) cfg.null_field_rate)) [
    | inl on ↦ rw (e, on) (nullify-Nulled (hits cfg.null_field_rate) body 0)
    | inr off ↦ rw (e, off) (Nulled-refl body)
  ]
