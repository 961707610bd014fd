-- ===== src/Stream/Windows.antt =====
-- The sorted sets of Redis and the query over the lake count the same events.
use weather_demand_forecast.Prelude.{
  ℕ, suc, ◌≤◌, ◌≡◌, refl, sym, ap, ◌∙◌, inl, inr, String, Bool, true, List, [], ◌∷◌, ◌++◌, map,
  length, filter, All, ◌==◌, ==_iff, String_eq, Bool-cases, if◌then◌else◌, arith,
}
use weather_demand_forecast.Prelude.Dict.{Dict, get, put, get-put}
use weather_demand_forecast.Stream.RedisOps.{
  ZSet, Event, w_1h, trim, in_window, zcount, zset, add_and_trim,
}
use weather_demand_forecast.Stream.Reconstruct.{has, distinct, selects, id_of, count_distinct}

-- An event that is delivered again carries the same payload: the id fixes the time.
module _ (epoch_of : String → ℕ) where
  abbrev pub Agrees : ZSet → Type 0
  Agrees z = All (λ e. e.1 ≡ epoch_of e.0) z

  Agrees-put : (k : String) (z : ZSet) → Agrees z → Agrees (put k (epoch_of k) z)
  unfolding put
  Agrees-put k [] a = (refl, tt)
  Agrees-put k ((j, w) ∷ z) a = elim (Bool-cases (j == k)) [
    | inl e ↦ rw e (ap epoch_of (sym ((==_iff j k).0 e)), a.1)
    | inr e ↦ rw e (a.0, Agrees-put k z a.1)
  ]

  Agrees-filter : (p : String × ℕ → Bool) (z : ZSet) → Agrees z → Agrees (filter p z)
  unfolding filter
  Agrees-filter p [] a = tt
  Agrees-filter p (e ∷ z) a = elim (Bool-cases (p e)) [
    | inl h ↦ rw h (a.0, Agrees-filter p z a.1)
    | inr h ↦ rw h (Agrees-filter p z a.1)
  ]

  module _ (q : ℕ → Bool) where
    abbrev scores : String × ℕ → Bool
    scores e = q e.1

    -- A write of an id's own time is seen through a filter on times.
    filter-put :
        (k : String) (z : ZSet)
        → Agrees z
        → filter scores (put k (epoch_of k) z)
          ≡ (if q (epoch_of k) then put k (epoch_of k) (filter scores z) else filter scores z)
    unfolding filter put
    filter-put k [] a = refl
    filter-put k ((j, w) ∷ z) a = ground (arith, a.0, filter-put k z a.1, ==_iff j k)

    -- What the trim drops is outside the filter.
    filter-filter :
        (p : String × ℕ → Bool) (z : ZSet)
        → ((e : String × ℕ) → q e.1 ≡ true → p e ≡ true)
        → filter scores (filter p z) ≡ filter scores z
    unfolding filter
    filter-filter p [] h = refl
    filter-filter p (e ∷ z) h = ground (arith, h e, filter-filter p z h)

abbrev pub is_of_type : String → Event → Bool
is_of_type event_type e = e.event_type == event_type

-- One of the two sorted sets of every route, through a list of events.
unfoldable pub track : String → List Event → Dict String ZSet → Dict String ZSet
track event_type [] zs = zs
track event_type (e ∷ es) zs = track event_type es (add_and_trim (is_of_type event_type e) e zs)

-- The ids with their times, nothing trimmed.
pub record_all : List Event → ZSet → ZSet
record_all [] z = z
record_all (e ∷ es) z = record_all es (put e.event_id e.sim_epoch z)

module _ (epoch_of : String → ℕ) (route event_type : String) (window t_epoch : ℕ)
    (short : window ≤ w_1h) where
  abbrev pub Fits : Event → Type 0
  Fits e = (e.sim_epoch ≡ epoch_of e.event_id) × (e.sim_epoch ≤ t_epoch)

  abbrev pub visible : ZSet → ZSet
  visible = filter (λ e. in_window window t_epoch e.1)

  zset-add_and_trim :
      (b : Bool) (e : Event) (zs : Dict String ZSet)
      → zset route (add_and_trim b e zs) ≡ (
          if e.route_id == route
          then trim e.sim_epoch
              (if b then put e.event_id e.sim_epoch (zset route zs) else zset route zs)
          else zset route zs)
  unfolding add_and_trim
  zset-add_and_trim b e zs = elim (Bool-cases (e.route_id == route)) [
    | inl s ↦ rw (get-put, s, (==_iff e.route_id route).0 s)
    | inr d ↦ rw (get-put, d)
  ]

  visible-trim :
      (e : Event) (z : ZSet) → e.sim_epoch ≤ t_epoch → visible (trim e.sim_epoch z) ≡ visible z
  unfolding trim
  visible-trim e z h = filter-filter epoch_of (in_window window t_epoch) _ z (λ x w. ground arith)

  Agrees-step :
      (b : Bool) (e : Event) (zs : Dict String ZSet)
      → Fits e
      → Agrees epoch_of (zset route zs)
      → Agrees epoch_of (zset route (add_and_trim b e zs))
  Agrees-step b e zs f a = rw zset-add_and_trim (elim (Bool-cases (e.route_id == route)) [
    | inr d ↦ rw d a
    | inl s ↦ rw s (elim (Bool-cases b) [
      | inr n ↦ rw n (unfold trim in Agrees-filter epoch_of _ (zset route zs) a)
      | inl y ↦
          rw (y, f.0)
            (unfold trim in
              Agrees-filter epoch_of _ _ (Agrees-put epoch_of e.event_id (zset route zs) a))
    ])
  ])

  visible-put :
      (e : Event) (z : ZSet)
      → Fits e
      → Agrees epoch_of z
      → visible (put e.event_id e.sim_epoch z) ≡ (
          if in_window window t_epoch e.sim_epoch
          then put e.event_id e.sim_epoch (visible z)
          else visible z)
  visible-put e z f a = rw f.0 (filter-put epoch_of (in_window window t_epoch) e.event_id z a)

  visible-add :
      (e : Event) (zs : Dict String ZSet)
      → Fits e
      → Agrees epoch_of (zset route zs)
      → visible (zset route (add_and_trim (is_of_type event_type e) e zs)) ≡ (
          if selects route event_type window t_epoch e
          then put e.event_id e.sim_epoch (visible (zset route zs))
          else visible (zset route zs))
  visible-add e zs f a = elim (Bool-cases (e.route_id == route)) [
    | inr d ↦ rw (zset-add_and_trim, d)
    | inl s ↦
        rw (zset-add_and_trim, s, visible-trim e _ f.1)
          (elim (Bool-cases (is_of_type event_type e)) [
            | inr n ↦ rw n (ground arith)
            | inl y ↦ rw (y, visible-put e (zset route zs) f a) (ground arith)
          ])
  ]

  visible-step :
      (e : Event) (es : List Event) (zs : Dict String ZSet)
      → Fits e
      → Agrees epoch_of (zset route zs)
      → record_all
          (filter (selects route event_type window t_epoch) (e ∷ es))
          (visible (zset route zs))
        ≡ record_all
            (filter (selects route event_type window t_epoch) es)
            (visible (zset route (add_and_trim (is_of_type event_type e) e zs)))
  unfolding filter record_all
  visible-step e es zs f a =
      rw (visible-add e zs f a) (elim (Bool-cases (selects route event_type window t_epoch e)) [
        | inl y ↦ rw y
        | inr n ↦ rw n
      ])

  pub visible-track :
      (es : List Event) (zs : Dict String ZSet)
      → All Fits es
      → Agrees epoch_of (zset route zs)
      → visible (zset route (track event_type es zs))
        ≡ record_all (filter (selects route event_type window t_epoch) es) (visible (zset route zs))
  unfolding track
  visible-track [] zs f a = unfold record_all filter in refl
  visible-track (e ∷ es) zs f a =
      visible-track es (add_and_trim (is_of_type event_type e) e zs) f.1 (Agrees-step _ e zs f.0 a)
      ∙ sym (visible-step e es zs f.0 a)

-- What is recorded are the distinct ids.
abbrev key : String × ℕ → String
key e = e.0

keys-put :
    (k : String) (v : ℕ) (z : ZSet)
    → map key (put k v z) ≡ (if has k (map key z) then map key z else map key z ++ k ∷ [])
unfolding put has
keys-put k v [] = refl
keys-put k v ((j, w) ∷ z) = ground (arith, keys-put k v z)

length-keys : (z : ZSet) → length z ≡ length (map key z)
length-keys [] = refl
length-keys (e ∷ z) = ap suc (length-keys z)

length-record_all :
    (rows : List Event) (z : ZSet)
    → length (record_all rows z) ≡ length (distinct (map key z) (map id_of rows))
unfolding record_all distinct
length-record_all [] z = length-keys z
length-record_all (e ∷ es) z =
    length-record_all es (put e.event_id e.sim_epoch z)
    ∙ ap (λ ks. length (distinct ks (map id_of es))) (keys-put e.event_id e.sim_epoch z)

-- A count of a sorted set is the query's count over the events that led to it.
pub zcount-track :
    (epoch_of : String → ℕ) (route event_type : String) (window t_epoch : ℕ) (es : List Event)
    → window ≤ w_1h
    → All (λ e. (e.sim_epoch ≡ epoch_of e.event_id) × (e.sim_epoch ≤ t_epoch)) es
    → zcount window t_epoch (zset route (track event_type es []))
      ≡ count_distinct route event_type window t_epoch es
unfolding zcount count_distinct get
zcount-track epoch_of route event_type window t_epoch es short f =
    ap length (visible-track epoch_of route event_type window t_epoch short es [] f tt)
    ∙ length-record_all (filter (selects route event_type window t_epoch) es) []
