-- ===== src/Features/Sync/Commute.antt =====
-- The nightly batch and the stream consumer write the same hashes without disturbing each other.
use mathlib.Core.Path.{subst}
use weather_demand_forecast.Floats.{Floats}
use weather_demand_forecast.Prelude.{
  ℕ, ◌≡◌, refl, sym, ap, ◌∙◌, ◌⊎◌, inl, inr, String, Bool, true, false, List, [], ◌∷◌, not, ◌&&◌,
  Option, none, some, map, Bool-cases, ◌==◌, ==_iff, String_eq, if◌then◌else◌,
}
use weather_demand_forecast.Json.{Result}
use weather_demand_forecast.Stream.RedisOps.{
  Redis, Event, ratio, update_demand_features, zset, zcount, w_5m, w_15m, w_1h, add_and_trim, Hash,
  ZSet,
}
use weather_demand_forecast.Prelude.Dict.{Dict}
use weather_demand_forecast.Features.Sync.{Executed, Row, sync_to_redis}
use weather_demand_forecast.Features.Sync.Fields.{
  field_of, overlay, last, field-hset, is_one_of, batch_fields, demand_fields,
  sync_to_redis-Overlays,
}

last-outside : (f : String) (m : Hash) → is_one_of f (map (λ e. e.0) m) ≡ false → last f m ≡ none
unfolding last is_one_of
last-outside f [] outside = refl
last-outside f ((k, v) ∷ m) outside = elim (Bool-cases (k == f)) [
  | inl same ↦ cc
  | inr differ ↦ rw (last-outside f m (rw (differ) at outside), differ) refl
]

overlays_commute :
    (a b v : Option String)
    → (a ≡ none) ⊎ (b ≡ none)
    → overlay a (overlay b v) ≡ overlay b (overlay a v)
overlays_commute none b v h = refl
overlays_commute (some a) none v h = refl
overlays_commute (some a) (some b) v (inl h) = cc
overlays_commute (some a) (some b) v (inr h) = cc

are_disjoint : List String → List String → Bool
unfolding is_one_of
are_disjoint [] ds = true
are_disjoint (k ∷ ks) ds = not (is_one_of k ds) && are_disjoint ks ds

disjoint-outside :
    (f : String) (ks ds : List String)
    → are_disjoint ks ds ≡ true
    → is_one_of f ks ≡ true
    → is_one_of f ds ≡ false
unfolding are_disjoint is_one_of
disjoint-outside f [] ds apart inside = cc
disjoint-outside f (k ∷ ks) ds apart inside = elim (Bool-cases (is_one_of k ds)) [
  | inl both ↦ cc
  | inr clear ↦ elim (Bool-cases (k == f)) [
    | inl same ↦ subst (λ x. is_one_of x ds ≡ false) ((==_iff k f).0 same) clear
    | inr differ ↦ disjoint-outside f ks ds (rw (clear) at apart) (rw (differ) at inside)
  ]
]

fields_disjoint : are_disjoint batch_fields demand_fields ≡ true
unfolding are_disjoint batch_fields demand_fields is_one_of
fields_disjoint = refl

module _ (fl : Floats) (now_iso : String) (e : Event) where
  -- the mapping of the HSET of a demand event
  written : Dict String ZSet → Dict String ZSet → Hash
  written searches bookings =
      let s = zset e.route_id (add_and_trim (e.event_type == "search") e searches) in
      let b = zset e.route_id (add_and_trim (e.event_type == "booking") e bookings) in
      ("searches_5m", fl.str (fl.of_ℕ (zcount w_5m e.sim_epoch s)))
      ∷ ("bookings_15m", fl.str (fl.of_ℕ (zcount w_15m e.sim_epoch b)))
      ∷ ("look_to_book_1h", ratio fl (zcount w_1h e.sim_epoch b) (zcount w_1h e.sim_epoch s))
      ∷ ("stream_computed_at", now_iso)
      ∷ []

  overlay_at : String → String → Dict String ZSet → Dict String ZSet → Option String
  overlay_at route f searches bookings =
      if e.route_id == route then last f (written searches bookings) else none

  update-overlay :
      (route f : String) (r : Redis)
      → field_of route f (update_demand_features fl now_iso e r)
        ≡ overlay (overlay_at route f r.searches r.bookings) (field_of route f r)
  unfolding update_demand_features written overlay_at
  update-overlay route f r = field-hset route f e.route_id (written r.searches r.bookings) r.routes

  overlay_at-none :
      (route f : String) (searches bookings : Dict String ZSet)
      → is_one_of f demand_fields ≡ false
      → overlay_at route f searches bookings ≡ none
  unfolding overlay_at written demand_fields
  overlay_at-none route f searches bookings outside = elim (Bool-cases (e.route_id == route)) [
    | inl same ↦ rw (same) (last-outside f (written searches bookings) outside)
    | inr differ ↦ rw (differ) refl
  ]

  -- The update for a demand event and the nightly batch, the batch answered in any way, leave the
  -- same in every hash field in whichever order they run.
  pub sync_commutes :
      (size : ℕ) (now : String) (answers : ℕ → Executed) (taken : Bool)
      (fetched : Result (List (Row fl))) (r : Redis) (route f : String)
      → field_of route f
          (sync_to_redis fl size now answers taken fetched
            (update_demand_features fl now_iso e r)).1
        ≡ field_of route f (
            update_demand_features fl now_iso e
              (sync_to_redis fl size now answers taken fetched r).1)
  sync_commutes size now answers taken fetched r route f =
      let o = sync_to_redis-Overlays fl now answers size taken fetched in
      let (w, w_written, w_none) = o.written route f in
      let after = (sync_to_redis fl size now answers taken fetched r).1 in
      let stream = overlay_at route f r.searches r.bookings in
      let sync_last =
        w_written (update_demand_features fl now_iso e r)
        ∙ ap (overlay w) (update-overlay route f r) in
      let stream_last : field_of route f (update_demand_features fl now_iso e after)
          ≡ overlay stream (overlay w (field_of route f r)) =
        update-overlay route f after
        ∙ ap (λ s. overlay (overlay_at route f s after.bookings) (field_of route f after))
            (o.searches_kept r)
        ∙ ap (λ b. overlay (overlay_at route f r.searches b) (field_of route f after))
            (o.bookings_kept r)
        ∙ ap (overlay stream) (w_written r) in
      sync_last
      ∙ overlays_commute w stream (field_of route f r)
          (elim (Bool-cases (is_one_of f batch_fields)) [
            | inl batch ↦ inr (
                overlay_at-none route f r.searches r.bookings
                  (disjoint-outside f batch_fields demand_fields fields_disjoint batch))
            | inr outside ↦ inl (w_none outside)
          ])
      ∙ sym stream_last
