-- ===== src/Retrain/Promotion.antt =====
-- The worker's promotion decides as the trainer's does behind its drift gate.
use weather_demand_forecast.Floats.{Floats}
use weather_demand_forecast.Prelude.{
  ◌≡◌, refl, sym, ap, ◌∙◌, String, Bool, true, not, List, [], ◌∷◌, Option, none, some, ==_refl,
  String_eq, if◌then◌else◌,
}
use weather_demand_forecast.Prelude.Dict.{get, put, get-put}
use weather_demand_forecast.Models.Promote.{
  Stage, staging, unassigned, Version, Versions, transition, Texts, Answers,
  register_and_maybe_promote,
}
use weather_demand_forecast.Models.Promote.Decided.{
  is_some, IsDecided, Decided, decide, tag_and_decide-Decided,
}
use weather_demand_forecast.Models.Promote.Gates.{
  passes_drift, beats_production, register_and_maybe_promote-Decided,
}
use weather_demand_forecast.Retrain.{promote_or_reject, maybe_promote}

-- what the registry says of a version: its stage, and whether it has a reason for a rejection
unfoldable pub verdict : String → Versions → Option (Stage × Bool)
unfolding get
verdict v d = elim (get v d) [
  | none ↦ none
  | some y ↦ some (y.stage, is_some (get "rejection_reason" y.tags))
]

verdict-Decided :
    (v : String) (promoted : Bool) (d : Versions)
    → Decided v promoted d
    → verdict v d ≡ some (if promoted then staging else unassigned, not promoted)
unfolding verdict Decided IsDecided
verdict-Decided v promoted d (y, found, (stage, reason)) = rw (found, verdict) cc

module _ (fl : Floats) (tx : Texts fl) (v : String) (mae : fl.Float) where
  promote_or_reject-Decided :
      (vs : Option (List String)) (e : Option fl.Float) (d : Versions) {x : Version}
      → get v d ≡ some x
      → x.stage ≡ unassigned
      → get "rejection_reason" x.tags ≡ none
      → Decided v (beats_production fl mae vs e) (promote_or_reject fl tx v mae vs e d)
  unfolding promote_or_reject beats_production IsDecided
  promote_or_reject-Decided none e d found fresh clear =
      decide v true (transition staging) d found (refl, ap is_some clear)
  promote_or_reject-Decided (some []) e d found fresh clear =
      decide v true (transition staging) d found (refl, ap is_some clear)
  promote_or_reject-Decided (some (p ∷ ps)) none d found fresh clear =
      decide v true (transition staging) d found (refl, ap is_some clear)
  promote_or_reject-Decided (some (p ∷ ps)) (some prod) d found fresh clear =
      tag_and_decide-Decided v ("prod_val_mae", tx.fixed prod 6)
        ("compared_against_prod_version", p) (tx.holdout_reason mae prod p) (fl.lt mae prod) d found
        fresh clear refl refl

  maybe_promote-Decided :
      (a : Answers fl) (d : Versions)
      → Decided v
          (beats_production fl mae a.production_versions a.prod_val_mae)
          (maybe_promote fl tx v mae a d)
  unfolding maybe_promote get
  maybe_promote-Decided a d =
      let start : Version = record { stage = unassigned; tags = [] } in
      promote_or_reject-Decided a.production_versions a.prod_val_mae (put v start d) {x = start}
        (get-put v v start d ∙ rw (==_refl v) refl) refl refl

  -- A model that passes the trainer's drift gate gets from the worker the stage that it would get from the
  -- trainer, and has a reason for a rejection in the one registry exactly when it has in the other.
  pub maybe_promote-register_and_maybe_promote :
      (tx2 : Texts fl) (psi : String → fl.Float) (threshold : fl.Float) (a : Answers fl)
      (d : Versions)
      → passes_drift fl psi threshold ≡ true
      → verdict v (maybe_promote fl tx v mae a d)
        ≡ verdict v (register_and_maybe_promote fl tx2 v mae psi threshold a d)
  unfolding Decided
  maybe_promote-register_and_maybe_promote tx2 psi threshold a d passes =
      let there = (register_and_maybe_promote-Decided fl tx2 v mae psi threshold a d).0 in
      verdict-Decided v _ _ (maybe_promote-Decided a d)
      ∙ sym (
          verdict-Decided v (beats_production fl mae a.production_versions a.prod_val_mae)
            (register_and_maybe_promote fl tx2 v mae psi threshold a d) (rw (passes) at there))
