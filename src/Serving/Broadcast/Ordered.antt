-- ===== src/Serving/Broadcast/Ordered.antt =====
-- What the clients of the live stream are sent.
use mathlib.Core.Path.{subst}
use mathlib.Core.List.{append_assoc, append-nil}
use weather_demand_forecast.Prelude.{
  ℕ, ◌≡◌, refl, sym, ap, ◌∙◌, true, not, List, [], ◌∷◌, ◌++◌, map, filter, ◌==◌, ℕ_eq, All, All-map,
  Bool-cases, inl, inr,
}
use weather_demand_forecast.Serving.Broadcast.{
  Client, is_other, broadcast, pop, deliver, deliver_to,
}
use weather_demand_forecast.Serving.Broadcast.Bounded.{
  IsDistinct, has_room, receives, broadcast_lem,
}

-- a broadcast, or the delivery of a client's next message
pub data Event (A : Type 0) : Type 0 where
  broadcasts : A → Event A
  delivers : ℕ → Event A

module _ {A : Type 0} where
  unfoldable pub play : List (Event A) → List (Client A) → List (Client A)
  play [] qs = qs
  play (broadcasts msg ∷ es) qs = play es (broadcast msg qs)
  play (delivers id ∷ es) qs = play es (deliver_to id qs)

  abbrev pub messages : List (Event A) → List A
  messages [] = []
  messages (broadcasts msg ∷ es) = msg ∷ messages es
  messages (delivers id ∷ es) = messages es

  -- what a client was sent, and what waits for it
  abbrev pub stream : Client A → List A
  stream q = q.sent ++ q.queue

  pop-stream :
      (l : List A) (q : Client A)
      → q.queue ≡ l
      → (stream (pop l q) ≡ stream q) × ((pop l q).id ≡ q.id)
  unfolding pop
  pop-stream [] q e = (refl, refl)
  pop-stream (msg ∷ rest) q e =
      (append_assoc q.sent (msg ∷ []) rest ∙ ap (λ l. q.sent ++ l) (sym e), refl)

  deliver-stream : (q : Client A) → (stream (deliver q) ≡ stream q) × ((deliver q).id ≡ q.id)
  unfolding deliver
  deliver-stream q = pop-stream q.queue q refl

  deliver_to-All :
      (id : ℕ) (h : List A) (qs : List (Client A))
      → All (λ q. stream q ≡ h) qs
      → All (λ q. stream q ≡ h) (deliver_to id qs)
  unfolding deliver_to
  deliver_to-All id h [] all = tt
  deliver_to-All id h (q ∷ qs) all = elim (Bool-cases (q.id == id)) [
    | inl e ↦ rw e ((deliver-stream q).0 ∙ all.0, deliver_to-All id h qs all.1)
    | inr e ↦ rw e (all.0, deliver_to-All id h qs all.1)
  ]

  deliver_to-others :
      (id other : ℕ) (qs : List (Client A))
      → All (λ p. is_other other p ≡ true) qs
      → All (λ p. is_other other p ≡ true) (deliver_to id qs)
  unfolding deliver_to
  deliver_to-others id other [] all = tt
  deliver_to-others id other (q ∷ qs) all = elim (Bool-cases (q.id == id)) [
    | inl e ↦ rw e (
      ap (λ i. not (i == other)) (deliver-stream q).1 ∙ all.0,
      deliver_to-others id other qs all.1,
    )
    | inr e ↦ rw e (all.0, deliver_to-others id other qs all.1)
  ]

  deliver_to-IsDistinct :
      (id : ℕ) (qs : List (Client A)) → IsDistinct qs → IsDistinct (deliver_to id qs)
  unfolding deliver_to IsDistinct
  deliver_to-IsDistinct id [] d = tt
  deliver_to-IsDistinct id (q ∷ qs) d = elim (Bool-cases (q.id == id)) [
    | inl e ↦ rw e (
      subst (λ i. All (λ p. is_other i p ≡ true) (deliver_to id qs)) (sym (deliver-stream q).1)
          (deliver_to-others id q.id qs d.0),
      deliver_to-IsDistinct id qs d.1,
    )
    | inr e ↦ rw e (deliver_to-others id q.id qs d.0, deliver_to-IsDistinct id qs d.1)
  ]

  reached-others :
      (msg : A) (other : ℕ) (qs : List (Client A))
      → All (λ p. is_other other p ≡ true) qs
      → All (λ p. is_other other p ≡ true) (map (receives msg) (filter has_room qs))
  unfolding filter
  reached-others msg other [] all = tt
  reached-others msg other (q ∷ qs) all = elim (Bool-cases (has_room q)) [
    | inl e ↦ rw e (all.0, reached-others msg other qs all.1)
    | inr e ↦ rw e (reached-others msg other qs all.1)
  ]

  reached-IsDistinct :
      (msg : A) (qs : List (Client A))
      → IsDistinct qs
      → IsDistinct (map (receives msg) (filter has_room qs))
  unfolding filter IsDistinct
  reached-IsDistinct msg [] d = tt
  reached-IsDistinct msg (q ∷ qs) d = elim (Bool-cases (has_room q)) [
    | inl e ↦ rw e (reached-others msg q.id qs d.0, reached-IsDistinct msg qs d.1)
    | inr e ↦ rw e (reached-IsDistinct msg qs d.1)
  ]

  reached-All :
      (msg : A) (h : List A) (qs : List (Client A))
      → All (λ q. stream q ≡ h) qs
      → All (λ q. stream q ≡ h ++ msg ∷ []) (map (receives msg) (filter has_room qs))
  unfolding filter
  reached-All msg h [] all = tt
  reached-All msg h (q ∷ qs) all = elim (Bool-cases (has_room q)) [
    | inl e ↦ rw e (
      sym (append_assoc q.sent q.queue (msg ∷ [])) ∙ ap (λ l. l ++ msg ∷ []) all.0,
      reached-All msg h qs all.1,
    )
    | inr e ↦ rw e (reached-All msg h qs all.1)
  ]

  play-stream :
      (es : List (Event A)) (h : List A) (qs : List (Client A))
      → IsDistinct qs
      → All (λ q. stream q ≡ h) qs
      → All (λ q. stream q ≡ h ++ messages es) (play es qs)
  unfolding play
  play-stream [] h qs d all = All-map (λ q e. e ∙ sym (append-nil h)) qs all
  play-stream (broadcasts msg ∷ es) h qs d all =
      let reached = map (receives msg) (filter has_room qs) in
      subst (λ l. All (λ q. stream q ≡ h ++ msg ∷ messages es) (play es l))
        (sym (broadcast_lem msg qs d).0)
        (All-map (λ q e. e ∙ append_assoc h (msg ∷ []) (messages es)) (play es reached)
          (play-stream es (h ++ msg ∷ []) reached (reached-IsDistinct msg qs d)
            (reached-All msg h qs all)))
  play-stream (delivers id ∷ es) h qs d all =
      play-stream es h (deliver_to id qs) (deliver_to-IsDistinct id qs d)
        (deliver_to-All id h qs all)

  -- Of clients with distinct identities that have no message yet, one that is still subscribed after broadcasts and
  -- deliveries in any order has been sent, or has waiting, every message broadcast, each once and in order.
  pub play-ordered :
      (es : List (Event A)) (qs : List (Client A))
      → IsDistinct qs
      → All (λ q. stream q ≡ []) qs
      → All (λ q. stream q ≡ messages es) (play es qs)
  play-ordered es qs d all = play-stream es [] qs d all
