-- ===== src/Serving/Broadcast/Bounded.antt =====
-- What a broadcast leaves of the subscribers.
use mathlib.Core.Path.{subst}
use weather_demand_forecast.Prelude.{
  ℕ, ◌≤◌, ◌≡◌, refl, sym, ap, ◌∙◌, Bool, true, false, not, List, [], ◌∷◌, ◌++◌, map, filter, length,
  length-append, ltb, ltb→lt, ◌==◌, ==_refl, ℕ_eq, All, All-filter, Bool-cases, inl, inr, arith,
  if◌then◌else◌,
}
use weather_demand_forecast.Serving.Broadcast.{
  Client, maxsize, put_nowait, put_all, is_other, discard_all, broadcast,
}

module _ {A : Type 0} where
  -- no two subscribers are the same queue
  unfoldable pub IsDistinct : List (Client A) → Type 0
  IsDistinct [] = Unit
  IsDistinct (q ∷ qs) = All (λ p. is_other q.id p ≡ true) qs × IsDistinct qs

  abbrev pub has_room : Client A → Bool
  has_room q = ltb (length q.queue) maxsize

  abbrev pub receives : A → Client A → Client A
  receives msg q = record q { queue = q.queue ++ msg ∷ [] }

  discard_all-keeps :
      (q : Client A) (dead : List ℕ) (qs : List (Client A))
      → All (λ d. (q.id == d) ≡ false) dead
      → discard_all dead (q ∷ qs) ≡ q ∷ discard_all dead qs
  unfolding discard_all filter
  discard_all-keeps q [] qs h = refl
  discard_all-keeps q (d ∷ dead) qs h =
      ap
        (λ b.
          discard_all dead (if not b then q ∷ filter (is_other d) qs else filter (is_other d) qs))
        h.0
      ∙ discard_all-keeps q dead (filter (is_other d) qs) h.1

  filter-all :
      (p : Client A → Bool) (qs : List (Client A)) → All (λ q. p q ≡ true) qs → filter p qs ≡ qs
  unfolding filter
  filter-all p [] h = refl
  filter-all p (q ∷ qs) h = rw (h.0, filter-all p qs h.1) refl

  put_all-room :
      (msg : A) (q : Client A) (qs : List (Client A))
      → has_room q ≡ true
      → put_all msg (q ∷ qs) ≡ (receives msg q ∷ (put_all msg qs).0, (put_all msg qs).1)
  unfolding put_all put_nowait
  put_all-room msg q qs e = rw (put_all, put_nowait, e) refl

  put_all-full :
      (msg : A) (q : Client A) (qs : List (Client A))
      → has_room q ≡ false
      → put_all msg (q ∷ qs) ≡ (q ∷ (put_all msg qs).0, q.id ∷ (put_all msg qs).1)
  unfolding put_all put_nowait
  put_all-full msg q qs e = rw (put_all, put_nowait, e) refl

  -- the puts drop only queues of the list, and keep the identities
  put_all-others :
      (id : ℕ) (msg : A) (qs : List (Client A))
      → All (λ q. is_other id q ≡ true) qs
      → All (λ d. (id == d) ≡ false) (put_all msg qs).1
        × All (λ q. is_other id q ≡ true) (put_all msg qs).0
  unfolding put_all
  put_all-others id msg [] h = (tt, tt)
  put_all-others id msg (q ∷ qs) h =
      let (dead, others) = put_all-others id msg qs h.1 in
      elim (Bool-cases (has_room q)) [
        | inl e ↦
            subst (λ r. All (λ d. (id == d) ≡ false) r.1 × All (λ q. is_other id q ≡ true) r.0)
              (sym (put_all-room msg q qs e)) (dead, (h.0, others))
        | inr e ↦
            subst (λ r. All (λ d. (id == d) ≡ false) r.1 × All (λ q. is_other id q ≡ true) r.0)
              (sym (put_all-full msg q qs e)) ((ground (arith, h.0), dead), (h.0, others))
      ]

  discard_all-drops :
      (q : Client A) (dead : List ℕ) (qs : List (Client A))
      → All (λ p. is_other q.id p ≡ true) qs
      → discard_all (q.id ∷ dead) (q ∷ qs) ≡ discard_all dead qs
  unfolding discard_all filter
  discard_all-drops q dead qs h =
      ap
        (λ b.
          discard_all dead
            (if not b then q ∷ filter (is_other q.id) qs else filter (is_other q.id) qs))
        (==_refl q.id)
      ∙ ap (discard_all dead) (filter-all (is_other q.id) qs h)

  filter_room :
      (q : Client A) (qs : List (Client A)) (b : Bool)
      → has_room q ≡ b
      → filter has_room (q ∷ qs) ≡ (if b then q ∷ filter has_room qs else filter has_room qs)
  unfolding filter
  filter_room q qs b e = ap (λ b. if b then q ∷ filter has_room qs else filter has_room qs) e

  broadcast-reaches :
      (msg : A) (qs : List (Client A))
      → IsDistinct qs
      → broadcast msg qs ≡ map (receives msg) (filter has_room qs)
  unfolding broadcast IsDistinct put_all discard_all filter
  broadcast-reaches msg [] h = refl
  broadcast-reaches msg (q ∷ qs) h =
      let (dead, others) = put_all-others q.id msg qs h.0 in
      elim (Bool-cases (has_room q)) [
        | inl e ↦
            ap (λ r. discard_all r.1 r.0) (put_all-room msg q qs e)
            ∙ discard_all-keeps (receives msg q) (put_all msg qs).1 (put_all msg qs).0 dead
            ∙ ap (λ l. receives msg q ∷ l) (broadcast-reaches msg qs h.1)
            ∙ sym (ap (map (receives msg)) (filter_room q qs true e))
        | inr e ↦
            ap (λ r. discard_all r.1 r.0) (put_all-full msg q qs e)
            ∙ discard_all-drops q (put_all msg qs).1 (put_all msg qs).0 others
            ∙ broadcast-reaches msg qs h.1
            ∙ sym (ap (map (receives msg)) (filter_room q qs false e))
      ]

  map-All :
      (msg : A) (qs : List (Client A))
      → All (λ q. has_room q ≡ true) qs
      → All (λ q. length q.queue ≤ maxsize) (map (receives msg) qs)
  map-All msg [] h = tt
  map-All msg (q ∷ qs) h = (
    omega (arith, ltb→lt (length q.queue) maxsize h.0, length-append q.queue (msg ∷ [])),
    map-All msg qs h.1,
  )

  -- Among different queues, a broadcast drops those that are full, and puts the message at the end of each of
  -- the others, which stay in order; then no queue has more than fifty messages.
  pub broadcast_lem :
      (msg : A) (subscribers : List (Client A))
      → IsDistinct subscribers
      → (broadcast msg subscribers ≡ map (receives msg) (filter has_room subscribers))
        × All (λ q. length q.queue ≤ maxsize) (broadcast msg subscribers)
  broadcast_lem msg subscribers h =
      let reaches = broadcast-reaches msg subscribers h in
      (
        reaches,
        subst (All (λ q. length q.queue ≤ maxsize)) (sym reaches)
            (map-All msg (filter has_room subscribers) (All-filter has_room subscribers)),
      )
