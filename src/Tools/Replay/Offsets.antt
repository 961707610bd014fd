-- ===== src/Tools/Replay/Offsets.antt =====
-- The offsets that a replay leaves.
use mathlib.Core.Path.{subst}
use weather_demand_forecast.Prelude.{
  ℕ, ◌≤◌, ◌<◌, ◌≡◌, refl, ap, ◌∙◌, ◌⊎◌, inl, inr, String, false, List, [], ◌∷◌, Option, none, some,
  ◌==◌, ==_iff, ℕ_eq, Bool-cases, Option-cases, leb, Any, All, arith,
}
use weather_demand_forecast.Prelude.Dict.{Dict, get, put, update, get-put}
use weather_demand_forecast.Prelude.Texts.{Text}
use weather_demand_forecast.Tools.Replay.{
  Datetimes, partitions, Broker, State, returned, parse_timestamp_ms, topic_of, insert, sorted,
  settle, cons_offset, final_of, commit, resolve, reset, with_consumer, replay,
}

insert-Any_head : (a : ℕ) (bs : List ℕ) → Any (λ x. x ≡ a) (insert a bs)
unfolding insert
insert-Any_head a [] = inl refl
insert-Any_head a (b ∷ bs) = elim (Bool-cases (leb a b)) [
  | inl e ↦ rw e (inl refl)
  | inr e ↦ rw e (inr (insert-Any_head a bs))
]

insert-Any : (p a : ℕ) (bs : List ℕ) → Any (λ x. x ≡ p) bs → Any (λ x. x ≡ p) (insert a bs)
unfolding insert
insert-Any p a [] h = elim h [ ]
insert-Any p a (b ∷ bs) h = elim (Bool-cases (leb a b)) [
  | inl e ↦ rw e (inr h)
  | inr e ↦ rw e (elim h [ inl x ↦ inl x | inr y ↦ inr (insert-Any p a bs y) ])
]

sorted-Any : (p : ℕ) (ids : List ℕ) → Any (λ x. x ≡ p) ids → Any (λ x. x ≡ p) (sorted ids)
unfolding sorted
sorted-Any p [] h = elim h [ ]
sorted-Any p (a ∷ ids) (inl e) =
    subst (λ x. Any (λ y. y ≡ x) (insert a (sorted ids))) e (insert-Any_head a (sorted ids))
sorted-Any p (a ∷ ids) (inr h) = insert-Any p a (sorted ids) (sorted-Any p ids h)

-- an update leaves a key alone or gives it one of the new values
update-cases :
    (m d : Dict ℕ ℕ) (p : ℕ)
    → (get p (update m d) ≡ get p d)
      ⊎ ((o : ℕ) × (get p (update m d) ≡ some o) × Any (λ f. f ≡ (p, o)) m)
unfolding update
update-cases [] d p = inl refl
update-cases ((k, v) ∷ m) d p = elim (update-cases m (put k v d) p) [
  | inr (o, e, mem) ↦ inr (o, e, inr mem)
  | inl e ↦ elim (Bool-cases (k == p)) [
    | inl same ↦
        inr (
          v,
          e ∙ get-put k p v d ∙ rw same refl,
          inl (ap (λ (j : ℕ). (j, v)) ((==_iff k p).0 same)),
        )
    | inr other ↦ inl (e ∙ get-put k p v d ∙ rw other refl)
  ]
]

update-Any :
    (m d : Dict ℕ ℕ) (p : ℕ)
    → Any (λ f. f.0 ≡ p) m
    → (o : ℕ) × (get p (update m d) ≡ some o) × Any (λ f. f ≡ (p, o)) m
unfolding update
update-Any [] d p h = elim h [ ]
update-Any ((k, v) ∷ m) d p (inr h) =
    let (o, e, mem) = update-Any m (put k v d) p h in (o, e, inr mem)
update-Any ((k, v) ∷ m) d p (inl e) = elim (update-cases m (put k v d) p) [
  | inr (o, e2, mem) ↦ (o, e2, inr mem)
  | inl e2 ↦ (v, e2 ∙ get-put k p v d ∙ rw ((==_iff k p).1 e) refl, inl (ap (λ (j : ℕ). (j, v)) e))
]

-- The log of the topic: the time of each message, and the end of each partition.
module _ (time_of : ℕ → ℕ → ℕ) (end_of : ℕ → ℕ) (ts_ms : ℕ) where
  -- the first message at or after the time; none, if there is no such message
  abbrev pub IsFirst : ℕ × Option ℕ → Type 0
  IsFirst (p, some o) = (ts_ms ≤ time_of p o) × ((i : ℕ) → i < o → time_of p i < ts_ms)
  IsFirst (p, none) = (i : ℕ) → i < end_of p → time_of p i < ts_ms

  -- All messages before the offset are older, and the one at it is not, unless the offset is the end.
  abbrev pub IsReset : ℕ → ℕ → Type 0
  IsReset p o = ((i : ℕ) → i < o → time_of p i < ts_ms) × ((ts_ms ≤ time_of p o) ⊎ (o ≡ end_of p))

  module _ (broker : Broker)
      (ends : (p low high : ℕ)
        → broker.get_watermark_offsets p ≡ some (low, high)
        → high ≡ end_of p) where
    settle-IsReset :
        (p o : ℕ) (found : Option ℕ)
        → IsFirst (p, found)
        → settle broker p found ≡ some o
        → IsReset p o
    unfolding settle
    settle-IsReset p o (some off) (at, before) e = subst (IsReset p) (cc e) (before, inl at)
    settle-IsReset p o none before e = elim (Option-cases (broker.get_watermark_offsets p)) [
      | inl n ↦ absurd (ground (arith, e, n))
      | inr (w, m) ↦
          let high : w.1 ≡ o = cc (rw (m, settle) at e) in
          let last : w.1 ≡ end_of p = ends p w.0 w.1 m in
          subst (IsReset p) high ((λ i lt. before i (subst (λ z. i < z) last lt)), inr last)
    ]

    cons_offset-some :
        (p : ℕ) (a : Option ℕ) (b : Option (Dict ℕ ℕ)) (final : Dict ℕ ℕ)
        → cons_offset broker p a b ≡ some final
        → (o : ℕ) × (rest : Dict ℕ ℕ) × (a ≡ some o) × (b ≡ some rest) × (final ≡ (p, o) ∷ rest)
    unfolding cons_offset
    cons_offset-some p none b final e = absurd (ground (arith, e))
    cons_offset-some p (some o) none final e = absurd (ground (arith, e))
    cons_offset-some p (some o) (some rest) final e = (o, rest, refl, refl, cc)

    -- the list `final` has every partition that was resolved, and only such offsets
    final_of-IsReset :
        (resolved : List (ℕ × Option ℕ)) (final : Dict ℕ ℕ)
        → All IsFirst resolved
        → final_of broker resolved ≡ some final
        → All (λ f. IsReset f.0 f.1) final
    unfolding final_of
    final_of-IsReset [] final first e =
        let none_left : [] ≡ final = cc e in subst (All (λ f. IsReset f.0 f.1)) none_left tt
    final_of-IsReset ((p, found) ∷ resolved) final first e =
        let (o, rest, a, b, eq) =
          cons_offset-some p (settle broker p found) (final_of broker resolved) final e in
        rw eq (settle-IsReset p o found first.0 a, final_of-IsReset resolved rest first.1 b)

    final_of-Any :
        (p : ℕ) (resolved : List (ℕ × Option ℕ)) (final : Dict ℕ ℕ)
        → Any (λ f. f.0 ≡ p) resolved
        → final_of broker resolved ≡ some final
        → Any (λ f. f.0 ≡ p) final
    unfolding final_of
    final_of-Any p [] final h e = elim h [ ]
    final_of-Any p ((q, found) ∷ resolved) final h e =
        let (o, rest, a, b, eq) =
          cons_offset-some q (settle broker q found) (final_of broker resolved) final e in
        rw eq (elim h [ inl x ↦ inl x | inr y ↦ inr (final_of-Any p resolved rest y b) ])

    All-at :
        (p o : ℕ) (final : Dict ℕ ℕ)
        → All (λ f. IsReset f.0 f.1) final
        → Any (λ f. f ≡ (p, o)) final
        → IsReset p o
    All-at p o [] all h = elim h [ ]
    All-at p o (f ∷ fs) all (inl e) = subst (λ g. IsReset g.0 g.1) e all.0
    All-at p o (f ∷ fs) all (inr h) = All-at p o fs all.1 h

    commit-IsReset :
        (p : ℕ) (resolved : List (ℕ × Option ℕ)) (final : Option (Dict ℕ ℕ)) (committed : Dict ℕ ℕ)
        → All IsFirst resolved
        → Any (λ f. f.0 ≡ p) resolved
        → final_of broker resolved ≡ final
        → (commit broker final committed).0 ≡ returned
        → (o : ℕ) × (get p (commit broker final committed).1 ≡ some o) × IsReset p o
    unfolding commit
    commit-IsReset p resolved none committed first among f e = absurd (ground (arith, e))
    commit-IsReset p resolved (some final) committed first among f e =
        elim (Bool-cases broker.takes_commit) [
          | inl taken ↦
              let (o, at, mem) =
                update-Any final committed p (final_of-Any p resolved final among f) in
              rw (taken, commit)
                (o, at, All-at p o final (final_of-IsReset resolved final first f) mem)
          | inr refused ↦ absurd (ground (arith, e, refused))
        ]

    -- Let the broker resolve each partition that it is asked for to its first message at or after the time, or to
    -- nothing if there is none, and let the high watermark be the end of a partition. If a replay ends without
    -- sys.exit, every partition of the topic has a committed offset: all messages before it are older than the time,
    -- and it is the offset of a message at or after the time, or the end of the partition; and the consumer is
    -- closed.
    pub replay-IsReset :
        (py : Datetimes) (group : String) (timestamp : Text) (topic : Option String) (name : String)
        (ids : List ℕ) (s : State) (p : ℕ)
        → ((ps : List ℕ) (resolved : List (ℕ × Option ℕ))
            → broker.offsets_for_times ts_ms ps ≡ some resolved
            → All IsFirst resolved × ((q : ℕ) → Any (λ x. x ≡ q) ps → Any (λ f. f.0 ≡ q) resolved))
        → topic_of group topic ≡ some name
        → parse_timestamp_ms py timestamp ≡ some ts_ms
        → broker.list_topics name ≡ partitions ids
        → Any (λ x. x ≡ p) ids
        → (replay broker py group timestamp topic s).0 ≡ returned
        → ((o : ℕ) × (get p (replay broker py group timestamp topic s).1.committed ≡ some o)
            × IsReset p o)
          × ((replay broker py group timestamp topic s).1.consumer_open ≡ false)
    unfolding replay with_consumer reset resolve
    replay-IsReset py group timestamp topic name ids s p resolves named read listed among e =
        elim (Option-cases (broker.offsets_for_times ts_ms (sorted ids))) [
          | inl none_found ↦ absurd (ground (arith, e, named, read, listed, none_found))
          | inr (resolved, o) ↦
              let (first, all_of) = resolves (sorted ids) resolved o in
              let ended : (commit broker (final_of broker resolved) s.committed).0 ≡ returned =
                cc (rw (named, read, listed, o, replay, with_consumer, reset, resolve) at e) in
              rw (named, read, listed, o)
                (
                  commit-IsReset p resolved (final_of broker resolved) s.committed first
                      (all_of p (sorted-Any p ids among)) refl ended,
                  refl,
                )
        ]
