-- ===== src/Ingestor/Consumers/Handle.antt =====
-- The invariant of the consumer loop, through the handling of one message.
use weather_demand_forecast.Prelude.{
  ℕ, ◌+◌, ◌≤◌, ◌≡◌, refl, inl, inr, Bool, List, [], ◌∷◌, ◌++◌, Option, All, Any-append_left,
  Any-append_right, All-append, All-map, Bool-cases, arith, ℕ_eq,
}
use weather_demand_forecast.Prelude.Dict.{get}
use weather_demand_forecast.Json.{Value, Exc, Result, ok, raise, Result-cases}
use weather_demand_forecast.Ingestor.Db.{Buffered}
use weather_demand_forecast.Ingestor.Consumers.{
  Message, Answers, State, Store, Topic, update_max_offset, decode, reject, buffer, handle,
  is_caught,
}
use weather_demand_forecast.Ingestor.Consumers.Settled.{
  Settled, Grows, send_to_dlq-Grows, send_to_dlq-settles,
}
use weather_demand_forecast.Ingestor.Consumers.Flush.{
  next, at, EndsBy, EndsBy-le, EndsBy-update_max_offset, next-append_le, next-append_self,
}
use weather_demand_forecast.Ingestor.Consumers.Loop.{Held, Left, IsRunning, Left-of_Held}

module _ (loads : Option (List ℕ) → Result Value) (same_id : Value → Value → Bool)
    (topic : Topic) where
  reject-Grows :
      (a : Answers) (m : Message) (e : Exc) (w : Store)
      → Grows loads same_id topic w (reject loads same_id topic a m e w).1
  unfolding reject
  reject-Grows a m e w x s = elim (Bool-cases (is_caught loads same_id topic e)) [
    | inl c ↦ rw (c, reject) (send_to_dlq-Grows loads same_id topic a.deliver _ _ x s)
    | inr c ↦ rw (c, reject) s
  ]

  reject-settles :
      (a : Answers) (m : Message) (e : Exc) (w : Store)
      → (reject loads same_id topic a m e w).0 ≡ ok tt
      → Settled loads same_id topic (reject loads same_id topic a m e w).1 m
  unfolding reject
  reject-settles a m e w h = elim (Bool-cases (is_caught loads same_id topic e)) [
    | inl c ↦
        rw (c, reject)
          (send_to_dlq-settles loads same_id topic a.deliver _ _ m (refl, refl)
            (rw (c, reject) at h))
    | inr c ↦ absurd (ground (arith, c, h))
  ]

  -- The state in which `handle` starts: the broker has just delivered `m`.
  abbrev pub taken : Message → State → State
  taken m s = record s { delivered = s.delivered ++ m ∷ [] }

  Held-buffered :
      (s : State) (b : Buffered) (m : Message)
      → Held loads same_id topic s m
      → Held loads same_id topic (record s { batch = s.batch ++ b ∷ [] }) m
  Held-buffered s b m (inl p) = inl p
  Held-buffered s b m (inr (c, w)) =
      inr (c, Any-append_left (λ y. decode loads same_id topic m ≡ ok y) s.batch (b ∷ []) w)

  Held-grown :
      (s : State) (w : Store) (m : Message)
      → Grows loads same_id topic s.store w
      → Held loads same_id topic s m
      → Held loads same_id topic (record s { store = w }) m
  Held-grown s w m g (inl p) = inl (g m p)
  Held-grown s w m g (inr p) = inr p

  state-buffer :
      (b : Buffered) (s : State)
      → (buffer loads same_id topic b s).1 ≡ record s {
        batch = s.batch ++ b ∷ [];
        store = record s.store { messages_consumed = s.store.messages_consumed + 1 };
      }
  unfolding buffer
  state-buffer b s = ground arith

  module _ {floor : ℕ → ℕ} (a : Answers) (m : Message) (s : State)
      (r : IsRunning loads same_id topic floor s)
      (order : next floor m.partition s.delivered ≤ m.offset) where
    behind : at (get m.partition s.committed) ≤ m.offset
    behind = omega (arith, r.position m.partition)

    pending_left : EndsBy m.partition m.offset s.pending_offsets
    pending_left = EndsBy-le m.partition _ m.offset s.pending_offsets order (r.pending m.partition)

    position_after : (p : ℕ) → at (get p s.committed) ≤ next floor p (s.delivered ++ m ∷ [])
    position_after p = omega (arith, r.position p, next-append_le floor p s.delivered m)

    pending_after :
        (p : ℕ)
        → EndsBy p
            (next floor p (s.delivered ++ m ∷ []))
            (update_max_offset m.partition m.offset s.pending_offsets)
    pending_after p =
        EndsBy-update_max_offset p _ m.partition m.offset s.pending_offsets
          (λ e. rw (← e) (next-append_self floor s.delivered m))
          (EndsBy-le p _ _ s.pending_offsets (next-append_le floor p s.delivered m) (r.pending p))

    pub handle-ok :
        (handle loads same_id topic a m (taken m s)).0 ≡ ok tt
        → IsRunning loads same_id topic floor (handle loads same_id topic a m (taken m s)).1
    unfolding handle
    handle-ok h = elim (Result-cases (decode loads same_id topic m)) [
      | inl (b, d) ↦ elim (Result-cases (buffer loads same_id topic b (taken m s)).0) [
        | inl (tt, e) ↦
            rw (d, e, state-buffer b (taken m s), handle)
              (record {
                held =
                    All-append _ s.delivered (m ∷ [])
                      (All-map (λ x p. Held-buffered s b x p) s.delivered r.held)
                      (
                        inr (
                          behind,
                          Any-append_right (λ y. decode loads same_id topic m ≡ ok y) s.batch
                              (b ∷ []) (inl d),
                        ),
                        tt,
                      );
                position = position_after;
                pending = pending_after;
              })
        | inr (x, e) ↦ absurd (ground (arith, d, e, h))
      ]
      | inr (x, d) ↦ elim (Result-cases (reject loads same_id topic a m x s.store).0) [
        | inl (tt, e) ↦
            rw (d, e, handle)
              (record {
                held =
                    All-append _ s.delivered (m ∷ [])
                      (All-map
                        (λ y p.
                          Held-grown s (reject loads same_id topic a m x s.store).1 y
                            (reject-Grows a m x s.store) p)
                        s.delivered r.held)
                      (inl (reject-settles a m x s.store e), tt);
                position = position_after;
                pending = pending_after;
              })
        | inr (y, e) ↦ absurd (ground (arith, d, e, h))
      ]
    ]

    pub handle-raise :
        (z : Exc)
        → (handle loads same_id topic a m (taken m s)).0 ≡ raise z
        → All
            (Left loads same_id topic (handle loads same_id topic a m (taken m s)).1)
            (handle loads same_id topic a m (taken m s)).1.delivered
    unfolding handle
    handle-raise z h = elim (Result-cases (decode loads same_id topic m)) [
      | inl (b, d) ↦ elim (Result-cases (buffer loads same_id topic b (taken m s)).0) [
        | inl (tt, e) ↦ absurd (ground (arith, d, e, h))
        | inr (x, e) ↦
            rw (d, e, state-buffer b (taken m s), handle)
              (All-append _ s.delivered (m ∷ [])
                (All-map
                  (λ y p.
                    Left-of_Held loads same_id topic (record s { batch = s.batch ++ b ∷ [] }) y
                      (Held-buffered s b y p))
                  s.delivered r.held)
                (inr (behind, inr pending_left), tt))
      ]
      | inr (x, d) ↦ elim (Result-cases (reject loads same_id topic a m x s.store).0) [
        | inl (tt, e) ↦ absurd (ground (arith, d, e, h))
        | inr (y, e) ↦
            rw (d, e, handle)
              (All-append _ s.delivered (m ∷ [])
                (All-map
                  (λ v p.
                    Left-of_Held loads same_id topic
                      (record s { store = (reject loads same_id topic a m x s.store).1 }) v
                      (Held-grown s (reject loads same_id topic a m x s.store).1 v
                        (reject-Grows a m x s.store) p))
                  s.delivered r.held)
                (inr (behind, inr pending_left), tt))
      ]
    ]

  pub delivered-handle :
      (a : Answers) (m : Message) (s : State)
      → (handle loads same_id topic a m s).1.delivered ≡ s.delivered
  unfolding handle
  delivered-handle a m s = elim (Result-cases (decode loads same_id topic m)) [
    | inl (b, d) ↦ rw (d, handle) (ground (arith, state-buffer b s))
    | inr (x, d) ↦ rw (d, handle) (ground arith)
  ]
