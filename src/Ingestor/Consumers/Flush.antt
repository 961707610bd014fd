-- ===== src/Ingestor/Consumers/Flush.antt =====
-- Offsets: what a commit does to a partition's position, and the largest offset of a round.
use weather_demand_forecast.Prelude.{
  ℕ, ◌+◌, ◌≤◌, ◌≡◌, refl, inl, inr, List, [], ◌∷◌, ◌++◌, Option, none, some, All, Bool-cases,
  Option-cases, ltb, ◌==◌, ==_iff, ℕ_eq, if◌then◌else◌, arith,
}
use weather_demand_forecast.Prelude.Dict.{Dict, get, put, get-put}
use weather_demand_forecast.Ingestor.Consumers.{Message, update_max_offset, commit_offsets}

-- The first offset that is not covered: 0, or one past the noted offset.
abbrev pub past : Option ℕ → ℕ
past none = 0
past (some o) = o + 1

abbrev pub at : Option ℕ → ℕ
at none = 0
at (some o) = o

-- Past the offset `floor p` from which a partition is read, and past every delivered offset.
unfoldable pub next : (ℕ → ℕ) → ℕ → List Message → ℕ
next floor p [] = floor p
next floor p (m ∷ ms) =
    let rest = next floor p ms in
    if m.partition == p then (if ltb rest (m.offset + 1) then m.offset + 1 else rest) else rest

-- A commit never puts a partition past what it was or what the offsets say.
pub commit_offsets-le :
    (offsets committed : Dict ℕ ℕ) (p bound : ℕ)
    → at (get p committed) ≤ bound
    → All (λ e. e.0 ≡ p → e.1 + 1 ≤ bound) offsets
    → at (get p (commit_offsets offsets committed)) ≤ bound
unfolding commit_offsets
commit_offsets-le [] committed p bound h hs = h
commit_offsets-le ((q, o) ∷ offsets) committed p bound h hs =
    commit_offsets-le offsets (put q (o + 1) committed) p bound
      (rw get-put (ground (arith, hs.0, ==_iff q p))) hs.1

abbrev pub EndsBy : ℕ → ℕ → Dict ℕ ℕ → Type 0
EndsBy p bound offsets = All (λ e. e.0 ≡ p → e.1 + 1 ≤ bound) offsets

pub EndsBy-le : (p b c : ℕ) (offsets : Dict ℕ ℕ) → b ≤ c → EndsBy p b offsets → EndsBy p c offsets
EndsBy-le p b c [] h es = tt
EndsBy-le p b c ((q, o) ∷ offsets) h es =
    ((λ e. omega (arith, es.0 e)), EndsBy-le p b c offsets h es.1)

EndsBy-put :
    (p b q o : ℕ) (offsets : Dict ℕ ℕ)
    → (q ≡ p → o + 1 ≤ b)
    → EndsBy p b offsets
    → EndsBy p b (put q o offsets)
unfolding put
EndsBy-put p b q o [] h es = (h, tt)
EndsBy-put p b q o ((r, v) ∷ offsets) h es = elim (Bool-cases (r == q)) [
  | inl same ↦ rw same ((λ e. ground (arith, ==_iff r q, h)), es.1)
  | inr differs ↦ rw differs (es.0, EndsBy-put p b q o offsets h es.1)
]

pub EndsBy-update_max_offset :
    (p b q o : ℕ) (offsets : Dict ℕ ℕ)
    → (q ≡ p → o + 1 ≤ b)
    → EndsBy p b offsets
    → EndsBy p b (update_max_offset q o offsets)
unfolding update_max_offset
EndsBy-update_max_offset p b q o offsets h es = elim (Option-cases (get q offsets)) [
  | inl e ↦ rw (e, update_max_offset) (EndsBy-put p b q o offsets h es)
  | inr (v, e) ↦ elim (Bool-cases (ltb v o)) [
    | inl more ↦ rw (e, more, update_max_offset) (EndsBy-put p b q o offsets h es)
    | inr less ↦ rw (e, less, update_max_offset) es
  ]
]

module _ (floor : ℕ → ℕ) where
  pub next-nil : (p : ℕ) → next floor p [] ≡ floor p
  unfolding next
  next-nil p = refl

  pub next-append_le :
      (p : ℕ) (ds : List Message) (m : Message) → next floor p ds ≤ next floor p (ds ++ m ∷ [])
  unfolding next
  next-append_le p [] m = ground arith
  next-append_le p (d ∷ ds) m = ground (arith, next-append_le p ds m)

  pub next-append_self :
      (ds : List Message) (m : Message) → m.offset + 1 ≤ next floor m.partition (ds ++ m ∷ [])
  unfolding next
  next-append_self [] m = ground (arith, ==_iff m.partition m.partition)
  next-append_self (d ∷ ds) m = ground (arith, next-append_self ds m)
