-- ===== src/Ingestor/Hourly/Keys.antt =====
-- The key of a partition's object, and the regular expression that reads it back.
use weather_demand_forecast.Prelude.{
  ℕ, zero, suc, ◌+◌, ◌*◌, ◌/◌, ◌%◌, Bool, true, false, [], ◌∷◌, ◌++◌, Option, none, some, ◌==◌,
  ℕ_eq, if◌then◌else◌,
}
use weather_demand_forecast.Prelude.Texts.{Text, codes}

-- f"raw/{table}/dt={dt_str}/hour={hour:02d}/data.parquet"
unfoldable pub s3_key : Text → Text → ℕ → Text
s3_key table dt hour =
    let hour_on = codes "/hour=" ++ (48 + hour / 10) ∷ (48 + hour % 10) ∷ codes "/data.parquet" in
    codes "raw/" ++ (table ++ (codes "/dt=" ++ (dt ++ hour_on)))

-- The pieces of a regular expression: each takes a text and gives what is left of it, or none.
unfoldable pub and_then {ℓ κ} : {A : Type ℓ} {B : Type κ} → Option A → (A → Option B) → Option B
and_then none next = none
and_then (some a) next = next a

unfoldable pub strip : Text → Text → Option Text
strip [] s = some s
strip (p ∷ ps) [] = none
strip (p ∷ ps) (c ∷ s) = let rest = strip ps s in if p == c then rest else none

-- [^/]+ before a slash: as many as there are
unfoldable pub segment : Text → Text × Text
segment [] = ([], [])
segment (c ∷ s) = let rest = segment s in if c == b'/' then ([], c ∷ s) else (c ∷ rest.0, rest.1)

-- `digit` is the value of a character that is a decimal digit, for \d and int()
module _ (digit : ℕ → Option ℕ) where
  unfoldable pub is_digit : ℕ → Bool
  is_digit c = elim (digit c) [ none ↦ false | some d ↦ true ]

  -- \d{n}
  unfoldable pub digits : ℕ → Text → Option (Text × Text)
  unfolding and_then is_digit
  digits zero s = some ([], s)
  digits (suc n) [] = none
  digits (suc n) (c ∷ s) =
      let rest = digits n s in if is_digit c then and_then rest (λ r. some (c ∷ r.0, r.1)) else none

  -- \d{4}-\d{2}-\d{2}
  unfoldable pub date : Text → Option (Text × Text)
  unfolding strip and_then
  date s = and_then (digits 4 s) (λ y. and_then (strip (codes "-") y.1) (λ s2.
      and_then (digits 2 s2) (λ m.
        and_then (strip (codes "-") m.1)
          (λ s3. and_then (digits 2 s3) (λ d. some (y.0 ++ b'-' ∷ (m.0 ++ b'-' ∷ d.0), d.1))))))

  -- int() of a text of digits
  unfoldable pub int_of : ℕ → Text → ℕ
  int_of acc [] = acc
  int_of acc (c ∷ s) = int_of (elim (digit c) [ none ↦ acc | some d ↦ acc * 10 + d ]) s

  -- $: the end, or a line feed at the end
  unfoldable pub at_end : Text → Bool
  at_end [] = true
  at_end (c ∷ []) = c == 10
  at_end (c ∷ d ∷ s) = false

  -- the rest of the expression, behind the table
  unfoldable pub match_tail : Text → Text → Option (Text × Text × ℕ)
  unfolding strip and_then at_end
  match_tail table s = and_then (strip (codes "/dt=") s) (λ s1. and_then (date s1) (λ dt.
      and_then (strip (codes "/hour=") dt.1) (λ s2. and_then (digits 2 s2) (λ hour.
        and_then (strip (codes "/data.parquet") hour.1)
          (λ s3. if at_end s3 then some (table, dt.0, int_of 0 hour.0) else none)))))

  unfoldable pub match_segment : Text × Text → Option (Text × Text × ℕ)
  match_segment ([], s) = none
  match_segment (c ∷ table, s) = match_tail (c ∷ table) s

  unfoldable pub match_here : Text → Option (Text × Text × ℕ)
  unfolding strip and_then
  match_here s = and_then (strip (codes "raw/") s) (λ s1. match_segment (segment s1))

  -- _S3_KEY_RE.search(key): the first place at which the expression matches
  unfoldable pub parse_s3_key : Text → Option (Text × Text × ℕ)
  parse_s3_key [] = none
  parse_s3_key (c ∷ s) =
      let later = parse_s3_key s in elim (match_here (c ∷ s)) [ none ↦ later | some k ↦ some k ]
