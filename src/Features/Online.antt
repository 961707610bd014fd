-- ===== src/Features/Online.antt =====
-- services/api/app/features/online.py: the live features of a prediction, read from Redis in one call.
-- A feature's age is kept in microseconds; the program rounds it to tenths of a second in its answer.
pub mod Entries
use weather_demand_forecast.Floats.{Floats}
use weather_demand_forecast.Prelude.{
  ℕ, ◌+◌, ◌*◌, String, Bool, true, false, List, [], ◌∷◌, ◌++◌, Option, none, some, map, ltb,
  if◌then◌else◌, String_eq,
}
use weather_demand_forecast.Prelude.Dict.{Dict, get, put}
use weather_demand_forecast.Stream.RedisOps.{Hash, second}
use weather_demand_forecast.Features.Registry.{Feature, weather_temp_c, weather_precip_mm}

pub record OnlineFeature : Type 0 where
  pub feature : Feature
  pub model_col : String

abbrev pub online_features : List OnlineFeature
online_features =
    record { feature = weather_temp_c; model_col = "temperature_c" }
    ∷ record { feature = weather_precip_mm; model_col = "precip_mm" }
    ∷ []

-- _miss_counts[name] += 1
unfoldable pub count_miss : String → Dict String ℕ → Dict String ℕ
unfolding get put
count_miss name counts = elim (get name counts) [ none ↦ counts | some n ↦ put name (n + 1) counts ]

module _ (fl : Floats) where
  pub record OnlineResult : Type 0 where
    pub values : Dict String (Option fl.Float)
    pub missing : List String
    pub degraded : List String
    -- the request's time and `stream_computed_at`, whose difference is the age
    pub age : Option (ℕ × ℕ)
    pub hash_present : Bool

  unfoldable pub default_of : Feature → Option fl.Float
  default_of f = elim f.default_on_missing [ none ↦ none | some n ↦ some (fl.of_ℕ n) ]

  -- age_s is not None and age_s > sla
  unfoldable pub is_breach : Option (ℕ × ℕ) → Feature → Bool
  is_breach none f = false
  is_breach (some (as_of, ts)) f = ltb (ts + f.freshness_sla_seconds * second) as_of

  pub record State : Type 0 where
    pub miss_counts : Dict String ℕ
    pub result : OnlineResult

  -- the default is used, and the miss is counted
  unfoldable pub miss : OnlineFeature → State → State
  unfolding count_miss put default_of
  miss o s = record {
    miss_counts = count_miss o.feature.name s.miss_counts;
    result = record s.result {
      missing = s.result.missing ++ o.feature.name ∷ [];
      values = put o.model_col (default_of o.feature) s.result.values;
    };
  }

  unfoldable pub serve : OnlineFeature → fl.Float → State → State
  unfolding put is_breach
  serve o v s =
      let stale = is_breach s.result.age o.feature in
      record s {
        result = record s.result {
          values = put o.model_col (some v) s.result.values;
          degraded = if stale then s.result.degraded ++ o.model_col ∷ [] else s.result.degraded;
        };
      }

  unfoldable pub use_reading : OnlineFeature → Option fl.Float → State → State
  unfolding miss serve
  use_reading o none s = miss o s
  use_reading o (some v) s = serve o v s

  -- float(s), and datetime.fromisoformat(s) in UTC; none is ValueError
  module _ (float_of : String → Option fl.Float) (parse_time : String → Option ℕ) where
    unfoldable pub reading : String → Hash → Option fl.Float
    unfolding get
    reading name raw = elim (get name raw) [ none ↦ none | some text ↦ float_of text ]

    unfoldable pub read_feature : Hash → OnlineFeature → State → State
    unfolding reading use_reading
    read_feature raw o s = use_reading o (reading o.feature.name raw) s

    unfoldable pub read_features : Hash → List OnlineFeature → State → State
    unfolding read_feature
    read_features raw [] s = s
    read_features raw (o ∷ os) s = read_features raw os (read_feature raw o s)

    -- the hash is empty: every feature is missing
    unfoldable pub all_missing : List OnlineFeature → State → State
    unfolding miss
    all_missing [] s = s
    all_missing (o ∷ os) s = all_missing os (miss o s)

    unfoldable pub age_at : ℕ → Hash → Option (ℕ × ℕ)
    unfolding get
    age_at as_of raw = elim (get "stream_computed_at" raw) [
      | none ↦ none
      | some text ↦ elim (parse_time text) [ none ↦ none | some ts ↦ some (as_of, ts) ]
    ]

    abbrev empty_result : Option (ℕ × ℕ) → Bool → OnlineResult
    empty_result age present = record {
      values = [];
      missing = [];
      degraded = [];
      age = age;
      hash_present = present;
    }

    unfoldable pub fetch_hash : ℕ → Dict String ℕ → Hash → State
    unfolding read_features all_missing age_at
    fetch_hash as_of counts [] =
        all_missing online_features
          (record { miss_counts = counts; result = empty_result none false })
    fetch_hash as_of counts (entry ∷ raw) =
        read_features (entry ∷ raw) online_features
          (record { miss_counts = counts; result = empty_result (age_at as_of (entry ∷ raw)) true })

    -- `answer` is what HGETALL returned, none when it raised
    unfoldable pub fetch_online_features : ℕ → Dict String ℕ → Option Hash → State
    unfolding fetch_hash
    fetch_online_features as_of counts none = fetch_hash as_of counts []
    fetch_online_features as_of counts (some raw) = fetch_hash as_of counts raw
