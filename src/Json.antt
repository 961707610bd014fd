-- ===== src/Json.antt =====
-- The values that `json.loads` returns, and the operations of Python that the consumers apply to
-- them without knowing their type: `v["field"]`, `"field" in v`, `v.get("field")`, and membership in
-- the frozenset of known schema versions. Numbers are integers, or floats by their IEEE 754 pattern.
use text.Mathlib.Text.{find?}
use weather_demand_forecast.Prelude.{
  ℕ, String, ◌≡◌, refl, ◌⊎◌, inl, inr, Bool, true, false, ◌||◌, Option, none, some, ◌==◌, String_eq,
  ℕ_eq, if◌then◌else◌,
}

pub data ℤ : Type 0 where
  pos : ℕ → ℤ
  negsuc : ℕ → ℤ

mutual
  pub data Value : Type 0 where
    null : Value
    bool : Bool → Value
    int : ℤ → Value
    float : ℕ → Value
    str : String → Value
    arr : Items → Value
    obj : Fields → Value

  pub data Fields : Type 0 where
    end : Fields
    field : String → Value → Fields → Fields

  pub data Items : Type 0 where
    nil : Items
    cons : Value → Items → Items

-- The exceptions that the consumers tell apart. `value_error` is a ValueError that is no
-- JSONDecodeError, such as UnicodeDecodeError; `other` is any exception that no handler of the
-- consumers names: TypeError, AttributeError, BufferError and the like.
pub data Exc : Type 0 where
  json_decode key_error validation_error value_error redis_error kafka_error db_error url_error
        other :
      Exc

pub data Result {ℓ} (A : Type ℓ) : Type ℓ where
  ok : A → Result A
  raise : Exc → Result A

-- A chain stops at the first exception.
infixl 5 ◌>>=◌
abbrev pub ◌>>=◌ {ℓ κ} : {A : Type ℓ} {B : Type κ} → Result A → (A → Result B) → Result B
raise e >>= next = raise e
ok v >>= next = next v

pub Result-cases {ℓ} :
    {A : Type ℓ} (r : Result A) → ((a : A) × (r ≡ ok a)) ⊎ ((e : Exc) × (r ≡ raise e))
Result-cases (ok a) = inl (a, refl)
Result-cases (raise e) = inr (e, refl)

infixl 5 ◌>>◌
abbrev pub ◌>>◌ {κ} : {B : Type κ} → Result (Unit {0}) → Result B → Result B
check >> rest = check >>= λ u. rest

-- Inversion of a successful chain.
pub >>=-eq-ok {ℓ κ} :
    {B : Type ℓ} {C : Type κ} (first : Result B) (next : B → Result C) {c : C}
    → (first >>= next) ≡ ok c
    → (b : B) × (first ≡ ok b) × (next b ≡ ok c)
>>=-eq-ok (raise e) next h = cc
>>=-eq-ok (ok b) next h = (b, refl, h)

-- the entry of a JSON object
unfoldable pub lookup : String → Fields → Option Value
lookup k end = none
lookup k (field j v fs) = if j == k then some v else lookup k fs

is_string : String → Value → Bool
is_string k (str s) = s == k
is_string k _ = false

has_item : String → Items → Bool
unfolding is_string
has_item k nil = false
has_item k (cons v vs) = is_string k v || has_item k vs

or_raise : Exc → Option Value → Result Value
or_raise e none = raise e
or_raise e (some v) = ok v

or_null : Option Value → Value
or_null none = null
or_null (some v) = v

is_some {ℓ} : {A : Type ℓ} → Option A → Bool
is_some none = false
is_some (some a) = true

-- v["k"]: KeyError on an object without the key, TypeError on what is no object
unfoldable pub subscript : Value → String → Result Value
unfolding or_raise
subscript (obj fs) k = or_raise key_error (lookup k fs)
subscript _ k = raise other

-- "k" in v: a key of an object, an element of a list, a substring of a text, else TypeError
unfoldable pub contains : Value → String → Result Bool
unfolding is_some has_item
contains (obj fs) k = ok (is_some (lookup k fs))
contains (arr vs) k = ok (has_item k vs)
contains (str s) k = ok (is_some (find? s k))
contains _ k = raise other

-- v.get("k"): only objects have the method
unfoldable pub get_field : Value → String → Result Value
unfolding or_null
get_field (obj fs) k = ok (or_null (lookup k fs))
get_field _ k = raise other

-- v in frozenset({1}): 1 == 1.0 == True, and a list or an object is not hashable
unfoldable pub is_version_one : Value → Result Bool
is_version_one (int (pos n)) = ok (n == 1)
is_version_one (float bits) = ok (bits == 0x3ff0000000000000)
is_version_one (bool b) = ok b
is_version_one (arr vs) = raise other
is_version_one (obj fs) = raise other
is_version_one _ = ok false
