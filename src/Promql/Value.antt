-- ===== src/Promql/Value.antt =====
-- internal/promql/value.go: the values of queries, and evalResult (engine.go). The calls of Go's
-- library that the evaluation makes are a parameter, `Runtime`. A float is its 64 bits.
use omni_metrics.Prelude.{ℕ, List, Bool, Option, Str, if◌then◌else◌}
use omni_metrics.Prelude.Int.{ℤ, pos}
use omni_metrics.Model.Labels.{Labels}

pub record Point : Type 0 where
  pub t : ℤ
  pub v : ℕ

pub record VectorSample : Type 0 where
  pub metric : Labels
  pub t : ℤ
  pub v : ℕ

abbrev pub Vector : Type 0
Vector = List VectorSample

pub record SeriesData : Type 0 where
  pub metric : Labels
  pub points : List Point

abbrev pub Matrix : Type 0
Matrix = List SeriesData

-- `evalResult`, with the field that its kind makes meaningful.
pub data Value : Type 0 where
  scalar : ℕ → Value
  vector : Vector → Value
  matrix : Matrix → Value
  string : Str → Value

-- `bucket`: an upper bound and a cumulative count.
pub record Bucket : Type 0 where
  pub upper_bound : ℕ
  pub count : ℕ

-- Float arithmetic and comparison, the packages math, strconv, regexp, sort and time, and the
-- conversions between floats and integers.
pub record Runtime : Type 0 where
  pub add : ℕ → ℕ → ℕ
  pub sub : ℕ → ℕ → ℕ
  pub mul : ℕ → ℕ → ℕ
  pub div : ℕ → ℕ → ℕ
  pub fmod : ℕ → ℕ → ℕ
  pub pow : ℕ → ℕ → ℕ
  pub fmin : ℕ → ℕ → ℕ
  pub fmax : ℕ → ℕ → ℕ
  pub eq : ℕ → ℕ → Bool
  pub lt : ℕ → ℕ → Bool
  pub le : ℕ → ℕ → Bool
  pub neg : ℕ → ℕ
  pub abs : ℕ → ℕ
  pub ceil : ℕ → ℕ
  pub floor : ℕ → ℕ
  pub exp : ℕ → ℕ
  pub ln : ℕ → ℕ
  pub log2 : ℕ → ℕ
  pub log10 : ℕ → ℕ
  pub sqrt : ℕ → ℕ
  pub is_nan : ℕ → Bool
  pub is_inf : ℕ → Bool
  pub nan : ℕ
  pub inf : ℕ
  pub neg_inf : ℕ
  pub half : ℕ
  pub of_int : ℤ → ℕ
  pub to_int : ℕ → ℤ
  pub format : ℕ → Str
  pub parse_float : Str → Option ℕ
  -- The groups of a match of a pattern expanded in a template, `none` if the pattern does not
  -- compile, and if it does not match.
  pub expand : Str → Option (Str → Str → Option Str)
  pub sort_floats : List ℕ → List ℕ
  pub sort_samples : (VectorSample → VectorSample → Bool) → Vector → Vector
  pub sort_buckets : (Bucket → Bucket → Bool) → List Bucket → List Bucket
  -- Fields of the UTC time of a Unix second, and the day of a date that `time.Date` normalizes.
  pub day : ℤ → ℤ
  pub weekday : ℤ → ℤ
  pub year_day : ℤ → ℤ
  pub hour : ℤ → ℤ
  pub minute : ℤ → ℤ
  pub month : ℤ → ℤ
  pub year : ℤ → ℤ
  pub date_day : ℤ → ℤ → ℤ → ℤ

-- The floats 0 and 1, and 1 for a test that holds.
abbrev pub zero_float : ℕ
zero_float = 0

abbrev pub one_float : Runtime → ℕ
one_float f = f.of_int (pos 1)

abbrev pub truth : Runtime → Bool → ℕ
truth f b = if b then one_float f else zero_float

-- Why an evaluation fails.
pub data EvalError : Type 0 where
  not_scalar_or_vector : EvalError
  missing_argument : Str → ℕ → EvalError
  wrong_argument : Str → ℕ → EvalError
  unknown_function : Str → EvalError
  unknown_aggregation : Str → EvalError
  not_instant_vector : Str → EvalError
  bad_parameter : Str → EvalError
  bad_regexp : Str → EvalError
  set_operands : EvalError
  needs_bool : EvalError
  not_supported : EvalError
  too_many_points : EvalError
  bad_step : EvalError
  bad_range : EvalError
  range_too_large : EvalError

-- `endless` is a call that does not return.
pub data Outcome {ℓ} (A : Type ℓ) : Type ℓ where
  ok : A → Outcome A
  failed : EvalError → Outcome A
  panicked : Outcome A
  endless : Outcome A

infixl 1 ◌>>=◌
abbrev pub ◌>>=◌ {ℓ κ} : {A : Type ℓ} {B : Type κ} → Outcome A → (A → Outcome B) → Outcome B
ok a >>= f = f a
failed e >>= f = failed e
panicked >>= f = panicked
endless >>= f = endless
