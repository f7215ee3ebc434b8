-- ===== src/Promql/Functions/Elementwise.antt =====
-- internal/promql/funcs_lib.go: functions that give each sample a new value, and those of scalars, time
-- and order.
use omni_metrics.Prelude.{
  ℕ, List, [], ◌∷◌, Bool, true, false, Option, none, some, Str, length, ltb, if◌then◌else◌,
}
use omni_metrics.Prelude.Int.{ℤ, pos}
use omni_metrics.Prelude.Int64.{div_int64, add_int64}
use omni_metrics.Model.Labels.{Labels}
use omni_metrics.Promql.Value.{
  VectorSample, Vector, Value, scalar, vector, Runtime, Outcome, ok, failed, ◌>>=◌,
  unknown_function, zero_float, one_float,
}
use omni_metrics.Promql.Signature.{drop_metric_name}
use omni_metrics.Promql.Ranges.{is_name, seconds}
use omni_metrics.Promql.Functions.Arguments.{Arg, arg_vector, arg_scalar}

-- A new value for each sample, without the metric's name.
unfoldable pub map_values : (VectorSample → ℕ) → ℤ → Vector → Vector
unfolding drop_metric_name
map_values g ts [] = []
map_values g ts (s ∷ ss) =
    record { metric = drop_metric_name s.metric; t = ts; v = g s } ∷ map_values g ts ss

-- The sample without labels.
abbrev pub single_sample : Labels → ℤ → ℕ → Vector
single_sample labels ts v = record { metric = labels; t = ts; v = v } ∷ []

module _ (f : Runtime) (name : Str) (args : List Arg) (ts : ℤ) where
  abbrev pub sign : ℕ → ℕ
  sign v =
      if f.is_nan v
      then v
      else if f.lt zero_float v
      then one_float f
      else if f.lt v zero_float
      then f.neg (one_float f)
      else zero_float

  -- `simpleFuncs[name]`.
  unfoldable pub simple_func : Option (ℕ → ℕ)
  simple_func =
      if is_name f "abs" name
      then some f.abs
      else if is_name f "ceil" name
      then some f.ceil
      else if is_name f "floor" name
      then some f.floor
      else if is_name f "exp" name
      then some f.exp
      else if is_name f "ln" name
      then some f.ln
      else if is_name f "log2" name
      then some f.log2
      else if is_name f "log10" name
      then some f.log10
      else if is_name f "sqrt" name
      then some f.sqrt
      else if is_name f "sgn" name
      then some sign
      else none

  unfoldable pub call_simple : Outcome Value
  unfolding simple_func arg_vector map_values
  call_simple = elim simple_func [
    | none ↦ failed (unknown_function name)
    | some g ↦ arg_vector name args ts 0 >>= λ v. ok (vector (map_values (λ s. g s.v) ts v))
  ]

  abbrev pub days_in_month : ℤ → ℤ → ℤ
  days_in_month year month = f.date_day year (add_int64 month (pos 1)) (pos 0)

  -- `timeFuncs[name]` at a Unix second; the dispatch only lets these names through.
  unfoldable pub time_func : ℤ → ℕ
  time_func sec = f.of_int (
      if is_name f "day_of_month" name
      then f.day sec
      else if is_name f "day_of_week" name
      then f.weekday sec
      else if is_name f "day_of_year" name
      then f.year_day sec
      else if is_name f "days_in_month" name
      then days_in_month (f.year sec) (f.month sec)
      else if is_name f "hour" name
      then f.hour sec
      else if is_name f "minute" name
      then f.minute sec
      else if is_name f "month" name
      then f.month sec
      else f.year sec)

  unfoldable pub call_time_func : Outcome Value
  unfolding time_func arg_vector map_values
  call_time_func = elim args [
    | [] ↦ ok (vector (single_sample [] ts (time_func (div_int64 ts 1000))))
    | a ∷ as_ ↦ arg_vector name (a ∷ as_) ts 0 >>= λ v.
        ok (vector (map_values (λ s. time_func (f.to_int s.v)) ts v))
  ]

  unfoldable pub call_clamp : Outcome Value
  unfolding arg_vector arg_scalar map_values
  call_clamp = arg_vector name args ts 0 >>= λ v. arg_scalar name args ts 1 >>= λ mn.
      arg_scalar name args ts 2 >>= λ mx.
      ok (vector (if f.lt mx mn then [] else map_values (λ s. f.fmax mn (f.fmin mx s.v)) ts v))

  unfoldable pub call_clamp_max_min : Outcome Value
  unfolding arg_vector arg_scalar map_values
  call_clamp_max_min = arg_vector name args ts 0 >>= λ v. arg_scalar name args ts 1 >>= λ lim. ok (
      vector (
        map_values (λ s. if is_name f "clamp_max" name then f.fmin s.v lim else f.fmax s.v lim) ts
          v))

  abbrev pub nearest : Outcome ℕ
  nearest = if ltb 1 (length args) then arg_scalar name args ts 1 else ok (one_float f)

  unfoldable pub call_round : Outcome Value
  unfolding arg_vector arg_scalar map_values
  call_round = arg_vector name args ts 0 >>= λ v. nearest >>= λ x.
      let n = if f.eq x zero_float then one_float f else x in
      ok (vector (map_values (λ s. f.mul (f.floor (f.add (f.div s.v n) f.half)) n) ts v))

  abbrev pub the_only : Vector → ℕ
  the_only (s ∷ []) = s.v
  the_only _ = f.nan

  unfoldable pub call_scalar : Outcome Value
  unfolding arg_vector
  call_scalar = arg_vector name args ts 0 >>= λ v. ok (scalar (the_only v))

  unfoldable pub call_vector : Outcome Value
  unfolding arg_scalar
  call_vector = arg_scalar name args ts 0 >>= λ s. ok (vector (single_sample [] ts s))

  unfoldable pub call_timestamp : Outcome Value
  unfolding arg_vector map_values
  call_timestamp =
      arg_vector name args ts 0 >>= λ v. ok (vector (map_values (λ s. seconds f s.t) ts v))

  -- NaN goes last in both directions.
  abbrev pub sorts_before : VectorSample → VectorSample → Bool
  sorts_before a b =
      if f.is_nan a.v
      then false
      else if f.is_nan b.v
      then true
      else if is_name f "sort_desc" name
      then f.lt b.v a.v
      else f.lt a.v b.v

  unfoldable pub call_sort : Outcome Value
  unfolding arg_vector
  call_sort = arg_vector name args ts 0 >>= λ v. ok (vector (f.sort_samples sorts_before v))
