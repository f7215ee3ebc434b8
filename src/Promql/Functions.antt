-- ===== src/Promql/Functions.antt =====
-- internal/promql/funcs_lib.go: function calls.
pub mod Arguments
pub mod Elementwise
pub mod Relabel
use omni_metrics.Prelude.{
  ℕ, zero, suc, List, [], ◌∷◌, ◌++◌, Bool, true, false, ◌||◌, ◌&&◌, not, Option, none, some, String,
  Str, str_eq, map, length, drop, ltb, if◌then◌else◌, bytes,
}
use omni_metrics.Prelude.Int.{ℤ, pos}
use omni_metrics.Prelude.Int64.{div_int64, add_int64}
use omni_metrics.Model.Labels.{Labels, normalize, get, metric_name}
use omni_metrics.Model.Matcher.{Matcher}
use omni_metrics.Tsdb.Head.Query.{is_match_equal}
use omni_metrics.Promql.Ast.{Expr, string_literal, vector_selector, matrix_selector, among}
use omni_metrics.Promql.Value.{
  VectorSample, Vector, SeriesData, Matrix, Value, scalar, vector, matrix, Runtime, Outcome, ok,
  failed, ◌>>=◌, missing_argument, wrong_argument, unknown_function, bad_regexp, zero_float,
  one_float,
}
use omni_metrics.Promql.Signature.{drop_metric_name, set_or_delete_label}
use omni_metrics.Promql.Binary.{cons_if}
use omni_metrics.Promql.Ranges.{is_name, apply_range_func, linear_regression, seconds, point_values}
use omni_metrics.Promql.Aggregate.{quantile}
use omni_metrics.Promql.Histogram.{histogram_quantile}
use omni_metrics.Promql.Functions.Arguments.{
  Arg, nth_arg, as_literal, has_points, eval_arg, arg_vector, arg_scalar, arg_matrix, arg_string,
}
use omni_metrics.Promql.Functions.Elementwise.{
  single_sample, call_simple, call_time_func, call_clamp, call_clamp_max_min, call_round,
  call_scalar, call_vector, call_timestamp, call_sort,
}
use omni_metrics.Promql.Functions.Relabel.{
  call_absent, call_absent_over_time, call_label_replace, call_label_join,
}

module _ (f : Runtime) (name : Str) (args : List Arg) (ts : ℤ) where
  unfoldable pub call_range_func : Outcome Value
  unfolding arg_matrix
  call_range_func = arg_matrix name args ts 0 >>= λ m. ok (vector (apply_range_func f name m ts))

  abbrev pub predicted : ℕ → SeriesData → Option VectorSample
  predicted secs s =
      let (slope, intercept) = linear_regression f s.points ts in
      if ltb (length s.points) 2
      then none
      else some (record {
        metric = drop_metric_name s.metric;
        t = ts;
        v = f.add (f.mul slope secs) intercept;
      })

  unfoldable pub predict : ℕ → Matrix → Vector
  unfolding drop_metric_name
  predict secs [] = []
  predict secs (s ∷ ss) = cons_if (predicted secs s) (predict secs ss)

  unfoldable pub call_predict_linear : Outcome Value
  unfolding arg_matrix arg_scalar predict
  call_predict_linear = arg_matrix name args ts 0 >>= λ m.
      arg_scalar name args ts 1 >>= λ secs. ok (vector (predict secs m))

  unfoldable pub quantile_series : ℕ → Matrix → Outcome Vector
  unfolding quantile drop_metric_name
  quantile_series phi [] = ok []
  quantile_series phi (s ∷ ss) =
      let rest = quantile_series phi ss in
      if has_points s
      then (quantile f phi (point_values f s.points) >>= λ v.
          rest >>= λ out. ok (record { metric = drop_metric_name s.metric; t = ts; v = v } ∷ out))
      else rest

  unfoldable pub call_quantile_over_time : Outcome Value
  unfolding arg_matrix arg_scalar quantile_series
  call_quantile_over_time = arg_scalar name args ts 0 >>= λ phi.
      arg_matrix name args ts 1 >>= λ m. quantile_series phi m >>= λ out. ok (vector out)

  unfoldable pub call_histogram_quantile : Outcome Value
  unfolding arg_vector arg_scalar
  call_histogram_quantile = arg_scalar name args ts 0 >>= λ phi.
      arg_vector name args ts 1 >>= λ v. ok (vector (histogram_quantile f phi ts v))

  abbrev pub range_functions : List String
  range_functions =
      "rate" ∷ "irate" ∷ "increase" ∷ "delta" ∷ "idelta" ∷ "deriv" ∷ "changes" ∷ "resets"
      ∷ "sum_over_time" ∷ "avg_over_time" ∷ "min_over_time" ∷ "max_over_time" ∷ "count_over_time"
      ∷ "stddev_over_time" ∷ "stdvar_over_time" ∷ "last_over_time" ∷ "present_over_time" ∷ []

  abbrev pub time_functions : List String
  time_functions =
      "day_of_month" ∷ "day_of_week" ∷ "day_of_year" ∷ "days_in_month" ∷ "hour" ∷ "minute" ∷ "month"
      ∷ "year" ∷ []

  unfoldable pub eval_call : Outcome Value
  unfolding among call_range_func call_predict_linear call_quantile_over_time
      call_histogram_quantile call_label_replace call_label_join call_scalar call_vector
      call_timestamp call_sort call_absent call_absent_over_time call_clamp call_clamp_max_min
      call_round call_time_func call_simple
  eval_call =
      if among name range_functions
      then call_range_func
      else if is_name f "predict_linear" name
      then call_predict_linear
      else if is_name f "quantile_over_time" name
      then call_quantile_over_time
      else if is_name f "histogram_quantile" name
      then call_histogram_quantile
      else if is_name f "label_replace" name
      then call_label_replace f name args ts
      else if is_name f "label_join" name
      then call_label_join f name args ts
      else if is_name f "scalar" name
      then call_scalar f name args ts
      else if is_name f "vector" name
      then call_vector f name args ts
      else if is_name f "time" name
      then ok (scalar (seconds f ts))
      else if is_name f "timestamp" name
      then call_timestamp f name args ts
      else if among name ("sort" ∷ "sort_desc" ∷ [])
      then call_sort f name args ts
      else if is_name f "absent" name
      then call_absent f name args ts
      else if is_name f "absent_over_time" name
      then call_absent_over_time f name args ts
      else if is_name f "clamp" name
      then call_clamp f name args ts
      else if among name ("clamp_max" ∷ "clamp_min" ∷ [])
      then call_clamp_max_min f name args ts
      else if is_name f "round" name
      then call_round f name args ts
      else if among name time_functions
      then call_time_func f name args ts
      else call_simple f name args ts
