-- ===== src/Promql/Ranges.antt =====
-- internal/promql/funcs.go: functions of a range vector's points. `none` is the result `false`.
use omni_metrics.Prelude.{
  ℕ, List, [], ◌∷◌, Bool, ◌&&◌, not, Option, none, some, String, bytes, Str, str_eq, length,
  if◌then◌else◌, map,
}
use omni_metrics.Prelude.Int.{ℤ, pos}
use omni_metrics.Prelude.Int64.{sub_int64}
use omni_metrics.Promql.Value.{
  Point, VectorSample, Vector, SeriesData, Matrix, Runtime, zero_float, one_float,
}
use omni_metrics.Promql.Signature.{drop_metric_name}
use omni_metrics.Promql.Binary.{cons_if}

-- `linearRegression`: the sums of x, y, xy and x², with x in seconds from an instant.
pub record Sums : Type 0 where
  pub n : ℕ
  pub x : ℕ
  pub y : ℕ
  pub xy : ℕ
  pub x2 : ℕ

module _ (f : Runtime) where
  -- Milliseconds as seconds.
  abbrev pub seconds : ℤ → ℕ
  seconds t = f.div (f.of_int t) (f.of_int (pos 1000))

  -- The loop of `counterDelta`, with the point before.
  unfoldable pub delta_from : ℕ → ℕ → List Point → ℕ
  delta_from delta prev [] = delta
  delta_from delta prev (p ∷ ps) =
      delta_from (if f.le prev p.v then f.add delta (f.sub p.v prev) else f.add delta p.v) p.v ps

  unfoldable pub counter_delta : List Point → Option ℕ
  unfolding delta_from
  counter_delta [] = none
  counter_delta (p ∷ []) = none
  counter_delta (p ∷ (q ∷ ps)) = some (delta_from zero_float p.v (q ∷ ps))

  abbrev pub last_point : Point → List Point → Point
  last_point p [] = p
  last_point p (q ∷ qs) = last_point q qs

  -- The last two points.
  abbrev pub last_two : Point → Point → List Point → Point × Point
  last_two p q [] = (p, q)
  last_two p q (r ∷ rs) = last_two q r rs

  abbrev pub per_second : ℕ → ℕ → Option ℕ
  per_second delta dt = if f.le dt zero_float then none else some (f.div delta dt)

  unfoldable pub rate_value : List Point → Option ℕ
  unfolding delta_from
  rate_value [] = none
  rate_value (p ∷ []) = none
  rate_value (p ∷ (q ∷ ps)) =
      per_second (delta_from zero_float p.v (q ∷ ps)) (seconds (sub_int64 (last_point q ps).t p.t))

  abbrev pub instant_rate : Point → Point → Option ℕ
  instant_rate prev cur =
      let d = f.sub cur.v prev.v in
      per_second (if f.lt d zero_float then cur.v else d) (seconds (sub_int64 cur.t prev.t))

  unfoldable pub irate_value : List Point → Option ℕ
  irate_value [] = none
  irate_value (p ∷ []) = none
  irate_value (p ∷ (q ∷ ps)) = let (prev, cur) = last_two p q ps in instant_rate prev cur

  unfoldable pub simple_delta : List Point → Option ℕ
  simple_delta [] = none
  simple_delta (p ∷ []) = none
  simple_delta (p ∷ (q ∷ ps)) = some (f.sub (last_point q ps).v p.v)

  unfoldable pub idelta : List Point → Option ℕ
  idelta [] = none
  idelta (p ∷ []) = none
  idelta (p ∷ (q ∷ ps)) = let (prev, cur) = last_two p q ps in some (f.sub cur.v prev.v)

  -- `changes` and `resets` count the steps from a point to the next that pass a test.
  unfoldable pub count_steps : (ℕ → ℕ → Bool) → ℕ → ℕ → List Point → ℕ
  count_steps test n prev [] = n
  count_steps test n prev (p ∷ ps) =
      count_steps test (if test prev p.v then f.add n (one_float f) else n) p.v ps

  unfoldable pub changes : List Point → Option ℕ
  unfolding count_steps
  changes [] = none
  changes (p ∷ ps) =
      some (count_steps (λ a b. not (f.eq b a) && not (f.is_nan b && f.is_nan a)) zero_float p.v ps)

  unfoldable pub resets : List Point → Option ℕ
  unfolding count_steps
  resets [] = none
  resets (p ∷ ps) = some (count_steps (λ a b. f.lt b a) zero_float p.v ps)

  unfoldable pub sums_from : ℤ → Sums → List Point → Sums
  sums_from origin s [] = s
  sums_from origin s (p ∷ ps) =
      let x = seconds (sub_int64 p.t origin) in
      sums_from origin
        (record {
          n = f.add s.n (one_float f);
          x = f.add s.x x;
          y = f.add s.y p.v;
          xy = f.add s.xy (f.mul x p.v);
          x2 = f.add s.x2 (f.mul x x);
        })
        ps

  abbrev pub no_sums : Sums
  no_sums = record {
    n = zero_float;
    x = zero_float;
    y = zero_float;
    xy = zero_float;
    x2 = zero_float;
  }

  -- Slope and intercept.
  unfoldable pub linear_regression : List Point → ℤ → ℕ × ℕ
  unfolding sums_from
  linear_regression pts origin =
      let s = sums_from origin no_sums pts in
      let cov = f.sub s.xy (f.div (f.mul s.x s.y) s.n) in
      let var_x = f.sub s.x2 (f.div (f.mul s.x s.x) s.n) in
      let slope = f.div cov var_x in
      if f.eq s.n zero_float
      then (zero_float, f.nan)
      else if f.eq var_x zero_float
      then (zero_float, f.div s.y s.n)
      else (slope, f.sub (f.div s.y s.n) (f.div (f.mul slope s.x) s.n))

  unfoldable pub deriv : ℤ → List Point → Option ℕ
  unfolding linear_regression
  deriv ts [] = none
  deriv ts (p ∷ []) = none
  deriv ts (p ∷ (q ∷ ps)) = some (linear_regression (p ∷ (q ∷ ps)) ts).0

  unfoldable pub sum_from : ℕ → List ℕ → ℕ
  sum_from s [] = s
  sum_from s (x ∷ xs) = sum_from (f.add s x) xs

  -- The loops for the least and the greatest value, by a test that says whether to take the new one.
  unfoldable pub best_from : (ℕ → ℕ → Bool) → ℕ → List ℕ → ℕ
  best_from better m [] = m
  best_from better m (x ∷ xs) = best_from better (if better x m then x else m) xs

  unfoldable pub squares_from : ℕ → ℕ → List ℕ → ℕ
  squares_from mean v [] = v
  squares_from mean v (x ∷ xs) = let d = f.sub x mean in squares_from mean (f.add v (f.mul d d)) xs

  abbrev pub count_of : List ℕ → ℕ
  count_of vals = f.of_int (pos (length vals))

  unfoldable pub variance : List ℕ → ℕ
  unfolding sum_from squares_from
  variance [] = zero_float
  variance (x ∷ xs) =
      let n = count_of (x ∷ xs) in
      f.div (squares_from (f.div (sum_from zero_float (x ∷ xs)) n) zero_float (x ∷ xs)) n

  abbrev pub point_values : List Point → List ℕ
  point_values pts = map (λ p. p.v) pts

  -- The functions that only need a point.
  unfoldable pub over_time : (List ℕ → ℕ) → List Point → Option ℕ
  over_time g [] = none
  over_time g (p ∷ ps) = some (g (point_values (p ∷ ps)))

  abbrev pub last_point_value : List Point → Option ℕ
  last_point_value [] = none
  last_point_value (p ∷ ps) = some (last_point p ps).v

  abbrev pub is_name : String → Str → Bool
  is_name s name = str_eq (bytes s) name

  unfoldable pub range_func_value : Str → List Point → ℤ → Option ℕ
  unfolding rate_value counter_delta irate_value simple_delta idelta deriv changes resets over_time
      sum_from best_from variance
  range_func_value name pts ts =
      if is_name "rate" name
      then rate_value pts
      else if is_name "increase" name
      then counter_delta pts
      else if is_name "irate" name
      then irate_value pts
      else if is_name "delta" name
      then simple_delta pts
      else if is_name "idelta" name
      then idelta pts
      else if is_name "deriv" name
      then deriv ts pts
      else if is_name "changes" name
      then changes pts
      else if is_name "resets" name
      then resets pts
      else if is_name "sum_over_time" name
      then over_time (sum_from zero_float) pts
      else if is_name "avg_over_time" name
      then over_time (λ xs. f.div (sum_from zero_float xs) (count_of xs)) pts
      else if is_name "min_over_time" name
      then over_time (best_from f.lt f.inf) pts
      else if is_name "max_over_time" name
      then over_time (best_from (λ x m. f.lt m x) f.neg_inf) pts
      else if is_name "count_over_time" name
      then over_time count_of pts
      else if is_name "stddev_over_time" name
      then over_time (λ xs. f.sqrt (variance xs)) pts
      else if is_name "stdvar_over_time" name
      then over_time variance pts
      else if is_name "last_over_time" name
      then last_point_value pts
      else if is_name "present_over_time" name
      then over_time (λ xs. one_float f) pts
      else none

  -- The value of one series, under the labels that the function keeps.
  abbrev pub range_sample : Str → ℤ → SeriesData → Option VectorSample
  range_sample name ts s = elim (range_func_value name s.points ts) [
    | none ↦ none
    | some v ↦ some (record {
      metric = if is_name "last_over_time" name then s.metric else drop_metric_name s.metric;
      t = ts;
      v = v;
    })
  ]

  unfoldable pub apply_range_func : Str → Matrix → ℤ → Vector
  unfolding range_func_value drop_metric_name
  apply_range_func name [] ts = []
  apply_range_func name (s ∷ ss) ts = cons_if (range_sample name ts s) (apply_range_func name ss ts)
