-- ===== src/Promql/Engine.antt =====
-- internal/promql/engine.go: evaluation of a query at an instant, and queries over a range. The
-- querier is a parameter, `select`: its result of a range of instants and matchers, `none` a panic.
-- A context that is cancelled is left out.
pub mod Points
pub mod Steps
pub mod Selectors
use omni_metrics.Prelude.{
  ℕ, zero, suc, ◌*◌, ◌-◌, ◌^◌, leb, List, [], ◌∷◌, ◌++◌, Bool, true, false, ◌||◌, Option, none,
  some, Str, str_lt, map, if◌then◌else◌,
}
use omni_metrics.Prelude.Int.{ℤ, pos, negsuc, leb_ℤ, ltb_ℤ}
use omni_metrics.Prelude.Int64.{add_int64, sub_int64, mul_int64, div_int64}
use omni_metrics.Model.Labels.{Labels, to_string}
use omni_metrics.Model.Matcher.{Matcher}
use omni_metrics.Tsdb.Head.{Sample, SeriesResult}
use omni_metrics.Promql.Ast
use omni_metrics.Promql.Ast.{
  Expr, Args, Param, AtModifier, at_time, at_start, at_end, VectorSelector, number_literal,
  string_literal, vector_selector, matrix_selector, subquery_expr, call, aggregate_expr,
  binary_expr, unary_expr, paren_expr, no_args, arg, no_param, param,
}
use omni_metrics.Promql.Value.{
  Point, VectorSample, Vector, SeriesData, Matrix, Value, scalar, vector, matrix, string, Runtime,
  Outcome, ok, failed, panicked, endless, ◌>>=◌, EvalError, not_scalar_or_vector,
  not_instant_vector, bad_parameter, too_many_points, bad_step, bad_range, range_too_large,
  zero_float,
}
use omni_metrics.Promql.Signature.{Group, add_member, drop_metric_name}
use omni_metrics.Promql.Binary.{apply_binary, cons_if}
use omni_metrics.Promql.Aggregate.{aggregate}
use omni_metrics.Promql.Functions.Arguments.{Arg}
use omni_metrics.Promql.Functions.{eval_call}

abbrev pub Select : Type 0
Select = ℤ → ℤ → List Matcher → Option (List SeriesResult)

-- `evaluator`.
pub record Evaluator : Type 0 where
  pub select : Select
  pub lookback : ℤ
  pub query_start : ℤ
  pub query_end : ℤ

abbrev pub max_resolution : ℤ
max_resolution = pos 11000

abbrev pub default_subquery_step : ℕ
default_subquery_step = 60 * 1000

abbrev pub default_lookback : ℤ
default_lookback = pos (5 * 60 * 1000)

-- The sample of one series at an instant: its last one in the window.
unfoldable pub last_sample : Labels → Option VectorSample → List Sample → Option VectorSample
last_sample labels found [] = found
last_sample labels found (s ∷ ss) =
    last_sample labels (some (record { metric = labels; t = s.t; v = s.v })) ss

unfoldable pub instant_samples : List SeriesResult → Vector
unfolding last_sample
instant_samples [] = []
instant_samples (r ∷ rs) = cons_if (last_sample r.labels none r.samples) (instant_samples rs)

unfoldable pub range_series : List SeriesResult → Matrix
range_series rs =
    map
      (λ r. record { metric = r.labels; points = map (λ s. record { t = s.t; v = s.v }) r.samples })
      rs

abbrev pub or_panic {ℓ} : {A : Type ℓ} → Option A → Outcome A
or_panic none = panicked
or_panic (some a) = ok a

-- The time of step `i` of a range query or a subquery; the product is that of `i` modulo 2^64.
abbrev pub step_time : ℤ → ℕ → ℕ → ℤ
step_time start i step = add_int64 start (mul_int64 (pos i) (pos step))

unfoldable pub add_samples : ℤ → Vector → List (Group Point) → List (Group Point)
unfolding add_member
add_samples t [] gs = gs
add_samples t (s ∷ ss) gs =
    add_samples t ss (add_member (to_string s.metric) s.metric (record { t = t; v = s.v }) gs)

abbrev pub add_step : ℤ → List (Group Point) → Value → Outcome (List (Group Point))
add_step t gs (vector v) = ok (add_samples t v gs)
add_step t gs (scalar x) = ok (add_member (to_string []) [] (record { t = t; v = x }) gs)
add_step t gs _ = failed not_scalar_or_vector

-- `left` steps from number `i` on.
unfoldable pub run_steps :
    (ℤ → Outcome Value) → ℤ → ℕ → ℕ → ℕ → List (Group Point) → Outcome (List (Group Point))
unfolding add_samples
run_steps eval start step i zero gs = ok gs
run_steps eval start step i (suc left) gs = eval (step_time start i step) >>= λ v.
    add_step (step_time start i step) gs v >>= λ gs'. run_steps eval start step (suc i) left gs'

abbrev pub series_of : Group Point → SeriesData
series_of g = record { metric = g.labels; points = g.members }

-- The loop `i <= n` for the greatest `n`: the int64 `i` wraps, and once each of its values has had its
-- turn without an error the loop goes on for ever.
unfoldable pub wrapped_steps : (ℤ → Outcome Value) → ℤ → ℕ → Outcome (List (Group Point))
unfolding run_steps
wrapped_steps eval start step = run_steps eval start step 0 (2 ^ 64) [] >>= λ gs. endless

-- The loop `for i := 0; i <= n; i++`: none for a negative `n`, else one step more than `n`.
unfoldable pub loop_steps : (ℤ → Outcome Value) → ℤ → ℕ → ℤ → Outcome (List (Group Point))
unfolding run_steps
loop_steps eval start step (negsuc n) = ok []
loop_steps eval start step (pos n) =
    if leb (2 ^ 63 - 1) n
    then wrapped_steps eval start step
    else run_steps eval start step 0 (suc n) []

abbrev pub or_default_step : ℤ → ℕ
or_default_step (pos zero) = default_subquery_step
or_default_step (pos (suc n)) = suc n
or_default_step (negsuc n) = default_subquery_step

unfoldable pub negate_vector : Runtime → Vector → Vector
unfolding drop_metric_name
negate_vector f [] = []
negate_vector f (s ∷ ss) =
    record { metric = drop_metric_name s.metric; t = s.t; v = f.neg s.v } ∷ negate_vector f ss

unfoldable pub eval_unary : Runtime → Value → Outcome Value
unfolding negate_vector
eval_unary f (scalar x) = ok (scalar (f.neg x))
eval_unary f (vector v) = ok (vector (negate_vector f v))
eval_unary f _ = failed not_scalar_or_vector

abbrev pub as_instant : Str → Value → Outcome Vector
as_instant op (vector v) = ok v
as_instant op _ = failed (not_instant_vector op)

-- The parameter of an aggregation, as a float and a string.
abbrev pub as_parameter : Str → Value → Outcome (ℕ × Str)
as_parameter op (scalar x) = ok (x, [])
as_parameter op (string s) = ok (zero_float, s)
as_parameter op _ = failed (bad_parameter op)

-- No parameter is 0 and the empty string.
abbrev pub parameter_of : Str → Option (Outcome Value) → Outcome (ℕ × Str)
parameter_of op none = ok (zero_float, [])
parameter_of op (some q) = q >>= λ r. as_parameter op r

abbrev pub or_no_labels : Option (List Str) → List Str
or_no_labels none = []
or_no_labels (some names) = names

module _ (f : Runtime) (ev : Evaluator) where
  unfoldable pub resolve_time : Option AtModifier → ℤ → ℤ
  resolve_time none ts = ts
  resolve_time (some (at_time t)) ts = t
  resolve_time (some at_start) ts = ev.query_start
  resolve_time (some at_end) ts = ev.query_end

  unfoldable pub select_instant : VectorSelector → ℤ → Outcome Vector
  unfolding resolve_time instant_samples
  select_instant vs ts =
      let sel_ts = sub_int64 (resolve_time vs.at ts) vs.offset in
      or_panic (ev.select (sub_int64 sel_ts ev.lookback) sel_ts vs.matchers) >>= λ rs.
      ok (instant_samples rs)

  unfoldable pub select_range : VectorSelector → ℤ → ℤ → Option AtModifier → ℤ → Outcome Matrix
  unfolding resolve_time range_series
  select_range vs range offset at ts =
      let sel_ts = sub_int64 (resolve_time at ts) offset in
      or_panic (ev.select (sub_int64 sel_ts range) sel_ts vs.matchers) >>= λ rs.
      ok (range_series rs)

  unfoldable pub eval_subquery :
      (ℤ → Outcome Value) → ℤ → ℤ → ℤ → Option AtModifier → ℤ → Outcome Matrix
  unfolding resolve_time loop_steps
  eval_subquery eval range step offset at ts =
      let d = or_default_step step in
      let start = sub_int64 (sub_int64 (resolve_time at ts) offset) range in
      let n = div_int64 range d in
      if ltb_ℤ max_resolution (add_int64 n (pos 1))
      then failed too_many_points
      else (loop_steps eval start d n >>= λ gs. ok (map series_of gs))

  unfoldable pub eval_aggregate :
      Str → Outcome Value → Option (Outcome Value) → Option (List Str) → Bool → ℤ → Outcome Value
  unfolding aggregate
  eval_aggregate op inner p grouping without ts = inner >>= λ i. as_instant op i >>= λ v.
      parameter_of op p >>= λ r.
      let (x, label) = r in
      aggregate f op v (or_no_labels grouping) without ts x label >>= λ out. ok (vector out)

  unfoldable mutual
    unfolding select_instant select_range eval_subquery eval_aggregate eval_unary eval_call
        apply_binary

    pub eval_expr : Expr → ℤ → Outcome Value
    eval_expr (number_literal x) ts = ok (scalar x)
    eval_expr (string_literal s) ts = ok (string s)
    eval_expr (vector_selector vs) ts = select_instant vs ts >>= λ v. ok (vector v)
    eval_expr (matrix_selector vs range offset at) ts =
        select_range vs range offset at ts >>= λ m. ok (matrix m)
    eval_expr (subquery_expr e range step offset at) ts =
        eval_subquery (eval_expr e) range step offset at ts >>= λ m. ok (matrix m)
    eval_expr (call name args) ts = eval_call f name (eval_args args) ts
    eval_expr (aggregate_expr op e p grouping without) ts =
        eval_aggregate op (eval_expr e ts) (eval_param p ts) grouping without ts
    eval_expr (binary_expr op l r m return_bool) ts =
        eval_expr l ts >>= λ a. eval_expr r ts >>= λ b. apply_binary f op m return_bool a b
    eval_expr (unary_expr op e) ts = eval_expr e ts >>= λ v. eval_unary f v
    eval_expr (paren_expr e) ts = eval_expr e ts

    pub eval_args : Args → List Arg
    eval_args no_args = []
    eval_args (arg e as_) = record { expr = e; eval = eval_expr e } ∷ eval_args as_

    pub eval_param : Param → ℤ → Option (Outcome Value)
    eval_param no_param ts = none
    eval_param (param e) ts = some (eval_expr e ts)

-- `sort.Strings` of the keys, with their groups.
unfoldable pub insert_group : Group Point → List (Group Point) → List (Group Point)
insert_group g [] = g ∷ []
insert_group g (h ∷ hs) = if str_lt h.key g.key then h ∷ insert_group g hs else g ∷ h ∷ hs

unfoldable pub sort_groups : List (Group Point) → List (Group Point)
unfolding insert_group
sort_groups [] = []
sort_groups (g ∷ gs) = insert_group g (sort_groups gs)

abbrev pub set_times : ℤ → Vector → Vector
set_times ts [] = []
set_times ts (s ∷ ss) = record s { t = ts } ∷ set_times ts ss

abbrev pub at_instant : ℤ → Value → Value
at_instant ts (vector v) = vector (set_times ts v)
at_instant ts v = v

module _ (f : Runtime) (select : Select) (lookback : ℤ) where
  -- `InstantQuery` behind `Parse`.
  unfoldable pub instant_query : Expr → ℤ → Outcome Value
  unfolding eval_expr
  instant_query e ts =
      eval_expr f
        (record { select = select; lookback = lookback; query_start = ts; query_end = ts }) e ts
      >>= λ v. ok (at_instant ts v)

  abbrev pub range_steps : Expr → ℤ → ℤ → ℕ → ℤ → Outcome Matrix
  range_steps e start end step steps =
      loop_steps
        (eval_expr f
          (record { select = select; lookback = lookback; query_start = start; query_end = end }) e)
        start step steps
      >>= λ gs. ok (map series_of (sort_groups gs))

  abbrev pub checked_span : Expr → ℤ → ℤ → ℕ → Outcome Matrix
  checked_span e start end step =
      let span = sub_int64 end start in
      let steps = div_int64 span step in
      if ltb_ℤ span (pos 0)
      then failed range_too_large
      else if ltb_ℤ max_resolution (add_int64 steps (pos 1))
      then failed too_many_points
      else range_steps e start end step steps

  -- `RangeQuery` behind `Parse`; a query that does not parse fails there only where these checks pass.
  unfoldable pub range_query : Expr → ℤ → ℤ → ℤ → Outcome Matrix
  unfolding eval_expr loop_steps sort_groups
  range_query e start end (pos zero) = failed bad_step
  range_query e start end (negsuc n) = failed bad_step
  range_query e start end (pos (suc n)) =
      if ltb_ℤ end start then failed bad_range else checked_span e start end (suc n)
