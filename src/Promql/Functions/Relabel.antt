-- ===== src/Promql/Functions/Relabel.antt =====
-- internal/promql/funcs_lib.go: functions that make or change labels.
use omni_metrics.Prelude.{
  ℕ, suc, List, [], ◌∷◌, ◌++◌, Bool, false, ◌||◌, ◌&&◌, not, Option, none, some, Str, str_eq, map,
  drop, if◌then◌else◌, bytes,
}
use omni_metrics.Prelude.Int.{ℤ}
use omni_metrics.Model.Labels.{Labels, normalize, get, metric_name}
use omni_metrics.Model.Matcher.{Matcher}
use omni_metrics.Tsdb.Head.Query.{is_match_equal}
use omni_metrics.Promql.Ast.{Expr, vector_selector, matrix_selector}
use omni_metrics.Promql.Value.{
  VectorSample, Vector, Matrix, Value, vector, Runtime, Outcome, ok, failed, ◌>>=◌, bad_regexp,
  one_float,
}
use omni_metrics.Promql.Signature.{set_or_delete_label}
use omni_metrics.Promql.Functions.Arguments.{
  Arg, as_literal, has_points, arg_vector, arg_matrix, arg_string,
}
use omni_metrics.Promql.Functions.Elementwise.{single_sample}

unfoldable pub equality_labels : List Matcher → Labels
equality_labels [] = []
equality_labels (m ∷ ms) =
    let rest = equality_labels ms in
    if is_match_equal m.kind && not (str_eq m.name metric_name)
    then record { name = m.name; value = m.value } ∷ rest
    else rest

-- A later matcher of a name replaces an earlier one, as in the map.
unfoldable pub absent_labels : Expr → Labels
unfolding equality_labels
absent_labels (vector_selector vs) = normalize (equality_labels vs.matchers)
absent_labels (matrix_selector vs range offset at) = normalize (equality_labels vs.matchers)
absent_labels _ = []

unfoldable pub join_strings : List Str → Str → Str
join_strings [] sep = []
join_strings (s ∷ []) sep = s
join_strings (s ∷ (u ∷ us)) sep = s ++ (sep ++ join_strings (u ∷ us) sep)

unfoldable pub any_points : Matrix → Bool
any_points [] = false
any_points (s ∷ ss) = has_points s || any_points ss

module _ (f : Runtime) (name : Str) (args : List Arg) (ts : ℤ) where
  -- The labels of `c.Args[0]`; there is one where its evaluation has succeeded.
  abbrev pub absent_sample : Vector
  absent_sample = elim args [
    | [] ↦ []
    | a ∷ as_ ↦ single_sample (absent_labels a.expr) ts (one_float f)
  ]

  unfoldable pub call_absent : Outcome Value
  unfolding arg_vector absent_labels
  call_absent =
      arg_vector name args ts 0 >>= λ v. ok (vector (elim v [ [] ↦ absent_sample | s ∷ ss ↦ [] ]))

  unfoldable pub call_absent_over_time : Outcome Value
  unfolding arg_matrix absent_labels any_points
  call_absent_over_time =
      arg_matrix name args ts 0 >>= λ m. ok (vector (if any_points m then [] else absent_sample))

  abbrev pub replaced : (Str → Str → Option Str) → Str → Str → Str → VectorSample → VectorSample
  replaced rx dst repl src s = elim (rx repl (get s.metric src)) [
    | none ↦ record { metric = s.metric; t = ts; v = s.v }
    | some res ↦ record { metric = set_or_delete_label s.metric dst res; t = ts; v = s.v }
  ]

  unfoldable pub call_label_replace : Outcome Value
  unfolding arg_vector arg_string set_or_delete_label get
  call_label_replace = arg_vector name args ts 0 >>= λ v. arg_string name args ts 1 >>= λ dst.
      arg_string name args ts 2 >>= λ repl. arg_string name args ts 3 >>= λ src.
      arg_string name args ts 4 >>= λ pattern.
      elim (f.expand (bytes "^(?:" ++ (pattern ++ bytes ")$"))) [
        | none ↦ failed (bad_regexp pattern)
        | some rx ↦ ok (vector (map (replaced rx dst repl src) v))
      ]

  -- The literals of the arguments from number `i` on.
  unfoldable pub literals : ℕ → List Arg → Outcome (List Str)
  literals i [] = ok []
  literals i (a ∷ as_) =
      let rest = literals (suc i) as_ in
      as_literal name i a.expr >>= λ s. rest >>= λ ss. ok (s ∷ ss)

  abbrev pub joined : Str → Str → List Str → VectorSample → VectorSample
  joined dst sep srcs s = record {
    metric = set_or_delete_label s.metric dst (join_strings (map (get s.metric) srcs) sep);
    t = ts;
    v = s.v;
  }

  unfoldable pub call_label_join : Outcome Value
  unfolding arg_vector arg_string literals set_or_delete_label join_strings get
  call_label_join = arg_vector name args ts 0 >>= λ v. arg_string name args ts 1 >>= λ dst.
      arg_string name args ts 2 >>= λ sep.
      literals 3 (drop 3 args) >>= λ srcs. ok (vector (map (joined dst sep srcs) v))
