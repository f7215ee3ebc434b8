-- ===== src/Promql/Aggregate.antt =====
-- internal/promql: aggregation of an instant vector (funcs.go) and quantiles (funcs_helpers.go).
pub mod Groups
pub mod Kept
pub mod Reduced
pub mod Values
use omni_metrics.Prelude.{
  ℕ, zero, suc, ◌-◌, List, [], ◌∷◌, ◌++◌, Bool, true, false, ◌||◌, ◌&&◌, not, Option, none, some,
  String, Str, str_eq, length, take, map, ltb, if◌then◌else◌, bytes,
}
use omni_metrics.Prelude.Int.{ℤ, pos, negsuc}
use omni_metrics.Model.Labels.{Labels, to_string}
use omni_metrics.Promql.Value.{
  VectorSample, Vector, Runtime, Outcome, ok, failed, panicked, ◌>>=◌, unknown_aggregation,
  zero_float, one_float,
}
use omni_metrics.Promql.Signature.{Group, group_by, group_labels, set_label, add_member}
use omni_metrics.Promql.Ranges.{is_name, sum_from, best_from, count_of, variance}

-- `vals[i]`; `none` is the panic.
unfoldable pub at_index : List ℕ → ℤ → Option ℕ
at_index [] i = none
at_index (x ∷ xs) (negsuc i) = none
at_index (x ∷ xs) (pos zero) = some x
at_index (x ∷ xs) (pos (suc i)) = at_index xs (pos i)

module _ (f : Runtime) where
  abbrev pub interpolated : ℕ → Option ℕ → Option ℕ → Outcome ℕ
  interpolated weight (some a) (some b) =
      ok (f.add (f.mul a (f.sub (one_float f) weight)) (f.mul b weight))
  interpolated weight _ _ = panicked

  unfoldable pub quantile : ℕ → List ℕ → Outcome ℕ
  unfolding at_index
  quantile q [] = ok f.nan
  quantile q (x ∷ xs) =
      let s = f.sort_floats (x ∷ xs) in
      let rank = f.mul q (f.sub (count_of f s) (one_float f)) in
      let lower = f.to_int (f.floor rank) in
      let upper = f.to_int (f.ceil rank) in
      let weight = f.sub rank (f.of_int lower) in
      if f.lt q zero_float
      then ok f.neg_inf
      else if f.lt (one_float f) q
      then ok f.inf
      else interpolated weight (at_index s lower) (at_index s upper)

  -- `values[0]` with the loop; no values is a panic.
  abbrev pub best : (ℕ → ℕ → Bool) → List ℕ → Outcome ℕ
  best better [] = panicked
  best better (x ∷ xs) = ok (best_from f better x (x ∷ xs))

  -- The value of one group.
  unfoldable pub reduce : Str → ℕ → List ℕ → Outcome ℕ
  unfolding sum_from best_from variance quantile
  reduce op param vals =
      if is_name f "sum" op
      then ok (sum_from f zero_float vals)
      else if is_name f "avg" op
      then ok (f.div (sum_from f zero_float vals) (count_of f vals))
      else if is_name f "min" op
      then best f.lt vals
      else if is_name f "max" op
      then best (λ x m. f.lt m x) vals
      else if is_name f "count" op
      then ok (count_of f vals)
      else if is_name f "group" op
      then ok (one_float f)
      else if is_name f "stddev" op
      then ok (f.sqrt (variance f vals))
      else if is_name f "stdvar" op
      then ok (variance f vals)
      else if is_name f "quantile" op
      then quantile param vals
      else failed (unknown_aggregation op)

  unfoldable pub reduce_groups : Str → ℕ → ℤ → List (Group ℕ) → Outcome Vector
  unfolding reduce
  reduce_groups op param ts [] = ok []
  reduce_groups op param ts (g ∷ gs) =
      let rest = reduce_groups op param ts gs in
      reduce op param g.members >>= λ v.
      rest >>= λ out. ok (record { metric = g.labels; t = ts; v = v } ∷ out)

  -- The samples of a vector under the labels of their groups.
  abbrev pub grouped {ℓ} :
      {B : Type ℓ} → List Str → Bool → (VectorSample → B) → Vector → List (Group B)
  grouped set without value v = group_by (λ s. group_labels set without s.metric) value [] v

  -- The first `k` of the sorted members; a negative count takes none.
  abbrev pub take_int : ℤ → Vector → Vector
  take_int (pos n) v = take n v
  take_int (negsuc n) v = []

  unfoldable pub top_of_groups :
      (VectorSample → VectorSample → Bool) → ℤ → ℤ → List (Group VectorSample) → Vector
  top_of_groups less k ts [] = []
  top_of_groups less k ts (g ∷ gs) =
      map (λ s. record { metric = s.metric; t = ts; v = s.v })
        (take_int k (f.sort_samples less g.members))
      ++ top_of_groups less k ts gs

  unfoldable pub aggregate_topk : Str → Vector → List Str → Bool → ℤ → ℤ → Vector
  unfolding group_by group_labels top_of_groups
  aggregate_topk op v grouping without ts k =
      top_of_groups (if is_name f "topk" op then (λ a b. f.lt b.v a.v) else (λ a b. f.lt a.v b.v)) k
        ts (grouped grouping without (λ s. s) v)

  abbrev pub value_label : List Str → Bool → Str → VectorSample → Labels
  value_label grouping without label s =
      set_label (group_labels grouping without s.metric) label (f.format s.v)

  abbrev pub counted : ℤ → Group VectorSample → VectorSample
  counted ts g = record { metric = g.labels; t = ts; v = f.of_int (pos (length g.members)) }

  -- The count of a group is the number of samples that came under its key.
  unfoldable pub aggregate_count_values : Vector → List Str → Bool → ℤ → Str → Vector
  unfolding group_by group_labels set_label
  aggregate_count_values v grouping without ts label =
      map (counted ts) (group_by (value_label grouping without label) (λ s. s) [] v)

  unfoldable pub aggregate : Str → Vector → List Str → Bool → ℤ → ℕ → Str → Outcome Vector
  unfolding aggregate_count_values aggregate_topk group_by group_labels reduce_groups
  aggregate op v grouping without ts param param_str =
      if is_name f "count_values" op
      then ok (aggregate_count_values v grouping without ts param_str)
      else if is_name f "topk" op || is_name f "bottomk" op
      then ok (aggregate_topk op v grouping without ts (f.to_int param))
      else reduce_groups op param ts (grouped grouping without (λ s. s.v) v)
