-- ===== src/Promql/Histogram.antt =====
-- internal/promql: quantiles of histograms (funcs_helpers.go, bucketQuantile and parseLe; funcs_lib.go,
-- callHistogramQuantile).
use omni_metrics.Prelude.{
  ℕ, zero, suc, ◌-◌, List, [], ◌∷◌, ◌&&◌, not, Option, none, some, Str, length, take, ◌==◌,
  if◌then◌else◌, bytes,
}
use omni_metrics.Prelude.Int.{ℤ}
use omni_metrics.Model.Labels.{Labels, get, metric_name}
use omni_metrics.Promql.Ast.{among}
use omni_metrics.Promql.Value.{VectorSample, Vector, Runtime, zero_float, one_float, Bucket}
use omni_metrics.Promql.Signature.{Group, group_by, drop_labels}

-- A sample's bucket under the labels of its group.
pub record LabelledBucket : Type 0 where
  pub labels : Labels
  pub bucket : Bucket

module _ (f : Runtime) where
  unfoldable pub parse_le : Str → Option ℕ
  unfolding among
  parse_le s =
      if among s ("+Inf" ∷ "Inf" ∷ "inf" ∷ "+inf" ∷ [])
      then some f.inf
      else if among s ("-Inf" ∷ "-inf" ∷ [])
      then some f.neg_inf
      else f.parse_float s

  -- A count below the one before it is raised to that one.
  unfoldable pub repair_from : Bucket → List Bucket → List Bucket
  repair_from prev [] = []
  repair_from prev (b ∷ bs) =
      let c = if f.lt b.count prev.count then prev.count else b.count in
      let b' : Bucket = record { upper_bound = b.upper_bound; count = c } in b' ∷ repair_from b' bs

  abbrev pub last_bucket : Bucket → List Bucket → Bucket
  last_bucket b [] = b
  last_bucket b (c ∷ cs) = last_bucket c cs

  -- The bucket with a number, and the one before it; `none` is out of range.
  abbrev pub nth_bucket : List Bucket → ℕ → Option Bucket
  nth_bucket [] i = none
  nth_bucket (b ∷ bs) zero = some b
  nth_bucket (b ∷ bs) (suc i) = nth_bucket bs i

  abbrev pub bound_or_zero : Option Bucket → ℕ
  bound_or_zero none = zero_float
  bound_or_zero (some b) = b.upper_bound

  abbrev pub count_or_zero : Option Bucket → ℕ
  count_or_zero none = zero_float
  count_or_zero (some b) = b.count

  -- The bucket before number `i`, if there is one.
  abbrev pub before : List Bucket → ℕ → Option Bucket
  before bs zero = none
  before bs (suc i) = nth_bucket bs i

  -- Linear interpolation within bucket `b`, from the end of the one before.
  unfoldable pub interpolate : ℕ → Option Bucket → Option Bucket → ℕ
  interpolate rank prev this =
      let start = bound_or_zero prev in
      let low = count_or_zero prev in
      let width = f.sub (bound_or_zero this) start in
      let share = f.sub (count_or_zero this) low in
      if f.eq (count_or_zero this) low
      then start
      else f.add start (f.div (f.mul width (f.sub rank low)) share)

  -- `sort.Search` for the first bucket whose count reaches the rank; the counts ascend.
  unfoldable pub first_reaching : ℕ → List Bucket → ℕ
  first_reaching rank [] = 0
  first_reaching rank (b ∷ bs) =
      let rest = first_reaching rank bs in if f.le rank b.count then 0 else suc rest

  unfoldable pub quantile_at : ℕ → List Bucket → ℕ
  unfolding interpolate first_reaching
  quantile_at rank bs =
      let n = length bs in
      let b = first_reaching rank (take (n - 1) bs) in
      if b == n - 1
      then bound_or_zero (nth_bucket bs (n - 2))
      else if b == 0 && f.le (bound_or_zero (nth_bucket bs 0)) zero_float
      then bound_or_zero (nth_bucket bs 0)
      else interpolate rank (before bs b) (nth_bucket bs b)

  -- The part behind the sort.
  unfoldable pub sorted_quantile : ℕ → List Bucket → ℕ
  unfolding repair_from quantile_at
  sorted_quantile q [] = f.nan
  sorted_quantile q (b ∷ []) = f.nan
  sorted_quantile q (b ∷ (c ∷ cs)) =
      let bs = b ∷ repair_from b (c ∷ cs) in
      let total = (last_bucket b bs).count in
      if not (f.is_inf (last_bucket c cs).upper_bound)
      then f.nan
      else if f.eq total zero_float
      then f.nan
      else quantile_at (f.mul q total) bs

  unfoldable pub bucket_quantile : ℕ → List Bucket → ℕ
  unfolding sorted_quantile
  bucket_quantile q buckets =
      if f.is_nan q
      then f.nan
      else if f.lt q zero_float
      then f.neg_inf
      else if f.lt (one_float f) q
      then f.inf
      else sorted_quantile q (f.sort_buckets (λ a b. f.lt a.upper_bound b.upper_bound) buckets)

  -- A sample with a readable `le` label, as its group's labels and its bucket.
  abbrev pub bucket_of : VectorSample → Option LabelledBucket
  bucket_of s = elim (get s.metric (bytes "le")) [
    | [] ↦ none
    | c ∷ le ↦ elim (parse_le (c ∷ le)) [
      | none ↦ none
      | some upper ↦ some (record {
        labels = drop_labels (metric_name ∷ bytes "le" ∷ []) s.metric;
        bucket = record { upper_bound = upper; count = s.v };
      })
    ]
  ]

  unfoldable pub buckets_of : Vector → List LabelledBucket
  unfolding parse_le drop_labels get
  buckets_of [] = []
  buckets_of (s ∷ ss) =
      let rest = buckets_of ss in elim (bucket_of s) [ none ↦ rest | some b ↦ b ∷ rest ]

  unfoldable pub quantiles : ℕ → ℤ → List (Group Bucket) → Vector
  unfolding bucket_quantile
  quantiles q ts [] = []
  quantiles q ts (g ∷ gs) =
      record { metric = g.labels; t = ts; v = bucket_quantile q g.members } ∷ quantiles q ts gs

  unfoldable pub histogram_quantile : ℕ → ℤ → Vector → Vector
  unfolding buckets_of group_by quantiles
  histogram_quantile q ts v =
      quantiles q ts (group_by (λ p. p.labels) (λ p. p.bucket) [] (buckets_of v))
