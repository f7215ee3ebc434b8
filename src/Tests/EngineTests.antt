-- ===== src/Tests/EngineTests.antt =====
-- The evaluation of queries (internal/promql) at concrete inputs. The floats are natural numbers.
use omni_metrics.Prelude.{
  All, suc, ◌+◌, ◌-◌, ◌*◌, ◌/◌, ◌%◌, ◌^◌, ◌≤◌, ◌<◌, [], ◌∷◌, none, false, bytes, ◌≡◌, refl, Str,
  str_eq, ◌⊎◌, ◌↔◌, ◌==◌, ltb, leb, In, arith,
}
use omni_metrics.Prelude.Int.{pos, negsuc, pos_part}
use omni_metrics.Prelude.Int64.{sub_int64, int64, bits}
use omni_metrics.Model.Labels.{Label, Labels, to_string}
use omni_metrics.Prelude.Table.{find, put, delete}
use omni_metrics.Model.Labels.{
  all_equal, equal, hash, hash_label, label_eq, write_byte, write_string, get,
}
use omni_metrics.Model.Matcher.{matches}
use omni_metrics.Tsdb.Head.{
  append_sample, get_or_create_limited, find_link, new_head, create_series, insert_series, add_ref,
  insert_out_of_order, mem_ref, post_label, search, append_to, last?,
}
use omni_metrics.Tsdb.Head.Query.{matches_all}
use omni_metrics.Tsdb.Head.Ranges.{any_between}
use omni_metrics.Tsdb.Head.{SeriesResult, MemSeries}
use omni_metrics.Tsdb.Head.Answers.{IsAnswer}
use omni_metrics.Tests.HeadTests.{one_sample, one_sample-IsHead, by_job, up}
use omni_metrics.Promql.Token.{t_land, t_lor, t_lunless}
use omni_metrics.Promql.Ast.{number_literal, VectorSelector}
use omni_metrics.Promql.Value.{
  VectorSample, Vector, Runtime, ok, failed, panicked, too_many_points, range_too_large, endless,
}
use omni_metrics.Promql.Signature.{match_signature, group_labels}
use omni_metrics.Promql.Binary.{vector_vector_op, vector_set_op}
use omni_metrics.Promql.Binary.Arithmetic.{
  minus, token_of, IsComputed, IsCompared, vector_vector_op-IsComputed,
}
use omni_metrics.Promql.Binary.Partners.{IsLastWith}
use omni_metrics.Promql.Binary.Matched.{Shares, vector_set_op-In}
use omni_metrics.Promql.Aggregate.{aggregate}
use omni_metrics.Promql.Aggregate.Groups.{picked}
use omni_metrics.Promql.Aggregate.Reduced.{name_of, agg_min, Reduces}
use omni_metrics.Promql.Aggregate.Kept.{Kept}
use omni_metrics.Promql.Aggregate.Values.{Answers, aggregate-Answers}
use omni_metrics.Promql.Engine.{range_query, eval_expr, select_instant, select_range, resolve_time}
use omni_metrics.Promql.Engine.Steps.{OnGrid, range_query-OnGrid, range_query_endless}
use omni_metrics.Promql.Engine.Points.{SeriesGood, Returns}
use omni_metrics.Promql.Engine.Selectors.{
  over_head, head_select, IsLast, select_instant-answers, select_range_panics,
}

abbrev naturals : Runtime
naturals = record {
  add = ◌+◌;
  sub = ◌-◌;
  mul = ◌*◌;
  div = ◌/◌;
  fmod = ◌%◌;
  pow = λ a b. a;
  fmin = λ a b. a;
  fmax = λ a b. b;
  eq = ◌==◌;
  lt = ltb;
  le = leb;
  neg = λ a. a;
  abs = λ a. a;
  ceil = λ a. a;
  floor = λ a. a;
  exp = λ a. a;
  ln = λ a. a;
  log2 = λ a. a;
  log10 = λ a. a;
  sqrt = λ a. a;
  is_nan = λ a. false;
  is_inf = λ a. false;
  nan = 0;
  inf = 1000;
  neg_inf = 0;
  half = 0;
  of_int = pos_part;
  to_int = pos;
  format = λ a. a ∷ [];
  parse_float = λ s. none;
  expand = λ p. none;
  sort_floats = λ xs. xs;
  sort_samples = λ less v. v;
  sort_buckets = λ less bs. bs;
  day = λ s. s;
  weekday = λ s. s;
  year_day = λ s. s;
  hour = λ s. s;
  minute = λ s. s;
  month = λ s. s;
  year = λ s. s;
  date_day = λ y m d. d;
}

abbrev job : Str → Labels
job j = record { name = bytes "job"; value = j } ∷ []

abbrev left_vector : Vector
left_vector =
    record { metric = job (bytes "a"); t = pos 1; v = 2 }
    ∷ record { metric = job (bytes "b"); t = pos 1; v = 3 }
    ∷ []

abbrev right_vector : Vector
right_vector = record { metric = job (bytes "b"); t = pos 1; v = 5 } ∷ []

abbrev sample_b : VectorSample
sample_b = record { metric = job (bytes "b"); t = pos 1; v = 3 }

vector_vector_op-IsComputed_example :
    ((s : VectorSample)
      → In s (vector_vector_op naturals (token_of minus) none false left_vector right_vector)
      → (l : VectorSample) × (r : VectorSample) × In l left_vector
        × IsLastWith none (match_signature none false l.metric) r right_vector
        × IsComputed naturals minus none l r s)
    × ((l r : VectorSample)
        → In l left_vector
        → IsLastWith none (match_signature none false l.metric) r right_vector
        → (s : VectorSample) × In s
            (vector_vector_op naturals (token_of minus) none false left_vector right_vector)
          × IsComputed naturals minus none l r s)
    × ((ls : Labels)
        → (ks : Labels) × (match_signature none false ls ≡ to_string ks)
          × ((x : Label) → In x ks ↔ IsCompared none ls x))
vector_vector_op-IsComputed_example =
    vector_vector_op-IsComputed naturals minus none false left_vector right_vector refl

vector_set_op-In_example :
    (In sample_b (vector_set_op t_land none left_vector right_vector)
      ↔ (In sample_b left_vector × Shares none sample_b right_vector))
    × (In sample_b (vector_set_op t_lunless none left_vector right_vector)
        ↔ (In sample_b left_vector × ¬ Shares none sample_b right_vector))
    × (In sample_b (vector_set_op t_lor none left_vector right_vector) ↔ (
        In sample_b left_vector ⊎ (In sample_b right_vector × ¬ Shares none sample_b left_vector)))
vector_set_op-In_example = vector_set_op-In none left_vector right_vector sample_b

aggregate-Answers_example :
    ((out : Vector) × (aggregate naturals (name_of agg_min) left_vector [] false (pos 1) 0 []
        ≡ ok out)
      × ((k : Str)
          → Answers naturals
              (Reduces naturals agg_min)
              k
              out
              (picked (λ s. group_labels [] false s.metric) (λ s. s.v) k left_vector)))
    × ((ls : Labels) (l : Label) → In l (group_labels [] false ls) ↔ Kept [] false ls l)
aggregate-Answers_example =
    aggregate-Answers naturals agg_min left_vector [] false (pos 1) 0 []
      ((λ x. ground arith), (λ x y z a b. ground arith))

range_query-OnGrid_example :
    (2 ^ 63 ≤ 100
      → range_query naturals
          (head_select one_sample)
          (pos 5)
          (number_literal 7)
          (pos 50)
          (pos 150)
          (pos 10)
        ≡ failed range_too_large)
    × (100 < 2 ^ 63
        → 11000 ≤ 100 / 10
        → suc (100 / 10) < 2 ^ 63
        → range_query naturals
            (head_select one_sample)
            (pos 5)
            (number_literal 7)
            (pos 50)
            (pos 150)
            (pos 10)
          ≡ failed too_many_points)
    × (100 < 2 ^ 63
        → 100 / 10 < 11000
        → Returns (All (SeriesGood (OnGrid (pos 50) 10 100))) (
            range_query naturals
              (head_select one_sample)
              (pos 5)
              (number_literal 7)
              (pos 50)
              (pos 150)
              (pos 10)))
range_query-OnGrid_example =
    range_query-OnGrid naturals (head_select one_sample) (pos 5) (number_literal 7) (pos 50)
      (pos 150) 9 100 (omega arith, omega arith) (omega arith, omega arith) refl

range_query_endless_example :
    range_query naturals
      (head_select one_sample)
      (pos 5)
      (number_literal 7)
      (pos 0)
      (pos (2 ^ 63 - 1))
      (pos 1)
    ≡ endless
range_query_endless_example =
    range_query_endless naturals (head_select one_sample) (pos 5) (number_literal 7) (pos 0)
      (pos (2 ^ 63 - 1)) (omega arith, omega arith) (omega arith, omega arith) refl
      (λ t. unfold eval_expr in tt)

abbrev jobs : VectorSelector
jobs = record { name = []; matchers = by_job; offset = pos 0; at = none }

select_instant-answers_example :
    (out : Vector) × (select_instant naturals
        (over_head naturals one_sample (pos 300) (pos 12) (pos 12))
        jobs
        (pos 12)
      ≡ ok out)
    × ((s : VectorSample)
        → In s out
          ↔ ((r : SeriesResult) × IsAnswer (negsuc 287) (pos 12) by_job one_sample r × IsLast s r))
unfolding resolve_time sub_int64 int64 bits
select_instant-answers_example =
    select_instant-answers naturals one_sample (pos 300) (pos 12) (pos 12) jobs (pos 12)
      one_sample-IsHead (omega arith)

abbrev the_series : MemSeries
the_series = record { ref = 1; labels = up; samples = record { t = pos 10; v = 7 } ∷ [] }

-- The range is the one second that `9223372036854775807s` wraps to, backwards.
select_range_panics_example :
    select_range naturals
      (over_head naturals one_sample (pos 300) (pos 5) (pos 5))
      jobs
      (negsuc 999)
      (pos 0)
      none
      (pos 5)
    ≡ panicked
unfolding find put delete append_sample get_or_create_limited find_link new_head create_series
    insert_series matches_all matches str_eq get any_between sub_int64 int64 bits resolve_time
    all_equal equal hash hash_label label_eq write_byte write_string add_ref insert_out_of_order
    mem_ref post_label search append_to last?
select_range_panics_example =
    select_range_panics naturals one_sample (pos 300) (pos 5) (pos 5) jobs (negsuc 999) (pos 0) none
      (pos 5) 1 the_series one_sample-IsHead refl refl refl
