-- ===== src/Promql/Ast.antt =====
-- internal/promql/ast.go: the query tree. A float is its 64 bits, a duration or instant an int64 in
-- milliseconds.
use omni_metrics.Prelude.{ℕ, List, [], ◌∷◌, Bool, false, ◌||◌, Option, String, Str, bytes, str_eq}
use omni_metrics.Prelude.Int.{ℤ}
use omni_metrics.Model.Matcher.{Matcher}
use omni_metrics.Promql.Token.{TokenType}

-- `atKind` with its instant; `atNone` is never made.
pub data AtModifier : Type 0 where
  at_time : ℤ → AtModifier
  at_start at_end : AtModifier

pub record VectorSelector : Type 0 where
  pub name : Str
  pub matchers : List Matcher
  pub offset : ℤ
  pub at : Option AtModifier

pub data MatchCardinality : Type 0 where
  card_one_to_one card_many_to_one card_one_to_many : MatchCardinality

pub record VectorMatching : Type 0 where
  pub on : Bool
  pub matching_labels : List Str
  pub card : MatchCardinality
  pub include_labels : List Str

-- `Param` is nil or an expression; `Grouping` is nil or a list that may be empty.
mutual
  pub data Expr : Type 0 where
    number_literal : ℕ → Expr
    string_literal : Str → Expr
    vector_selector : VectorSelector → Expr
    matrix_selector : VectorSelector → ℤ → ℤ → Option AtModifier → Expr
    subquery_expr : Expr → ℤ → ℤ → ℤ → Option AtModifier → Expr
    call : Str → Args → Expr
    aggregate_expr : Str → Expr → Param → Option (List Str) → Bool → Expr
    binary_expr : TokenType → Expr → Expr → Option VectorMatching → Bool → Expr
    unary_expr : TokenType → Expr → Expr
    paren_expr : Expr → Expr

  pub data Args : Type 0 where
    no_args : Args
    arg : Expr → Args → Args

  pub data Param : Type 0 where
    no_param : Param
    param : Expr → Param

-- A map from names to true.
unfoldable pub among : Str → List String → Bool
among s [] = false
among s (x ∷ xs) = str_eq (bytes x) s || among s xs

abbrev pub aggregators : List String
aggregators =
    "sum" ∷ "avg" ∷ "min" ∷ "max" ∷ "count" ∷ "topk" ∷ "bottomk" ∷ "quantile" ∷ "stddev" ∷ "stdvar"
    ∷ "group" ∷ "count_values" ∷ []

abbrev pub param_aggregators : List String
param_aggregators = "topk" ∷ "bottomk" ∷ "quantile" ∷ "count_values" ∷ []

abbrev pub functions : List String
functions =
    "rate" ∷ "irate" ∷ "increase" ∷ "delta" ∷ "idelta" ∷ "deriv" ∷ "predict_linear" ∷ "changes"
    ∷ "resets" ∷ "sum_over_time" ∷ "avg_over_time" ∷ "min_over_time" ∷ "max_over_time"
    ∷ "count_over_time" ∷ "stddev_over_time" ∷ "stdvar_over_time" ∷ "last_over_time"
    ∷ "present_over_time" ∷ "quantile_over_time" ∷ "abs" ∷ "ceil" ∷ "floor" ∷ "round" ∷ "exp" ∷ "ln"
    ∷ "log2" ∷ "log10" ∷ "sqrt" ∷ "sgn" ∷ "clamp" ∷ "clamp_max" ∷ "clamp_min" ∷ "scalar" ∷ "vector"
    ∷ "sort" ∷ "sort_desc" ∷ "absent" ∷ "absent_over_time" ∷ "label_replace" ∷ "label_join"
    ∷ "histogram_quantile" ∷ "time" ∷ "timestamp" ∷ "day_of_month" ∷ "day_of_week" ∷ "day_of_year"
    ∷ "days_in_month" ∷ "hour" ∷ "minute" ∷ "month" ∷ "year" ∷ []
