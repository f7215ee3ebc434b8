-- ===== src/Promql/Series.antt =====
-- internal/promql/parse.go: `ParseMatchers`, for the match[] parameters.
use omni_metrics.Prelude.{List, [], ◌≡◌, ◌≢◌, refl, ◌⊎◌, inl, inr, Str}
use omni_metrics.Model.Matcher.{Matcher}
use omni_metrics.Promql.Lex.{LexError}
use omni_metrics.Promql.Ast.{
  Expr, number_literal, string_literal, vector_selector, matrix_selector, subquery_expr, call,
  aggregate_expr, binary_expr, unary_expr, paren_expr,
}
use omni_metrics.Promql.Parser.{ParseError}
use omni_metrics.Promql.Parse.{
  Parsing, tree, lexing_failed, parsing_failed, crashed, exhausted, parse,
}
use omni_metrics.Promql.Selector.{Calls}
use omni_metrics.Promql.Parse.Climbed.{Climbed}
use omni_metrics.Promql.Parse.Climbing.{parse_total}

pub data SeriesError : Type 0 where
  lexical : LexError → SeriesError
  syntactic : ParseError → SeriesError
  not_series_selector : SeriesError

pub data SeriesMatchers : Type 0 where
  matchers_of : List Matcher → SeriesMatchers
  matchers_error : SeriesError → SeriesMatchers
  matchers_panic : SeriesMatchers

abbrev pub selector_matchers : Expr → SeriesMatchers
selector_matchers (vector_selector vs) = matchers_of vs.matchers
selector_matchers (matrix_selector vs range offset at) = matchers_of vs.matchers
selector_matchers _ = matchers_error not_series_selector

abbrev pub parsed_matchers : Parsing → SeriesMatchers
parsed_matchers (tree e) = selector_matchers e
parsed_matchers (lexing_failed w) = matchers_error (lexical w)
parsed_matchers (parsing_failed w) = matchers_error (syntactic w)
parsed_matchers crashed = matchers_panic
parsed_matchers exhausted = matchers_panic

unfoldable pub series_matchers : Calls → Str → SeriesMatchers
unfolding parse
series_matchers c s = parsed_matchers (parse c s)

-- The matchers are there, or there is an error.
abbrev pub Answered : SeriesMatchers → Type 0
Answered r =
    ((ms : List Matcher) × (r ≡ matchers_of ms) × (ms ≢ []))
    ⊎ ((w : SeriesError) × (r ≡ matchers_error w))

selector_matchers-Answered : (e : Expr) → Climbed e → Answered (selector_matchers e)
unfolding Climbed
selector_matchers-Answered (number_literal x) k = inr (not_series_selector, refl)
selector_matchers-Answered (string_literal s) k = inr (not_series_selector, refl)
selector_matchers-Answered (vector_selector vs) k = inl (vs.matchers, refl, k)
selector_matchers-Answered (matrix_selector vs range offset at) k = inl (vs.matchers, refl, k)
selector_matchers-Answered (subquery_expr e range step offset at) k =
    inr (not_series_selector, refl)
selector_matchers-Answered (call name args) k = inr (not_series_selector, refl)
selector_matchers-Answered (aggregate_expr op e p grouping without) k =
    inr (not_series_selector, refl)
selector_matchers-Answered (binary_expr op l r m return_bool) k = inr (not_series_selector, refl)
selector_matchers-Answered (unary_expr op e) k = inr (not_series_selector, refl)
selector_matchers-Answered (paren_expr e) k = inr (not_series_selector, refl)

-- For every text, `ParseMatchers` gives at least one matcher or an error, and does not panic.
pub series_matchers-Answered : (c : Calls) (s : Str) → Answered (series_matchers c s)
unfolding series_matchers
series_matchers-Answered c s = elim (parse_total c s) [
  | inl (e, h, k) ↦ rw (h, series_matchers) (selector_matchers-Answered e k)
  | inr (inl (w, h)) ↦ rw (h, series_matchers) (inr (lexical w, refl))
  | inr (inr (w, h)) ↦ rw (h, series_matchers) (inr (syntactic w, refl))
]
