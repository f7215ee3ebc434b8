-- ===== src/Tests/PromqlTests.antt =====
-- The query language (internal/promql) at concrete inputs.
use omni_metrics.Prelude.{arith, List, [], ◌∷◌, none, some, true, bytes, ◌≡◌, Str, ◌⊎◌, ◌%◌, ◌^◌}
use omni_metrics.Prelude.Int.{pos}
use omni_metrics.Prelude.Int64.{int64}
use omni_metrics.Promql.Token.{Token, IsStream}
use omni_metrics.Promql.Lex.{lex, lexed, lex_error, LexError}
use omni_metrics.Promql.Lex.Stream.{lex_total}
use omni_metrics.Promql.Ast.{Expr}
use omni_metrics.Promql.Parser.{ParseError}
use omni_metrics.Promql.Parse.{parse, tree, lexing_failed, parsing_failed}
use omni_metrics.Promql.Selector.{Calls}
use omni_metrics.Promql.Parse.Climbed.{Climbed}
use omni_metrics.Promql.Parse.Climbing.{parse_total}
use omni_metrics.Promql.Series.{Answered, series_matchers, series_matchers-Answered}
use omni_metrics.Promql.Duration.{parse_duration}
use omni_metrics.Promql.Duration.Sums.{Part, hours, minutes, text, sum_ms, parse_duration-text}

abbrev calls : Calls
calls = record { compile = λ p. none; parse_float = λ s. (2, true); millis = λ n. pos n }

abbrev a_query : Str
a_query = bytes "-2^2*sum by (job) (rate(x{a=\"b\"}[5m] offset 1m)) >= bool on(a) 3"

lex_total_example :
    ((ts : List Token) × (lex a_query ≡ lexed ts) × IsStream ts)
    ⊎ ((e : LexError) × (lex a_query ≡ lex_error e))
lex_total_example = lex_total a_query

parse_total_example :
    ((e : Expr) × (parse calls a_query ≡ tree e) × Climbed e)
    ⊎ (((w : LexError) × (parse calls a_query ≡ lexing_failed w))
        ⊎ ((w : ParseError) × (parse calls a_query ≡ parsing_failed w)))
parse_total_example = parse_total calls a_query

abbrev one_hour : Part
one_hour = record { numerals = 1 ∷ []; unit = hours }

abbrev half_hour : Part
half_hour = record { numerals = 3 ∷ 0 ∷ []; unit = minutes }

parse_duration-text_example :
    parse_duration (text (one_hour ∷ half_hour ∷ []))
    ≡ some (int64 (sum_ms (one_hour ∷ half_hour ∷ []) % 2 ^ 64))
parse_duration-text_example = parse_duration-text one_hour (half_hour ∷ []) (
  ((λ e. absurd (cc)), (omega arith, tt)),
  (((λ e. absurd (cc)), (omega arith, (omega arith, tt))), tt),
)

series_matchers-Answered_example : Answered (series_matchers calls (bytes "up{job=\"omni\"}"))
series_matchers-Answered_example = series_matchers-Answered calls (bytes "up{job=\"omni\"}")
