-- ===== src/Promql/Selector.antt =====
-- internal/promql/parse.go: selectors with their matchers, and the @ modifier.
use omni_metrics.Prelude.{
  ℕ, zero, suc, List, [], ◌∷◌, ◌++◌, Bool, Option, none, some, Str, bytes, str_eq, if◌then◌else◌,
}
use omni_metrics.Prelude.Int.{ℤ, pos}
use omni_metrics.Model.Labels.{metric_name}
use omni_metrics.Model.Matcher.{
  MatchType, Matcher, match_equal, match_not_equal, match_regexp, match_not_regexp, new_matcher,
}
use omni_metrics.Promql.Token.{
  TokenType, is_type, t_identifier, t_number, t_string, t_lbrace, t_rbrace, t_lparen, t_rparen,
  t_eql, t_neq, t_eql_regex, t_neq_regex, t_sub,
}
use omni_metrics.Promql.Ast.{Expr, AtModifier, vector_selector, at_time, at_start, at_end}
use omni_metrics.Prelude.Int64.{neg_int64}
use omni_metrics.Promql.Parser.{
  ParseError, bad_number, bad_operator, bad_matcher, bad_modifier, empty_selector, parsed, bad,
  panicked, out_of_fuel, Parser, ◌>>=◌, ◌>>◌, pure, fail, fueled, next_token, expect, separator,
}

-- What the parser calls of other packages: regexp.Compile, strconv.ParseFloat with its value beside
-- the error, and `int64(f * 1000)`.
pub record Calls : Type 0 where
  pub compile : Str → Option (Str → Bool)
  pub parse_float : Str → ℕ × Bool
  pub millis : ℕ → ℤ

unfoldable pub match_type : TokenType → Option MatchType
match_type t_eql = some match_equal
match_type t_neq = some match_not_equal
match_type t_eql_regex = some match_regexp
match_type t_neq_regex = some match_not_regexp
match_type _ = none

abbrev pub or_bad {ℓ} : {A : Type ℓ} → ParseError → Option A → Parser A
or_bad e none = fail e
or_bad e (some a) = pure a

abbrev pub new_selector : Str → List Matcher → Parser Expr
new_selector name [] = fail empty_selector
new_selector name (m ∷ ms) =
    pure (vector_selector (record { name = name; matchers = m ∷ ms; offset = pos 0; at = none }))

module _ (c : Calls) where
  -- One matcher: a name, an operator and a string.
  unfoldable pub parse_matcher : Parser Matcher
  parse_matcher = do
    name ← expect t_identifier
    op ← next_token
    kind ← or_bad (bad_operator op.val) (match_type op.typ)
    val ← expect t_string
    or_bad (bad_matcher val.val) (new_matcher c.compile kind name.val val.val)

  unfoldable pub matcher_loop : ℕ → List Matcher → Parser (List Matcher)
  matcher_loop zero acc ts = out_of_fuel
  matcher_loop (suc fuel) acc [] = panicked
  matcher_loop (suc fuel) acc (t ∷ ts) =
      let more : Parser (List Matcher) = do
        m ← parse_matcher
        separator t_rbrace
        matcher_loop fuel (acc ++ (m ∷ []))
      in if is_type t_rbrace t then parsed acc ts else more (t ∷ ts)

  unfoldable pub parse_matchers : Parser (List Matcher)
  parse_matchers = do expect t_lbrace; fueled (λ n. matcher_loop n [])

  -- The matcher of a metric's name, which `NewMatcher` does not refuse.
  abbrev pub name_matchers : Str → List Matcher
  name_matchers [] = []
  name_matchers (x ∷ xs) = elim (new_matcher c.compile match_equal metric_name (x ∷ xs)) [
    | none ↦ []
    | some m ↦ m ∷ []
  ]

  unfoldable pub parse_selector_from : Str → Parser Expr
  parse_selector_from name [] = panicked
  parse_selector_from name (t ∷ ts) =
      let braces : Parser Expr = do
        ms ← parse_matchers
        new_selector name (name_matchers name ++ ms)
      in if is_type t_lbrace t
        then braces (t ∷ ts)
        else new_selector name (name_matchers name) (t ∷ ts)

  unfoldable pub parse_at_modifier : Parser AtModifier
  parse_at_modifier [] = panicked
  parse_at_modifier (t ∷ ts) =
      let negative : Parser AtModifier = do
        n ← expect t_number
        pure (at_time (neg_int64 (c.millis (c.parse_float n.val).0)))
      in let bound : Parser AtModifier = do
        expect t_lparen
        expect t_rparen
        (if str_eq t.val (bytes "start")
            then pure at_start
            else if str_eq t.val (bytes "end")
            then pure at_end
            else fail (bad_modifier t.val))
        in if is_type t_number t
          then (if (c.parse_float t.val).1
              then parsed (at_time (c.millis (c.parse_float t.val).0)) ts
              else bad (bad_number t.val))
          else if is_type t_sub t
          then negative ts
          else if is_type t_identifier t
          then bound ts
          else bad (bad_modifier t.val)
