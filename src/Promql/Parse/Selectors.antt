-- ===== src/Promql/Parse/Selectors.antt =====
-- Selectors with their matchers, ranges and modifiers (internal/promql/parse.go, parseSelectorFrom,
-- parsePostfix).
use omni_metrics.Prelude.{
  ℕ, zero, suc, ◌≤◌, ◌<◌, List, [], ◌∷◌, ◌++◌, true, false, Option, none, some, ◌≡◌, ◌≢◌, refl,
  arith, Bool-cases, Option-cases, inl, inr, length, Str, str_eq, bytes, if◌then◌else◌,
}
use omni_metrics.Prelude.Int.{ℤ}
use omni_metrics.Model.Matcher.{Matcher, MatchType, new_matcher}
use omni_metrics.Promql.Token.{
  TokenType, Token, IsStream, is_type, t_eof, t_identifier, t_number, t_string, t_duration,
  t_lbrace, t_rbrace, t_lbracket, t_rbracket, t_lparen, t_rparen, t_colon, t_at, t_add, t_sub,
  t_eql, t_neq, t_eql_regex, t_neq_regex,
}
use omni_metrics.Promql.Ast.{
  Expr, AtModifier, vector_selector, matrix_selector, subquery_expr, at_start, at_end,
}
use omni_metrics.Promql.Duration.{parse_duration}
use omni_metrics.Promql.Parser.{
  ParseError, bind, pure, fail, next_token, peek, expect, is_word, bad_operator, bad_duration,
  bad_matcher, bad_modifier,
}
use omni_metrics.Promql.Postfix.{
  set_offset, set_at, parse_duration_token, parse_sign, parse_offset, parse_step, new_matrix,
  parse_range, finish_subquery, finish_matrix, modifiers, parse_postfix,
}
use omni_metrics.Promql.Selector.{
  Calls, match_type, or_bad, parse_matcher, matcher_loop, parse_matchers, name_matchers,
  new_selector, parse_selector_from, parse_at_modifier,
}
use omni_metrics.Promql.Parse.Climbed.{Climbed, IsClosed}
use omni_metrics.Promql.Parse.Total.{
  Good, good, refused, Any, Good-bind, Good-if, Good-weaken, expect-Good,
}
use omni_metrics.Promql.Parse.Lists.{pass, pass_word, separator-Good}

or_bad-Good :
    {A : Type 0} (e : ParseError) (o : Option A) (ts : List Token)
    → IsStream ts
    → Good (λ a r. (o ≡ some a) × (r ≡ ts)) (suc (length ts)) (or_bad e o ts)
or_bad-Good e none ts s = refused e
or_bad-Good e (some a) ts s = good a ts s (omega arith) (refl, refl)

-- A token that is a matcher's operator is not the end.
match_type-ne-eof : (typ : TokenType) (k : MatchType) → match_type typ ≡ some k → typ ≢ t_eof
unfolding match_type
match_type-ne-eof typ k e f = cc

module _ (c : Calls) where
  parse_matcher-Good : (ts : List Token) → IsStream ts → Good Any (length ts) (parse_matcher c ts)
  unfolding parse_matcher next_token
  parse_matcher-Good ts s =
      Good-bind (expect-Good t_identifier ts (λ k. cc) s)
        λ name r₁ s₁ h₁ _. after name r₁ s₁ (omega arith)
    where
      after :
          (name : Token) (r : List Token)
          → IsStream r
          → length r < length ts
          → Good Any (length ts) (
              bind (next_token r) λ op. λ q.
                bind (or_bad (bad_operator op.val) (match_type op.typ) q) λ kind. λ q'.
                  bind (expect t_string q') λ val.
                    or_bad (bad_matcher val.val) (new_matcher c.compile kind name.val val.val))
      after name [] s' h = absurd s'
      after name (op ∷ r) s' h = elim (Option-cases (match_type op.typ)) [
        | inl e ↦ rw e (refused _)
        | inr (kind, e) ↦ rw e (
            Good-bind
              (expect-Good t_string r (λ k. cc)
                (omni_metrics.Promql.Token.IsStream-tail op r s' (match_type-ne-eof op.typ kind e)))
              λ val r' s'' h' _.
                Good-weaken (omega arith) (λ a q _. tt)
                  (or_bad-Good _ (new_matcher c.compile kind name.val val.val) r' s''))
      ]

  matcher_loop-Good :
      (fuel : ℕ) (acc : List Matcher) (ts : List Token)
      → IsStream ts
      → length ts ≤ fuel
      → Good Any (length ts) (matcher_loop c fuel acc ts)
  unfolding matcher_loop
  matcher_loop-Good fuel acc [] s h = absurd s
  matcher_loop-Good zero acc (t ∷ ts) s h = absurd (omega arith)
  matcher_loop-Good (suc fuel) acc (t ∷ ts) s h =
      Good-if (is_type t_rbrace t)
        (λ e. good acc ts (pass t_rbrace t ts (λ k. cc) s e) (omega arith) tt)
        (λ e. Good-bind (parse_matcher-Good (t ∷ ts) s) λ m r₁ s₁ h₁ _.
          Good-bind (separator-Good t_rbrace r₁ s₁) λ _ r₂ s₂ h₂ _.
            Good-weaken (omega arith) (λ a r q. q)
              (matcher_loop-Good fuel (acc ++ (m ∷ [])) r₂ s₂ (omega arith)))

  parse_matchers-Good : (ts : List Token) → IsStream ts → Good Any (length ts) (parse_matchers c ts)
  unfolding parse_matchers
  parse_matchers-Good ts s = Good-bind (expect-Good t_lbrace ts (λ k. cc) s) λ _ r₁ s₁ h₁ _.
      Good-weaken (omega arith) (λ a r q. q) (matcher_loop-Good (length r₁) [] r₁ s₁ (omega arith))

  new_selector-Good :
      (name : Str) (ms : List Matcher) (ts : List Token)
      → IsStream ts
      → Good (λ e r. IsClosed e) (suc (length ts)) (new_selector name ms ts)
  unfolding Climbed
  new_selector-Good name [] ts s = refused _
  new_selector-Good name (m ∷ ms) ts s = good _ ts s (omega arith) ((λ e. cc), refl)

  braces-Good :
      (name : Str) (ts : List Token)
      → IsStream ts
      → Good
          (λ e r. IsClosed e)
          (length ts)
          (bind (parse_matchers c ts) (λ ms. new_selector name (name_matchers c name ++ ms)))
  braces-Good name ts s = Good-bind (parse_matchers-Good ts s) λ ms r s' h _.
      Good-weaken (omega arith) (λ a q x. x)
        (new_selector-Good name (name_matchers c name ++ ms) r s')

  pub parse_selector_from-Good :
      (name : Str) (ts : List Token)
      → IsStream ts
      → Good (λ e r. IsClosed e) (suc (length ts)) (parse_selector_from c name ts)
  unfolding parse_selector_from
  parse_selector_from-Good name [] s = absurd s
  parse_selector_from-Good name (t ∷ ts) s =
      Good-if (is_type t_lbrace t)
        (λ e. Good-weaken (omega arith) (λ a r q. q) (braces-Good name (t ∷ ts) s))
        (λ e. new_selector-Good name (name_matchers c name) (t ∷ ts) s)

  -- From a brace on, a selector takes tokens.
  pub parse_selector_from-brace :
      (name : Str) (t : Token) (ts : List Token)
      → IsStream (t ∷ ts)
      → is_type t_lbrace t ≡ true
      → Good (λ e r. IsClosed e) (length (t ∷ ts)) (parse_selector_from c name (t ∷ ts))
  unfolding parse_selector_from
  parse_selector_from-brace name t ts s e = rw e (braces-Good name (t ∷ ts) s)

  parse_at_modifier-Good :
      (ts : List Token) → IsStream ts → Good Any (length ts) (parse_at_modifier c ts)
  unfolding parse_at_modifier
  parse_at_modifier-Good [] s = absurd s
  parse_at_modifier-Good (t ∷ ts) s =
      Good-if (is_type t_number t)
        (λ e.
          Good-if (c.parse_float t.val).1
            (λ f. good _ ts (pass t_number t ts (λ k. cc) s e) (omega arith) tt) (λ f. refused _))
        (λ _.
          Good-if (is_type t_sub t)
            (λ e.
              Good-bind (expect-Good t_number ts (λ k. cc) (pass t_sub t ts (λ k. cc) s e))
                λ n r s' h _. good _ r s' (omega arith) tt)
            (λ _.
              Good-if (is_type t_identifier t)
                (λ e.
                  Good-bind
                    (expect-Good t_lparen ts (λ k. cc) (pass t_identifier t ts (λ k. cc) s e))
                    λ _ r s' h _.
                      Good-bind (expect-Good t_rparen r (λ k. cc) s')
                        λ _ r' s'' h' _. bound r' s'' (omega arith))
                (λ _. refused _)))
    where
      bound :
          (r : List Token)
          → IsStream r
          → length r < length (t ∷ ts)
          → Good Any (length (t ∷ ts)) (
              (if str_eq t.val (bytes "start")
                  then pure at_start
                  else if str_eq t.val (bytes "end")
                  then pure at_end
                  else fail (bad_modifier t.val))
                r)
      bound r s' h = elim (Bool-cases (str_eq t.val (bytes "start"))) [
        | inl e ↦ rw e (good _ r s' h tt)
        | inr e ↦ rw e (elim (Bool-cases (str_eq t.val (bytes "end"))) [
          | inl f ↦ rw f (good _ r s' h tt)
          | inr f ↦ rw f (refused _)
        ])
      ]

set_offset-Good :
    (off : ℤ) (e : Expr) (ts : List Token)
    → IsStream ts
    → IsClosed e
    → Good (λ e' r. IsClosed e') (suc (length ts)) (set_offset off e ts)
unfolding set_offset Climbed
set_offset-Good off (vector_selector vs) ts s k = good _ ts s (omega arith) k
set_offset-Good off (matrix_selector vs range offset at) ts s k = good _ ts s (omega arith) k
set_offset-Good off (subquery_expr e range step offset at) ts s k = good _ ts s (omega arith) k
set_offset-Good off _ ts s k = refused _

set_at-Good :
    (a : AtModifier) (e : Expr) (ts : List Token)
    → IsStream ts
    → IsClosed e
    → Good (λ e' r. IsClosed e') (suc (length ts)) (set_at a e ts)
unfolding set_at Climbed
set_at-Good a (vector_selector vs) ts s k = good _ ts s (omega arith) k
set_at-Good a (matrix_selector vs range offset at) ts s k = good _ ts s (omega arith) k
set_at-Good a (subquery_expr e range step offset at) ts s k = good _ ts s (omega arith) k
set_at-Good a _ ts s k = refused _

parse_duration_token-Good :
    (ts : List Token) → IsStream ts → Good Any (length ts) (parse_duration_token ts)
unfolding parse_duration_token
parse_duration_token-Good ts s = Good-bind (expect-Good t_duration ts (λ k. cc) s) λ d r s' h _.
    Good-weaken (omega arith) (λ a q _. tt)
      (or_bad-Good (bad_duration d.val) (parse_duration d.val) r s')

parse_sign-Good : (ts : List Token) → IsStream ts → Good Any (suc (length ts)) (parse_sign ts)
unfolding parse_sign
parse_sign-Good [] s = absurd s
parse_sign-Good (t ∷ ts) s =
    Good-if (is_type t_sub t) (λ e. good true ts (pass t_sub t ts (λ k. cc) s e) (omega arith) tt)
      (λ _.
        Good-if (is_type t_add t)
          (λ e. good false ts (pass t_add t ts (λ k. cc) s e) (omega arith) tt)
          (λ _. good false (t ∷ ts) s (omega arith) tt))

parse_offset-Good : (ts : List Token) → IsStream ts → Good Any (length ts) (parse_offset ts)
unfolding parse_offset
parse_offset-Good ts s = Good-bind (parse_sign-Good ts s) λ neg r₁ s₁ h₁ _.
    Good-bind (parse_duration_token-Good r₁ s₁) λ off r₂ s₂ h₂ _. good _ r₂ s₂ (omega arith) tt

parse_step-Good : (ts : List Token) → IsStream ts → Good Any (suc (length ts)) (parse_step ts)
unfolding parse_step
parse_step-Good [] s = absurd s
parse_step-Good (t ∷ ts) s =
    Good-if (is_type t_duration t)
      (λ e. Good-weaken (omega arith) (λ a r q. q) (parse_duration_token-Good (t ∷ ts) s))
      (λ e. good _ (t ∷ ts) s (omega arith) tt)

new_matrix-Good :
    (text : Str) (range : ℤ) (e : Expr) (ts : List Token)
    → IsStream ts
    → IsClosed e
    → Good (λ e' r. IsClosed e') (suc (length ts)) (new_matrix text range e ts)
unfolding new_matrix Climbed
new_matrix-Good text range (vector_selector vs) ts s k = good _ ts s (omega arith) k
new_matrix-Good text range _ ts s k = refused _

finish_subquery-Good :
    (e : Expr) (range : ℤ) (t : Token) (ts : List Token)
    → IsStream ts
    → IsClosed e
    → Good (λ e' r. IsClosed e') (length (t ∷ ts)) (finish_subquery e range (t ∷ ts))
unfolding finish_subquery next_token Climbed
finish_subquery-Good e range t ts s k = Good-bind (parse_step-Good ts s) λ step r₁ s₁ h₁ _.
    Good-bind (expect-Good t_rbracket r₁ (λ x. cc) s₁)
      λ _ r₂ s₂ h₂ _. good _ r₂ s₂ (omega arith) (k.0, refl)

finish_matrix-Good :
    (text : Str) (e : Expr) (range : ℤ) (ts : List Token)
    → IsStream ts
    → IsClosed e
    → Good (λ e' r. IsClosed e') (length ts) (finish_matrix text e range ts)
unfolding finish_matrix
finish_matrix-Good text e range ts s k =
    Good-bind (expect-Good t_rbracket ts (λ x. cc) s)
      λ _ r s' h _. Good-weaken (omega arith) (λ a q x. x) (new_matrix-Good text range e r s' k)

parse_range-Good :
    (e : Expr) (ts : List Token)
    → IsStream ts
    → IsClosed e
    → Good (λ e' r. IsClosed e') (length ts) (parse_range e ts)
unfolding parse_range
parse_range-Good e ts s k = Good-bind (expect-Good t_duration ts (λ x. cc) s) λ d r₁ s₁ h₁ _.
    Good-bind (or_bad-Good (bad_duration d.val) (parse_duration d.val) r₁ s₁)
      λ range r₂ s₂ h₂ _. colon d range r₂ s₂ (omega arith)
  where
    colon :
        (d : Token) (range : ℤ) (r : List Token)
        → IsStream r
        → length r < length ts
        → Good
            (λ e' r'. IsClosed e')
            (length ts)
            (bind (peek r) (λ t.
              if is_type t_colon t then finish_subquery e range else finish_matrix d.val e range))
    colon d range [] s' h = absurd s'
    colon d range (t ∷ r) s' h = elim (Bool-cases (is_type t_colon t)) [
      | inl f ↦
          unfold peek in
          rw f (
            Good-weaken (omega arith) (λ a q x. x)
              (finish_subquery-Good e range t r (pass t_colon t r (λ x. cc) s' f) k))
      | inr f ↦
          unfold peek in
          rw f
            (Good-weaken (omega arith) (λ a q x. x) (finish_matrix-Good d.val e range (t ∷ r) s' k))
    ]

module _ (c : Calls) where
  modifiers-Good :
      (fuel : ℕ) (e : Expr) (ts : List Token)
      → IsStream ts
      → length ts ≤ fuel
      → IsClosed e
      → Good (λ e' r. IsClosed e') (suc (length ts)) (modifiers c fuel e ts)
  unfolding modifiers
  modifiers-Good fuel e [] s h k = absurd s
  modifiers-Good zero e (t ∷ ts) s h k = absurd (omega arith)
  modifiers-Good (suc fuel) e (t ∷ ts) s h k =
      Good-if (is_word "offset" t)
        (λ w. Good-bind (parse_offset-Good ts (pass_word "offset" t ts s w)) λ off r₁ s₁ h₁ _.
          Good-bind (set_offset-Good off e r₁ s₁ k) λ e' r₂ s₂ h₂ k'.
            Good-weaken (omega arith) (λ a r q. q) (modifiers-Good fuel e' r₂ s₂ (omega arith) k'))
        (λ _.
          Good-if (is_type t_at t)
            (λ w.
              Good-bind (parse_at_modifier-Good c ts (pass t_at t ts (λ x. cc) s w)) λ a r₁ s₁ h₁ _.
                Good-bind (set_at-Good a e r₁ s₁ k) λ e' r₂ s₂ h₂ k'.
                  Good-weaken (omega arith) (λ b r q. q)
                    (modifiers-Good fuel e' r₂ s₂ (omega arith) k'))
            (λ _. good e (t ∷ ts) s (omega arith) k))

  pub parse_postfix-Good :
      (e : Expr) (ts : List Token)
      → IsStream ts
      → IsClosed e
      → Good (λ e' r. IsClosed e') (suc (length ts)) (parse_postfix c e ts)
  unfolding parse_postfix
  parse_postfix-Good e [] s k = absurd s
  parse_postfix-Good e (t ∷ ts) s k =
      Good-if (is_type t_lbracket t)
        (λ w.
          Good-bind (parse_range-Good e ts (pass t_lbracket t ts (λ x. cc) s w) k) λ e' r s' h k'.
            Good-weaken (omega arith) (λ a q x. x)
              (modifiers-Good (length r) e' r s' (omega arith) k'))
        (λ _. modifiers-Good (length (t ∷ ts)) e (t ∷ ts) s (omega arith) k)
