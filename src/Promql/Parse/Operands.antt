-- ===== src/Promql/Parse/Operands.antt =====
-- Calls, aggregations and operands, given a parser of expressions (internal/promql/parse.go,
-- parsePrimary, parseUnary).
use omni_metrics.Prelude.{
  ℕ, zero, suc, ◌≤◌, ◌<◌, List, [], ◌∷◌, true, false, ◌≡◌, ◌⊎◌, refl, arith, Bool-cases, inl, inr,
  length, Str, if◌then◌else◌,
}
use omni_metrics.Promql.Token.{
  Token, IsStream, is_type, t_identifier, t_number, t_string, t_lbrace, t_lparen, t_rparen, t_comma,
  t_add, t_sub, t_pow,
}
use omni_metrics.Promql.Ast.{Expr, no_args, arg, among, aggregators, param_aggregators, functions}
use omni_metrics.Promql.Parser.{parsed, Parser, bind, next_token, peek, is_word}
use omni_metrics.Promql.Parse.{
  arg_loop, parse_args, parse_call, parse_param, parse_aggregate, parse_paren, parse_base,
  parse_primary, parse_unary, parse_bool,
}
use omni_metrics.Promql.Selector.{Calls, parse_selector_from}
use omni_metrics.Promql.Operator.{binary_prec, binary_op_info}
use omni_metrics.Promql.Parse.Climbed.{Climbed, ClimbedArgs, ClimbedParam, IsClosed, top}
use omni_metrics.Promql.Parse.Total.{
  Good, good, refused, Any, Good-bind, Good-if, Good-weaken, expect-Good,
}
use omni_metrics.Promql.Parse.Lists.{pass, pass_word, parse_grouping-Good, late_grouping-Good}
use omni_metrics.Promql.Parse.Selectors.{
  parse_selector_from-Good, parse_selector_from-brace, parse_postfix-Good,
}

-- The precedence of the operator at the cursor, 0 if there is none.
abbrev pub next_prec : List Token → ℕ
next_prec [] = 0
next_prec (t ∷ ts) = (binary_op_info t).1

-- What `parseExpr` promises for a least precedence: a tree that respects the precedences, no looser
-- than asked for, and behind it no operator that it should have taken.
abbrev pub Reads : ℕ → Expr → List Token → Type 0
Reads min e rest = Climbed e × (min ≤ top e) × ((next_prec rest ≡ 0) ⊎ (next_prec rest < min))

-- What `parseUnary` promises: a tree that binds tightest, or a sign with no power behind it.
abbrev pub Heads : Expr → List Token → Type 0
Heads e rest =
    Climbed e × ((top e ≡ 7) ⊎ ((top e ≡ 6) × ((next_prec rest ≡ 0) ⊎ (next_prec rest < 6))))

-- A parser of expressions that keeps the promise on fewer than `n` tokens.
abbrev pub Keeps : ℕ → (ℕ → Parser Expr) → Type 0
Keeps n self =
    (min : ℕ) (ts : List Token)
    → min ≤ 6
    → IsStream ts
    → length ts < n
    → Good (Reads min) (length ts) (self min ts)

module _ (c : Calls) (self : ℕ → Parser Expr) (n : ℕ) (keeps : Keeps n self) where
  arg_loop-Good :
      (fuel : ℕ) (ts : List Token)
      → IsStream ts
      → length ts ≤ fuel
      → length ts < n
      → Good (λ as_ r. ClimbedArgs as_) (length ts) (arg_loop c self fuel ts)
  unfolding arg_loop
  arg_loop-Good fuel [] s h b = absurd s
  arg_loop-Good zero (t ∷ ts) s h b = absurd (omega arith)
  arg_loop-Good (suc fuel) (t ∷ ts) s h b =
      Good-bind (keeps 0 (t ∷ ts) (omega arith) s b)
        λ a r s' h' q. continue (arg_loop-Good fuel) a r s' h' q.0
    where
      continue :
          ((q : List Token)
            → IsStream q
            → length q ≤ fuel
            → length q < n
            → Good (λ as_ r. ClimbedArgs as_) (length q) (arg_loop c self fuel q))
          → (a : Expr) (r : List Token) → IsStream r
          → length r < length (t ∷ ts)
          → Climbed a
          → Good
              (λ as_ r'. ClimbedArgs as_)
              (length (t ∷ ts))
              (bind (peek r) λ u.
                if is_type t_comma u
                then (λ q. bind (next_token q) λ _.
                    λ q'. bind (arg_loop c self fuel q') λ rest. λ q''. parsed (arg a rest) q'')
                else (λ q. parsed (arg a no_args) q))
      continue rec a [] s' h' k = absurd s'
      continue rec a (u ∷ r) s' h' k = elim (Bool-cases (is_type t_comma u)) [
        | inl f ↦
            unfold peek next_token ClimbedArgs in
            rw f (
              Good-bind (rec r (pass t_comma u r (λ x. cc) s' f) (omega arith) (omega arith))
                λ rest r' s'' h'' k'. good _ r' s'' (omega arith) (k, k'))
        | inr f ↦ unfold peek ClimbedArgs in rw f (good _ (u ∷ r) s' (omega arith) (k, tt))
      ]

  parse_args-Good :
      (ts : List Token)
      → IsStream ts
      → length ts < n
      → Good (λ as_ r. ClimbedArgs as_) (suc (length ts)) (parse_args c self ts)
  unfolding parse_args Climbed
  parse_args-Good [] s b = absurd s
  parse_args-Good (t ∷ ts) s b =
      Good-if (is_type t_rparen t) (λ _. good _ (t ∷ ts) s (omega arith) (tt))
        (λ _.
          Good-weaken (omega arith) (λ a r q. q)
            (arg_loop-Good (length (t ∷ ts)) (t ∷ ts) s (omega arith) b))

  parse_call-Good :
      (name : Str) (ts : List Token)
      → IsStream ts
      → length ts < n
      → Good (λ e r. IsClosed e) (length ts) (parse_call c self name ts)
  unfolding parse_call
  parse_call-Good name ts s b = Good-bind (expect-Good t_lparen ts (λ k. cc) s) λ _ r₁ s₁ h₁ _.
      Good-bind (parse_args-Good r₁ s₁ (omega arith)) λ as_ r₂ s₂ h₂ k.
        Good-bind (expect-Good t_rparen r₂ (λ x. cc) s₂)
          λ _ r₃ s₃ h₃ _. good _ r₃ s₃ (omega arith) (unfold Climbed in k, unfold top in refl)

  parse_param-Good :
      (op : Str) (ts : List Token)
      → IsStream ts
      → length ts < n
      → Good (λ p r. ClimbedParam p) (suc (length ts)) (parse_param c self op ts)
  unfolding parse_param Climbed
  parse_param-Good op ts s b = elim (Bool-cases (among op param_aggregators)) [
    | inl e ↦ rw e (
        Good-bind (keeps 0 ts (omega arith) s b) λ p r₁ s₁ h₁ q.
          Good-bind (expect-Good t_comma r₁ (λ x. cc) s₁)
            λ _ r₂ s₂ h₂ _. good _ r₂ s₂ (omega arith) q.0)
    | inr e ↦ rw e (good _ ts s (omega arith) (tt))
  ]

  parse_aggregate-Good :
      (op : Str) (ts : List Token)
      → IsStream ts
      → length ts < n
      → Good (λ e r. IsClosed e) (length ts) (parse_aggregate c self op ts)
  unfolding parse_aggregate
  parse_aggregate-Good op ts s b = Good-bind (parse_grouping-Good ts s) λ early r₁ s₁ h₁ _.
      Good-bind (expect-Good t_lparen r₁ (λ x. cc) s₁) λ _ r₂ s₂ h₂ _.
        Good-bind (parse_param-Good op r₂ s₂ (omega arith)) λ p r₃ s₃ h₃ kp.
          Good-bind (keeps 0 r₃ (omega arith) s₃ (omega arith)) λ e r₄ s₄ h₄ q.
            Good-bind (expect-Good t_rparen r₄ (λ x. cc) s₄) λ _ r₅ s₅ h₅ _.
              Good-bind (late_grouping-Good early r₅ s₅) λ g r₆ s₆ h₆ _.
                good _ r₆ s₆ (omega arith) (unfold Climbed in (q.0, kp), unfold top in refl)

  parse_paren-Good :
      (ts : List Token)
      → IsStream ts
      → length ts < n
      → Good (λ e r. IsClosed e) (length ts) (parse_paren c self ts)
  unfolding parse_paren
  parse_paren-Good ts s b = Good-bind (keeps 0 ts (omega arith) s b) λ e r₁ s₁ h₁ q.
      Good-bind (expect-Good t_rparen r₁ (λ x. cc) s₁)
        λ _ r₂ s₂ h₂ _. good _ r₂ s₂ (omega arith) (unfold Climbed in q.0, unfold top in refl)

  parse_name-Good :
      (t : Token) (ts : List Token)
      → IsStream ts
      → length ts < n
      → Good
          (λ e r. IsClosed e)
          (suc (length ts))
          (if among t.val aggregators
            then parse_aggregate c self t.val ts
            else if among t.val functions
            then parse_call c self t.val ts
            else parse_selector_from c t.val ts)
  parse_name-Good t ts s b =
      Good-if (among t.val aggregators)
        (λ _. Good-weaken (omega arith) (λ a r q. q) (parse_aggregate-Good t.val ts s b))
        (λ _.
          Good-if (among t.val functions)
            (λ _. Good-weaken (omega arith) (λ a r q. q) (parse_call-Good t.val ts s b))
            (λ _. parse_selector_from-Good c t.val ts s))

  parse_base-Good :
      (ts : List Token)
      → IsStream ts
      → length ts ≤ n
      → Good (λ e r. IsClosed e) (length ts) (parse_base c self ts)
  unfolding parse_base Climbed top
  parse_base-Good [] s b = absurd s
  parse_base-Good (t ∷ ts) s b =
      Good-if (is_type t_number t)
        (λ e.
          Good-if (c.parse_float t.val).1
            (λ _. good _ ts (pass t_number t ts (λ x. cc) s e) (omega arith) (tt, refl))
            (λ _. refused _))
        (λ _.
          Good-if (is_type t_string t)
            (λ e. good _ ts (pass t_string t ts (λ x. cc) s e) (omega arith) (tt, refl))
            (λ _.
              Good-if (is_type t_lparen t)
                (λ e.
                  Good-weaken (omega arith) (λ a r q. q)
                    (parse_paren-Good ts (pass t_lparen t ts (λ x. cc) s e) (omega arith)))
                (λ _.
                  Good-if (is_type t_lbrace t) (λ e. parse_selector_from-brace c [] t ts s e)
                    (λ _.
                      Good-if (is_type t_identifier t)
                        (λ e.
                          Good-weaken (omega arith) (λ a r q. q)
                            (parse_name-Good t ts (pass t_identifier t ts (λ x. cc) s e)
                              (omega arith)))
                        (λ _. refused _)))))

  parse_primary-Good :
      (ts : List Token)
      → IsStream ts
      → length ts ≤ n
      → Good (λ e r. IsClosed e) (length ts) (parse_primary c self ts)
  unfolding parse_primary
  parse_primary-Good ts s b =
      Good-bind (parse_base-Good ts s b)
        λ e r s' h k. Good-weaken (omega arith) (λ a q x. x) (parse_postfix-Good c e r s' k)

  pub parse_unary-Good :
      (ts : List Token)
      → IsStream ts
      → length ts ≤ n
      → Good Heads (length ts) (parse_unary c self ts)
  unfolding parse_unary
  parse_unary-Good [] s b = absurd s
  parse_unary-Good (t ∷ ts) s b =
      Good-if (is_type t_sub t)
        (λ e.
          Good-bind
            (keeps (binary_prec t_pow) ts (unfold binary_prec in omega arith)
              (pass t_sub t ts (λ x. cc) s e) (omega arith))
            λ o r s' h q. good _ r s' (omega arith) (
              unfold Climbed in (q.0, unfold binary_prec in q.1),
              unfold top in inr (refl, unfold binary_prec in q.2),
            ))
        (λ _.
          Good-if (is_type t_add t)
            (λ e.
              Good-weaken (omega arith) (λ a r q. q)
                (parse_unary-Good ts (pass t_add t ts (λ x. cc) s e) (omega arith)))
            (λ _.
              Good-weaken (omega arith) (λ a r k. (k.0, inl k.1))
                (parse_primary-Good (t ∷ ts) s b)))

pub parse_bool-Good : (ts : List Token) → IsStream ts → Good Any (suc (length ts)) (parse_bool ts)
unfolding parse_bool
parse_bool-Good [] s = absurd s
parse_bool-Good (t ∷ ts) s =
    Good-if (is_word "bool" t) (λ e. good true ts (pass_word "bool" t ts s e) (omega arith) tt)
      (λ _. good false (t ∷ ts) s (omega arith) tt)
