-- ===== src/Promql/Parse/Lists.antt =====
-- The parser's lists in brackets and clauses of labels (internal/promql/parse.go).
use omni_metrics.Prelude.{
  ℕ, zero, suc, ◌≤◌, List, [], ◌∷◌, ◌++◌, Bool, true, ◌||◌, Option, none, some, ◌≡◌, ◌≢◌, arith,
  Bool-cases, inl, inr, length, Str, String,
}
use omni_metrics.Promql.Token.{
  TokenType, Token, IsStream, IsStream-tail, is_type, t_eof, t_identifier, t_comma, t_lparen,
  t_rparen,
}
use omni_metrics.Promql.Ast.{MatchCardinality, card_many_to_one, card_one_to_many}
use omni_metrics.Promql.Parser.{parsed, bind, is_word, separator, label_loop, parse_label_list}
use omni_metrics.Promql.Parse.{parse_grouping, late_grouping}
use omni_metrics.Promql.Operator.{
  matching, parse_on, parse_include, parse_group, parse_vector_matching,
}
use omni_metrics.Promql.Parse.Total.{
  Good, good, refused, Any, Good-bind, Good-if, Good-weaken, ne-eof, expect-Good,
}

-- A token of a type other than the end's is passed.
pub pass :
    (typ : TokenType) (t : Token) (ts : List Token)
    → typ ≢ t_eof
    → IsStream (t ∷ ts)
    → is_type typ t ≡ true
    → IsStream ts
pass typ t ts k s e = IsStream-tail t ts s (ne-eof typ t e k)

-- A keyword is an identifier.
pub pass_word :
    (w : String) (t : Token) (ts : List Token)
    → IsStream (t ∷ ts)
    → is_word w t ≡ true
    → IsStream ts
unfolding is_word
pass_word w t ts s e = pass t_identifier t ts (λ k. cc) s (ground (arith, e))

pub separator-Good :
    (close : TokenType) (ts : List Token)
    → IsStream ts
    → Good Any (suc (length ts)) (separator close ts)
unfolding separator
separator-Good close [] s = absurd s
separator-Good close (t ∷ ts) s =
    Good-if (is_type t_comma t) (λ e. good tt ts (pass t_comma t ts (λ k. cc) s e) (omega arith) tt)
      (λ e. Good-if (is_type close t) (λ f. good tt (t ∷ ts) s (omega arith) tt) (λ f. refused _))

label_loop-Good :
    (fuel : ℕ) (acc : List Str) (ts : List Token)
    → IsStream ts
    → length ts ≤ fuel
    → Good Any (length ts) (label_loop fuel acc ts)
unfolding label_loop
label_loop-Good fuel acc [] s h = absurd s
label_loop-Good zero acc (t ∷ ts) s h = absurd (omega arith)
label_loop-Good (suc fuel) acc (t ∷ ts) s h =
    Good-if (is_type t_rparen t)
      (λ e. good acc ts (pass t_rparen t ts (λ k. cc) s e) (omega arith) tt)
      (λ e. Good-bind (expect-Good t_identifier (t ∷ ts) (λ k. cc) s) λ l r₁ s₁ h₁ _.
        Good-bind (separator-Good t_rparen r₁ s₁) λ _ r₂ s₂ h₂ _.
          Good-weaken (omega arith) (λ a r q. q)
            (label_loop-Good fuel (acc ++ (l.val ∷ [])) r₂ s₂ (omega arith)))

pub parse_label_list-Good :
    (ts : List Token) → IsStream ts → Good Any (length ts) (parse_label_list ts)
unfolding parse_label_list
parse_label_list-Good ts s = Good-bind (expect-Good t_lparen ts (λ k. cc) s) λ _ r₁ s₁ h₁ _.
    Good-weaken (omega arith) (λ a r q. q) (label_loop-Good (length r₁) [] r₁ s₁ (omega arith))

parse_on-Good : (ts : List Token) → IsStream ts → Good Any (suc (length ts)) (parse_on ts)
unfolding parse_on
parse_on-Good [] s = absurd s
parse_on-Good (t ∷ ts) s = elim (Bool-cases (is_word "on" t || is_word "ignoring" t)) [
  | inl e ↦
      rw e (
        Good-bind (parse_label_list-Good ts (either e)) λ ls r s' h _. good _ r s' (omega arith) tt)
  | inr e ↦ rw e (good none (t ∷ ts) s (omega arith) tt)
]
  where
    either : (is_word "on" t || is_word "ignoring" t) ≡ true → IsStream ts
    either e = elim (Bool-cases (is_word "on" t)) [
      | inl f ↦ pass_word "on" t ts s f
      | inr f ↦ pass_word "ignoring" t ts s (ground arith)
    ]

parse_include-Good : (ts : List Token) → IsStream ts → Good Any (suc (length ts)) (parse_include ts)
unfolding parse_include
parse_include-Good [] s = absurd s
parse_include-Good (t ∷ ts) s =
    Good-if (is_type t_lparen t)
      (λ e. Good-weaken (omega arith) (λ a r q. q) (parse_label_list-Good (t ∷ ts) s))
      (λ e. good [] (t ∷ ts) s (omega arith) tt)

parse_group-Good :
    (clause : Option (Bool × List Str)) (ts : List Token)
    → IsStream ts
    → Good Any (suc (length ts)) (parse_group clause ts)
unfolding parse_group
parse_group-Good clause [] s = absurd s
parse_group-Good clause (t ∷ ts) s =
    Good-if (is_word "group_left" t)
      (λ e. included card_many_to_one (pass_word "group_left" t ts s e))
      (λ e.
        Good-if (is_word "group_right" t)
          (λ f. included card_one_to_many (pass_word "group_right" t ts s f))
          (λ f. good _ (t ∷ ts) s (omega arith) tt))
  where
    included :
        (card : MatchCardinality)
        → IsStream ts
        → Good Any
            (suc (length (t ∷ ts)))
            (bind (parse_include ts) (λ ls r. parsed (some (matching clause card ls)) r))
    included card s' =
        Good-bind (parse_include-Good ts s') λ ls r s'' h _. good _ r s'' (omega arith) tt

pub parse_vector_matching-Good :
    (ts : List Token) → IsStream ts → Good Any (suc (length ts)) (parse_vector_matching ts)
unfolding parse_vector_matching
parse_vector_matching-Good ts s =
    Good-bind (parse_on-Good ts s)
      λ clause r₁ s₁ h₁ _. Good-weaken (omega arith) (λ a r q. q) (parse_group-Good clause r₁ s₁)

pub parse_grouping-Good :
    (ts : List Token) → IsStream ts → Good Any (suc (length ts)) (parse_grouping ts)
unfolding parse_grouping
parse_grouping-Good [] s = absurd s
parse_grouping-Good (t ∷ ts) s = elim (Bool-cases (is_word "by" t || is_word "without" t)) [
  | inl e ↦
      rw e (
        Good-bind (parse_label_list-Good ts (either e)) λ ls r s' h _. good _ r s' (omega arith) tt)
  | inr e ↦ rw e (good _ (t ∷ ts) s (omega arith) tt)
]
  where
    either : (is_word "by" t || is_word "without" t) ≡ true → IsStream ts
    either e = elim (Bool-cases (is_word "by" t)) [
      | inl f ↦ pass_word "by" t ts s f
      | inr f ↦ pass_word "without" t ts s (ground arith)
    ]

pub late_grouping-Good :
    (early : Bool × Option (List Str)) (ts : List Token)
    → IsStream ts
    → Good Any (suc (length ts)) (late_grouping early ts)
unfolding late_grouping
late_grouping-Good (w, none) ts s = parse_grouping-Good ts s
late_grouping-Good (w, some ls) ts s = good _ ts s (omega arith) tt
