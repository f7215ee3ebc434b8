-- ===== src/Promql/Parse/Climbing.antt =====
-- Precedence climbing is right, and the parser always answers (internal/promql/parse.go, parseExpr,
-- Parse).
use omni_metrics.Prelude.{
  ℕ, zero, suc, ◌≤◌, ◌<◌, List, [], ◌∷◌, Bool, ◌||◌, Option, ◌≡◌, ◌≢◌, ◌⊎◌, ◌==◌, refl, arith, ltb,
  Bool-cases, inl, inr, length, Str, str_eq, bytes,
}
use omni_metrics.Promql.Token.{
  TokenType, Token, IsStream, IsStream-tail, is_type, number, t_eof, t_identifier, t_pow, t_lor,
  t_land, t_lunless, t_eql_cmp, t_neq, t_gtr, t_lss, t_gte, t_lte, t_add, t_sub, t_mul, t_div,
  t_mod,
}
use omni_metrics.Promql.Lex.{LexError}
use omni_metrics.Promql.Lex.Stream.{lex_total}
use omni_metrics.Promql.Ast.{Expr, VectorMatching, binary_expr}
use omni_metrics.Promql.Parser.{Parsed, ParseError, Parser}
use omni_metrics.Promql.Parse.{
  next_min, climb, parse_expr, finish, parse, tree, lexing_failed, parsing_failed, outcome,
  parse_tokens,
}
use omni_metrics.Promql.Selector.{Calls}
use omni_metrics.Promql.Operator.{binary_prec, binary_op_info}
use omni_metrics.Promql.Parse.Climbed.{Climbed, top, prec_of, least_left, least_right}
use omni_metrics.Promql.Parse.Total.{Good, good, refused, Good-bind, Good-if, Good-weaken}
use omni_metrics.Promql.Parse.Lists.{parse_vector_matching-Good}
use omni_metrics.Promql.Parse.Operands.{
  Reads, Keeps, next_prec, Heads, parse_unary-Good, parse_bool-Good,
}

-- The operator at the cursor may follow a left operand.
abbrev Follows : Expr → List Token → Type 0
Follows left ts = (next_prec ts ≡ 0) ⊎ (least_left (next_prec ts) ≤ top left)

-- What a token says of its operator.
record IsOperator (op : TokenType) (prec : ℕ) : Type 0 where
  same : prec_of op ≡ prec
  right : next_min op prec ≡ least_right prec
  low : least_right prec ≤ 6

type_operator : (typ : TokenType) → binary_prec typ ≢ 0 → IsOperator typ (binary_prec typ)
unfolding binary_prec prec_of is_type number
type_operator t_eql_cmp h = record { same = refl; right = refl; low = omega arith }
type_operator t_neq h = record { same = refl; right = refl; low = omega arith }
type_operator t_gtr h = record { same = refl; right = refl; low = omega arith }
type_operator t_lss h = record { same = refl; right = refl; low = omega arith }
type_operator t_gte h = record { same = refl; right = refl; low = omega arith }
type_operator t_lte h = record { same = refl; right = refl; low = omega arith }
type_operator t_add h = record { same = refl; right = refl; low = omega arith }
type_operator t_sub h = record { same = refl; right = refl; low = omega arith }
type_operator t_mul h = record { same = refl; right = refl; low = omega arith }
type_operator t_div h = record { same = refl; right = refl; low = omega arith }
type_operator t_mod h = record { same = refl; right = refl; low = omega arith }
type_operator t_pow h = record { same = refl; right = refl; low = omega arith }
type_operator _ h = absurd (h refl)

set_operator :
    (op : TokenType) (prec : ℕ)
    → ((op ≡ t_lor) × (prec ≡ 1)) ⊎ (((op ≡ t_land) × (prec ≡ 2)) ⊎ ((op ≡ t_lunless) × (prec ≡ 2)))
    → IsOperator op prec
unfolding prec_of is_type number
set_operator op prec (inl (e, f)) =
    rw (e, f) (record { same = refl; right = refl; low = omega arith })
set_operator op prec (inr (inl (e, f))) =
    rw (e, f) (record { same = refl; right = refl; low = omega arith })
set_operator op prec (inr (inr (e, f))) =
    rw (e, f) (record { same = refl; right = refl; low = omega arith })

operator :
    (t : Token) → (binary_op_info t).1 ≢ 0 → IsOperator (binary_op_info t).0 (binary_op_info t).1
unfolding binary_op_info
operator t h = elim (Bool-cases (is_type t_identifier t)) [
  | inr e ↦ rw e (type_operator t.typ (rw e at h))
  | inl e ↦ rw e (elim (Bool-cases (str_eq t.val (bytes "or"))) [
    | inl f ↦ rw f (set_operator t_lor 1 (inl (refl, refl)))
    | inr f ↦ rw f (elim (Bool-cases (str_eq t.val (bytes "and"))) [
      | inl g ↦ rw g (set_operator t_land 2 (inr (inl (refl, refl))))
      | inr g ↦ rw g (elim (Bool-cases (str_eq t.val (bytes "unless"))) [
        | inl k ↦ rw k (set_operator t_lunless 2 (inr (inr (refl, refl))))
        | inr k ↦ absurd (rw (e, f, g, k) at h refl)
      ])
    ])
  ])
]

-- The end of the input is no operator.
operator-ne-eof : (t : Token) → (binary_op_info t).1 ≢ 0 → t.typ ≢ t_eof
unfolding binary_op_info is_type number binary_prec
operator-ne-eof t h e = h (rw e refl)

least_left-le : (ts : List Token) → least_left (next_prec ts) ≤ 7
least_left-le [] = omega arith
least_left-le (t ∷ ts) = elim (Bool-cases ((binary_op_info t).1 == 0)) [
  | inl e ↦ ground (arith, e)
  | inr e ↦ let low = (operator t (ground (arith, e))).low in ground arith
]

-- Behind a right operand stands an operator that may follow the new left operand.
follows_new : (p q : ℕ) → ((q ≡ 0) ⊎ (q < least_right p)) → (q ≡ 0) ⊎ (least_left q ≤ p)
follows_new p q (inl e) = inl e
follows_new p q (inr h) = inr (ground arith)

top-binary :
    (op : TokenType) (l r : Expr) (m : Option VectorMatching) (b : Bool)
    → top (binary_expr op l r m b) ≡ prec_of op
unfolding top
top-binary op l r m b = refl

binary-Climbed :
    (op : TokenType) (p : ℕ) (l r : Expr) (m : Option VectorMatching) (b : Bool)
    → prec_of op ≡ p
    → 0 < p
    → Climbed l
    → Climbed r
    → least_left p ≤ top l
    → least_right p ≤ top r
    → Climbed (binary_expr op l r m b)
unfolding Climbed
binary-Climbed op p l r m b e pos kl kr hl hr = rw e (kl, kr, pos, hl, hr)

module _ (c : Calls) (self : ℕ → Parser Expr) (n : ℕ) (keeps : Keeps n self) where
  climb-Good :
      (fuel min : ℕ) (left : Expr) (ts : List Token)
      → IsStream ts
      → length ts ≤ fuel
      → length ts ≤ n
      → Climbed left
      → min ≤ top left
      → Follows left ts
      → Good (Reads min) (suc (length ts)) (climb c self fuel min left ts)
  unfolding climb
  climb-Good fuel min left [] s h b k m f = absurd s
  climb-Good zero min left (t ∷ ts) s h b k m f = absurd (omega arith)
  climb-Good (suc fuel) min left (t ∷ ts) s h b k m f =
      elim (Bool-cases ((binary_op_info t).1 == 0 || ltb (binary_op_info t).1 min)) [
        | inl e ↦ rw e (good left (t ∷ ts) s (omega arith) (k, m, ground (arith, e)))
        | inr e ↦
            let real : (binary_op_info t).1 ≢ 0 = ground (arith, e) in
            let o = operator t real in
            let not_below : min ≤ (binary_op_info t).1 = ground (arith, e) in
            let room : least_left (binary_op_info t).1 ≤ top left = ground (arith, f, e) in
            rw e (
              Good-bind (parse_bool-Good ts (IsStream-tail t ts s (operator-ne-eof t real)))
                λ rb r₁ s₁ h₁ _. Good-bind (parse_vector_matching-Good r₁ s₁) λ vm r₂ s₂ h₂ _.
                  Good-bind
                    (keeps (next_min (binary_op_info t).0 (binary_op_info t).1) r₂
                      (rw o.right o.low) s₂ (omega arith))
                    λ right r₃ s₃ h₃ q.
                      let e' = binary_expr (binary_op_info t).0 left right vm rb in
                      Good-weaken (omega arith) (λ a r x. x)
                        (climb-Good fuel min e' r₃ s₃ (omega arith) (omega arith)
                          (binary-Climbed (binary_op_info t).0 (binary_op_info t).1 left right vm rb
                            o.same (omega (arith, real)) k q.0 room (rw (← o.right) q.1))
                          (omega (
                            arith,
                            top-binary (binary_op_info t).0 left right vm rb,
                            o.same,
                            not_below,
                          ))
                          (rw (top-binary (binary_op_info t).0 left right vm rb, o.same)
                            (follows_new (binary_op_info t).1 (next_prec r₃)
                              (rw (← o.right) q.2)))))
      ]

Heads-Follows : (e : Expr) (ts : List Token) → Heads e ts → Follows e ts
Heads-Follows e ts (k, inl h) = inr (rw h (least_left-le ts))
Heads-Follows e ts (k, inr (h, inl z)) = inl z
Heads-Follows e ts (k, inr (h, inr l)) = inr (ground arith)

Heads-tight : (e : Expr) (ts : List Token) → Heads e ts → 6 ≤ top e
Heads-tight e ts (k, inl h) = omega (arith, h)
Heads-tight e ts (k, inr (h, f)) = omega (arith, h)

-- With fuel for each token, an expression is parsed or refused, whatever precedence is asked for.
parse_expr-Keeps : (c : Calls) (fuel : ℕ) → Keeps (suc fuel) (parse_expr c fuel)
unfolding parse_expr
parse_expr-Keeps c fuel min [] low s h = absurd s
parse_expr-Keeps c zero min (t ∷ ts) low s h = absurd (omega arith)
parse_expr-Keeps c (suc fuel) min (t ∷ ts) low s h =
    Good-bind
      (parse_unary-Good c (parse_expr c fuel) (suc fuel) (parse_expr-Keeps c fuel) (t ∷ ts) s
        (omega arith))
      λ left r s' h' k.
        Good-weaken (omega arith) (λ a q x. x)
          (climb-Good c (parse_expr c fuel) (suc fuel) (parse_expr-Keeps c fuel) (length r) min left
            r s' (omega arith) (omega arith) k.0 (let tight = Heads-tight left r k in omega arith)
            (Heads-Follows left r k))

finish-Good :
    (e : Expr) (ts : List Token)
    → IsStream ts
    → Climbed e
    → Good (λ e' r. Climbed e') (suc (length ts)) (finish e ts)
unfolding finish
finish-Good e [] s k = absurd s
finish-Good e (t ∷ ts) s k =
    Good-if (is_type t_eof t) (λ f. good e (t ∷ ts) s (omega arith) k) (λ f. refused _)

parse_tokens-Good :
    (c : Calls) (ts : List Token)
    → IsStream ts
    → Good (λ e r. Climbed e) (suc (length ts)) (parse_tokens c ts)
parse_tokens-Good c ts s =
    Good-bind (parse_expr-Keeps c (length ts) 0 ts (omega arith) s (omega arith))
      λ e r s' h q. Good-weaken (omega arith) (λ a q' x. x) (finish-Good e r s' q.0)

outcome-cases :
    (n : ℕ) (r : Parsed Expr)
    → Good (λ e q. Climbed e) n r
    → ((e : Expr) × (outcome r ≡ tree e) × Climbed e)
      ⊎ ((w : ParseError) × (outcome r ≡ parsing_failed w))
outcome-cases n _ (good e rest s h k) = inl (e, refl, k)
outcome-cases n _ (refused w) = inr (w, refl)

-- For every query and whatever the libraries answer, `Parse` returns, without a panic: a tree that
-- respects the precedence and associativity of the operators, or the lexer's or the parser's error.
pub parse_total :
    (c : Calls) (input : Str)
    → ((e : Expr) × (parse c input ≡ tree e) × Climbed e)
      ⊎ (((w : LexError) × (parse c input ≡ lexing_failed w))
          ⊎ ((w : ParseError) × (parse c input ≡ parsing_failed w)))
unfolding parse
parse_total c input = elim (lex_total input) [
  | inr (w, e) ↦ inr (inl (w, rw e refl))
  | inl (ts, e, s) ↦ elim (outcome-cases _ (parse_tokens c ts) (parse_tokens-Good c ts s)) [
    | inl (x, f, k) ↦ inl (x, rw e f, k)
    | inr (w, f) ↦ inr (inr (w, rw e f))
  ]
]
