-- ===== src/Promql/Functions/Arguments.antt =====
-- internal/promql/funcs_lib.go: the arguments of a function call. An argument is its expression with
-- its evaluation at an instant.
use omni_metrics.Prelude.{ℕ, zero, suc, List, [], ◌∷◌, Bool, true, false, Option, none, some, Str}
use omni_metrics.Prelude.Int.{ℤ}
use omni_metrics.Promql.Ast.{Expr, string_literal}
use omni_metrics.Promql.Value.{
  Vector, SeriesData, Matrix, Value, scalar, vector, matrix, Outcome, ok, failed, ◌>>=◌,
  missing_argument, wrong_argument,
}

pub record Arg : Type 0 where
  pub expr : Expr
  pub eval : ℤ → Outcome Value

unfoldable pub nth_arg {ℓ} : {A : Type ℓ} → List A → ℕ → Option A
nth_arg [] i = none
nth_arg (a ∷ as_) zero = some a
nth_arg (a ∷ as_) (suc i) = nth_arg as_ i

abbrev pub as_vector : Str → ℕ → Value → Outcome Vector
as_vector func i (vector v) = ok v
as_vector func i _ = failed (wrong_argument func i)

abbrev pub as_scalar : Str → ℕ → Value → Outcome ℕ
as_scalar func i (scalar x) = ok x
as_scalar func i _ = failed (wrong_argument func i)

abbrev pub as_matrix : Str → Value → Outcome Matrix
as_matrix func (matrix m) = ok m
as_matrix func _ = failed (wrong_argument func 0)

abbrev pub as_literal : Str → ℕ → Expr → Outcome Str
as_literal func i (string_literal s) = ok s
as_literal func i _ = failed (wrong_argument func i)

abbrev pub has_points : SeriesData → Bool
has_points s = elim s.points [ [] ↦ false | p ∷ ps ↦ true ]

module _ (name : Str) (args : List Arg) (ts : ℤ) where
  unfoldable pub eval_arg : ℕ → Outcome Value
  unfolding nth_arg
  eval_arg i = elim (nth_arg args i) [
    | none ↦ failed (missing_argument name i)
    | some a ↦ a.eval ts
  ]

  unfoldable pub arg_vector : ℕ → Outcome Vector
  unfolding eval_arg
  arg_vector i = eval_arg i >>= λ v. as_vector name i v

  unfoldable pub arg_scalar : ℕ → Outcome ℕ
  unfolding eval_arg
  arg_scalar i = eval_arg i >>= λ v. as_scalar name i v

  unfoldable pub arg_matrix : ℕ → Outcome Matrix
  unfolding eval_arg
  arg_matrix i = eval_arg i >>= λ v. as_matrix name v

  unfoldable pub arg_string : ℕ → Outcome Str
  unfolding nth_arg
  arg_string i = elim (nth_arg args i) [
    | none ↦ failed (missing_argument name i)
    | some a ↦ as_literal name i a.expr
  ]
