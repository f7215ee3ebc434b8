-- ===== src/Promql/Binary.antt =====
-- internal/promql/funcs.go: binary operators on scalars and vectors.
pub mod Arithmetic
pub mod Matched
pub mod Partners
use omni_metrics.Prelude.{
  ℕ, List, [], ◌∷◌, ◌++◌, Bool, true, false, ◌||◌, ◌&&◌, not, Option, none, some, Str,
  if◌then◌else◌,
}
use omni_metrics.Prelude.Int.{ℤ}
use omni_metrics.Prelude.Table.{Table, find, put, string_eq}
use omni_metrics.Model.Labels.{Labels, get}
use omni_metrics.Promql.Token
use omni_metrics.Promql.Token.{
  TokenType, t_add, t_sub, t_mul, t_div, t_mod, t_pow, t_eql_cmp, t_neq, t_gtr, t_lss, t_gte, t_lte,
  t_land, t_lor, t_lunless,
}
use omni_metrics.Promql.Ast.{
  VectorMatching, MatchCardinality, card_one_to_one, card_many_to_one, card_one_to_many,
}
use omni_metrics.Promql.Value.{
  VectorSample, Vector, Value, scalar, vector, matrix, string, Runtime, zero_float, truth,
  EvalError, set_operands, needs_bool, not_supported, Outcome, ok, failed,
}
use omni_metrics.Promql.Signature.{
  match_signature, result_metric, drop_metric_name, set_label, in_set,
}

unfoldable pub is_comparison : TokenType → Bool
is_comparison t_eql_cmp = true
is_comparison t_neq = true
is_comparison t_gtr = true
is_comparison t_lss = true
is_comparison t_gte = true
is_comparison t_lte = true
is_comparison _ = false

abbrev pub is_set_op : TokenType → Bool
is_set_op t_land = true
is_set_op t_lor = true
is_set_op t_lunless = true
is_set_op _ = false

-- For a comparison: the left value, and whether it holds.
unfoldable pub scalar_binop : Runtime → TokenType → ℕ → ℕ → ℕ × Bool
scalar_binop f t_add a b = (f.add a b, true)
scalar_binop f t_sub a b = (f.sub a b, true)
scalar_binop f t_mul a b = (f.mul a b, true)
scalar_binop f t_div a b = (f.div a b, true)
scalar_binop f t_mod a b = (f.fmod a b, true)
scalar_binop f t_pow a b = (f.pow a b, true)
scalar_binop f t_eql_cmp a b = (a, f.eq a b)
scalar_binop f t_neq a b = (a, not (f.eq a b))
scalar_binop f t_gtr a b = (a, f.lt b a)
scalar_binop f t_lss a b = (a, f.lt a b)
scalar_binop f t_gte a b = (a, f.le b a)
scalar_binop f t_lte a b = (a, f.le a b)
scalar_binop f _ a b = (zero_float, false)

abbrev pub cons_if {ℓ} : {A : Type ℓ} → Option A → List A → List A
cons_if none rest = rest
cons_if (some a) rest = a ∷ rest

-- What one sample contributes; the operands are already in order.
unfoldable pub scalar_vector_one :
    Runtime → TokenType → Bool → ℕ → ℕ → VectorSample → Option VectorSample
unfolding is_comparison scalar_binop drop_metric_name
scalar_vector_one f op bool_mod a b s =
    let (v, keep) = scalar_binop f op a b in
    if is_comparison op
    then if bool_mod
      then some (record { metric = drop_metric_name s.metric; t = s.t; v = truth f keep })
      else if keep
      then some s
      else none
    else some (record { metric = drop_metric_name s.metric; t = s.t; v = v })

unfoldable pub scalar_vector_op : Runtime → TokenType → ℕ → Vector → Bool → Bool → Vector
unfolding scalar_vector_one
scalar_vector_op f op x [] scalar_left bool_mod = []
scalar_vector_op f op x (s ∷ ss) scalar_left bool_mod =
    let one =
      (if scalar_left
        then scalar_vector_one f op bool_mod x s.v s
        else scalar_vector_one f op bool_mod s.v x s) in
    cons_if one (scalar_vector_op f op x ss scalar_left bool_mod)

-- `rIndex` and `lIndex`: a later sample replaces an earlier one with the same signature.
unfoldable pub index_from :
    Option VectorMatching → Vector → Table Str VectorSample → Table Str VectorSample
unfolding match_signature
index_from m [] table = table
index_from m (s ∷ ss) table = index_from m ss (put (match_signature m false s.metric) s table)

-- `emit_sample`, with the sample that a comparison keeps.
unfoldable pub emit_sample :
    Runtime → TokenType → Bool → Labels → ℕ → ℕ → VectorSample → Option VectorSample
unfolding is_comparison scalar_binop
emit_sample f op return_bool metric lv rv kept =
    let (v, keep) = scalar_binop f op lv rv in
    if is_comparison op
    then if return_bool
      then some (record { metric = metric; t = kept.t; v = truth f keep })
      else if keep
      then some kept
      else none
    else some (record { metric = metric; t = kept.t; v = v })

abbrev pub or_skip : Str → Labels → Str → Labels
or_skip inc metric [] = metric
or_skip inc metric (c ∷ val) = set_label metric inc (c ∷ val)

-- The labels of `group_left(...)` and `group_right(...)` that the one side has.
unfoldable pub add_included : List Str → Labels → Labels → Labels
add_included [] one metric = metric
add_included (inc ∷ incs) one metric = add_included incs one (or_skip inc metric (get one inc))

abbrev pub cardinality : Option VectorMatching → MatchCardinality
cardinality none = card_one_to_one
cardinality (some m) = m.card

abbrev pub included_names : Option VectorMatching → List Str
included_names none = []
included_names (some m) = m.include_labels

-- A loop over the samples of one side, each with its partner in the index of the other.
unfoldable pub join :
    (VectorSample → VectorSample → Option VectorSample)
    → Option VectorMatching
    → Table Str VectorSample
    → Vector
    → Vector
unfolding match_signature
join pair m table [] = []
join pair m table (s ∷ ss) =
    let rest = join pair m table ss in
    elim (find (match_signature m false s.metric) table) [
      | none ↦ rest
      | some partner ↦ cons_if (pair s partner) rest
    ]

unfoldable pub vector_vector_op :
    Runtime → TokenType → Option VectorMatching → Bool → Vector → Vector → Vector
unfolding index_from emit_sample add_included join drop_metric_name result_metric
vector_vector_op f op m return_bool lhs rhs = elim (cardinality m) [
  | card_many_to_one ↦
      join
        (λ ls rs.
          emit_sample f op return_bool
            (add_included (included_names m) rs.metric (drop_metric_name ls.metric)) ls.v rs.v ls)
        m (index_from m rhs []) lhs
  | card_one_to_many ↦
      join
        (λ rs ls.
          emit_sample f op return_bool
            (add_included (included_names m) ls.metric (drop_metric_name rs.metric)) ls.v rs.v rs)
        m (index_from m lhs []) rhs
  | card_one_to_one ↦
      join (λ ls rs. emit_sample f op return_bool (result_metric m ls.metric) ls.v rs.v ls) m
        (index_from m rhs []) lhs
]

unfoldable pub signatures : Option VectorMatching → Vector → List Str
unfolding match_signature
signatures m [] = []
signatures m (s ∷ ss) = match_signature m true s.metric ∷ signatures m ss

-- The samples whose signature is in a set, or is not.
unfoldable pub select_by : (Bool → Bool) → Option VectorMatching → List Str → Vector → Vector
unfolding in_set match_signature
select_by p m sigs [] = []
select_by p m sigs (s ∷ ss) =
    let rest = select_by p m sigs ss in
    if p (in_set sigs (match_signature m true s.metric)) then s ∷ rest else rest

unfoldable pub vector_set_op : TokenType → Option VectorMatching → Vector → Vector → Vector
unfolding signatures select_by
vector_set_op t_land m lhs rhs = select_by (λ b. b) m (signatures m rhs) lhs
vector_set_op t_lunless m lhs rhs = select_by not m (signatures m rhs) lhs
vector_set_op t_lor m lhs rhs = lhs ++ select_by not m (signatures m lhs) rhs
vector_set_op _ m lhs rhs = []

abbrev pub set_operation : TokenType → Option VectorMatching → Value → Value → Outcome Value
set_operation op m (vector l) (vector r) = ok (vector (vector_set_op op m l r))
set_operation op m _ _ = failed set_operands

unfoldable pub scalar_scalar : Runtime → TokenType → Bool → ℕ → ℕ → Outcome Value
unfolding is_comparison scalar_binop
scalar_scalar f op return_bool a b =
    let (v, keep) = scalar_binop f op a b in
    if is_comparison op
    then if return_bool then ok (scalar (truth f keep)) else failed needs_bool
    else ok (scalar v)

unfoldable pub apply_values :
    Runtime → TokenType → Option VectorMatching → Bool → Value → Value → Outcome Value
unfolding scalar_scalar scalar_vector_op vector_vector_op
apply_values f op m return_bool (scalar a) (scalar b) = scalar_scalar f op return_bool a b
apply_values f op m return_bool (scalar a) (vector r) =
    ok (vector (scalar_vector_op f op a r true return_bool))
apply_values f op m return_bool (vector l) (scalar b) =
    ok (vector (scalar_vector_op f op b l false return_bool))
apply_values f op m return_bool (vector l) (vector r) =
    ok (vector (vector_vector_op f op m return_bool l r))
apply_values f op m return_bool _ _ = failed not_supported

unfoldable pub apply_binary :
    Runtime → TokenType → Option VectorMatching → Bool → Value → Value → Outcome Value
unfolding apply_values vector_set_op
apply_binary f op m return_bool l r =
    if is_set_op op then set_operation op m l r else apply_values f op m return_bool l r
