-- ===== src/Promql/Signature.antt =====
-- internal/promql: the label sets of results (funcs.go, funcs_helpers.go) and the keys by which
-- elements of vectors are grouped and matched.
use omni_metrics.Prelude.{
  List, [], ◌∷◌, ◌++◌, Bool, true, false, ◌||◌, not, Option, none, some, Str, str_eq, if◌then◌else◌,
}
use omni_metrics.Model.Labels.{Label, Labels, metric_name, normalize, to_string}
use omni_metrics.Promql.Ast.{VectorMatching}

-- `set[name]`.
unfoldable pub in_set : List Str → Str → Bool
in_set [] n = false
in_set (x ∷ xs) n = str_eq x n || in_set xs n

-- The labels that a test keeps, in their order.
unfoldable pub keep_labels : (Label → Bool) → Labels → Labels
keep_labels p [] = []
keep_labels p (l ∷ ls) = let rest = keep_labels p ls in if p l then l ∷ rest else rest

unfoldable pub drop_metric_name : Labels → Labels
unfolding keep_labels
drop_metric_name ls = keep_labels (λ l. not (str_eq l.name metric_name)) ls

unfoldable pub drop_labels : List Str → Labels → Labels
unfolding keep_labels in_set
drop_labels names ls = keep_labels (λ l. not (in_set names l.name)) ls

unfoldable pub project_keep : List Str → Labels → Labels
unfolding keep_labels in_set
project_keep names ls = keep_labels (λ l. in_set names l.name) ls

unfoldable pub group_labels : List Str → Bool → Labels → Labels
unfolding keep_labels in_set
group_labels set without ls =
    keep_labels
      (λ l.
        if without then not (in_set set l.name || str_eq l.name metric_name) else in_set set l.name)
      ls

-- `FromMap` of the labels as a map with one name set or removed. A label set has each name once,
-- and `FromMap` sorts, so the place of the new label does not count.
unfoldable pub set_label : Labels → Str → Str → Labels
unfolding drop_labels
set_label ls name val =
    normalize (drop_labels (name ∷ []) ls ++ (record { name = name; value = val } ∷ []))

unfoldable pub set_or_delete_label : Labels → Str → Str → Labels
unfolding drop_labels set_label
set_or_delete_label ls name [] = normalize (drop_labels (name ∷ []) ls)
set_or_delete_label ls name (c ∷ val) = set_label ls name (c ∷ val)

unfoldable pub match_signature : Option VectorMatching → Bool → Labels → Str
unfolding drop_metric_name project_keep drop_labels
match_signature none true l = to_string l
match_signature none false l = to_string (drop_metric_name l)
match_signature (some m) include_name l =
    if m.on
    then to_string (project_keep m.matching_labels l)
    else to_string (drop_labels (metric_name ∷ m.matching_labels) l)

unfoldable pub result_metric : Option VectorMatching → Labels → Labels
unfolding drop_metric_name project_keep
result_metric none lhs = drop_metric_name lhs
result_metric (some m) lhs =
    if m.on then project_keep m.matching_labels lhs else drop_metric_name lhs

-- A map from the string of a label set to what has been gathered under it, with the slice `order`:
-- the groups in the order in which their keys came.
pub record Group {ℓ} (A : Type ℓ) : Type ℓ where
  pub key : Str
  pub labels : Labels
  pub members : List A

unfoldable pub add_member {ℓ} : {A : Type ℓ} → Str → Labels → A → List (Group A) → List (Group A)
add_member k l a [] = record { key = k; labels = l; members = a ∷ [] } ∷ []
add_member k l a (g ∷ gs) =
    if str_eq g.key k
    then record g { members = g.members ++ (a ∷ []) } ∷ gs
    else g ∷ add_member k l a gs

-- The loop that groups: each element has its labels, whose string is the key.
unfoldable pub group_by {ℓ κ} :
    {A : Type ℓ} {B : Type κ} → (A → Labels) → (A → B) → List (Group B) → List A → List (Group B)
unfolding add_member
group_by labels value gs [] = gs
group_by labels value gs (a ∷ as_) =
    group_by labels value (add_member (to_string (labels a)) (labels a) (value a) gs) as_
