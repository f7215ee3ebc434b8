-- ===== src/Promql/Binary/Arithmetic.antt =====
-- internal/promql/funcs.go: vectorVectorOp for arithmetic between vectors that match one to one.
use omni_metrics.Prelude.{
  ℕ, List, [], ◌∷◌, Bool, false, not, Option, none, some, ◌≡◌, ◌≢◌, ◌↔◌, refl, sym, ap, ◌∙◌, inl,
  inr, In, Bool-cases, Str, str_eq, str_eq_iff, arith, if◌then◌else◌,
}
use mathlib.Core.Path.{subst}
use omni_metrics.Prelude.Table.{find, string_eq}
use omni_metrics.Model.Labels.{Label, Labels, metric_name, to_string}
use omni_metrics.Promql.Token.{TokenType, t_add, t_sub, t_mul, t_div, t_mod, t_pow}
use omni_metrics.Promql.Ast.{VectorMatching, card_one_to_one}
use omni_metrics.Promql.Value.{VectorSample, Vector, Runtime}
use omni_metrics.Promql.Signature.{
  match_signature, result_metric, drop_metric_name, project_keep, drop_labels, in_set,
}
use omni_metrics.Promql.Binary.{
  index_from, join, emit_sample, cardinality, vector_vector_op, scalar_binop, is_comparison,
}
use omni_metrics.Promql.Aggregate.Kept.{keep_labels-In, in_set-In}
use omni_metrics.Promql.Binary.Partners.{
  sig, IsLastWith, index_from_sound, index_from_complete, join_sound, join_complete,
}

pub data Arithmetic : Type 0 where
  plus minus times over remainder power : Arithmetic

unfoldable pub token_of : Arithmetic → TokenType
token_of plus = t_add
token_of minus = t_sub
token_of times = t_mul
token_of over = t_div
token_of remainder = t_mod
token_of power = t_pow

unfoldable pub calc : Runtime → Arithmetic → ℕ → ℕ → ℕ
calc f plus a b = f.add a b
calc f minus a b = f.sub a b
calc f times a b = f.mul a b
calc f over a b = f.div a b
calc f remainder a b = f.fmod a b
calc f power a b = f.pow a b

-- The labels that matching compares: those on the list, or all but those on the list and the
-- metric's name.
abbrev pub IsCompared : Option VectorMatching → Labels → Label → Type 0
IsCompared none ls l = In l ls × (l.name ≢ metric_name)
IsCompared (some m) ls l =
    if m.on
    then (In l ls × In l.name m.matching_labels)
    else (In l ls × ¬ In l.name m.matching_labels × (l.name ≢ metric_name))

-- The labels of a result: those that matching is on, or all but the metric's name.
abbrev pub IsResult : Option VectorMatching → Labels → Label → Type 0
IsResult none ls l = In l ls × (l.name ≢ metric_name)
IsResult (some m) ls l =
    if m.on then (In l ls × In l.name m.matching_labels) else (In l ls × (l.name ≢ metric_name))

drop_metric_name-In :
    (ls : Labels) (l : Label) → In l (drop_metric_name ls) ↔ (In l ls × (l.name ≢ metric_name))
unfolding drop_metric_name
drop_metric_name-In ls l =
    let (down, up) = keep_labels-In (λ l. not (str_eq l.name metric_name)) ls l in
    let (eq_down, eq_up) = str_eq_iff l.name metric_name in
    (
      (λ i. let (a, b) = down i in (a, λ e. let q = eq_up e in ground arith)),
      (λ (a, n). up (
        a,
        elim (Bool-cases (str_eq l.name metric_name)) [
          | inl d ↦ absurd (n (eq_down d))
          | inr d ↦ rw d refl
        ],
      )),
    )

project_keep-In :
    (names : List Str) (ls : Labels) (l : Label)
    → In l (project_keep names ls) ↔ (In l ls × In l.name names)
unfolding project_keep
project_keep-In names ls l =
    let (down, up) = keep_labels-In (λ l. in_set names l.name) ls l in
    let (set_down, set_up) = in_set-In l.name names in
    ((λ i. let (a, b) = down i in (a, set_down b)), (λ (a, b). up (a, set_up b)))

drop_labels-In :
    (names : List Str) (ls : Labels) (l : Label)
    → In l (drop_labels (metric_name ∷ names) ls)
      ↔ (In l ls × ¬ In l.name names × (l.name ≢ metric_name))
unfolding drop_labels
drop_labels-In names ls l =
    let (down, up) = keep_labels-In (λ l. not (in_set (metric_name ∷ names) l.name)) ls l in
    let (set_down, set_up) = in_set-In l.name (metric_name ∷ names) in
    (
      (λ i.
          let (a, b) = down i in
          (
            a,
            (λ j. let q = set_up (inr j) in ground arith),
            (λ e. let q = set_up (inl e) in ground arith),
          )),
      (λ (a, n, k). up (
        a,
        elim (Bool-cases (in_set (metric_name ∷ names) l.name)) [
          | inl d ↦ elim (set_down d) [ inl e ↦ absurd (k e) | inr j ↦ absurd (n j) ]
          | inr d ↦ rw d refl
        ],
      )),
    )

result_metric-IsResult :
    (m : Option VectorMatching) (ls : Labels) (l : Label)
    → In l (result_metric m ls) ↔ IsResult m ls l
unfolding result_metric
result_metric-IsResult none ls l = drop_metric_name-In ls l
result_metric-IsResult (some m) ls l = elim (Bool-cases m.on) [
  | inl p ↦ rw p (project_keep-In m.matching_labels ls l)
  | inr p ↦ rw p (drop_metric_name-In ls l)
]

match_signature-IsCompared :
    (m : Option VectorMatching) (ls : Labels)
    → (ks : Labels) × (match_signature m false ls ≡ to_string ks)
      × ((l : Label) → In l ks ↔ IsCompared m ls l)
unfolding match_signature
match_signature-IsCompared none ls = (drop_metric_name ls, refl, drop_metric_name-In ls)
match_signature-IsCompared (some m) ls = elim (Bool-cases m.on) [
  | inl p ↦ rw p (project_keep m.matching_labels ls, refl, project_keep-In m.matching_labels ls)
  | inr p ↦
      rw p (
        drop_labels (metric_name ∷ m.matching_labels) ls,
        refl,
        drop_labels-In m.matching_labels ls,
      )
]

emit_sample-calc :
    (f : Runtime) (a : Arithmetic) (return_bool : Bool) (metric : Labels) (x y : ℕ)
    (l : VectorSample)
    → emit_sample f (token_of a) return_bool metric x y l
      ≡ some (record { metric = metric; t = l.t; v = calc f a x y })
unfolding emit_sample is_comparison scalar_binop token_of calc
emit_sample-calc f plus b metric x y l = refl
emit_sample-calc f minus b metric x y l = refl
emit_sample-calc f times b metric x y l = refl
emit_sample-calc f over b metric x y l = refl
emit_sample-calc f remainder b metric x y l = refl
emit_sample-calc f power b metric x y l = refl

-- What a left and a right sample give: the left one's time, the operation on the values, and the
-- labels of a result.
abbrev pub IsComputed :
    Runtime
    → Arithmetic
    → Option VectorMatching
    → VectorSample
    → VectorSample
    → VectorSample
    → Type 0
IsComputed f a m l r s =
    (s.t ≡ l.t) × (s.v ≡ calc f a l.v r.v) × ((x : Label) → In x s.metric ↔ IsResult m l.metric x)

module _ (f : Runtime) (a : Arithmetic) (m : Option VectorMatching) (return_bool : Bool)
    (lhs rhs : Vector) where
  abbrev pair_of : VectorSample → VectorSample → Option VectorSample
  pair_of ls rs = emit_sample f (token_of a) return_bool (result_metric m ls.metric) ls.v rs.v ls

  abbrev given : VectorSample → VectorSample → VectorSample
  given l r = record { metric = result_metric m l.metric; t = l.t; v = calc f a l.v r.v }

  one_to_one :
      cardinality m ≡ card_one_to_one
      → vector_vector_op f (token_of a) m return_bool lhs rhs
        ≡ join pair_of m (index_from m rhs []) lhs
  unfolding vector_vector_op
  one_to_one e = rw (e, vector_vector_op) refl

  given-IsComputed : (l r s : VectorSample) → given l r ≡ s → IsComputed f a m l r s
  given-IsComputed l r s e =
      subst (λ s. IsComputed f a m l r s) e (refl, refl, result_metric-IsResult m l.metric)

  -- For arithmetic between vectors that match one to one: each sample of the result comes from a left
  -- sample and the last right one with its signature, and each such pair gives one, with the left
  -- sample's time, the operation on the two values in their order, and as labels those that
  -- matching is on, or all of the left sample's but the metric's name. A signature is the string of
  -- the labels on the list that matching is on, or of all but the ignored ones and the metric's name.
  pub vector_vector_op-IsComputed :
      cardinality m ≡ card_one_to_one
      → ((s : VectorSample)
          → In s (vector_vector_op f (token_of a) m return_bool lhs rhs)
          → (l : VectorSample) × (r : VectorSample) × In l lhs
            × IsLastWith m (match_signature m false l.metric) r rhs
            × IsComputed f a m l r s)
        × ((l r : VectorSample)
            → In l lhs
            → IsLastWith m (match_signature m false l.metric) r rhs
            → (s : VectorSample) × In s (vector_vector_op f (token_of a) m return_bool lhs rhs)
              × IsComputed f a m l r s)
        × ((ls : Labels)
            → (ks : Labels) × (match_signature m false ls ≡ to_string ks)
              × ((x : Label) → In x ks ↔ IsCompared m ls x))
  unfolding find
  vector_vector_op-IsComputed card = (
    (λ s i.
        let (l, r, j, e, h) =
          join_sound pair_of m (index_from m rhs []) lhs s
            (subst (λ v. In s v) (one_to_one card) i) in
        let made : given l r ≡ s =
          let g = sym (emit_sample-calc f a return_bool (result_metric m l.metric) l.v r.v l) ∙ h in
          cc in
        elim (index_from_sound m (sig m l) rhs [] r e) [
          | inl last ↦ (l, r, j, last, given-IsComputed l r s made)
          | inr (n, k) ↦ absurd (cc)
        ]),
    (λ l r i (before, after, e, g, k).
        let found : find (sig m l) (index_from m rhs []) ≡ some r =
          ap (λ v. find (sig m l) (index_from m v [])) e
          ∙ index_from_complete m (sig m l) before after r [] g k in
        (
          given l r,
          subst (λ v. In (given l r) v) (sym (one_to_one card))
              (join_complete pair_of m (index_from m rhs []) lhs l r (given l r) i found
                (emit_sample-calc f a return_bool (result_metric m l.metric) l.v r.v l)),
          given-IsComputed l r (given l r) refl,
        )),
    match_signature-IsCompared m,
  )
