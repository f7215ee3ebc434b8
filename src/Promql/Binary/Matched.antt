-- ===== src/Promql/Binary/Matched.antt =====
-- internal/promql/funcs.go: what the set operators of vectors keep.
use omni_metrics.Prelude.{
  List, [], ◌∷◌, Bool, true, not, Option, ◌≡◌, ◌↔◌, refl, sym, ap, ◌∙◌, ◌⊎◌, inl, inr, In,
  Bool-cases, Str, str_eq, str_eq_iff, arith, In-append, In-append_left, In-append_right,
}
use omni_metrics.Prelude.Table.{string_eq}
use omni_metrics.Promql.Token.{t_land, t_lor, t_lunless}
use omni_metrics.Promql.Ast.{VectorMatching}
use omni_metrics.Promql.Value.{VectorSample, Vector}
use omni_metrics.Promql.Signature.{match_signature, in_set}
use omni_metrics.Promql.Binary.{vector_set_op, signatures, select_by}

-- A sample of a vector has the signature of another.
abbrev pub Shares : Option VectorMatching → VectorSample → Vector → Type 0
Shares m s v =
    (r : VectorSample) × In r v
    × (match_signature m true r.metric ≡ match_signature m true s.metric)

signatures-Shares :
    (m : Option VectorMatching) (s : VectorSample) (v : Vector)
    → (in_set (signatures m v) (match_signature m true s.metric) ≡ true) ↔ Shares m s v
unfolding in_set signatures
signatures-Shares m s [] = (λ e. absurd (cc), λ (r, i, e). absurd i)
signatures-Shares m s (q ∷ v) =
    let k = match_signature m true s.metric in
    (
      (λ e. elim (Bool-cases (str_eq (match_signature m true q.metric) k)) [
        | inl p ↦ (q, inl refl, (str_eq_iff (match_signature m true q.metric) k).0 p)
        | inr p ↦ let (r, i, t) = (signatures-Shares m s v).0 (ground arith) in (r, inr i, t)
      ]),
      (λ (r, i, t). elim i [
        | inl e ↦
            let there =
              (str_eq_iff (match_signature m true q.metric) k).1
                (ap (λ (z : VectorSample). match_signature m true z.metric) (sym e) ∙ t) in
            rw there refl
        | inr j ↦ let rest = (signatures-Shares m s v).1 (r, j, t) in ground arith
      ]),
    )

select_by-In :
    (p : Bool → Bool) (m : Option VectorMatching) (sigs : List Str) (s : VectorSample) (v : Vector)
    → In s (select_by p m sigs v)
      ↔ (In s v × (p (in_set sigs (match_signature m true s.metric)) ≡ true))
unfolding select_by
select_by-In p m sigs s [] = (λ i. absurd i, λ (i, e). absurd i)
select_by-In p m sigs s (q ∷ v) =
    let (down, up) = select_by-In p m sigs s v in
    let test = λ (z : VectorSample). p (in_set sigs (match_signature m true z.metric)) in
    elim (Bool-cases (test q)) [
      | inl t ↦
          rw (t, select_by)
            (
              (λ i. elim i [
                | inl e ↦ (inl e, ap test e ∙ t)
                | inr j ↦ let (a, b) = down j in (inr a, b)
              ]),
              (λ (i, b). elim i [ inl e ↦ inl e | inr j ↦ inr (up (j, b)) ]),
            )
      | inr t ↦
          rw (t, select_by)
            (
              (λ i. let (a, b) = down i in (inr a, b)),
              (λ (i, b). elim i [
                | inl e ↦ absurd (let u = sym t ∙ sym (ap test e) ∙ b in cc)
                | inr j ↦ up (j, b)
              ]),
            )
    ]

not_Shares : {P : Type 0} {b : Bool} → (b ≡ true) ↔ P → not b ≡ true → ¬ P
not_Shares h n p = let e = h.1 p in ground arith

Shares_not : {P : Type 0} {b : Bool} → (b ≡ true) ↔ P → ¬ P → not b ≡ true
Shares_not {b = b} h n = elim (Bool-cases b) [ inl e ↦ absurd (n (h.0 e)) | inr e ↦ rw e refl ]

-- `and` keeps the left samples that share a signature with a right one, `unless` the others, and `or`
-- has the left samples and the right ones that share no signature with a left one.
pub vector_set_op-In :
    (m : Option VectorMatching) (lhs rhs : Vector) (s : VectorSample)
    → (In s (vector_set_op t_land m lhs rhs) ↔ (In s lhs × Shares m s rhs))
      × (In s (vector_set_op t_lunless m lhs rhs) ↔ (In s lhs × ¬ Shares m s rhs))
      × (In s (vector_set_op t_lor m lhs rhs) ↔ (In s lhs ⊎ (In s rhs × ¬ Shares m s lhs)))
unfolding vector_set_op
vector_set_op-In m lhs rhs s =
    let right = signatures-Shares m s rhs in
    let left = signatures-Shares m s lhs in
    let (and_down, and_up) = select_by-In (λ b. b) m (signatures m rhs) s lhs in
    let (un_down, un_up) = select_by-In not m (signatures m rhs) s lhs in
    let (or_down, or_up) = select_by-In not m (signatures m lhs) s rhs in
    (
      ((λ i. let (a, b) = and_down i in (a, right.0 b)), (λ (a, b). and_up (a, right.1 b))),
      (
        (λ i. let (a, b) = un_down i in (a, not_Shares right b)),
        (λ (a, b). un_up (a, Shares_not right b)),
      ),
      (
        (λ i. elim (In-append s lhs (select_by not m (signatures m lhs) rhs) i) [
          | inl a ↦ inl a
          | inr j ↦ let (a, b) = or_down j in inr (a, not_Shares left b)
        ]),
        (λ i. elim i [
          | inl a ↦ In-append_left s lhs (select_by not m (signatures m lhs) rhs) a
          | inr (a, b) ↦
              In-append_right s lhs (select_by not m (signatures m lhs) rhs)
                (or_up (a, Shares_not left b))
        ]),
      ),
    )
