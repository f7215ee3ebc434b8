-- ===== src/Promql/Binary/Partners.antt =====
-- internal/promql/funcs.go, vectorVectorOp: partners of samples, which an index of signatures finds.
use omni_metrics.Prelude.{
  [], ◌∷◌, ◌++◌, false, Option, none, some, ◌≡◌, ◌≢◌, ◌↔◌, refl, sym, ap, ◌∙◌, ◌⊎◌, inl, inr, In,
  All, Option-cases, Bool-cases, Str, str_eq, str_eq_iff,
}
use omni_metrics.Prelude.Table.{Table, find, put, find-put, string_eq}
use omni_metrics.Promql.Ast.{VectorMatching}
use omni_metrics.Promql.Value.{VectorSample, Vector}
use omni_metrics.Promql.Signature.{match_signature}
use omni_metrics.Promql.Binary.{cons_if, index_from, join}

abbrev pub sig : Option VectorMatching → VectorSample → Str
sig m s = match_signature m false s.metric

-- The last sample of a vector with a signature.
abbrev pub IsLastWith : Option VectorMatching → Str → VectorSample → Vector → Type 0
IsLastWith m k r v =
    (before : Vector) × (after : Vector) × (v ≡ before ++ (r ∷ after))
    × (match_signature m false r.metric ≡ k)
    × All (λ q. match_signature m false q.metric ≢ k) after

pub index_from_sound :
    (m : Option VectorMatching) (k : Str) (v : Vector) (table : Table Str VectorSample)
    (r : VectorSample)
    → find k (index_from m v table) ≡ some r
    → IsLastWith m k r v
      ⊎ ((find k table ≡ some r) × All (λ q. match_signature m false q.metric ≢ k) v)
unfolding index_from
index_from_sound m k [] table r h = inr (h, tt)
index_from_sound m k (q ∷ v) table r h =
    elim (index_from_sound m k v (put (match_signature m false q.metric) q table) r h) [
      | inl (before, after, e, g, a) ↦ inl (q ∷ before, after, ap (λ x. q ∷ x) e, g, a)
      | inr (e, a) ↦ elim (Bool-cases (str_eq (sig m q) k)) [
        | inl p ↦
            let found : some q ≡ some r = sym (rw p at (find-put (sig m q) k q table)) ∙ e in
            let same : q ≡ r = cc in
            inl
              ([], v, ap (λ x. x ∷ v) same, ap (sig m) (sym same) ∙ (str_eq_iff (sig m q) k).0 p, a)
        | inr p ↦ inr (
          sym (rw p at (find-put (sig m q) k q table)) ∙ e,
          ((λ x. let y = (str_eq_iff (sig m q) k).1 x in cc), a),
        )
      ]
    ]

index_from_absent :
    (m : Option VectorMatching) (k : Str) (v : Vector) (table : Table Str VectorSample)
    → All (λ q. match_signature m false q.metric ≢ k) v
    → find k (index_from m v table) ≡ find k table
unfolding index_from
index_from_absent m k [] table h = refl
index_from_absent m k (q ∷ v) table (n, h) =
    index_from_absent m k v (put (match_signature m false q.metric) q table) h
    ∙ elim (Bool-cases (str_eq (sig m q) k)) [
      | inl p ↦ absurd (n ((str_eq_iff (sig m q) k).0 p))
      | inr p ↦ rw p at (find-put (sig m q) k q table)
    ]

pub index_from_complete :
    (m : Option VectorMatching) (k : Str) (before after : Vector) (r : VectorSample)
    (table : Table Str VectorSample)
    → match_signature m false r.metric ≡ k
    → All (λ q. match_signature m false q.metric ≢ k) after
    → find k (index_from m (before ++ (r ∷ after)) table) ≡ some r
unfolding index_from
index_from_complete m k [] after r table e h =
    index_from_absent m k after (put (match_signature m false r.metric) r table) h
    ∙ rw ((str_eq_iff (sig m r) k).1 e) at (find-put (sig m r) k r table)
index_from_complete m k (q ∷ before) after r table e h =
    index_from_complete m k before after r (put (match_signature m false q.metric) q table) e h

pub cons_if-In :
    (s : VectorSample) (o : Option VectorSample) (v : Vector)
    → In s (cons_if o v) ↔ ((o ≡ some s) ⊎ In s v)
cons_if-In s none v = (λ i. inr i, λ i. elim i [ inl e ↦ absurd (cc) | inr j ↦ j ])
cons_if-In s (some x) v = (
  λ i. elim i [ inl e ↦ inl (ap some (sym e)) | inr j ↦ inr j ],
  λ i. elim i [ inl e ↦ inl (cc) | inr j ↦ inr j ],
)

module _ (pair : VectorSample → VectorSample → Option VectorSample) (m : Option VectorMatching)
    (table : Table Str VectorSample) where
  pub join_sound :
      (v : Vector) (s : VectorSample)
      → In s (join pair m table v)
      → (l : VectorSample) × (r : VectorSample) × In l v
        × (find (sig m l) table ≡ some r)
        × (pair l r ≡ some s)
  unfolding join
  join_sound [] s i = absurd i
  join_sound (q ∷ v) s i = elim (Option-cases (find (sig m q) table)) [
    | inl n ↦ let (l, r, j, e, h) = join_sound v s (rw (n, join) at i) in (l, r, inr j, e, h)
    | inr (p, n) ↦ elim ((cons_if-In s (pair q p) (join pair m table v)).0 (rw (n, join) at i)) [
      | inl e ↦ (q, p, inl refl, n, e)
      | inr j' ↦ let (l, r, j, e, h) = join_sound v s j' in (l, r, inr j, e, h)
    ]
  ]

  pub join_complete :
      (v : Vector) (l r s : VectorSample)
      → In l v
      → find (sig m l) table ≡ some r
      → pair l r ≡ some s
      → In s (join pair m table v)
  unfolding join
  join_complete [] l r s i e h = absurd i
  join_complete (q ∷ v) l r s (inl p) e h =
      let found : find (sig m q) table ≡ some r = ap (λ z. find (sig m z) table) (sym p) ∙ e in
      rw (found, join)
        ((cons_if-In s (pair q r) (join pair m table v)).1 (inl (ap (λ z. pair z r) (sym p) ∙ h)))
  join_complete (q ∷ v) l r s (inr j) e h =
      let rest = join_complete v l r s j e h in
      elim (Option-cases (find (sig m q) table)) [
        | inl n ↦ rw (n, join) rest
        | inr (p, n) ↦ rw (n, join) ((cons_if-In s (pair q p) (join pair m table v)).1 (inr rest))
      ]
