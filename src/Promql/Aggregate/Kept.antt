-- ===== src/Promql/Aggregate/Kept.antt =====
-- internal/promql/funcs.go: groupLabels, the labels of a group.
use omni_metrics.Prelude.{
  List, [], ◌∷◌, Bool, true, false, not, ◌||◌, Str, str_eq, str_eq_iff, ◌≡◌, ◌≢◌, ◌↔◌, refl, sym,
  ap, ◌∙◌, arith, Bool-cases, inl, inr, In,
}
use omni_metrics.Model.Labels.{Label, Labels, metric_name}
use omni_metrics.Promql.Signature.{in_set, keep_labels, group_labels}

-- The labels that a group has of a sample's: by a list of names those with a name among them, and
-- without a list those with another name than these and than the metric's.
abbrev pub Kept : List Str → Bool → Labels → Label → Type 0
Kept names false ls l = In l ls × In l.name names
Kept names true ls l = In l ls × ¬ In l.name names × (l.name ≢ metric_name)

pub in_set-In : (n : Str) (names : List Str) → (in_set names n ≡ true) ↔ In n names
unfolding in_set
in_set-In n [] = (λ e. absurd (cc), λ i. absurd i)
in_set-In n (m ∷ names) =
    let (down, up) = in_set-In n names in
    let (eq_down, eq_up) = str_eq_iff m n in
    (
      (λ e. elim (Bool-cases (str_eq m n)) [
        | inl p ↦ inl (sym (eq_down p))
        | inr p ↦ inr (down (ground arith))
      ]),
      (λ i. elim i [
        | inl p ↦ let q = eq_up (sym p) in ground arith
        | inr j ↦ let q = up j in ground arith
      ]),
    )

pub keep_labels-In :
    (p : Label → Bool) (ls : Labels) (l : Label)
    → In l (keep_labels p ls) ↔ (In l ls × (p l ≡ true))
unfolding keep_labels
keep_labels-In p [] l = (λ i. absurd i, λ (i, e). absurd i)
keep_labels-In p (q ∷ ls) l =
    let (down, up) = keep_labels-In p ls l in
    elim (Bool-cases (p q)) [
      | inl t ↦
          rw (t, keep_labels)
            (
              (λ i. elim i [
                | inl e ↦ (inl e, ap p e ∙ t)
                | inr j ↦ let (a, b) = down j in (inr a, b)
              ]),
              (λ (i, b). elim i [ inl e ↦ inl e | inr j ↦ inr (up (j, b)) ]),
            )
      | inr t ↦
          rw (t, keep_labels)
            (
              (λ i. let (a, b) = down i in (inr a, b)),
              (λ (i, b). elim i [
                | inl e ↦ absurd (let u = sym t ∙ sym (ap p e) ∙ b in cc)
                | inr j ↦ up (j, b)
              ]),
            )
    ]

pub group_labels-Kept :
    (names : List Str) (without : Bool) (ls : Labels) (l : Label)
    → In l (group_labels names without ls) ↔ Kept names without ls l
unfolding group_labels
group_labels-Kept names false ls l =
    let (down, up) = keep_labels-In (λ l. in_set names l.name) ls l in
    let (set_down, set_up) = in_set-In l.name names in
    ((λ i. let (a, b) = down i in (a, set_down b)), (λ (a, b). up (a, set_up b)))
group_labels-Kept names true ls l =
    let (down, up) =
      keep_labels-In (λ l. not (in_set names l.name || str_eq l.name metric_name)) ls l in
    let (set_down, set_up) = in_set-In l.name names in
    let (eq_down, eq_up) = str_eq_iff l.name metric_name in
    (
      (λ i.
          let (a, b) = down i in
          (a, (λ j. let q = set_up j in ground arith), (λ e. let q = eq_up e in ground arith))),
      (λ (a, n, m). up (
        a,
        elim (Bool-cases (in_set names l.name)) [
          | inl e ↦ absurd (n (set_down e))
          | inr e ↦ elim (Bool-cases (str_eq l.name metric_name)) [
            | inl d ↦ absurd (m (eq_down d))
            | inr d ↦ rw (e, d) refl
          ]
        ],
      )),
    )
