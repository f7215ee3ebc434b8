-- ===== src/Tsdb/Head/Values.antt =====
-- The values of a label over the series that matchers select (internal/tsdb/head.go, labelValues).
use omni_metrics.Prelude.{
  ℕ, List, [], ◌∷◌, true, false, some, ◌≡◌, ◌↔◌, ◌⊎◌, refl, ap, sym, ◌∙◌, Bool-cases, inl, inr, In,
  Str, if◌then◌else◌,
}
use omni_metrics.Prelude.Bytes.{str_eq, str_eq_iff, str_lt}
use omni_metrics.Prelude.Table.{find, nat_eq}
use omni_metrics.Model.Labels.{get}
use omni_metrics.Model.Matcher.{Matcher}
use omni_metrics.Tsdb.Head.{Head, MemSeries}
use omni_metrics.Tsdb.Head.Query.{
  matches_all, add_str, candidates, add_value, values_of, label_values,
}
use omni_metrics.Tsdb.Head.Removal.{is_empty}
use omni_metrics.Tsdb.Head.Invariant.{IsHead}
use omni_metrics.Tsdb.Head.Candidates.{candidates_complete, candidates_sound}

-- A series of the head that the matchers select carries the label with this value.
pub record IsValue (name : Str) (matchers : List Matcher) (h : Head) (s : Str) : Type 0 where
  pub ref : ℕ
  pub series : MemSeries
  pub there : find ref h.series ≡ some series
  pub selected : matches_all series.labels matchers ≡ true
  pub carried : get series.labels name ≡ s

add_str-In : (s x : Str) (set : List Str) → In s (add_str x set) ↔ ((s ≡ x) ⊎ In s set)
unfolding add_str
add_str-In s x [] = (λ i. i, λ i. i)
add_str-In s x (y ∷ ys) = elim (Bool-cases (str_eq y x)) [
  | inl e ↦
      let same = (str_eq_iff y x).0 e in
      rw e ((λ i. inr i), λ i. elim i [ inl a ↦ inl (a ∙ sym same) | inr b ↦ b ])
  | inr e ↦ rw e (elim (Bool-cases (str_lt y x)) [
    | inr f ↦ rw f ((λ i. i), λ i. i)
    | inl f ↦ rw f (
      λ i. elim i [
        | inl a ↦ inr (inl a)
        | inr b ↦ elim ((add_str-In s x ys).0 b) [ inl c ↦ inl c | inr d ↦ inr (inr d) ]
      ],
      λ i. elim i [
        | inl a ↦ inr ((add_str-In s x ys).1 (inl a))
        | inr (inl b) ↦ inl b
        | inr (inr d) ↦ inr ((add_str-In s x ys).1 (inr d))
      ],
    )
  ])
]

module _ (name : Str) (matchers : List Matcher) (s : Str) (real : is_empty s ≡ false) where
  -- Some series in the list is selected and carries the value.
  abbrev Carried : MemSeries → Type 0
  Carried ms = (matches_all ms.labels matchers ≡ true) × (get ms.labels name ≡ s)

  add_value-In : (v : Str) (set : List Str) → In s (add_value v set) ↔ ((s ≡ v) ⊎ In s set)
  unfolding add_value
  add_value-In v set = elim (Bool-cases (is_empty v)) [
    | inr e ↦ rw e (add_str-In s v set)
    | inl e ↦
        rw e
          ((λ i. inr i), λ i. elim i [ inl a ↦ absurd (cc (ap is_empty a, e, real)) | inr b ↦ b ])
  ]

  round-In :
      (c : MemSeries) (set : List Str)
      → In s (if matches_all c.labels matchers then add_value (get c.labels name) set else set)
        ↔ (Carried c ⊎ In s set)
  round-In c set = elim (Bool-cases (matches_all c.labels matchers)) [
    | inr e ↦ rw e ((λ i. inr i), λ i. elim i [ inl (m, k) ↦ absurd (cc) | inr b ↦ b ])
    | inl e ↦ rw e (
      λ i. elim ((add_value-In (get c.labels name) set).0 i) [
        | inl a ↦ inl (refl, sym a)
        | inr b ↦ inr b
      ],
      λ i.
          (add_value-In (get c.labels name) set).1
            (elim i [ inl (m, k) ↦ inl (sym k) | inr b ↦ inr b ]),
    )
  ]

  values_of-In :
      (cs : List MemSeries) (set : List Str)
      → In s (values_of name matchers cs set)
        ↔ (((ms : MemSeries) × In ms cs × Carried ms) ⊎ In s set)
  unfolding values_of
  values_of-In [] set = ((λ i. inr i), λ i. elim i [ inl (ms, n, c) ↦ absurd n | inr b ↦ b ])
  values_of-In (c ∷ cs) set =
      let set' = if matches_all c.labels matchers then add_value (get c.labels name) set else set in
      (
        λ i. elim ((values_of-In cs set').0 i) [
          | inl (ms, there, good) ↦ inl (ms, inr there, good)
          | inr b ↦ elim ((round-In c set).0 b) [
            | inl good ↦ inl (c, inl refl, good)
            | inr d ↦ inr d
          ]
        ],
        λ i. (values_of-In cs set').1 (elim i [
          | inl (ms, inl same, (m, k)) ↦ inr ((round-In c set).1 (inl (rw same at m, rw same at k)))
          | inl (ms, inr there, good) ↦ inl (ms, there, good)
          | inr b ↦ inr ((round-In c set).1 (inr b))
        ]),
      )

-- On a head that keeps the invariant, the values of a label over the series that the matchers select
-- contain a string that is not empty exactly if some series of the head that they select carries the
-- label with it.
pub label_values_answers :
    (name : Str) (matchers : List Matcher) (h : Head) (s : Str)
    → IsHead h
    → is_empty s ≡ false
    → In s (label_values name matchers h) ↔ IsValue name matchers h s
unfolding label_values
label_values_answers name matchers h s v real = (
  (λ i. elim ((values_of-In name matchers s real (candidates h matchers) []).0 i) [
    | inl (ms, there, (m, k)) ↦
        let (r, at) = candidates_sound h v matchers ms there in
        record { ref = r; series = ms; there = at; selected = m; carried = k }
    | inr n ↦ absurd n
  ]),
  (λ a. (values_of-In name matchers s real (candidates h matchers) []).1 (
      inl (
        a.series,
        candidates_complete h v a.ref a.series a.there matchers a.selected,
        (a.selected, a.carried),
      ))),
)
