-- ===== src/Tsdb/Head/Candidates.antt =====
-- `candidatesLocked` of internal/tsdb/head.go: narrowing by the shortest postings list loses no
-- series that the matchers select.
use omni_metrics.Prelude.{
  ℕ, List, [], ◌∷◌, map, true, false, Option, none, some, ◌≡◌, refl, ap, ◌∙◌, arith, Bool-cases,
  Option-cases, inl, inr, ltb, ◌==◌, ==_iff, length, Str, str_eq_iff, In,
}
use omni_metrics.Prelude.Table.{Table, find, nat_eq, string_eq, find-In, In-find}
use omni_metrics.Model.Labels.{Labels, get}
use omni_metrics.Model.Matcher.{Matcher, matches}
use omni_metrics.Tsdb.Head.{Head, MemSeries, or_nil, mem_ref}
use omni_metrics.Tsdb.Head.Removal.{is_empty}
use omni_metrics.Tsdb.Head.Query.{
  matches_all, usable, shorter, best_postings, cons_some, lookup_all, candidates,
}
use omni_metrics.Tsdb.Head.Index.{posted, carries, series_carries}
use omni_metrics.Tsdb.Head.Invariant.{IsHead}

get-carries : (n v : Str) (ls : Labels) → get ls n ≡ v → is_empty v ≡ false → carries n v ls ≡ true
unfolding get carries
get-carries n v [] e h = cc (rw (← e) at h)
get-carries n v (l ∷ ls) e h = ground (arith, get-carries n v ls, str_eq_iff l.value v)

usable-matches :
    (m : Matcher) (ls : Labels)
    → usable m ≡ true
    → matches m (get ls m.name) ≡ true
    → carries m.name m.value ls ≡ true
unfolding matches
usable-matches m ls u e =
    get-carries m.name m.value ls (ground (arith, str_eq_iff (get ls m.name) m.value))
      (ground arith)

module _ (h : Head) (v : IsHead h) (ref : ℕ) (ms : MemSeries)
    (there : find ref h.series ≡ some ms) where
  in_postings :
      (n w : Str) → carries n w ms.labels ≡ true → mem_ref ref (posted n w h.postings) ≡ true
  unfolding series_carries
  in_postings n w c = v.exact n w ref ∙ rw there c

  abbrev Holds : Option (List ℕ) → Type 0
  Holds none = Unit
  Holds (some best) = mem_ref ref best ≡ true

  shorter-Holds :
      (refs : List ℕ) (best : Option (List ℕ))
      → mem_ref ref refs ≡ true
      → Holds best
      → Holds (shorter refs best)
  shorter-Holds refs none a b = a
  shorter-Holds refs (some best) a b = elim (Bool-cases (ltb (length refs) (length best))) [
    | inl e ↦ rw e a
    | inr e ↦ rw e b
  ]

  best-Holds :
      (matchers : List Matcher) (best : Option (List ℕ))
      → matches_all ms.labels matchers ≡ true
      → Holds best
      → Holds (best_postings h best matchers)
  unfolding matches_all best_postings posted
  best-Holds [] best a b = b
  best-Holds (m ∷ rest) best a b = elim (Bool-cases (usable m)) [
    | inl u ↦
        let here = in_postings m.name m.value (usable-matches m ms.labels u (ground arith)) in
        rw (u, best_postings)
          (best-Holds rest (shorter (or_nil (find m.value (or_nil (find m.name h.postings)))) best)
            (ground arith) (shorter-Holds _ best here b))
    | inr u ↦ rw (u, best_postings) (best-Holds rest best (ground arith) b)
  ]

  lookup_all-In : (best : List ℕ) → mem_ref ref best ≡ true → In ms (lookup_all h.series best)
  unfolding lookup_all mem_ref
  lookup_all-In [] e = absurd (cc)
  lookup_all-In (r ∷ rs) e = elim (Bool-cases (r == ref)) [
    | inl f ↦ rw ((==_iff r ref).0 f) (rw there (inl refl))
    | inr f ↦ keep (find r h.series) (lookup_all-In rs (ground arith))
  ]
    where
      keep :
          (o : Option MemSeries)
          → In ms (lookup_all h.series rs)
          → In ms (cons_some o (lookup_all h.series rs))
      keep none i = i
      keep (some ns) i = inr i

  In-values : (t : Table ℕ MemSeries) → In (ref, ms) t → In ms (map (λ e. e.1) t)
  In-values [] i = i
  In-values (e ∷ t) (inl p) = inl (ap (λ q. q.1) p)
  In-values (e ∷ t) (inr i) = inr (In-values t i)

  -- A series that the matchers select is among the candidates.
  pub candidates_complete :
      (matchers : List Matcher)
      → matches_all ms.labels matchers ≡ true
      → In ms (candidates h matchers)
  unfolding candidates
  candidates_complete matchers e = elim (Option-cases (best_postings h none matchers)) [
    | inl f ↦ rw (f, candidates) (In-values h.series (find-In ref ms h.series there))
    | inr (best, f) ↦
        let good = best-Holds matchers none e tt in
        rw (f, candidates) (lookup_all-In best (rw f at good))
  ]

module _ (h : Head) (v : IsHead h) where
  lookup_all_sound :
      (best : List ℕ) (ms : MemSeries)
      → In ms (lookup_all h.series best)
      → (r : ℕ) × (find r h.series ≡ some ms)
  unfolding lookup_all
  lookup_all_sound [] ms i = absurd i
  lookup_all_sound (r ∷ rs) ms i = elim (Option-cases (find r h.series)) [
    | inl e ↦ lookup_all_sound rs ms (rw e at i)
    | inr (ns, e) ↦ elim (rw e at i) as (λ q. (r : ℕ) × (find r h.series ≡ some ms)) [
      | inl p ↦ (r, rw p e)
      | inr j ↦ lookup_all_sound rs ms j
    ]
  ]

  values_sound :
      (t : Table ℕ MemSeries) (ms : MemSeries) → In ms (map (λ e. e.1) t) → (r : ℕ) × In (r, ms) t
  values_sound [] ms i = absurd i
  values_sound ((r, ns) ∷ t) ms (inl p) = (r, inl (ap (λ q. (r, q)) p))
  values_sound ((r, ns) ∷ t) ms (inr i) = let (q, j) = values_sound t ms i in (q, inr j)

  -- Every candidate is a series of the head.
  pub candidates_sound :
      (matchers : List Matcher) (ms : MemSeries)
      → In ms (candidates h matchers)
      → (r : ℕ) × (find r h.series ≡ some ms)
  unfolding candidates
  candidates_sound matchers ms i = elim (Option-cases (best_postings h none matchers)) [
    | inl f ↦
        let (r, j) = values_sound h.series ms (rw (candidates, f) at i) in
        (r, In-find r ms h.series v.table j)
    | inr (best, f) ↦ lookup_all_sound best ms (rw (candidates, f) at i)
  ]
