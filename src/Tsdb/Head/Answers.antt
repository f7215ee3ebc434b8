-- ===== src/Tsdb/Head/Answers.antt =====
-- What `query` of internal/tsdb/head.go answers: the series that the matchers select, cut to the
-- range, whatever the index narrowed.
use omni_metrics.Prelude.{
  ℕ, List, [], ◌∷◌, true, false, some, ◌≡◌, ◌≢◌, ◌↔◌, refl, ap, ◌∙◌, sym, arith, Bool-cases, inl,
  inr, ◌⊎◌, str_lt, if◌then◌else◌, In,
}
use omni_metrics.Prelude.Int.{ℤ, ◌≤ℤ◌}
use omni_metrics.Prelude.Table.{find, nat_eq}
use omni_metrics.Model.Labels.{Labels, to_string}
use omni_metrics.Model.Matcher.{Matcher}
use omni_metrics.Tsdb.Head.{Head, MemSeries, Sample, SeriesResult}
use omni_metrics.Tsdb.Head.Samples.{IsAscending}
use omni_metrics.Tsdb.Head.Ranges.{in_range, any_between, samples_in_range_lem}
use omni_metrics.Tsdb.Head.Query.{
  matches_all, candidates, cons_result, collect, insert_result, sort_results, query,
}
use omni_metrics.Tsdb.Head.Invariant.{IsHead}
use omni_metrics.Tsdb.Head.Candidates.{candidates_complete, candidates_sound}

-- The answer is for a series of the head that the matchers select and that has samples in the range.
pub record IsAnswer (mint maxt : ℤ) (matchers : List Matcher) (h : Head) (r : SeriesResult)
    : Type 0 where
  pub ref : ℕ
  pub series : MemSeries
  pub there : find ref h.series ≡ some series
  pub selected : matches_all series.labels matchers ≡ true
  pub same_labels : r.labels ≡ series.labels
  pub same_samples : r.samples ≡ in_range mint maxt series.samples
  pub some_samples : r.samples ≢ []

any_between_none :
    (mint maxt : ℤ) (ss : List Sample) → mint ≤ℤ maxt → any_between maxt mint ss ≡ false
unfolding any_between
any_between_none mint maxt [] h = refl
any_between_none mint maxt (s ∷ ss) h = ground (arith, any_between_none mint maxt ss)

-- The loop of `query`, with the range as a filter.
abbrev with_result : Labels → List Sample → List SeriesResult → List SeriesResult
with_result l [] rest = rest
with_result l (s ∷ ss) rest = record { labels = l; samples = s ∷ ss } ∷ rest

results : ℤ → ℤ → List Matcher → List MemSeries → List SeriesResult
results mint maxt matchers [] = []
results mint maxt matchers (ms ∷ rest) =
    let more = results mint maxt matchers rest in
    if matches_all ms.labels matchers
    then with_result ms.labels (in_range mint maxt ms.samples) more
    else more

module _ (mint maxt : ℤ) (order : mint ≤ℤ maxt) (matchers : List Matcher) where
  cons_result_lem :
      (l : Labels) (ss : List Sample) (rs : List SeriesResult)
      → cons_result l ss (some rs) ≡ some (with_result l ss rs)
  cons_result_lem l [] rs = refl
  cons_result_lem l (s ∷ ss) rs = refl

  collect_lem :
      (cs : List MemSeries)
      → ((ms : MemSeries) → In ms cs → IsAscending ms.samples)
      → collect mint maxt matchers cs ≡ some (results mint maxt matchers cs)
  unfolding collect results
  collect_lem [] h = refl
  collect_lem (ms ∷ rest) h = ground (
    arith,
    collect_lem rest (λ ns i. h ns (inr i)),
    samples_in_range_lem mint maxt ms.samples (h ms (inl refl)),
    any_between_none mint maxt ms.samples order,
    cons_result_lem ms.labels (in_range mint maxt ms.samples) (results mint maxt matchers rest),
  )

  -- The series that a result is for.
  record IsResult (ms : MemSeries) (r : SeriesResult) : Type 0 where
    selected : matches_all ms.labels matchers ≡ true
    same_labels : r.labels ≡ ms.labels
    same_samples : r.samples ≡ in_range mint maxt ms.samples
    some_samples : r.samples ≢ []

  with_result_sound :
      (ms : MemSeries) (ss : List Sample) (rest : List SeriesResult) (r : SeriesResult)
      → ss ≡ in_range mint maxt ms.samples
      → matches_all ms.labels matchers ≡ true
      → In r (with_result ms.labels ss rest)
      → IsResult ms r ⊎ In r rest
  with_result_sound ms [] rest r e sel i = inr i
  with_result_sound ms (s ∷ ss) rest r e sel (inl p) = inl (record {
    selected = sel;
    same_labels = ap (λ (q : SeriesResult). q.labels) p;
    same_samples = ap (λ (q : SeriesResult). q.samples) p ∙ e;
    some_samples = λ n. cc (ap (λ (q : SeriesResult). q.samples) p, n);
  })
  with_result_sound ms (s ∷ ss) rest r e sel (inr i) = inr i

  results_sound :
      (cs : List MemSeries) (r : SeriesResult)
      → In r (results mint maxt matchers cs)
      → (ms : MemSeries) × In ms cs × IsResult ms r
  unfolding results
  results_sound [] r i = absurd i
  results_sound (ms ∷ rest) r i = elim (Bool-cases (matches_all ms.labels matchers)) [
    | inl e ↦ elim (with_result_sound ms _ _ r refl e (rw e at i)) [
      | inl good ↦ (ms, inl refl, good)
      | inr j ↦ let (ns, k, good) = results_sound rest r j in (ns, inr k, good)
    ]
    | inr e ↦ let (ns, k, good) = results_sound rest r (rw e at i) in (ns, inr k, good)
  ]

  with_result_complete :
      (l : Labels) (ss : List Sample) (rest : List SeriesResult) (r : SeriesResult)
      → r.labels ≡ l
      → r.samples ≡ ss
      → r.samples ≢ []
      → In r (with_result l ss rest)
  with_result_complete l [] rest r e f n = absurd (n f)
  with_result_complete l (s ∷ ss) rest r e f n = inl (ground arith)

  with_result_keeps :
      (l : Labels) (ss : List Sample) (rest : List SeriesResult) (r : SeriesResult)
      → In r rest
      → In r (with_result l ss rest)
  with_result_keeps l [] rest r i = i
  with_result_keeps l (s ∷ ss) rest r i = inr i

  results_complete :
      (cs : List MemSeries) (r : SeriesResult) (ms : MemSeries)
      → In ms cs
      → IsResult ms r
      → In r (results mint maxt matchers cs)
  unfolding results
  results_complete [] r ms i good = absurd i
  results_complete (ns ∷ rest) r ms (inl p) good =
      rw (ap (λ (q : MemSeries). matches_all q.labels matchers) (sym p) ∙ good.selected) (
        with_result_complete ns.labels _ _ r (good.same_labels ∙ ap (λ (q : MemSeries). q.labels) p)
          (good.same_samples ∙ ap (λ (q : MemSeries). in_range mint maxt q.samples) p)
          good.some_samples)
  results_complete (ns ∷ rest) r ms (inr i) good =
      elim (Bool-cases (matches_all ns.labels matchers)) [
        | inl e ↦ rw e (with_result_keeps ns.labels _ _ r (results_complete rest r ms i good))
        | inr e ↦ rw e (results_complete rest r ms i good)
      ]

insert_result-In :
    (q r : SeriesResult) (rs : List SeriesResult) → In r (insert_result q rs) ↔ In r (q ∷ rs)
unfolding insert_result
insert_result-In q r [] = (λ i. i, λ i. i)
insert_result-In q r (p ∷ rs) =
    elim (Bool-cases (str_lt (to_string p.labels) (to_string q.labels))) [
      | inr e ↦ rw e (λ i. i, λ i. i)
      | inl e ↦ rw e (
        λ i. elim i [
          | inl a ↦ inr (inl a)
          | inr b ↦ elim ((insert_result-In q r rs).0 b) [ inl c ↦ inl c | inr d ↦ inr (inr d) ]
        ],
        λ i. elim i [
          | inl a ↦ inr ((insert_result-In q r rs).1 (inl a))
          | inr (inl b) ↦ inl b
          | inr (inr d) ↦ inr ((insert_result-In q r rs).1 (inr d))
        ],
      )
    ]

sort_results-In : (r : SeriesResult) (rs : List SeriesResult) → In r (sort_results rs) ↔ In r rs
unfolding sort_results
sort_results-In r [] = (λ i. i, λ i. i)
sort_results-In r (q ∷ rs) = (
  (λ i. elim ((insert_result-In q r (sort_results rs)).0 i) [
    | inl a ↦ inl a
    | inr b ↦ inr ((sort_results-In r rs).0 b)
  ]),
  (λ i. elim i [
    | inl a ↦ (insert_result-In q r (sort_results rs)).1 (inl a)
    | inr b ↦ (insert_result-In q r (sort_results rs)).1 (inr ((sort_results-In r rs).1 b))
  ]),
)

-- For a range whose start is not after its end, `query` does not panic, and its results are exactly
-- the series of the head that all matchers select and that have samples in the closed range, each
-- with those samples: the postings narrow the search and lose nothing.
pub query_answers :
    (mint maxt : ℤ) (matchers : List Matcher) (h : Head)
    → IsHead h
    → mint ≤ℤ maxt
    → (rs : List SeriesResult) × (query mint maxt matchers h ≡ some rs)
      × ((r : SeriesResult) → In r rs ↔ IsAnswer mint maxt matchers h r)
unfolding query
query_answers mint maxt matchers h v order = (
  sort_results found,
  answer,
  λ r. (
    (λ i.
        let (ms, j, good) =
          results_sound mint maxt order matchers cs r ((sort_results-In r found).0 i) in
        let (ref, there) = candidates_sound h v matchers ms j in
        record {
          ref = ref;
          series = ms;
          there = there;
          selected = good.selected;
          same_labels = good.same_labels;
          same_samples = good.same_samples;
          some_samples = good.some_samples;
        }),
    (λ a. (sort_results-In r found).1 (
        results_complete mint maxt order matchers cs r a.series
          (candidates_complete h v a.ref a.series a.there matchers a.selected)
          (record {
            selected = a.selected;
            same_labels = a.same_labels;
            same_samples = a.same_samples;
            some_samples = a.some_samples;
          }))),
  ),
)
  where
    cs : List MemSeries
    cs = candidates h matchers

    found : List SeriesResult
    found = results mint maxt matchers cs

    ascending : (ms : MemSeries) → In ms cs → IsAscending ms.samples
    ascending ms i = let (r, there) = candidates_sound h v matchers ms i in v.ascending r ms there

    answer : query mint maxt matchers h ≡ some (sort_results found)
    answer = rw (collect_lem mint maxt order matchers cs ascending, query)
