-- ===== src/Promql/Engine/Selectors.antt =====
-- internal/promql/engine.go over internal/tsdb/head.go: what selectors read from a head.
use omni_metrics.Prelude.{
  ℕ, List, [], ◌∷◌, ◌++◌, true, Option, none, some, ◌≡◌, ◌↔◌, refl, sym, ap, ◌∙◌, ◌⊎◌, inl, inr, In,
  Option-cases, Bool-cases,
}
use mathlib.Core.Path.{subst}
use omni_metrics.Prelude.Int.{ℤ, ◌≤ℤ◌}
use omni_metrics.Prelude.Int64.{sub_int64}
use omni_metrics.Prelude.Table.{find, nat_eq}
use omni_metrics.Model.Labels.{Labels}
use omni_metrics.Model.Matcher.{Matcher}
use omni_metrics.Tsdb.Head.{Head, MemSeries, Sample, SeriesResult}
use omni_metrics.Tsdb.Head.Samples.{IsAscending}
use omni_metrics.Tsdb.Head.Ranges.{any_between, samples_in_range_lem}
use omni_metrics.Tsdb.Head.Query.{
  query, collect, candidates, matches_all, cons_result, samples_in_range,
}
use omni_metrics.Tsdb.Head.Candidates.{candidates_complete, candidates_sound}
use omni_metrics.Tsdb.Head.Invariant.{IsHead}
use omni_metrics.Tsdb.Head.Answers.{IsAnswer, query_answers}
use omni_metrics.Promql.Ast.{VectorSelector, AtModifier}
use omni_metrics.Promql.Value.{VectorSample, Vector, Runtime, ok, panicked}
use omni_metrics.Promql.Binary.Partners.{cons_if-In}
use omni_metrics.Promql.Engine.{
  Select, Evaluator, select_instant, select_range, resolve_time, instant_samples, last_sample,
}

-- The querier of the engine: the head's `query`.
abbrev pub head_select : Head → Select
head_select h = λ mint maxt ms. query mint maxt ms h

-- A sample of an instant vector is the last one of a result, under the labels of its series.
abbrev pub IsLast : VectorSample → SeriesResult → Type 0
IsLast s r =
    (s.metric ≡ r.labels)
    × ((before : List Sample) × (r.samples ≡ before ++ (record { t = s.t; v = s.v } ∷ [])))

-- A sample that was found before stands for a result with none.
last_sample_found :
    (labels : Labels) (found : Option VectorSample) (ss : List Sample) (s : VectorSample)
    → last_sample labels found ss ≡ some s
    → ((ss ≡ []) × (found ≡ some s))
      ⊎ ((s.metric ≡ labels)
          × ((before : List Sample) × (ss ≡ before ++ (record { t = s.t; v = s.v } ∷ []))))
unfolding last_sample
last_sample_found labels found [] s e = inl (refl, e)
last_sample_found labels found (x ∷ ss) s e =
    elim (last_sample_found labels (some (record { metric = labels; t = x.t; v = x.v })) ss s e) [
      | inl (n, h) ↦
          let same : record { metric = labels; t = x.t; v = x.v } ≡ s = cc in
          inr (
            ap (λ (z : VectorSample). z.metric) (sym same),
            ([], rw n (ap (λ (z : VectorSample). record { t = z.t; v = z.v } ∷ []) same)),
          )
      | inr (m, (before, h)) ↦ inr (m, (x ∷ before, ap (λ q. x ∷ q) h))
    ]

last_sample-append :
    (labels : Labels) (found : Option VectorSample) (before : List Sample) (x : Sample)
    → last_sample labels found (before ++ (x ∷ []))
      ≡ some (record { metric = labels; t = x.t; v = x.v })
unfolding last_sample
last_sample-append labels found [] x = refl
last_sample-append labels found (y ∷ before) x =
    last_sample-append labels (some (record { metric = labels; t = y.t; v = y.v })) before x

last_sample-IsLast :
    (s : VectorSample) (r : SeriesResult)
    → (last_sample r.labels none r.samples ≡ some s) ↔ IsLast s r
last_sample-IsLast s r = (
  (λ e. elim (last_sample_found r.labels none r.samples s e) [
    | inl (n, h) ↦ absurd (cc)
    | inr h ↦ h
  ]),
  (λ (m, (before, h)).
      ap (last_sample r.labels none) h
      ∙ last_sample-append r.labels none before (record { t = s.t; v = s.v })
      ∙ ap (λ l. some (record s { metric = l })) (sym m)),
)

instant_samples-In :
    (s : VectorSample) (rs : List SeriesResult)
    → In s (instant_samples rs)
      ↔ ((r : SeriesResult) × In r rs × (last_sample r.labels none r.samples ≡ some s))
unfolding instant_samples
instant_samples-In s [] = (λ i. absurd i, λ (r, i, e). absurd i)
instant_samples-In s (q ∷ rs) = (
  (λ i. elim ((cons_if-In s (last_sample q.labels none q.samples) (instant_samples rs)).0 i) [
    | inl e ↦ (q, inl refl, e)
    | inr j ↦ let (r, k, e) = (instant_samples-In s rs).0 j in (r, inr k, e)
  ]),
  (λ (r, i, e).
      (cons_if-In s (last_sample q.labels none q.samples) (instant_samples rs)).1 (elim i [
        | inl p ↦ inl (ap (λ (z : SeriesResult). last_sample z.labels none z.samples) (sym p) ∙ e)
        | inr j ↦ inr ((instant_samples-In s rs).1 (r, j, e))
      ])),
)

cons_result-none : (l : Labels) (ss : List Sample) → cons_result l ss none ≡ none
cons_result-none l [] = refl
cons_result-none l (s ∷ ss) = refl

-- A series that the matchers select, with a sample between an end and a later start, makes the
-- loop of `query` panic.
collect_panics :
    (mint maxt : ℤ) (matchers : List Matcher) (cs : List MemSeries) (ms : MemSeries)
    → ((c : MemSeries) → In c cs → IsAscending c.samples)
    → In ms cs
    → matches_all ms.labels matchers ≡ true
    → any_between maxt mint ms.samples ≡ true
    → collect mint maxt matchers cs ≡ none
unfolding collect
collect_panics mint maxt matchers [] ms order i m b = absurd i
collect_panics mint maxt matchers (c ∷ cs) ms order (inl e) m b =
    let m' = subst (λ (z : MemSeries). matches_all z.labels matchers ≡ true) e m in
    let b' = subst (λ (z : MemSeries). any_between maxt mint z.samples ≡ true) e b in
    let slice = samples_in_range_lem mint maxt c.samples (order c (inl refl)) in
    rw m' (rw slice (rw b' refl))
collect_panics mint maxt matchers (c ∷ cs) ms order (inr i) m b =
    let rest = collect_panics mint maxt matchers cs ms (λ d j. order d (inr j)) i m b in
    elim (Bool-cases (matches_all c.labels matchers)) [
      | inl p ↦ elim (Option-cases (samples_in_range c.samples mint maxt)) [
        | inl n ↦ rw p (rw n refl)
        | inr (ss, n) ↦ rw p (rw n (rw (rest, collect) (cons_result-none c.labels ss)))
      ]
      | inr p ↦ rw p rest
    ]

module _ (f : Runtime) (h : Head) (lookback start end : ℤ) where
  abbrev pub over_head : Evaluator
  over_head = record {
    select = head_select h;
    lookback = lookback;
    query_start = start;
    query_end = end;
  }

  -- Over a head that keeps its invariant, an instant selector whose window does not wrap returns, and
  -- its samples are the last ones of the selected series within the lookback window, where there
  -- are any.
  pub select_instant-answers :
      (vs : VectorSelector) (ts : ℤ)
      → let sel = sub_int64 (resolve_time f over_head vs.at ts) vs.offset in
        IsHead h
        → sub_int64 sel lookback ≤ℤ sel
        → (out : Vector) × (select_instant f over_head vs ts ≡ ok out)
          × ((s : VectorSample)
              → In s out ↔ (
                  (r : SeriesResult) × IsAnswer (sub_int64 sel lookback) sel vs.matchers h r
                  × IsLast s r))
  unfolding select_instant
  select_instant-answers vs ts v order =
      let sel = sub_int64 (resolve_time f over_head vs.at ts) vs.offset in
      let (rs, e, answers) = query_answers (sub_int64 sel lookback) sel vs.matchers h v order in
      (
        instant_samples rs,
        rw e refl,
        λ s. (
          (λ i.
              let (r, j, l) = (instant_samples-In s rs).0 i in
              (r, (answers r).0 j, (last_sample-IsLast s r).0 l)),
          (λ (r, a, l).
              (instant_samples-In s rs).1 (r, (answers r).1 a, (last_sample-IsLast s r).1 l)),
        ),
      )

  query_panics :
      (mint maxt : ℤ) (matchers : List Matcher) (ref : ℕ) (ms : MemSeries)
      → IsHead h
      → find ref h.series ≡ some ms
      → matches_all ms.labels matchers ≡ true
      → any_between maxt mint ms.samples ≡ true
      → query mint maxt matchers h ≡ none
  unfolding query
  query_panics mint maxt matchers ref ms v there m b =
      rw
        (
          collect_panics mint maxt matchers (candidates h matchers) ms
              (λ c i. let (r, e) = candidates_sound h v matchers c i in v.ascending r c e)
              (candidates_complete h v ref ms there matchers m) m b,
          query,
        )
        refl

  -- A range selector whose window runs backwards panics over a head that keeps its invariant and has
  -- a selected series with a sample strictly inside.
  pub select_range_panics :
      (vs : VectorSelector) (range offset : ℤ) (at : Option AtModifier) (ts : ℤ) (ref : ℕ)
      (ms : MemSeries)
      → let sel = sub_int64 (resolve_time f over_head at ts) offset in
        IsHead h
        → find ref h.series ≡ some ms
        → matches_all ms.labels vs.matchers ≡ true
        → any_between sel (sub_int64 sel range) ms.samples ≡ true
        → select_range f over_head vs range offset at ts ≡ panicked
  unfolding select_range
  select_range_panics vs range offset at ts ref ms v there m b =
      let sel = sub_int64 (resolve_time f over_head at ts) offset in
      rw (query_panics (sub_int64 sel range) sel vs.matchers ref ms v there m b) refl
