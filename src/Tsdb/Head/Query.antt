-- ===== src/Tsdb/Head/Query.antt =====
-- internal/tsdb/head.go: reading the head: `query`, `labelNames`, `labelValues`.
use omni_metrics.Prelude.{
  ℕ, List, [], ◌∷◌, map, Bool, true, false, ◌&&◌, not, Option, none, some, ltb, length, take, drop,
  Str, str_eq, str_lt, if◌then◌else◌,
}
use omni_metrics.Prelude.Int.{ℤ, ltb_ℤ, leb_ℤ}
use omni_metrics.Prelude.Table.{Table, find, nat_eq, string_eq}
use omni_metrics.Model.Labels.{Labels, get, to_string}
use omni_metrics.Model.Matcher.{Matcher, MatchType, match_equal, matches}
use omni_metrics.Tsdb.Head.{Head, MemSeries, Sample, SeriesResult, or_nil, search}
use omni_metrics.Tsdb.Head.Removal.{is_empty}

unfoldable pub matches_all : Labels → List Matcher → Bool
matches_all l [] = true
matches_all l (m ∷ ms) = matches m (get l m.name) && matches_all l ms

-- `samples[lo:hi]`; `none` is the panic where `hi` is below `lo`.
unfoldable pub samples_in_range : List Sample → ℤ → ℤ → Option (List Sample)
samples_in_range ss mint maxt =
    let lo = search (λ s. leb_ℤ mint s.t) ss in
    let hi = search (λ s. ltb_ℤ maxt s.t) ss in
    if ltb hi lo then none else some (drop lo (take hi ss))

abbrev pub is_match_equal : MatchType → Bool
is_match_equal match_equal = true
is_match_equal _ = false

-- An equality matcher with a value can use the index.
abbrev pub usable : Matcher → Bool
usable m = is_match_equal m.kind && not (is_empty m.value)

abbrev pub shorter : List ℕ → Option (List ℕ) → Option (List ℕ)
shorter refs none = some refs
shorter refs (some best) = if ltb (length refs) (length best) then some refs else some best

-- The loop of `candidatesLocked`; `none` is `!haveBest`.
unfoldable pub best_postings : Head → Option (List ℕ) → List Matcher → Option (List ℕ)
best_postings h best [] = best
best_postings h best (m ∷ ms) =
    best_postings h
      (if usable m
        then shorter (or_nil (find m.value (or_nil (find m.name h.postings)))) best
        else best)
      ms

abbrev pub cons_some : Option MemSeries → List MemSeries → List MemSeries
cons_some none rest = rest
cons_some (some ms) rest = ms ∷ rest

unfoldable pub lookup_all : Table ℕ MemSeries → List ℕ → List MemSeries
lookup_all series [] = []
lookup_all series (r ∷ rs) = cons_some (find r series) (lookup_all series rs)

unfoldable pub candidates : Head → List Matcher → List MemSeries
candidates h matchers = elim (best_postings h none matchers) [
  | some best ↦ lookup_all h.series best
  | none ↦ map (λ e. e.1) h.series
]

abbrev pub cons_result :
    Labels → List Sample → Option (List SeriesResult) → Option (List SeriesResult)
cons_result l [] rest = rest
cons_result l (s ∷ ss) none = none
cons_result l (s ∷ ss) (some rs) = some (record { labels = l; samples = s ∷ ss } ∷ rs)

-- The loop of `query`.
unfoldable pub collect : ℤ → ℤ → List Matcher → List MemSeries → Option (List SeriesResult)
collect mint maxt matchers [] = some []
collect mint maxt matchers (ms ∷ rest) =
    let more = collect mint maxt matchers rest in
    if not (matches_all ms.labels matchers)
    then more
    else elim (samples_in_range ms.samples mint maxt) [
      | none ↦ none
      | some ss ↦ cons_result ms.labels ss more
    ]

unfoldable pub insert_result : SeriesResult → List SeriesResult → List SeriesResult
insert_result r [] = r ∷ []
insert_result r (q ∷ qs) =
    if str_lt (to_string q.labels) (to_string r.labels) then q ∷ insert_result r qs else r ∷ q ∷ qs

unfoldable pub sort_results : List SeriesResult → List SeriesResult
sort_results [] = []
sort_results (r ∷ rs) = insert_result r (sort_results rs)

-- `none` is a panic.
unfoldable pub query : ℤ → ℤ → List Matcher → Head → Option (List SeriesResult)
query mint maxt matchers h = elim (collect mint maxt matchers (candidates h matchers)) [
  | none ↦ none
  | some rs ↦ some (sort_results rs)
]

-- A Go set of strings, and its keys in order.
unfoldable pub add_str : Str → List Str → List Str
add_str s [] = s ∷ []
add_str s (x ∷ xs) =
    if str_eq x s then x ∷ xs else if str_lt x s then x ∷ add_str s xs else s ∷ x ∷ xs

unfoldable pub add_names : Labels → List Str → List Str
add_names [] set = set
add_names (l ∷ ls) set = add_names ls (add_str l.name set)

unfoldable pub names_of : List Matcher → List MemSeries → List Str → List Str
names_of matchers [] set = set
names_of matchers (ms ∷ rest) set =
    names_of matchers rest (if matches_all ms.labels matchers then add_names ms.labels set else set)

unfoldable pub label_names : List Matcher → Head → List Str
label_names matchers h = names_of matchers (candidates h matchers) []

unfoldable pub add_value : Str → List Str → List Str
add_value v set = if is_empty v then set else add_str v set

unfoldable pub values_of : Str → List Matcher → List MemSeries → List Str → List Str
values_of name matchers [] set = set
values_of name matchers (ms ∷ rest) set =
    values_of name matchers rest
      (if matches_all ms.labels matchers then add_value (get ms.labels name) set else set)

unfoldable pub label_values : Str → List Matcher → Head → List Str
label_values name matchers h = values_of name matchers (candidates h matchers) []
