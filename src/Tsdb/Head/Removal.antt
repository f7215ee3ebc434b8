-- ===== src/Tsdb/Head/Removal.antt =====
-- internal/tsdb/head.go: how series leave the head: `removeSeriesLocked`, `reclaimIfEmpty`,
-- `truncate`.
use omni_metrics.Prelude.{
  ℕ, List, [], ◌∷◌, Bool, true, false, none, some, ◌==◌, drop, Str, if◌then◌else◌,
}
use omni_metrics.Prelude.Int.{ℤ, leb_ℤ}
use omni_metrics.Prelude.Table.{Table, find, put, delete, Eq, nat_eq, string_eq}
use omni_metrics.Model.Labels.{Label, hash}
use omni_metrics.Tsdb.Head.{Head, MemSeries, Sample, Link, Postings, or_nil, remove_ref, search}
use mathlib.Core.List.{foldl}

abbrev pub is_empty {ℓ} : {A : Type ℓ} → List A → Bool
is_empty [] = true
is_empty (x ∷ xs) = false

-- The first link to the series is cut out of its chain.
unfoldable pub unlink : ℕ → List Link → List Link
unlink ref [] = []
unlink ref (k ∷ ks) = let rest = unlink ref ks in if k.ref == ref then ks else k ∷ rest

-- A key whose set or map has become empty is deleted.
unfoldable pub put_or_delete {ℓ κ} :
    {K : Type ℓ} {V : Type κ} ⦃e : Eq K⦄ → K → List V → Table K (List V) → Table K (List V)
put_or_delete k vs m = if is_empty vs then delete k m else put k vs m

-- One round of the loop over the labels, for a name that the index has.
unfoldable pub unpost_value : ℕ → Label → Table Str (List ℕ) → Table Str (List ℕ)
unpost_value ref lbl vals = elim (find lbl.value vals) [
  | none ↦ vals
  | some set ↦ put_or_delete lbl.value (remove_ref ref set) vals
]

unfoldable pub unpost_label : ℕ → Postings → Label → Postings
unpost_label ref p lbl = elim (find lbl.name p) [
  | none ↦ p
  | some vals ↦ put_or_delete lbl.name (unpost_value ref lbl vals) p
]

unfoldable pub remove_series : ℕ → MemSeries → Head → Head
remove_series ref ms h = record h {
  series = delete ref h.series;
  hashes =
      put_or_delete (hash ms.labels) (unlink ms.ref (or_nil (find (hash ms.labels) h.hashes)))
        h.hashes;
  postings = foldl (unpost_label ref) h.postings ms.labels;
}

unfoldable pub reclaim_if_empty : ℕ → Head → Head
reclaim_if_empty ref h = elim (find ref h.series) [
  | none ↦ h
  | some ms ↦ if is_empty ms.samples then remove_series ref ms h else h
]

-- The samples from `min_t` on.
unfoldable pub kept_from : ℤ → List Sample → List Sample
kept_from min_t ss = drop (search (λ s. leb_ℤ min_t s.t) ss) ss

-- One round of the loop of `truncate`: each round touches its own series alone.
unfoldable pub truncate_one : ℤ → Head → ℕ × MemSeries → Head
truncate_one min_t h (ref, ms) =
    let ms' = record ms { samples = kept_from min_t ms.samples } in
    let h' = record h { series = put ref ms' h.series } in
    if is_empty ms'.samples then remove_series ref ms' h' else h'

unfoldable pub truncate : ℤ → Head → Head
truncate min_t h = foldl (truncate_one min_t) h h.series
