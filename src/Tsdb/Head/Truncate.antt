-- ===== src/Tsdb/Head/Truncate.antt =====
-- `truncate` of internal/tsdb/head.go: what is left of every series.
use omni_metrics.Prelude.{
  ℕ, [], ◌∷◌, Option, none, some, ◌≡◌, refl, ◌∙◌, arith, Bool-cases, inl, inr, ◌==◌, if◌then◌else◌,
}
use omni_metrics.Prelude.Int.{ℤ}
use omni_metrics.Prelude.Table.{Table, IsTable, find, put, nat_eq, find-put, find-delete}
use mathlib.Core.List.{foldl}
use omni_metrics.Tsdb.Head.{Head, MemSeries}
use omni_metrics.Tsdb.Head.Ranges.{from_time, kept_from_lem, kept_from-IsAscending}
use omni_metrics.Tsdb.Head.Removal.{remove_series, truncate_one, truncate, kept_from, is_empty}
use omni_metrics.Tsdb.Head.Invariant.{IsHead, change-IsHead, remove-IsHead}

-- A series cut to its samples from `min_t` on, or gone if none is left.
pub truncated : ℤ → Option MemSeries → Option MemSeries
truncated min_t none = none
truncated min_t (some ms) =
    if is_empty (from_time min_t ms.samples)
    then none
    else some (record ms { samples = from_time min_t ms.samples })

module _ (min_t : ℤ) (ref : ℕ) (ms : MemSeries) (h : Head) (v : IsHead h)
    (there : find ref h.series ≡ some ms) where
  one-IsHead : IsHead (truncate_one min_t h (ref, ms))
  unfolding truncate_one
  one-IsHead =
      let kept =
        change-IsHead ref ms (kept_from min_t ms.samples) h v there
          (kept_from-IsAscending min_t ms.samples (v.ascending ref ms there)) in
      elim (Bool-cases (is_empty (kept_from min_t ms.samples))) [
        | inl e ↦ rw e (
            remove-IsHead ref _ _ kept (
              ground (
                arith,
                find-put ref ref (record ms { samples = kept_from min_t ms.samples }) h.series,
              )))
        | inr e ↦ rw e kept
      ]

  find-one :
      (r : ℕ)
      → find r (truncate_one min_t h (ref, ms)).series
        ≡ (if ref == r then truncated min_t (some ms) else find r h.series)
  unfolding truncate_one remove_series truncated
  find-one r =
      let same = kept_from_lem min_t ms.samples (v.ascending ref ms there) in
      let ms' : MemSeries = record ms { samples = kept_from min_t ms.samples } in
      ground (arith, same, find-put ref r ms' h.series, find-delete ref r (put ref ms' h.series))

abbrev over : ℤ → Option MemSeries → Option MemSeries → Option MemSeries
over min_t none now = now
over min_t (some ms) now = truncated min_t (some ms)

-- The loop over a snapshot `es` of entries that are still in the head.
module _ (min_t : ℤ) where
  loop :
      (es : Table ℕ MemSeries) (h : Head)
      → IsTable es
      → IsHead h
      → ((r : ℕ) (ms : MemSeries) → find r es ≡ some ms → find r h.series ≡ some ms)
      → IsHead (foldl (truncate_one min_t) h es)
        × ((r : ℕ)
            → find r (foldl (truncate_one min_t) h es).series
              ≡ over min_t (find r es) (find r h.series))
  unfolding find
  loop [] h t v s = (v, λ r. refl)
  loop ((ref, ms) ∷ es) h (lacks, t) v s =
      let there : find ref h.series ≡ some ms = s ref ms (ground arith) in
      let after = truncate_one min_t h (ref, ms) in
      let still : (r : ℕ) (ns : MemSeries) → find r es ≡ some ns → find r after.series ≡ some ns =
        λ r ns e. ground (arith, find-one min_t ref ms h v there r, s r ns, lacks) in
      let (v', f) = loop es after t (one-IsHead min_t ref ms h v there) still in
      (v', λ r. f r ∙ ground (arith, find-one min_t ref ms h v there r, lacks))

over_self : (min_t : ℤ) (o : Option MemSeries) → over min_t o o ≡ truncated min_t o
unfolding truncated
over_self min_t none = refl
over_self min_t (some ms) = refl

-- Truncation keeps the invariant, and leaves of every series exactly its samples from `min_t` on; a
-- series with none left is gone, with its reference, its chain link and its postings.
pub truncate_lem :
    (min_t : ℤ) (h : Head)
    → IsHead h
    → IsHead (truncate min_t h)
      × ((r : ℕ) → find r (truncate min_t h).series ≡ truncated min_t (find r h.series))
unfolding truncate
truncate_lem min_t h v =
    let (v', f) = loop min_t h.series h v.table v (λ r ms e. e) in
    (v', λ r. f r ∙ over_self min_t (find r h.series))
