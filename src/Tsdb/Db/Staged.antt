-- ===== src/Tsdb/Db/Staged.antt =====
-- What a head stores by reference, as a batch stages series and takes them out again
-- (internal/tsdb/tsdb.go, Appender).
use omni_metrics.Prelude.{
  ℕ, List, [], ◌∷◌, ◌++◌, Option, none, some, ◌≡◌, ◌≢◌, refl, ap, ◌∙◌, arith, Option-cases, inl,
  inr, ◌==◌, if◌then◌else◌,
}
use omni_metrics.Prelude.Table.{find, nat_eq, find-put, find-delete}
use mathlib.Core.Path.{fun_ext}
use mathlib.Core.List.{foldl}
use omni_metrics.Tsdb.Record.{RefSample}
use omni_metrics.Tsdb.Head.{
  Head, MemSeries, append_sample, append_to, add_series_with_ref, insert_series,
}
use omni_metrics.Tsdb.Head.Removal.{reclaim_if_empty, remove_series}
use omni_metrics.Tsdb.Db.{SeriesRec, reclaim_new, apply_sample}

-- What a head stores, by reference.
abbrev pub View : Type 0
View = ℕ → Option MemSeries

unfoldable pub view : Head → View
view h r = find r h.series

unfoldable pub with_series : View → SeriesRec → View
with_series f n r =
    if n.ref == r then some (record { ref = n.ref; labels = n.labels; samples = [] }) else f r

abbrev written : RefSample → Option MemSeries → Option MemSeries
written s none = none
written s (some ms) = some (record ms { samples = append_to s.t s.v ms.samples })

unfoldable pub with_sample : View → RefSample → View
with_sample f s r = if s.ref == r then written s (f r) else f r

-- The staged references are new, one after the other.
unfoldable pub AreNew : List SeriesRec → View → Type 0
AreNew [] f = Unit
AreNew (n ∷ ns) f = (f n.ref ≡ none) × AreNew ns (with_series f n)

pub view-apply_sample :
    (h : Head) (s : RefSample) → view (apply_sample h s) ≡ with_sample (view h) s
unfolding view with_sample apply_sample append_sample
view-apply_sample h s = fun_ext λ r. elim (Option-cases (find s.ref h.series)) [
  | inl e ↦ rw (e, append_sample) (ground (arith, e))
  | inr (ms, e) ↦
      rw (e, append_sample)
        (ground (
          arith,
          e,
          find-put s.ref r (record ms { samples = append_to s.t s.v ms.samples }) h.series,
        ))
]

pub view-add_series :
    (n : SeriesRec) (h : Head)
    → view h n.ref ≡ none
    → view (add_series_with_ref n.ref n.labels h) ≡ with_series (view h) n
unfolding view with_series add_series_with_ref insert_series
view-add_series n h e = fun_ext λ r.
    rw (e, add_series_with_ref)
      (find-put n.ref r (record { ref = n.ref; labels = n.labels; samples = [] }) h.series)

pub view-samples :
    (h : Head) (ss : List RefSample)
    → view (foldl apply_sample h ss) ≡ foldl with_sample (view h) ss
view-samples h [] = refl
view-samples h (s ∷ ss) =
    view-samples (apply_sample h s) ss ∙ ap (λ f. foldl with_sample f ss) (view-apply_sample h s)

with_series_comm :
    (f : View) (m n : SeriesRec)
    → m.ref ≢ n.ref
    → with_series (with_series f n) m ≡ with_series (with_series f m) n
unfolding with_series
with_series_comm f m n h = fun_ext λ r. ground arith

without : View → SeriesRec → View
without f n r = if n.ref == r then none else f r

-- Taking a staged series out again.
without-staged :
    (n : SeriesRec) (ns : List SeriesRec) (f : View)
    → f n.ref ≡ none
    → AreNew ns (with_series f n)
    → without (foldl with_series (with_series f n) ns) n ≡ foldl with_series f ns
unfolding AreNew
without-staged n [] f e h = unfold without with_series in fun_ext λ r. ground (arith, e)
without-staged n (m ∷ ns) f e (a, h) =
    let apart : m.ref ≢ n.ref = unfold with_series in ground arith in
    let swap = with_series_comm f m n apart in
    rw swap (
      without-staged n ns (with_series f m) (unfold with_series in ground (arith, e))
        (rw swap at h))

-- A staged series stays there while others are staged.
staged_at :
    (n : SeriesRec) (ns : List SeriesRec) (f : View)
    → AreNew ns (with_series f n)
    → foldl with_series (with_series f n) ns n.ref
      ≡ some (record { ref = n.ref; labels = n.labels; samples = [] })
unfolding AreNew
staged_at n [] f h = unfold with_series in ground arith
staged_at n (m ∷ ns) f (a, h) =
    let apart : m.ref ≢ n.ref = unfold with_series in ground arith in
    let swap = with_series_comm f m n apart in
    rw swap (staged_at n ns (with_series f m) (rw swap at h))

AreNew-without :
    (n : SeriesRec) (ns : List SeriesRec) (f : View) → AreNew ns (with_series f n) → AreNew ns f
unfolding AreNew
AreNew-without n [] f h = tt
AreNew-without n (m ∷ ns) f (a, h) =
    let apart : m.ref ≢ n.ref = unfold with_series in ground arith in
    let swap = with_series_comm f m n apart in
    (unfold with_series in ground arith, AreNew-without n ns (with_series f m) (rw swap at h))

view-reclaim :
    (n : SeriesRec) (h : Head) (ms : MemSeries)
    → view h n.ref ≡ some ms
    → ms.samples ≡ []
    → view (reclaim_new h n) ≡ without (view h) n
unfolding view without reclaim_new reclaim_if_empty remove_series
view-reclaim n h ms e k =
    fun_ext λ r. rw (e, reclaim_if_empty) (rw k (find-delete n.ref r h.series))

-- Reclaiming every staged series gives back what was stored before the batch.
pub view-rollback :
    (ns : List SeriesRec) (h : Head) (f : View)
    → view h ≡ foldl with_series f ns
    → AreNew ns f
    → view (foldl reclaim_new h ns) ≡ f
view-rollback [] h f e a = e
view-rollback (n ∷ ns) h f e a =
    let (free, rest) = new_parts n ns f a in
    let at = ap (λ (g : View). g n.ref) e ∙ staged_at n ns f rest in
    view-rollback ns (reclaim_new h n) f
      (view-reclaim n h _ at refl
        ∙ ap (λ (g : View). without g n) e
        ∙ without-staged n ns f free rest)
      (AreNew-without n ns f rest)
  where
    new_parts :
        (m : SeriesRec) (ms : List SeriesRec) (g : View)
        → AreNew (m ∷ ms) g
        → (g m.ref ≡ none) × AreNew ms (with_series g m)
    new_parts m ms g b = unfold AreNew in b

pub AreNew-append :
    (ns : List SeriesRec) (n : SeriesRec) (f : View)
    → AreNew ns f
    → foldl with_series f ns n.ref ≡ none
    → AreNew (ns ++ (n ∷ [])) f
unfolding AreNew
AreNew-append [] n f h e = (e, tt)
AreNew-append (m ∷ ns) n f (a, h) e = (a, AreNew-append ns n (with_series f m) h e)

pub staged-append :
    (ns : List SeriesRec) (n : SeriesRec) (f : View)
    → foldl with_series f (ns ++ (n ∷ [])) ≡ with_series (foldl with_series f ns) n
staged-append [] n f = refl
staged-append (m ∷ ns) n f = staged-append ns n (with_series f m)
