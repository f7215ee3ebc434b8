-- ===== src/Tsdb/Head/Index.antt =====
-- The inverted index of internal/tsdb/head.go: after every operation the postings of a label name
-- and value are exactly the series that carry the label.
use omni_metrics.Prelude.{
  ℕ, List, [], ◌∷◌, Bool, false, not, ◌&&◌, ◌||◌, Option, none, some, ◌≡◌, refl, ◌∙◌, arith,
  Bool-cases, Option-cases, inl, inr, ◌==◌, Str, str_eq, str_eq_iff, if◌then◌else◌,
}
use omni_metrics.Prelude.Table.{Table, find, put, Eq, nat_eq, string_eq, find-put, find-delete}
use omni_metrics.Model.Labels.{Label, Labels}
use mathlib.Core.List.{foldl}
use omni_metrics.Tsdb.Head.{MemSeries, Postings, or_nil, mem_ref, add_ref, remove_ref, post_label}
use omni_metrics.Tsdb.Head.Removal.{put_or_delete, unpost_value, unpost_label}

-- `postings[name][value]` as a set, a missing entry being the empty one.
unfoldable pub posted : Str → Str → Postings → List ℕ
posted n v p = or_nil (find v (or_nil (find n p)))

-- The test of one label, and of a label set.
abbrev is_label : Str → Str → Label → Bool
is_label n v l = str_eq l.name n && str_eq l.value v

unfoldable pub carries : Str → Str → Labels → Bool
carries n v [] = false
carries n v (l ∷ ls) = is_label n v l || carries n v ls

mem_ref-add_ref : (r q : ℕ) (xs : List ℕ) → mem_ref r (add_ref q xs) ≡ (q == r || mem_ref r xs)
unfolding mem_ref add_ref
mem_ref-add_ref r q xs = elim (Bool-cases (q == r)) [ inl e ↦ ground arith | inr e ↦ ground arith ]

mem_ref-remove_ref :
    (r q : ℕ) (xs : List ℕ) → mem_ref r (remove_ref q xs) ≡ (not (q == r) && mem_ref r xs)
unfolding remove_ref mem_ref
mem_ref-remove_ref r q [] = ground arith
mem_ref-remove_ref r q (x ∷ xs) = ground (arith, mem_ref-remove_ref r q xs)

posted-post_label :
    (n v : Str) (r ref : ℕ) (p : Postings) (l : Label)
    → mem_ref r (posted n v (post_label ref p l))
      ≡ (ref == r && is_label n v l || mem_ref r (posted n v p))
unfolding posted post_label
posted-post_label n v r ref p l = ground (
  arith,
  find-put l.name n
      (put l.value (add_ref ref (or_nil (find l.value (or_nil (find l.name p)))))
        (or_nil (find l.name p)))
      p,
  find-put l.value v (add_ref ref (or_nil (find l.value (or_nil (find l.name p)))))
      (or_nil (find l.name p)),
  str_eq_iff l.name n,
  str_eq_iff l.value v,
  mem_ref-add_ref r ref (or_nil (find l.value (or_nil (find l.name p)))),
)

-- Inserting a series posts it under each of its labels, and under no other.
pub posted-insert :
    (n v : Str) (r ref : ℕ) (p : Postings) (ls : Labels)
    → mem_ref r (posted n v (foldl (post_label ref) p ls))
      ≡ (ref == r && carries n v ls || mem_ref r (posted n v p))
unfolding carries
posted-insert n v r ref p [] = ground arith
posted-insert n v r ref p (l ∷ ls) =
    posted-insert n v r ref (post_label ref p l) ls
    ∙ ground (arith, posted-post_label n v r ref p l)

-- An emptied set or map that is deleted reads as empty.
pub find-put_or_delete {ℓ κ} :
    {K : Type ℓ} {V : Type κ} ⦃e : Eq K⦄ (k j : K) (vs : List V) (m : Table K (List V))
    → or_nil (find j (put_or_delete k vs m)) ≡ (if e.beq k j then vs else or_nil (find j m))
unfolding put_or_delete
find-put_or_delete k j [] m = ground (arith, find-delete k j m)
find-put_or_delete k j (v ∷ vs) m = ground (arith, find-put k j (v ∷ vs) m)

posted-unpost_value :
    (v : Str) (r ref : ℕ) (l : Label) (vals : Table Str (List ℕ))
    → mem_ref r (or_nil (find v (unpost_value ref l vals)))
      ≡ (not (ref == r && str_eq l.value v) && mem_ref r (or_nil (find v vals)))
unfolding unpost_value
posted-unpost_value v r ref l vals = elim (Option-cases (find l.value vals)) [
  | inl e ↦ rw (e, unpost_value) (unfold mem_ref in ground (arith, e, str_eq_iff l.value v))
  | inr (set, e) ↦
      rw (e, unpost_value)
        (ground (
          arith,
          e,
          find-put_or_delete l.value v (remove_ref ref set) vals,
          mem_ref-remove_ref r ref set,
          str_eq_iff l.value v,
        ))
]

posted_empty : (v : Str) (r : ℕ) → mem_ref r (or_nil (find {V = List ℕ} v [])) ≡ false
unfolding find mem_ref
posted_empty v r = refl

posted-unpost_label :
    (n v : Str) (r ref : ℕ) (p : Postings) (l : Label)
    → mem_ref r (posted n v (unpost_label ref p l))
      ≡ (not (ref == r && is_label n v l) && mem_ref r (posted n v p))
unfolding posted unpost_label
posted-unpost_label n v r ref p l = elim (Option-cases (find l.name p)) [
  | inl e ↦ rw (e, unpost_label) (ground (arith, e, str_eq_iff l.name n, posted_empty v r))
  | inr (vals, e) ↦
      rw (e, unpost_label)
        (ground (
          arith,
          e,
          find-put_or_delete l.name n (unpost_value ref l vals) p,
          posted-unpost_value v r ref l vals,
          str_eq_iff l.name n,
        ))
]

-- Removing a series takes it out of the postings of each of its labels, and out of no other.
pub posted-remove :
    (n v : Str) (r ref : ℕ) (p : Postings) (ls : Labels)
    → mem_ref r (posted n v (foldl (unpost_label ref) p ls))
      ≡ (not (ref == r && carries n v ls) && mem_ref r (posted n v p))
unfolding carries
posted-remove n v r ref p [] = ground arith
posted-remove n v r ref p (l ∷ ls) =
    posted-remove n v r ref (unpost_label ref p l) ls
    ∙ ground (arith, posted-unpost_label n v r ref p l)

-- Whether the series of a reference carries a label.
unfoldable pub series_carries : Str → Str → Option MemSeries → Bool
series_carries n v none = false
series_carries n v (some ms) = carries n v ms.labels
