-- ===== src/Tsdb/Head/Ranges.antt =====
-- Binary searches over ascending samples (internal/tsdb/head.go): what `samplesInRange` slices out
-- and what `truncate` keeps.
use omni_metrics.Prelude.{
  List, [], ◌∷◌, Bool, false, ◌&&◌, ◌||◌, none, some, ◌≡◌, refl, ap, sym, arith, All-map,
  Bool-cases, inl, inr, if◌then◌else◌,
}
use omni_metrics.Prelude.Int.{ℤ, ltb_ℤ, leb_ℤ, ◌≤ℤ◌}
use omni_metrics.Tsdb.Head.{Sample, search}
use omni_metrics.Tsdb.Head.Samples.{Later, IsAscending}
use omni_metrics.Tsdb.Head.Query.{samples_in_range}
use omni_metrics.Tsdb.Head.Removal.{kept_from}

-- The samples of a closed range, and whether some sample lies strictly between two times.
unfoldable pub in_range : ℤ → ℤ → List Sample → List Sample
in_range mint maxt [] = []
in_range mint maxt (s ∷ ss) =
    let rest = in_range mint maxt ss in if leb_ℤ mint s.t && leb_ℤ s.t maxt then s ∷ rest else rest

unfoldable pub any_between : ℤ → ℤ → List Sample → Bool
any_between a b [] = false
any_between a b (s ∷ ss) = ltb_ℤ a s.t && ltb_ℤ s.t b || any_between a b ss

in_range_past : (mint maxt : ℤ) (ss : List Sample) → Later maxt ss → in_range mint maxt ss ≡ []
unfolding in_range
in_range_past mint maxt [] h = refl
in_range_past mint maxt (s ∷ ss) (h, hs) = ground (arith, in_range_past mint maxt ss hs)

any_between_late : (a b : ℤ) (ss : List Sample) → Later b ss → any_between a b ss ≡ false
unfolding any_between
any_between_late a b [] h = refl
any_between_late a b (s ∷ ss) (h, hs) = ground (arith, any_between_late a b ss hs)

search_first : (b : ℤ) (ss : List Sample) → Later b ss → search (λ s. leb_ℤ b s.t) ss ≡ 0
unfolding search
search_first b [] h = refl
search_first b (s ∷ ss) (h, hs) = ground arith

Later-of_le : (a b : ℤ) (ss : List Sample) → a ≤ℤ b → Later b ss → Later a ss
Later-of_le a b ss h k = All-map _ _ ss (λ s p. ground arith) k

-- On ascending samples, for any two times: the slice is the samples of the closed range, and the
-- slice expression panics exactly where a sample lies between an end and a later start.
pub samples_in_range_lem :
    (mint maxt : ℤ) (ss : List Sample)
    → IsAscending ss
    → samples_in_range ss mint maxt
      ≡ (if any_between maxt mint ss then none else some (in_range mint maxt ss))
unfolding samples_in_range search in_range any_between
samples_in_range_lem mint maxt [] h = refl
samples_in_range_lem mint maxt (s ∷ ss) (k, h) = elim (Bool-cases (leb_ℤ mint s.t)) [
  | inl e ↦
      let late = Later-of_le mint s.t ss (ground arith) k in
      elim (Bool-cases (ltb_ℤ maxt s.t)) [
        | inl f ↦
            let past = Later-of_le maxt s.t ss (ground arith) k in
            ground (arith, any_between_late maxt mint ss late, in_range_past mint maxt ss past)
        | inr f ↦ ground (
          arith,
          any_between_late maxt mint ss late,
          search_first mint ss late,
          samples_in_range_lem mint maxt ss h,
        )
      ]
  | inr e ↦ elim (Bool-cases (ltb_ℤ maxt s.t)) [
    | inl f ↦ ground arith
    | inr f ↦ ground (arith, samples_in_range_lem mint maxt ss h)
  ]
]

-- The samples from a time on.
unfoldable pub from_time : ℤ → List Sample → List Sample
from_time min_t [] = []
from_time min_t (s ∷ ss) =
    let rest = from_time min_t ss in if leb_ℤ min_t s.t then s ∷ rest else rest

from_time_all : (min_t : ℤ) (ss : List Sample) → Later min_t ss → from_time min_t ss ≡ ss
unfolding from_time
from_time_all min_t [] h = refl
from_time_all min_t (s ∷ ss) (h, hs) = ground (arith, from_time_all min_t ss hs)

-- What `truncate` keeps of a series is exactly its samples from the minimum time on.
pub kept_from_lem :
    (min_t : ℤ) (ss : List Sample) → IsAscending ss → kept_from min_t ss ≡ from_time min_t ss
unfolding kept_from from_time search
kept_from_lem min_t [] h = refl
kept_from_lem min_t (s ∷ ss) (k, h) = elim (Bool-cases (leb_ℤ min_t s.t)) [
  | inl e ↦
      rw e
        (ap (λ q. s ∷ q) (sym (from_time_all min_t ss (Later-of_le min_t s.t ss (ground arith) k))))
  | inr e ↦ rw e (kept_from_lem min_t ss h)
]

Later-from_time : (u min_t : ℤ) (ss : List Sample) → Later u ss → Later u (from_time min_t ss)
unfolding from_time
Later-from_time u min_t [] h = tt
Later-from_time u min_t (s ∷ ss) (h, hs) = ground (arith, Later-from_time u min_t ss hs)

from_time-IsAscending :
    (min_t : ℤ) (ss : List Sample) → IsAscending ss → IsAscending (from_time min_t ss)
unfolding from_time
from_time-IsAscending min_t [] h = tt
from_time-IsAscending min_t (s ∷ ss) (k, h) =
    ground (arith, from_time-IsAscending min_t ss h, Later-from_time s.t min_t ss k)

pub kept_from-IsAscending :
    (min_t : ℤ) (ss : List Sample) → IsAscending ss → IsAscending (kept_from min_t ss)
kept_from-IsAscending min_t ss h = rw (kept_from_lem min_t ss h) (from_time-IsAscending min_t ss h)
