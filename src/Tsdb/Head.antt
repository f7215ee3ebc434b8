-- ===== src/Tsdb/Head.antt =====
-- internal/tsdb/head.go: the in-memory store of recent samples with its inverted index. Every
-- method runs under the head's lock, so it is one step from a head to a head. A `*memSeries` is
-- known by its reference and its label set, which never change once it is made.
pub mod Samples
pub mod Ranges
pub mod Query
pub mod Removal
pub mod Index
pub mod Chains
pub mod Invariant
pub mod Create
pub mod Truncate
pub mod Candidates
pub mod Answers
pub mod Values
use omni_metrics.Prelude.{
  ℕ, suc, ◌+◌, ◌%◌, ◌^◌, List, [], ◌∷◌, ◌++◌, map, Bool, true, false, ◌&&◌, ◌||◌, not, Option, none,
  some, ltb, leb, ◌==◌, length, take, drop, Str, str_eq, str_lt, if◌then◌else◌,
}
use omni_metrics.Prelude.Int.{ℤ, ltb_ℤ, leb_ℤ, eqb_ℤ}
use omni_metrics.Prelude.Table.{Table, find, put, delete, Eq, nat_eq, string_eq}
use omni_metrics.Model.Labels.{Label, Labels, get, equal, hash, to_string}
use omni_metrics.Model.Matcher.{Matcher, MatchType, match_equal, matches}
use mathlib.Core.List.{foldl}

-- A float64 is its 64 bits.
pub record Sample : Type 0 where
  pub t : ℤ
  pub v : ℕ

pub record MemSeries : Type 0 where
  pub ref : ℕ
  pub labels : Labels
  pub samples : List Sample

-- A pointer in a collision chain.
pub record Link : Type 0 where
  pub ref : ℕ
  pub labels : Labels

pub record SeriesResult : Type 0 where
  pub labels : Labels
  pub samples : List Sample

abbrev pub Postings : Type 0
Postings = Table Str (Table Str (List ℕ))

pub record Head : Type 0 where
  pub series : Table ℕ MemSeries
  pub hashes : Table ℕ (List Link)
  pub postings : Postings
  pub last_ref : ℕ
  pub max_series : ℕ
  pub retention : ℤ

unfoldable pub new_head : ℤ → ℕ → Head
new_head retention max_series = record {
  series = [];
  hashes = [];
  postings = [];
  last_ref = 0;
  max_series = max_series;
  retention = retention;
}

-- A missing map or slice reads as the empty one.
abbrev pub or_nil {ℓ} : {A : Type ℓ} → Option (List A) → List A
or_nil none = []
or_nil (some xs) = xs

unfoldable pub mem_ref : ℕ → List ℕ → Bool
mem_ref r [] = false
mem_ref r (x ∷ xs) = x == r || mem_ref r xs

unfoldable pub add_ref : ℕ → List ℕ → List ℕ
add_ref r xs = if mem_ref r xs then xs else r ∷ xs

unfoldable pub remove_ref : ℕ → List ℕ → List ℕ
remove_ref r [] = []
remove_ref r (x ∷ xs) = let rest = remove_ref r xs in if x == r then rest else x ∷ rest

-- One round of the loop of `insertLocked` over the labels.
unfoldable pub post_label : ℕ → Postings → Label → Postings
post_label ref p lbl =
    let vals = or_nil (find lbl.name p) in
    put lbl.name (put lbl.value (add_ref ref (or_nil (find lbl.value vals))) vals) p

unfoldable pub insert_series : ℕ → Labels → ℕ → Head → Head
insert_series ref l hash_ h = record h {
  series = put ref (record { ref = ref; labels = l; samples = [] }) h.series;
  hashes =
      put hash_ (or_nil (find hash_ h.hashes) ++ (record { ref = ref; labels = l } ∷ [])) h.hashes;
  postings = foldl (post_label ref) h.postings l;
}

-- The loop over a collision chain.
unfoldable pub find_link : Labels → List Link → Option ℕ
find_link l [] = none
find_link l (k ∷ ks) = if equal k.labels l then some k.ref else find_link l ks

abbrev pub u64 : ℕ → ℕ
u64 n = n % 2 ^ 64

-- What is left to do when no chain holds the labels. The result is (ref, created), or `none`
-- where `ok` is false.
unfoldable pub create_series : Labels → ℕ → Head → Option (ℕ × Bool) × Head
create_series l limit h = if ltb 0 limit && leb limit (length h.series) then (none, h) else (
  some (u64 (h.last_ref + 1), true),
  insert_series (u64 (h.last_ref + 1)) l (hash l) (record h { last_ref = u64 (h.last_ref + 1) }),
)

unfoldable pub get_or_create_limited : Labels → ℕ → Head → Option (ℕ × Bool) × Head
get_or_create_limited l limit h = elim (find_link l (or_nil (find (hash l) h.hashes))) [
  | some ref ↦ (some (ref, false), h)
  | none ↦ create_series l limit h
]

-- `none` is `ErrTooManySeries`.
unfoldable pub acquire : Labels → Head → Option (ℕ × Bool) × Head
acquire l h = get_or_create_limited l h.max_series h

abbrev pub max : ℕ → ℕ → ℕ
max a b = if ltb b a then a else b

unfoldable pub add_series_with_ref : ℕ → Labels → Head → Head
add_series_with_ref ref l h = elim (find ref h.series) [
  | some ms ↦ h
  | none ↦ let h' = insert_series ref l (hash l) h in record h' { last_ref = max ref h'.last_ref }
]

-- `sort.Search`: the first index at which the test holds, for a test that stays true.
unfoldable pub search : (Sample → Bool) → List Sample → ℕ
search p [] = 0
search p (s ∷ ss) = let rest = search p ss in if p s then 0 else suc rest

unfoldable pub last? : List Sample → Option Sample
last? [] = none
last? (s ∷ []) = some s
last? (s ∷ ss) = last? ss

unfoldable pub at? : ℕ → List Sample → Option Sample
at? i ss = elim (drop i ss) [ [] ↦ none | s ∷ _ ↦ some s ]

-- The rare path of `appendSample`: the sample goes where the order wants it.
unfoldable pub insert_at : ℕ → Sample → List Sample → List Sample
insert_at i s ss = take i ss ++ (s ∷ drop i ss)

unfoldable pub has_time : ℤ → Option Sample → Bool
has_time t none = false
has_time t (some s) = eqb_ℤ s.t t

unfoldable pub insert_out_of_order : ℤ → ℕ → List Sample → List Sample
insert_out_of_order t v ss =
    let i = search (λ s. leb_ℤ t s.t) ss in
    if has_time t (at? i ss) then ss else insert_at i (record { t = t; v = v }) ss

unfoldable pub append_to : ℤ → ℕ → List Sample → List Sample
append_to t v ss = elim (last? ss) [
  | none ↦ ss ++ (record { t = t; v = v } ∷ [])
  | some last ↦
      if ltb_ℤ last.t t
      then ss ++ (record { t = t; v = v } ∷ [])
      else if eqb_ℤ t last.t
      then ss
      else insert_out_of_order t v ss
]

unfoldable pub append_sample : ℕ → ℤ → ℕ → Head → Head
append_sample ref t v h = elim (find ref h.series) [
  | none ↦ h
  | some ms ↦ record h {
    series = put ref (record ms { samples = append_to t v ms.samples }) h.series;
  }
]
