-- ===== src/Promql/Aggregate/Reduced.antt =====
-- internal/promql/funcs.go: the aggregations that give one value for a group, and what the value is.
use omni_metrics.Prelude.{
  ℕ, List, [], ◌∷◌, Bool, true, false, Str, bytes, str_eq, ◌≡◌, ◌⊎◌, refl, ap, ◌∙◌, Bool-cases, inl,
  inr, In, length, if◌then◌else◌,
}
use mathlib.Core.List.{foldl}
use omni_metrics.Prelude.Int.{pos}
use omni_metrics.Promql.Value.{Runtime, ok}
use omni_metrics.Promql.Ranges.{sum_from, squares_from, best_from, variance}
use omni_metrics.Promql.Aggregate.{reduce}

pub data Aggregator : Type 0 where
  agg_sum agg_avg agg_min agg_max agg_count agg_group agg_stddev agg_stdvar : Aggregator

unfoldable pub name_of : Aggregator → Str
name_of agg_sum = bytes "sum"
name_of agg_avg = bytes "avg"
name_of agg_min = bytes "min"
name_of agg_max = bytes "max"
name_of agg_count = bytes "count"
name_of agg_group = bytes "group"
name_of agg_stddev = bytes "stddev"
name_of agg_stdvar = bytes "stdvar"

-- What is irreflexive and transitive, as `<` of floats is, also where some are NaN.
abbrev pub IsStrict : (ℕ → ℕ → Bool) → Type 0
IsStrict lt =
    ((x : ℕ) → lt x x ≡ false) × ((x y z : ℕ) → lt x y ≡ true → lt y z ≡ true → lt x z ≡ true)

module _ (f : Runtime) where
  abbrev pub total : List ℕ → ℕ
  total xs = foldl f.add 0 xs

  abbrev pub mean : List ℕ → ℕ
  mean xs = f.div (total xs) (f.of_int (pos (length xs)))

  -- The mean of the squares of the distances from the mean.
  abbrev pub spread : List ℕ → ℕ
  spread xs =
      f.div (foldl (λ s x. f.add s (f.mul (f.sub x (mean xs)) (f.sub x (mean xs)))) 0 xs)
        (f.of_int (pos (length xs)))

  -- What an aggregation means by the value of some values.
  unfoldable pub Reduces : Aggregator → List ℕ → ℕ → Type 0
  Reduces agg_sum xs v = v ≡ total xs
  Reduces agg_avg xs v = v ≡ mean xs
  Reduces agg_min xs v = In v xs × ((x : ℕ) → In x xs → f.lt x v ≡ false)
  Reduces agg_max xs v = In v xs × ((x : ℕ) → In x xs → f.lt v x ≡ false)
  Reduces agg_count xs v = v ≡ f.of_int (pos (length xs))
  Reduces agg_group xs v = v ≡ f.of_int (pos 1)
  Reduces agg_stddev xs v = v ≡ f.sqrt (spread xs)
  Reduces agg_stdvar xs v = v ≡ spread xs

  sum_from-foldl : (s : ℕ) (xs : List ℕ) → sum_from f s xs ≡ foldl f.add s xs
  unfolding sum_from
  sum_from-foldl s [] = refl
  sum_from-foldl s (x ∷ xs) = sum_from-foldl (f.add s x) xs

  squares_from-foldl :
      (m s : ℕ) (xs : List ℕ)
      → squares_from f m s xs ≡ foldl (λ s x. f.add s (f.mul (f.sub x m) (f.sub x m))) s xs
  unfolding squares_from
  squares_from-foldl m s [] = refl
  squares_from-foldl m s (x ∷ xs) =
      squares_from-foldl m (f.add s (f.mul (f.sub x m) (f.sub x m))) xs

  variance-spread : (x : ℕ) (xs : List ℕ) → variance f (x ∷ xs) ≡ spread (x ∷ xs)
  unfolding variance
  variance-spread x xs =
      let n = f.of_int (pos (length (x ∷ xs))) in
      ap (λ s. f.div (squares_from f (f.div s n) 0 (x ∷ xs)) n) (sum_from-foldl 0 (x ∷ xs))
      ∙ ap (λ q. f.div q n) (squares_from-foldl (mean (x ∷ xs)) 0 (x ∷ xs))

  module _ (better : ℕ → ℕ → Bool) (strict : IsStrict better) where
    -- What is no better than the value so far is no better than the last one.
    best_from_keeps :
        (z m : ℕ) (xs : List ℕ) → better z m ≡ false → better z (best_from f better m xs) ≡ false
    unfolding best_from
    best_from_keeps z m [] h = h
    best_from_keeps z m (x ∷ xs) h = elim (Bool-cases (better x m)) [
      | inr e ↦ rw (e, best_from) (best_from_keeps z m xs h)
      | inl e ↦
          rw (e, best_from)
            (best_from_keeps z x xs (elim (Bool-cases (better z x)) [
              | inr k ↦ k
              | inl k ↦ absurd (let t = strict.1 z x m k e in cc)
            ]))
    ]

    best_from_least : (y m : ℕ) (xs : List ℕ) → In y xs → better y (best_from f better m xs) ≡ false
    unfolding best_from
    best_from_least y m [] i = absurd i
    best_from_least y m (x ∷ xs) (inr i) = best_from_least y (if better x m then x else m) xs i
    best_from_least y m (x ∷ xs) (inl p) = elim (Bool-cases (better x m)) [
      | inl e ↦ rw (e, p, best_from) (best_from_keeps x x xs (strict.0 x))
      | inr e ↦ rw (e, p, best_from) (best_from_keeps x m xs e)
    ]

    best_from-In :
        (m : ℕ) (xs : List ℕ) → (best_from f better m xs ≡ m) ⊎ In (best_from f better m xs) xs
    unfolding best_from
    best_from-In m [] = inl refl
    best_from-In m (x ∷ xs) = elim (best_from-In (if better x m then x else m) xs) [
      | inr i ↦ inr (inr i)
      | inl p ↦ elim (Bool-cases (better x m)) [
        | inl e ↦ inr (inl (p ∙ (rw e refl)))
        | inr e ↦ inl (p ∙ (rw e refl))
      ]
    ]

    pub best_from-best :
        (x : ℕ) (xs : List ℕ)
        → In (best_from f better x (x ∷ xs)) (x ∷ xs)
          × ((y : ℕ) → In y (x ∷ xs) → better y (best_from f better x (x ∷ xs)) ≡ false)
    best_from-best x xs = (
      elim (best_from-In x (x ∷ xs)) [ inl p ↦ inl p | inr i ↦ i ],
      λ y i. best_from_least y x (x ∷ xs) i,
    )

  -- The reduction of values that are there returns a value that is right for the aggregation.
  abbrev pub IsReducer : Str → (List ℕ → ℕ → Type 0) → Type 0
  IsReducer op Right =
      (param x : ℕ) (xs : List ℕ) → (v : ℕ) × (reduce f op param (x ∷ xs) ≡ ok v) × Right (x ∷ xs) v

  pub reduce-Reduces : (a : Aggregator) → IsStrict f.lt → IsReducer (name_of a) (Reduces a)
  unfolding reduce str_eq name_of Reduces variance
  reduce-Reduces agg_sum s p x xs = (_, refl, sum_from-foldl 0 (x ∷ xs))
  reduce-Reduces agg_avg s p x xs = (_, refl, rw (sum_from-foldl 0 (x ∷ xs)) refl)
  reduce-Reduces agg_min s p x xs = (_, refl, best_from-best f.lt s x xs)
  reduce-Reduces agg_max s p x xs =
      (_, refl, best_from-best (λ x m. f.lt m x) (s.0, λ x y z a b. s.1 z y x b a) x xs)
  reduce-Reduces agg_count s p x xs = (_, refl, refl)
  reduce-Reduces agg_group s p x xs = (_, refl, refl)
  reduce-Reduces agg_stddev s p x xs = (_, refl, ap f.sqrt (variance-spread x xs))
  reduce-Reduces agg_stdvar s p x xs = (_, refl, variance-spread x xs)
