-- ===== src/Promql/Engine/Points.antt =====
-- internal/promql/engine.go: what holds of the instants of a run of steps holds of its points.
use omni_metrics.Prelude.{
  ℕ, zero, suc, ◌+◌, ◌≤◌, ◌<◌, ◌-◌, ◌^◌, ◌≡◌, false, leb, arith, List, [], ◌∷◌, ◌++◌, All,
  Bool-cases, inl, inr, Str, str_eq, str_lt, map,
}
use omni_metrics.Prelude.Int.{ℤ, pos}
use omni_metrics.Model.Labels.{Labels, to_string}
use omni_metrics.Promql.Value.{
  Point, Vector, SeriesData, Value, scalar, vector, matrix, string, Outcome, ok, failed, panicked,
  endless, ◌>>=◌,
}
use omni_metrics.Promql.Signature.{Group, add_member}
use omni_metrics.Promql.Engine.{
  loop_steps, run_steps, add_step, add_samples, step_time, series_of, sort_groups, insert_group,
}

-- What holds of a result that is there.
abbrev pub Returns {ℓ} : {A : Type ℓ} → (A → Type 0) → Outcome A → Type 0
Returns P (ok a) = P a
Returns P _ = Unit

pub Returns-bind :
    {A B : Type 0} (P : A → Type 0) (Q : B → Type 0) (m : Outcome A) (k : A → Outcome B)
    → Returns P m
    → ((a : A) → P a → Returns Q (k a))
    → Returns Q (m >>= k)
Returns-bind P Q (ok a) k h hk = hk a h
Returns-bind P Q (failed e) k h hk = tt
Returns-bind P Q panicked k h hk = tt
Returns-bind P Q endless k h hk = tt

any : {A : Type 0} (m : Outcome A) → Returns (λ _. Unit) m
any (ok a) = tt
any (failed e) = tt
any panicked = tt
any endless = tt

module _ (Good : ℤ → Type 0) where
  abbrev PointGood : Point → Type 0
  PointGood p = Good p.t

  abbrev pub GroupGood : Group Point → Type 0
  GroupGood g = All PointGood g.members

  append-PointGood :
      (ps : List Point) (p : Point) → All PointGood ps → Good p.t → All PointGood (ps ++ (p ∷ []))
  append-PointGood [] p h g = (g, tt)
  append-PointGood (q ∷ qs) p (h, hs) g = (h, append-PointGood qs p hs g)

  add_member-Good :
      (k : Str) (l : Labels) (p : Point) (gs : List (Group Point))
      → Good p.t
      → All GroupGood gs
      → All GroupGood (add_member k l p gs)
  unfolding add_member
  add_member-Good k l p [] g h = ((g, tt), tt)
  add_member-Good k l p (x ∷ xs) g (h, hs) = elim (Bool-cases (str_eq x.key k)) [
    | inl e ↦ rw e (append-PointGood x.members p h g, hs)
    | inr e ↦ rw e (h, add_member-Good k l p xs g hs)
  ]

  add_samples-Good :
      (t : ℤ) (v : Vector) (gs : List (Group Point))
      → Good t
      → All GroupGood gs
      → All GroupGood (add_samples t v gs)
  unfolding add_samples
  add_samples-Good t [] gs g h = h
  add_samples-Good t (s ∷ ss) gs g h =
      add_samples-Good t ss
        (add_member (to_string s.metric) s.metric (record { t = t; v = s.v }) gs) g
        (add_member-Good (to_string s.metric) s.metric (record { t = t; v = s.v }) gs g h)

  add_step-Good :
      (t : ℤ) (gs : List (Group Point)) (v : Value)
      → Good t
      → All GroupGood gs
      → Returns (All GroupGood) (add_step t gs v)
  add_step-Good t gs (scalar x) g h =
      add_member-Good (to_string []) [] (record { t = t; v = x }) gs g h
  add_step-Good t gs (vector v) g h = add_samples-Good t v gs g h
  add_step-Good t gs (matrix m) g h = tt
  add_step-Good t gs (string s) g h = tt

  pub run_steps-Good :
      (eval : ℤ → Outcome Value) (start : ℤ) (step i left : ℕ) (gs : List (Group Point))
      → ((j : ℕ) → i ≤ j → j < i + left → Good (step_time start j step))
      → All GroupGood gs
      → Returns (All GroupGood) (run_steps eval start step i left gs)
  unfolding run_steps
  run_steps-Good eval start step i zero gs good h = h
  run_steps-Good eval start step i (suc left) gs good h =
      Returns-bind (λ _. Unit) (All GroupGood) (eval (step_time start i step)) _
        (any (eval (step_time start i step)))
        (λ v _.
          Returns-bind (All GroupGood) (All GroupGood) (add_step (step_time start i step) gs v) _
            (add_step-Good (step_time start i step) gs v (good i (omega arith) (omega arith)) h)
            (λ gs' h'.
              run_steps-Good eval start step (suc i) left gs'
                (λ j a b. good j (omega arith) (omega arith)) h'))

  -- A loop of fewer than 2^63 steps has no other than the first of them.
  pub loop_steps-Good :
      (eval : ℤ → Outcome Value) (start : ℤ) (step n : ℕ)
      → n < 2 ^ 63 - 1
      → ((j : ℕ) → j ≤ n → Good (step_time start j step))
      → Returns (All GroupGood) (loop_steps eval start step (pos n))
  unfolding loop_steps
  loop_steps-Good eval start step n h good =
      let short : leb (2 ^ 63 - 1) n ≡ false = ground arith in
      rw short (run_steps-Good eval start step 0 (suc n) [] (λ j a b. good j (omega arith)) tt)

  insert_group-Good :
      (g : Group Point) (gs : List (Group Point))
      → GroupGood g
      → All GroupGood gs
      → All GroupGood (insert_group g gs)
  unfolding insert_group
  insert_group-Good g [] h hs = (h, tt)
  insert_group-Good g (x ∷ xs) h (k, ks) = elim (Bool-cases (str_lt x.key g.key)) [
    | inl p ↦ rw p (k, insert_group-Good g xs h ks)
    | inr p ↦ rw p (h, (k, ks))
  ]

  pub sort_groups-Good :
      (gs : List (Group Point)) → All GroupGood gs → All GroupGood (sort_groups gs)
  unfolding sort_groups
  sort_groups-Good [] h = tt
  sort_groups-Good (g ∷ gs) (h, hs) =
      insert_group-Good g (sort_groups gs) h (sort_groups-Good gs hs)

  abbrev pub SeriesGood : SeriesData → Type 0
  SeriesGood s = All PointGood s.points

  pub series_of-Good :
      (gs : List (Group Point)) → All GroupGood gs → All SeriesGood (map series_of gs)
  series_of-Good [] h = tt
  series_of-Good (g ∷ gs) (h, hs) = (h, series_of-Good gs hs)
