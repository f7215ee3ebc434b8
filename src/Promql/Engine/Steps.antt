-- ===== src/Promql/Engine/Steps.antt =====
-- internal/promql/engine.go: the instants that a range query evaluates.
use omni_metrics.Prelude.{
  ℕ, zero, suc, List, ◌-◌, ◌*◌, ◌/◌, ◌^◌, ◌≤◌, ◌<◌, ◌≡◌, refl, sym, ap, ◌∙◌, arith, true, false, [],
  All,
}
use omni_metrics.Prelude.Int.{ℤ, pos, negsuc, ltb_ℤ}
use omni_metrics.Prelude.Int64.{sub_int64, add_int64, div_int64, bits, int64}
use omni_metrics.Prelude.Int64.Exact.{
  IsInt64, IsSum, add_int64-IsSum, mul_int64_pos, sub_int64-IsSum, sub_int64_wraps, between,
}
use omni_metrics.Promql.Ast.{Expr}
use omni_metrics.Promql.Value.{
  Value, Point, scalar, vector, matrix, string, Outcome, ok, failed, panicked, endless, ◌>>=◌,
  Runtime, too_many_points, range_too_large,
}
use mathlib.Core.Path.{subst}
use native.Mathlib.Nat.{mul-le-mul_right, div-mul-le_self}
use omni_metrics.Promql.Signature.{Group}
use omni_metrics.Promql.Engine.{
  loop_steps, run_steps, wrapped_steps, add_step, eval_expr, step_time, range_query, range_steps,
  checked_span, Select, sort_groups, max_resolution,
}
use omni_metrics.Promql.Engine.Points.{
  Returns, Returns-bind, GroupGood, loop_steps-Good, sort_groups-Good, SeriesGood, series_of-Good,
}

-- The instants `start + i * d` up to `start + n`, for `i` below 11000.
abbrev pub OnGrid : ℤ → ℕ → ℕ → ℤ → Type 0
OnGrid start d n t = (i : ℕ) × (i < 11000) × (i * d ≤ n) × IsSum start (i * d) t

step_time-OnGrid :
    (start end : ℤ) (d n i : ℕ)
    → IsInt64 start
    → IsInt64 end
    → IsSum start n end
    → n < 2 ^ 63
    → i < 11000
    → i * d ≤ n
    → OnGrid start d n (step_time start i d)
step_time-OnGrid start end d n i hs he h b li l =
    let (c, hc, s) = between start end n (i * d) hs he h l in
    (
      i,
      li,
      l,
      subst (λ t. IsSum start (i * d) t)
          (sym (
            ap (add_int64 start) (mul_int64_pos i d (omega arith))
            ∙ add_int64-IsSum start c (i * d) hs hc s))
          s,
    )

below_quotient : (j d n : ℕ) → 0 < d → j ≤ n / d → j * d ≤ n
below_quotient j d n h l =
    let a = mul-le-mul_right d l in let b = div-mul-le_self n d in omega arith

ordered : (start end : ℤ) (n : ℕ) → IsSum start n end → ltb_ℤ end start ≡ false
ordered (pos a) (pos b) n h = ground arith
ordered (pos a) (negsuc b) n h = ground arith
ordered (negsuc a) (pos b) n h = ground arith
ordered (negsuc a) (negsuc b) n h = ground arith

not_negative : (n : ℕ) → ltb_ℤ (pos n) (pos 0) ≡ false
not_negative n = ground arith

wrapped_count : ltb_ℤ max_resolution (add_int64 (pos ((2 ^ 63 - 1) / 1)) (pos 1)) ≡ false
unfolding add_int64 int64 bits
wrapped_count = refl

too_many :
    (q : ℕ) → 11000 ≤ q → suc q < 2 ^ 63 → ltb_ℤ max_resolution (add_int64 (pos q) (pos 1)) ≡ true
unfolding add_int64 int64 bits
too_many q l h = ground arith

few_enough : (q : ℕ) → q < 11000 → ltb_ℤ max_resolution (add_int64 (pos q) (pos 1)) ≡ false
unfolding add_int64 int64 bits
few_enough q l = ground arith

-- A scalar or a vector.
abbrev pub IsPlotted : Outcome Value → Type 0
IsPlotted (ok (scalar x)) = Unit
IsPlotted (ok (vector v)) = Unit
IsPlotted _ = ⊥

add_plotted :
    (t : ℤ) (gs : List (Group Point)) (m : Outcome Value)
    → IsPlotted m
    → (gs' : List (Group Point)) × ((m >>= λ v. add_step t gs v) ≡ ok gs')
add_plotted t gs (ok (scalar x)) h = (_, refl)
add_plotted t gs (ok (vector v)) h = (_, refl)
add_plotted t gs (ok (matrix m)) h = absurd h
add_plotted t gs (ok (string s)) h = absurd h
add_plotted t gs (failed w) h = absurd h
add_plotted t gs panicked h = absurd h
add_plotted t gs endless h = absurd h

bind_assoc :
    {A B C : Type 0} (m : Outcome A) (g : A → Outcome B) (k : B → Outcome C)
    → (m >>= λ a. g a >>= k) ≡ ((m >>= g) >>= k)
bind_assoc (ok a) g k = refl
bind_assoc (failed w) g k = refl
bind_assoc panicked g k = refl
bind_assoc endless g k = refl

module _ (eval : ℤ → Outcome Value) (start : ℤ) (step : ℕ)
    (plots : (t : ℤ) → IsPlotted (eval t)) where
  run_steps_done :
      (left i : ℕ) (gs : List (Group Point))
      → (gs' : List (Group Point)) × (run_steps eval start step i left gs ≡ ok gs')
  unfolding run_steps
  run_steps_done zero i gs = (gs, refl)
  run_steps_done (suc left) i gs =
      let t = step_time start i step in
      let (gs', e) = add_plotted t gs (eval t) (plots t) in
      let (out, h) = run_steps_done left (suc i) gs' in
      (
        out,
        bind_assoc (eval t) (add_step t gs) (run_steps eval start step (suc i) left)
            ∙ ap (λ q. q >>= run_steps eval start step (suc i) left) e
            ∙ h,
      )

  wrapped_steps_endless : wrapped_steps eval start step ≡ endless
  unfolding wrapped_steps
  wrapped_steps_endless =
      let (gs, e) = run_steps_done (2 ^ 64) 0 [] in ap (λ q. q >>= λ gs. endless) e

module _ (f : Runtime) (select : Select) (lookback : ℤ) (e : Expr) where
  range_query-checked_span :
      (start end : ℤ) (d n : ℕ)
      → IsSum start n end
      → range_query f select lookback e start end (pos (suc d))
        ≡ checked_span f select lookback e start end (suc d)
  unfolding range_query
  range_query-checked_span start end d n h = rw (ordered start end n h) refl

  checked_span_wide :
      (start end : ℤ) (d : ℕ)
      → ltb_ℤ (sub_int64 end start) (pos 0) ≡ true
      → checked_span f select lookback e start end (suc d) ≡ failed range_too_large
  checked_span_wide start end d h = rw h refl

  checked_span_many :
      (start end : ℤ) (d n : ℕ)
      → sub_int64 end start ≡ pos n
      → ltb_ℤ max_resolution (add_int64 (pos (n / suc d)) (pos 1)) ≡ true
      → checked_span f select lookback e start end (suc d) ≡ failed too_many_points
  unfolding div_int64
  checked_span_many start end d n h t = rw h (rw t (rw (not_negative n) refl))

  checked_span_few :
      (start end : ℤ) (d n : ℕ)
      → sub_int64 end start ≡ pos n
      → ltb_ℤ max_resolution (add_int64 (pos (n / suc d)) (pos 1)) ≡ false
      → checked_span f select lookback e start end (suc d)
        ≡ range_steps f select lookback e start end (suc d) (pos (n / suc d))
  unfolding div_int64
  checked_span_few start end d n h t = rw h (rw t (rw (not_negative n) refl))

  range_steps-OnGrid :
      (start end : ℤ) (d n : ℕ)
      → IsInt64 start
      → IsInt64 end
      → IsSum start n end
      → n < 2 ^ 63
      → 0 < d
      → n / d < 11000
      → Returns
          (All (SeriesGood (OnGrid start d n)))
          (range_steps f select lookback e start end d (pos (n / d)))
  range_steps-OnGrid start end d n hs he h b p q =
      let good = OnGrid start d n in
      Returns-bind (All (GroupGood good)) (All (SeriesGood good)) _ _
        (loop_steps-Good good _ start d (n / d) (omega arith) (λ j l.
          step_time-OnGrid start end d n j hs he h b (omega arith) (below_quotient j d n p l)))
        (λ gs hg. series_of-Good good (sort_groups gs) (sort_groups-Good good gs hg))

  -- For int64 bounds `n` apart and a step `d`: a range query over 2^63 or more is refused, one of more
  -- than 11,000 points is refused unless it has 2^63 of them, and otherwise the points of a result
  -- lie at `start + i * d` with `i` below 11,000, none of them behind the end.
  pub range_query-OnGrid :
      (start end : ℤ) (d n : ℕ)
      → IsInt64 start
      → IsInt64 end
      → IsSum start n end
      → (2 ^ 63 ≤ n
          → range_query f select lookback e start end (pos (suc d)) ≡ failed range_too_large)
        × (n < 2 ^ 63
            → 11000 ≤ n / suc d
            → suc (n / suc d) < 2 ^ 63
            → range_query f select lookback e start end (pos (suc d)) ≡ failed too_many_points)
        × (n < 2 ^ 63
            → n / suc d < 11000
            → Returns
                (All (SeriesGood (OnGrid start (suc d) n)))
                (range_query f select lookback e start end (pos (suc d))))
  range_query-OnGrid start end d n hs he h = (
    λ wide.
        range_query-checked_span start end d n h
        ∙ checked_span_wide start end d (sub_int64_wraps start end n hs he h wide),
    λ b many top.
        range_query-checked_span start end d n h
        ∙ checked_span_many start end d n (sub_int64-IsSum start end n hs he h b)
            (too_many (n / suc d) many top),
    λ b few.
        subst (Returns (All (SeriesGood (OnGrid start (suc d) n))))
          (sym (
            range_query-checked_span start end d n h
            ∙ checked_span_few start end d n (sub_int64-IsSum start end n hs he h b)
                (few_enough (n / suc d) few)))
          (range_steps-OnGrid start end (suc d) n hs he h b (omega arith) few),
  )

  -- What the expression evaluates to at an instant of a range query.
  abbrev pub at_step : ℤ → ℤ → ℤ → Outcome Value
  at_step start end =
      eval_expr f
        (record { select = select; lookback = lookback; query_start = start; query_end = end }) e

  range_steps_endless :
      (start end : ℤ)
      → ((t : ℤ) → IsPlotted (at_step start end t))
      → range_steps f select lookback e start end 1 (pos (2 ^ 63 - 1)) ≡ endless
  unfolding loop_steps
  range_steps_endless start end plots =
      rw (wrapped_steps_endless (at_step start end) start 1 plots) refl

  -- A range query whose bounds are 2^63-1 ms apart, with a step of 1 ms, passes the limit of 11,000
  -- points and never returns, where the expression has a scalar or a vector at every instant.
  pub range_query_endless :
      (start end : ℤ)
      → IsInt64 start
      → IsInt64 end
      → IsSum start (2 ^ 63 - 1) end
      → ((t : ℤ) → IsPlotted (at_step start end t))
      → range_query f select lookback e start end (pos 1) ≡ endless
  range_query_endless start end hs he h plots =
      range_query-checked_span start end 0 (2 ^ 63 - 1) h
      ∙ checked_span_few start end 0 (2 ^ 63 - 1)
          (sub_int64-IsSum start end (2 ^ 63 - 1) hs he h (omega arith)) wrapped_count
      ∙ range_steps_endless start end plots
