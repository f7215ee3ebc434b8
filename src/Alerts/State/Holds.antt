-- ===== src/Alerts/State/Holds.antt =====
-- internal/alerts/state/state.go: Next over a run of evaluations, from one that finds a series which
-- was not active.
use omni_metrics.Prelude.{
  Bool, true, false, List, [], ◌∷◌, ◌≡◌, ◌≢◌, refl, ◌∙◌, ap, arith, Bool-cases, inl, inr,
  if◌then◌else◌,
}
use omni_metrics.Prelude.Int.{ℤ, pos, ◌-ℤ◌, ◌≤ℤ◌, leb_ℤ, -ℤ_parts}
use omni_metrics.Alerts.State.{
  State, state_ok, state_resolved, state_pending, state_firing, sub_time, next, max_duration,
}

-- The state behind evaluations at these instants, the latest one first, that all find the series:
-- the first one, at `s`, gives the instance its `active_at`.
unfoldable pub state_after : ℤ → ℤ → State → List ℤ → State
state_after d s prev [] = (next prev true s s d).0
state_after d s prev (t ∷ ts) = (next (state_after d s prev ts) true s t d).0

abbrev pub latest : ℤ → List ℤ → ℤ
latest s [] = s
latest s (t ∷ ts) = t

-- No evaluation is before an earlier one.
unfoldable pub IsForward : ℤ → List ℤ → Type 0
IsForward s [] = Unit
IsForward s (t ∷ ts) = (latest s ts ≤ℤ t) × IsForward s ts

sub_time-due :
    (d s now : ℤ) → s ≤ℤ now → d ≤ℤ max_duration → leb_ℤ d (sub_time now s) ≡ leb_ℤ d (now -ℤ s)
unfolding sub_time
sub_time-due d s now h l = ground (arith, -ℤ_parts now s)

due_start : (d s : ℤ) → leb_ℤ d (pos 0) ≡ leb_ℤ d (s -ℤ s)
due_start d s = ground (arith, -ℤ_parts s s)

due_later :
    (d s now later : ℤ) → now ≤ℤ later → leb_ℤ d (now -ℤ s) ≡ true → leb_ℤ d (later -ℤ s) ≡ true
due_later d s now later h e = ground (arith, -ℤ_parts now s, -ℤ_parts later s)

latest_forward : (s : ℤ) (ts : List ℤ) → IsForward s ts → s ≤ℤ latest s ts
unfolding IsForward
latest_forward s [] h = omega arith
latest_forward s (t ∷ ts) (l, h) = let k = latest_forward s ts h in omega arith

abbrev due_state : Bool → State
due_state due = if due then state_firing else state_pending

started :
    (d s : ℤ) (prev : State)
    → prev ≢ state_pending
    → prev ≢ state_firing
    → (next prev true s s d).0 ≡ due_state (leb_ℤ d (pos 0))
unfolding next
started d s state_pending n m = absurd (n refl)
started d s state_firing n m = absurd (m refl)
started d s state_ok n m = elim (Bool-cases (leb_ℤ d (pos 0))) [
  | inl e ↦ rw e refl
  | inr e ↦ rw e refl
]
started d s state_resolved n m = elim (Bool-cases (leb_ℤ d (pos 0))) [
  | inl e ↦ rw e refl
  | inr e ↦ rw e refl
]

kept :
    (d s now later : ℤ)
    → now ≤ℤ later
    → s ≤ℤ now
    → d ≤ℤ max_duration
    → (next (due_state (leb_ℤ d (now -ℤ s))) true s later d).0 ≡ due_state (leb_ℤ d (later -ℤ s))
unfolding next
kept d s now later h b l = elim (Bool-cases (leb_ℤ d (now -ℤ s))) [
  | inl e ↦ rw (e, due_later d s now later h e) refl
  | inr e ↦
      rw (e, sub_time-due d s later (omega arith) l)
        (elim (Bool-cases (leb_ℤ d (later -ℤ s))) [ inl k ↦ rw k refl | inr k ↦ rw k refl ])
]

state_after-due :
    (d s : ℤ) (prev : State) (ts : List ℤ)
    → d ≤ℤ max_duration
    → prev ≢ state_pending
    → prev ≢ state_firing
    → IsForward s ts
    → state_after d s prev ts ≡ due_state (leb_ℤ d (latest s ts -ℤ s))
unfolding state_after IsForward
state_after-due d s prev [] l n m h = started d s prev n m ∙ ap due_state (due_start d s)
state_after-due d s prev (t ∷ ts) l n m (k, h) =
    ap (λ (q : State). (next q true s t d).0) (state_after-due d s prev ts l n m h)
    ∙ kept d s (latest s ts) t k (latest_forward s ts h) l

-- From a state that is not active, over evaluations that do not go back in time and all find the
-- series, and for a duration of the rule that is at most the greatest int64: it fires exactly if
-- the time from the first to the latest of them is that duration or more, and is pending otherwise;
-- and the next evaluation that does not find it resolves it.
pub state_after_lem :
    (d s : ℤ) (prev : State) (ts : List ℤ)
    → d ≤ℤ max_duration
    → prev ≢ state_pending
    → prev ≢ state_firing
    → IsForward s ts
    → (state_after d s prev ts
        ≡ (if leb_ℤ d (latest s ts -ℤ s) then state_firing else state_pending))
      × ((t : ℤ) → next (state_after d s prev ts) false s t d ≡ (state_resolved, true))
unfolding next
state_after_lem d s prev ts l n m h =
    let e = state_after-due d s prev ts l n m h in
    (
      e,
      λ t. rw e (elim (Bool-cases (leb_ℤ d (latest s ts -ℤ s))) [
        | inl k ↦ rw k refl
        | inr k ↦ rw k refl
      ]),
    )
