-- ===== src/Alerts/State.antt =====
-- internal/alerts/state/state.go: the alert state machine. Instants and durations are in
-- nanoseconds.
pub mod Holds
use omni_metrics.Prelude.{◌^◌, ◌-◌, Bool, true, false, if◌then◌else◌}
use omni_metrics.Prelude.Int.{ℤ, pos, negsuc, ◌-ℤ◌, ltb_ℤ, leb_ℤ}

pub data State : Type 0 where
  state_ok : State
  state_pending : State
  state_firing : State
  state_resolved : State

abbrev pub max_duration : ℤ
max_duration = pos (2 ^ 63 - 1)

abbrev pub min_duration : ℤ
min_duration = negsuc (2 ^ 63 - 1)

-- `now.Sub(activeAt)`, which stops at the ends of the durations.
unfoldable pub sub_time : ℤ → ℤ → ℤ
sub_time now active_at =
    let d = now -ℤ active_at in
    if ltb_ℤ max_duration d then max_duration else if ltb_ℤ d min_duration then min_duration else d

unfoldable pub next : State → Bool → ℤ → ℤ → ℤ → State × Bool
next state_pending false active_at now for_d = (state_resolved, true)
next state_firing false active_at now for_d = (state_resolved, true)
next state_ok false active_at now for_d = (state_ok, false)
next state_resolved false active_at now for_d = (state_ok, false)
next state_firing true active_at now for_d = (state_firing, false)
next state_pending true active_at now for_d =
    if leb_ℤ for_d (sub_time now active_at) then (state_firing, true) else (state_pending, false)
next state_ok true active_at now for_d =
    if leb_ℤ for_d (pos 0) then (state_firing, true) else (state_pending, true)
next state_resolved true active_at now for_d =
    if leb_ℤ for_d (pos 0) then (state_firing, true) else (state_pending, true)
