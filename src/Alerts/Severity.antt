-- ===== src/Alerts/Severity.antt =====
-- internal/alerts/notify/severity.go: the severities that the notifier accepts. strings.ToLower is the
-- parameter `to_lower`.
use omni_metrics.Prelude.{
  ℕ, [], ◌∷◌, Bool, true, false, Option, none, some, Str, bytes, leb, ◌≡◌, refl, Bool-cases, inl,
  inr, if◌then◌else◌,
}
use omni_metrics.Prelude.Bytes.{str_eq}
use omni_metrics.Prelude.Table.{Table, find, string_eq}

abbrev pub severity_rank : Table Str ℕ
severity_rank =
    (bytes "critical", 5)
    ∷ (bytes "error", 4)
    ∷ (bytes "warning", 3)
    ∷ (bytes "info", 2)
    ∷ (bytes "debug", 1)
    ∷ []

abbrev pub is_known : Option ℕ → Bool
is_known none = false
is_known (some r) = true

unfoldable pub is_severity : Str → Bool
unfolding find
is_severity s = is_known (find s severity_rank)

unfoldable pub map_severity : (Str → Str) → Str → Str
unfolding is_severity
map_severity to_lower s = if is_severity (to_lower s) then to_lower s else bytes "warning"

-- The rank of a severity that is not known is 0.
abbrev pub rank_or_zero : Option ℕ → ℕ
rank_or_zero none = 0
rank_or_zero (some r) = r

unfoldable pub meets_min : Str → Str → Bool
unfolding find
meets_min [] sev = true
meets_min (c ∷ min) sev =
    leb (rank_or_zero (find (c ∷ min) severity_rank)) (rank_or_zero (find sev severity_rank))

warning_known : is_severity (bytes "warning") ≡ true
unfolding is_severity str_eq find
warning_known = refl

-- Whatever a rule's severity, what is forwarded for it is one of the known ones, and it is the severity
-- in lower case where that is known.
pub map_severity_lem :
    (to_lower : Str → Str) (s : Str)
    → (is_severity (map_severity to_lower s) ≡ true)
      × (is_severity (to_lower s) ≡ true → map_severity to_lower s ≡ to_lower s)
unfolding map_severity
map_severity_lem to_lower s = (
  elim (Bool-cases (is_severity (to_lower s))) [
    | inl e ↦ rw (e, map_severity) e
    | inr e ↦ rw (e, map_severity) warning_known
  ],
  λ e. rw (e, map_severity) refl,
)
