-- ===== src/Alerts/Fingerprint.antt =====
-- internal/alerts/models/models.go: Fingerprint and the names of states.
use omni_metrics.Prelude.{
  ℕ, zero, suc, ◌+◌, ◌-◌, ◌/◌, ◌%◌, List, [], ◌∷◌, ◌++◌, Option, none, some, Str, bytes, str_eq,
  str_lt, ltb, length, ◌≡◌, refl, if◌then◌else◌,
}
use mathlib.Core.List.{foldl}
use omni_metrics.Prelude.Table.{Table, find, string_eq}
use omni_metrics.Model.Labels.{write_string, offset64}
use omni_metrics.Alerts.State.{State, state_ok, state_pending, state_firing, state_resolved}

-- `State.String`.
unfoldable pub state_name : State → Str
state_name state_ok = bytes "ok"
state_name state_pending = bytes "pending"
state_name state_firing = bytes "firing"
state_name state_resolved = bytes "resolved"

-- `none` is the error.
unfoldable pub parse_state : Str → Option State
parse_state s =
    if str_eq s (bytes "ok")
    then some state_ok
    else if str_eq s (bytes "pending")
    then some state_pending
    else if str_eq s (bytes "firing")
    then some state_firing
    else if str_eq s (bytes "resolved")
    then some state_resolved
    else none

-- A state's name parses as the state.
pub parse_state-state_name : (s : State) → parse_state (state_name s) ≡ some s
unfolding parse_state state_name str_eq
parse_state-state_name state_ok = refl
parse_state-state_name state_pending = refl
parse_state-state_name state_firing = refl
parse_state-state_name state_resolved = refl

unfoldable pub insert_key : Str → List Str → List Str
insert_key k [] = k ∷ []
insert_key k (j ∷ js) = if str_lt j k then j ∷ insert_key k js else k ∷ j ∷ js

-- The keys of a map, sorted.
unfoldable pub sorted_keys : {V : Type 0} → Table Str V → List Str
unfolding insert_key
sorted_keys [] = []
sorted_keys ((k, v) ∷ m) = insert_key k (sorted_keys m)

-- `%d` of a length, which has 19 digits at most.
unfoldable pub decimal_text : ℕ → ℕ → Str
decimal_text zero n = []
decimal_text (suc fuel) n =
    let high = decimal_text fuel (n / 10) in
    if ltb n 10 then (b'0' + n) ∷ [] else high ++ ((b'0' + n % 10) ∷ [])

abbrev pub length_text : Str → Str
length_text s = decimal_text 19 (length s)

-- `%016x`: so many hexadecimal digits of the number.
unfoldable pub hex_text : ℕ → ℕ → Str
hex_text zero n = []
hex_text (suc digits) n =
    let low = n % 16 in
    hex_text digits (n / 16) ++ ((if ltb low 10 then b'0' + low else b'a' + (low - 10)) ∷ [])

abbrev pub or_empty : Option Str → Str
or_empty none = []
or_empty (some v) = v

-- One label as it goes into the hash, with the lengths in front.
unfoldable pub label_text : Table Str Str → Str → Str
unfolding decimal_text
label_text labels k =
    let v = or_empty (find k labels) in
    length_text k ++ (b':' ∷ (k ++ (b'=' ∷ (length_text v ++ (b':' ∷ (v ++ (0 ∷ [])))))))

unfoldable pub fingerprint_of : Table Str Str → Str
unfolding sorted_keys label_text hex_text write_string
fingerprint_of labels =
    hex_text 16 (foldl (λ h k. write_string h (label_text labels k)) offset64 (sorted_keys labels))
