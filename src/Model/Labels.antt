-- ===== src/Model/Labels.antt =====
-- internal/model/labels.go: a label set as a slice of name and value pairs sorted by name.
pub mod Normal
pub mod Lookup
pub mod Canonical
use omni_metrics.Prelude.{
  ℕ, ◌+◌, ◌*◌, ◌%◌, ◌^◌, bit_xor, List, [], ◌∷◌, ◌++◌, Bool, true, false, ◌&&◌, not, ◌||◌, Str,
  bytes, str_eq, str_lt, length, ◌==◌, if◌then◌else◌,
}
use mathlib.Core.List.{foldl}

pub record Label : Type 0 where
  pub name : Str
  pub value : Str

abbrev pub Labels : Type 0
Labels = List Label

-- The reserved label of the metric's name (model.go).
abbrev pub metric_name : Str
metric_name = bytes "__name__"

-- `sort.SliceStable` by name: a label goes before the first one that is not below it, so labels
-- of one name keep their order.
insert_by_name : Label → Labels → Labels
insert_by_name x [] = x ∷ []
insert_by_name x (y ∷ ys) = if str_lt y.name x.name then y ∷ insert_by_name x ys else x ∷ y ∷ ys

sort_stable : Labels → Labels
unfolding insert_by_name
sort_stable [] = []
sort_stable (x ∷ xs) = insert_by_name x (sort_stable xs)

-- The loop of `normalize`; `last` is `out[len(out)-1]`.
dedup_from : Label → Labels → Labels
dedup_from last [] = last ∷ []
dedup_from last (l ∷ ls) = elim (str_eq l.name last.name) [
  | true ↦ dedup_from (record last { value = l.value }) ls
  | false ↦ last ∷ dedup_from l ls
]

dedup : Labels → Labels
unfolding dedup_from
dedup [] = []
dedup (l ∷ ls) = dedup_from l ls

unfoldable pub normalize : Labels → Labels
unfolding sort_stable dedup
normalize ls = dedup (sort_stable ls)

-- The pairs of `FromStrings`: a trailing name without a value is dropped.
unfoldable pub pair_up : List Str → Labels
pair_up [] = []
pair_up (n ∷ []) = []
pair_up (n ∷ v ∷ rest) = record { name = n; value = v } ∷ pair_up rest

unfoldable pub from_strings : List Str → Labels
unfolding pair_up normalize
from_strings ss = normalize (pair_up ss)

unfoldable pub get : Labels → Str → Str
get [] n = []
get (l ∷ ls) n = if str_eq l.name n then l.value else get ls n

unfoldable pub has : Labels → Str → Bool
has [] n = false
has (l ∷ ls) n = str_eq l.name n || has ls n

unfoldable pub label_eq : Label → Label → Bool
label_eq a b = str_eq a.name b.name && str_eq a.value b.value

-- `Equal`: the lengths, then the entries in turn.
unfoldable pub all_equal : Labels → Labels → Bool
all_equal (a ∷ as_) (b ∷ bs) = label_eq a b && all_equal as_ bs
all_equal _ _ = true

unfoldable pub equal : Labels → Labels → Bool
unfolding label_eq all_equal
equal ls o = if length ls == length o then all_equal ls o else false

-- `Hash`: FNV-1a over 64 bits.
abbrev pub offset64 : ℕ
offset64 = 14695981039346656037

abbrev prime64 : ℕ
prime64 = 1099511628211

-- `sep`, a byte that valid UTF-8 does not hold.
abbrev sep : ℕ
sep = 0xff

unfoldable pub write_byte : ℕ → ℕ → ℕ
write_byte h b = bit_xor h b * prime64 % 2 ^ 64

unfoldable pub write_string : ℕ → Str → ℕ
unfolding write_byte
write_string h s = foldl write_byte h s

unfoldable pub hash_label : ℕ → Label → ℕ
unfolding write_string
hash_label h l = write_byte (write_string (write_byte (write_string h l.name) sep) l.value) sep

unfoldable pub hash : Labels → ℕ
unfolding hash_label
hash ls = foldl hash_label offset64 ls

-- `escapeValue`. Its early return on a value with nothing to escape gives the same bytes.
escape_byte : ℕ → Str
escape_byte c =
    if c == b'\\'
    then b'\\' ∷ b'\\' ∷ []
    else if c == b'"'
    then b'\\' ∷ b'"' ∷ []
    else if c == b'\n'
    then b'\\' ∷ b'n' ∷ []
    else c ∷ []

unfoldable pub escape_value : Str → Str
unfolding escape_byte
escape_value [] = []
escape_value (c ∷ s) = escape_byte c ++ escape_value s

-- The loop of `String`, with its flag `first`.
render : Labels → Bool → Str
unfolding escape_value
render [] first = b'}' ∷ []
render (l ∷ ls) first =
    if str_eq l.name metric_name
    then render ls first
    else ((if first then [] else b',' ∷ [])
        ++ (l.name ++ (bytes "=\"" ++ (escape_value l.value ++ (b'"' ∷ render ls false)))))

unfoldable pub to_string : Labels → Str
unfolding get render
to_string ls = get ls metric_name ++ (b'{' ∷ render ls true)
