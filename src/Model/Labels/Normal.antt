-- ===== src/Model/Labels/Normal.antt =====
-- What `normalize` (internal/model/labels.go) gives: names strictly ascending.
use omni_metrics.Prelude.{
  [], ◌∷◌, ◌≡◌, true, false, All, All-map, arith, Bool-cases, inl, inr, Str, str_eq, str_lt,
  str_eq_iff, str_lt_irrefl, str_lt_trans, str_lt_connected,
}
use omni_metrics.Model.Labels.{
  Label, Labels, insert_by_name, sort_stable, dedup_from, dedup, normalize,
}

-- `l` stands at or below every label of the list.
abbrev NotAbove : Label → Labels → Type 0
NotAbove l = All (λ (x : Label). str_lt x.name l.name ≡ false)

abbrev IsSorted : Labels → Type 0
IsSorted [] = Unit
IsSorted (l ∷ ls) = NotAbove l ls × IsSorted ls

-- The invariant that the type promises: sorted by name, no name twice.
abbrev pub Below : Str → Labels → Type 0
Below n = All (λ (x : Label). str_lt n x.name ≡ true)

abbrev pub IsNormal : Labels → Type 0
IsNormal [] = Unit
IsNormal (l ∷ ls) = Below l.name ls × IsNormal ls

le_trans_str : (a b c : Str) → str_lt b a ≡ false → str_lt c b ≡ false → str_lt c a ≡ false
le_trans_str a b c h k = elim (Bool-cases (str_lt c a)) [
  | inr e ↦ e
  | inl e ↦ elim (Bool-cases (str_lt a b)) [
    | inl f ↦ ground (arith, str_lt_trans c a b e f)
    | inr f ↦ let same = str_lt_connected a b f h in ground arith
  ]
]

NotAbove-insert :
    (l x : Label) (ys : Labels)
    → str_lt x.name l.name ≡ false
    → NotAbove l ys
    → NotAbove l (insert_by_name x ys)
unfolding insert_by_name
NotAbove-insert l x [] h k = (h, tt)
NotAbove-insert l x (y ∷ ys) h (k, ks) = elim (Bool-cases (str_lt y.name x.name)) [
  | inl e ↦ rw e (k, NotAbove-insert l x ys h ks)
  | inr e ↦ rw e (h, (k, ks))
]

str_lt_asymm : (a b : Str) → str_lt a b ≡ true → str_lt b a ≡ false
str_lt_asymm a b h = elim (Bool-cases (str_lt b a)) [
  | inr e ↦ e
  | inl e ↦ ground (arith, str_lt_trans a b a h e, str_lt_irrefl a)
]

insert_by_name-IsSorted : (x : Label) (ys : Labels) → IsSorted ys → IsSorted (insert_by_name x ys)
unfolding insert_by_name
insert_by_name-IsSorted x [] h = (tt, tt)
insert_by_name-IsSorted x (y ∷ ys) (k, ks) = elim (Bool-cases (str_lt y.name x.name)) [
  | inl e ↦ rw e (NotAbove-insert y x ys (str_lt_asymm _ _ e) k, insert_by_name-IsSorted x ys ks)
  | inr e ↦ rw e ((e, All-map _ _ ys (λ z p. le_trans_str x.name y.name z.name e p) k), (k, ks))
]

sort_stable-IsSorted : (ls : Labels) → IsSorted (sort_stable ls)
unfolding sort_stable
sort_stable-IsSorted [] = tt
sort_stable-IsSorted (l ∷ ls) = insert_by_name-IsSorted l (sort_stable ls) (sort_stable-IsSorted ls)

-- A name strictly below `last` stays strictly below what the loop returns.
Below-dedup_from :
    (n : Str) (last : Label) (ls : Labels)
    → str_lt n last.name ≡ true
    → Below n ls
    → Below n (dedup_from last ls)
unfolding dedup_from
Below-dedup_from n last [] h k = (h, tt)
Below-dedup_from n last (l ∷ ls) h (k, ks) = elim (Bool-cases (str_eq l.name last.name)) [
  | inl e ↦ rw (e, dedup_from) (Below-dedup_from n (record last { value = l.value }) ls h ks)
  | inr e ↦ rw (e, dedup_from) (h, Below-dedup_from n l ls k ks)
]

lt_of_le_ne : (a b : Str) → str_lt b a ≡ false → str_eq b a ≡ false → str_lt a b ≡ true
lt_of_le_ne a b h k = elim (Bool-cases (str_lt a b)) [
  | inl e ↦ e
  | inr e ↦ ground (arith, str_lt_connected a b e h, str_eq_iff b a)
]

lt_le_trans : (a b c : Str) → str_lt a b ≡ true → str_lt c b ≡ false → str_lt a c ≡ true
lt_le_trans a b c h k = elim (Bool-cases (str_lt b c)) [
  | inl e ↦ str_lt_trans a b c h e
  | inr e ↦ let same = str_lt_connected b c e k in ground arith
]

dedup_from-IsNormal :
    (last : Label) (ls : Labels) → NotAbove last ls → IsSorted ls → IsNormal (dedup_from last ls)
unfolding dedup_from
dedup_from-IsNormal last [] h k = (tt, tt)
dedup_from-IsNormal last (l ∷ ls) (h, hs) (k, ks) = elim (Bool-cases (str_eq l.name last.name)) [
  | inl e ↦ rw (e, dedup_from) (dedup_from-IsNormal (record last { value = l.value }) ls hs ks)
  | inr e ↦
      let below = lt_of_le_ne last.name l.name h e in
      rw (e, dedup_from)
        (
          Below-dedup_from last.name l ls below
              (All-map _ _ ls (λ z p. lt_le_trans last.name l.name z.name below p) k),
          dedup_from-IsNormal l ls k ks,
        )
]

-- Whatever labels go in, `normalize` returns them strictly ascending by name, so no name is
-- there twice.
pub normalize-IsNormal : (ls : Labels) → IsNormal (normalize ls)
unfolding normalize
normalize-IsNormal ls = sorted (sort_stable ls) (sort_stable-IsSorted ls)
  where
    sorted : (s : Labels) → IsSorted s → IsNormal (dedup s)
    sorted [] h = tt
    sorted (l ∷ s) (h, hs) = dedup_from-IsNormal l s h hs
