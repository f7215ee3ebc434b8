-- ===== src/Prelude/Table.antt =====
-- Go maps: association lists with at most one entry for a key. The laws of `find` are all that
-- most proofs need; `range` is a walk over the list, in an order that Go leaves open.
use omni_metrics.Prelude.{
  ℕ, ◌≤◌, ◌<◌, ◌≡◌, refl, ◌↔◌, inl, inr, Bool, true, Option, none, some, List, [], ◌∷◌, arith,
  Bool-cases, Str, str_eq, str_eq_iff, ◌==◌, ==_iff, if◌then◌else◌, length, In,
}

pub record Eq {ℓ} (A : Type ℓ) : Type ℓ where
  pub beq : A → A → Bool
  pub beq_iff : (a b : A) → (beq a b ≡ true) ↔ (a ≡ b)

instance abbrev pub nat_eq : Eq ℕ
nat_eq = record { beq = ◌==◌; beq_iff = ==_iff }

instance abbrev pub string_eq : Eq Str
string_eq = record { beq = str_eq; beq_iff = str_eq_iff }

abbrev pub Table {ℓ κ} : Type ℓ → Type κ → Type (ℓ ⊔ κ)
Table K V = List (K × V)

module _ {ℓ κ} {K : Type ℓ} {V : Type κ} ⦃e : Eq K⦄ where
  unfoldable pub find : K → Table K V → Option V
  find k [] = none
  find k ((j, v) ∷ m) = if e.beq j k then some v else find k m

  unfoldable pub delete : K → Table K V → Table K V
  delete k [] = []
  delete k ((j, v) ∷ m) = let rest = delete k m in if e.beq j k then rest else (j, v) ∷ rest

  unfoldable pub put : K → V → Table K V → Table K V
  unfolding delete
  put k v m = (k, v) ∷ delete k m

  -- No key has two entries.
  abbrev pub Lacks : K → Table K V → Type κ
  Lacks k m = find k m ≡ none

  abbrev pub IsTable : Table K V → Type κ
  IsTable [] = Unit
  IsTable ((k, v) ∷ m) = Lacks k m × IsTable m

  pub find-delete :
      (k j : K) (m : Table K V) → find j (delete k m) ≡ (if e.beq k j then none else find j m)
  unfolding find delete
  find-delete k j [] = ground arith
  find-delete k j ((i, v) ∷ m) =
      ground (arith, find-delete k j m, e.beq_iff i k, e.beq_iff i j, e.beq_iff k j)

  pub find-put :
      (k j : K) (v : V) (m : Table K V)
      → find j (put k v m) ≡ (if e.beq k j then some v else find j m)
  unfolding find put
  find-put k j v m = ground (arith, find-delete k j m)

  pub delete-IsTable : (k : K) (m : Table K V) → IsTable m → IsTable (delete k m)
  unfolding delete
  delete-IsTable k [] h = tt
  delete-IsTable k ((j, v) ∷ m) (l, h) = elim (Bool-cases (e.beq j k)) [
    | inl p ↦ rw (p, delete) (delete-IsTable k m h)
    | inr p ↦ rw (p, delete) (ground (arith, find-delete k j m, l), delete-IsTable k m h)
  ]

  pub put-IsTable : (k : K) (v : V) (m : Table K V) → IsTable m → IsTable (put k v m)
  unfolding put
  put-IsTable k v m h = (ground (arith, find-delete k k m, e.beq_iff k k), delete-IsTable k m h)

  pub delete_absent : (k : K) (m : Table K V) → find k m ≡ none → delete k m ≡ m
  unfolding find delete
  delete_absent k [] h = refl
  delete_absent k ((j, v) ∷ m) h = ground (arith, delete_absent k m)

  pub length-delete_le : (k : K) (m : Table K V) → length (delete k m) ≤ length m
  unfolding delete
  length-delete_le k [] = omega arith
  length-delete_le k ((j, v) ∷ m) = ground (arith, length-delete_le k m)

  pub length-delete :
      (k : K) (v : V) (m : Table K V) → find k m ≡ some v → length (delete k m) < length m
  unfolding delete find
  length-delete k v [] h = cc
  length-delete k v ((j, w) ∷ m) h = ground (arith, length-delete k v m, length-delete_le k m)

module _ {K : Type 0} {V : Type 0} ⦃e : Eq K⦄ where
  -- In a table the entries of the walk are what `find` finds.
  pub find-In : (k : K) (v : V) (m : Table K V) → find k m ≡ some v → In (k, v) m
  unfolding find
  find-In k v [] h = absurd (cc)
  find-In k v ((j, w) ∷ m) h = elim (Bool-cases (e.beq j k)) [
    | inl p ↦ inl (ground (arith, (e.beq_iff j k).0 p))
    | inr p ↦ inr (find-In k v m (ground arith))
  ]

  pub In-find : (k : K) (v : V) (m : Table K V) → IsTable m → In (k, v) m → find k m ≡ some v
  unfolding find
  In-find k v [] h i = absurd i
  In-find k v ((j, w) ∷ m) (l, h) (inl p) = ground (arith, e.beq_iff j k)
  In-find k v ((j, w) ∷ m) (l, h) (inr i) = elim (Bool-cases (e.beq j k)) [
    | inl p ↦ let same = (e.beq_iff j k).0 p in ground (arith, In-find k v m h i)
    | inr p ↦ rw p (In-find k v m h i)
  ]
