-- ===== src/Tsdb/Binary.antt =====
-- What internal/tsdb/wal.go uses of Go's encoding/binary: varints and fixed-width integers.
use omni_metrics.Prelude.{
  ℕ, zero, suc, ◌+◌, ◌-◌, ◌*◌, ◌/◌, ◌%◌, ◌^◌, ◌<◌, ◌≤◌, [], ◌∷◌, ◌++◌, ◌≡◌, refl, ap, ◌&&◌, Option,
  none, some, arith, ltb, leb, ◌==◌, length, Str, if◌then◌else◌,
}
use omni_metrics.Prelude.Int.{ℤ, pos, negsuc}

-- `PutUvarint`: `more` bytes may follow the next one. A uint64 takes ten bytes at most.
unfoldable pub put_groups : ℕ → ℕ → Str
put_groups zero x = x ∷ []
put_groups (suc more) x =
    let rest = put_groups more (x / 128) in if leb 128 x then (x % 128 + 128) ∷ rest else x ∷ []

unfoldable pub put_uvarint : ℕ → Str
unfolding put_groups
put_uvarint x = put_groups 9 x

-- One more low group under a number that was read.
unfoldable pub add_group : ℕ → Option (ℕ × Str) → Option (ℕ × Str)
add_group b none = none
add_group b (some (v, rest)) = some (b - 128 + 128 * v, rest)

-- `Uvarint` from byte `i` on: the value with the bytes behind it, or nothing where Go returns a
-- length that is not positive (a number that is cut short or does not fit 64 bits).
unfoldable pub uvarint_from : ℕ → Str → Option (ℕ × Str)
unfolding add_group
uvarint_from i [] = none
uvarint_from i (b ∷ bs) =
    let more = add_group b (uvarint_from (i + 1) bs) in
    if i == 10
    then none
    else if ltb b 128
    then (if i == 9 && ltb 1 b then none else some (b, bs))
    else more

unfoldable pub get_uvarint : Str → Option (ℕ × Str)
unfolding uvarint_from
get_uvarint s = uvarint_from 0 s

-- `PutVarint` and `Varint`: the sign goes to the lowest bit.
unfoldable pub zigzag : ℤ → ℕ
zigzag (pos n) = 2 * n
zigzag (negsuc n) = 2 * n + 1

unfoldable pub unzigzag : ℕ → ℤ
unzigzag u = if u % 2 == 0 then pos (u / 2) else negsuc (u / 2)

unfoldable pub put_varint : ℤ → Str
unfolding zigzag put_uvarint
put_varint t = put_uvarint (zigzag t)

unfoldable pub map_value : Option (ℕ × Str) → Option (ℤ × Str)
unfolding unzigzag
map_value none = none
map_value (some (u, rest)) = some (unzigzag u, rest)

unfoldable pub get_varint : Str → Option (ℤ × Str)
unfolding map_value get_uvarint
get_varint s = map_value (get_uvarint s)

-- `LittleEndian.PutUint64` writes `put_le 8`, and `Uint64` reads `get_le`.
unfoldable pub put_le : ℕ → ℕ → Str
put_le zero v = []
put_le (suc k) v = v % 256 ∷ put_le k (v / 256)

unfoldable pub get_le : Str → ℕ
get_le [] = 0
get_le (b ∷ bs) = b + 256 * get_le bs

-- `BigEndian.PutUint32` and `Uint32` (of the first four bytes).
unfoldable pub put_be32 : ℕ → Str
put_be32 n = n / 2 ^ 24 % 256 ∷ n / 2 ^ 16 % 256 ∷ n / 2 ^ 8 % 256 ∷ n % 256 ∷ []

unfoldable pub get_be32 : Str → ℕ
get_be32 (a ∷ b ∷ c ∷ d ∷ rest) = a * 2 ^ 24 + b * 2 ^ 16 + c * 2 ^ 8 + d
get_be32 _ = 0

abbrev pub IsU64 : ℕ → Type 0
IsU64 n = n < 2 ^ 64

abbrev pub IsI64 : ℤ → Type 0
IsI64 (pos n) = n < 2 ^ 63
IsI64 (negsuc n) = n < 2 ^ 63

-- With `k` groups to go, `x < 128 ^ k * 2` is what fits.
uvarint_from-put_groups :
    (more x i : ℕ) (rest : Str)
    → i + more ≡ 9
    → x < 2 * 128 ^ more
    → uvarint_from i (put_groups more x ++ rest) ≡ some (x, rest)
unfolding uvarint_from put_groups
uvarint_from-put_groups zero x i rest hi hx = ground arith
uvarint_from-put_groups (suc more) x i rest hi hx =
    ground (arith, uvarint_from-put_groups more (x / 128) (i + 1) rest)

-- Reading a uint64 back gives it and leaves what follows.
pub get_uvarint-put_uvarint :
    (x : ℕ) (rest : Str) → IsU64 x → get_uvarint (put_uvarint x ++ rest) ≡ some (x, rest)
unfolding get_uvarint put_uvarint
get_uvarint-put_uvarint x rest h = uvarint_from-put_groups 9 x 0 rest refl (omega arith)

unzigzag-zigzag : (t : ℤ) → unzigzag (zigzag t) ≡ t
unfolding unzigzag zigzag
unzigzag-zigzag (pos n) = ground arith
unzigzag-zigzag (negsuc n) = ground arith

zigzag-IsU64 : (t : ℤ) → IsI64 t → IsU64 (zigzag t)
unfolding zigzag
zigzag-IsU64 (pos n) h = omega arith
zigzag-IsU64 (negsuc n) h = omega arith

pub get_varint-put_varint :
    (t : ℤ) (rest : Str) → IsI64 t → get_varint (put_varint t ++ rest) ≡ some (t, rest)
unfolding get_varint put_varint map_value
get_varint-put_varint t rest h =
    rw (get_uvarint-put_uvarint (zigzag t) rest (zigzag-IsU64 t h), map_value) (rw unzigzag-zigzag)

pub length-put_le : (k v : ℕ) → length (put_le k v) ≡ k
unfolding put_le
length-put_le zero v = refl
length-put_le (suc k) v = ap suc (length-put_le k (v / 256))

pub get_le-put_le : (k v : ℕ) → v < 256 ^ k → get_le (put_le k v) ≡ v
unfolding put_le get_le
get_le-put_le zero v h = omega arith
get_le-put_le (suc k) v h = ground (arith, get_le-put_le k (v / 256))

pub get_be32-put_be32 : (n : ℕ) (rest : Str) → n < 2 ^ 32 → get_be32 (put_be32 n ++ rest) ≡ n
unfolding get_be32 put_be32
get_be32-put_be32 n rest h = omega arith

length-put_groups : (more x : ℕ) → 1 ≤ length (put_groups more x)
unfolding put_groups
length-put_groups zero x = omega arith
length-put_groups (suc more) x = ground arith

pub length-put_uvarint : (x : ℕ) → 1 ≤ length (put_uvarint x)
unfolding put_uvarint
length-put_uvarint x = length-put_groups 9 x
