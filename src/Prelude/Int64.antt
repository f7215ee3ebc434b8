-- ===== src/Prelude/Int64.antt =====
-- Go's int64: an integer in range, with arithmetic on its 64 bits.
pub mod Exact
use omni_metrics.Prelude.{
  ℕ, zero, suc, ◌+◌, ◌-◌, ◌*◌, ◌/◌, ◌%◌, ◌^◌, ◌≤◌, ◌<◌, ◌≡◌, refl, arith, Bool, true, false, ltb,
  leb, ◌==◌, if◌then◌else◌,
}
use omni_metrics.Prelude.Int.{ℤ, pos, negsuc}

-- The int64 with these 64 bits.
unfoldable pub int64 : ℕ → ℤ
int64 n = if ltb n (2 ^ 63) then pos n else negsuc (2 ^ 64 - 1 - n)

unfoldable pub bits : ℤ → ℕ
bits (pos n) = n
bits (negsuc n) = 2 ^ 64 - 1 - n

-- `-x`: the least int64 is its own negative.
unfoldable pub neg_int64 : ℤ → ℤ
neg_int64 (pos zero) = pos 0
neg_int64 (pos (suc n)) = negsuc n
neg_int64 (negsuc n) = if suc n == 2 ^ 63 then negsuc n else pos (suc n)

unfoldable pub add_int64 : ℤ → ℤ → ℤ
add_int64 a b = int64 ((bits a + bits b) % 2 ^ 64)

unfoldable pub sub_int64 : ℤ → ℤ → ℤ
sub_int64 a b = int64 ((bits a + (2 ^ 64 - bits b)) % 2 ^ 64)

unfoldable pub mul_int64 : ℤ → ℤ → ℤ
mul_int64 a b = int64 (bits a * bits b % 2 ^ 64)

-- Division that cuts off towards zero, by a positive number: what the code divides by is one.
unfoldable pub div_int64 : ℤ → ℕ → ℤ
div_int64 (pos n) d = pos (n / d)
div_int64 (negsuc n) d = neg_int64 (pos (suc n / d))
