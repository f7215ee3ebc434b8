-- ===== src/Prelude/Int64/Exact.antt =====
-- Where int64 arithmetic does not wrap.
use omni_metrics.Prelude.{
  ℕ, suc, ◌+◌, ◌-◌, ◌*◌, ◌%◌, ◌^◌, ◌≤◌, ◌<◌, ◌≡◌, arith, true, ltb, Bool-cases, inl, inr,
}
use omni_metrics.Prelude.Int.{ℤ, pos, negsuc, pos_part, neg_part, ltb_ℤ}
use omni_metrics.Prelude.Int64.{int64, bits, add_int64, sub_int64, mul_int64}

abbrev pub IsInt64 : ℤ → Type 0
IsInt64 a = (pos_part a < 2 ^ 63) × (neg_part a ≤ 2 ^ 63)

-- `a + n = b` over the integers.
abbrev pub IsSum : ℤ → ℕ → ℤ → Type 0
IsSum a n b = pos_part a + n + neg_part b ≡ pos_part b + neg_part a

pub add_int64-IsSum :
    (a b : ℤ) (n : ℕ) → IsInt64 a → IsInt64 b → IsSum a n b → add_int64 a (pos n) ≡ b
unfolding add_int64 int64 bits
add_int64-IsSum (pos a) (pos b) n ha hb h = ground arith
add_int64-IsSum (pos a) (negsuc b) n ha hb h = ground arith
add_int64-IsSum (negsuc a) (pos b) n ha hb h = ground arith
add_int64-IsSum (negsuc a) (negsuc b) n ha hb h = ground arith

int64_small : (n : ℕ) → n < 2 ^ 63 → int64 (n % 2 ^ 64) ≡ pos n
unfolding int64
int64_small n h = ground arith

pub mul_int64_pos : (i d : ℕ) → i * d < 2 ^ 63 → mul_int64 (pos i) (pos d) ≡ pos (i * d)
unfolding mul_int64 bits
mul_int64_pos i d h = int64_small (i * d) h

-- A difference that is not negative: if it fits, and if it does not.
pub sub_int64-IsSum :
    (a b : ℤ) (n : ℕ) → IsInt64 a → IsInt64 b → IsSum a n b → n < 2 ^ 63 → sub_int64 b a ≡ pos n
unfolding sub_int64 int64 bits
sub_int64-IsSum (pos a) (pos b) n ha hb h e = ground arith
sub_int64-IsSum (pos a) (negsuc b) n ha hb h e = ground arith
sub_int64-IsSum (negsuc a) (pos b) n ha hb h e = ground arith
sub_int64-IsSum (negsuc a) (negsuc b) n ha hb h e = ground arith

pub sub_int64_wraps :
    (a b : ℤ) (n : ℕ)
    → IsInt64 a
    → IsInt64 b
    → IsSum a n b
    → 2 ^ 63 ≤ n
    → ltb_ℤ (sub_int64 b a) (pos 0) ≡ true
unfolding sub_int64 int64 bits
sub_int64_wraps (pos a) (pos b) n ha hb h e = ground arith
sub_int64_wraps (pos a) (negsuc b) n ha hb h e = ground arith
sub_int64_wraps (negsuc a) (pos b) n ha hb h e = ground arith
sub_int64_wraps (negsuc a) (negsuc b) n ha hb h e = ground arith

-- The number at a distance from another, and a smaller distance stays in range.
pub between :
    (a b : ℤ) (n m : ℕ)
    → IsInt64 a
    → IsInt64 b
    → IsSum a n b
    → m ≤ n
    → (c : ℤ) × IsInt64 c × IsSum a m c
between (pos a) b n m ha hb h l = (pos (a + m), ground arith, ground arith)
between (negsuc a) b n m ha hb h l = elim (Bool-cases (ltb m (suc a))) [
  | inl p ↦ (negsuc (a - m), ground arith, ground arith)
  | inr p ↦ (pos (m - suc a), ground arith, ground arith)
]
