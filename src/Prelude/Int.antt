-- ===== src/Prelude/Int.antt =====
-- Signed integers of fixed width. A conversion between Go's integer types keeps the low bits and
-- reads them in two's complement.
use Prim.Native.Nat.{ℕ, suc, ◌+◌, ◌≤◌, ◌-◌, ◌/◌, ◌%◌, ◌^◌, ◌<◌}
use mathlib.Core.Path.{◌≡◌}
use mathlib.Core.Logic.{◌↔◌}
use mathlib.Core.Bool.{Bool, true, false, not}
use mathlib.Core.Option.{Option, none, some}
use native.Mathlib.Omega.{arith}
use be_auction_lot.Prelude.Tests.{ltb, leb, ◌==◌, if◌then◌else◌}

-- `negsuc n` is -(n + 1).
pub data ℤ : Type 0 where
  pos : ℕ → ℤ
  negsuc : ℕ → ℤ

-- The w-bit pattern `n`, below 2 ^ w, as a signed integer.
abbrev signed_of : ℕ → ℕ → ℤ
signed_of modulus n = if ltb n (modulus / 2) then pos n else negsuc (modulus - 1 - n)

-- The w-bit pattern of an integer.
abbrev pattern_of : ℕ → ℤ → ℕ
pattern_of modulus (pos n) = n % modulus
pattern_of modulus (negsuc n) = modulus - 1 - n % modulus

abbrev pub two_16 : ℕ
two_16 = 2 ^ 16

abbrev pub two_31 : ℕ
two_31 = 2 ^ 31

abbrev pub two_32 : ℕ
two_32 = 2 ^ 32

-- `int32(n)` for an unsigned n.
unfoldable pub int32_of_uint : ℕ → ℤ
int32_of_uint n = signed_of two_32 (n % two_32)

-- `int32(z)` for a wider signed z.
unfoldable pub int32_of_int : ℤ → ℤ
int32_of_int z = signed_of two_32 (pattern_of two_32 z)

-- `int16(z)` for a wider signed z.
unfoldable pub int16_of_int : ℤ → ℤ
int16_of_int z = signed_of two_16 (pattern_of two_16 z)

-- `uint32(z)` for an int32 z.
unfoldable pub uint32_of_int : ℤ → ℕ
uint32_of_int z = pattern_of two_32 z

-- The range of int32.
abbrev pub IsInt32 : ℤ → Type 0
IsInt32 (pos n) = n < two_31
IsInt32 (negsuc n) = n < two_31

abbrev pub IsInt16 : ℤ → Type 0
IsInt16 (pos n) = n < 2 ^ 15
IsInt16 (negsuc n) = n < 2 ^ 15

pub int32_of_int_id : (z : ℤ) → IsInt32 z → int32_of_int z ≡ z
unfolding int32_of_int
int32_of_int_id (pos n) h = ground arith
int32_of_int_id (negsuc n) h = ground arith

pub int16_of_int_id : (z : ℤ) → IsInt16 z → int16_of_int z ≡ z
unfolding int16_of_int
int16_of_int_id (pos n) h = ground arith
int16_of_int_id (negsuc n) h = ground arith

-- The conversion keeps exactly the values below 2 ^ 31, among those of 64 bits.
pub int32_of_uint_iff : (n : ℕ) → (int32_of_uint n ≡ pos n) ↔ (n < two_31)
unfolding int32_of_uint
int32_of_uint_iff n = ground arith

pub int32_of_uint-uint32_of_int : (z : ℤ) → IsInt32 z → int32_of_uint (uint32_of_int z) ≡ z
unfolding int32_of_uint uint32_of_int
int32_of_uint-uint32_of_int (pos n) h = ground arith
int32_of_uint-uint32_of_int (negsuc n) h = ground arith

abbrev pub pos_part : ℤ → ℕ
pos_part (pos n) = n
pos_part (negsuc n) = 0

abbrev pub neg_part : ℤ → ℕ
neg_part (pos n) = 0
neg_part (negsuc n) = suc n

-- a - b for numbers, as an integer.
abbrev pub sub_ℕ : ℕ → ℕ → ℤ
sub_ℕ a b = if leb b a then pos (a - b) else negsuc (b - a - 1)

infixl 65 ◌+ℤ◌ ◌-ℤ◌
unfoldable pub ◌+ℤ◌ : ℤ → ℤ → ℤ
a +ℤ b = sub_ℕ (pos_part a + pos_part b) (neg_part a + neg_part b)

unfoldable pub ◌-ℤ◌ : ℤ → ℤ → ℤ
a -ℤ b = sub_ℕ (pos_part a + neg_part b) (neg_part a + pos_part b)

infix 50 ◌≤ℤ◌
abbrev pub ◌≤ℤ◌ : ℤ → ℤ → Type 0
a ≤ℤ b = pos_part a + neg_part b ≤ pos_part b + neg_part a

-- The integer of a magnitude, negated if the test holds.
abbrev pub signed : Bool → ℕ → ℤ
signed true n = sub_ℕ 0 n
signed false n = pos n

abbrev pub is_negative : ℤ → Bool
is_negative (pos n) = false
is_negative (negsuc n) = true

-- `a / b` of SQL, towards zero; none for a division by zero.
unfoldable pub quot_ℤ : ℤ → ℤ → Option ℤ
quot_ℤ a b =
    let q = (pos_part a + neg_part a) / (pos_part b + neg_part b) in
    if pos_part b + neg_part b == 0
    then none
    else some (signed (if is_negative a then not (is_negative b) else is_negative b) q)

-- `a <= b` as a test.
unfoldable pub leb_ℤ : ℤ → ℤ → Bool
leb_ℤ (pos a) (pos b) = leb a b
leb_ℤ (pos a) (negsuc b) = false
leb_ℤ (negsuc a) (pos b) = true
leb_ℤ (negsuc a) (negsuc b) = leb b a

-- Equality as a test.
unfoldable pub eqb_ℤ : ℤ → ℤ → Bool
eqb_ℤ (pos a) (pos b) = a == b
eqb_ℤ (negsuc a) (negsuc b) = a == b
eqb_ℤ _ _ = false

pub eqb_ℤ_iff : (a b : ℤ) → (eqb_ℤ a b ≡ true) ↔ (a ≡ b)
unfolding eqb_ℤ
eqb_ℤ_iff (pos a) (pos b) = ground arith
eqb_ℤ_iff (pos a) (negsuc b) = ground arith
eqb_ℤ_iff (negsuc a) (pos b) = ground arith
eqb_ℤ_iff (negsuc a) (negsuc b) = ground arith
