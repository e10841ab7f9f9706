-- ===== src/Strconv/RoundTrip.antt =====
-- `Atoi` on the print of `Itoa`.
use Prim.Native.Char.{code}
use Prim.Native.String.{[], ◌∷◌}
use be_auction_lot.Prelude.{
  ℕ, zero, suc, ◌+◌, ◌*◌, ◌/◌, ◌%◌, ◌^◌, ◌<◌, String, true, some, ltb, leb, ◌≡◌, refl, arith,
  Bool-cases, inl, inr,
}
use be_auction_lot.Prelude.Int.{ℤ, pos, negsuc}
use be_auction_lot.Strconv.{
  digit, emit, itoa, digit_value, scan, scan_digits, positive, negated, atoi,
}

digit_value-digit : (d : ℕ) → d < 10 → digit_value (digit d) ≡ some d
unfolding digit_value
digit_value-digit zero h = refl
digit_value-digit (suc zero) h = refl
digit_value-digit (suc (suc zero)) h = refl
digit_value-digit (suc (suc (suc zero))) h = refl
digit_value-digit (suc (suc (suc (suc zero)))) h = refl
digit_value-digit (suc (suc (suc (suc (suc zero))))) h = refl
digit_value-digit (suc (suc (suc (suc (suc (suc zero)))))) h = refl
digit_value-digit (suc (suc (suc (suc (suc (suc (suc zero))))))) h = refl
digit_value-digit (suc (suc (suc (suc (suc (suc (suc (suc zero)))))))) h = refl
digit_value-digit (suc (suc (suc (suc (suc (suc (suc (suc (suc zero))))))))) h = refl
digit_value-digit (suc (suc (suc (suc (suc (suc (suc (suc (suc (suc d)))))))))) h =
    absurd (omega arith)

scan-digit : (n d : ℕ) (out : String) → d < 10 → scan n (digit d ∷ out) ≡ scan (n * 10 + d) out
unfolding scan
scan-digit n d out h = rw (digit_value-digit d h, scan) refl

scan-emit : (fuel n : ℕ) (out : String) → n < fuel → scan 0 (emit fuel n out) ≡ scan n out
unfolding emit
scan-emit zero n out h = absurd (omega arith)
scan-emit (suc fuel) n out h = ground (
  arith,
  scan-emit fuel (n / 10) (digit (n % 10) ∷ out),
  scan-digit 0 (n % 10) out (omega arith),
  scan-digit (n / 10) (n % 10) out (omega arith),
)

-- A text that begins with a digit.
abbrev StartsWithDigit : String → Type 0
StartsWithDigit [] = ⊥
StartsWithDigit (c ∷ s) = (leb b'0' (code c) ≡ true) × (leb (code c) b'9' ≡ true)

digit-StartsWithDigit : (d : ℕ) (s : String) → d < 10 → StartsWithDigit (digit d ∷ s)
unfolding digit_value
digit-StartsWithDigit d s h = ground (arith, digit_value-digit d h)

emit-StartsWithDigit_onto :
    (fuel n : ℕ) (out : String) → StartsWithDigit out → StartsWithDigit (emit fuel n out)
unfolding emit
emit-StartsWithDigit_onto zero n out h = h
emit-StartsWithDigit_onto (suc fuel) n out h = elim (Bool-cases (ltb n 10)) [
  | inl short ↦ rw short (digit-StartsWithDigit (n % 10) out (omega arith))
  | inr long ↦
      rw long (
        emit-StartsWithDigit_onto fuel (n / 10) _
          (digit-StartsWithDigit (n % 10) out (omega arith)))
]

emit-StartsWithDigit : (fuel n : ℕ) (out : String) → StartsWithDigit (emit (suc fuel) n out)
unfolding emit
emit-StartsWithDigit fuel n out = elim (Bool-cases (ltb n 10)) [
  | inl short ↦ rw short (digit-StartsWithDigit (n % 10) out (omega arith))
  | inr long ↦
      rw long (
        emit-StartsWithDigit_onto fuel (n / 10) _
          (digit-StartsWithDigit (n % 10) out (omega arith)))
]

scan_digits-scan : (s : String) → StartsWithDigit s → scan_digits s ≡ scan 0 s
unfolding scan_digits
scan_digits-scan [] h = absurd h
scan_digits-scan (c ∷ s) h = refl

atoi_unsigned : (s : String) → StartsWithDigit s → atoi s ≡ positive (scan_digits s)
unfolding atoi
atoi_unsigned [] h = absurd h
atoi_unsigned (c ∷ s) h = ground arith

atoi_minus : (s : String) → atoi ("-" ∷ s) ≡ negated (scan_digits s)
unfolding atoi
atoi_minus s = refl

scan_digits-emit : (n : ℕ) → scan_digits (emit (suc n) n []) ≡ some n
unfolding scan
scan_digits-emit n =
    rw (scan_digits-scan _ (emit-StartsWithDigit n n []), scan-emit (suc n) n [] (omega arith)) refl

-- The range of Go's `int`.
abbrev pub IsInt : ℤ → Type 0
IsInt (pos n) = n < 2 ^ 63
IsInt (negsuc n) = n < 2 ^ 63

-- Every 64-bit integer is read back from its decimal print.
pub atoi-itoa : (z : ℤ) → IsInt z → atoi (itoa z) ≡ some z
unfolding itoa
atoi-itoa (pos n) h =
    rw (atoi_unsigned _ (emit-StartsWithDigit n n []), scan_digits-emit n) (ground arith)
atoi-itoa (negsuc n) h = rw (atoi_minus, scan_digits-emit (suc n)) (ground arith)
