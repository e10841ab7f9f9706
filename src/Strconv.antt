-- ===== src/Strconv.antt =====
-- Package strconv as internal/imagestore uses it: `Itoa` and `Atoi` over 64-bit `int`.
pub mod RoundTrip
use Prim.Native.Char.{Char, code}
use Prim.Native.String.{[], ◌∷◌}
use be_auction_lot.Prelude.{
  ℕ, zero, suc, ◌+◌, ◌-◌, ◌*◌, ◌/◌, ◌%◌, ◌^◌, String, Bool, ◌&&◌, Option, none, some, ltb, leb,
  ◌==◌, if◌then◌else◌,
}
use be_auction_lot.Prelude.Int.{ℤ, pos, negsuc}

abbrev pub digit : ℕ → Char
digit zero = "0"
digit (suc zero) = "1"
digit (suc (suc zero)) = "2"
digit (suc (suc (suc zero))) = "3"
digit (suc (suc (suc (suc zero)))) = "4"
digit (suc (suc (suc (suc (suc zero))))) = "5"
digit (suc (suc (suc (suc (suc (suc zero)))))) = "6"
digit (suc (suc (suc (suc (suc (suc (suc zero))))))) = "7"
digit (suc (suc (suc (suc (suc (suc (suc (suc zero)))))))) = "8"
digit _ = "9"

-- The digits of `n` in front of `out`; a fuel above `n` is enough.
unfoldable pub emit : ℕ → ℕ → String → String
emit zero n out = out
emit (suc fuel) n out =
    let longer = digit (n % 10) ∷ out in
    let more = emit fuel (n / 10) longer in if ltb n 10 then longer else more

unfoldable pub itoa : ℤ → String
itoa (pos n) = emit (suc n) n []
itoa (negsuc n) = "-" ∷ emit (suc (suc n)) (suc n) []

unfoldable pub digit_value : Char → Option ℕ
digit_value c = if leb b'0' (code c) && leb (code c) b'9' then some (code c - b'0') else none

-- The loop over the digits, from the number read so far.
unfoldable pub scan : ℕ → String → Option ℕ
scan n [] = some n
scan n (c ∷ s) = elim (digit_value c) [ none ↦ none | some d ↦ scan (n * 10 + d) s ]

-- At least one digit.
unfoldable pub scan_digits : String → Option ℕ
scan_digits [] = none
scan_digits (c ∷ s) = scan 0 (c ∷ s)

-- `int` has 64 bits; a number out of range is an error.
abbrev pub positive : Option ℕ → Option ℤ
positive none = none
positive (some n) = if ltb n (2 ^ 63) then some (pos n) else none

abbrev pub negated : Option ℕ → Option ℤ
negated none = none
negated (some zero) = some (pos 0)
negated (some (suc n)) = if ltb n (2 ^ 63) then some (negsuc n) else none

unfoldable pub atoi : String → Option ℤ
atoi [] = none
atoi (c ∷ s) =
    if code c == b'-'
    then negated (scan_digits s)
    else if code c == b'+'
    then positive (scan_digits s)
    else positive (scan_digits (c ∷ s))
