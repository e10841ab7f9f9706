-- ===== src/Encoding.antt =====
-- Packages encoding/hex and encoding/base64 as `hexToBase64` of internal/imagestore uses them.
use Prim.Native.Char.{Char, code}
use Prim.Native.String.{[], ◌∷◌}
use be_auction_lot.Prelude.{
  ℕ, zero, suc, ◌+◌, ◌-◌, ◌*◌, ◌/◌, ◌%◌, String, ◌&&◌, Option, none, some, List, leb, if◌then◌else◌,
}

unfoldable pub hex_value : Char → Option ℕ
hex_value c =
    if leb b'0' (code c) && leb (code c) b'9'
    then some (code c - b'0')
    else if leb b'a' (code c) && leb (code c) b'f'
    then some (code c - b'a' + 10)
    else if leb b'A' (code c) && leb (code c) b'F'
    then some (code c - b'A' + 10)
    else none

-- One byte in front of the rest, if all is well.
abbrev pub byte_then : Option ℕ → Option ℕ → Option (List ℕ) → Option (List ℕ)
byte_then (some hi) (some lo) (some bs) = some (List.◌∷◌ (hi * 16 + lo) bs)
byte_then _ _ _ = none

-- `hex.DecodeString`: an odd length or a byte that is no hex digit is an error.
unfoldable pub decode_string : String → Option (List ℕ)
unfolding hex_value
decode_string [] = some List.[]
decode_string (c ∷ []) = none
decode_string (c ∷ (d ∷ s)) = byte_then (hex_value c) (hex_value d) (decode_string s)

-- The character at an index; "=" behind the end.
abbrev pub char_at : String → ℕ → Char
char_at [] i = "="
char_at (c ∷ s) zero = c
char_at (c ∷ s) (suc i) = char_at s i

unfoldable pub base64_char : ℕ → Char
base64_char = char_at "ABCDEFGHIJKLMNOPQRSTUVWXYZabcdefghijklmnopqrstuvwxyz0123456789+/"

-- `base64.StdEncoding.EncodeToString`
unfoldable pub encode_to_string : List ℕ → String
unfolding base64_char
encode_to_string List.[] = []
encode_to_string (List.◌∷◌ a List.[]) =
    base64_char (a / 4) ∷ (base64_char (a % 4 * 16) ∷ ("=" ∷ ("=" ∷ [])))
encode_to_string (List.◌∷◌ a (List.◌∷◌ b List.[])) =
    base64_char (a / 4)
    ∷ (base64_char (a % 4 * 16 + b / 16) ∷ (base64_char (b % 16 * 4) ∷ ("=" ∷ [])))
encode_to_string (List.◌∷◌ a (List.◌∷◌ b (List.◌∷◌ c rest))) =
    base64_char (a / 4)
    ∷ (base64_char (a % 4 * 16 + b / 16)
        ∷ (base64_char (b % 16 * 4 + c / 64) ∷ (base64_char (c % 64) ∷ encode_to_string rest)))

unfoldable pub hex_to_base64 : String → Option String
hex_to_base64 hex_string = elim (decode_string hex_string) [
  | none ↦ none
  | some hex_byte ↦ some (encode_to_string hex_byte)
]
