-- ===== src/Text/Hex.antt =====
-- encoding/hex: EncodeToString.
use audit_logging.Common.{
  ℕ, ◌+◌, ◌-◌, ◌/◌, ◌%◌, ◌*◌, ◌<◌, ◌≤◌, List, [], ◌∷◌, ◌≡◌, ◌≢◌, refl, arith, ltb, if◌then◌else◌,
  All, length,
}
use audit_logging.Text.{Text, codes}

hex_digit : ℕ → ℕ
hex_digit d = if ltb d 10 then b'0' + d else b'a' + (d - 10)

unfoldable pub hex_encode : List ℕ → Text
unfolding hex_digit
hex_encode [] = []
hex_encode (b ∷ bs) = hex_digit (b / 16) ∷ hex_digit (b % 16) ∷ hex_encode bs

hex_test : hex_encode (0 ∷ 255 ∷ 26 ∷ []) ≡ codes "00ff1a"
unfolding hex_encode
hex_test = refl

hex_digit_word :
    (d : ℕ) → d < 16 → (b'0' ≤ hex_digit d) × (hex_digit d ≤ b'f') × (hex_digit d ≢ b'_')
unfolding hex_digit
hex_digit_word d h = ground arith

-- The digits are hexadecimal, in lower case.
abbrev pub IsHex : ℕ → Type 0
IsHex c = (b'0' ≤ c) × (c ≤ b'f') × (c ≢ b'_')

pub hex_encode-IsHex : (bs : List ℕ) → All (λ b. b < 256) bs → All IsHex (hex_encode bs)
unfolding hex_encode
hex_encode-IsHex [] h = tt
hex_encode-IsHex (b ∷ bs) h = (
  hex_digit_word (b / 16) (omega arith),
  (hex_digit_word (b % 16) (omega arith), hex_encode-IsHex bs h.1),
)

pub length-hex_encode : (bs : List ℕ) → length (hex_encode bs) ≡ 2 * length bs
unfolding hex_encode
length-hex_encode [] = omega arith
length-hex_encode (b ∷ bs) = omega (arith, length-hex_encode bs)
