-- ===== src/Text.antt =====
-- Go strings as lists of code points: every text that the program holds is valid UTF-8 (what the
-- JSON decoder and the HTTP library hand over), and `utf8_size` counts its bytes where Go counts
-- bytes. The functions of the packages strings, strconv and encoding/base64 that the program calls.
pub mod Equal
pub mod Space
pub mod Fold
pub mod Split
pub mod Decimal
pub mod Base64
pub mod Hex
pub mod Order
use Prim.Native.Char.{code}
use Prim.Native.String.{String}
use audit_logging.Common.{
  ℕ, ◌+◌, List, [], ◌∷◌, Bool, true, false, ◌&&◌, ◌||◌, ltb, ◌==◌, if◌then◌else◌,
}

abbrev pub Text : Type 0
Text = List ℕ

-- The code points of a literal.
abbrev pub codes : String → Text
codes String.[] = []
codes (String.◌∷◌ c s) = code c ∷ codes s

abbrev pub is_empty : Text → Bool
is_empty [] = true
is_empty (c ∷ s) = false

-- `s == t`
unfoldable pub equal : Text → Text → Bool
equal [] [] = true
equal (a ∷ s) (b ∷ t) = a == b && equal s t
equal _ _ = false

-- The number of bytes of one code point, and of a text.
abbrev pub utf8_width : ℕ → ℕ
utf8_width c = if ltb c 128 then 1 else if ltb c 2048 then 2 else if ltb c 65536 then 3 else 4

unfoldable pub utf8_size : Text → ℕ
utf8_size [] = 0
utf8_size (c ∷ s) = utf8_width c + utf8_size s

-- strings.HasPrefix(s, p)
unfoldable pub has_prefix : Text → Text → Bool
has_prefix s [] = true
has_prefix [] (b ∷ p) = false
has_prefix (a ∷ s) (b ∷ p) = a == b && has_prefix s p

-- strings.Contains(s, p)
unfoldable pub contains : Text → Text → Bool
unfolding has_prefix
contains [] p = has_prefix [] p
contains (a ∷ s) p = has_prefix (a ∷ s) p || contains s p
