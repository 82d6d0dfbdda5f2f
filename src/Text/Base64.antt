-- ===== src/Text/Base64.antt =====
-- encoding/base64, RawURLEncoding: the URL alphabet, no padding, not strict about trailing bits.
-- The codec works on bytes; every text that the program encodes is ASCII, one byte a code point.
use audit_logging.Common.{
  ℕ, ◌+◌, ◌-◌, ◌*◌, ◌/◌, ◌%◌, ◌<◌, ◌≤◌, [], ◌∷◌, ◌≡◌, refl, ◌||◌, ◌&&◌, arith, ltb, leb, ◌==◌,
  if◌then◌else◌, Option, none, some, All,
}
use audit_logging.Text.{Text, codes}

-- The character of a value below 64, and the value of a character.
symbol : ℕ → ℕ
symbol v =
    if ltb v 26
    then b'A' + v
    else if ltb v 52
    then b'a' + (v - 26)
    else if ltb v 62
    then b'0' + (v - 52)
    else if v == 62
    then b'-'
    else b'_'

symbol_value : ℕ → Option ℕ
symbol_value c =
    if leb b'A' c && leb c b'Z'
    then some (c - b'A')
    else if leb b'a' c && leb c b'z'
    then some (c - b'a' + 26)
    else if leb b'0' c && leb c b'9'
    then some (c - b'0' + 52)
    else if c == b'-'
    then some 62
    else if c == b'_'
    then some 63
    else none

-- EncodeToString
unfoldable pub base64_encode : Text → Text
unfolding symbol
base64_encode [] = []
base64_encode (a ∷ []) = symbol (a / 4) ∷ symbol (a % 4 * 16) ∷ []
base64_encode (a ∷ b ∷ []) =
    symbol (a / 4) ∷ symbol (a % 4 * 16 + b / 16) ∷ symbol (b % 16 * 4) ∷ []
base64_encode (a ∷ b ∷ c ∷ s) =
    symbol (a / 4)
    ∷ symbol (a % 4 * 16 + b / 16)
    ∷ symbol (b % 16 * 4 + c / 64)
    ∷ symbol (c % 64)
    ∷ base64_encode s

infixl 5 ◌>>=◌
abbrev ◌>>=◌ {ℓ κ} : {A : Type ℓ} {B : Type κ} → Option A → (A → Option B) → Option B
none >>= f = none
some a >>= f = f a

-- the characters that carry data: the decoder skips line ends
payload : Text → Text
payload [] = []
payload (c ∷ s) = let rest = payload s in if c == 10 || c == 13 then rest else c ∷ rest

-- the quanta of four characters; a last one of two or three ends the input, one of one is corrupt
quanta : Text → Option Text
unfolding symbol_value
quanta [] = some []
quanta (a ∷ []) = none
quanta (a ∷ b ∷ []) = do x ← symbol_value a; y ← symbol_value b; some ((x * 4 + y / 16) ∷ [])
quanta (a ∷ b ∷ c ∷ []) = do
  x ← symbol_value a
  y ← symbol_value b
  z ← symbol_value c
  some ((x * 4 + y / 16) ∷ (y % 16 * 16 + z / 4) ∷ [])
quanta (a ∷ b ∷ c ∷ d ∷ s) = do
  x ← symbol_value a
  y ← symbol_value b
  z ← symbol_value c
  w ← symbol_value d
  rest ← quanta s
  some ((x * 4 + y / 16) ∷ (y % 16 * 16 + z / 4) ∷ (z % 4 * 64 + w) ∷ rest)

-- DecodeString
unfoldable pub base64_decode : Text → Option Text
unfolding payload quanta
base64_decode s = quanta (payload s)

base64_tests :
    (base64_encode (codes "v1:1427") ≡ codes "djE6MTQyNw")
    × (base64_decode (codes "djE6MTQyNw") ≡ some (codes "v1:1427"))
    × (base64_decode (codes "djE6M") ≡ none)
    × (base64_decode (codes "dj!6") ≡ none)
unfolding base64_encode base64_decode
base64_tests = (refl, refl, refl, refl)

symbol_value-symbol : (v : ℕ) → v < 64 → symbol_value (symbol v) ≡ some v
unfolding symbol symbol_value
symbol_value-symbol v h = ground arith

symbol_word : (v : ℕ) → v < 64 → (b'-' ≤ symbol v) × (symbol v ≤ b'z')
unfolding symbol
symbol_word v h = ground arith

abbrev pub IsByte : ℕ → Type 0
IsByte b = b < 256

quanta-base64_encode : (s : Text) → All IsByte s → quanta (base64_encode s) ≡ some s
unfolding base64_encode quanta
quanta-base64_encode [] h = refl
quanta-base64_encode (a ∷ []) h =
    ground (arith, symbol_value-symbol (a / 4), symbol_value-symbol (a % 4 * 16))
quanta-base64_encode (a ∷ b ∷ []) h = ground (
  arith,
  symbol_value-symbol (a / 4),
  symbol_value-symbol (a % 4 * 16 + b / 16),
  symbol_value-symbol (b % 16 * 4),
)
quanta-base64_encode (a ∷ b ∷ c ∷ s) h = ground (
  arith,
  symbol_value-symbol (a / 4),
  symbol_value-symbol (a % 4 * 16 + b / 16),
  symbol_value-symbol (b % 16 * 4 + c / 64),
  symbol_value-symbol (c % 64),
  quanta-base64_encode s h.1.1.1,
)

symbol-P :
    (P : ℕ → Type 0) → ((c : ℕ) → b'-' ≤ c → c ≤ b'z' → P c) → (v : ℕ) → v < 64 → P (symbol v)
symbol-P P p v h = let (lo, hi) = symbol_word v h in p (symbol v) lo hi

-- The encoded text consists of letters, digits, dashes and underscores.
pub base64_encode-All :
    (P : ℕ → Type 0)
    → ((c : ℕ) → b'-' ≤ c → c ≤ b'z' → P c)
    → (s : Text) → All IsByte s
    → All P (base64_encode s)
unfolding base64_encode
base64_encode-All P p [] h = tt
base64_encode-All P p (a ∷ []) h =
    let q = symbol-P P p in (q (a / 4) (omega arith), (q (a % 4 * 16) (omega arith), tt))
base64_encode-All P p (a ∷ b ∷ []) h =
    let q = symbol-P P p in
    (
      q (a / 4) (omega arith),
      (q (a % 4 * 16 + b / 16) (omega arith), (q (b % 16 * 4) (omega arith), tt)),
    )
base64_encode-All P p (a ∷ b ∷ c ∷ s) h =
    let q = symbol-P P p in
    let rest = base64_encode-All P p s h.1.1.1 in
    (
      q (a / 4) (omega arith),
      (
        q (a % 4 * 16 + b / 16) (omega arith),
        (q (b % 16 * 4 + c / 64) (omega arith), (q (c % 64) (omega arith), rest)),
      ),
    )

payload-id : (s : Text) → All (λ c. b'-' ≤ c) s → payload s ≡ s
unfolding payload
payload-id [] h = refl
payload-id (c ∷ s) h = ground (arith, payload-id s h.1)

-- What was encoded is decoded.
pub base64_decode-base64_encode :
    (s : Text) → All IsByte s → base64_decode (base64_encode s) ≡ some s
unfolding base64_decode
base64_decode-base64_encode s h =
    rw (payload-id _ (base64_encode-All (λ c. b'-' ≤ c) (λ c p q. p) s h))
      (quanta-base64_encode s h)
