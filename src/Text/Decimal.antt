-- ===== src/Text/Decimal.antt =====
-- strconv: FormatUint, ParseUint (base 10, 64 bits), Atoi and ParseInt, and the verb %d.
use audit_logging.Common.{
  ℕ, zero, suc, ◌+◌, ◌-◌, ◌*◌, ◌/◌, ◌%◌, ◌^◌, ◌<◌, ◌≤◌, [], ◌∷◌, ◌≡◌, ◌≢◌, refl, Bool, true, false,
  ◌||◌, ◌&&◌, arith, ltb, leb, ◌==◌, if◌then◌else◌, Option, none, some, All, Bool-cases, inl, inr,
  ltb→lt, ◌∙◌,
}
use audit_logging.Common.Int.{ℤ, pos, negsuc}
use audit_logging.Text.{Text, codes}
use native.Mathlib.Nat.{pow-suc}

abbrev pub max_uint64 : ℕ
max_uint64 = 2 ^ 64 - 1

abbrev pub max_int64 : ℕ
max_int64 = 2 ^ 63 - 1

-- The digits of `n` in front of `out`; the fuel bounds their number.
digits : ℕ → ℕ → Text → Text
digits zero n out = out
digits (suc f) n out =
    let rest = digits f (n / 10) ((b'0' + n % 10) ∷ out) in
    if ltb n 10 then (b'0' + n) ∷ out else rest

-- strconv.FormatUint(n, 10): a 64-bit number has at most 20 digits.
unfoldable pub format_uint : ℕ → Text
unfolding digits
format_uint n = digits 20 n []

-- fmt's %d of a signed number
unfoldable pub format_int : ℤ → Text
format_int (pos n) = format_uint n
format_int (negsuc n) = b'-' ∷ format_uint (suc n)

pub data NumError : Type 0 where
  syntax range : NumError

-- A value and the error that came with it, as strconv returns them.
abbrev is_digit : ℕ → Bool
is_digit c = leb b'0' c && leb c b'9'

-- the loop of ParseUint; `cutoff` is the first number whose product by ten does not fit
scan : Text → ℕ → ℕ × Option NumError
scan [] n = (n, none)
scan (c ∷ s) n =
    let n1 = (n * 10 + (c - b'0')) % 2 ^ 64 in
    let rest = scan s n1 in
    if leb b'0' c && leb c b'9'
    then (if leb (max_uint64 / 10 + 1) n || ltb n1 (n * 10) then (max_uint64, some range) else rest)
    else (0, some syntax)

unfoldable pub parse_uint : Text → ℕ × Option NumError
unfolding scan
parse_uint [] = (0, some syntax)
parse_uint (c ∷ s) = scan (c ∷ s) 0

-- the value of ParseInt for a sign and what ParseUint made of the digits
signed : Bool → ℕ × Option NumError → ℤ × Option NumError
signed neg (n, some syntax) = (pos 0, some syntax)
signed false (n, e) = if leb (2 ^ 63) n then (pos max_int64, some range) else (pos n, none)
signed true (n, e) =
    if ltb (2 ^ 63) n
    then (negsuc max_int64, some range)
    else (if n == 0 then pos 0 else negsuc (n - 1), none)

-- strconv.ParseInt(s, 10, 64), and strconv.Atoi, whose `int` has 64 bits
unfoldable pub parse_int : Text → ℤ × Option NumError
unfolding signed parse_uint
parse_int [] = (pos 0, some syntax)
parse_int (c ∷ s) =
    if c == b'-'
    then signed true (parse_uint s)
    else if c == b'+'
    then signed false (parse_uint s)
    else signed false (parse_uint (c ∷ s))

atoi_tests :
    (parse_int (codes "-17") ≡ (negsuc 16, none))
    × (parse_int (codes "+5") ≡ (pos 5, none))
    × (parse_int (codes "12x") ≡ (pos 0, some syntax))
    × (parse_int (codes "99999999999999999999") ≡ (pos max_int64, some range))
    × (parse_uint (codes "18446744073709551615") ≡ (max_uint64, none))
    × (parse_uint (codes "18446744073709551616") ≡ (max_uint64, some range))
    × (format_uint 18446744073709551615 ≡ codes "18446744073709551615")
unfolding parse_int format_uint
atoi_tests = (refl, refl, refl, refl, refl, refl, refl)

-- Reading the last digit of `n` after the digits before it gives `n`.
scan_digit :
    (n : ℕ) (out : Text) → n ≤ max_uint64 → scan ((b'0' + n % 10) ∷ out) (n / 10) ≡ scan out n
unfolding scan
scan_digit n out h = ground arith

scan_first : (n : ℕ) (out : Text) → n < 10 → scan ((b'0' + n) ∷ out) 0 ≡ scan out n
unfolding scan
scan_first n out h = ground arith

scan-digits :
    (f n : ℕ) (out : Text) → n < 10 ^ f → n ≤ max_uint64 → scan (digits f n out) 0 ≡ scan out n
unfolding digits
scan-digits zero n out h k = let e : n ≡ 0 = omega arith in rw e
scan-digits (suc f) n out h k =
    let below : n < 10 ^ f * 10 = rw (← pow-suc) h in
    elim (Bool-cases (ltb n 10)) [
      | inl e ↦ rw e (scan_first n out (ltb→lt n 10 e))
      | inr e ↦ rw e (
          scan-digits f (n / 10) ((b'0' + n % 10) ∷ out) (omega arith) (omega arith)
          ∙ scan_digit n out k)
    ]

-- The printed digits, in front of `out`.
digits-All :
    (P : ℕ → Type 0)
    → ((d : ℕ) → d < 10 → P (b'0' + d))
    → (f n : ℕ) (out : Text) → All P out
    → All P (digits f n out)
unfolding digits
digits-All P p zero n out h = h
digits-All P p (suc f) n out h = elim (Bool-cases (ltb n 10)) [
  | inl e ↦ rw e (p n (ltb→lt n 10 e), h)
  | inr e ↦ rw e (digits-All P p f (n / 10) _ (p (n % 10) (omega arith), h))
]

digits-ne-nil : (f n : ℕ) (out : Text) → out ≢ [] → digits f n out ≢ []
unfolding digits
digits-ne-nil zero n out h = h
digits-ne-nil (suc f) n out h = elim (Bool-cases (ltb n 10)) [
  | inl e ↦ rw e (cc)
  | inr e ↦ rw e (digits-ne-nil f (n / 10) _ (cc))
]

parse_uint-scan : (s : Text) → s ≢ [] → parse_uint s ≡ scan s 0
unfolding parse_uint
parse_uint-scan [] h = absurd (h refl)
parse_uint-scan (c ∷ s) h = refl

pub format_uint-ne-nil : (n : ℕ) → format_uint n ≢ []
unfolding format_uint
format_uint-ne-nil n = elim (Bool-cases (ltb n 10)) [
  | inl e ↦ rw e (cc)
  | inr e ↦ rw e (digits-ne-nil 19 (n / 10) _ (cc))
]

-- A 64-bit number is read back from its print.
pub parse_uint-format_uint : (n : ℕ) → n ≤ max_uint64 → parse_uint (format_uint n) ≡ (n, none)
parse_uint-format_uint n h =
    parse_uint-scan (format_uint n) (format_uint-ne-nil n)
    ∙ (unfold format_uint scan in scan-digits 20 n [] (omega arith) h)

-- Every character of a print is a digit.
pub format_uint-All :
    (P : ℕ → Type 0) → ((d : ℕ) → d < 10 → P (b'0' + d)) → (n : ℕ) → All P (format_uint n)
unfolding format_uint
format_uint-All P p n = digits-All P p 20 n [] tt
