-- ===== src/Server/Cursor.antt =====
-- encodeCursor and decodeCursor of cmd/server/query.go.
use audit_logging.Common.{
  ℕ, ◌≤◌, ◌++◌, ◌≡◌, refl, ap, ◌∙◌, false, not, Option, none, some, arith, ltb, ◌^◌, if◌then◌else◌,
  All, All-append,
}
use audit_logging.Text.{Text, codes, has_prefix}
use audit_logging.Text.Space.{is_space, NoSpace, trim_space, trim_space-NoSpace}
use audit_logging.Text.Split.{trim_prefix, has_prefix-append, trim_prefix-append}
use audit_logging.Text.Decimal.{
  max_int64, format_uint, format_uint-All, parse_uint, parse_uint-format_uint, NumError,
}
use audit_logging.Text.Base64.{
  IsByte, base64_encode, base64_encode-All, base64_decode, base64_decode-base64_encode,
}
use audit_logging.Server.Model.{Result, ok, err, failure}

abbrev pub cursor_version : Text
cursor_version = codes "v1:"

unfoldable pub encode_cursor : ℕ → Text
encode_cursor index = base64_encode (cursor_version ++ format_uint index)

abbrev pub invalid_cursor {ℓ} : {A : Type ℓ} → Result A
invalid_cursor = err (failure (codes "invalid cursor"))

-- what decodeCursor makes of the number that it read
accept_index : ℕ × Option NumError → Result ℕ
accept_index (index, some e) = invalid_cursor
accept_index (index, none) = if ltb max_int64 index then invalid_cursor else ok index

-- ... and of the decoded text, if there is one
accept_payload : Option Text → Result ℕ
accept_payload none = invalid_cursor
accept_payload (some payload) =
    if not (has_prefix payload cursor_version)
    then invalid_cursor
    else accept_index (parse_uint (trim_prefix payload cursor_version))

unfoldable pub decode_cursor : Text → Result ℕ
unfolding accept_payload accept_index
decode_cursor raw = accept_payload (base64_decode (trim_space raw))

cursor_test :
    (encode_cursor 1427 ≡ codes "djE6MTQyNw")
    × (decode_cursor (codes " djE6MTQyNw ") ≡ ok 1427)
    × (decode_cursor (encode_cursor (2 ^ 63)) ≡ invalid_cursor)
    × (decode_cursor (codes "MTQyNw") ≡ invalid_cursor)
unfolding encode_cursor decode_cursor base64_encode base64_decode format_uint parse_uint trim_space
    trim_prefix has_prefix
cursor_test = (refl, refl, refl, refl)

payload-IsByte : (index : ℕ) → All IsByte (cursor_version ++ format_uint index)
payload-IsByte index =
    All-append IsByte cursor_version (format_uint index) (omega arith)
      (format_uint-All IsByte (λ d h. omega arith) index)

encode_cursor-NoSpace : (index : ℕ) → NoSpace (encode_cursor index)
unfolding encode_cursor
encode_cursor-NoSpace index =
    base64_encode-All (λ c. is_space c ≡ false) (λ c lo hi. unfold is_space in ground arith)
      (cursor_version ++ format_uint index) (payload-IsByte index)

accept_index-le : (index : ℕ) → index ≤ max_int64 → accept_index (index, none) ≡ ok index
unfolding accept_index
accept_index-le index h = ground arith

accept_payload-format_uint :
    (index : ℕ)
    → index ≤ max_int64
    → accept_payload (some (cursor_version ++ format_uint index)) ≡ ok index
unfolding accept_payload
accept_payload-format_uint index h = rw (has_prefix-append cursor_version (format_uint index)) (
    ap (λ t. accept_index (parse_uint t)) (trim_prefix-append cursor_version (format_uint index))
    ∙ ap accept_index (parse_uint-format_uint index (omega arith))
    ∙ accept_index-le index h)

decode_cursor_lem :
    (raw : Text) → decode_cursor raw ≡ accept_payload (base64_decode (trim_space raw))
unfolding decode_cursor
decode_cursor_lem raw = refl

base64_decode-encode_cursor :
    (index : ℕ) → base64_decode (encode_cursor index) ≡ some (cursor_version ++ format_uint index)
unfolding encode_cursor
base64_decode-encode_cursor index = base64_decode-base64_encode _ (payload-IsByte index)

-- A cursor that the server hands out is read back as the position that it stands for.
pub decode_cursor-encode_cursor :
    (index : ℕ) → index ≤ max_int64 → decode_cursor (encode_cursor index) ≡ ok index
decode_cursor-encode_cursor index h =
    decode_cursor_lem (encode_cursor index)
    ∙ ap (λ t. accept_payload (base64_decode t))
        (trim_space-NoSpace _ (encode_cursor-NoSpace index))
    ∙ ap accept_payload (base64_decode-encode_cursor index)
    ∙ accept_payload-format_uint index h

-- A cursor that is accepted, whoever made it up, is a position that fits in a signed word.
pub decode_cursor-le-max_int64 :
    (raw : Text) (index : ℕ) → decode_cursor raw ≡ ok index → index ≤ max_int64
unfolding decode_cursor
decode_cursor-le-max_int64 raw index e = ground arith
