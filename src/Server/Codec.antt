-- ===== src/Server/Codec.antt =====
-- What the service takes from encoding/json and crypto/sha256. `marshal_metadata` is the text that
-- `matchesQuery` goes on with, which drops the error.
use audit_logging.Common.{ℕ, ◌<◌, ◌≡◌, ◌≢◌, List, [], Option, All, length, arith}
use audit_logging.Text.{Text}
use audit_logging.Text.Equal.{Lacks}
use audit_logging.Text.Space.{trim_space}
use audit_logging.Text.Hex.{hex_encode, hex_encode-IsHex, IsHex, length-hex_encode}
use audit_logging.Json.{Object}
use audit_logging.Server.Model.{Result, ok, LogRecord, Entry}

pub record Codec : Type 0 where
  pub sum256 : Text → List ℕ
  pub marshal_record : LogRecord → Result Text
  pub marshal_entry : Entry → Result Text
  pub marshal_metadata : Option Object → Text
  pub unmarshal_entry : Text → Result Entry
  pub unmarshal_record : Text → Result LogRecord

-- A SHA-256 sum has 32 bytes.
pub record IsDigest (c : Codec) : Type 0 where
  pub bytes : (s : Text) → All (λ b. b < 256) (c.sum256 s)
  pub width : (s : Text) → length (c.sum256 s) ≡ 32

-- The two entries differ in their records at most, and those are marshalled alike: an empty
-- metadata map is left out, and comes back as nil.
pub record SameEntry (c : Codec) (d e : Entry) : Type 0 where
  pub index : d.index ≡ e.index
  pub timestamp : d.timestamp ≡ e.timestamp
  pub prev_hash : d.prev_hash ≡ e.prev_hash
  pub payload_hash : d.payload_hash ≡ e.payload_hash
  pub entry_hash : d.entry_hash ≡ e.entry_hash
  pub log_record : c.marshal_record d.log_record ≡ c.marshal_record e.log_record

-- A marshalled entry is one object in braces on one line, and is read back.
pub record IsJson (c : Codec) : Type 0 where
  pub one_line : (e : Entry) (s : Text) → c.marshal_entry e ≡ ok s → Lacks b'\n' s
  pub no_margin : (e : Entry) (s : Text) → c.marshal_entry e ≡ ok s → trim_space s ≡ s
  pub not_empty : (e : Entry) (s : Text) → c.marshal_entry e ≡ ok s → s ≢ []
  pub no_return : (e : Entry) (s : Text) → c.marshal_entry e ≡ ok s → Lacks b'\r' s
  pub round_trip :
      (e : Entry) (s : Text)
      → c.marshal_entry e ≡ ok s
      → (d : Entry) × (c.unmarshal_entry s ≡ ok d) × SameEntry c d e

-- sha256Hex
unfoldable pub sha256_hex : Codec → Text → Text
sha256_hex c input = hex_encode (c.sum256 input)

pub sha256_hex-IsHex : (c : Codec) → IsDigest c → (s : Text) → All IsHex (sha256_hex c s)
unfolding sha256_hex
sha256_hex-IsHex c d s = hex_encode-IsHex (c.sum256 s) (d.bytes s)

pub length-sha256_hex : (c : Codec) → IsDigest c → (s : Text) → length (sha256_hex c s) ≡ 64
unfolding sha256_hex
length-sha256_hex c d s = omega (arith, length-hex_encode (c.sum256 s), d.width s)
