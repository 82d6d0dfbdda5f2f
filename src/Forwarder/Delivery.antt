-- ===== src/Forwarder/Delivery.antt =====
-- cmd/log-forwarder/delivery.go: the request that carries an event, and the file for those that fail.
pub mod Laws
use audit_logging.Common.{ℕ, [], List, ◌∷◌, ◌++◌, Option, none, some, take}
use audit_logging.Common.Int.{ℤ}
use audit_logging.Text.{Text, codes}
use audit_logging.Text.Space.{trim_space}
use audit_logging.Text.Decimal.{format_int}
use audit_logging.Text.Hex.{hex_encode}
use audit_logging.Json.{num, str, Object}
use audit_logging.Server.Model.{Error, error_text, Result, ok, err}
use audit_logging.Client.{LogRequest, Client, World, Run, write_log}
use audit_logging.Forwarder.Checkpoint.{about}
use audit_logging.Forwarder.Parser.{NormalizedEvent, put}

pub record DeadLetterEntry : Type 0 where
  pub created_at : Text
  pub error : Text
  pub source_file : Text
  pub source_offset : ℤ
  pub payload : LogRequest

-- the fields of an event over those that are there
unfoldable pub put_all : Object → Object → Object
put_all m [] = m
put_all m ((k, v) ∷ fields) = put_all (put k v m) fields

unfoldable pub build_payload : NormalizedEvent → Text → LogRequest
unfolding put_all
build_payload parsed key = record {
  app = parsed.app;
  level = parsed.level;
  message = parsed.message;
  metadata = some (
      put_all
        ((codes "source_file", str parsed.source_file)
          ∷ (codes "source_offset", num (format_int parsed.source_offset))
          ∷ (codes "source_timestamp_raw", str parsed.timestamp_raw)
          ∷ (codes "parser_mode", str parsed.parser_mode)
          ∷ (codes "raw_line", str parsed.raw_line)
          ∷ (codes "idempotency_key", str key)
          ∷ [])
        parsed.additional_fields);
}

-- The digest is sha256.Sum256 of a text's bytes.
unfoldable pub compute_idempotency_key : (Text → List ℕ) → Text → Text → ℤ → Text → Text
compute_idempotency_key digest app_name source_file source_offset raw_line = hex_encode (
    digest (
      app_name
      ++ (b'|'
          ∷ (source_file ++ (b'|' ∷ (format_int source_offset ++ (b'|' ∷ trim_space raw_line)))))))

-- What the calls of one dead letter answer; a write that breaks off leaves some bytes.
pub record Letters : Type 0 where
  pub mkdir : Option Error
  pub now : Text
  pub marshal : DeadLetterEntry → Result Text
  pub open_error : Option Error
  pub write : Option (Error × ℕ)

-- the write at the end of the file
unfoldable pub appended : Letters → Text → Text → Option Error × Text
appended k file bytes = elim k.write [
  | some p ↦ (some (about (codes "append dead-letter entry") p.0), file ++ take p.1 bytes)
  | none ↦ (none, file ++ bytes)
]

unfoldable pub opened : Letters → Text → Result Text → Option Error × Text
unfolding appended
opened k file (err e) = (some (about (codes "marshal dead-letter entry") e), file)
opened k file (ok bytes) = elim k.open_error [
  | some e ↦ (some (about (codes "open dead-letter file") e), file)
  | none ↦ appended k file (bytes ++ (10 ∷ []))
]

unfoldable pub write_dead_letter :
    Letters → LogRequest → Text → ℤ → Error → Text → Option Error × Text
unfolding opened
write_dead_letter k payload source_file source_offset delivery_error file = elim k.mkdir [
  | some e ↦ (some (about (codes "mkdir dead-letter dir") e), file)
  | none ↦ opened k file (
      k.marshal record {
        created_at = k.now;
        error = error_text delivery_error;
        source_file = source_file;
        source_offset = source_offset;
        payload = payload;
      })
]

-- the key of an event
abbrev pub key_of : (Text → List ℕ) → NormalizedEvent → Text
key_of digest parsed =
    compute_idempotency_key digest parsed.app parsed.source_file parsed.source_offset
      parsed.raw_line

-- the client once its headers are set for an event
abbrev pub keyed : Client → Text → Client
keyed client key = record client { headers = (codes "x-idempotency-key", key) ∷ [] }

-- DeliverParsedEvent; the deadline of the request is the world's.
unfoldable pub deliver_parsed_event : (Text → List ℕ) → World → Client → NormalizedEvent → Run
deliver_parsed_event digest w client parsed =
    write_log w (keyed client (key_of digest parsed)) (build_payload parsed (key_of digest parsed))
