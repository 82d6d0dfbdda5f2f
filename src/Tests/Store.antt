-- ===== src/Tests/Store.antt =====
-- The file store, run: an empty store, one record, and the file that the append leaves.
use audit_logging.Common.{[], List, ◌∷◌, ◌++◌, ◌≡◌, ◌<◌, ◌⊎◌, refl, subst, none, some, arith}
use audit_logging.Text.{Text, codes, utf8_size}
use audit_logging.Text.Hex.{hex_encode}
use audit_logging.Text.Decimal.{format_uint}
use audit_logging.Server.Model.{ok, err, failure, LogRecord, Entry, ok_injective}
use audit_logging.Server.Codec.{sha256_hex}
use audit_logging.Server.Chain.{genesis, Link, entry_digest, preimage}
use audit_logging.Server.Chain.Tamper.{chain-determined, Clash}
use audit_logging.Server.FileStore.{
  FileStore, scan_lines, max_token_size, AppendEnv, whole, append, new_entry,
}
use audit_logging.Server.FileStore.Scan.{nil-IsTerminated}
use audit_logging.Server.FileStore.Verify.{verify, verify_lines, none_left}
use audit_logging.Server.FileStore.Open.{new_file_store}
use audit_logging.Server.FileStore.Coherent.{IsCoherent}
use audit_logging.Server.FileStore.Laws.{Extended, append_extends, new_file_store-IsCoherent}
use audit_logging.Tests.Toy
use audit_logging.Tests.Toy.{toy, toy-IsDigest, toy-IsJson}

abbrev calm : AppendEnv
calm = record { now = codes "T"; open_error = none; written = whole }

abbrev stuck : AppendEnv
stuck = record calm { open_error = some (failure (codes "disk full")) }

abbrev first : LogRecord
first = record {
  client_id = codes "c";
  app = codes "a";
  level = codes "l";
  message = codes "m";
  metadata = none;
}

abbrev fresh : FileStore
fresh = record { last_hash = genesis; last_index = 0; content = some [] }

fresh-IsCoherent : IsCoherent toy fresh []
unfolding scan_lines
fresh-IsCoherent = record {
  text = [];
  content = refl;
  terminated = nil-IsTerminated;
  holds = none_left;
  chain = tt;
  last_index = refl;
  last_hash = refl;
}

abbrev payload : Text
payload = Toy.fields_text (Toy.record_fields first)

abbrev first_entry : Entry
first_entry = record {
  index = 1;
  timestamp = codes "T";
  prev_hash = genesis;
  payload_hash = sha256_hex toy payload;
  entry_hash = entry_digest toy 1 (codes "T") (sha256_hex toy payload) genesis;
  log_record = first;
}

abbrev line : Text
line = Toy.fields_text (Toy.entry_fields first_entry)

abbrev grown : FileStore
grown = record {
  last_hash = first_entry.entry_hash;
  last_index = 1;
  content = some (line ++ (b'\n' ∷ []));
}

run : append toy calm first fresh ≡ (ok first_entry, grown)
unfolding append new_entry
run = refl

line_size : utf8_size line < max_token_size
unfolding utf8_size sha256_hex entry_digest hex_encode preimage format_uint
line_size = omega arith

extended : Extended toy first fresh [] first_entry grown
extended =
    append_extends toy calm first fresh [] first_entry grown toy-IsJson fresh-IsCoherent run
      (λ l h. subst (λ (t : Text). utf8_size t < max_token_size) (ok_injective h) line_size)

append_extends_example : Extended toy first fresh [] first_entry grown
append_extends_example =
    append_extends toy calm first fresh [] first_entry grown toy-IsJson fresh-IsCoherent run
      (λ l h. subst (λ (t : Text). utf8_size t < max_token_size) (ok_injective h) line_size)

failed : append toy stuck first fresh ≡ (err (failure (codes "disk full")), fresh)
unfolding append new_entry
failed = refl

opened :
    new_file_store toy
      (record { mkdir_error = none; stat_error = none; create_error = none })
      (some [])
    ≡ ok fresh
unfolding new_file_store verify verify_lines scan_lines
opened = refl

new_file_store-IsCoherent_example :
    (fresh.content ≡ some []) × (links : List Link) × IsCoherent toy fresh links
new_file_store-IsCoherent_example =
    new_file_store-IsCoherent toy
      (record { mkdir_error = none; stat_error = none; create_error = none }) (some []) fresh
      nil-IsTerminated opened

chain-determined_example :
    ((extended.link ∷ []) ≡ (extended.link ∷ []))
    ⊎ Clash toy 1 genesis genesis (extended.link ∷ []) (extended.link ∷ [])
chain-determined_example =
    chain-determined toy toy-IsDigest (extended.link ∷ []) (extended.link ∷ []) refl
      extended.coherent.chain extended.coherent.chain refl
