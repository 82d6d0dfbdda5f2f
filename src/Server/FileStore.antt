-- ===== src/Server/FileStore.antt =====
-- FileStore of cmd/server/main.go: an append-only file of JSON lines, and how it grows.
pub mod Scan
pub mod Verify
pub mod Open
pub mod Coherent
pub mod Laws
pub mod Query
pub mod Pages
use audit_logging.Common.{
  ℕ, ◌+◌, ◌*◌, ◌-◌, ◌%◌, ◌^◌, ◌<◌, List, [], ◌∷◌, ◌++◌, ◌≡◌, refl, Bool, true, false, not, ◌&&◌,
  Option, none, some, arith, ◌==◌, ltb, leb, if◌then◌else◌, length, take,
}
use audit_logging.Text.{Text, codes, is_empty, utf8_size}
use audit_logging.Text.Space.{trim_space}
use audit_logging.Server.Model.{
  Error, failure, Result, ok, err, ◌>>=◌, Stream, eof, broken, more, next_uint64, LogRecord, Entry,
  Reason, invalid_json, payload_marshal, VerifyResult,
}
use audit_logging.Server.Codec.{Codec, sha256_hex}
use audit_logging.Common.Int.{ℤ, pos, ltb_ℤ}
use audit_logging.Text.Decimal.{format_uint}
use audit_logging.Text.Fold.{Unicode}
use audit_logging.Server.Model.{LogQuery, LogQueryResult}
use audit_logging.Server.Cursor.{encode_cursor}
use audit_logging.Server.Match.{matches_query}
use audit_logging.Server.Chain.{genesis, entry_digest, Link, link_fault, invalid, intact}

-- The store's fields, and the content of its file, if there is one.
pub record FileStore : Type 0 where
  pub last_hash : Text
  pub last_index : ℕ
  pub content : Option Text

-- The buffer that `scanner.Buffer` grants, in bytes; a line and its end must fit.
abbrev pub max_token_size : ℕ
max_token_size = 1024 * 1024

-- bufio.ScanLines drops one return at a line's end.
pub drop_return : Text → Text
drop_return [] = []
drop_return (c ∷ s) = let rest = drop_return s in if c == b'\r' && is_empty s then [] else c ∷ rest

-- The text before the first line end, and the pieces behind it.
pub pieces : Text → Text × List Text
pieces [] = ([], [])
pieces (c ∷ s) = let (p, ps) = pieces s in if c == b'\n' then ([], p ∷ ps) else (c ∷ p, ps)

abbrev pub too_long : Error
too_long = failure (codes "bufio.Scanner: token too long")

-- What the scanner gives out for the pieces; the last one is a line only if it is not empty.
pub scan_pieces : Text → List Text → Stream Text
unfolding drop_return utf8_size
scan_pieces p [] =
    if is_empty p
    then eof
    else if ltb (utf8_size p) max_token_size
    then more (drop_return p) eof
    else broken too_long
scan_pieces p (q ∷ ps) =
    let rest = scan_pieces q ps in
    if ltb (utf8_size p) max_token_size then more (drop_return p) rest else broken too_long

-- The lines of a file, as `for scanner.Scan()` meets them.
unfoldable pub scan_lines : Text → Stream Text
unfolding pieces scan_pieces
scan_lines content = let (p, ps) = pieces content in scan_pieces p ps

abbrev pub no_such_file : Error
no_such_file = failure (codes "no such file or directory")

-- os.Open(s.path)
abbrev pub open_file : FileStore → Result Text
open_file s = elim s.content [ none ↦ err no_such_file | some text ↦ ok text ]

-- What the world answers to the calls of one `Append`: the clock, an error of os.OpenFile, and what
-- file.Write wrote. A write that fails may have written a part.
pub data Written : Type 0 where
  whole : Written
  torn : ℕ → Error → Written

pub record AppendEnv : Type 0 where
  pub now : Text
  pub open_error : Option Error
  pub written : Written

module _ (c : Codec) where
  -- the entry that Append builds behind `prev_hash`
  unfoldable pub new_entry : ℕ → Text → Text → LogRecord → Result Entry
  new_entry index timestamp prev_hash log_record = do
    payload ← c.marshal_record log_record
    let payload_hash = sha256_hex c payload
    ok (record {
      index = index;
      timestamp = timestamp;
      prev_hash = prev_hash;
      payload_hash = payload_hash;
      entry_hash = entry_digest c index timestamp payload_hash prev_hash;
      log_record = log_record;
    })

  -- what a file holds, once os.OpenFile has made sure that there is one
  abbrev pub held : Option Text → Text
  held none = []
  held (some text) = text

  -- file.Write, and the fields that are set if it succeeds
  pub write_entry : Written → Entry → Text → FileStore → Result Entry × FileStore
  write_entry whole entry line s = (
    ok entry,
    record s {
      content = some (held s.content ++ (line ++ (b'\n' ∷ [])));
      last_index = entry.index;
      last_hash = entry.entry_hash;
    },
  )
  write_entry (torn n e) entry line s =
      (err e, record s { content = some (held s.content ++ take n (line ++ (b'\n' ∷ []))) })

  -- os.OpenFile, which creates a missing file, and the write
  pub open_and_write : AppendEnv → Entry → Text → FileStore → Result Entry × FileStore
  unfolding write_entry
  open_and_write env entry line s = elim env.open_error [
    | some e ↦ (err e, s)
    | none ↦ write_entry env.written entry line s
  ]

  -- marshalling the entry, and storing it
  pub store_entry : AppendEnv → Result Entry → FileStore → Result Entry × FileStore
  unfolding open_and_write
  store_entry env (err e) s = (err e, s)
  store_entry env (ok entry) s = elim (c.marshal_entry entry) [
    | err e ↦ (err e, s)
    | ok line ↦ open_and_write env entry line s
  ]

  -- FileStore.Append
  unfoldable pub append : AppendEnv → LogRecord → FileStore → Result Entry × FileStore
  unfolding new_entry store_entry
  append env log_record s =
      store_entry env (new_entry (next_uint64 s.last_index) env.now s.last_hash log_record) s
