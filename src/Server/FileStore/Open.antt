-- ===== src/Server/FileStore/Open.antt =====
-- NewFileStore of cmd/server/main.go.
use audit_logging.Common.{ℕ, [], ◌++◌, ◌≡◌, true, Option, none, some, arith, if◌then◌else◌}
use audit_logging.Text.{Text, codes}
use audit_logging.Text.Decimal.{format_uint}
use audit_logging.Server.Model.{Error, failure, Result, ok, err, ◌>>=◌, VerifyResult, bind-eq-ok}
use audit_logging.Server.Codec.{Codec}
use audit_logging.Server.Chain.{genesis}
use audit_logging.Server.FileStore.{FileStore, scan_lines}
use audit_logging.Server.FileStore.Verify.{verify, verify_lines}

-- What the world answers to the calls of NewFileStore: errors of os.MkdirAll, of os.Stat other than
-- that there is no file, and of the os.WriteFile that creates an empty one.
pub record OpenEnv : Type 0 where
  pub mkdir_error : Option Error
  pub stat_error : Option Error
  pub create_error : Option Error

-- derefUint64
abbrev pub deref_uint64 : Option ℕ → ℕ
deref_uint64 none = 0
deref_uint64 (some n) = n

-- The text of a log file, empty where there is none.
abbrev pub or_empty : Option Text → Text
or_empty none = []
or_empty (some text) = text

-- make sure that there is a file
pub ensure_file : OpenEnv → Option Text → Result Text
ensure_file env content = elim env.mkdir_error [
  | some e ↦ err e
  | none ↦ elim env.stat_error [
    | some e ↦ err e
    | none ↦ elim content [
      | some text ↦ ok text
      | none ↦ elim env.create_error [ some e ↦ err e | none ↦ ok [] ]
    ]
  ]
]

module _ (c : Codec) where
  -- the fields that the result of the verification sets
  pub accept_chain : Text → VerifyResult → Result FileStore
  accept_chain text r =
      if r.valid
      then ok
          (record { last_hash = r.last_hash; last_index = r.total_entries; content = some text })
      else err
          (failure (codes "invalid chain at index " ++ format_uint (deref_uint64 r.invalid_at)))

  unfoldable pub new_file_store : OpenEnv → Option Text → Result FileStore
  unfolding ensure_file accept_chain
  new_file_store env content = do
    text ← ensure_file env content
    r ← verify c (record { last_hash = genesis; last_index = 0; content = some text })
    accept_chain text r

  accept_chain-eq-ok :
      (text : Text) (r : VerifyResult) (s : FileStore)
      → accept_chain text r ≡ ok s
      → (r.valid ≡ true)
        × (s
            ≡ record { last_hash = r.last_hash; last_index = r.total_entries; content = some text })
  unfolding accept_chain
  accept_chain-eq-ok text r s h = ground arith

  ensure_file-eq-ok :
      (env : OpenEnv) (content : Option Text) (text : Text)
      → ensure_file env content ≡ ok text
      → text ≡ or_empty content
  unfolding ensure_file
  ensure_file-eq-ok env content text h = ground arith

  -- What NewFileStore found out, where it succeeded.
  pub record Opened (content : Option Text) (s : FileStore) : Type 0 where
    pub text : Text
    pub result : VerifyResult
    pub found : text ≡ or_empty content
    pub verified : verify_lines c 1 genesis 0 (scan_lines text) ≡ ok result
    pub valid : result.valid ≡ true
    pub store : s ≡ record {
      last_hash = result.last_hash;
      last_index = result.total_entries;
      content = some text;
    }

  pub new_file_store-Opened :
      (env : OpenEnv) (content : Option Text) (s : FileStore)
      → new_file_store env content ≡ ok s
      → Opened content s
  unfolding new_file_store verify
  new_file_store-Opened env content s h =
      let (text, p, q) = bind-eq-ok (ensure_file env content) _ h in
      let (r, v, a) = bind-eq-ok (verify_lines c 1 genesis 0 (scan_lines text)) _ q in
      let (valid, store) = accept_chain-eq-ok text r s a in
      record {
        text = text;
        result = r;
        found = ensure_file-eq-ok env content text p;
        verified = v;
        valid = valid;
        store = store;
      }
