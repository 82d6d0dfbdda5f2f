-- ===== src/Server/PostgresStore/Pages.antt =====
-- PostgresStore.QueryLogs of cmd/server/main.go, against the pages of Server.Window.
use audit_logging.Common.{ℕ, ◌<◌, ◌≡◌, [], ◌∷◌, Bool, ◌&&◌, ◌||◌, ◌++◌, none, some, if◌then◌else◌}
use audit_logging.Common.Int.{pos}
use audit_logging.Text.{Text, codes, is_empty, equal}
use audit_logging.Server.Model.{Result, ok, err, LogRecord, Entry, LogQuery}
use audit_logging.Text.Decimal.{max_int64}
use audit_logging.Server.Codec.{Codec}
use audit_logging.Server.PostgresStore.{EntryRow, entry_of}
use audit_logging.Server.PostgresStore.Query.{Db, QueryEnv}

-- A row with a positive index that fits a signed word.
abbrev pub IsIndexed : EntryRow → Type 0
IsIndexed r = (n : ℕ) × (r.entry_index ≡ pos n) × (0 < n) × (n < max_int64)

-- No statement fails.
abbrev pub calm : QueryEnv
calm = record { count_error = none; query_error = none; rows_error = none }

module _ (c : Codec) (db : Db) (log_of : EntryRow → LogRecord) where
  -- The entry of a row whose record decodes.
  abbrev pub entry_at : EntryRow → Entry
  entry_at r = entry_of c r (log_of r)

  abbrev pub Decodes : EntryRow → Type 0
  Decodes r = c.unmarshal_record r.record_json ≡ ok (log_of r)

-- The record's JSON as the database reads it: the fields of the record (an empty client id is not
-- written), from the text that the encoder gives of the record.
pub record IsShown (c : Codec) (db : Db) (l : LogRecord) (json : Text) : Type 0 where
  pub json_text : c.marshal_record l ≡ ok json
  pub client_id :
      db.field json (codes "clientId") ≡ (if is_empty l.client_id then none else some l.client_id)
  pub app : db.field json (codes "app") ≡ some l.app
  pub level : db.field json (codes "level") ≡ some l.level
  pub message : db.field json (codes "message") ≡ some l.message

abbrev text_or_empty : Result Text → Text
text_or_empty (err e) = []
text_or_empty (ok s) = s

-- Whether a query is for an entry: the client, the application and the level are exactly those of the
-- query, where it names one, and its text, if it has one, stands, as ILIKE finds it, in the message or in
-- the JSON of the record.
unfoldable pub is_wanted : Codec → Db → LogQuery → Entry → Bool
is_wanted c db q e =
    let l = e.log_record in
    let found = λ (s : Text). db.ilike s (b'%' ∷ (q.text ++ (b'%' ∷ []))) in
    (is_empty q.client_id || equal l.client_id q.client_id)
    && (is_empty q.app || equal l.app q.app)
    && (is_empty q.level || equal l.level q.level)
    && (is_empty q.text || (found l.message || found (text_or_empty (c.marshal_record l))))
