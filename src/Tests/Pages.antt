-- ===== src/Tests/Pages.antt =====
-- A page of two rows of the Postgres store.
use audit_logging.Common.{
  ◌≡◌, refl, ◌∷◌, [], List, none, some, Option, true, length, ℕ, if◌then◌else◌,
}
use audit_logging.Common.Int.{pos, add_int64}
use audit_logging.Text.{Text, codes, equal}
use audit_logging.Server.Model.{Result, ok, err, LogRecord, LogQuery, LogQueryResult}
use audit_logging.Server.PostgresStore.{EntryRow, by_index}
use audit_logging.Server.PostgresStore.Query.{
  Db, row_matches, row_behind_cursor, select_rows, read_rows, query_logs,
}
use audit_logging.Server.PostgresStore.Pages.{calm}
use audit_logging.Tests.Toy
use audit_logging.Tests.Toy.{toy}

abbrev record_by : Text → LogRecord
record_by client = record {
  client_id = client;
  app = codes "a";
  level = codes "l";
  message = codes "m";
  metadata = none;
}

abbrev row_by : Text → EntryRow
row_by client = record {
  entry_index = pos 1;
  ts = codes "T";
  prev_hash = [];
  payload_hash = [];
  entry_hash = client;
  record_json = Toy.fields_text (Toy.record_fields (record_by client));
}

abbrev rows : List EntryRow
rows = row_by (codes "c") ∷ record (row_by (codes "d")) { entry_index = pos 2 } ∷ []

-- The record of a row, by the column that holds the client here.
abbrev log_of : EntryRow → LogRecord
log_of r = record_by r.entry_hash

-- the field of a record in the JSON of the database
abbrev field_in : Text → Result LogRecord → Option Text
field_in name (err e) = none
field_in name (ok r) =
    if equal name (codes "clientId")
    then some r.client_id
    else if equal name (codes "app")
    then some r.app
    else if equal name (codes "level")
    then some r.level
    else some r.message

abbrev db : Db
db = record {
  field = λ json name. field_in name (toy.unmarshal_record json);
  ilike = λ s pattern. equal s pattern;
}

abbrev by_c : LogQuery
by_c = record {
  client_id = codes "c";
  app = [];
  level = [];
  text = [];
  limit = pos 1;
  offset = pos 0;
  after_index = 0;
  want_total = true;
}

-- The page has the first row only: the second one is of another client.
abbrev count_of : Result LogQueryResult → ℕ
count_of (err e) = 0
count_of (ok p) = length p.items

one_row : count_of (query_logs db toy calm by_c rows) ≡ 1
unfolding query_logs row_matches equal row_behind_cursor select_rows by_index read_rows add_int64
one_row = refl
