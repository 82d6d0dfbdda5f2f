-- ===== src/Tests/Routes.antt =====
-- The routes, run.
use audit_logging.Common.{[], List, ◌∷◌, ◌≡◌, ◌≢◌, inr, refl, subst, false, none}
use audit_logging.Common.Int.{pos}
use audit_logging.Text.{Text, codes, equal, utf8_size}
use audit_logging.Text.Fold.{ascii_only, equal_fold}
use audit_logging.Text.Space.{trim_space}
use audit_logging.Server.Model.{
  Result, ok, err, unauthorized, ok_injective, LogRecord, Entry, LogQueryResult,
}
use audit_logging.Server.Query.{default_query_limits, normalize_log_query, parse_log_query}
use audit_logging.Server.Config.{Config}
use audit_logging.Server.Auth.{Principal, is_admin, bearer_token, scope_query}
use audit_logging.Server.Router.{
  Store, Request, Response, health, logs, search, write_unauthorized, write_json, page, serve,
  handle_write_log, handle_read_logs, require_auth, with_method, stamp,
}
use audit_logging.Server.Router.Access.{serve-unauthorized}
use audit_logging.Server.Router.Reads.{Confined, AllOf, serve-Confined}
use audit_logging.Server.Router.Writes.{Wrote, serve-Wrote}
use audit_logging.Tests.Toy
use audit_logging.Tests.Toy.{toy}

abbrev cfg : Config
cfg = record {
  port = pos 8080;
  bind_addr = [];
  storage_backend = codes "file";
  database_url = [];
  log_file = codes "log";
  max_payload_bytes = pos 32768;
  query = default_query_limits;
}

-- A store that keeps what it is given, and answers any query with nothing.
abbrev entry_of : LogRecord → Entry
entry_of r = record {
  index = 1;
  timestamp = codes "T";
  prev_hash = codes "p";
  payload_hash = codes "q";
  entry_hash = codes "h";
  log_record = r;
}

abbrev nothing : LogQueryResult
nothing = record { items = []; limit = pos 1; next_cursor = none; total = none; offset = none }

abbrev notes : Store (List LogRecord)
notes = record {
  append = λ r s. (ok (entry_of r), r ∷ s);
  verify = λ s. err unauthorized;
  query_logs = λ q s. ok (record nothing {
    items =
        entry_of (record {
          client_id = q.client_id;
          app = codes "a";
          level = codes "l";
          message = codes "m";
          metadata = none;
        })
        ∷ [];
  });
}

abbrev web : Principal
web = record { client_id = codes "0f"; name = codes "web"; role = codes "client" }

abbrev let_in : Text → Result Principal
let_in token = ok web

abbrev shut_out : Text → Result Principal
shut_out token = err unauthorized

abbrev forged : LogRecord
forged = record {
  client_id = codes "zz";
  app = codes "a ";
  level = codes "l";
  message = codes "m";
  metadata = none;
}

abbrev post : Request
post = record {
  method = codes "POST";
  authorization = codes "Bearer x";
  values = λ key. [];
  body = Toy.fields_text (Toy.record_fields forged);
  read_error = false;
}

abbrev get : Request
get = record post { method = codes "GET" }

serve-unauthorized_example :
    serve ascii_only toy cfg notes shut_out logs post [] ≡ (write_unauthorized, [])
serve-unauthorized_example =
    serve-unauthorized ascii_only toy cfg notes shut_out logs post [] not_health (inr refl)
  where
    not_health : logs ≢ health
    not_health h = cc

abbrev answer : Response × List LogRecord
answer = serve ascii_only toy cfg notes let_in logs post []

answer_created : answer.0.status ≡ 201
unfolding serve require_auth bearer_token trim_space equal_fold equal handle_write_log utf8_size
    stamp
answer_created = refl

serve-Wrote_example : Wrote ascii_only toy cfg notes let_in post [] answer.1
serve-Wrote_example =
    serve-Wrote ascii_only toy cfg notes let_in logs post [] answer.1 answer.0 refl answer_created

notes-Confined : Confined notes []
notes-Confined q result n h =
    subst (λ (x : LogQueryResult). AllOf q.client_id x.items) (ok_injective h) (refl, tt)

abbrev own : LogQueryResult
own = record nothing {
  items =
      entry_of (record {
        client_id = codes "0f";
        app = codes "a";
        level = codes "l";
        message = codes "m";
        metadata = none;
      })
      ∷ [];
}

get_page : serve ascii_only toy cfg notes let_in search get [] ≡ (write_json 200 (page own), [])
unfolding serve require_auth bearer_token trim_space equal_fold equal handle_read_logs with_method
    parse_log_query normalize_log_query scope_query is_admin
get_page = refl

not_admin : is_admin web ≡ false
unfolding is_admin equal
not_admin = refl

serve-Confined_example : AllOf (codes "0f") own.items
serve-Confined_example =
    serve-Confined ascii_only toy cfg notes let_in search get [] [] web own notes-Confined refl
      not_admin get_page
