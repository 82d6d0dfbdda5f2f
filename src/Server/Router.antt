-- ===== src/Server/Router.antt =====
-- cmd/server/router.go, with requireAuth and writeUnauthorized of cmd/server/auth.go and withMethod of
-- cmd/server/main.go: what each route answers, and what becomes of the store. The collaborators are
-- the two interfaces that newRouter takes.
pub mod Access
pub mod Writes
pub mod Reads
use audit_logging.Common.{
  ℕ, [], List, ◌∷◌, Bool, true, false, not, ◌||◌, Option, none, some, ltb, if◌then◌else◌,
}
use audit_logging.Common.Int.{ℤ, pos_part}
use audit_logging.Text.{Text, codes, is_empty, equal, utf8_size}
use audit_logging.Text.Space.{trim_space}
use audit_logging.Text.Fold.{Unicode}
use audit_logging.Json.{Object}
use audit_logging.Server.Model.{
  Error, error_text, unauthorized, failure, Result, ok, err, LogRecord, Entry, VerifyResult,
  LogQuery, LogQueryResult,
}
use audit_logging.Server.Codec.{Codec}
use audit_logging.Server.Query.{Values, parse_log_query}
use audit_logging.Server.Auth.{Principal, bearer_token, scope_query}
use audit_logging.Server.Config.{Config}

-- The interface Store, over the state that its implementation keeps.
pub record Store (S : Type 0) : Type 0 where
  pub append : LogRecord → S → Result Entry × S
  pub verify : S → Result VerifyResult
  pub query_logs : LogQuery → S → Result LogQueryResult

-- A request; `read_error` says that its body cannot be read to the end.
pub record Request : Type 0 where
  pub method : Text
  pub authorization : Text
  pub values : Values
  pub body : Text
  pub read_error : Bool

-- The bodies that the handlers write.
pub data Body : Type 0 where
  healthy : Body
  error_body : Text → Body
  verified : VerifyResult → Body
  created : ℕ → Text → Text → Text → Body
  page : LogQueryResult → Body

-- `challenge` is the header WWW-Authenticate.
pub record Response : Type 0 where
  pub status : ℕ
  pub challenge : Bool
  pub body : Body

abbrev pub write_json : ℕ → Body → Response
write_json status body = record { status = status; challenge = false; body = body }

abbrev pub write_unauthorized : Response
write_unauthorized = record {
  status = 401;
  challenge = true;
  body = error_body (codes "unauthorized");
}

abbrev pub refuse : ℕ → Text → Response
refuse status why = write_json status (error_body why)

pub data Route : Type 0 where
  health logs search verify : Route

abbrev pub method_get : Text
method_get = codes "GET"

abbrev method_post : Text
method_post = codes "POST"

-- withMethod
unfoldable pub with_method {ℓ} : {A : Type ℓ} → Text → Request → (Response → A) → A → A
with_method method r refused handled =
    if not (equal r.method method)
    then refused (refuse 405 (codes "method not allowed"))
    else handled

-- requireAuth: the token, and what the registry says of it
admit {ℓ} : {A : Type ℓ} → Result Principal → (Response → A) → (Principal → A) → A
admit (err unauthorized) refused handler = refused write_unauthorized
admit (err (failure why)) refused handler =
    refused (refuse 503 (codes "authentication unavailable"))
admit (ok principal) refused handler = handler principal

unfoldable pub require_auth {ℓ} :
    {A : Type ℓ}
    → Unicode
    → (Text → Result Principal)
    → Request
    → (Response → A)
    → (Principal → A)
    → A
unfolding admit
require_auth u authenticate r refused handler =
    let token = bearer_token u r.authorization in
    if is_empty token
    then refused write_unauthorized
    else admit (authenticate token) refused handler

-- the record that is stored: stamped, trimmed, and with a metadata map
abbrev metadata_or_empty : Option Object → Option Object
metadata_or_empty none = some []
metadata_or_empty (some o) = some o

unfoldable pub stamp : Principal → LogRecord → LogRecord
stamp p input = record {
  client_id = p.client_id;
  app = trim_space input.app;
  level = trim_space input.level;
  message = trim_space input.message;
  metadata = metadata_or_empty input.metadata;
}

-- the answer to Append
appended {ℓ} : {S : Type ℓ} → Result Entry × S → Response × S
appended (err e, s) = (refuse 500 (codes "failed to append log entry"), s)
appended (ok e, s) = (write_json 201 (created e.index e.timestamp e.entry_hash e.prev_hash), s)

-- the answer to QueryLogs
queried : Result LogQueryResult → Response
queried (err e) = refuse 500 (codes "failed to query logs")
queried (ok result) = write_json 200 (page result)

-- the answer to Verify
verify_answer : Result VerifyResult → Response
verify_answer (err e) = refuse 500 (codes "failed to verify chain")
verify_answer (ok result) =
    if result.valid then write_json 200 (verified result) else write_json 409 (verified result)

module _ {S : Type 0} (u : Unicode) (c : Codec) (cfg : Config) (store : Store S) where
  -- the checks behind the decoding of the body
  write_record : Option Principal → LogRecord → S → Response × S
  unfolding appended stamp
  write_record none input s = (refuse 500 (codes "missing principal"), s)
  write_record (some p) input s =
      let r = stamp p input in
      let answer = appended (store.append r s) in
      if is_empty p.client_id
      then (refuse 500 (codes "principal missing client id"), s)
      else if is_empty r.app || is_empty r.level || is_empty r.message
      then (refuse 400 (codes "app, level, and message are required"), s)
      else answer

  decoded : Option Principal → Result LogRecord → S → Response × S
  unfolding write_record
  decoded p (err e) s = (refuse 400 (codes "invalid JSON body"), s)
  decoded p (ok input) s = write_record p input s

  -- handleWriteLog; http.MaxBytesReader stops behind the limit.
  unfoldable pub handle_write_log : Option Principal → Request → S → Response × S
  unfolding decoded
  handle_write_log p r s =
      if r.read_error || ltb (pos_part cfg.max_payload_bytes) (utf8_size r.body)
      then (refuse 413 (codes "payload exceeds max size"), s)
      else decoded p (c.unmarshal_record r.body) s

  read_parsed : Option Principal → Values → S → Result LogQuery → Response
  unfolding queried
  read_parsed p values s (err e) = refuse 400 (error_text e)
  read_parsed none values s (ok query) = refuse 500 (codes "missing principal")
  read_parsed (some p) values s (ok query) =
      if is_empty p.client_id
      then refuse 500 (codes "principal missing client id")
      else queried (store.query_logs (scope_query query p values) s)

  -- handleReadLogs
  unfoldable pub handle_read_logs : Option Principal → Request → S → Response
  unfolding read_parsed
  handle_read_logs p r s = read_parsed p r.values s (parse_log_query u r.values cfg.query)

  handle_logs : Option Principal → Request → S → Response × S
  handle_logs p r s =
      if equal r.method method_post
      then handle_write_log p r s
      else if equal r.method method_get
      then (handle_read_logs p r s, s)
      else (refuse 405 (codes "method not allowed"), s)

  -- newRouter: the handler of each route
  unfoldable pub serve : (Text → Result Principal) → Route → Request → S → Response × S
  unfolding handle_logs verify_answer
  serve authenticate health r s =
      with_method method_get r (λ refused. (refused, s)) (write_json 200 healthy, s)
  serve authenticate logs r s =
      require_auth u authenticate r (λ refused. (refused, s)) (λ p. handle_logs (some p) r s)
  serve authenticate search r s =
      require_auth u authenticate r (λ refused. (refused, s))
        (λ p. with_method method_get r (λ refused. (refused, s)) (handle_read_logs (some p) r s, s))
  serve authenticate verify r s =
      require_auth u authenticate r (λ refused. (refused, s))
        (λ p.
          with_method method_get r (λ refused. (refused, s)) (verify_answer (store.verify s), s))
