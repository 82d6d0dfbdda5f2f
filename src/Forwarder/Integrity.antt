-- ===== src/Forwarder/Integrity.antt =====
-- cmd/log-forwarder/integrity.go: the verifier that asks the service at every tick, and what it logs.
use audit_logging.Common.{
  ℕ, [], List, ◌∷◌, ◌++◌, map, Bool, ◌||◌, Option, none, some, leb, length, drop, ◌==◌,
  if◌then◌else◌,
}
use audit_logging.Text.{Text, codes, is_empty, contains, has_prefix}
use audit_logging.Text.Space.{trim_space}
use audit_logging.Server.Model.{Error, failure, Result, ok, err}

-- The parts of a URL that are looked at and set; `query_text` is RawQuery.
pub record Url : Type 0 where
  pub scheme : Text
  pub host : Text
  pub path : Text
  pub query_text : Text

pub record VerifyResponse : Type 0 where
  pub valid : Bool
  pub total_entries : ℕ

-- strings.Replace(s, old, new, 1), for an `old` that is not empty
unfoldable pub replace_first : Text → Text → Text → Text
replace_first [] old new = []
replace_first (c ∷ s) old new =
    let rest = replace_first s old new in
    if has_prefix (c ∷ s) old then new ++ drop (length old) (c ∷ s) else c ∷ rest

-- strings.TrimRight(s, "/")
unfoldable pub trim_slashes : Text → Text
trim_slashes [] = []
trim_slashes (c ∷ s) =
    let rest = trim_slashes s in
    if is_empty rest then (if c == b'/' then [] else c ∷ []) else c ∷ rest

verify_path : Text → Text
verify_path path =
    if contains path (codes "/v1/logs")
    then replace_first path (codes "/v1/logs") (codes "/v1/verify")
    else trim_slashes path ++ codes "/v1/verify"

endpoint_of : (Url → Text) → Result Url → Result Text
endpoint_of print (err e) = err e
endpoint_of print (ok u) =
    if is_empty u.scheme || is_empty u.host
    then err (failure (codes "invalid logs endpoint"))
    else ok (print (record u { path = verify_path u.path; query_text = [] }))

-- VerifyEndpointFromLogsEndpoint, with url.Parse and String of a URL
unfoldable pub verify_endpoint_from_logs_endpoint :
    (Text → Result Url) → (Url → Text) → Text → Result Text
unfolding endpoint_of verify_path
verify_endpoint_from_logs_endpoint parse print logs_endpoint =
    endpoint_of print (parse logs_endpoint)

-- What the verifier logs.
pub data Event : Type 0 where
  verify_init_failed : Error → Event
  verify_request_build_failed : Error → Event
  verify_request_failed : Error → Event
  verify_read_failed : Error → Event
  verify_bad_status : ℕ → Text → Event
  verify_decode_failed : Error → Event
  verify_result : VerifyResponse → Text → Event

-- What the service answers: the error of sending, or the status and the body or the error of reading it.
pub record Answer : Type 0 where
  pub send_error : Option Error
  pub status : ℕ
  pub body : Result Text

-- One tick: the error of making the request, and the answer to a request by its `authorization`.
pub record Tick : Type 0 where
  pub request_error : Option Error
  pub answer : Option Text → Answer

-- the value of the header `authorization`, if it is set
unfoldable pub bearer_header : Text → Option Text
bearer_header token =
    let t = trim_space token in if is_empty t then none else some (codes "Bearer " ++ t)

module _ (decode : Text → Result VerifyResponse) (endpoint token : Text) where
  decoded_answer : Result VerifyResponse → Event
  decoded_answer (err e) = verify_decode_failed e
  decoded_answer (ok out) = verify_result out endpoint

  read_answer : ℕ → Result Text → Event
  unfolding decoded_answer
  read_answer status (err e) = verify_read_failed e
  read_answer status (ok body) =
      if leb 300 status
      then verify_bad_status status (trim_space body)
      else decoded_answer (decode body)

  sent : Answer → Option Error → Event
  unfolding read_answer
  sent a (some e) = verify_request_failed e
  sent a none = read_answer a.status a.body

  requested : Tick → Option Error → Event
  unfolding sent
  requested t (some e) = verify_request_build_failed e
  requested t none = let a = t.answer (bearer_header token) in sent a a.send_error

  unfoldable pub on_tick : Tick → Event
  unfolding requested
  on_tick t = requested t t.request_error

ticks_of : (Text → Result VerifyResponse) → Text → List Tick → Result Text → List Event
ticks_of decode token ticks (err e) = verify_init_failed e ∷ []
ticks_of decode token ticks (ok endpoint) = map (on_tick decode endpoint token) ticks

-- StartIntegrityVerifier, over the ticks until the context ends
unfoldable pub start_integrity_verifier :
    (Text → Result Url)
    → (Url → Text)
    → (Text → Result VerifyResponse)
    → Text
    → Text
    → List Tick
    → List Event
unfolding ticks_of
start_integrity_verifier parse print decode logs_endpoint token ticks =
    ticks_of decode token ticks (verify_endpoint_from_logs_endpoint parse print logs_endpoint)
