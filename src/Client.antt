-- ===== src/Client.antt =====
-- clients/go-lib/client.go: the client that writes log entries, with its retries.
pub mod Delay
pub mod Laws
use audit_logging.Common.{
  ℕ, zero, suc, ◌+◌, ◌-◌, [], List, ◌∷◌, ◌++◌, Bool, true, false, not, ◌||◌, Option, none, some,
  leb, ◌==◌, if◌then◌else◌,
}
use audit_logging.Common.Int.{
  ℤ, pos, pos_part, ltb_ℤ, leb_ℤ, add_int64, sub_int64, scale_int64, half_ℤ,
}
use audit_logging.Text.{Text, codes, is_empty}
use audit_logging.Text.Space.{trim_space}
use audit_logging.Text.Decimal.{format_uint}
use audit_logging.Json.{Object}
use audit_logging.Server.Model.{Error, error_text, failure, Result, ok, err}
use audit_logging.Client.Delay.{
  RetryConfig, JitterStrategy, normalize_jitter_strategy, compute_retry_delay, milliseconds,
}

pub record LogRequest : Type 0 where
  pub app : Text
  pub level : Text
  pub message : Text
  pub metadata : Option Object

pub record LogResponse : Type 0 where
  pub index : ℕ
  pub timestamp : Text
  pub entry_hash : Text
  pub prev_hash : Text

-- The client's configuration; the HTTP client and OnRetry are the world's.
pub record Client : Type 0 where
  pub endpoint : Text
  pub retry : RetryConfig
  pub auth_token : Text
  pub headers : List (Text × Text)

-- The client that New makes before any field is set.
unfoldable pub new : Text → Client
new endpoint =
    let endpoint = trim_space endpoint in
    record {
      endpoint = if is_empty endpoint then codes "http://localhost:8080/v1/logs" else endpoint;
      retry = record {
        max_attempts = pos 1;
        initial_backoff = milliseconds 100;
        max_backoff = milliseconds 2000;
        max_jitter = milliseconds 100;
        jitter_strategy = JitterStrategy.full;
      };
      auth_token = [];
      headers = [];
    }

-- What comes of one request: no response, a response whose body breaks off, or a status with a body.
pub data Outcome : Type 0 where
  failed : Error → Outcome
  unreadable : Error → Outcome
  answered : ℕ → Text → Outcome

-- A request as it is sent: the header fields that are set one after the other, and the body.
pub record Sent : Type 0 where
  pub endpoint : Text
  pub headers : List (Text × Text)
  pub body : Text

-- The world that the client runs in: encoding/json, http.NewRequest, the answer to each attempt, the
-- random numbers below a bound at each attempt, and whether the context ends while it sleeps.
pub record World : Type 0 where
  pub marshal : LogRequest → Result Text
  pub unmarshal : Text → Result LogResponse
  pub request_error : Option Error
  pub answer : ℕ → Sent → Outcome
  pub random : ℕ → ℕ → ℕ
  pub sleep : ℕ → ℤ → Option Error

-- The result, how many requests were sent, and how long it slept between them.
pub record Run : Type 0 where
  pub result : Result LogResponse
  pub requests : ℕ
  pub delays : List ℤ

unfoldable pub should_retry_status : ℕ → Bool
should_retry_status status = status == 429 || leb 500 status

-- What an attempt leads to: the end, or another attempt.
pub data Step : Type 0 where
  stop : Result LogResponse → Step
  again : Error → Step

-- json.Unmarshal of the answer
parsed : Result LogResponse → Result LogResponse
parsed (ok out) = ok out
parsed (err e) = err (failure (codes "parse response: " ++ error_text e))

unfoldable pub step : World → Outcome → Step
unfolding parsed
step w (failed e) = again e
step w (unreadable e) = again e
step w (answered status body) =
    let message = failure (
      codes "audit service returned " ++ (format_uint status ++ (codes ": " ++ trim_space body))) in
    if leb 300 status
    then if not (should_retry_status status) then stop (err message) else again message
    else stop (parsed (w.unmarshal body))

-- the header fields of a request: a blank key is left out
own_headers : List (Text × Text) → List (Text × Text)
own_headers [] = []
own_headers ((key, value) ∷ hs) =
    let rest = own_headers hs in if is_empty (trim_space key) then rest else (key, value) ∷ rest

pub request_of : Client → Text → Sent
unfolding own_headers
request_of c body = record {
  endpoint = c.endpoint;
  headers =
      (codes "content-type", codes "application/json")
      ∷ ((if is_empty (trim_space c.auth_token)
            then []
            else (codes "authorization", codes "Bearer " ++ trim_space c.auth_token) ∷ [])
          ++ own_headers c.headers);
  body = body;
}

-- The retry settings once they are made usable.
unfoldable pub normalize_retry : RetryConfig → RetryConfig
normalize_retry r = record {
  max_attempts = if leb_ℤ r.max_attempts (pos 0) then pos 1 else r.max_attempts;
  initial_backoff = if leb_ℤ r.initial_backoff (pos 0) then milliseconds 100 else r.initial_backoff;
  max_backoff = if leb_ℤ r.max_backoff (pos 0) then milliseconds 2000 else r.max_backoff;
  max_jitter = if ltb_ℤ r.max_jitter (pos 0) then pos 0 else r.max_jitter;
  jitter_strategy = normalize_jitter_strategy r.jitter_strategy;
}

-- one request more, and one delay more, in front of a run
abbrev pub count_request : Run → Run
count_request r = record r { requests = 1 + r.requests }

abbrev pub slept : ℤ → Run → Run
slept delay r = record r { delays = delay ∷ r.delays }

abbrev pub ended : Result LogResponse → Run
ended result = record { result = result; requests = 0; delays = [] }

module _ (w : World) (r : RetryConfig) (request : Sent) where
  -- the loop, with the attempts that are left behind this one
  unfoldable pub attempts : ℕ → ℕ → ℤ → ℤ → Run
  attempts zero attempt backoff previous_delay = elim w.request_error [
    | some e ↦ ended (err e)
    | none ↦ elim (step w (w.answer attempt request)) [
      | stop result ↦ count_request (ended result)
      | again e ↦ count_request (ended (err e))
    ]
  ]
  attempts (suc left) attempt backoff previous_delay =
      let delay = compute_retry_delay r (w.random attempt) backoff previous_delay in
      let doubled = scale_int64 2 backoff in
      let next = if ltb_ℤ r.max_backoff doubled then r.max_backoff else doubled in
      elim w.request_error [
        | some e ↦ ended (err e)
        | none ↦ elim (step w (w.answer attempt request)) [
          | stop result ↦ count_request (ended result)
          | again e ↦ elim (w.sleep attempt delay) [
            | some e' ↦ count_request (slept delay (ended (err e')))
            | none ↦ count_request (slept delay (attempts left (attempt + 1) next delay))
          ]
        ]
      ]

-- the attempts behind the first one
abbrev pub left_of : ℤ → ℕ
left_of max_attempts = pos_part max_attempts - 1

-- the payload as it is sent
abbrev pub clean : LogRequest → LogRequest
clean p = record {
  app = trim_space p.app;
  level = trim_space p.level;
  message = trim_space p.message;
  metadata = elim p.metadata [ none ↦ some [] | some m ↦ some m ];
}

-- what is sent once there is a body
send : World → Client → Result Text → Run
unfolding request_of
send w c (err e) = ended (err e)
send w c (ok body) =
    let r = normalize_retry c.retry in
    attempts w r (request_of c body) (left_of r.max_attempts) 1 r.initial_backoff r.initial_backoff

-- WriteLog
unfoldable pub write_log : World → Client → LogRequest → Run
unfolding send
write_log w c payload =
    let p = clean payload in
    let run = send w c (w.marshal p) in
    if is_empty p.app || is_empty p.level || is_empty p.message
    then ended (err (failure (codes "app, level, and message are required")))
    else run
