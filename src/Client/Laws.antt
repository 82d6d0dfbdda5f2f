-- ===== src/Client/Laws.antt =====
-- What WriteLog promises: how often it asks, and what its success means.
use audit_logging.Common.{
  ℕ, zero, suc, ◌+◌, ◌<◌, ◌≤◌, ◌≡◌, refl, ap, ◌∙◌, false, ◌||◌, if◌then◌else◌, arith, inl, inr, ◌⊎◌,
}
use audit_logging.Common.Int.{ℤ, ltb_ℤ, scale_int64}
use audit_logging.Text.{Text, is_empty}
use audit_logging.Text.Space.{trim_space}
use audit_logging.Server.Model.{Error, Result, ok, err, Result-cases}
use audit_logging.Client.Delay.{RetryConfig, compute_retry_delay}
use audit_logging.Client.{
  LogRequest, LogResponse, Client, Outcome, failed, unreadable, answered, Sent, World, Step, stop,
  again, step, parsed, attempts, left_of, send, request_of, normalize_retry, write_log, clean,
}

-- What a successful write met with: at one of the attempts that it may make, an answer below 300
-- whose body is the response.
pub record Delivered (w : World) (request : Sent) (first last : ℕ) (out : LogResponse)
    : Type 0 where
  pub attempt : ℕ
  pub from : first ≤ attempt
  pub to : attempt ≤ last
  pub status : ℕ
  pub body : Text
  pub answer : w.answer attempt request ≡ answered status body
  pub accepted : status < 300
  pub response : w.unmarshal body ≡ ok out

parsed-eq-ok : (a : Result LogResponse) (out : LogResponse) → parsed a ≡ ok out → a ≡ ok out
unfolding parsed
parsed-eq-ok (ok a) out h = h
parsed-eq-ok (err e) out h = cc

step-delivered :
    (w : World) (o : Outcome) (out : LogResponse)
    → step w o ≡ stop (ok out)
    → (status : ℕ) × (body : Text) × (o ≡ answered status body)
      × (status < 300)
      × (w.unmarshal body ≡ ok out)
unfolding step
step-delivered w (failed e) out h = absurd cc
step-delivered w (unreadable e) out h = absurd cc
step-delivered w (answered status body) out h =
    (status, body, refl, ground arith, parsed-eq-ok (w.unmarshal body) out (ground arith))

module _ (w : World) (r : RetryConfig) (request : Sent) where
  abbrev delay_of : ℕ → ℤ → ℤ → ℤ
  delay_of attempt b p = compute_retry_delay r (w.random attempt) b p

  abbrev next_backoff : ℤ → ℤ
  next_backoff b =
      let doubled = scale_int64 2 b in
      if ltb_ℤ r.max_backoff doubled then r.max_backoff else doubled

  attempts-requests :
      (left attempt : ℕ) (backoff previous_delay : ℤ)
      → (attempts w r request left attempt backoff previous_delay).requests ≤ suc left
  unfolding attempts
  attempts-requests zero attempt b p = ground arith
  attempts-requests (suc left) attempt b p =
      ground (arith, attempts-requests left (attempt + 1) (next_backoff b) (delay_of attempt b p))

  abbrev found :
      (attempt last : ℕ) (out : LogResponse)
      → attempt ≤ last
      → step w (w.answer attempt request) ≡ stop (ok out)
      → Delivered w request attempt last out
  found attempt last out le h =
      let (status, body, e, low, parsed) = step-delivered w (w.answer attempt request) out h in
      record {
        attempt = attempt;
        from = omega arith;
        to = le;
        status = status;
        body = body;
        answer = e;
        accepted = low;
        response = parsed;
      }

  later :
      (attempt last : ℕ) (out : LogResponse)
      → Delivered w request (attempt + 1) last out
      → Delivered w request attempt last out
  later attempt last out d = record {
    attempt = d.attempt;
    from = omega (arith, d.from);
    to = d.to;
    status = d.status;
    body = d.body;
    answer = d.answer;
    accepted = d.accepted;
    response = d.response;
  }

  Step-cases :
      (x : Step) → ((a : Result LogResponse) × (x ≡ stop a)) ⊎ ((e : Error) × (x ≡ again e))
  Step-cases (stop a) = inl (a, refl)
  Step-cases (again e) = inr (e, refl)

  attempts-Delivered :
      (left attempt last : ℕ) (backoff previous_delay : ℤ) (out : LogResponse)
      → attempt + left ≤ last
      → (attempts w r request left attempt backoff previous_delay).result ≡ ok out
      → Delivered w request attempt last out
  unfolding attempts
  attempts-Delivered zero attempt last b p out le h =
      elim (Step-cases (step w (w.answer attempt request))) [
        | inl (a, e) ↦ found attempt last out (omega arith) (e ∙ ap stop (ground arith))
        | inr (x, e) ↦ absurd (ground arith)
      ]
  attempts-Delivered (suc left) attempt last b p out le h =
      elim (Step-cases (step w (w.answer attempt request))) [
        | inl (a, e) ↦ found attempt last out (omega arith) (e ∙ ap stop (ground arith))
        | inr (x, e) ↦ later attempt last out (
            attempts-Delivered left (attempt + 1) last (next_backoff b) (delay_of attempt b p) out
              (omega arith) (ground arith))
      ]

abbrev pub most_attempts : RetryConfig → ℕ
most_attempts r = suc (left_of (normalize_retry r).max_attempts)

-- WriteLog sends no more requests than it may make attempts: as many as MaxAttempts says, and one if
-- that is not positive.
pub write_log-requests :
    (w : World) (c : Client) (payload : LogRequest)
    → (write_log w c payload).requests ≤ most_attempts c.retry
unfolding write_log send
write_log-requests w c payload = elim (Result-cases (w.marshal (clean payload))) [
  | inl (body, e) ↦
      let r = normalize_retry c.retry in
      ground (
        arith,
        attempts-requests w r (request_of c body) (left_of r.max_attempts) 1 r.initial_backoff
            r.initial_backoff,
      )
  | inr (x, e) ↦ ground arith
]

-- What a successful write met with, and what it had sent.
pub record Accepted (w : World) (c : Client) (payload : LogRequest) (out : LogResponse)
    : Type 0 where
  pub body : Text
  pub filled :
      (is_empty (trim_space payload.app)
        || is_empty (trim_space payload.level)
        || is_empty (trim_space payload.message))
      ≡ false
  pub marshalled : w.marshal (clean payload) ≡ ok body
  pub delivered : Delivered w (request_of c body) 1 (most_attempts c.retry) out

-- WriteLog succeeds only with the response that the service gave to one of its attempts, with a status
-- below 300, for a payload whose application, level and message are not blank.
pub write_log-Accepted :
    (w : World) (c : Client) (payload : LogRequest) (out : LogResponse)
    → (write_log w c payload).result ≡ ok out
    → Accepted w c payload out
unfolding write_log send
write_log-Accepted w c payload out h =
    let r = normalize_retry c.retry in
    elim (Result-cases (w.marshal (clean payload))) [
      | inl (body, e) ↦ record {
        body = body;
        filled = ground arith;
        marshalled = e;
        delivered =
            attempts-Delivered w r (request_of c body) (left_of r.max_attempts) 1
              (most_attempts c.retry) r.initial_backoff r.initial_backoff out (omega arith)
              (ground arith);
      }
      | inr (x, e) ↦ absurd (ground arith)
    ]
