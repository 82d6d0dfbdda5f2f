-- ===== src/Forwarder/Handler/Trace.antt =====
-- cmd/log-forwarder/main.go: what becomes of a line that the follower hands on.
use audit_logging.Common.{
  ℕ, [], ◌∷◌, ◌++◌, ◌≡◌, refl, sym, append-nil, take, ap, Bool-cases, Option, Option-cases, none,
  some, inl, inr, length,
}
use audit_logging.Common.Int.{ℤ}
use audit_logging.Text.{Text}
use audit_logging.Server.Model.{Error, error_text, Result, ok, err, next_uint64}
use audit_logging.Client.{LogRequest, LogResponse}
use audit_logging.Forwarder.Follower.{TailEvent}
use audit_logging.Forwarder.Parser.{NormalizedEvent, parse}
use audit_logging.Forwarder.Delivery.{
  Letters, DeadLetterEntry, appended, opened, write_dead_letter, build_payload, key_of, keyed,
  deliver_parsed_event,
}
use audit_logging.Forwarder.Metrics.{
  RuntimeMetrics, inc_lines_read, inc_parsed_ok, inc_delivery_failed, inc_retries, is_seen,
  mark_idempotency_key,
}
use audit_logging.Forwarder.Handler.{
  State, Env, lettered, answered, delivered, parsed_line, handle_line,
}

-- The six counters of the lines.
abbrev pub tally_of : RuntimeMetrics → ℕ × ℕ × ℕ × ℕ × ℕ × ℕ
tally_of m = (
  m.lines_read, m.parsed_ok, m.parse_failed, m.delivery_success, m.delivery_failed,
  m.dead_letter_writes,
)

-- The request of an event, and how its delivery ended.
abbrev pub sent_request : Env → NormalizedEvent → LogRequest
sent_request v x = build_payload x (key_of v.digest x)

abbrev pub delivery_of : Env → TailEvent → State → NormalizedEvent → Result LogResponse
delivery_of v event s x = (deliver_parsed_event v.digest (v.network event) s.client x).result

-- The dead letter of an event whose delivery failed.
abbrev pub letter_of : Env → TailEvent → NormalizedEvent → Error → DeadLetterEntry
letter_of v event x e = record {
  created_at = (v.letters event).now;
  error = error_text e;
  source_file = x.source_file;
  source_offset = x.source_offset;
  payload = sent_request v x;
}

-- The dead letter of an event could not be made or written.
pub data LetterFails (k : Letters) (letter : DeadLetterEntry) : Type 0 where
  no_directory : (e : Error) → k.mkdir ≡ some e → LetterFails k letter
  not_encoded : (e : Error) → k.marshal letter ≡ err e → LetterFails k letter
  not_opened : (e : Error) → k.open_error ≡ some e → LetterFails k letter
  not_written : (p : Error × ℕ) → k.write ≡ some p → LetterFails k letter

-- What became of a line, from one state to the next: it was no event, and is counted so; its event was
-- delivered, and is counted so; its delivery failed and is counted so, and the bytes of its dead letter and a
-- line's end are at the end of the file of dead letters, which is counted too; or its delivery failed and is
-- counted so, but its dead letter could not be made or written whole, none is counted and the work ends with
-- an error, with what was in the file still at its beginning.
pub data Handled (v : Env) (event : TailEvent) (s : State) (o : Option Error) (s' : State)
    : Type 0 where
  unparsed :
      (e : Error)
      → parse v.reader v.parser event ≡ err e
      → o ≡ none
      → s'.dead_letters ≡ s.dead_letters
      → tally_of s'.metrics ≡ (
        next_uint64 s.metrics.lines_read,
        s.metrics.parsed_ok,
        next_uint64 s.metrics.parse_failed,
        s.metrics.delivery_success,
        s.metrics.delivery_failed,
        s.metrics.dead_letter_writes,
      )
      → Handled v event s o s'
  accepted :
      (x : NormalizedEvent) (out : LogResponse)
      → parse v.reader v.parser event ≡ ok x
      → delivery_of v event s x ≡ ok out
      → o ≡ none
      → s'.dead_letters ≡ s.dead_letters
      → tally_of s'.metrics ≡ (
        next_uint64 s.metrics.lines_read,
        next_uint64 s.metrics.parsed_ok,
        s.metrics.parse_failed,
        next_uint64 s.metrics.delivery_success,
        s.metrics.delivery_failed,
        s.metrics.dead_letter_writes,
      )
      → Handled v event s o s'
  buried :
      (x : NormalizedEvent) (e : Error) (bytes : Text)
      → parse v.reader v.parser event ≡ ok x
      → delivery_of v event s x ≡ err e
      → (v.letters event).marshal (letter_of v event x e) ≡ ok bytes
      → o ≡ none
      → s'.dead_letters ≡ s.dead_letters ++ (bytes ++ (10 ∷ []))
      → tally_of s'.metrics ≡ (
        next_uint64 s.metrics.lines_read,
        next_uint64 s.metrics.parsed_ok,
        s.metrics.parse_failed,
        s.metrics.delivery_success,
        next_uint64 s.metrics.delivery_failed,
        next_uint64 s.metrics.dead_letter_writes,
      )
      → Handled v event s o s'
  stuck :
      (x : NormalizedEvent) (e er : Error)
      → parse v.reader v.parser event ≡ ok x
      → delivery_of v event s x ≡ err e
      → LetterFails (v.letters event) (letter_of v event x e)
      → o ≡ some er
      → (rest : Text) × (s'.dead_letters ≡ s.dead_letters ++ rest)
      → tally_of s'.metrics ≡ (
        next_uint64 s.metrics.lines_read,
        next_uint64 s.metrics.parsed_ok,
        s.metrics.parse_failed,
        s.metrics.delivery_success,
        next_uint64 s.metrics.delivery_failed,
        s.metrics.dead_letter_writes,
      )
      → Handled v event s o s'

-- Lines that were handled one after the other.
pub data Trace (v : Env) (s₀ : State) : State → Type 0 where
  start : Trace v s₀ s₀
  line :
      (event : TailEvent) (s : State) (o : Option Error) (s' : State)
      → Trace v s₀ s
      → Handled v event s o s'
      → Trace v s₀ s'

-- A dead letter that was written without an error stands at the end of its file.
written-none :
    (k : Letters) (file bytes : Text) (o : Option (Error × ℕ))
    → k.write ≡ o
    → (appended k file bytes).0 ≡ none
    → (appended k file bytes).1 ≡ file ++ bytes
unfolding appended
written-none k file bytes none m h = rw m refl
written-none k file bytes (some (x, n)) m h = absurd (let z = rw m at (h) in cc)

appended-none :
    (k : Letters) (file bytes : Text)
    → (appended k file bytes).0 ≡ none
    → (appended k file bytes).1 ≡ file ++ bytes
appended-none k file bytes h = written-none k file bytes k.write refl h

opened-none :
    (k : Letters) (file : Text) (r : Result Text)
    → (opened k file r).0 ≡ none
    → (bytes : Text) × (r ≡ ok bytes) × ((opened k file r).1 ≡ file ++ (bytes ++ (10 ∷ [])))
unfolding opened
opened-none k file (err e) h = absurd cc
opened-none k file (ok bytes) h = elim (Option-cases k.open_error) [
  | inr (x, m) ↦ absurd (let z = rw m at (h) in cc)
  | inl m ↦ (bytes, refl, rw m (appended-none k file (bytes ++ (10 ∷ [])) (rw m at (h))))
]

write_dead_letter-none :
    (k : Letters) (payload : LogRequest) (source : Text) (offset : ℤ) (e : Error) (file : Text)
    → (write_dead_letter k payload source offset e file).0 ≡ none
    → (bytes : Text) × (k.marshal record {
      created_at = k.now;
      error = error_text e;
      source_file = source;
      source_offset = offset;
      payload = payload;
    }
        ≡ ok bytes)
      × ((write_dead_letter k payload source offset e file).1 ≡ file ++ (bytes ++ (10 ∷ [])))
unfolding write_dead_letter
write_dead_letter-none k payload source offset e file h = elim (Option-cases k.mkdir) [
  | inr (x, m) ↦ absurd (let z = rw m at (h) in cc)
  | inl m ↦ rw m (opened-none k file _ (rw m at (h)))
]

-- A dead letter with an error could not be written whole, and nothing is lost from the file.
abbrev Failed : Letters → DeadLetterEntry → Text → Text → Type 0
Failed k letter file file' = LetterFails k letter × ((rest : Text) × (file' ≡ file ++ rest))

unchanged : (file : Text) → (rest : Text) × (file ≡ file ++ rest)
unchanged file = ([], sym (append-nil file))

appended-some :
    (k : Letters) (letter : DeadLetterEntry) (file bytes : Text) (o : Option (Error × ℕ))
    → k.write ≡ o
    → (er : Error) → (appended k file bytes).0 ≡ some er
    → Failed k letter file (appended k file bytes).1
unfolding appended
appended-some k letter file bytes none m er h = absurd (let z = rw m at (h) in cc)
appended-some k letter file bytes (some (x, n)) m er h =
    (not_written (x, n) m, rw m (take n bytes, refl))

opened-some :
    (k : Letters) (letter : DeadLetterEntry) (file : Text) (r : Result Text)
    → k.marshal letter ≡ r
    → (er : Error) → (opened k file r).0 ≡ some er
    → Failed k letter file (opened k file r).1
unfolding opened
opened-some k letter file (err e) m er h = (not_encoded e m, unchanged file)
opened-some k letter file (ok bytes) m er h = elim (Option-cases k.open_error) [
  | inr (x, g) ↦ (not_opened x g, rw g (unchanged file))
  | inl g ↦
      let (why, rest) =
        appended-some k letter file (bytes ++ (10 ∷ [])) k.write refl er (rw g at (h)) in
      (why, rw g rest)
]

write_dead_letter-some :
    (k : Letters) (payload : LogRequest) (source : Text) (offset : ℤ) (e : Error) (file : Text)
    (er : Error)
    → (write_dead_letter k payload source offset e file).0 ≡ some er
    → Failed k
        record {
          created_at = k.now;
          error = error_text e;
          source_file = source;
          source_offset = offset;
          payload = payload;
        }
        file
        (write_dead_letter k payload source offset e file).1
unfolding write_dead_letter
write_dead_letter-some k payload source offset e file er h = elim (Option-cases k.mkdir) [
  | inr (x, m) ↦ (no_directory x m, rw m (unchanged file))
  | inl m ↦ let (why, rest) = opened-some k _ file _ refl er (rw m at (h)) in (why, rw m rest)
]

module _ (v : Env) (event : TailEvent) where
  -- the state once the key of an event was marked
  abbrev keyed_state : NormalizedEvent → State → State
  keyed_state x s =
      let run = deliver_parsed_event v.digest (v.network event) s.client x in
      let m = inc_parsed_ok (inc_lines_read s.metrics) in
      let key = key_of v.digest x in
      record s {
        client = keyed s.client key;
        metrics = inc_retries (length run.delays) (mark_idempotency_key key m);
      }

  marked-tally :
      (key : Text) (m : RuntimeMetrics) → tally_of (mark_idempotency_key key m) ≡ tally_of m
  unfolding mark_idempotency_key
  marked-tally key m = elim (Bool-cases (is_seen key m.seen)) [
    | inl h ↦ rw h refl
    | inr h ↦ rw h refl
  ]

  lettered-Handled :
      (x : NormalizedEvent) (e : Error) (s : State) (p : Option Error × Text)
      → parse v.reader v.parser event ≡ ok x
      → delivery_of v event s x ≡ err e
      → (p.0 ≡ none
          → (bytes : Text) × ((v.letters event).marshal (letter_of v event x e) ≡ ok bytes)
            × (p.1 ≡ s.dead_letters ++ (bytes ++ (10 ∷ []))))
      → ((er : Error)
          → p.0 ≡ some er
          → Failed (v.letters event) (letter_of v event x e) s.dead_letters p.1)
      → let b = keyed_state x s in
        let r = lettered v event (record b { metrics = inc_delivery_failed b.metrics }) p in
        Handled v event s r.0 r.1
  unfolding lettered
  lettered-Handled x e s (some er, file) h g k f =
      stuck x e er h g (f er refl).0 refl (f er refl).1 (
        ap (λ t. (t.0, t.1, t.2, t.3, next_uint64 t.4, t.5))
          (marked-tally (key_of v.digest x) (inc_parsed_ok (inc_lines_read s.metrics))))
  lettered-Handled x e s (none, file) h g k f =
      let (bytes, m, w) = k refl in
      buried x e bytes h g m refl w (
        ap (λ t. (t.0, t.1, t.2, t.3, next_uint64 t.4, next_uint64 t.5))
          (marked-tally (key_of v.digest x) (inc_parsed_ok (inc_lines_read s.metrics))))

  answered-Handled :
      (x : NormalizedEvent) (s : State) (r : Result LogResponse)
      → parse v.reader v.parser event ≡ ok x
      → delivery_of v event s x ≡ r
      → Handled v event s
          (answered v event x (sent_request v x) (keyed_state x s) r).0
          (answered v event x (sent_request v x) (keyed_state x s) r).1
  unfolding answered
  answered-Handled x s (ok out) h g = accepted x out h g refl refl (
      ap (λ t. (t.0, t.1, t.2, next_uint64 t.3, t.4, t.5))
        (marked-tally (key_of v.digest x) (inc_parsed_ok (inc_lines_read s.metrics))))
  answered-Handled x s (err e) h g =
      lettered-Handled x e s _ h g
        (write_dead_letter-none (v.letters event) (sent_request v x) x.source_file x.source_offset e
          s.dead_letters)
        (write_dead_letter-some (v.letters event) (sent_request v x) x.source_file x.source_offset e
          s.dead_letters)

  parsed_line-Handled :
      (s : State) (r : Result NormalizedEvent)
      → parse v.reader v.parser event ≡ r
      → let p = parsed_line v event (record s { metrics = inc_lines_read s.metrics }) r in
        Handled v event s p.0 p.1
  unfolding parsed_line delivered
  parsed_line-Handled s (err e) h = unparsed e h refl refl refl
  parsed_line-Handled s (ok x) h = answered-Handled x s _ h refl

  -- The callback handles a line in one of the ways of `Handled`.
  pub handle_line-Handled :
      (s : State) → Handled v event s (handle_line v event s).0 (handle_line v event s).1
  unfolding handle_line
  handle_line-Handled s = parsed_line-Handled s (parse v.reader v.parser event) refl
