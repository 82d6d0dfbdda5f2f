-- ===== src/Forwarder/Handler/Laws.antt =====
-- cmd/log-forwarder/main.go: no line is unaccounted for.
use audit_logging.Common.{
  ℕ, ◌+◌, ◌%◌, ◌^◌, List, ◌≡◌, Bool-cases, Option, none, some, inl, inr, arith,
}
use audit_logging.Text.{Text}
use audit_logging.Server.Model.{Error, Result, ok, err}
use audit_logging.Client.{LogRequest, LogResponse}
use audit_logging.Forwarder.Config.{Config}
use audit_logging.Forwarder.Checkpoint.{Checkpoint, Codec, Calls}
use audit_logging.Forwarder.Follower.{Follower, TailEvent}
use audit_logging.Forwarder.Follower.Changes.{Poll, run_polls}
use audit_logging.Forwarder.Follower.Changes.Laws.{IsSound, ran}
use audit_logging.Forwarder.Follower.Changes.Keeps.{Kept, run_polls-kept}
use audit_logging.Forwarder.Parser.{NormalizedEvent, parse}
use audit_logging.Forwarder.Delivery.{key_of}
use audit_logging.Forwarder.Metrics.{
  RuntimeMetrics, inc_lines_read, inc_parsed_ok, inc_delivery_failed, is_seen, mark_idempotency_key,
}
use audit_logging.Forwarder.Handler.Trace.{Trace, start, line, handle_line-Handled}
use audit_logging.Forwarder.Handler.{
  State, Env, Machine, sink, lettered, answered, delivered, parsed_line, handle_line,
}

-- The dead letters that were written for the deliveries that failed, unless the work has stopped.
abbrev pub Lettered : Option Error → RuntimeMetrics → Type 0
Lettered none m = m.delivery_failed ≡ m.dead_letter_writes
Lettered (some e) m = Unit

-- The accounts of the lines, in uint64, with a number of events whose delivery has not been counted yet.
abbrev pub Accounted : ℕ → Option Error → RuntimeMetrics → Type 0
Accounted pending o m =
    (m.lines_read ≡ (m.parsed_ok + m.parse_failed) % 2 ^ 64)
    × (m.parsed_ok ≡ (m.delivery_success + m.delivery_failed + pending) % 2 ^ 64)
    × Lettered o m

module _ (v : Env) (event : TailEvent) where
  lettered-Accounted :
      (s : State) (p : Option Error × Text)
      → Accounted 1 none s.metrics
      → Accounted 0
          (lettered v event (record s { metrics = inc_delivery_failed s.metrics }) p).0
          (lettered v event (record s { metrics = inc_delivery_failed s.metrics }) p).1.metrics
  unfolding lettered
  lettered-Accounted s (some e, file) (h, g, l) = (h, omega (arith, g), tt)
  lettered-Accounted s (none, file) (h, g, l) = (h, omega (arith, g), omega (arith, l))

  answered-Accounted :
      (parsed : NormalizedEvent) (payload : LogRequest) (s : State) (r : Result LogResponse)
      → Accounted 1 none s.metrics
      → Accounted 0
          (answered v event parsed payload s r).0
          (answered v event parsed payload s r).1.metrics
  unfolding answered
  answered-Accounted parsed payload s (ok out) (h, g, l) = (h, omega (arith, g), l)
  answered-Accounted parsed payload s (err e) a = lettered-Accounted s _ a

  marked-Accounted :
      (n : ℕ) (key : Text) (m : RuntimeMetrics)
      → Accounted n none m
      → Accounted n none (mark_idempotency_key key m)
  unfolding mark_idempotency_key
  marked-Accounted n key m a = elim (Bool-cases (is_seen key m.seen)) [
    | inl h ↦ rw h a
    | inr h ↦ rw h a
  ]

  delivered-Accounted :
      (parsed : NormalizedEvent) (s : State)
      → Accounted 1 none s.metrics
      → Accounted 0 (delivered v event parsed s).0 (delivered v event parsed s).1.metrics
  unfolding delivered
  delivered-Accounted parsed s a =
      answered-Accounted parsed _ _ _ (marked-Accounted 1 (key_of v.digest parsed) s.metrics a)

  parsed_line-Accounted :
      (s : State) (r : Result NormalizedEvent)
      → Accounted 0 none s.metrics
      → Accounted 0
          (parsed_line v event (record s { metrics = inc_lines_read s.metrics }) r).0
          (parsed_line v event (record s { metrics = inc_lines_read s.metrics }) r).1.metrics
  unfolding parsed_line
  parsed_line-Accounted s (err e) (h, g, l) = (omega (arith, h), g, l)
  parsed_line-Accounted s (ok parsed) (h, g, l) =
      delivered-Accounted parsed (record s { metrics = inc_parsed_ok (inc_lines_read s.metrics) })
        (omega (arith, h), omega (arith, g), l)

  pub handle_line-Accounted :
      (s : State)
      → Accounted 0 none s.metrics
      → Accounted 0 (handle_line v event s).0 (handle_line v event s).1.metrics
  unfolding handle_line
  handle_line-Accounted s a = parsed_line-Accounted s (parse v.reader v.parser event) a

module _ (v : Env) (c : Codec) (calls : Checkpoint → Calls) (now : Machine → Text) where
  -- what holds of the program when its work has or has not stopped
  abbrev pub Books : State → Option Error → Machine → Type 0
  Books s o m = Accounted 0 o m.state.metrics × Trace v s m.state

  weakened : (er : Error) (m : RuntimeMetrics) → Accounted 0 none m → Accounted 0 (some er) m
  weakened er m (h, g, l) = (h, g, tt)

  saved-Accounted : (o : Option Error) (m : RuntimeMetrics) → Accounted 0 none m → Accounted 0 o m
  saved-Accounted none m a = a
  saved-Accounted (some er) m a = weakened er m a

  sink-Kept : (s : State) → Kept (sink v c calls now) (Books s)
  unfolding sink
  sink-Kept s = record {
    by_line = λ ev m (a, t). (
      handle_line-Accounted v ev m.state a,
      line ev m.state _ _ t (handle_line-Handled v ev m.state),
    );
    by_save = λ path cp m (a, t). (saved-Accounted _ m.state.metrics a, t);
    weaken = λ er m (a, t). (weakened er m.state.metrics a, t);
  }

  -- However many rounds the program runs and whatever they meet, its counters and its file of dead letters
  -- come about line by line, each in one of four ways: a line that the parser refuses is counted as not
  -- parsed; an event whose request the service accepts is counted as delivered; where the delivery fails,
  -- that is counted, and the file of dead letters grows by the encoded letter, with the request, the error,
  -- the file and the offset, and a line's end, and this is counted as well; or
  -- the letter cannot be made or written whole and is not counted, the file keeps what it had, and the handling
  -- of the line returns an error. In sum, in uint64, each line that was read was parsed or
  -- counted as not parsed, each event was delivered or counted as not delivered, and, unless an error has
  -- ended the work, a dead letter was written for each of those.
  pub run_polls-Accounted :
      (cfg : Config) (ps : List Poll) (f : Follower) (m : Machine) (sound : IsSound (ran none f m))
      (balanced : Accounted 0 none m.state.metrics)
      → Accounted 0
          (run_polls (sink v c calls now) cfg ps f m).stopped
          (run_polls (sink v c calls now) cfg ps f m).state.state.metrics
        × Trace v m.state (run_polls (sink v c calls now) cfg ps f m).state.state
  run_polls-Accounted cfg ps f m sound balanced =
      run_polls-kept (sink v c calls now) cfg (Books m.state) (sink-Kept m.state) ps f m sound
        (balanced, start)
