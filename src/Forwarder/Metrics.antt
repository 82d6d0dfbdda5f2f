-- ===== src/Forwarder/Metrics.antt =====
-- cmd/log-forwarder/metrics.go: the counters, in uint64, and the keys that were seen.
use audit_logging.Common.{ℕ, ◌+◌, ◌%◌, ◌^◌, [], List, ◌∷◌, ◌++◌, Bool, false, ◌||◌, if◌then◌else◌}
use audit_logging.Text.{Text, codes, equal}
use audit_logging.Text.Decimal.{format_uint}
use audit_logging.Server.Model.{next_uint64}

pub record RuntimeMetrics : Type 0 where
  pub lines_read : ℕ
  pub parsed_ok : ℕ
  pub parse_failed : ℕ
  pub delivery_success : ℕ
  pub delivery_failed : ℕ
  pub dead_letter_writes : ℕ
  pub retries : ℕ
  pub duplicate_keys : ℕ
  pub seen : List Text

abbrev pub new_runtime_metrics : RuntimeMetrics
new_runtime_metrics = record {
  lines_read = 0;
  parsed_ok = 0;
  parse_failed = 0;
  delivery_success = 0;
  delivery_failed = 0;
  dead_letter_writes = 0;
  retries = 0;
  duplicate_keys = 0;
  seen = [];
}

abbrev pub inc_lines_read : RuntimeMetrics → RuntimeMetrics
inc_lines_read m = record m { lines_read = next_uint64 m.lines_read }

abbrev pub inc_parsed_ok : RuntimeMetrics → RuntimeMetrics
inc_parsed_ok m = record m { parsed_ok = next_uint64 m.parsed_ok }

abbrev pub inc_parse_failed : RuntimeMetrics → RuntimeMetrics
inc_parse_failed m = record m { parse_failed = next_uint64 m.parse_failed }

abbrev pub inc_delivery_success : RuntimeMetrics → RuntimeMetrics
inc_delivery_success m = record m { delivery_success = next_uint64 m.delivery_success }

abbrev pub inc_delivery_failed : RuntimeMetrics → RuntimeMetrics
inc_delivery_failed m = record m { delivery_failed = next_uint64 m.delivery_failed }

abbrev pub inc_dead_letter_writes : RuntimeMetrics → RuntimeMetrics
inc_dead_letter_writes m = record m { dead_letter_writes = next_uint64 m.dead_letter_writes }

-- IncRetries, once for each of a number of retries
abbrev pub inc_retries : ℕ → RuntimeMetrics → RuntimeMetrics
inc_retries n m = record m { retries = (m.retries + n) % 2 ^ 64 }

unfoldable pub is_seen : Text → List Text → Bool
is_seen key [] = false
is_seen key (k ∷ ks) = equal k key || is_seen key ks

-- MarkIdempotencyKey's effect; its answer is `is_seen`.
unfoldable pub mark_idempotency_key : Text → RuntimeMetrics → RuntimeMetrics
mark_idempotency_key key m =
    if is_seen key m.seen
    then record m { duplicate_keys = next_uint64 m.duplicate_keys }
    else record m { seen = key ∷ m.seen }

pub record MetricsSnapshot : Type 0 where
  pub lines_read : ℕ
  pub parsed_ok : ℕ
  pub parse_failed : ℕ
  pub delivery_success : ℕ
  pub delivery_failed : ℕ
  pub dead_letter_writes : ℕ
  pub retries : ℕ
  pub duplicate_keys : ℕ

-- Snapshot, taken between two increments
unfoldable pub snapshot : RuntimeMetrics → MetricsSnapshot
snapshot m = record {
  lines_read = m.lines_read;
  parsed_ok = m.parsed_ok;
  parse_failed = m.parse_failed;
  delivery_success = m.delivery_success;
  delivery_failed = m.delivery_failed;
  dead_letter_writes = m.dead_letter_writes;
  retries = m.retries;
  duplicate_keys = m.duplicate_keys;
}

-- its last four counters
rest_of : MetricsSnapshot → Text
rest_of s =
    format_uint s.delivery_failed
    ++ (codes " deadletter_writes="
        ++ (format_uint s.dead_letter_writes
            ++ (codes " retries="
                ++ (format_uint s.retries
                    ++ (codes " duplicate_keys=" ++ format_uint s.duplicate_keys)))))

-- the line that StartMetricsReporter logs at a tick
unfoldable pub report_line : MetricsSnapshot → Text
unfolding rest_of
report_line s =
    codes "event=metrics lines_read="
    ++ (format_uint s.lines_read
        ++ (codes " parsed_ok="
            ++ (format_uint s.parsed_ok
                ++ (codes " parse_failed="
                    ++ (format_uint s.parse_failed
                        ++ (codes " delivery_success="
                            ++ (format_uint s.delivery_success
                                ++ (codes " delivery_failed=" ++ rest_of s))))))))
