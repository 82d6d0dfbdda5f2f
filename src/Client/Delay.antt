-- ===== src/Client/Delay.antt =====
-- RetryConfig, computeRetryDelay and the random durations of clients/go-lib/client.go. A duration is
-- an int64 of nanoseconds; `random n` is what rand.Int63n(n) gives, a number below n.
use audit_logging.Common.{ℕ, ◌+◌, ◌*◌, if◌then◌else◌}
use audit_logging.Common.Int.{
  ℤ, pos, pos_part, ltb_ℤ, leb_ℤ, add_int64, sub_int64, scale_int64, half_ℤ,
}

-- A strategy that is none of the three names is `unknown`.
pub data JitterStrategy : Type 0 where
  full equal decorrelated unknown : JitterStrategy

pub record RetryConfig : Type 0 where
  pub max_attempts : ℤ
  pub initial_backoff : ℤ
  pub max_backoff : ℤ
  pub max_jitter : ℤ
  pub jitter_strategy : JitterStrategy

abbrev pub milliseconds : ℕ → ℤ
milliseconds n = pos (n * 1000000)

unfoldable pub normalize_jitter_strategy : JitterStrategy → JitterStrategy
normalize_jitter_strategy equal = equal
normalize_jitter_strategy decorrelated = decorrelated
normalize_jitter_strategy _ = full

unfoldable pub random_jitter : (ℕ → ℕ) → ℤ → ℤ
random_jitter random most = if leb_ℤ most (pos 0) then pos 0 else pos (random (pos_part most + 1))

unfoldable pub random_duration : (ℕ → ℕ) → ℤ → ℤ → ℤ
random_duration random least most =
    if leb_ℤ most least
    then least
    else add_int64 least (pos (random (pos_part (sub_int64 most least) + 1)))

-- the upper end of the decorrelated delay
abbrev pub upper_delay : RetryConfig → ℤ → ℤ
upper_delay r previous_delay =
    let lower = r.initial_backoff in
    let tripled = scale_int64 3 previous_delay in
    let raised = if ltb_ℤ tripled lower then lower else tripled in
    let capped = if ltb_ℤ r.max_backoff raised then r.max_backoff else raised in
    let jitter_cap = add_int64 lower r.max_jitter in
    if ltb_ℤ (pos 0) r.max_jitter
    then if ltb_ℤ jitter_cap capped then jitter_cap else capped
    else capped

unfoldable pub compute_retry_delay : RetryConfig → (ℕ → ℕ) → ℤ → ℤ → ℤ
unfolding random_jitter random_duration
compute_retry_delay r random base previous_delay = elim r.jitter_strategy [
  | equal ↦
      let half = half_ℤ r.max_jitter in add_int64 (add_int64 base half) (random_jitter random half)
  | decorrelated ↦ random_duration random r.initial_backoff (upper_delay r previous_delay)
  | _ ↦ add_int64 base (random_jitter random r.max_jitter)
]
