-- ===== src/Retry/BackOff.antt =====
-- `ExpBackOff.nextWait`: the wait before the next attempt. Durations are int64 counts of nanoseconds that
-- are not negative here: `RetryWithCtx` replaces any other before it waits. What `rand.Int63n` draws is an
-- argument.
pub mod Bounds
use device_rfid_llrp_go.Prelude.{
  ℕ, ◌+◌, ◌-◌, ◌*◌, ◌/◌, ◌%◌, ◌^◌, Bool, true, false, ◌&&◌, ◌||◌, leb, ltb, ◌==◌, if◌then◌else◌,
}
use device_rfid_llrp_go.Retry.Errors.{ℤ, pos, negsuc, max_int}

pub record ExpBackOff : Type 0 where
  pub back_off : ℤ
  pub max : ℤ
  pub keep_errs : ℤ
  pub jitter : Bool

-- The settings that the loop works with.
pub record Waits : Type 0 where
  pub back_off : ℕ
  pub max : ℕ
  pub jitter : Bool

-- `if ebo.Max <= 0 { ebo.Max = math.MaxInt64 }`
abbrev positive_or : ℕ → ℤ → ℕ
positive_or d (pos n) = if n == 0 then d else n
positive_or d (negsuc n) = d

unfoldable pub waits_of : ExpBackOff → Waits
waits_of ebo = record {
  back_off = positive_or 1 ebo.back_off;
  max = positive_or max_int ebo.max;
  jitter = ebo.jitter;
}

-- The product of two int64s, as its bit pattern.
abbrev pub i64_mul : ℕ → ℕ → ℕ
i64_mul a b = a * b % 2 ^ 64

-- `nextWait`, for a draw `s` from [0, 2^attempts)
unfoldable pub next_wait : Waits → ℕ → ℕ → ℕ
next_wait w attempts s =
    if leb attempts 0 || w.max == 0
    then 0
    else if w.back_off == 0 || leb 63 attempts
    then w.max
    else if w.jitter
    then (if ltb 0 s && ltb (w.max / s) w.back_off then w.max else i64_mul w.back_off s)
    else if leb w.back_off (w.max / 2 ^ (attempts - 1))
    then i64_mul w.back_off (2 ^ (attempts - 1))
    else w.max
