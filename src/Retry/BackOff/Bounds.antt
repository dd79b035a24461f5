-- ===== src/Retry/BackOff/Bounds.antt =====
-- The wait is the smaller of `Max` and the multiple of `BackOff`, and nothing overflows.
use device_rfid_llrp_go.Prelude.{
  ℕ, zero, suc, ◌-◌, ◌*◌, ◌/◌, ◌^◌, ◌≤◌, ◌<◌, ◌≡◌, false, arith, min, leb, if◌then◌else◌, dec_lt,
}
use device_rfid_llrp_go.Retry.Errors.{ℤ, pos, negsuc, max_int}
use device_rfid_llrp_go.Retry.BackOff.{ExpBackOff, Waits, waits_of, next_wait, i64_mul}
use native.Mathlib.Nat.{le-div_iff_mul-le, pow-suc}

pow_pos : (k : ℕ) → 0 < 2 ^ k
pow_pos zero = omega arith
pow_pos (suc k) = grind (arith, pow-suc, pow_pos k)

-- What `RetryWithCtx` sets up for the loop.
pub record IsWaits (w : Waits) : Type 0 where
  pub some_back_off : 1 ≤ w.back_off
  pub some_max : 1 ≤ w.max
  pub in_range : w.max ≤ max_int

-- The test for an overflow, and the product that it guards.
capped : ℕ → ℕ → ℕ → ℕ
capped m b p = if leb b (m / p) then i64_mul b p else m

capped-min : (m b p : ℕ) → 0 < p → m ≤ max_int → capped m b p ≡ min m (b * p)
unfolding capped
capped-min m b p h r = ground (arith, le-div_iff_mul-le {k = p} {x = b} {y = m} h)

unfoldable pub multiple : Waits → ℕ → ℕ → ℕ
multiple w attempts s = if w.jitter then s else 2 ^ (attempts - 1)

-- For attempts 1 to 62, with settings as `RetryWithCtx` has them, the wait is the smaller of `Max` and the
-- product of `BackOff` and the multiple, which is the draw with jitter and a power of two without: the tests
-- for overflow change nothing.
pub next_wait-min :
    (w : Waits) (attempts s : ℕ)
    → IsWaits w
    → 1 ≤ attempts
    → attempts < 63
    → next_wait w attempts s ≡ min w.max (w.back_off * multiple w attempts s)
unfolding next_wait multiple capped
next_wait-min w attempts s v lo hi = ground (
  arith,
  capped-min w.max w.back_off s,
  capped-min w.max w.back_off (2 ^ (attempts - 1)) (pow_pos (attempts - 1)),
)

-- With settings as `RetryWithCtx` has them, no attempt waits longer than `Max`, for any draw.
pub next_wait-le : (w : Waits) (attempts s : ℕ) → IsWaits w → next_wait w attempts s ≤ w.max
unfolding next_wait multiple capped
next_wait-le w attempts s v = ground (
  arith,
  capped-min w.max w.back_off s,
  capped-min w.max w.back_off (2 ^ (attempts - 1)) (pow_pos (attempts - 1)),
)

-- From the 63rd attempt on the wait is `Max`.
last_wait : (w : Waits) (b t : ℕ) → IsWaits w → 63 ≤ b → next_wait w b t ≡ w.max
unfolding next_wait
last_wait w b t v h = ground arith

pow_mono : (a b : ℕ) → a ≤ b → 2 ^ a ≤ 2 ^ b
pow_mono zero b h = pow_pos b
pow_mono (suc a) zero h = absurd (omega arith)
pow_mono (suc a) (suc b) h = let p = pow_mono a b (omega arith) in grind (arith, pow-suc)

mul_mono : (c a b : ℕ) → a ≤ b → c * a ≤ c * b
mul_mono c a b h = grind arith

-- Without jitter, and with settings as `RetryWithCtx` has them, a later attempt waits at least as long as an
-- earlier one, from the first on.
pub next_wait_mono :
    (w : Waits) (a b s t : ℕ)
    → IsWaits w
    → w.jitter ≡ false
    → 1 ≤ a
    → a ≤ b
    → next_wait w a s ≤ next_wait w b t
unfolding multiple
next_wait_mono w a b s t v plain lo h = elim (dec_lt b 63) [
  | yes small ↦ ground (
    arith,
    next_wait-min w a s v lo (omega arith),
    next_wait-min w b t v (omega arith) small,
    mul_mono w.back_off (2 ^ (a - 1)) (2 ^ (b - 1)),
    pow_mono (a - 1) (b - 1),
  )
  | no large ↦ ground (arith, next_wait-le w a s v, last_wait w b t v (omega arith))
]

abbrev pub IsI64 : ℤ → Type 0
IsI64 (pos n) = n ≤ max_int
IsI64 (negsuc n) = n ≤ max_int

pub waits_of-IsWaits : (ebo : ExpBackOff) → IsI64 ebo.max → IsWaits (waits_of ebo)
unfolding waits_of
waits_of-IsWaits ebo h = ground arith
