-- ===== src/Retry/Loop.antt =====
-- `ExpBackOff.RetryWithCtx`. What the world does is a list of rounds: the clock at the deadline check, the
-- draw for the jitter, whether `select` saw the context done, and what the function returned.
pub mod Attempts
pub mod Failures
use device_rfid_llrp_go.Prelude.{
  ℕ, zero, suc, ◌+◌, Bool, true, false, Option, none, some, List, [], ◌∷◌, ltb, if◌then◌else◌,
}
use device_rfid_llrp_go.Retry.Errors.{
  ℤ, pos, negsuc, Err, FError, new_f_error, add_err, retries_exceeded, wait_exceeds_deadline,
}
use device_rfid_llrp_go.Retry.BackOff.{ExpBackOff, Waits, waits_of, next_wait}

-- `Forever` is -1.
abbrev pub forever : ℤ
forever = negsuc 0

-- What a call of the function returned: nil, or an error and whether it is temporary.
pub data Call (E : Type 0) : Type 0 where
  success : Call E
  failure : Bool → Err E → Call E

pub record Round (E : Type 0) : Type 0 where
  pub now : ℕ
  pub draw : ℕ
  -- `ctx.Err()`, if `select` took the case `<-ctx.Done()`
  pub done : Option (Err E)
  pub call : Call E

-- `running` is no return: the rounds given so far end in the middle of the loop.
pub data Progress (E : Type 0) : Type 0 where
  returned_nil : Progress E
  failed : FError E → Progress E
  running : FError E → Progress E

abbrev is_forever : ℤ → Bool
is_forever (negsuc zero) = true
is_forever _ = false

-- `retries == Forever || attempt < retries`
unfoldable pub goes_on : ℤ → ℕ → Bool
goes_on (pos n) attempt = ltb attempt n
goes_on (negsuc n) attempt = is_forever (negsuc n)

-- `hasDeadline && time.Now().Add(wait).After(deadline)`
unfoldable pub too_late : Option ℕ → ℕ → Bool
too_late none at = false
too_late (some deadline) at = ltb deadline at

module _ {E : Type 0} where
  abbrev with_main : Err E → FError E → FError E
  with_main x re = record re { main_err = x }

  -- The rest of the loop from the head of an iteration.
  unfoldable pub retry_loop : Waits → Option ℕ → ℤ → ℕ → FError E → List (Round E) → Progress E
  unfolding goes_on too_late
  retry_loop w deadline retries attempt re [] =
      if goes_on retries attempt then running re else failed (with_main retries_exceeded re)
  retry_loop w deadline retries attempt re (r ∷ rs) = elim (goes_on retries attempt) [
    | false ↦ failed (with_main retries_exceeded re)
    | true ↦ elim (too_late deadline (r.now + next_wait w attempt r.draw)) [
      | true ↦ failed (with_main wait_exceeds_deadline re)
      | false ↦ elim (r.done) [
        | some x ↦ failed (with_main x re)
        | none ↦ elim (r.call) [
          | success ↦ returned_nil
          | failure temporary x ↦ elim temporary [
            | false ↦ failed (with_main x re)
            | true ↦ retry_loop w deadline retries (attempt + 1) (add_err re x) rs
          ]
        ]
      ]
    ]
  ]

  -- `RetryWithCtx`: `expired` is `ctx.Err()` at the start, and `first` the first call of the function.
  unfoldable pub retry_with_ctx :
      ExpBackOff → Option (Err E) → Option ℕ → ℤ → Call E → List (Round E) → Progress E
  unfolding retry_loop
  retry_with_ctx ebo (some x) deadline retries first rs =
      failed (record { main_err = x; others = []; attempts = 0; max = pos 0; last = 0 })
  retry_with_ctx ebo none deadline retries success rs = returned_nil
  retry_with_ctx ebo none deadline retries (failure false x) rs =
      failed (with_main retries_exceeded (new_f_error x ebo.keep_errs))
  retry_with_ctx ebo none deadline retries (failure true x) rs =
      retry_loop (waits_of ebo) deadline retries 1 (new_f_error x ebo.keep_errs) rs
