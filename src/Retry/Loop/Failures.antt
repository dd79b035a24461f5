-- ===== src/Retry/Loop/Failures.antt =====
-- What a failed `RetryWithCtx` reports.
use device_rfid_llrp_go.Prelude.{
  ℕ, ◌+◌, ◌≡◌, ◌≢◌, ◌⊎◌, inl, inr, refl, Bool, true, false, Option, none, some, List, [], ◌∷◌,
  arith,
}
use device_rfid_llrp_go.Retry.Errors.{
  ℤ, Err, FError, new_f_error, add_err, retries_exceeded, wait_exceeds_deadline, is_error,
}
use device_rfid_llrp_go.Retry.BackOff.{ExpBackOff, Waits, waits_of}
use device_rfid_llrp_go.Retry.Loop.{
  Call, success, failure, Round, failed, goes_on, too_late, retry_loop, retry_with_ctx, forever,
}

module _ {E : Type 0} where
  -- An error that a round of the list brought: the context's, or one that is not temporary.
  abbrev pub Brought : Err E → List (Round E) → Type 0
  Brought x [] = ⊥
  Brought x (r ∷ rs) = ((r.done ≡ some x) ⊎ (r.call ≡ failure false x)) ⊎ Brought x rs

  loop_reasons :
      (w : Waits) (d : Option ℕ) (n : ℤ) (k : ℕ) (re re' : FError E) (rs : List (Round E))
      → retry_loop w d n k re rs ≡ failed re'
      → ((re'.main_err ≡ retries_exceeded) × (n ≢ forever))
        ⊎ ((re'.main_err ≡ wait_exceeds_deadline) × (d ≢ none))
        ⊎ Brought re'.main_err rs
  unfolding retry_loop goes_on too_late
  loop_reasons w d n k re re' [] e = ground arith
  loop_reasons w d n k re re' (r ∷ rs) e =
      grind (arith, λ (x : Err E). loop_reasons w d n (k + 1) (add_err re x) re' rs)

  -- If `RetryWithCtx` fails with a context that was live at the start, its main error is one of these:
  -- `ErrRetriesExceeded`, where the retries are limited or the first call failed for good;
  -- `ErrWaitExceedsDeadline`, where there is a deadline; or an error that a later round brought, from the
  -- context or from a call that failed for good.
  pub retry_with_ctx_reasons :
      (ebo : ExpBackOff) (d : Option ℕ) (n : ℤ) (first : Call E) (rs : List (Round E))
      (re : FError E)
      → retry_with_ctx ebo none d n first rs ≡ failed re
      → ((re.main_err ≡ retries_exceeded)
          × ((n ≢ forever) ⊎ ((x : Err E) × (first ≡ failure false x))))
        ⊎ ((re.main_err ≡ wait_exceeds_deadline) × (d ≢ none))
        ⊎ Brought re.main_err rs
  unfolding retry_with_ctx
  retry_with_ctx_reasons ebo d n success rs re e = ground arith
  retry_with_ctx_reasons ebo d n (failure false x) rs re e = inl (ground arith, inr (x, refl))
  retry_with_ctx_reasons ebo d n (failure true x) rs re e =
      ground (arith, loop_reasons (waits_of ebo) d n 1 (new_f_error x ebo.keep_errs) re rs e)

  -- If the context has ended before the first call, `RetryWithCtx` fails with the context's error, and
  -- `FError.Is` is true of that failure for every target that is no `*FError`.
  pub retry_with_ctx_expired :
      (ebo : ExpBackOff) (x : Err E) (d : Option ℕ) (n : ℤ) (first : Call E) (rs : List (Round E))
      (is : Err E → Err E → Bool) (target : Err E)
      → (re : FError E) × (retry_with_ctx ebo (some x) d n first rs ≡ failed re)
        × (re.main_err ≡ x)
        × (is_error is re target ≡ true)
  unfolding retry_with_ctx is_error
  retry_with_ctx_expired ebo x d n first rs is target = (_, refl, refl, ground arith)
