-- ===== src/Retry/Loop/Attempts.antt =====
-- How often the function is called, and that the loop ends.
use device_rfid_llrp_go.Prelude.{
  ℕ, suc, ◌+◌, ◌≤◌, ◌≡◌, ◌≢◌, refl, true, false, Option, none, some, List, [], ◌∷◌, arith, length,
}
use device_rfid_llrp_go.Retry.Errors.{pos, Err, FError, new_f_error, add_err, retries_exceeded}
use device_rfid_llrp_go.Retry.Errors.Ring.{add_all, history, newest, kept_newest}
use device_rfid_llrp_go.Retry.BackOff.{ExpBackOff, Waits, waits_of}
use device_rfid_llrp_go.Retry.Loop.{
  Call, success, failure, Round, failed, running, retry_loop, retry_with_ctx, forever,
}

-- A temporary failure, with the clock at its deadline check and the draw for the jitter before it.
pub record Temporary (E : Type 0) : Type 0 where
  pub now : ℕ
  pub draw : ℕ
  pub error : Err E

module _ {E : Type 0} where
  loop_ends :
      (w : Waits) (d : Option ℕ) (n k : ℕ) (re re' : FError E) (rs : List (Round E))
      → n ≤ k + length rs
      → retry_loop w d (pos n) k re rs ≢ running re'
  unfolding retry_loop
  loop_ends w d n k re re' [] h = ground arith
  loop_ends w d n k re re' (r ∷ rs) h =
      grind (arith, λ (x : Err E). loop_ends w d n (k + 1) (add_err re x) re' rs (omega arith))

  -- With `n` attempts allowed, `RetryWithCtx` has returned once the rounds given are at least `n` less one,
  -- whatever happens in them.
  pub retry_with_ctx_ends :
      (ebo : ExpBackOff) (expired : Option (Err E)) (d : Option ℕ) (n : ℕ) (first : Call E)
      (rs : List (Round E)) (re : FError E)
      → n ≤ length rs + 1
      → retry_with_ctx ebo expired d (pos n) first rs ≢ running re
  unfolding retry_with_ctx
  retry_with_ctx_ends ebo (some x) d n first rs re h = ground arith
  retry_with_ctx_ends ebo none d n success rs re h = ground arith
  retry_with_ctx_ends ebo none d n (failure false x) rs re h = ground arith
  retry_with_ctx_ends ebo none d n (failure true x) rs re h =
      loop_ends (waits_of ebo) d n 1 (new_f_error x ebo.keep_errs) re rs (omega arith)

  -- The rounds of a live context in which the function fails so, and the errors that it returns.
  abbrev pub temporaries : List (Temporary E) → List (Round E)
  temporaries [] = []
  temporaries (t ∷ ts) =
      record { now = t.now; draw = t.draw; done = none; call = failure true t.error }
      ∷ temporaries ts

  abbrev pub errors : List (Temporary E) → List (Err E)
  errors [] = []
  errors (t ∷ ts) = t.error ∷ errors ts

  -- Only temporary errors, with no deadline: the loop keeps what `addErr` keeps.
  loop_fails :
      (w : Waits) (n k : ℕ) (re : FError E) (ts : List (Temporary E))
      → n ≡ k + length ts
      → retry_loop w none (pos n) k re (temporaries ts)
        ≡ failed (record (add_all re (errors ts)) { main_err = retries_exceeded })
  unfolding retry_loop add_all
  loop_fails w n k re [] h = ground arith
  loop_fails w n k re (t ∷ ts) h = ground (arith, loop_fails w n (k + 1) (add_err re t.error) ts)

  loop_forever :
      (w : Waits) (k : ℕ) (re : FError E) (ts : List (Temporary E))
      → retry_loop w none forever k re (temporaries ts) ≡ running (add_all re (errors ts))
  unfolding retry_loop add_all
  loop_forever w k re [] = refl
  loop_forever w k re (t ∷ ts) = loop_forever w (k + 1) (add_err re t.error) ts

  -- If each of the allowed calls fails with a temporary error, at whatever times and with whatever draws for
  -- the jitter, with no deadline, a live context and room for at least one error, `RetryWithCtx` fails after
  -- the last with `ErrRetriesExceeded` and keeps the newest errors in their order.
  pub retry_with_ctx_gives_up :
      (ebo : ExpBackOff) (m : ℕ) (x : Err E) (ts : List (Temporary E))
      → ebo.keep_errs ≡ pos m
      → 1 ≤ m
      → (re : FError E) × (retry_with_ctx ebo none none
            (pos (suc (length ts)))
            (failure true x)
            (temporaries ts)
          ≡ failed re)
        × (re.main_err ≡ retries_exceeded)
        × (history re ≡ newest m (x ∷ errors ts))
  unfolding retry_with_ctx
  retry_with_ctx_gives_up ebo m x ts q h = (
    record (add_all (new_f_error x ebo.keep_errs) (errors ts)) { main_err = retries_exceeded },
    loop_fails (waits_of ebo) (suc (length ts)) 1 (new_f_error x ebo.keep_errs) ts (omega arith),
    refl,
    rw q (kept_newest m x (errors ts) h),
  )

  -- With `Forever`, no deadline and a live context, temporary failures never end the loop, and it keeps the
  -- errors that `addErr` keeps.
  pub retry_with_ctx-forever :
      (ebo : ExpBackOff) (x : Err E) (ts : List (Temporary E))
      → retry_with_ctx ebo none none forever (failure true x) (temporaries ts)
        ≡ running (add_all (new_f_error x ebo.keep_errs) (errors ts))
  unfolding retry_with_ctx
  retry_with_ctx-forever ebo x ts = loop_forever (waits_of ebo) 1 (new_f_error x ebo.keep_errs) ts
