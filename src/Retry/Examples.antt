-- ===== src/Retry/Examples.antt =====
-- The theorems on pkg/retry at concrete inputs: three failures with two kept, and their waits.
use device_rfid_llrp_go.Prelude.{
  ℕ, ◌*◌, ◌≤◌, ◌≡◌, ◌≢◌, ◌⊎◌, refl, min, Bool, true, false, Option, none, some, List, [], ◌∷◌,
  arith,
}
use device_rfid_llrp_go.Retry.Errors.{
  pos, Err, other, FError, new_f_error, retries_exceeded, wait_exceeds_deadline,
}
use device_rfid_llrp_go.Retry.Errors.Ring.{add_all, history, newest, kept_newest}
use device_rfid_llrp_go.Retry.BackOff.{ExpBackOff, Waits, waits_of, next_wait}
use device_rfid_llrp_go.Retry.BackOff.Bounds.{IsWaits, multiple, next_wait-min, next_wait_mono}
use device_rfid_llrp_go.Retry.Loop.{
  failure, Round, failed, running, goes_on, too_late, retry_loop, retry_with_ctx, forever,
}
use device_rfid_llrp_go.Retry.Loop.Attempts.{
  Temporary, temporaries, errors, retry_with_ctx_ends, retry_with_ctx_gives_up,
}
use device_rfid_llrp_go.Retry.Loop.Failures.{Brought, retry_with_ctx_reasons}

abbrev ebo : ExpBackOff
ebo = record { back_off = pos 100; max = pos 1000; keep_errs = pos 2; jitter = false }

abbrev waits : Waits
waits = record { back_off = 100; max = 1000; jitter = false }

waits-IsWaits : IsWaits waits
waits-IsWaits = ground arith

abbrev failures : List (Temporary ℕ)
failures =
    record { now = 7; draw = 60; error = other 2 }
    ∷ record { now = 400; draw = 150; error = other 3 }
    ∷ []

same : Err ℕ → Err ℕ → Bool
same retries_exceeded retries_exceeded = true
same _ _ = false

-- The second call fails for good.
abbrev for_good : List (Round ℕ)
for_good = record { now = 0; draw = 0; done = none; call = failure false (other 7) } ∷ []

abbrev deadline : Option ℕ
deadline = some 9000

abbrev stopped : FError ℕ
stopped = record { main_err = other 7; others = other 1 ∷ []; attempts = 0; max = pos 2; last = 0 }

kept_newest_example :
    history (add_all (new_f_error (other 1) (pos 2)) (errors failures)) ≡ other 2 ∷ other 3 ∷ []
kept_newest_example = kept_newest 2 (other 1) (errors failures) (omega arith)

next_wait-min_example : next_wait waits 3 0 ≡ min 1000 (100 * multiple waits 3 0)
next_wait-min_example = next_wait-min waits 3 0 waits-IsWaits (omega arith) (omega arith)

next_wait_mono_example : next_wait waits 2 0 ≤ next_wait waits 5 0
next_wait_mono_example = next_wait_mono waits 2 5 0 0 waits-IsWaits refl (omega arith) (omega arith)

retry_with_ctx_ends_example :
    retry_with_ctx ebo none none (pos 2) (failure true (other 1)) (temporaries failures)
    ≢ running stopped
retry_with_ctx_ends_example =
    retry_with_ctx_ends ebo none none 2 (failure true (other 1)) (temporaries failures) stopped
      (omega arith)

retry_with_ctx_gives_up_example :
    (re : FError ℕ) × (retry_with_ctx ebo none none
        (pos 3)
        (failure true (other 1))
        (temporaries failures)
      ≡ failed re)
    × (re.main_err ≡ retries_exceeded)
    × (history re ≡ newest 2 (other 1 ∷ errors failures))
retry_with_ctx_gives_up_example =
    retry_with_ctx_gives_up ebo 2 (other 1) failures refl (omega arith)

retry_with_ctx_reasons_example :
    ((stopped.main_err ≡ retries_exceeded)
      × ((pos 5 ≢ forever) ⊎ ((x : Err ℕ) × (failure true (other 1) ≡ failure false x))))
    ⊎ ((stopped.main_err ≡ wait_exceeds_deadline) × (deadline ≢ none))
    ⊎ Brought (stopped.main_err) for_good
unfolding waits_of
retry_with_ctx_reasons_example =
    retry_with_ctx_reasons ebo deadline (pos 5) (failure true (other 1)) for_good stopped
      (unfold retry_with_ctx retry_loop new_f_error next_wait goes_on too_late in refl)
