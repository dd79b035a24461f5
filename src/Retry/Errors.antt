-- ===== src/Retry/Errors.antt =====
-- `FError`: the main error and the kept errors, which become a ring once there are `max` of them. An
-- error is an element of a type `E`.
pub mod Ring
use device_rfid_llrp_go.Prelude.{
  ℕ, zero, suc, ◌+◌, ◌-◌, ◌^◌, Bool, true, false, ◌&&◌, ◌||◌, not, List, [], ◌∷◌, ◌++◌, leb, ltb,
  ◌==◌, if◌then◌else◌, length, set,
}

-- A Go `int` that may be negative: `KeepErrs`, `retries`, `Max` and `BackOff`.
pub data ℤ : Type 0 where
  pos : ℕ → ℤ
  negsuc : ℕ → ℤ

-- The errors that the package has itself, and any other, of the context or of the function.
pub data Err (E : Type 0) : Type 0 where
  retries_exceeded : Err E
  wait_exceeds_deadline : Err E
  other : E → Err E

pub record FError (E : Type 0) : Type 0 where
  pub main_err : Err E
  pub others : List (Err E)
  pub attempts : ℕ
  pub max : ℤ
  pub last : ℕ

-- The largest `int`.
abbrev pub max_int : ℕ
max_int = 2 ^ 63 - 1

-- `e.Attempts+1 > 0` fails where the sum overflows.
abbrev count_attempt : ℕ → ℕ
count_attempt n = if ltb n max_int then n + 1 else n

-- `len(e.Others) < e.max`
abbrev below_max : ℕ → ℤ → Bool
below_max n (pos m) = ltb n m
below_max n (negsuc m) = false

abbrev is_zero : ℤ → Bool
is_zero (pos m) = m == 0
is_zero (negsuc m) = false

module _ {E : Type 0} where
  -- `newFError`
  unfoldable pub new_f_error : Err E → ℤ → FError E
  new_f_error err max_errs = record {
    main_err = retries_exceeded;
    others = err ∷ [];
    attempts = 0;
    max = max_errs;
    last = 0;
  }

  -- The write over the oldest error, and the step of `last`.
  abbrev overwrite : Err E → FError E → FError E
  overwrite err e = record e {
    others = set e.others e.last err;
    last = if leb (length e.others) (e.last + 1) then 0 else e.last + 1;
  }

  -- `addErr`
  unfoldable pub add_err : FError E → Err E → FError E
  add_err e0 err =
      let e = record e0 { attempts = count_attempt e0.attempts } in
      if is_zero e.max
      then e
      else if below_max (length e.others) e.max
      then record e { others = e.others ++ err ∷ [] }
      else overwrite err e

  -- `FError.Is` on a target that is no `*FError`; `is` is `errors.Is`.
  all_match : (Err E → Err E → Bool) → List (Err E) → Err E → Bool
  all_match is [] target = true
  all_match is (x ∷ xs) target = is x target && all_match is xs target

  unfoldable pub is_error : (Err E → Err E → Bool) → FError E → Err E → Bool
  unfolding all_match
  is_error is e target = is e.main_err target || all_match is e.others target

  -- `FError.Is` on another `*FError`.
  pairwise_match : (Err E → Err E → Bool) → List (Err E) → List (Err E) → Bool
  pairwise_match is [] ys = true
  pairwise_match is (x ∷ xs) [] = true
  pairwise_match is (x ∷ xs) (y ∷ ys) = is x y && pairwise_match is xs ys

  unfoldable pub is_f_error : (Err E → Err E → Bool) → FError E → FError E → Bool
  unfolding pairwise_match
  is_f_error is e target =
      is e.main_err target.main_err
      && (length e.others == length target.others)
      && pairwise_match is e.others target.others
