-- ===== src/Retry/Errors/Ring.antt =====
-- The kept errors: how many there are, which they are, and where the oldest stands.
use device_rfid_llrp_go.Prelude.{
  ℕ, zero, suc, ◌+◌, ◌-◌, ◌≤◌, ◌<◌, ◌≡◌, refl, List, [], ◌∷◌, ◌++◌, arith, length, set, take, drop,
  length-append, drop-drop, length-set, length-drop, length-take, leb, ap, ap₂, sym, ◌∙◌,
  if◌then◌else◌, inl, inr, ◌⊎◌, dec_lt,
}
use device_rfid_llrp_go.Retry.Errors.{pos, Err, FError, new_f_error, add_err, max_int}
use mathlib.Core.List.{append-nil, append_assoc}

module _ {A : Type 0} where
  -- The last `m` of a list.
  abbrev pub newest : ℕ → List A → List A
  newest m xs = drop (length xs - m) xs

  drop-set : (xs : List A) (i : ℕ) (x : A) → drop (suc i) (set xs i x) ≡ drop (suc i) xs
  drop-set [] i x = refl
  drop-set (y ∷ ys) zero x = refl
  drop-set (y ∷ ys) (suc i) x = drop-set ys i x

  take-set :
      (xs : List A) (i : ℕ) (x : A)
      → i < length xs
      → take (suc i) (set xs i x) ≡ take i xs ++ x ∷ []
  take-set [] i x h = absurd (omega arith)
  take-set (y ∷ ys) zero x h = refl
  take-set (y ∷ ys) (suc i) x h = ap (λ t. y ∷ t) (take-set ys i x (omega arith))

  drop_one :
      (xs ys : List A) (i : ℕ) → i < length xs → drop 1 (drop i xs ++ ys) ≡ drop (suc i) xs ++ ys
  drop_one [] ys i h = absurd (omega arith)
  drop_one (x ∷ xs) ys zero h = refl
  drop_one (x ∷ xs) ys (suc i) h = drop_one xs ys i (omega arith)

  drop_all : (xs : List A) (i : ℕ) → length xs ≤ i → drop i xs ≡ []
  drop_all [] zero h = refl
  drop_all [] (suc i) h = refl
  drop_all (x ∷ xs) zero h = absurd (omega arith)
  drop_all (x ∷ xs) (suc i) h = drop_all xs i (omega arith)

  take_all : (xs : List A) (i : ℕ) → length xs ≤ i → take i xs ≡ xs
  take_all [] zero h = refl
  take_all [] (suc i) h = refl
  take_all (x ∷ xs) zero h = absurd (omega arith)
  take_all (x ∷ xs) (suc i) h = ap (λ t. x ∷ t) (take_all xs i (omega arith))

  drop-append_short : (n : ℕ) (xs ys : List A) → n ≤ length xs → drop n (xs ++ ys) ≡ drop n xs ++ ys
  drop-append_short zero xs ys h = refl
  drop-append_short (suc n) [] ys h = absurd (omega arith)
  drop-append_short (suc n) (x ∷ xs) ys h = drop-append_short n xs ys (omega arith)

  newest-newest : (m : ℕ) (xs ys : List A) → newest m (newest m xs ++ ys) ≡ newest m (xs ++ ys)
  newest-newest m xs ys = rw (← drop-append_short (length xs - m) xs ys (omega arith)) (
      drop-drop _ (length xs - m) (xs ++ ys)
      ∙ ap (λ (t : ℕ). drop t (xs ++ ys))
          (omega (arith, length-append xs ys, length-drop (length xs - m) (xs ++ ys))))

module _ {E : Type 0} where
  -- The kept errors, the oldest first.
  abbrev pub history : FError E → List (Err E)
  history e = drop e.last e.others ++ take e.last e.others

  -- A ring of `m` places: it fills up from the front, and then `last` is the oldest entry.
  pub record IsRing (m : ℕ) (e : FError E) : Type 0 where
    pub capacity : e.max ≡ pos m
    pub some_kept : 1 ≤ length e.others
    pub no_more : length e.others ≤ m
    pub in_range : e.last < length e.others
    pub filling : (m ≤ length e.others) ⊎ (e.last ≡ 0)
    pub counted : e.attempts ≤ max_int

  pub new_f_error-IsRing : (x : Err E) (m : ℕ) → 1 ≤ m → IsRing m (new_f_error x (pos m))
  unfolding new_f_error
  new_f_error-IsRing x m h = ground arith

  pub add_err-IsRing : (m : ℕ) (e : FError E) (x : Err E) → IsRing m e → IsRing m (add_err e x)
  unfolding add_err
  add_err-IsRing m e x v =
      ground (arith, length-append e.others (x ∷ []), length-set e.others e.last x)

  -- The write over entry `i`, seen from the entry behind it.
  history-set :
      (xs : List (Err E)) (i : ℕ) (x : Err E)
      → i < length xs
      → drop (suc i) (set xs i x) ++ take (suc i) (set xs i x)
        ≡ drop 1 (drop i xs ++ take i xs) ++ x ∷ []
  history-set xs i x h =
      rw (drop-set xs i x, take-set xs i x h, drop_one xs (take i xs) i h)
        (sym (append_assoc (drop (suc i) xs) (take i xs) (x ∷ [])))

  history-overwrite :
      (xs : List (Err E)) (i last : ℕ) (x : Err E)
      → i < length xs
      → (last ≡ suc i) ⊎ ((last ≡ 0) × (length xs ≡ suc i))
      → drop last (set xs i x) ++ take last (set xs i x) ≡ drop 1 (drop i xs ++ take i xs) ++ x ∷ []
  history-overwrite xs i last x h (inl e) = rw e (history-set xs i x h)
  history-overwrite xs i last x h (inr (e, end)) =
      rw (e, append-nil)
        (sym (ap₂ ◌++◌ (drop_all (set xs i x) (suc i) short) (take_all (set xs i x) (suc i) short))
          ∙ history-set xs i x h)
    where
      short : length (set xs i x) ≤ suc i
      short = omega (arith, length-set xs i x)

  length-history : (e : FError E) → length (history e) ≡ length e.others
  length-history e = omega (
    arith,
    length-append (drop e.last e.others) (take e.last e.others),
    length-drop e.last e.others,
    length-take e.last e.others,
  )

  -- While the ring fills, a failure goes behind the others.
  add_err-filling :
      (m : ℕ) (e : FError E) (x : Err E)
      → IsRing m e
      → length e.others < m
      → history (add_err e x) ≡ history e ++ x ∷ []
  unfolding add_err
  add_err-filling m e x v h = ground (arith, append-nil (e.others ++ x ∷ []), append-nil e.others)

  add_err-full :
      (m : ℕ) (e : FError E) (x : Err E)
      → IsRing m e
      → length e.others ≡ m
      → history (add_err e x) ≡ drop 1 (history e) ++ x ∷ []
  unfolding add_err
  add_err-full m e x v h = ground (
    arith,
    history-overwrite e.others e.last (if leb (length e.others) (e.last + 1) then 0 else e.last + 1)
        x v.in_range (ground arith),
  )

  -- The next failure takes the place of the oldest, once the ring is full.
  pub add_err-history :
      (m : ℕ) (e : FError E) (x : Err E)
      → IsRing m e
      → history (add_err e x) ≡ newest m (history e ++ x ∷ [])
  add_err-history m e x v = elim (dec_lt (length e.others) m) [
    | yes room ↦
        add_err-filling m e x v room
        ∙ ap (λ (t : ℕ). drop t (history e ++ x ∷ [])) {x = 0}
            (omega (arith, length-append (history e) (x ∷ []), length-history e))
    | no full ↦
        add_err-full m e x v (omega (arith, v.no_more))
        ∙ sym (
            drop-append_short 1 (history e) (x ∷ []) (omega (arith, length-history e, v.some_kept)))
        ∙ ap (λ (t : ℕ). drop t (history e ++ x ∷ [])) {x = 1}
            (omega (arith, length-append (history e) (x ∷ []), length-history e, v.no_more))
  ]

  -- The errors of further attempts, in their order.
  unfoldable pub add_all : FError E → List (Err E) → FError E
  add_all e [] = e
  add_all e (x ∷ xs) = add_all (add_err e x) xs

  add_all-history :
      (m : ℕ) (e : FError E) (xs : List (Err E))
      → IsRing m e
      → history (add_all e xs) ≡ newest m (history e ++ xs)
  unfolding add_all
  add_all-history m e [] v = rw append-nil (
      sym (ap (λ (t : ℕ). drop t (history e)) {y = 0} (omega (arith, length-history e, v.no_more))))
  add_all-history m e (x ∷ xs) v =
      add_all-history m (add_err e x) xs (add_err-IsRing m e x v)
      ∙ rw (add_err-history m e x v) (
          newest-newest m (history e ++ x ∷ []) xs
          ∙ ap (newest m) (append_assoc (history e) (x ∷ []) xs))

  pub add_all-IsRing :
      (m : ℕ) (e : FError E) (xs : List (Err E)) → IsRing m e → IsRing m (add_all e xs)
  unfolding add_all
  add_all-IsRing m e [] v = v
  add_all-IsRing m e (x ∷ xs) v = add_all-IsRing m (add_err e x) xs (add_err-IsRing m e x v)

  -- After a first failure and any others, with at least one place for errors, the ring of kept errors, read
  -- from its oldest entry, is the list of the newest `m` failures in their order.
  pub kept_newest :
      (m : ℕ) (x : Err E) (xs : List (Err E))
      → 1 ≤ m
      → history (add_all (new_f_error x (pos m)) xs) ≡ newest m (x ∷ xs)
  unfolding new_f_error
  kept_newest m x xs h =
      add_all-history m (new_f_error x (pos m)) xs (new_f_error-IsRing x m h) ∙ refl
