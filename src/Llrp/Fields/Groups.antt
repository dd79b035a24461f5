-- ===== src/Llrp/Fields/Groups.antt =====
-- The loop over sub-parameters reads what was written, up to a parameter that is not of the group.
use device_rfid_llrp_go.Prelude.{
  ℕ, zero, suc, ◌<◌, ◌≡◌, ◌≢◌, refl, sym, ap, ◌∙◌, subst, true, Option, none, some, List, [], ◌∷◌,
  ◌++◌, arith, leb, length, length-append, Outcome, ok, ◌>>=◌, All,
}
use device_rfid_llrp_go.Llrp.Bytes.{slice_from}
use device_rfid_llrp_go.Llrp.Params.{
  ParamHeaders, nil, cons, size, encode_params, next_tlv, CodecError,
}
use device_rfid_llrp_go.Llrp.Params.Sizes.{framed, next_tlv-framed, slice_from-framed}
use device_rfid_llrp_go.Llrp.Fields.{
  Read, Cases, into, group, ◌+++◌, every, maybe, unless_empty, finished,
}
use device_rfid_llrp_go.Llrp.Fields.Coded.{
  kind, body, IsWritten, IfSome, unless_empty-next, IsNotFirst, Coding, IsRead, size-body,
  encode_params-cons,
}
use mathlib.Core.List.{append-nil, append_assoc}

-- With any fuel that counts the bytes, the loop gives `r`.
abbrev pub Gives : {A : Type 0} → Cases A → A → List ℕ → Outcome CodecError (A × List ℕ) → Type 0
Gives cases p bytes r = (fuel : ℕ) → length bytes < fuel → group fuel cases p bytes ≡ r

-- What follows the group: nothing, or a parameter of another type.
abbrev pub IsForeign : {A : Type 0} → Cases A → A → ParamHeaders → Type 0
IsForeign cases p nil = Unit
IsForeign cases p (cons h ks) = IsWritten h × (cases (kind h) p ≡ none)

-- The steps of one round of the loop.
module _ {A : Type 0} (cases : Cases A) (t sz : ℕ) (bytes rest : List ℕ)
    (four : leb 4 (length bytes) ≡ true) (front : next_tlv bytes ≡ ok (t, sz)) (fuel : ℕ)
    (p : A) where
  round_ends : cases t p ≡ none → group (suc fuel) cases p bytes ≡ ok (p, bytes)
  unfolding group
  round_ends e = ground arith

  round_goes_on :
      (read : ℕ → Read A) (q : A)
      → cases t p ≡ some read
      → read sz bytes ≡ ok q
      → slice_from {E = CodecError} sz bytes ≡ ok rest
      → group (suc fuel) cases p bytes ≡ group fuel cases q rest
  unfolding group
  round_goes_on read q e r s = ground arith

four-framed : (t sz : ℕ) (content rest : List ℕ) → leb 4 (length (framed t sz content rest)) ≡ true
four-framed t sz content rest = ground arith

module _ {A : Type 0} (cases : Cases A) where
  -- The loop ends in front of what is foreign to it.
  pub Gives-foreign :
      (p : A) (ks : ParamHeaders)
      → IsForeign cases p ks
      → Gives cases p (encode_params ks) (ok (p, encode_params ks))
  unfolding group encode_params
  Gives-foreign p nil f zero l = absurd (omega arith)
  Gives-foreign p (cons h ks) f zero l = absurd (omega arith)
  Gives-foreign p nil f (suc fuel) l = refl
  Gives-foreign p (cons h ks) (w, e) (suc fuel) l = rw (encode_params-cons h ks w) (
      round_ends cases (kind h) (size h) (framed (kind h) (size h) (body h) (encode_params ks)) []
        (four-framed (kind h) (size h) (body h) (encode_params ks))
        (next_tlv-framed (kind h) (size h) (body h) (encode_params ks) (w.2) (w.1) (size-body h w))
        fuel p e)

  pub Gives-nil : (p : A) → Gives cases p (encode_params nil) (ok (p, []))
  unfolding encode_params
  Gives-nil p = Gives-foreign p nil tt

  -- It reads a parameter of its own and goes on.
  pub Gives-cons :
      (p : A) (ks : ParamHeaders) (r : Outcome CodecError (A × List ℕ)) {B : Type 0} (c : Coding B)
      (x : B) (set : B → A)
      → IsRead c x
      → cases (c.of_type) p ≡ into (c.read) set
      → Gives cases (set x) (encode_params ks) r
      → Gives cases p (encode_params (cons (c.head x) ks)) r
  Gives-cons p ks r c x set i e g zero l = absurd (omega arith)
  Gives-cons p ks r c x set (w, k, q) e g (suc fuel) l =
      let h = c.head x in
      let written : encode_params (cons h ks)
          ≡ framed (kind h) (size h) (body h) (encode_params ks) =
        encode_params-cons h ks w in
      rw written (
        round_goes_on cases (kind h) (size h) (framed (kind h) (size h) (body h) (encode_params ks))
          (encode_params ks) (four-framed (kind h) (size h) (body h) (encode_params ks))
          (next_tlv-framed (kind h) (size h) (body h) (encode_params ks) (w.2) (w.1)
            (size-body h w))
          fuel p (λ n bytes. c.read n bytes >>= λ y. ok (set y)) (set x) (rw k e)
          (rw (q (encode_params ks)) refl)
          (slice_from-framed (kind h) (size h) (body h) (encode_params ks) (w.2) (w.1)
            (size-body h w))
        ∙ g fuel (omega (arith, ap length written, length-append (body h) (encode_params ks))))

  -- A list of parameters of one type is appended to what its field holds.
  module _ {B : Type 0} (c : Coding B) (put : List B → A)
      (own : (xs : List B)
        → cases (c.of_type) (put xs) ≡ into (c.read) (λ x. put (xs ++ (x ∷ [])))) where
    pub Gives-every :
        (xs acc : List B) (ks : ParamHeaders) (r : Outcome CodecError (A × List ℕ))
        → All (IsRead c) xs
        → Gives cases (put (acc ++ xs)) (encode_params ks) r
        → Gives cases (put acc) (encode_params (every (c.head) xs +++ ks)) r
    Gives-every [] acc ks r i g =
        subst (λ (ys : List B). Gives cases (put ys) (encode_params ks) r) (append-nil acc) g
    Gives-every (x ∷ xs) acc ks r (i, is) g =
        Gives-cons (put acc) (every (c.head) xs +++ ks) r c x (λ y. put (acc ++ (y ∷ []))) i
          (own acc)
          (Gives-every xs (acc ++ (x ∷ [])) ks r is (
            subst (λ (ys : List B). Gives cases (put ys) (encode_params ks) r)
              (sym (append_assoc acc (x ∷ []) xs)) g))

  -- A parameter that may be missing sets its field.
  pub Gives-maybe :
      {B : Type 0} (c : Coding B) (put : Option B → A) (o : Option B) (ks : ParamHeaders)
      (r : Outcome CodecError (A × List ℕ))
      → cases (c.of_type) (put none) ≡ into (c.read) (λ x. put (some x))
      → IfSome (IsRead c) o
      → Gives cases (put o) (encode_params ks) r
      → Gives cases (put none) (encode_params (maybe (c.head) o +++ ks)) r
  Gives-maybe c put none ks r own i g = g
  Gives-maybe c put (some x) ks r own i g =
      Gives-cons (put none) ks r c x (λ y. put (some y)) i own g

  -- Parameters of another type are foreign.
  pub every-IsForeign :
      {B : Type 0} (p : A) (c : Coding B) (xs : List B) (ks : ParamHeaders)
      → All (IsRead c) xs
      → cases (c.of_type) p ≡ none
      → IsForeign cases p ks
      → IsForeign cases p (every (c.head) xs +++ ks)
  every-IsForeign p c [] ks i e f = f
  every-IsForeign p c (x ∷ xs) ks ((w, k, q), is) e f = (w, rw k e)

  pub maybe-IsForeign :
      {B : Type 0} (p : A) (c : Coding B) (o : Option B) (ks : ParamHeaders)
      → IfSome (IsRead c) o
      → cases (c.of_type) p ≡ none
      → IsForeign cases p ks
      → IsForeign cases p (maybe (c.head) o +++ ks)
  maybe-IsForeign p c none ks i e f = f
  maybe-IsForeign p c (some x) ks (w, k, q) e f = (w, rw k e)

  -- On no bytes at all the loop leaves the receiver as it is.
  pub group-empty :
      (rest out : List ℕ) (p q : A)
      → group (suc (length rest)) cases p rest ≡ ok (q, out)
      → rest ≡ []
      → (p ≡ q) × (out ≡ [])
  unfolding group
  group-empty [] out p q g e = (cc, cc)
  group-empty (b ∷ rest) out p q g e = (cc, cc)

  group_of_none : (p : A) → (group 1 cases p [] >>= λ (r, out). finished out r) ≡ ok p
  unfolding group
  group_of_none p = refl

  -- A reader that ends with the loop.
  pub group_last :
      (bytes : List ℕ) (p q : A)
      → Gives cases p bytes (ok (q, []))
      → unless_empty bytes p
          (group (suc (length bytes)) cases p bytes >>= λ (r, out). finished out r)
        ≡ ok q
  group_last bytes p q g =
      unless_empty-next bytes p
        (λ bytes. group (suc (length bytes)) cases p bytes >>= λ (r, out). finished out r)
        (group_of_none p)
      ∙ rw (g (suc (length bytes)) (omega arith)) refl

  pub every-IsNotFirst :
      {B : Type 0} (c : Coding B) (t : ℕ) (xs : List B) (ks : ParamHeaders)
      → All (IsRead c) xs
      → c.of_type ≢ t
      → IsNotFirst t ks
      → IsNotFirst t (every (c.head) xs +++ ks)
  every-IsNotFirst c t [] ks i n f = f
  every-IsNotFirst c t (x ∷ xs) ks ((w, k, q), is) n f = (w, rw k n)
