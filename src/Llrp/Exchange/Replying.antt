-- ===== src/Llrp/Exchange/Replying.antt =====
-- The replies of `SendFor` and `Shutdown`, and the reply that is too large to be buffered.
use device_rfid_llrp_go.Prelude.{
  ℕ, ◌+◌, ◌-◌, ◌^◌, ◌<◌, ◌≡◌, ◌≢◌, inl, inr, ◌↔◌, ap, Bool-cases, ==_iff, Option, none, some, List,
  ◌++◌, arith, ◌==◌, length, Outcome, ok, err, panic, ◌>>=◌,
}
use device_rfid_llrp_go.Llrp.Bytes.{be16}
use device_rfid_llrp_go.Llrp.MessageTypes.{error_message, close_connection_response}
use device_rfid_llrp_go.Llrp.Messages.{Message, Payload, max_buffered_payload_sz}
use device_rfid_llrp_go.Llrp.Params.{CodecError, declares_too_much, has_enough_bytes, encode_param}
use device_rfid_llrp_go.Llrp.Status.{LlrpStatus, status_err, status_header, unmarshal_status}
use device_rfid_llrp_go.Llrp.Status.Groups.{IsLlrpStatus, status_size}
use device_rfid_llrp_go.Llrp.Status.StatusRoundTrip.{unmarshal_status-encode_param}
use device_rfid_llrp_go.Llrp.Replies.{
  marshal_status_message, unmarshal_error_message, unmarshal_close_connection_response,
}
use device_rfid_llrp_go.Llrp.Replies.RoundTrip.{status_message-marshal}
use device_rfid_llrp_go.Llrp.Exchange.{
  unreadable, error_reply, send_for_reply, shutdown_reply, by_status, read_as, check_status,
  get_supported_version, read_payload,
}

-- A status that fits a parameter, in a `CloseConnectionResponse`, is read as it was written: `Shutdown` goes
-- on to `Close` exactly on success.
pub shutdown_reply_closes :
    (p : LlrpStatus)
    → IsLlrpStatus p
    → (shutdown_reply close_connection_response (marshal_status_message p) ≡ ok tt) ↔ (p.status ≡ 0)
unfolding shutdown_reply read_as check_status unmarshal_close_connection_response status_err
shutdown_reply_closes p v = ground (arith, status_message-marshal close_connection_response p v)

status_misread :
    (sz : ℕ) (body : List ℕ)
    → sz < 2 ^ 16
    → sz ≡ 4 + length body
    → unmarshal_status ((be16 287 ++ be16 sz) ++ body) ≡ err (declares_too_much sz (length body))
unfolding unmarshal_status has_enough_bytes
status_misread sz body h e = ground arith

-- On a well-formed `ErrorMessage` `Shutdown` fails to read it, whatever the status in it: the header of the
-- parameter is taken for the status, and the size of the parameter for the length of a text, which is more
-- than there is.
pub shutdown_reply-error_message :
    (p : LlrpStatus)
    → IsLlrpStatus p
    → shutdown_reply error_message (marshal_status_message p)
      ≡ err (unreadable (declares_too_much (status_size p) (status_size p - 4)))
unfolding shutdown_reply read_as marshal_status_message
shutdown_reply-error_message p v =
    let (body, e, sz, r) = unmarshal_status-encode_param p v in
    let fails : unmarshal_status (encode_param (status_header p))
        ≡ err (declares_too_much (status_size p) (length body)) =
      rw e (status_misread (status_size p) body (omega arith) sz) in
    rw fails
      (ap (λ (n : ℕ). err (unreadable (declares_too_much (status_size p) n))) (omega (arith, sz)))

abbrev pub IsGood : Option LlrpStatus → Type 0
IsGood none = Unit
IsGood (some s) = s.status ≡ 0

module _ {A : Type 0} (status_of : A → Option LlrpStatus) where
  by_status-IsGood :
      (a b : A) (o : Option LlrpStatus) → (by_status b o ≡ ok a) ↔ ((b ≡ a) × IsGood o)
  unfolding by_status check_status status_err
  by_status-IsGood a b none = ground arith
  by_status-IsGood a b (some s) = ground arith

  read-IsGood :
      (o : Outcome CodecError A) (a : A)
      → ((read_as o >>= λ b. by_status b (status_of b)) ≡ ok a)
        ↔ ((o ≡ ok a) × IsGood (status_of a))
  unfolding read_as
  read-IsGood (ok b) a = (
    λ e. let (q, g) = (by_status-IsGood a b (status_of b)).0 e in (ap ok q, rw (← q) g),
    λ (e, g). let q : b ≡ a = cc in (by_status-IsGood a b (status_of b)).1 (q, rw q g),
  )
  read-IsGood (err e) a = ground arith
  read-IsGood panic a = ground arith

  error_never :
      (s : Outcome CodecError LlrpStatus) (a : A)
      → (read_as s >>= λ p. err (error_reply (status_err p))) ≢ ok a
  unfolding read_as
  error_never s a = ground arith

  -- `SendFor` returns a value exactly where the reply has the expected type, is read as that value, and the
  -- value has no status or a good one. So an `ErrorMessage` is never a result, unless it was what the caller
  -- asked for.
  pub send_for_reply-eq-ok :
      (in_type : ℕ) (read : List ℕ → Outcome CodecError A) (typ : ℕ) (bytes : List ℕ) (a : A)
      → (send_for_reply in_type read status_of typ bytes ≡ ok a)
        ↔ ((typ ≡ in_type) × (read bytes ≡ ok a) × IsGood (status_of a))
  unfolding send_for_reply
  send_for_reply-eq-ok in_type read typ bytes a = elim (Bool-cases (typ == in_type)) [
    | inl y ↦
        rw (y, send_for_reply)
          (ground (arith, read-IsGood (read bytes) a, (==_iff typ in_type).0 y))
    | inr n ↦
        rw (n, send_for_reply)
          (ground
            (arith, (==_iff typ in_type).1, λ (s : Outcome CodecError LlrpStatus). error_never s a))
  ]

-- An `ErrorMessage` in place of the expected reply is reported with the status that the reader wrote.
pub send_for_reply-error_message :
    {A : Type 0} (in_type : ℕ) (read : List ℕ → Outcome CodecError A)
    (status_of : A → Option LlrpStatus) (p : LlrpStatus)
    → IsLlrpStatus p
    → in_type ≢ error_message
    → send_for_reply in_type read status_of error_message (marshal_status_message p)
      ≡ err (error_reply (status_err p))
unfolding send_for_reply read_as unmarshal_error_message
send_for_reply-error_message in_type read status_of p v h =
    ground (arith, status_message-marshal error_message p v)

-- If the reply to `GetSupportedVersion` is above the limit for buffering, and so without a payload,
-- `getSupportedVersion` panics.
pub get_supported_version_panics :
    (m : Message)
    → m.payload ≡ Payload.absent
    → max_buffered_payload_sz < m.header.payload_len
    → get_supported_version (ok m) ≡ panic
unfolding get_supported_version read_payload
get_supported_version_panics m e h = rw e (ground arith)
