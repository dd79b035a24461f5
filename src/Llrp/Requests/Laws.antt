-- ===== src/Llrp/Requests/Laws.antt =====
-- What the requests' readers accept.
use device_rfid_llrp_go.Prelude.{
  ℕ, ◌+◌, ◌*◌, ◌^◌, ◌<◌, ◌≡◌, List, [], ◌∷◌, arith, All, IsU8, IsU32, Outcome, ok, ◌↔◌,
}
use device_rfid_llrp_go.Llrp.Params.{CodecError}
use device_rfid_llrp_go.Llrp.Requests.{
  empty_message, id_message, marshal_id_message, unmarshal_set_protocol_version,
  marshal_set_protocol_version,
}
use device_rfid_llrp_go.Llrp.Requests as Requests

id_message-marshal : (t id : ℕ) → IsU32 id → id_message t (marshal_id_message id) ≡ ok id
unfolding id_message marshal_id_message
id_message-marshal t id h = ground arith

marshal-id_message :
    (t id : ℕ) (bytes : List ℕ)
    → All IsU8 bytes
    → id_message t bytes ≡ ok id
    → marshal_id_message id ≡ bytes
unfolding id_message marshal_id_message
marshal-id_message t id [] r e = ground arith
marshal-id_message t id (a ∷ []) r e = ground arith
marshal-id_message t id (a ∷ b ∷ []) r e = ground arith
marshal-id_message t id (a ∷ b ∷ c ∷ []) r e = ground arith
marshal-id_message t id (a ∷ b ∷ c ∷ d ∷ []) r e = ground arith
marshal-id_message t id (a ∷ b ∷ c ∷ d ∷ x ∷ xs) r e = ground arith

id_message_exact :
    (t id : ℕ) (bytes : List ℕ)
    → IsU32 id
    → All IsU8 bytes
    → (id_message t bytes ≡ ok id) ↔ (marshal_id_message id ≡ bytes)
id_message_exact t id bytes h r =
    (λ e. marshal-id_message t id bytes r e, λ e. rw (← e) (id_message-marshal t id h))

-- The readers of the messages that hold one identifier.
abbrev pub id_readers : List (List ℕ → Outcome CodecError ℕ)
id_readers =
    Requests.unmarshal_delete_ro_spec ∷ Requests.unmarshal_start_ro_spec
    ∷ Requests.unmarshal_stop_ro_spec ∷ Requests.unmarshal_enable_ro_spec
    ∷ Requests.unmarshal_disable_ro_spec ∷ Requests.unmarshal_delete_access_spec
    ∷ Requests.unmarshal_enable_access_spec ∷ Requests.unmarshal_disable_access_spec ∷ []

-- On bytes, and for an identifier that is a uint32, each of the eight readers of messages of one identifier
-- accepts exactly what the writer puts out for it.
pub id_readers_exact :
    (id : ℕ) (bytes : List ℕ)
    → IsU32 id
    → All IsU8 bytes
    → All (λ read. (read bytes ≡ ok id) ↔ (marshal_id_message id ≡ bytes)) id_readers
unfolding Requests.unmarshal_delete_ro_spec Requests.unmarshal_start_ro_spec
    Requests.unmarshal_stop_ro_spec Requests.unmarshal_enable_ro_spec
    Requests.unmarshal_disable_ro_spec Requests.unmarshal_delete_access_spec
    Requests.unmarshal_enable_access_spec Requests.unmarshal_disable_access_spec
id_readers_exact id bytes h r =
    let both = λ (t : ℕ). id_message_exact t id bytes h r in
    (both _, (both _, (both _, (both _, (both _, (both _, (both _, (both _, tt))))))))

-- The readers of the messages without fields.
abbrev pub empty_readers : List (List ℕ → Outcome CodecError (Unit {0}))
empty_readers =
    Requests.unmarshal_get_supported_version ∷ Requests.unmarshal_get_ro_specs
    ∷ Requests.unmarshal_get_access_specs ∷ Requests.unmarshal_get_report
    ∷ Requests.unmarshal_keep_alive ∷ Requests.unmarshal_keep_alive_ack
    ∷ Requests.unmarshal_enable_events_and_reports ∷ Requests.unmarshal_close_connection ∷ []

-- `SetProtocolVersion` carries a version of three bits in the top of its byte, and any byte is read as
-- one: the version by itself, sent as a byte, is read as version 0.
pub unmarshal_set_protocol_version_bits :
    (version low : ℕ)
    → version < 8
    → low < 2 ^ 5
    → (unmarshal_set_protocol_version (marshal_set_protocol_version version) ≡ ok version)
      × (unmarshal_set_protocol_version ((version * 2 ^ 5 + low) ∷ []) ≡ ok version)
      × (unmarshal_set_protocol_version (version ∷ []) ≡ ok 0)
unfolding unmarshal_set_protocol_version marshal_set_protocol_version
unmarshal_set_protocol_version_bits version low v l = ground arith
