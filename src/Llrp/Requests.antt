-- ===== src/Llrp/Requests.antt =====
-- The requests without fields, as `GetROSpecs`, those of one identifier, as `DeleteROSpec`, and
-- `SetProtocolVersion`: the generated `UnmarshalBinary` and `MarshalBinary` of pkg/llrp.
pub mod Laws
use device_rfid_llrp_go.Prelude.{
  ℕ, ◌/◌, ◌*◌, ◌%◌, ◌^◌, List, [], ◌∷◌, ◌==◌, length, Outcome, ok, err, ◌>>=◌, ◌>>◌, guard,
}
use device_rfid_llrp_go.Llrp.Bytes.{be32, uint8, uint32}
use device_rfid_llrp_go.Llrp.MessageTypes as MessageTypes
use device_rfid_llrp_go.Llrp.Params.{CodecError}

-- The reader of message type `t`, which is only a header.
unfoldable pub empty_message : ℕ → List ℕ → Outcome CodecError (Unit {0})
empty_message t bytes = guard (length bytes == 0) (CodecError.wrong_length t (length bytes))

-- The reader of message type `t`, whose payload is a uint32.
unfoldable pub id_message : ℕ → List ℕ → Outcome CodecError ℕ
id_message t bytes =
    guard (length bytes == 4) (CodecError.wrong_length t (length bytes)) >> uint32 bytes

unfoldable pub unmarshal_get_supported_version : List ℕ → Outcome CodecError (Unit {0})
unmarshal_get_supported_version = empty_message MessageTypes.get_supported_version

unfoldable pub unmarshal_get_ro_specs : List ℕ → Outcome CodecError (Unit {0})
unmarshal_get_ro_specs = empty_message MessageTypes.get_ro_specs

unfoldable pub unmarshal_get_access_specs : List ℕ → Outcome CodecError (Unit {0})
unmarshal_get_access_specs = empty_message MessageTypes.get_access_specs

unfoldable pub unmarshal_get_report : List ℕ → Outcome CodecError (Unit {0})
unmarshal_get_report = empty_message MessageTypes.get_report

unfoldable pub unmarshal_keep_alive : List ℕ → Outcome CodecError (Unit {0})
unmarshal_keep_alive = empty_message MessageTypes.keep_alive

unfoldable pub unmarshal_keep_alive_ack : List ℕ → Outcome CodecError (Unit {0})
unmarshal_keep_alive_ack = empty_message MessageTypes.keep_alive_ack

unfoldable pub unmarshal_enable_events_and_reports : List ℕ → Outcome CodecError (Unit {0})
unmarshal_enable_events_and_reports = empty_message MessageTypes.enable_events_and_reports

unfoldable pub unmarshal_close_connection : List ℕ → Outcome CodecError (Unit {0})
unmarshal_close_connection = empty_message MessageTypes.close_connection

unfoldable pub unmarshal_delete_ro_spec : List ℕ → Outcome CodecError ℕ
unmarshal_delete_ro_spec = id_message MessageTypes.delete_ro_spec

unfoldable pub unmarshal_start_ro_spec : List ℕ → Outcome CodecError ℕ
unmarshal_start_ro_spec = id_message MessageTypes.start_ro_spec

unfoldable pub unmarshal_stop_ro_spec : List ℕ → Outcome CodecError ℕ
unmarshal_stop_ro_spec = id_message MessageTypes.stop_ro_spec

unfoldable pub unmarshal_enable_ro_spec : List ℕ → Outcome CodecError ℕ
unmarshal_enable_ro_spec = id_message MessageTypes.enable_ro_spec

unfoldable pub unmarshal_disable_ro_spec : List ℕ → Outcome CodecError ℕ
unmarshal_disable_ro_spec = id_message MessageTypes.disable_ro_spec

unfoldable pub unmarshal_delete_access_spec : List ℕ → Outcome CodecError ℕ
unmarshal_delete_access_spec = id_message MessageTypes.delete_access_spec

unfoldable pub unmarshal_enable_access_spec : List ℕ → Outcome CodecError ℕ
unmarshal_enable_access_spec = id_message MessageTypes.enable_access_spec

unfoldable pub unmarshal_disable_access_spec : List ℕ → Outcome CodecError ℕ
unmarshal_disable_access_spec = id_message MessageTypes.disable_access_spec

-- `MarshalBinary` of the messages of one identifier.
unfoldable pub marshal_id_message : ℕ → List ℕ
marshal_id_message id = be32 id

-- `SetProtocolVersion.UnmarshalBinary`
unfoldable pub unmarshal_set_protocol_version : List ℕ → Outcome CodecError ℕ
unmarshal_set_protocol_version bytes = do
  guard (length bytes == 1)
      (CodecError.wrong_length MessageTypes.set_protocol_version (length bytes))
  b ← uint8 bytes
  ok (b / 2 ^ 5)

-- `SetProtocolVersion.MarshalBinary`
unfoldable pub marshal_set_protocol_version : ℕ → List ℕ
marshal_set_protocol_version version = (version * 2 ^ 5 % 2 ^ 8) ∷ []
