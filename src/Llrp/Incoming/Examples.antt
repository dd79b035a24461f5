-- ===== src/Llrp/Incoming/Examples.antt =====
-- `handleIncoming` on a KeepAlive and a `CloseConnectionResponse`, to a new client.
use device_rfid_llrp_go.Prelude.{ℕ, ◌≡◌, refl, false, none, List, [], ◌∷◌, arith}
use device_rfid_llrp_go.Llrp.Header.{Header}
use device_rfid_llrp_go.Llrp.Client.{Handlers, new_client}
use device_rfid_llrp_go.Llrp.Incoming.{client_closed, handle_incoming}
use device_rfid_llrp_go.Llrp.Incoming.Frames.{frames, pass_all, handle_incoming-frames}

abbrev no_handlers : Handlers
no_handlers = record { by_type = λ t. none; default_handler = none }

abbrev two_messages : List (Header × List ℕ)
two_messages =
    (record { payload_len = 0; id = 5; typ = 62; version = 2 }, [])
    ∷ (record { payload_len = 2; id = 6; typ = 4; version = 2 }, 1 ∷ 2 ∷ [])
    ∷ []

handle_incoming-frames_example :
    handle_incoming no_handlers 3 false (new_client 2) (frames two_messages)
    ≡ (pass_all no_handlers (new_client 2) two_messages, client_closed)
handle_incoming-frames_example =
    handle_incoming-frames no_handlers (new_client 2) two_messages (ground arith)
      (unfold new_client in refl)
