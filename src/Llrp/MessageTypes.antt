-- ===== src/Llrp/MessageTypes.antt =====
-- The message types of messages.go and their mirror types. A `MessageType` is a uint16.
pub mod Mirror
use device_rfid_llrp_go.Prelude.{
  ℕ, ◌≤◌, ◌<◌, ◌≡◌, refl, Bool, true, false, ◌&&◌, ◌||◌, Option, none, some, List, [], ◌∷◌, arith,
  ltb, leb, ◌==◌, if◌then◌else◌,
}

abbrev pub get_supported_version : ℕ
get_supported_version = 46

abbrev pub get_supported_version_response : ℕ
get_supported_version_response = 56

abbrev pub set_protocol_version : ℕ
set_protocol_version = 47

abbrev pub set_protocol_version_response : ℕ
set_protocol_version_response = 57

abbrev pub get_reader_capabilities : ℕ
get_reader_capabilities = 1

abbrev pub get_reader_capabilities_response : ℕ
get_reader_capabilities_response = 11

abbrev pub add_ro_spec : ℕ
add_ro_spec = 20

abbrev pub add_ro_spec_response : ℕ
add_ro_spec_response = 30

abbrev pub delete_ro_spec : ℕ
delete_ro_spec = 21

abbrev pub delete_ro_spec_response : ℕ
delete_ro_spec_response = 31

abbrev pub start_ro_spec : ℕ
start_ro_spec = 22

abbrev pub start_ro_spec_response : ℕ
start_ro_spec_response = 32

abbrev pub stop_ro_spec : ℕ
stop_ro_spec = 23

abbrev pub stop_ro_spec_response : ℕ
stop_ro_spec_response = 33

abbrev pub enable_ro_spec : ℕ
enable_ro_spec = 24

abbrev pub enable_ro_spec_response : ℕ
enable_ro_spec_response = 34

abbrev pub disable_ro_spec : ℕ
disable_ro_spec = 25

abbrev pub disable_ro_spec_response : ℕ
disable_ro_spec_response = 35

abbrev pub get_ro_specs : ℕ
get_ro_specs = 26

abbrev pub get_ro_specs_response : ℕ
get_ro_specs_response = 36

abbrev pub add_access_spec : ℕ
add_access_spec = 40

abbrev pub add_access_spec_response : ℕ
add_access_spec_response = 50

abbrev pub delete_access_spec : ℕ
delete_access_spec = 41

abbrev pub delete_access_spec_response : ℕ
delete_access_spec_response = 51

abbrev pub enable_access_spec : ℕ
enable_access_spec = 42

abbrev pub enable_access_spec_response : ℕ
enable_access_spec_response = 52

abbrev pub disable_access_spec : ℕ
disable_access_spec = 43

abbrev pub disable_access_spec_response : ℕ
disable_access_spec_response = 53

abbrev pub get_access_specs : ℕ
get_access_specs = 44

abbrev pub get_access_specs_response : ℕ
get_access_specs_response = 54

abbrev pub client_request_op : ℕ
client_request_op = 45

abbrev pub client_request_op_response : ℕ
client_request_op_response = 55

abbrev pub get_report : ℕ
get_report = 60

abbrev pub ro_access_report : ℕ
ro_access_report = 61

abbrev pub keep_alive : ℕ
keep_alive = 62

abbrev pub keep_alive_ack : ℕ
keep_alive_ack = 72

abbrev pub reader_event_notification : ℕ
reader_event_notification = 63

abbrev pub enable_events_and_reports : ℕ
enable_events_and_reports = 64

abbrev pub error_message : ℕ
error_message = 100

abbrev pub get_reader_config : ℕ
get_reader_config = 2

abbrev pub get_reader_config_response : ℕ
get_reader_config_response = 12

abbrev pub set_reader_config : ℕ
set_reader_config = 3

abbrev pub set_reader_config_response : ℕ
set_reader_config_response = 13

abbrev pub close_connection : ℕ
close_connection = 14

abbrev pub close_connection_response : ℕ
close_connection_response = 4

abbrev pub custom_message : ℕ
custom_message = 1023

abbrev pub min_msg_type : ℕ
min_msg_type = get_reader_capabilities

abbrev pub max_msg_type : ℕ
max_msg_type = custom_message

abbrev pub msg_resv_start : ℕ
msg_resv_start = 900

abbrev pub msg_resv_end : ℕ
msg_resv_end = 999

-- `MessageType.IsValid`
unfoldable pub is_valid : ℕ → Bool
is_valid mt =
    leb min_msg_type mt && leb mt max_msg_type && (ltb mt msg_resv_start || ltb msg_resv_end mt)

-- `mirrorType`: each type with its mirror type.
unfoldable pub mirror_type : List (ℕ × ℕ)
mirror_type =
    (add_access_spec, add_access_spec_response)
    ∷ (add_access_spec_response, add_access_spec)
    ∷ (add_ro_spec, add_ro_spec_response)
    ∷ (add_ro_spec_response, add_ro_spec)
    ∷ (client_request_op, client_request_op_response)
    ∷ (client_request_op_response, client_request_op)
    ∷ (close_connection, close_connection_response)
    ∷ (close_connection_response, close_connection)
    ∷ (custom_message, custom_message)
    ∷ (delete_access_spec, delete_access_spec_response)
    ∷ (delete_access_spec_response, delete_access_spec)
    ∷ (delete_ro_spec, delete_ro_spec_response)
    ∷ (delete_ro_spec_response, delete_ro_spec)
    ∷ (disable_access_spec, disable_access_spec_response)
    ∷ (disable_access_spec_response, disable_access_spec)
    ∷ (disable_ro_spec, disable_ro_spec_response)
    ∷ (disable_ro_spec_response, disable_ro_spec)
    ∷ (enable_access_spec, enable_access_spec_response)
    ∷ (enable_access_spec_response, enable_access_spec)
    ∷ (enable_ro_spec, enable_ro_spec_response)
    ∷ (enable_ro_spec_response, enable_ro_spec)
    ∷ (get_access_specs, get_access_specs_response)
    ∷ (get_access_specs_response, get_access_specs)
    ∷ (get_reader_capabilities, get_reader_capabilities_response)
    ∷ (get_reader_capabilities_response, get_reader_capabilities)
    ∷ (get_reader_config, get_reader_config_response)
    ∷ (get_reader_config_response, get_reader_config)
    ∷ (get_supported_version, get_supported_version_response)
    ∷ (get_supported_version_response, get_supported_version)
    ∷ (keep_alive, keep_alive_ack)
    ∷ (keep_alive_ack, keep_alive)
    ∷ (set_protocol_version, set_protocol_version_response)
    ∷ (set_protocol_version_response, set_protocol_version)
    ∷ (set_reader_config, set_reader_config_response)
    ∷ (set_reader_config_response, set_reader_config)
    ∷ (start_ro_spec, start_ro_spec_response)
    ∷ (start_ro_spec_response, start_ro_spec)
    ∷ (stop_ro_spec, stop_ro_spec_response)
    ∷ (stop_ro_spec_response, stop_ro_spec)
    ∷ []

-- A read of a Go map whose keys are all different.
unfoldable pub find : ℕ → List (ℕ × ℕ) → Option ℕ
find k [] = none
find k ((j, v) ∷ m) = if j == k then some v else find k m

-- `MessageType.Converse`
unfoldable pub converse : ℕ → Option ℕ
unfolding find mirror_type
converse mt = find mt mirror_type
