-- ===== src/Llrp/Codec/ReportSpecs.antt =====
-- `ROReportSpec`, and the choice of notifications: generated code of pkg/llrp.
use device_rfid_llrp_go.Prelude.{
  ℕ, suc, ◌/◌, ◌^◌, Bool, true, false, not, none, List, [], ◌∷◌, ◌++◌, ◌==◌, if◌then◌else◌, length,
  Outcome, ok, ◌>>=◌, ◌>>◌,
}
use device_rfid_llrp_go.Llrp.Bytes.{be16, slice_from}
use device_rfid_llrp_go.Llrp.Params.{
  ParamHeader, ParamHeaders, header, nil, CodecError, has_enough_bytes,
}
use device_rfid_llrp_go.Llrp.Fields.{
  byte_at, uint16_at, finished, unless_empty, within, required, Cases, into, group, u8, b2b, ◌+++◌,
  one, every, add_sizes,
}
use device_rfid_llrp_go.Llrp.ParamTypes.{
  param_custom, param_event_notification_state, param_reader_event_notification_spec,
  param_ro_report_spec, param_tag_report_content_selector,
}
use device_rfid_llrp_go.Llrp.Codec.Identities.{Custom, custom_header, unmarshal_custom}
use device_rfid_llrp_go.Llrp.Codec.Contents.{
  TagReportContentSelector, tag_report_content_selector_header,
  unmarshal_tag_report_content_selector,
}

pub record RoReportSpec : Type 0 where
  pub trigger : ℕ
  pub n : ℕ
  pub tag_report_content_selector : TagReportContentSelector
  pub custom : List Custom

-- `ROReportSpec.getHeader` and `EncodeFields`
unfoldable pub ro_report_spec_header : RoReportSpec → ParamHeader
ro_report_spec_header p =
    let subs : ParamHeaders =
      one (tag_report_content_selector_header p.tag_report_content_selector)
      +++ every custom_header p.custom
      +++ nil in
    header param_ro_report_spec (add_sizes 7 subs) ((u8 p.trigger ∷ []) ++ be16 p.n) subs

unfoldable pub ro_report_spec_group1 : Cases RoReportSpec
ro_report_spec_group1 pt p =
    if pt == param_custom
    then into (within unmarshal_custom) (λ x. record p { custom = p.custom ++ (x ∷ []) })
    else none

-- `ROReportSpec.UnmarshalBinary`
unfoldable pub unmarshal_ro_report_spec : List ℕ → Outcome CodecError RoReportSpec
unmarshal_ro_report_spec bytes = do
  has_enough_bytes param_ro_report_spec 9 (length bytes) false
  trigger ← byte_at 0 bytes
  n ← uint16_at 1 bytes
  rest ← slice_from 3 bytes
  (tag_report_content_selector, rest2) ←
      required param_tag_report_content_selector (within unmarshal_tag_report_content_selector) rest
  let p : RoReportSpec = record {
    trigger = trigger;
    n = n;
    tag_report_content_selector = tag_report_content_selector;
    custom = [];
  }
  unless_empty rest2 p
      (do (p3, rest3) ← group (suc (length rest2)) ro_report_spec_group1 p rest2; finished rest3 p3)

pub record EventNotificationState : Type 0 where
  pub reader_event_type : ℕ
  pub notification_enabled : Bool

-- `EventNotificationState.getHeader` and `EncodeFields`
unfoldable pub event_notification_state_header : EventNotificationState → ParamHeader
event_notification_state_header p =
    header param_event_notification_state 7
      (be16 p.reader_event_type ++ (b2b p.notification_enabled 7 ∷ [])) nil

-- `EventNotificationState.UnmarshalBinary`
unfoldable pub unmarshal_event_notification_state :
    List ℕ → Outcome CodecError EventNotificationState
unmarshal_event_notification_state bytes = do
  has_enough_bytes param_event_notification_state 3 (length bytes) true
  reader_event_type ← uint16_at 0 bytes
  b2 ← byte_at 2 bytes
  ok (record {
    reader_event_type = reader_event_type;
    notification_enabled = not (b2 / 2 ^ 7 == 0);
  })

pub record ReaderEventNotificationSpec : Type 0 where
  pub event_notification_states : List EventNotificationState

-- `ReaderEventNotificationSpec.getHeader` and `EncodeFields`
unfoldable pub reader_event_notification_spec_header : ReaderEventNotificationSpec → ParamHeader
reader_event_notification_spec_header p =
    let subs : ParamHeaders =
      every event_notification_state_header p.event_notification_states +++ nil in
    header param_reader_event_notification_spec (add_sizes 4 subs) ([]) subs

unfoldable pub reader_event_notification_spec_group1 : Cases ReaderEventNotificationSpec
reader_event_notification_spec_group1 pt p =
    if pt == param_event_notification_state
    then into (within unmarshal_event_notification_state)
        (λ x. record p { event_notification_states = p.event_notification_states ++ (x ∷ []) })
    else none

-- `ReaderEventNotificationSpec.UnmarshalBinary`
unfoldable pub unmarshal_reader_event_notification_spec :
    List ℕ → Outcome CodecError ReaderEventNotificationSpec
unmarshal_reader_event_notification_spec bytes = do
  has_enough_bytes param_reader_event_notification_spec 7 (length bytes) false
  let p : ReaderEventNotificationSpec = record { event_notification_states = [] }
  (p1, rest) ← group (suc (length bytes)) reader_event_notification_spec_group1 p bytes
  finished rest p1
