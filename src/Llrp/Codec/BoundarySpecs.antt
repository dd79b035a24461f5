-- ===== src/Llrp/Codec/BoundarySpecs.antt =====
-- What starts and stops a `ROSpec`: generated code of pkg/llrp.
use device_rfid_llrp_go.Prelude.{
  ℕ, suc, false, Option, none, some, List, [], ◌∷◌, ◌++◌, ◌==◌, if◌then◌else◌, length, Outcome,
  ◌>>=◌, ◌>>◌,
}
use device_rfid_llrp_go.Llrp.Bytes.{be32, slice_from}
use device_rfid_llrp_go.Llrp.Params.{
  ParamHeader, ParamHeaders, header, nil, CodecError, has_enough_bytes,
}
use device_rfid_llrp_go.Llrp.Fields.{
  byte_at, uint32_at, finished, unless_empty, within, required, optional, Cases, into, group, u8,
  ◌+++◌, one, maybe, add_sizes,
}
use device_rfid_llrp_go.Llrp.ParamTypes.{
  param_gpi_trigger_value, param_periodic_trigger_value, param_ro_boundary_spec,
  param_ro_spec_start_trigger, param_ro_spec_stop_trigger,
}
use device_rfid_llrp_go.Llrp.Codec.Triggers.{
  GpiTriggerValue, gpi_trigger_value_header, unmarshal_gpi_trigger_value, PeriodicTriggerValue,
  periodic_trigger_value_header, unmarshal_periodic_trigger_value,
}

pub record RoSpecStartTrigger : Type 0 where
  pub trigger : ℕ
  pub periodic_trigger : Option PeriodicTriggerValue
  pub gpi_trigger : Option GpiTriggerValue

-- `ROSpecStartTrigger.getHeader` and `EncodeFields`
unfoldable pub ro_spec_start_trigger_header : RoSpecStartTrigger → ParamHeader
ro_spec_start_trigger_header p =
    let subs : ParamHeaders =
      maybe periodic_trigger_value_header p.periodic_trigger
      +++ maybe gpi_trigger_value_header p.gpi_trigger
      +++ nil in
    header param_ro_spec_start_trigger (add_sizes 5 subs) (u8 p.trigger ∷ []) subs

unfoldable pub ro_spec_start_trigger_group1 : Cases RoSpecStartTrigger
ro_spec_start_trigger_group1 pt p =
    if pt == param_periodic_trigger_value
    then into (within unmarshal_periodic_trigger_value)
        (λ x. record p { periodic_trigger = some x })
    else if pt == param_gpi_trigger_value
    then into (within unmarshal_gpi_trigger_value) (λ x. record p { gpi_trigger = some x })
    else none

-- `ROSpecStartTrigger.UnmarshalBinary`
unfoldable pub unmarshal_ro_spec_start_trigger : List ℕ → Outcome CodecError RoSpecStartTrigger
unmarshal_ro_spec_start_trigger bytes = do
  has_enough_bytes param_ro_spec_start_trigger 1 (length bytes) false
  trigger ← byte_at 0 bytes
  rest ← slice_from 1 bytes
  let p : RoSpecStartTrigger = record {
    trigger = trigger;
    periodic_trigger = none;
    gpi_trigger = none;
  }
  unless_empty rest p (do
    (p2, rest2) ← group (suc (length rest)) ro_spec_start_trigger_group1 p rest
    finished rest2 p2)

pub record RoSpecStopTrigger : Type 0 where
  pub trigger : ℕ
  pub duration_trigger_value : ℕ
  pub gpi_trigger_value : Option GpiTriggerValue

-- `ROSpecStopTrigger.getHeader` and `EncodeFields`
unfoldable pub ro_spec_stop_trigger_header : RoSpecStopTrigger → ParamHeader
ro_spec_stop_trigger_header p =
    let subs : ParamHeaders = maybe gpi_trigger_value_header p.gpi_trigger_value +++ nil in
    header param_ro_spec_stop_trigger (add_sizes 9 subs)
      ((u8 p.trigger ∷ []) ++ be32 p.duration_trigger_value) subs

-- `ROSpecStopTrigger.UnmarshalBinary`
unfoldable pub unmarshal_ro_spec_stop_trigger : List ℕ → Outcome CodecError RoSpecStopTrigger
unmarshal_ro_spec_stop_trigger bytes = do
  has_enough_bytes param_ro_spec_stop_trigger 5 (length bytes) false
  trigger ← byte_at 0 bytes
  duration_trigger_value ← uint32_at 1 bytes
  rest ← slice_from 5 bytes
  let p : RoSpecStopTrigger = record {
    trigger = trigger;
    duration_trigger_value = duration_trigger_value;
    gpi_trigger_value = none;
  }
  unless_empty rest p (do
    (gpi_trigger_value, rest2) ←
        optional param_gpi_trigger_value (within unmarshal_gpi_trigger_value) rest
    let p_gpi_trigger_value : RoSpecStopTrigger = record p { gpi_trigger_value = gpi_trigger_value }
    finished rest2 p_gpi_trigger_value)

pub record RoBoundarySpec : Type 0 where
  pub start_trigger : RoSpecStartTrigger
  pub stop_trigger : RoSpecStopTrigger

-- `ROBoundarySpec.getHeader` and `EncodeFields`
unfoldable pub ro_boundary_spec_header : RoBoundarySpec → ParamHeader
ro_boundary_spec_header p =
    let subs : ParamHeaders =
      one (ro_spec_start_trigger_header p.start_trigger)
      +++ one (ro_spec_stop_trigger_header p.stop_trigger)
      +++ nil in
    header param_ro_boundary_spec (add_sizes 4 subs) ([]) subs

-- `ROBoundarySpec.UnmarshalBinary`
unfoldable pub unmarshal_ro_boundary_spec : List ℕ → Outcome CodecError RoBoundarySpec
unmarshal_ro_boundary_spec bytes = do
  has_enough_bytes param_ro_boundary_spec 5 (length bytes) false
  (start_trigger, rest) ←
      required param_ro_spec_start_trigger (within unmarshal_ro_spec_start_trigger) bytes
  has_enough_bytes param_ro_spec_stop_trigger 4 (length rest) false
  (stop_trigger, rest2) ←
      required param_ro_spec_stop_trigger (within unmarshal_ro_spec_stop_trigger) rest
  finished rest2 (record { start_trigger = start_trigger; stop_trigger = stop_trigger })
