-- ===== src/Llrp/Codec/RoundTrip/BoundarySpecs.antt =====
-- What starts and stops a `ROSpec`.
use device_rfid_llrp_go.Prelude.{
  ℕ, suc, ◌≤◌, ◌≡◌, refl, false, none, List, [], ◌∷◌, ◌++◌, arith, length, ok, ◌>>=◌, IsU8, IsU32,
}
use device_rfid_llrp_go.Llrp.Bytes.{be32}
use device_rfid_llrp_go.Llrp.Params.{ParamHeaders, nil, has_enough_bytes, encode_params, is_tv}
use device_rfid_llrp_go.Llrp.ParamTypes.{
  param_ro_boundary_spec, param_ro_spec_start_trigger, param_ro_spec_stop_trigger,
}
use device_rfid_llrp_go.Llrp.Fields.{
  finished, unless_empty, required, optional, group, u8, ◌+++◌, one, maybe,
}
use device_rfid_llrp_go.Llrp.Fields.Coded.{
  Fits, IfSome, IfSome-map, Coding, IsRead, coding, IsCoded, coding-IsRead, required_last,
  optional_last, length-encode_params-cons, enough-of-ok, optional_last, required-cons,
}
use device_rfid_llrp_go.Llrp.Fields.Groups.{Gives-nil, Gives-maybe, group-empty}
use device_rfid_llrp_go.Llrp.Fields.Sized.{IsWritten-subs, AllSized-maybe}
use device_rfid_llrp_go.Llrp.Codec.Triggers.{
  gpi_trigger_value_header, periodic_trigger_value_header,
}
use device_rfid_llrp_go.Llrp.Codec.BoundarySpecs.{
  RoSpecStartTrigger, ro_spec_start_trigger_header, unmarshal_ro_spec_start_trigger,
  ro_spec_start_trigger_group1, RoSpecStopTrigger, ro_spec_stop_trigger_header,
  unmarshal_ro_spec_stop_trigger, RoBoundarySpec, ro_boundary_spec_header,
  unmarshal_ro_boundary_spec,
}
use device_rfid_llrp_go.Llrp.Codec.RoundTrip.Triggers.{
  IsGpiTriggerValue, gpi_trigger_value_coding, gpi_trigger_value-IsRead, IsPeriodicTriggerValue,
  periodic_trigger_value_coding, periodic_trigger_value-IsRead,
}

abbrev pub IsRoSpecStartTrigger : RoSpecStartTrigger → Type 0
IsRoSpecStartTrigger p =
    IsU8 p.trigger
    × IfSome IsPeriodicTriggerValue p.periodic_trigger
    × IfSome IsGpiTriggerValue p.gpi_trigger
    × Fits (ro_spec_start_trigger_header p)

abbrev pub ro_spec_start_trigger_coding : Coding RoSpecStartTrigger
ro_spec_start_trigger_coding =
    coding param_ro_spec_start_trigger ro_spec_start_trigger_header unmarshal_ro_spec_start_trigger

ro_spec_start_trigger_read :
    (p : RoSpecStartTrigger) (rest : List ℕ)
    → IsU8 p.trigger
    → 1 ≤ length (((u8 p.trigger ∷ [])) ++ rest)
    → group
        (suc (length rest))
        ro_spec_start_trigger_group1
        (record p { periodic_trigger = none; gpi_trigger = none })
        rest
      ≡ ok (p, [])
    → unmarshal_ro_spec_start_trigger (((u8 p.trigger ∷ [])) ++ rest) ≡ ok p
unfolding unmarshal_ro_spec_start_trigger has_enough_bytes
ro_spec_start_trigger_read p rest b0 h1 h2 = ground (
  arith,
  group-empty ro_spec_start_trigger_group1 rest []
      (record p { periodic_trigger = none; gpi_trigger = none }) (p) h2,
)

pub ro_spec_start_trigger_header-IsCoded :
    (p : RoSpecStartTrigger)
    → IsRoSpecStartTrigger p
    → IsCoded param_ro_spec_start_trigger ro_spec_start_trigger_header
        unmarshal_ro_spec_start_trigger p
unfolding ro_spec_start_trigger_header is_tv ro_spec_start_trigger_group1
ro_spec_start_trigger_header-IsCoded p (b0, c0, c1, fits) =
    let i0 : IfSome (IsRead periodic_trigger_value_coding) p.periodic_trigger =
      IfSome-map periodic_trigger_value-IsRead p.periodic_trigger c0 in
    let i1 : IfSome (IsRead gpi_trigger_value_coding) p.gpi_trigger =
      IfSome-map gpi_trigger_value-IsRead p.gpi_trigger c1 in
    let k1 : ParamHeaders = maybe gpi_trigger_value_header p.gpi_trigger +++ nil in
    let k0 : ParamHeaders = maybe periodic_trigger_value_header p.periodic_trigger +++ k1 in
    (
      IsWritten-subs param_ro_spec_start_trigger 5 ((u8 p.trigger ∷ [])) _ refl (omega arith) refl
          (AllSized-maybe periodic_trigger_value_coding p.periodic_trigger _ i0
            (AllSized-maybe gpi_trigger_value_coding p.gpi_trigger _ i1 tt))
          fits,
      refl,
      ro_spec_start_trigger_read p (encode_params k0) b0 (omega (arith)) (
          (Gives-maybe ro_spec_start_trigger_group1 periodic_trigger_value_coding
              (λ o. record p { periodic_trigger = o; gpi_trigger = none }) p.periodic_trigger _ _
              refl i0
              (Gives-maybe ro_spec_start_trigger_group1 gpi_trigger_value_coding
                (λ o. record p { gpi_trigger = o }) p.gpi_trigger _ _ refl i1
                (Gives-nil ro_spec_start_trigger_group1 p)))
            _ (omega arith)),
    )

pub ro_spec_start_trigger-IsRead :
    (x : RoSpecStartTrigger) → IsRoSpecStartTrigger x → IsRead ro_spec_start_trigger_coding x
ro_spec_start_trigger-IsRead x v =
    coding-IsRead param_ro_spec_start_trigger ro_spec_start_trigger_header
      unmarshal_ro_spec_start_trigger x (ro_spec_start_trigger_header-IsCoded x v)

abbrev pub IsRoSpecStopTrigger : RoSpecStopTrigger → Type 0
IsRoSpecStopTrigger p =
    IsU8 p.trigger
    × IsU32 p.duration_trigger_value
    × IfSome IsGpiTriggerValue p.gpi_trigger_value
    × Fits (ro_spec_stop_trigger_header p)

abbrev pub ro_spec_stop_trigger_coding : Coding RoSpecStopTrigger
ro_spec_stop_trigger_coding =
    coding param_ro_spec_stop_trigger ro_spec_stop_trigger_header unmarshal_ro_spec_stop_trigger

ro_spec_stop_trigger_read :
    (p : RoSpecStopTrigger) (rest : List ℕ)
    → IsU8 p.trigger
    → IsU32 p.duration_trigger_value
    → 5 ≤ length (((u8 p.trigger ∷ []) ++ be32 p.duration_trigger_value) ++ rest)
    → unless_empty rest
        (record p { gpi_trigger_value = none })
        (optional (gpi_trigger_value_coding.of_type) (gpi_trigger_value_coding.read) rest
          >>= λ (x, behind). finished behind (record p { gpi_trigger_value = x }))
      ≡ ok p
    → unmarshal_ro_spec_stop_trigger
        (((u8 p.trigger ∷ []) ++ be32 p.duration_trigger_value) ++ rest)
      ≡ ok p
unfolding unmarshal_ro_spec_stop_trigger has_enough_bytes
ro_spec_stop_trigger_read p rest b0 b1 h1 h2 = ground (arith)

pub ro_spec_stop_trigger_header-IsCoded :
    (p : RoSpecStopTrigger)
    → IsRoSpecStopTrigger p
    → IsCoded param_ro_spec_stop_trigger ro_spec_stop_trigger_header unmarshal_ro_spec_stop_trigger
        p
unfolding ro_spec_stop_trigger_header is_tv
ro_spec_stop_trigger_header-IsCoded p (b0, b1, c0, fits) =
    let i0 : IfSome (IsRead gpi_trigger_value_coding) p.gpi_trigger_value =
      IfSome-map gpi_trigger_value-IsRead p.gpi_trigger_value c0 in
    let k0 : ParamHeaders = maybe gpi_trigger_value_header p.gpi_trigger_value +++ nil in
    (
      IsWritten-subs param_ro_spec_stop_trigger 9
          ((u8 p.trigger ∷ []) ++ be32 p.duration_trigger_value) _ refl (omega arith) refl
          (AllSized-maybe gpi_trigger_value_coding p.gpi_trigger_value _ i0 tt) fits,
      refl,
      ro_spec_stop_trigger_read p (encode_params k0) b0 b1 (omega (arith)) (
          optional_last gpi_trigger_value_coding (λ o. record p { gpi_trigger_value = o })
            p.gpi_trigger_value i0),
    )

pub ro_spec_stop_trigger-IsRead :
    (x : RoSpecStopTrigger) → IsRoSpecStopTrigger x → IsRead ro_spec_stop_trigger_coding x
ro_spec_stop_trigger-IsRead x v =
    coding-IsRead param_ro_spec_stop_trigger ro_spec_stop_trigger_header
      unmarshal_ro_spec_stop_trigger x (ro_spec_stop_trigger_header-IsCoded x v)

abbrev pub IsRoBoundarySpec : RoBoundarySpec → Type 0
IsRoBoundarySpec p =
    IsRoSpecStartTrigger p.start_trigger
    × IsRoSpecStopTrigger p.stop_trigger
    × Fits (ro_boundary_spec_header p)

abbrev pub ro_boundary_spec_coding : Coding RoBoundarySpec
ro_boundary_spec_coding =
    coding param_ro_boundary_spec ro_boundary_spec_header unmarshal_ro_boundary_spec

ro_boundary_spec_read :
    (p : RoBoundarySpec) (rest rest2 : List ℕ)
    → 5 ≤ length rest
    → required (ro_spec_start_trigger_coding.of_type) (ro_spec_start_trigger_coding.read) rest
      ≡ ok (p.start_trigger, rest2)
    → 4 ≤ length rest2
    → required (ro_spec_stop_trigger_coding.of_type) (ro_spec_stop_trigger_coding.read) rest2
      ≡ ok (p.stop_trigger, [])
    → unmarshal_ro_boundary_spec (rest) ≡ ok p
unfolding unmarshal_ro_boundary_spec has_enough_bytes
ro_boundary_spec_read p rest rest2 h1 h2 h3 h4 = ground (arith)

pub ro_boundary_spec_header-IsCoded :
    (p : RoBoundarySpec)
    → IsRoBoundarySpec p
    → IsCoded param_ro_boundary_spec ro_boundary_spec_header unmarshal_ro_boundary_spec p
unfolding ro_boundary_spec_header is_tv
ro_boundary_spec_header-IsCoded p (c0, c1, fits) =
    let i0 = ro_spec_start_trigger-IsRead p.start_trigger c0 in
    let i1 = ro_spec_stop_trigger-IsRead p.stop_trigger c1 in
    let k1 : ParamHeaders = one (ro_spec_stop_trigger_header p.stop_trigger) +++ nil in
    let k0 : ParamHeaders = one (ro_spec_start_trigger_header p.start_trigger) +++ k1 in
    (
      IsWritten-subs param_ro_boundary_spec 4 ([]) _ refl (omega arith) refl (i0.0.0, (i1.0.0, tt))
          fits,
      refl,
      ro_boundary_spec_read p (encode_params k0) (encode_params k1)
          (omega (
            arith,
            length-encode_params-cons (ro_spec_start_trigger_header p.start_trigger) k1 (i0.0),
            length-encode_params-cons (ro_spec_stop_trigger_header p.stop_trigger) (nil) (i1.0),
          ))
          (required-cons ro_spec_start_trigger_coding p.start_trigger i0 k1)
          (omega (
            arith,
            length-encode_params-cons (ro_spec_stop_trigger_header p.stop_trigger) (nil) (i1.0),
          ))
          (required_last ro_spec_stop_trigger_coding p.stop_trigger i1),
    )

pub ro_boundary_spec_enough :
    (bytes : List ℕ) (p : RoBoundarySpec)
    → unmarshal_ro_boundary_spec bytes ≡ ok p
    → 5 ≤ length bytes
unfolding unmarshal_ro_boundary_spec
ro_boundary_spec_enough bytes p e = enough-of-ok param_ro_boundary_spec 5 (length bytes) false _ p e

pub ro_boundary_spec-IsRead :
    (x : RoBoundarySpec) → IsRoBoundarySpec x → IsRead ro_boundary_spec_coding x
ro_boundary_spec-IsRead x v =
    coding-IsRead param_ro_boundary_spec ro_boundary_spec_header unmarshal_ro_boundary_spec x
      (ro_boundary_spec_header-IsCoded x v)
