-- ===== src/Client/Defs.antt =====
-- The client's side of a call, with the system's answers as parameters.
use service_call.Base.{
  ℕ, zero, suc, ◌+◌, ◌*◌, ◌%◌, ◌^◌, Bool, true, false, not, ◌&&◌, ◌||◌, List, [], ◌∷◌, ◌++◌, Option,
  none, some, ◌==◌, if◌then◌else◌,
}
use service_call.Status.{
  status_success, status_unsuccessful, status_access_violation, status_invalid_parameter_1,
  status_invalid_parameter_2, status_port_connection_refused, status_object_name_not_found,
  nt_success,
}
use service_call.Parameter.{
  Arch, Blob, RoutineParameter, Captured, copied, refused, overrun, is_set, pt_bit, nl_bit, capture,
  blob_size, header_size,
}

-- RtlSystemLpcMessageLength, by the wProcessorArchitecture that GetNativeSystemInfo gives: 0 is
-- PROCESSOR_ARCHITECTURE_INTEL and 9 is PROCESSOR_ARCHITECTURE_AMD64.
unfoldable pub lpc_message_length : ℕ → ℕ
lpc_message_length architecture =
    if architecture == 0 then 24 else if architecture == 9 then 40 else 0

-- What the call does to things outside its own variables, in order.
pub data Event : Type 0 where
  create_string free_string : Event
  connect : (information_length : ℕ) → Event
  request reply close : Event

-- What the system answers: IsBadReadPtr, IsBadWritePtr and IsBadStringPtrW; NtConnectPort with the
-- maximal message length; NtRequestWaitReplyPort and the DWORD at each offset of its reply.
pub record Answers : Type 0 where
  pub is_bad_read : (address size : ℕ) → Bool
  pub is_bad_write : (address size : ℕ) → Bool
  pub is_bad_string : ℕ → Bool
  pub connect_status : ℕ
  pub max_message_length : ℕ
  pub request_status : ℕ
  pub reply_at : ℕ → ℕ
  pub architecture : ℕ

pub record Request : Type 0 where
  pub name : ℕ
  pub address : ℕ
  pub parameters : RoutineParameter
  pub service_status : Option ℕ

-- The status, what is stored through lpServiceStatus, the events, and the global message length.
pub record Result : Type 0 where
  pub status : ℕ
  pub stored : Option ℕ
  pub events : List Event
  pub message_length : ℕ

-- `length`: a ULONG, also on the 64-bit build.
unfoldable pub request_length : ℕ → ℕ
request_length n = (n * blob_size + header_size) % 2 ^ 32

-- A pointer that may not be null and is.
abbrev pub is_missing : Blob → Bool
is_missing b =
    is_set b.parameter_mask pt_bit && (not (is_set b.parameter_mask nl_bit) && b.ul_parameter == 0)

-- The loop over the parameters: whether a pointer is missing; `none` is a read behind the blobs.
unfoldable pub find_missing : ℕ → List Blob → Option Bool
find_missing zero bs = some false
find_missing (suc n) [] = none
find_missing (suc n) (b ∷ bs) =
    let rest = find_missing n bs in if is_missing b then some true else rest

-- The return before anything is connected, with the events so far.
abbrev pub refuse : (message_length status : ℕ) → List Event → Option Result
refuse message_length status events =
    some
      (record { status = status; stored = none; events = events; message_length = message_length })

module _ (sys : Answers) (message_length : ℕ) (r : Request) where
  -- From NtRequestWaitReplyPort on: the port is connected.
  unfoldable pub exchange : List Event → Result
  exchange before =
      let learned =
        if message_length == 0 then lpc_message_length sys.architecture else message_length in
      let events = before ++ request ∷ reply ∷ close ∷ [] in
      if nt_success sys.request_status
      then record {
        status = status_success;
        stored = elim r.service_status [
          | none ↦ none
          | some p ↦ if not (sys.is_bad_write p 4) then some (sys.reply_at learned) else none
        ];
        events = events;
        message_length = learned;
      }
      else record {
        status = status_unsuccessful;
        stored = none;
        events = events;
        message_length = message_length;
      }

  -- NtConnectPort and the switch on its status.
  unfoldable pub connect_port : Option Result
  unfolding exchange
  connect_port =
      let tried =
        create_string ∷ connect (request_length r.parameters.parameter_count) ∷ free_string ∷ [] in
      if sys.connect_status == status_success
      then some (exchange tried)
      else if sys.connect_status == status_port_connection_refused
      then refuse message_length status_invalid_parameter_2 tried
      else if sys.connect_status == status_object_name_not_found
      then refuse message_length status_invalid_parameter_1 tried
      else refuse message_length status_unsuccessful tried

  -- The capture, whose result is only tested.
  unfoldable pub check_capture : Captured → Option Result
  unfolding connect_port
  check_capture (copied bs) = connect_port
  check_capture refused =
      refuse message_length status_invalid_parameter_2 (create_string ∷ free_string ∷ [])
  check_capture overrun = none

  unfoldable pub check_missing : Arch → Option Bool → Option Result
  unfolding check_capture
  check_missing arch none = none
  check_missing arch (some true) =
      refuse message_length status_invalid_parameter_2 (create_string ∷ free_string ∷ [])
  check_missing arch (some false) = check_capture (capture arch r.parameters)

  -- ScServiceCallW. `none` is an access outside the parameters or outside the captured block.
  unfoldable pub service_call_w : Arch → Option Result
  unfolding check_missing
  service_call_w arch =
      let n = r.parameters.parameter_count in
      if sys.is_bad_read r.address 4
        || (sys.is_bad_read r.address (request_length n) || sys.is_bad_string r.name)
      then refuse message_length status_access_violation []
      else check_missing arch (find_missing n r.parameters.parameters)
