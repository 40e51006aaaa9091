-- ===== src/Server/Register.antt =====
-- ScInitializeService and ScRegisterServiceRoutineW, with the system's answers as parameters.
use service_call.Base.{
  ℕ, ◌+◌, ◌*◌, ◌%◌, Bool, not, ◌||◌, List, [], ◌∷◌, ◌++◌, Option, none, some, if◌then◌else◌,
}
use service_call.Status.{
  status_success, status_access_violation, status_not_supported, status_invalid_parameter_3,
  status_object_name_exists, status_no_memory, nt_success,
}
use service_call.Parameter.{
  Arch, x86, x64, RoutineParameter, Captured, copied, refused, overrun, capture, blob_size,
  size_mod,
}
use service_call.ClientIds.{Globals, is_null}
use service_call.Client.Defs.{lpc_message_length}
use service_call.Server.Resources.{
  Event, acquire, release, name_string, parameter_list, service_record, service_port, thread_handle,
}

-- ScInitializeService: its status and the globals.
unfoldable pub initialize_service : (architecture : ℕ) → Globals → ℕ × Globals
initialize_service architecture g =
    if not (is_null g.critical_section) then (status_success, g) else (
      status_success,
      record {
        critical_section = some tt;
        client_id_list = some [];
        system_lpc_message_length = lpc_message_length architecture;
      },
    )

-- IsBadWritePtr, IsBadReadPtr and IsBadStringPtrW; NtCreatePort and CreateThread.
pub record Answers : Type 0 where
  pub is_bad_write : (address size : ℕ) → Bool
  pub is_bad_read : (address size : ℕ) → Bool
  pub is_bad_string : ℕ → Bool
  pub create_port_status : ℕ
  pub create_thread : Bool

pub record Request : Type 0 where
  pub handle_address : ℕ
  pub routine_address : ℕ
  pub parameters_address : ℕ
  pub parameters : RoutineParameter
  pub name : ℕ

-- What is stored through hServiceRoutine.
pub data Handle : Type 0 where
  untouched null service : Handle

pub record Result : Type 0 where
  pub status : ℕ
  pub handle : Handle
  pub events : List Event

-- sizeof(LPVOID).
abbrev pub pointer_size : Arch → ℕ
pointer_size x86 = 4
pointer_size x64 = 8

-- The bytes of the parameters that are tested: the blobs and one DWORD, in size_t.
unfoldable pub tested_size : Arch → ℕ → ℕ
tested_size arch n = (n * blob_size % size_mod arch + 4) % size_mod arch

-- CreateThread and what follows it, with the port made and the name's string freed.
unfoldable pub start_thread : Answers → List Event → Result
start_thread sys before =
    if not sys.create_thread
    then record {
      status = status_no_memory;
      handle = null;
      events =
          before
          ++ acquire service_record
            ∷ release parameter_list
            ∷ release service_record
            ∷ release service_port
            ∷ [];
    }
    else record {
      status = status_success;
      handle = service;
      events = before ++ acquire service_record ∷ acquire thread_handle ∷ [];
    }

-- From the capture on.
unfoldable pub create_service : Answers → Captured → Option Result
unfolding start_thread
create_service sys refused = some (record {
  status = status_invalid_parameter_3;
  handle = null;
  events = acquire name_string ∷ release name_string ∷ [];
})
create_service sys overrun = none
create_service sys (copied bs) =
    if not (nt_success sys.create_port_status)
    then some (record {
      status = status_object_name_exists;
      handle = null;
      events =
          acquire name_string
          ∷ acquire parameter_list
          ∷ release parameter_list
          ∷ release name_string
          ∷ [];
    })
    else some (
        start_thread sys (
          acquire name_string
          ∷ acquire parameter_list
          ∷ acquire service_port
          ∷ release name_string
          ∷ []))

-- The tests of the caller's addresses.
unfoldable pub is_bad_access : Arch → Answers → Request → Bool
is_bad_access arch sys r =
    sys.is_bad_write r.handle_address (pointer_size arch)
    || (sys.is_bad_read r.routine_address (pointer_size arch)
        || (sys.is_bad_read r.parameters_address 8
            || (sys.is_bad_read r.parameters_address (tested_size arch r.parameters.parameter_count)
                || sys.is_bad_string r.name)))

-- ScRegisterServiceRoutineW. `none` is an access outside the parameters or the captured block.
unfoldable pub register_w : Arch → Answers → Globals → Request → Option Result
unfolding create_service is_bad_access
register_w arch sys g r =
    if is_null g.critical_section || is_null g.client_id_list
    then some (record { status = status_not_supported; handle = untouched; events = [] })
    else if is_bad_access arch sys r
    then some (record { status = status_access_violation; handle = untouched; events = [] })
    else create_service sys (capture arch r.parameters)
