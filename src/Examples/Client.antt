-- ===== src/Examples/Client.antt =====
-- BsQuerySystemInformation of client/main.cpp. The addresses of the name, of the static parameter list and
-- of the local `status` are the program's data.
use service_call.Base.{ℕ, List, Option, none, some, not, if◌then◌else◌, ◌==◌, ◌>>=◌}
use service_call.Status.{nt_success}
use service_call.Parameter.{Arch, Blob, RoutineParameter}
use service_call.Enums.SystemInformation.{SystemInformationClass}
use service_call.Enums.SystemInformationValue.{system_information_class_value}
use service_call.Client.Defs.{Answers, Request, service_call_w}
use service_call.Examples.Macros.{
  dword_mask, ptr_no_map_mask, initialize_service_parameters, service_parameters_value,
  service_parameters_ptr,
}

-- The arguments of BsQuerySystemInformation.
pub record Query : Type 0 where
  pub information_class : SystemInformationClass
  pub buffer : ℕ
  pub buffer_size : ℕ
  pub return_length : ℕ

-- The parameters, filled over what the memory of `param` holds.
unfoldable pub query_parameters : List Blob → Query → Option RoutineParameter
query_parameters memory q = do
  p ← initialize_service_parameters memory 4
  p ← service_parameters_value p 0 dword_mask (system_information_class_value q.information_class)
  p ← service_parameters_ptr p 1 ptr_no_map_mask q.buffer q.buffer_size
  p ← service_parameters_value p 2 dword_mask q.buffer_size
  service_parameters_ptr p 3 ptr_no_map_mask q.return_length (if q.return_length == 0 then 0 else 4)

-- Where the program keeps the name, `param` and `status`.
pub record Program : Type 0 where
  pub name_address : ℕ
  pub param_address : ℕ
  pub status_address : ℕ

abbrev pub query_request : Program → RoutineParameter → Request
query_request prog p = record {
  name = prog.name_address;
  address = prog.param_address;
  parameters = p;
  service_status = some prog.status_address;
}

-- A local variable after a call that may store into it.
abbrev pub loaded : (before : ℕ) → Option ℕ → ℕ
loaded before none = before
loaded before (some value) = value

-- What a call of BsQuerySystemInformation leaves: its status, the library's system_lpc_message_length, and the
-- static list.
pub record Called : Type 0 where
  pub status : ℕ
  pub message_length : ℕ
  pub param : RoutineParameter

module _ (sys : Answers) (message_length : ℕ) (prog : Program) (arch : Arch) where
  -- BsQuerySystemInformation; `before` is what the uninitialised `status` holds.
  unfoldable pub query_call : (before : ℕ) → (memory : List Blob) → Query → Option Called
  query_call before memory q = do
    p ← query_parameters memory q
    res ← service_call_w sys message_length (query_request prog p) arch
    some (record {
      status = if not (nt_success res.status) then res.status else loaded before res.stored;
      message_length = res.message_length;
      param = p;
    })

  -- What it returns.
  unfoldable pub bs_query_system_information :
      (before : ℕ) → (memory : List Blob) → Query → Option ℕ
  bs_query_system_information before memory q = do
    called ← query_call before memory q
    some called.status
