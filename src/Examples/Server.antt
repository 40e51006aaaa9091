-- ===== src/Examples/Server.antt =====
-- BsRegisterService of server/main.cpp.
use service_call.Base.{ℕ, List, Option, some, ◌>>=◌}
use service_call.Parameter.{Arch, Blob, RoutineParameter}
use service_call.ClientIds.{Globals}
use service_call.Server.Register.{Answers, Request, Handle, null, untouched, service, register_w}
use service_call.Examples.Macros.{
  dword_mask, ptr_no_map_mask, initialize_service_parameters, service_parameters_value,
  service_parameters_ptr,
}

-- The parameters of the routine, filled over what `new` left in their memory.
unfoldable pub registered_parameters : List Blob → Option RoutineParameter
registered_parameters memory = do
  p ← initialize_service_parameters memory 4
  p ← service_parameters_value p 0 dword_mask 0
  p ← service_parameters_ptr p 1 ptr_no_map_mask 0 0
  p ← service_parameters_value p 2 dword_mask 0
  service_parameters_ptr p 3 ptr_no_map_mask 0 0

-- The addresses of hServiceRoutine, of the routine, of the parameters and of the name.
pub record Program : Type 0 where
  pub handle_address : ℕ
  pub routine_address : ℕ
  pub param_address : ℕ
  pub name_address : ℕ

abbrev pub register_request : Program → RoutineParameter → Request
register_request prog p = record {
  handle_address = prog.handle_address;
  routine_address = prog.routine_address;
  parameters_address = prog.param_address;
  parameters = p;
  name = prog.name_address;
}

-- hServiceRoutine starts out as null.
abbrev pub kept : Handle → Handle
kept untouched = null
kept null = null
kept service = service

-- BsRegisterService: the handle that it returns.
unfoldable pub bs_register_service :
    Arch → Answers → Globals → Program → (memory : List Blob) → Option Handle
bs_register_service arch sys g prog memory = do
  p ← registered_parameters memory
  res ← register_w arch sys g (register_request prog p)
  some (kept res.handle)
