-- ===== src/Examples/Served.antt =====
-- The client of client/main.cpp at the service that server/main.cpp registers.
use service_call.Base.{
  ◌≤◌, ◌≡◌, ◌≢◌, ◌∙◌, refl, true, List, [], ◌∷◌, some, length, arith, ◌||◌, ◌&&◌, not,
  if◌then◌else◌,
}
use service_call.Status.{nt_success}
use service_call.Parameter.{
  Arch, x86, x64, Blob, RoutineParameter, copied, capture, capture_loop, buffer_size, is_refused,
  equal_type, equal_loop,
}
use service_call.ClientIds.{Globals, is_null}
use service_call.Server.Register.{
  Answers, create_service, start_thread, is_bad_access, null, service, register_w,
}
use service_call.Server.Wait.{Turn, Ended, handed, turn, accept}
use service_call.Layout.Messages.{max_connection_size}
use service_call.Examples.Macros.{
  dword_mask, ptr_no_map_mask, initialize_parameter_blob, initialize_parameter_blob_ptr, zero_blobs,
  initialize_service_parameters, store_blob, service_parameters_value, service_parameters_ptr,
}
use service_call.Examples.Client.{Query, query_parameters}
use service_call.Examples.Server.{
  Program, registered_parameters, register_request, bs_register_service,
}
use service_call.Examples.Query.{queried, query_blobs, query_parameters-queried}

abbrev pub registered : RoutineParameter
registered = record {
  parameter_count = 4;
  parameters =
      initialize_parameter_blob dword_mask 0
      ∷ initialize_parameter_blob_ptr ptr_no_map_mask 0 0
      ∷ initialize_parameter_blob dword_mask 0
      ∷ initialize_parameter_blob_ptr ptr_no_map_mask 0 0
      ∷ [];
}

pub registered_parameters-registered :
    (memory : List Blob) → length memory ≡ 4 → registered_parameters memory ≡ some registered
unfolding registered_parameters initialize_service_parameters zero_blobs store_blob
    service_parameters_value service_parameters_ptr
registered_parameters-registered [] e = absurd (omega arith)
registered_parameters-registered (a ∷ []) e = absurd (omega arith)
registered_parameters-registered (a ∷ b ∷ []) e = absurd (omega arith)
registered_parameters-registered (a ∷ b ∷ c ∷ []) e = absurd (omega arith)
registered_parameters-registered (a ∷ b ∷ c ∷ d ∷ []) e = refl
registered_parameters-registered (a ∷ b ∷ c ∷ d ∷ x ∷ xs) e = absurd (omega arith)

pub registered-captured : (arch : Arch) → capture arch registered ≡ copied registered.parameters
unfolding capture capture_loop buffer_size is_refused initialize_parameter_blob
    initialize_parameter_blob_ptr
registered-captured x86 = refl
registered-captured x64 = refl

queried-captured : (arch : Arch) (q : Query) → capture arch (queried q) ≡ copied (query_blobs q)
unfolding capture capture_loop buffer_size is_refused initialize_parameter_blob
    initialize_parameter_blob_ptr
queried-captured x86 q = refl
queried-captured x64 q = refl

queried-equal : (q : Query) → equal_type registered (queried q) ≡ some true
unfolding equal_type equal_loop initialize_parameter_blob initialize_parameter_blob_ptr
queried-equal q = refl

queried-fits : (arch : Arch) → buffer_size arch 4 ≤ max_connection_size arch
unfolding buffer_size max_connection_size
queried-fits x86 = omega arith
queried-fits x64 = omega arith

-- A turn in which no call fails and the types are equal hands on what the capture gives.
turn-accepted :
    (arch : Arch) (r : RoutineParameter) (t : Turn)
    → equal_type r t.connected ≡ some true
    → t.open_process ≡ true
    → t.data_length ≢ 0
    → nt_success t.listen_status ≡ true
    → nt_success t.accept_status ≡ true
    → nt_success t.complete_status ≡ true
    → nt_success t.receive_status ≡ true
    → (turn arch r t ≡ some (accept arch t))
      × ((accept arch t).outcome ≡ handed (capture arch t.received) t.create_thread)
unfolding turn
turn-accepted arch r t e o n h1 h2 h3 h4 =
    (rw (e, o, h1) (ground arith), unfold accept in rw (h2, h3, h4) refl)

-- The parameters that BsQuerySystemInformation sends, for all arguments and whatever was in the memory of
-- both lists of four blobs, fit in the connection information of the port of BsRegisterService's service.
-- If they are in WaitThread's buffer when the client connects and when its request is received, and no
-- call of the turn fails, a worker is made for a copy of them.
pub query_parameters-handed :
    (arch : Arch) (client server : List Blob) (q : Query) (p r : RoutineParameter) (t : Turn)
    → length client ≡ 4
    → length server ≡ 4
    → query_parameters client q ≡ some p
    → registered_parameters server ≡ some r
    → t.connected ≡ p
    → t.received ≡ p
    → t.open_process ≡ true
    → t.data_length ≢ 0
    → nt_success t.listen_status ≡ true
    → nt_success t.accept_status ≡ true
    → nt_success t.complete_status ≡ true
    → nt_success t.receive_status ≡ true
    → (buffer_size arch p.parameter_count ≤ max_connection_size arch)
      × (capture arch r ≡ copied r.parameters)
      × ((e : Ended) × (turn arch r t ≡ some e)
          × (e.outcome ≡ handed (copied p.parameters) t.create_thread))
query_parameters-handed arch client server q p r t lc ls pc ps c d o n h1 h2 h3 h4 =
    let sent = query_parameters-queried client q lc in
    let kept = registered_parameters-registered server ls in
    let same : p ≡ queried q = cc in
    let found : r ≡ registered = cc in
    let equal : equal_type r t.connected ≡ some true = rw (found, c, same) (queried-equal q) in
    let went = turn-accepted arch r t equal o n h1 h2 h3 h4 in
    (
      rw same (queried-fits arch),
      rw found (registered-captured arch),
      (accept arch t, went.0, went.1 ∙ rw (d, same, queried-captured arch q) refl),
    )

-- Whatever `new` left in the memory of the list of four blobs, BsRegisterService returns, and gives a service
-- exactly if ScInitializeService was called, the addresses and the name can be read and written, the
-- port can be made and its thread be started; otherwise null.
pub bs_register_service-service :
    (arch : Arch) (sys : Answers) (g : Globals) (prog : Program) (memory : List Blob)
    → length memory ≡ 4
    → bs_register_service arch sys g prog memory
      ≡ some (
          if not (is_null g.critical_section || is_null g.client_id_list)
            && (not (is_bad_access arch sys (register_request prog registered))
                && (nt_success sys.create_port_status && sys.create_thread))
          then service
          else null)
unfolding bs_register_service register_w create_service start_thread
bs_register_service-service arch sys g prog memory e =
    let filled = registered_parameters-registered memory e in
    let captured = registered-captured arch in ground arith
