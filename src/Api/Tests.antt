-- ===== src/Api/Tests.antt =====
-- The functions at the calls of client/main.cpp and server/main.cpp.
use service_call.Base.{ℕ, Bool, ◌≡◌, refl, true, [], some, none, arith, has, ◌==◌, false}
use service_call.Parameter.{x64}
use service_call.ClientIds.{Globals, safe_thread_service_client_id}
use service_call.Client.Defs
use service_call.Client.Defs.{service_call_w}
use service_call.Server.Register
use service_call.Server.Register.{initialize_service, register_w, is_bad_access}
use service_call.Server.Unregister
use service_call.Server.Unregister.{Service, unregister}
use service_call.Examples.Query.{queried}
use service_call.Examples.Served.{registered}
use service_call.Examples.Tests.{first_query, answering}
use service_call.Api.{
  client_id_statuses, initialize_statuses, register_statuses, unregister_statuses,
  service_call_statuses, statuses-documented,
}

abbrev allowing : Register.Answers
allowing = record {
  is_bad_write = λ a n. a == 0;
  is_bad_read = λ a n. a == 0;
  is_bad_string = λ a. a == 0;
  create_port_status = 0;
  create_thread = true;
}

abbrev ready : Globals
ready = record {
  critical_section = some tt;
  client_id_list = some [];
  system_lpc_message_length = 40;
}

abbrev asked : Register.Request
asked = record {
  handle_address = 0x100;
  routine_address = 0x200;
  parameters_address = 0x300;
  parameters = registered;
  name = 0x400;
}

abbrev closing : Unregister.Answers
closing = record { is_bad_write = λ a n. a == 0; is_bad_read = λ a n. a == 0; close_status = 0 }

abbrev kept : Service
kept = record { parameters_address = 0x300; parameter_count = 4; close_event = false }

abbrev called : Defs.Request
called = record {
  name = 0x500;
  address = 0x600;
  parameters = queried first_query;
  service_status = none;
}

statuses-documented_example :
    (has (safe_thread_service_client_id (λ p. p) ready 7).status client_id_statuses ≡ true)
    × (has (initialize_service 9 ready).0 initialize_statuses ≡ true)
    × ((res : Register.Result) × (register_w x64 allowing ready asked ≡ some res)
        × (has res.status register_statuses ≡ true))
    × ((ended : ℕ × (Bool × Service)) × (unregister x64 closing 0x900 kept ≡ some ended)
        × (has ended.0 unregister_statuses ≡ true))
    × ((res : Defs.Result) × (service_call_w answering 0 called x64 ≡ some res)
        × (has res.status service_call_statuses ≡ true))
statuses-documented_example =
    statuses-documented x64 (λ p. p) ready 7 9 allowing asked closing 0x900 kept answering 0 called
      refl (omega arith) refl (omega arith) refl
