-- ===== src/Server/Tests.antt =====
-- A server that registers the routine of server/main.cpp, hears a client, and is closed.
use service_call.Base.{
  ℕ, not, ◌&&◌, ◌≢◌, ◌≡◌, refl, ◌⊎◌, ◌↔◌, true, false, List, [], ◌∷◌, none, some, arith, ◌==◌,
}
use service_call.Status.{
  status_success, status_access_violation, status_invalid_parameter, nt_success,
}
use service_call.Parameter.Capture.{all_accepted}
use service_call.Parameter.{x64, Blob, RoutineParameter, equal_type, equal_loop}
use service_call.ClientIds.{Globals}
use service_call.Server.Resources.{Event, Leaves, parameter_list, server_port, released}
use service_call.Server.Register.{Answers, Request, Result, service, register_w}
use service_call.Server.Registered.{
  IsBalanced, register_w-IsBalanced, is_ready, register_w-misreported,
}
use service_call.Server.Unregister
use service_call.Server.Unregister.{Service, is_accessible, unregister, unregister-tests_one_byte}
use service_call.Server.Wait.{Turn, Ended, turn, wait_thread, accept, decide}
use service_call.Server.Rounds.{unreleased, with_worker, turn-Leaves}
use service_call.Server.Ends.{wait_thread-ends}

abbrev blob : (mask size value : ℕ) → Blob
blob mask size value = record {
  parameter_mask = mask;
  reserved1 = 0;
  max_buffer_size = size;
  ul_parameter = value;
}

abbrev pub registered : RoutineParameter
registered = record {
  parameter_count = 4;
  parameters = blob 0x84 0 0 ∷ blob 0x60 0 0 ∷ blob 0x84 0 0 ∷ blob 0x60 0 0 ∷ [];
}

abbrev called : RoutineParameter
called = record {
  parameter_count = 4;
  parameters = blob 0x84 0 5 ∷ blob 0x60 64 0x1000 ∷ blob 0x84 0 64 ∷ blob 0x60 4 0x2000 ∷ [];
}

abbrev before : Globals
before = record { critical_section = none; client_id_list = none; system_lpc_message_length = 0 }

abbrev pub ready : Globals
ready = record {
  critical_section = some tt;
  client_id_list = some [];
  system_lpc_message_length = 40;
}

abbrev pub answers : (port : ℕ) → Answers
answers port = record {
  is_bad_write = λ a n. a == 0;
  is_bad_read = λ a n. a == 0;
  is_bad_string = λ a. a == 0;
  create_port_status = port;
  create_thread = true;
}

abbrev pub asked : Request
asked = record {
  handle_address = 0x100;
  routine_address = 0x200;
  parameters_address = 0x300;
  parameters = registered;
  name = 0x400;
}

register_w-IsBalanced_example :
    (res : Result) × (register_w x64 (answers 0) ready asked ≡ some res) × IsBalanced res
register_w-IsBalanced_example = register_w-IsBalanced x64 (answers 0) ready asked refl (omega arith)

-- 0xc0000035 is STATUS_OBJECT_NAME_COLLISION.
register_w-misreported_example :
    (res : Result) × (register_w x64 (answers 0xc0000035) ready asked ≡ some res)
    × (((nt_success res.status ≡ true) × (res.handle ≢ service)) ↔ (
        (is_ready x64 (answers 0xc0000035) ready asked
          && (all_accepted registered.parameters && not (nt_success 0xc0000035)))
        ≡ true))
register_w-misreported_example =
    register_w-misreported x64 (answers 0xc0000035) ready asked refl (omega arith)

-- Of the record only what lies in front of CloseEvent can be accessed.
abbrev closing : Unregister.Answers
closing = record { is_bad_write = λ a n. a == 0x930; is_bad_read = λ a n. a == 0; close_status = 0 }

-- Its parameters cannot be read.
abbrev unreadable : Service
unreadable = record { parameters_address = 0; parameter_count = 4; close_event = false }

unregister-tests_one_byte_example :
    ((closing.is_bad_read 0x900 1 ≡ true)
      × (unregister x64 closing 0x900 unreadable
          ≡ some (status_access_violation, (false, unreadable))))
    ⊎ (((closing.is_bad_read 0x900 1 ≡ false)
          × (is_accessible x64 closing 0x900 ≡ false)
          × (unregister x64 closing 0x900 unreadable ≡ none))
        ⊎ ((closing.is_bad_read 0x900 1 ≡ false)
            × (is_accessible x64 closing 0x900 ≡ true)
            × ((status : ℕ) × (unregister x64 closing 0x900 unreadable
                  ≡ some (status, (true, record unreadable { close_event = true })))
                × ((status ≡ status_success) ↔ (nt_success closing.close_status ≡ true))
                × (nt_success closing.close_status ≡ false → status ≡ status_invalid_parameter))))
unregister-tests_one_byte_example = unregister-tests_one_byte x64 closing 0x900 unreadable

abbrev pub heard : Turn
heard = record {
  listen_status = 0;
  close_event = false;
  open_process = true;
  data_length = 72;
  connected = called;
  accept_status = 0;
  complete_status = 0;
  receive_status = 0;
  received = called;
  create_thread = true;
}

-- NtCompleteConnectPort fails.
abbrev pub broken : Turn
broken = record heard { complete_status = 0xc0000001 }

abbrev pub last : Turn
last = record heard { listen_status = 0xc0000008; close_event = true }

abbrev served : Ended
served = accept x64 heard

abbrev dropped : Ended
dropped = accept x64 broken

turn-Leaves_example :
    Leaves server_port
      (unreleased broken dropped.outcome server_port)
      (with_worker dropped.outcome dropped.events)
unfolding turn decide equal_type equal_loop
turn-Leaves_example = turn-Leaves x64 registered broken dropped server_port refl

wait_thread-ends_example :
    (es : List Event) × (wait_thread x64 registered (heard ∷ broken ∷ last ∷ []) ≡ some es)
    × (released parameter_list es ≡ 1)
wait_thread-ends_example =
    wait_thread-ends x64 registered (heard ∷ broken ∷ last ∷ []) refl (refl, (refl, (refl, tt)))
      refl
