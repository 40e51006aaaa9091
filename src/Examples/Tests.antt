-- ===== src/Examples/Tests.antt =====
-- The first query of client/main.cpp, for SystemProcessInformation without a buffer.
use service_call.Base.{◌≡◌, refl, true, false, List, [], ◌∷◌, some, ◌==◌, if◌then◌else◌}
use service_call.Status.{nt_success}
use service_call.Parameter.{x64, Blob}
use service_call.Client.Defs
use service_call.Server.Wait.{Turn}
use service_call.Enums.SystemInformation.{system_process_information}
use service_call.Examples.Client
use service_call.Examples.Client.{Query, bs_query_system_information}
use service_call.Examples.Query.{
  queried, is_through, data_offset, failure, bs_query_system_information-returns,
}

-- Memory as `new` left it.
abbrev stale : Blob
stale = record {
  parameter_mask = 0xcd;
  reserved1 = 5;
  max_buffer_size = 0xcdcdcdcd;
  ul_parameter = 0xcdcdcdcdcdcdcdcd;
}

abbrev pub fresh : List Blob
fresh = stale ∷ stale ∷ stale ∷ stale ∷ []

abbrev pub first_query : Query
first_query = record {
  information_class = system_process_information;
  buffer = 0;
  buffer_size = 0;
  return_length = 0x2000;
}

abbrev pub answering : Defs.Answers
answering = record {
  is_bad_read = λ a n. a == 0;
  is_bad_write = λ a n. a == 0;
  is_bad_string = λ a. a == 0;
  connect_status = 0;
  max_message_length = 600;
  request_status = 0;
  reply_at = λ offset. if offset == 40 then 0xc0000004 else 0;
  architecture = 9;
}

abbrev pub client_program : Client.Program
client_program = record { name_address = 0x100; param_address = 0x200; status_address = 0x300 }

bs_query_system_information-returns_example :
    (bs_query_system_information answering 0 client_program x64 0 fresh first_query
      ≡ some (
          if is_through answering 0 client_program first_query
          then if answering.is_bad_write client_program.status_address 4
            then 0
            else answering.reply_at (data_offset answering 0 client_program)
          else failure answering 0 client_program first_query))
    × (nt_success (failure answering 0 client_program first_query) ≡ false)
bs_query_system_information-returns_example =
    bs_query_system_information-returns answering 0 client_program x64 0 fresh first_query refl

abbrev pub undisturbed : Turn
undisturbed = record {
  listen_status = 0;
  close_event = false;
  open_process = true;
  data_length = 72;
  connected = queried first_query;
  accept_status = 0;
  complete_status = 0;
  receive_status = 0;
  received = queried first_query;
  create_thread = true;
}
