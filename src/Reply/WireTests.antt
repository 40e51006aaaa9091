-- ===== src/Reply/WireTests.antt =====
-- The list of one DWORD, 7, from the client's memory to a worker.
use service_call.Base.{
  ◌+◌, ◌-◌, ◌≡◌, ◌≢◌, refl, true, false, [], ◌∷◌, some, arith, ◌==◌, ltb, if◌then◌else◌,
}
use service_call.Parameter.{
  x64, RoutineParameter, copied, capture, capture_loop, buffer_size, is_refused, equal_type,
  equal_loop,
}
use service_call.Client.Defs.{request_length}
use service_call.Server.Wait.{Turn, Ended, turn, accept, decide}
use service_call.Reply.{Message, load_word, load_dword, request_message}
use service_call.Reply.Wire.{
  load_list, load_blob, load_blobs, message_turn, Connects, Receives, message_turn-copied,
}

abbrev registered : RoutineParameter
registered = record {
  parameter_count = 1;
  parameters =
      record { parameter_mask = 0x84; reserved1 = 0; max_buffer_size = 0; ul_parameter = 0 } ∷ [];
}

abbrev client : Message
client i = if i == 0x1000 then 1 else if i == 0x1008 then 0x84 else if i == 0x1010 then 7 else 0

abbrev connection : Message
connection i =
    if i == 0 then 24 else if i == 2 then 64 else if ltb i 40 then 0 else client (0x1000 + (i - 40))

abbrev after : Message
after i = if ltb i 40 then request_message 64 i else connection i

abbrev quiet : Turn
quiet = record {
  listen_status = 0;
  close_event = false;
  open_process = true;
  data_length = 0;
  connected = registered;
  accept_status = 0;
  complete_status = 0;
  receive_status = 0;
  received = registered;
  create_thread = true;
}

registered_fits : capture x64 registered ≡ copied registered.parameters
unfolding capture capture_loop buffer_size is_refused
registered_fits = refl

connection-Connects : Connects 40 0x1000 (request_length 1) client connection
unfolding request_length
connection-Connects = record {
  data_length = refl;
  total_length = refl;
  copied = λ i l. ground arith;
}

after-Receives : Receives 40 (request_message 64) connection after
after-Receives i l = ground arith

abbrev ended : Ended
unfolding accept
ended = accept x64 (message_turn connection after quiet)

turn_runs : turn x64 registered (message_turn connection after quiet) ≡ some ended
unfolding turn decide equal_type equal_loop load_list load_blobs load_blob load_dword
turn_runs = refl

message_turn-copied_example :
    (load_word 0 connection ≢ 0)
    × (capture x64 (load_list (64 - 24) after) ≡ copied (load_list 0x1000 client).parameters)
unfolding accept load_list load_dword
message_turn-copied_example =
    message_turn-copied x64 registered registered.parameters 40 0x1000 64 client connection
      (request_message 64) after quiet ended (capture x64 (load_list (64 - 24) after)) true refl
      registered_fits (omega arith) connection-Connects refl after-Receives turn_runs refl
