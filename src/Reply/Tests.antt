-- ===== src/Reply/Tests.antt =====
-- A client with a number and a buffer of three bytes, from its call to the status that it gets.
use service_call.Base.{
  ℕ, ◌≡◌, refl, inl, inr, false, true, [], ◌∷◌, some, arith, ◌==◌, if◌then◌else◌,
}
use service_call.Status.{status_success}
use service_call.Parameter.{
  x64, Blob, RoutineParameter, copied, capture, capture_loop, is_refused, buffer_size, equal_type,
  equal_loop,
}
use service_call.Memory.{Machine, ok}
use service_call.Memory.Sample.{sample, start, sample-PlacesFresh, sample-IsMemory}
use service_call.Mapping.Copy.{is_transferred}
use service_call.Worker.Defs.{work, truncate_parameters}
use service_call.Worker.Serve.{Call}
use service_call.Worker.Sample.{bump_routine, bump_routine-IsTidy, bump_routine-small}
use service_call.Server.Wait.{Turn, Ended, turn, accept, decide}
use service_call.Client.Defs.{Answers, Request, Result, service_call_w, lpc_message_length}
use service_call.Reply.{
  Message, Delivers, load_dword, finish_message, request_message, store_byte, store_word,
  store_dword,
}
use service_call.Reply.Call.{replying, service_call_w-Call}

abbrev blob : (mask size value : ℕ) → Blob
blob mask size value = record {
  parameter_mask = mask;
  reserved1 = 0;
  max_buffer_size = size;
  ul_parameter = value;
}

abbrev registered : RoutineParameter
registered = record { parameter_count = 2; parameters = blob 0x84 0 0 ∷ blob 0x40 0 0 ∷ [] }

abbrev called : RoutineParameter
called = record { parameter_count = 2; parameters = blob 0x84 0 7 ∷ blob 0x40 3 0x20 ∷ [] }

abbrev heard : Turn
heard = record {
  listen_status = 0;
  close_event = false;
  open_process = true;
  data_length = 40;
  connected = called;
  accept_status = 0;
  complete_status = 0;
  receive_status = 0;
  received = called;
  create_thread = true;
}

abbrev asked : Request
asked = record { name = 0x500; address = 0x600; parameters = called; service_status = some 0x700 }

-- The reply's data is all that is delivered as it was; the header reads as zeroes.
abbrev deliver : Message → Message
deliver m i = if i == 0 then 0 else m i

deliver-Delivers : Delivers 40 deliver
deliver-Delivers m i from to = ground arith

abbrev answers : Answers
answers = record {
  is_bad_read = λ a n. a == 0;
  is_bad_write = λ a n. a == 0;
  is_bad_string = λ a. a == 0;
  connect_status = 0;
  max_message_length = 600;
  request_status = 0;
  reply_at = λ offset. 0;
  architecture = 9;
}

abbrev ended : Ended
unfolding accept
ended = accept x64 heard

heard_runs : turn x64 registered heard ≡ some ended
unfolding turn decide equal_type equal_loop
heard_runs = refl

registered_fits : capture x64 registered ≡ copied registered.parameters
unfolding capture capture_loop buffer_size is_refused
registered_fits = refl

service_call_w-Call_example :
    (capture x64 called ≡ copied called.parameters)
    × ((status : ℕ) × (m' : Machine (ℕ → ℕ)) × (work sample x64 1 bump_routine called start
          ≡ ok status m')
        × Call sample 1 x64 bump_routine (truncate_parameters x64 called) start status m'
        × ((res : Result) × (service_call_w
                (replying answers deliver status (request_message 600))
                0
                asked
                x64
              ≡ some res)
            × (res.status ≡ status_success)
            × (res.stored ≡ some status)))
unfolding is_transferred accept truncate_parameters lpc_message_length
service_call_w-Call_example =
    service_call_w-Call sample sample-PlacesFresh (λ i. refl) sample-IsMemory 1 bump_routine
      bump_routine-IsTidy bump_routine-small x64 registered registered.parameters heard ended
      (capture x64 called) true answers 0 asked x64 0x700 deliver (request_message 600) start refl
      refl (omega arith) registered_fits refl refl heard_runs refl
      ((λ e. cc), ((λ e. omega arith), tt)) ((λ e. cc), ((λ e. tt), tt)) (ground arith) (inr refl)
      (inl refl) deliver-Delivers refl refl refl refl refl refl

-- On a system of another architecture the message length is 0: the reply's lengths are written over the
-- status.
status_lost :
    load_dword 0 (finish_message (lpc_message_length 12) 0xc0000022 (request_message 600)) ≡ 0x40004
unfolding load_dword finish_message store_dword store_word store_byte lpc_message_length
status_lost = refl
