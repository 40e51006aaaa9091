-- ===== src/Client/Tests.antt =====
-- The call of client/main.cpp, and one that is refused.
use service_call.Base.{ℕ, ◌≡◌, refl, ◌≢◌, true, [], ◌∷◌, some, arith, ◌↔◌, ◌==◌}
use service_call.Status.{status_success, nt_success}
use service_call.Parameter.{x64, Arch, Blob, copied, is_refused, capture, capture_loop, buffer_size}
use service_call.Parameter.Capture.{all_accepted}
use service_call.Client.Defs.{
  Answers, Request, Result, create_string, free_string, connect, request, reply, close,
  service_call_w, find_missing, request_length, lpc_message_length,
}
use service_call.Client.Status.{
  IsClean, connects, none_missing, is_readable, service_call_w-IsClean, service_call_w-success,
}

abbrev blob : (mask size value : ℕ) → Blob
blob mask size value = record {
  parameter_mask = mask;
  reserved1 = 0;
  max_buffer_size = size;
  ul_parameter = value;
}

abbrev query : Request
query = record {
  name = 0x500;
  address = 0x600;
  parameters = record {
    parameter_count = 4;
    parameters = blob 0x84 0 5 ∷ blob 0x60 0 0 ∷ blob 0x84 0 0 ∷ blob 0x60 4 0x2000 ∷ [];
  };
  service_status = some 0x700;
}

abbrev answering : Answers
answering = record {
  is_bad_read = λ a n. a == 0;
  is_bad_write = λ a n. a == 0;
  is_bad_string = λ a. a == 0;
  connect_status = 0;
  max_message_length = 600;
  request_status = 0;
  reply_at = λ offset. 0xc0000004;
  architecture = 9;
}

abbrev answered : Result
answered = record {
  status = status_success;
  stored = some 0xc0000004;
  events = create_string ∷ connect 72 ∷ free_string ∷ request ∷ reply ∷ close ∷ [];
  message_length = 40;
}

query_runs : service_call_w answering 0 query x64 ≡ some answered
unfolding service_call_w find_missing capture capture_loop buffer_size is_refused request_length
    lpc_message_length
query_runs = refl

service_call_w-IsClean_example :
    (res : Result) × (service_call_w answering 0 query x64 ≡ some res)
    × IsClean answering res
    × (connects res.events ≢ 0
        → (none_missing query.parameters.parameters ≡ true)
          × ((server : Arch)
              → capture server query.parameters ≡ copied query.parameters.parameters))
service_call_w-IsClean_example = service_call_w-IsClean answering 0 query x64 refl (omega arith)

service_call_w-success_example : (answered.status ≡ status_success) ↔ (
    (is_readable answering 0 query ≡ true)
    × (none_missing query.parameters.parameters ≡ true)
    × (all_accepted query.parameters.parameters ≡ true)
    × (answering.connect_status ≡ status_success)
    × (nt_success answering.request_status ≡ true))
service_call_w-success_example =
    service_call_w-success answering 0 query x64 answered refl (omega arith) query_runs
