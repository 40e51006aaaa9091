-- ===== src/Worker/Tests.antt =====
-- A call of a routine that adds one to each byte of its buffer, on the sample system.
use service_call.Base.{ℕ, ◌≡◌, refl, ◌≢◌, [], ◌∷◌, arith, ◌⊎◌}
use service_call.Parameter.{buffer_size, x64, x86, Blob, RoutineParameter, is_refused, buffer_size}
use service_call.Memory.{
  bad_alloc, new_array, new_nothrow, read_memory, load_parameters, load_bytes, write_memory,
  delete_array, write,
}
use service_call.Memory.Ensures.{Ensures, ensured}
use service_call.Memory.Sample.{
  sample, start, sample-PlacesFresh, sample-IsMemory, read_bytes, put_bytes,
}
use service_call.Mapping.Copy.{is_transferred}
use service_call.Mapping.Defs.{
  map_parameters, is_room, map_loop, map_blob, transfer, sync, sync_loop, unmap, unmap_loop,
}
use service_call.Worker.Defs.{serve, serve_mapped, arguments, truncate_blob, argument}
use service_call.ClientIds.{ClientIdList, push_client, find_client}
use service_call.Reply.{request_message}
use service_call.Worker.Defs.{truncate_parameters}
use service_call.Worker.Sample.{sample-PlacesFit, bump_routine-small}
use service_call.Worker.Thread.{Finished, worker_thread, worker_thread-Finished}
use service_call.Worker.Serve.{Call, serve-Call}
use service_call.Worker.Rpc.{Applied, serve-Applied}
use service_call.Worker.Sample.{BumpDomain, bump_function, bump_routine-Computes}
use service_call.Worker.Sample.{bump_block, bump_routine, bump_routine-IsTidy}
use service_call.Worker.Truncate.{documented_bits, truncate_blob-documented, truncate_blob-mixed}

abbrev blob : (mask size value : ℕ) → Blob
blob mask size value = record {
  parameter_mask = mask;
  reserved1 = 0;
  max_buffer_size = size;
  ul_parameter = value;
}

abbrev called : RoutineParameter
called = record { parameter_count = 2; parameters = blob 0x84 0 7 ∷ blob 0x40 3 0x20 ∷ [] }

serve-Call_example :
    ((sample.place start.heap (buffer_size x64 2) ≡ 0)
      × (serve sample x64 1 bump_routine called start ≡ bad_alloc))
    ⊎ Ensures
        (Call sample 1 x64 bump_routine called start)
        (serve sample x64 1 bump_routine called start)
unfolding is_transferred
serve-Call_example =
    serve-Call sample 1 sample-PlacesFresh (λ i. refl) sample-IsMemory x64 bump_routine
      bump_routine-IsTidy called start refl (omega arith) ((λ e. cc), ((λ e. omega arith), tt))
      ((λ e. cc), ((λ e. tt), tt))

-- The client gets the status 7, and each of its three bytes has grown by one.
call_runs :
    Ensures
      (λ status m. (status ≡ 7) × (read_bytes m.client 0x20 3 ≡ 0x21 ∷ 0x22 ∷ 0x23 ∷ []))
      (serve sample x64 1 bump_routine called start)
unfolding serve serve_mapped bump_routine bump_block map_parameters is_room buffer_size map_loop
    map_blob transfer new_array new_nothrow read_memory read_bytes write arguments argument
    load_parameters sync sync_loop load_bytes write_memory put_bytes unmap unmap_loop delete_array
call_runs = ensured (refl, refl)

truncate_blob-documented_example : argument x86 (truncate_blob (blob 0x82 0 0x12345)) ≡ 0x2345
unfolding is_refused
truncate_blob-documented_example =
    truncate_blob-documented (blob 0x82 0 0x12345) (omega arith) refl refl refl

truncate_blob-mixed_example :
    (documented_bits 0x89 ≡ 32) × (argument x86 (truncate_blob (blob 0x89 0 0x12345)) ≢ 0x12345)
truncate_blob-mixed_example =
    truncate_blob-mixed (blob 0x89 0 0x12345) (omega arith) refl refl (omega arith) (omega arith)

serve-Applied_example :
    ((sample.place start.heap (buffer_size x64 2) ≡ 0)
      × (serve sample x64 1 bump_routine called start ≡ bad_alloc))
    ⊎ Ensures
        (Applied sample 1 x64 bump_function called start)
        (serve sample x64 1 bump_routine called start)
unfolding is_transferred
serve-Applied_example =
    serve-Applied sample 1 x64 sample-PlacesFresh sample-PlacesFit (λ i. refl) sample-IsMemory
      bump_routine bump_routine-IsTidy BumpDomain bump_function bump_routine-Computes called start
      refl (omega arith) ((λ e. cc), ((λ e. omega arith), tt)) ((λ e. cc), ((λ e. tt), tt)) refl
      (_, _, refl)

-- Thread 8 enters the list while thread 7 serves its client.
abbrev clients : ClientIdList
clients = record { process = 4; thread = 3 } ∷ []

abbrev entering : ClientIdList → ClientIdList
unfolding push_client
entering list = push_client 5 8 list

worker_thread-Finished_example :
    Ensures (Finished sample x64 40 (λ list. bump_routine) entering 1 7 clients called start) (
      worker_thread sample x64 40
        (λ list. bump_routine)
        entering
        1
        7
        clients
        (request_message 600)
        called
        start)
unfolding is_transferred find_client push_client truncate_parameters
worker_thread-Finished_example =
    worker_thread-Finished sample sample-PlacesFresh (λ i. refl) sample-IsMemory
      (λ list. bump_routine) (λ list. bump_routine-IsTidy) (λ list. bump_routine-small) x64 40
      entering 1 7 clients (request_message 600) called start refl (omega arith)
      ((λ e. cc), ((λ e. omega arith), tt)) ((λ e. cc), ((λ e. tt), tt)) (ground arith) refl
      (refl, (refl, (refl, tt))) (omega arith) (omega arith)
