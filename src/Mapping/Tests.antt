-- ===== src/Mapping/Tests.antt =====
-- The theorems on the mapping of buffers at concrete lists, on the sample system.
use service_call.Base.{ℕ, ◌≡◌, refl, ◌≢◌, ◌⊎◌, none, some, [], ◌∷◌, arith}
use service_call.Parameter.{buffer_size, x64, Blob, RoutineParameter, buffer_size}
use service_call.Memory.{
  System, fault, Heap, ok, write, bytes, parameters, ◌>>=◌, new_nothrow, new_array, read_memory,
  bad_alloc,
}
use service_call.Memory.Ensures.{Ensures}
use service_call.Memory.Sample.{sample, start, sample-PlacesFresh, sample-IsMemory, read_bytes}
use service_call.Mapping.Defs.{map_parameters, is_room, unmap, sync, map_loop, map_blob, transfer}
use service_call.Mapping.Unmap.{unmap-without, without}
use service_call.Mapping.Copy.{is_transferred}
use service_call.Mapping.Map.{Outcome, map_parameters-Outcome}
use service_call.Mapping.Wild.{map_parameters-fault}
use service_call.Mapping.Leak.{unmap-leaks}
use service_call.Mapping.Sync.{Synced, sync-Synced}

abbrev blob : (mask size value : ℕ) → Blob
blob mask size value = record {
  parameter_mask = mask;
  reserved1 = 0;
  max_buffer_size = size;
  ul_parameter = value;
}

-- A value, a pointer to 3 bytes, and a null pointer.
abbrev called : RoutineParameter
called = record {
  parameter_count = 3;
  parameters = blob 0x84 0 7 ∷ blob 0x40 3 0x20 ∷ blob 0x60 9 0 ∷ [];
}

abbrev mapped : RoutineParameter
mapped = record {
  parameter_count = 3;
  parameters = blob 0x84 0 7 ∷ blob 0x40 3 200 ∷ blob 0x60 9 0 ∷ [];
}

map_parameters-Outcome_example :
    let tmp = sample.place start.heap (buffer_size x64 3) in
    ((tmp ≡ 0) × (map_parameters sample x64 1 called start ≡ bad_alloc))
    ⊎ ((tmp ≢ 0)
        × Ensures
            (Outcome sample 1 start.heap start.heap tmp 3 start.client called.parameters)
            (map_parameters sample x64 1 called start))
unfolding is_transferred
map_parameters-Outcome_example =
    map_parameters-Outcome sample 1 x64 called start sample-PlacesFresh (λ i. refl) refl
      (omega arith) ((λ e. cc), ((λ e. omega arith), ((λ e. cc), tt)))

-- What the routine finds after the mapping of `called`.
abbrev filled : Heap
filled =
    write (write (λ a. none) 200 (some (bytes (0x20 ∷ 0x21 ∷ 0x22 ∷ [])))) 100
      (some (parameters mapped))

map_runs :
    Ensures
      (λ p m.
        (p ≡ 100)
        × (m.heap 100 ≡ some (parameters mapped))
        × (m.heap 200 ≡ some (bytes (0x20 ∷ 0x21 ∷ 0x22 ∷ []))))
      (map_parameters sample x64 1 called start)
unfolding map_parameters is_room buffer_size map_loop map_blob transfer new_array new_nothrow
    read_memory read_bytes write
map_runs = Ensures.ensured (refl, refl, refl)

unmap-without_example :
    unmap 100 (record { heap = filled; client = start.client })
    ≡ ok tt (record { heap = without (100 ∷ 200 ∷ []) filled; client = start.client })
unfolding write
unmap-without_example =
    unmap-without 100 mapped (record { heap = filled; client = start.client }) (λ e. omega arith)
      refl refl (refl, (refl, tt)) (λ a e. ground arith)

unmap-leaks_example :
    (start.heap 200 ≡ none)
    × Ensures
        (λ _ m. m.heap 200 ≢ none)
        ((map_parameters sample x64 1
              (record { parameter_count = 1; parameters = blob 0x40 0 0x20 ∷ [] })
            >>= unmap)
          start)
unfolding is_transferred write
unmap-leaks_example =
    unmap-leaks sample x64 1 (blob 0x40 0 0x20) start sample-PlacesFresh refl refl
      (λ e. omega arith) (λ e. omega arith) refl

sync-Synced_example :
    Ensures
      (Synced sample 1
        (record { heap = filled; client = start.client })
        called.parameters
        mapped.parameters)
      (sync sample 1 called 100 (record { heap = filled; client = start.client }))
unfolding write
sync-Synced_example =
    sync-Synced sample 1 sample-IsMemory called mapped 100
      (record { heap = filled; client = start.client }) refl refl
      ((λ e. cc), ((λ e. (0x20 ∷ 0x21 ∷ 0x22 ∷ [], refl, refl)), ((λ e. cc), tt)))
      ((λ e. cc), ((λ e. ((λ e. cc), tt)), ((λ e. tt), tt)))

-- What `new` leaves in a block looks like pointers to address 0x999.
abbrev stale_sample : System (ℕ → ℕ)
stale_sample = record sample { stale = λ i. blob 0x40 8 0x999 }

map_parameters-fault_example :
    map_parameters stale_sample x64 1
      (record { parameter_count = 2; parameters = blob 0x40 4 0 ∷ blob 0x84 0 7 ∷ [] })
      start
    ≡ fault
unfolding is_transferred write
map_parameters-fault_example =
    map_parameters-fault stale_sample x64 1 (blob 0x40 4 0) (blob 0x84 0 7 ∷ []) 0 start
      (omega arith) (λ e. omega arith) (λ e. omega arith) (λ e. omega arith) refl refl refl refl
      (λ e. omega arith) (λ e. omega arith)
