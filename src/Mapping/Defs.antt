-- ===== src/Mapping/Defs.antt =====
-- The three functions over the heap of the service process. Each loop recurs on the rounds that are
-- left and walks the arrays.
use service_call.Base.{
  ℕ, zero, suc, ◌+◌, ◌*◌, leb, Bool, true, false, not, ◌&&◌, List, [], ◌∷◌, ◌++◌, some, ◌==◌,
  if◌then◌else◌, length,
}
use service_call.Status.{nt_success}
use service_call.Parameter.{
  Arch, Blob, RoutineParameter, is_set, pt_bit, nl_bit, buffer_size, header_size, blob_size,
}
use service_call.Memory.{
  System, Cmd, fault, pure, ◌>>=◌, ◌>>◌, parameters, assign, new_nothrow, new_array, delete_array,
  load_parameters, load_bytes, read_memory, write_memory,
}

-- Whether RtlUnmapPtrParameters deletes the blob's pointer.
abbrev pub is_buffer : Blob → Bool
is_buffer b =
    is_set b.parameter_mask pt_bit && (not (b.max_buffer_size == 0) && not (b.ul_parameter == 0))

-- Whether `n` blobs fit in a block of the size that is computed for them.
unfoldable pub is_room : Arch → ℕ → Bool
is_room arch n = leb (header_size + n * blob_size) (buffer_size arch n)

module _ {C : Type 0} where
  -- The loop of RtlUnmapPtrParameters.
  unfoldable pub unmap_loop : ℕ → List Blob → Cmd C (Unit {0})
  unmap_loop zero bs = pure tt
  unmap_loop (suc n) [] = λ _. fault
  unmap_loop (suc n) (b ∷ bs) =
      let rest = unmap_loop n bs in
      if is_buffer b then delete_array b.ul_parameter >> rest else rest

  -- RtlUnmapPtrParameters.
  unfoldable pub unmap : ℕ → Cmd C (Unit {0})
  unmap p = do q ← load_parameters p; unmap_loop q.parameter_count q.parameters; delete_array p

module _ {C : Type 0} (sys : System C) where
  -- The content of the blobs from `i` on, `n` of them, before anything is written there.
  unfoldable pub stale_from : (i n : ℕ) → List Blob
  stale_from i zero = []
  stale_from i (suc n) = sys.stale i ∷ stale_from (i + 1) n

  -- A new buffer with the client's bytes; `false` if there is no memory or the bytes cannot be read.
  unfoldable pub transfer : (process : ℕ) → Blob → Cmd C (Bool × Blob)
  transfer process b = do
    q ← new_nothrow sys b.max_buffer_size
    if q == 0 then pure (false, record b { ul_parameter = 0 }) else do
      status ← read_memory sys process b.ul_parameter q b.max_buffer_size
      pure (nt_success status, record b { ul_parameter = q })

  -- One round of RtlMapPtrParameters: whether it went well, and the blob in the new array.
  unfoldable pub map_blob : (process : ℕ) → Blob → Cmd C (Bool × Blob)
  map_blob process b =
      if is_set b.parameter_mask pt_bit
      then if is_set b.parameter_mask nl_bit
        then if not (b.ul_parameter == 0) then transfer process b else pure (true, b)
        else transfer process b
      else pure (true, b)

  -- The loop of RtlMapPtrParameters: `done` stands in the new array `tmp`, whose other blobs are as
  -- `new` left them.
  unfoldable pub map_loop : (process tmp count n : ℕ) → (src done : List Blob) → Cmd C ℕ
  map_loop process tmp count zero src done = do
    assign tmp (some (parameters (record { parameter_count = count; parameters = done })))
    pure tmp
  map_loop process tmp count (suc n) [] done = λ _. fault
  map_loop process tmp count (suc n) (b ∷ src) done = do
    (fine, b') ← map_blob process b
    if fine then map_loop process tmp count n src (done ++ b' ∷ []) else do
      assign tmp (
          some (
            parameters (record {
              parameter_count = count;
              parameters = done ++ b' ∷ stale_from (length done + 1) n;
            })))
      unmap tmp
      pure 0

  -- RtlMapPtrParameters. The null pointer is 0; a list too long for the new block is written behind it.
  unfoldable pub map_parameters : Arch → (process : ℕ) → RoutineParameter → Cmd C ℕ
  map_parameters arch process p = do
    tmp ← new_array sys (buffer_size arch p.parameter_count)
    if is_room arch p.parameter_count
        then map_loop process tmp p.parameter_count p.parameter_count p.parameters []
        else λ _. fault

  -- The loop of RtlSyncMappedPtrParameters over the client's blobs and the mapped ones.
  unfoldable pub sync_loop : (process n : ℕ) → (client mapped : List Blob) → Cmd C Bool
  sync_loop process zero cs ms = pure true
  sync_loop process (suc n) [] ms = λ _. fault
  sync_loop process (suc n) (c ∷ cs) [] = λ _. fault
  sync_loop process (suc n) (c ∷ cs) (m ∷ ms) =
      let rest = sync_loop process n cs ms in
      if is_set c.parameter_mask pt_bit && not (c.ul_parameter == 0)
      then (do
        buffer ← load_bytes m.ul_parameter c.max_buffer_size
        status ← write_memory sys process c.ul_parameter buffer c.max_buffer_size
        if not (nt_success status) then pure false else rest)
      else rest

  -- RtlSyncMappedPtrParameters.
  unfoldable pub sync : (process : ℕ) → RoutineParameter → (mapped : ℕ) → Cmd C Bool
  sync process client mapped = do
    m ← load_parameters mapped
    sync_loop process client.parameter_count client.parameters m.parameters
