-- ===== src/Mapping/Leak.antt =====
-- RtlMapPtrParameters and RtlUnmapPtrParameters on a buffer of size 0.
use service_call.Base.{ℕ, ◌≡◌, refl, ◌≢◌, [], ◌∷◌, true, false, arith, some, none, ◌==◌}
use service_call.Status.{nt_success}
use service_call.Parameter.{Arch, Blob, RoutineParameter, buffer_size}
use service_call.Memory.{
  Machine, System, PlacesFresh, ok, write, parameters, raw, bytes, ◌>>=◌, new_array, new_nothrow,
  read_memory,
}
use service_call.Memory.Ensures.{Ensures, ensured}
use service_call.Mapping.Defs.{map_parameters, map_loop, map_blob, transfer, unmap}
use service_call.Mapping.Room.{is_room_small}
use service_call.Mapping.Unmap.{buffers, unmap-Owned}
use service_call.Memory.Write.{write_self}
use service_call.Memory.Owned.{Owned-none}
use service_call.Mapping.Copy.{is_transferred}

module _ {C : Type 0} (sys : System C) (arch : Arch) (process : ℕ) where
  map_one :
      (b : Blob) (m : Machine C) (tmp count : ℕ)
      → is_transferred b ≡ true
      → b.max_buffer_size ≡ 0
      → sys.place m.heap 0 ≢ 0
      → nt_success (sys.read_virtual m.client process b.ul_parameter 0).0 ≡ true
      → let q = sys.place m.heap 0 in
        map_loop sys process tmp 1 1 (b ∷ []) [] m
        ≡ ok tmp (record m {
          heap =
              write
                (write
                  (write m.heap q (some (raw 0)))
                  q
                  (some (bytes (sys.read_virtual m.client process b.ul_parameter 0).1)))
                tmp
                (some (
                  parameters (record {
                    parameter_count = 1;
                    parameters = record b { ul_parameter = q } ∷ [];
                  })));
        })
  unfolding map_loop map_blob transfer is_transferred new_nothrow read_memory
  map_one b m tmp count t zero_size ne fine = ground arith

  -- Where a call copies in a buffer of size 0, RtlMapPtrParameters allocates a block that is still
  -- there after RtlUnmapPtrParameters: with one parameter, a pointer of size 0 that is copied, and
  -- with the two allocations and the read successful, an address that was free is in use at the end.
  pub unmap-leaks :
      (b : Blob) (m : Machine C)
      → PlacesFresh sys
      → is_transferred b ≡ true
      → b.max_buffer_size ≡ 0
      → let tmp = sys.place m.heap (buffer_size arch 1) in
        let h = write m.heap tmp (some (raw (buffer_size arch 1))) in
        let q = sys.place h 0 in
        tmp ≢ 0
        → q ≢ 0
        → nt_success (sys.read_virtual m.client process b.ul_parameter 0).0 ≡ true
        → (m.heap q ≡ none)
          × Ensures
              (λ _ m'. m'.heap q ≢ none)
              ((map_parameters sys arch process
                    (record { parameter_count = 1; parameters = b ∷ [] })
                  >>= unmap)
                m)
  unfolding map_parameters new_array
  unmap-leaks b m fresh t zero_size ne ne' fine =
      let size = buffer_size arch 1 in
      let tmp = sys.place m.heap size in
      let h = write m.heap tmp (some (raw size)) in
      let q = sys.place h 0 in
      let free_tmp : m.heap tmp ≡ none = fresh m.heap size ne in
      let free : h q ≡ none = fresh h 0 ne' in
      let some_tmp : (tmp == 0) ≡ false = ground arith in
      let content = (sys.read_virtual m.client process b.ul_parameter 0).1 in
      let d : Blob = record b { ul_parameter = q } in
      let list : RoutineParameter = record { parameter_count = 1; parameters = d ∷ [] } in
      let h' = write (write h q (some (raw 0))) q (some (bytes content)) in
      let base = write h' tmp (some (parameters list)) in
      let off : buffers (d ∷ []) ≡ [] = ground arith in
      let kept : write base tmp none q ≢ none = unfold write in ground arith in
      (
        unfold write in ground arith,
        rw
            (
              some_tmp,
              is_room_small arch 1 (omega arith),
              map_one b (record m { heap = h }) tmp size t zero_size ne' fine,
            )
            (rw
              (unmap-Owned tmp list base (record { heap = base; client = m.client }) ne refl
                (write_self h' tmp (some (parameters list))) (rw off (Owned-none base)))
              (ensured kept)),
      )
