-- ===== src/Mapping/Wild.antt =====
-- When a buffer cannot be copied, RtlUnmapPtrParameters is given a list whose other blobs are as `new`
-- left them.
use service_call.Base.{
  ℕ, suc, ◌<◌, ◌^◌, arith, ◌≡◌, ◌≢◌, List, ◌∷◌, true, false, arith, some, none, ◌==◌,
}
use service_call.Status.{nt_success}
use service_call.Parameter.{Arch, Blob, RoutineParameter, buffer_size}
use service_call.Memory.{
  Machine, System, ok, fault, write, parameters, raw, bytes, new_array, new_nothrow, read_memory,
  delete_array,
}
use service_call.Mapping.Room.{is_room_small}
use service_call.Mapping.Defs.{
  map_parameters, map_loop, map_blob, transfer, unmap, unmap_loop, is_buffer, stale_from,
}
use service_call.Mapping.Unmap.{load_parameters-some}
use service_call.Mapping.Copy.{is_transferred}
use service_call.Memory.Write.{write_self}

module _ {C : Type 0} (sys : System C) (arch : Arch) (process : ℕ) where
  transfer_fails :
      (b : Blob) (m : Machine C)
      → is_transferred b ≡ true
      → sys.place m.heap b.max_buffer_size ≢ 0
      → nt_success (sys.read_virtual m.client process b.ul_parameter b.max_buffer_size).0 ≡ false
      → let q = sys.place m.heap b.max_buffer_size in
        map_blob sys process b m
        ≡ ok
            (false, record b { ul_parameter = q })
            (record m {
              heap = write (write m.heap q (some (raw b.max_buffer_size))) q (
                  some
                    (bytes (sys.read_virtual m.client process b.ul_parameter b.max_buffer_size).1));
            })
  unfolding map_blob transfer is_transferred new_nothrow read_memory
  transfer_fails b m t ne bad = ground arith

  -- The list is deleted at a wild pointer in its second blob.
  unmap_wild :
      (d w : Blob) (rest : List Blob) (count tmp : ℕ) (m : Machine C)
      → m.heap tmp
        ≡ some
            (parameters (record { parameter_count = suc (suc count); parameters = d ∷ w ∷ rest }))
      → m.heap d.ul_parameter ≢ none
      → is_buffer w ≡ true
      → m.heap w.ul_parameter ≡ none
      → unmap tmp m ≡ fault
  unfolding unmap unmap_loop delete_array write
  unmap_wild d w rest count tmp m e live wild gone =
      rw (load_parameters-some m tmp _ e) (ground arith)

  -- Bytes that `new` left in the list are taken for pointers: if the first of several parameters, fewer than 2^28, is a
  -- pointer whose buffer is allocated and cannot be read, and what lies at the second blob of the fresh
  -- list looks like a buffer at an address where no block is, RtlMapPtrParameters deletes that
  -- address, a fault, where it means to return null.
  pub map_parameters-fault :
      (b : Blob) (src : List Blob) (n : ℕ) (m : Machine C)
      → let tmp = sys.place m.heap (buffer_size arch (suc (suc n))) in
        let h = write m.heap tmp (some (raw (buffer_size arch (suc (suc n))))) in
        let q = sys.place h b.max_buffer_size in
        suc (suc n) < 2 ^ 28
        → tmp ≢ 0
        → q ≢ 0
        → q ≢ tmp
        → is_transferred b ≡ true
        → nt_success (sys.read_virtual m.client process b.ul_parameter b.max_buffer_size).0 ≡ false
        → is_buffer (sys.stale 1) ≡ true
        → m.heap (sys.stale 1).ul_parameter ≡ none
        → (sys.stale 1).ul_parameter ≢ tmp
        → (sys.stale 1).ul_parameter ≢ q
        → map_parameters sys arch process
            (record { parameter_count = suc (suc n); parameters = b ∷ src })
            m
          ≡ fault
  unfolding map_parameters map_loop new_array stale_from
  map_parameters-fault b src n m small ne ne' apart t bad wild gone off_tmp off_q =
      let size = buffer_size arch (suc (suc n)) in
      let tmp = sys.place m.heap size in
      let h = write m.heap tmp (some (raw size)) in
      let q = sys.place h b.max_buffer_size in
      let content = (sys.read_virtual m.client process b.ul_parameter b.max_buffer_size).1 in
      let g = write (write h q (some (raw b.max_buffer_size))) q (some (bytes content)) in
      let d : Blob = record b { ul_parameter = q } in
      let rest = stale_from sys 2 n in
      let list : RoutineParameter = record {
        parameter_count = suc (suc n);
        parameters = d ∷ sys.stale 1 ∷ rest;
      } in
      let final = write g tmp (some (parameters list)) in
      let nonzero : (tmp == 0) ≡ false = ground arith in
      let live : final q ≢ none = unfold write in ground arith in
      let free : final (sys.stale 1).ul_parameter ≡ none = unfold write in ground arith in
      rw (
        nonzero,
        is_room_small arch (suc (suc n)) small,
        transfer_fails b (record { heap = h; client = m.client }) t ne' bad,
        unmap_wild d (sys.stale 1) rest n tmp (record { heap = final; client = m.client })
            (write_self g tmp (some (parameters list))) live wild free,
      )
