-- ===== src/Ntdll/ObjectRows.antt =====
-- Each wrapper of Ntdll/Objects and Ntdll/Processes beside its name and its prototype.
use service_call.Base.{ℕ, List, [], ◌∷◌}
use service_call.Ntdll.Rows.{Row}
use service_call.Ntdll.Objects.{
  nt_open_process_token, nt_duplicate_token, nt_adjust_privileges_token,
  nt_allocate_locally_unique_id, nt_query_object, nt_set_information_object, nt_open_thread_token,
  rtl_free_heap, rtl_allocate_heap, rtl_create_heap, rtl_destroy_heap,
}
use service_call.Ntdll.Processes.{
  nt_create_token, nt_duplicate_object, rtl_nt_status_to_dos_error,
  nt_duplicate_token_effective_only, nt_query_system_information, nt_query_information_process,
  nt_query_information_thread, create_process_internal_w, create_process_internal_a,
}
use service_call.Ntdll.NativePrototypes.{
  nt_open_process_token_prototype, nt_duplicate_token_prototype,
  nt_adjust_privileges_token_prototype, nt_allocate_locally_unique_id_prototype,
  nt_query_object_prototype, nt_set_information_object_prototype, nt_open_thread_token_prototype,
  rtl_free_heap_prototype, rtl_allocate_heap_prototype, rtl_create_heap_prototype,
  rtl_destroy_heap_prototype, nt_create_token_prototype, nt_duplicate_object_prototype,
  rtl_nt_status_to_dos_error_prototype, nt_duplicate_token_effective_only_prototype,
  nt_query_system_information_prototype, nt_query_information_process_prototype,
  nt_query_information_thread_prototype, create_process_internal_w_prototype,
  create_process_internal_a_prototype,
}

-- The arguments are `v 0`, `v 1` and so on.
abbrev pub object_rows : (v : ℕ → ℕ) → List Row
object_rows v =
    record {
      name = "NtOpenProcessToken";
      prototype = nt_open_process_token_prototype;
      call = nt_open_process_token (v 0) (v 1) (v 2);
    }
    ∷ record {
      name = "NtDuplicateToken";
      prototype = nt_duplicate_token_prototype;
      call = nt_duplicate_token (v 0) (v 1) (v 2) (v 3) (v 4) (v 5);
    }
    ∷ record {
      name = "NtAdjustPrivilegesToken";
      prototype = nt_adjust_privileges_token_prototype;
      call = nt_adjust_privileges_token (v 0) (v 1) (v 2) (v 3) (v 4) (v 5);
    }
    ∷ record {
      name = "NtAllocateLocallyUniqueId";
      prototype = nt_allocate_locally_unique_id_prototype;
      call = nt_allocate_locally_unique_id (v 0);
    }
    ∷ record {
      name = "NtQueryObject";
      prototype = nt_query_object_prototype;
      call = nt_query_object (v 0) (v 1) (v 2) (v 3) (v 4);
    }
    ∷ record {
      name = "NtSetInformationObject";
      prototype = nt_set_information_object_prototype;
      call = nt_set_information_object (v 0) (v 1) (v 2) (v 3);
    }
    ∷ record {
      name = "NtOpenThreadToken";
      prototype = nt_open_thread_token_prototype;
      call = nt_open_thread_token (v 0) (v 1) (v 2) (v 3);
    }
    ∷ record {
      name = "RtlFreeHeap";
      prototype = rtl_free_heap_prototype;
      call = rtl_free_heap (v 0) (v 1) (v 2);
    }
    ∷ record {
      name = "RtlAllocateHeap";
      prototype = rtl_allocate_heap_prototype;
      call = rtl_allocate_heap (v 0) (v 1) (v 2);
    }
    ∷ record {
      name = "RtlCreateHeap";
      prototype = rtl_create_heap_prototype;
      call = rtl_create_heap (v 0) (v 1) (v 2) (v 3) (v 4) (v 5);
    }
    ∷ record {
      name = "RtlDestroyHeap";
      prototype = rtl_destroy_heap_prototype;
      call = rtl_destroy_heap (v 0);
    }
    ∷ record {
      name = "NtCreateToken";
      prototype = nt_create_token_prototype;
      call =
          nt_create_token (v 0) (v 1) (v 2) (v 3) (v 4) (v 5) (v 6) (v 7) (v 8) (v 9) (v 10) (v 11)
            (v 12);
    }
    ∷ record {
      name = "NtDuplicateObject";
      prototype = nt_duplicate_object_prototype;
      call = nt_duplicate_object (v 0) (v 1) (v 2) (v 3) (v 4) (v 5) (v 6);
    }
    ∷ record {
      name = "RtlNtStatusToDosError";
      prototype = rtl_nt_status_to_dos_error_prototype;
      call = rtl_nt_status_to_dos_error (v 0);
    }
    ∷ record {
      name = "NtDuplicateToken";
      prototype = nt_duplicate_token_effective_only_prototype;
      call = nt_duplicate_token_effective_only (v 0) (v 1) (v 2) (v 3) (v 4) (v 5);
    }
    ∷ record {
      name = "NtQuerySystemInformation";
      prototype = nt_query_system_information_prototype;
      call = nt_query_system_information (v 0) (v 1) (v 2) (v 3);
    }
    ∷ record {
      name = "NtQueryInformationProcess";
      prototype = nt_query_information_process_prototype;
      call = nt_query_information_process (v 0) (v 1) (v 2) (v 3) (v 4);
    }
    ∷ record {
      name = "NtQueryInformationThread";
      prototype = nt_query_information_thread_prototype;
      call = nt_query_information_thread (v 0) (v 1) (v 2) (v 3) (v 4);
    }
    ∷ record {
      name = "CreateProcessInternalW";
      prototype = create_process_internal_w_prototype;
      call =
          create_process_internal_w (v 0) (v 1) (v 2) (v 3) (v 4) (v 5) (v 6) (v 7) (v 8) (v 9)
            (v 10) (v 11);
    }
    ∷ record {
      name = "CreateProcessInternalA";
      prototype = create_process_internal_a_prototype;
      call =
          create_process_internal_a (v 0) (v 1) (v 2) (v 3) (v 4) (v 5) (v 6) (v 7) (v 8) (v 9)
            (v 10) (v 11);
    }
    ∷ []
