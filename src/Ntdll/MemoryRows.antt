-- ===== src/Ntdll/MemoryRows.antt =====
-- Each wrapper of Ntdll/Memory beside its name and its prototype.
use service_call.Base.{ℕ, List, [], ◌∷◌}
use service_call.Ntdll.Rows.{Row}
use service_call.Ntdll.Memory.{
  rtl_init_unicode_string, rtl_create_unicode_string, rtl_free_unicode_string, nt_close,
  rtl_create_user_thread, nt_allocate_virtual_memory, nt_free_virtual_memory,
  nt_read_virtual_memory, nt_write_virtual_memory, nt_protect_virtual_memory,
  nt_lock_virtual_memory, nt_unlock_virtual_memory, nt_query_virtual_memory,
}
use service_call.Ntdll.NativePrototypes.{
  rtl_init_unicode_string_prototype, rtl_create_unicode_string_prototype,
  rtl_free_unicode_string_prototype, nt_close_prototype, rtl_create_user_thread_prototype,
  nt_allocate_virtual_memory_prototype, nt_free_virtual_memory_prototype,
  nt_read_virtual_memory_prototype, nt_write_virtual_memory_prototype,
  nt_protect_virtual_memory_prototype, nt_lock_virtual_memory_prototype,
  nt_unlock_virtual_memory_prototype, nt_query_virtual_memory_prototype,
}

-- The arguments are `v 0`, `v 1` and so on.
abbrev pub memory_rows : (v : ℕ → ℕ) → List Row
memory_rows v =
    record {
      name = "RtlInitUnicodeString";
      prototype = rtl_init_unicode_string_prototype;
      call = rtl_init_unicode_string (v 0) (v 1);
    }
    ∷ record {
      name = "RtlCreateUnicodeString";
      prototype = rtl_create_unicode_string_prototype;
      call = rtl_create_unicode_string (v 0) (v 1);
    }
    ∷ record {
      name = "RtlFreeUnicodeString";
      prototype = rtl_free_unicode_string_prototype;
      call = rtl_free_unicode_string (v 0);
    }
    ∷ record { name = "NtClose"; prototype = nt_close_prototype; call = nt_close (v 0) }
    ∷ record {
      name = "RtlCreateUserThread";
      prototype = rtl_create_user_thread_prototype;
      call = rtl_create_user_thread (v 0) (v 1) (v 2) (v 3) (v 4) (v 5) (v 6) (v 7) (v 8) (v 9);
    }
    ∷ record {
      name = "NtAllocateVirtualMemory";
      prototype = nt_allocate_virtual_memory_prototype;
      call = nt_allocate_virtual_memory (v 0) (v 1) (v 2) (v 3) (v 4) (v 5);
    }
    ∷ record {
      name = "NtFreeVirtualMemory";
      prototype = nt_free_virtual_memory_prototype;
      call = nt_free_virtual_memory (v 0) (v 1) (v 2) (v 3);
    }
    ∷ record {
      name = "NtReadVirtualMemory";
      prototype = nt_read_virtual_memory_prototype;
      call = nt_read_virtual_memory (v 0) (v 1) (v 2) (v 3) (v 4);
    }
    ∷ record {
      name = "NtWriteVirtualMemory";
      prototype = nt_write_virtual_memory_prototype;
      call = nt_write_virtual_memory (v 0) (v 1) (v 2) (v 3) (v 4);
    }
    ∷ record {
      name = "NtProtectVirtualMemory";
      prototype = nt_protect_virtual_memory_prototype;
      call = nt_protect_virtual_memory (v 0) (v 1) (v 2) (v 3) (v 4);
    }
    ∷ record {
      name = "NtLockVirtualMemory";
      prototype = nt_lock_virtual_memory_prototype;
      call = nt_lock_virtual_memory (v 0) (v 1) (v 2) (v 3);
    }
    ∷ record {
      name = "NtUnlockVirtualMemory";
      prototype = nt_unlock_virtual_memory_prototype;
      call = nt_unlock_virtual_memory (v 0) (v 1) (v 2) (v 3);
    }
    ∷ record {
      name = "NtQueryVirtualMemory";
      prototype = nt_query_virtual_memory_prototype;
      call = nt_query_virtual_memory (v 0) (v 1) (v 2) (v 3) (v 4) (v 5);
    }
    ∷ []
