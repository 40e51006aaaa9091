-- ===== src/Layout/Windows.antt =====
-- The types of winnt.h that the structures of ServiceCall/Native.h have fields of, as parameters, and
-- helpers for lists of fields.
use service_call.Base.{ℕ, ◌*◌, ◌≡◌, List, [], ◌∷◌}
use service_call.Parameter.{Arch, x86, x64}
use service_call.Layout.{CType, array, Fields, end, field, size_of, align_of}
use service_call.Layout.Structs.{dword, pointer}

pub record WinTypes : Type 0 where
  pub list_entry : CType
  pub nt_tib : CType
  pub guid : CType
  pub processor_number : CType
  pub io_counters : CType
  pub generic_mapping : CType
  pub luid : CType
  pub anysize_array : ℕ
  pub fls_maximum_available : ℕ

-- What is documented of them: NT_TIB is seven pointers, and IO_COUNTERS six 64-bit counters.
pub record IsDocumented (w : WinTypes) : Type 0 where
  pub nt_tib_size : (arch : Arch) → size_of arch w.nt_tib ≡ 7 * size_of arch pointer
  pub nt_tib_align : (arch : Arch) → align_of arch w.nt_tib ≡ align_of arch pointer
  pub io_counters_size : (arch : Arch) → size_of arch w.io_counters ≡ 48
  pub io_counters_align : (arch : Arch) → align_of arch w.io_counters ≡ 8

abbrev pub fields : List CType → Fields
fields [] = end
fields (t ∷ ts) = field t (fields ts)

-- What stands under `#ifndef _WIN64` and under `#ifdef _WIN64`.
abbrev pub by_arch {ℓ} : {A : Type ℓ} → Arch → A → A → A
by_arch x86 a b = a
by_arch x64 a b = b

-- GDI_HANDLE_BUFFER.
abbrev pub gdi_handle_buffer : Arch → CType
gdi_handle_buffer arch = array (by_arch arch 34 60) dword

abbrev pub gdi_batch_buffer_size : ℕ
gdi_batch_buffer_size = 0x136
