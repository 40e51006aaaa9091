-- ===== src/Layout/Tests.antt =====
-- The blob of a parameter and a message, laid out.
use service_call.Base.{[], ◌∷◌, ◌*◌, ◌≤◌, ◌≡◌, refl, ◌↔◌, arith}
use service_call.Parameter.{Arch, x86, x64, buffer_size}
use service_call.Layout.{array, size_of, align_of, structure}
use service_call.Layout.Structs.{byte, short, pointer, dword, qword}
use service_call.Layout.Windows.{WinTypes, IsDocumented, fields}
use service_call.Layout.Threads.{teb}
use service_call.Layout.Environment.{peb}
use service_call.Layout.Messages.{max_connection_size, most_parameters, buffer_size-fits}

buffer_size-fits_example :
    (buffer_size x64 31 ≤ max_connection_size x64) ↔ (31 ≤ most_parameters x64)
buffer_size-fits_example = buffer_size-fits x64 31 (omega arith)

-- The types of winnt.h as they are documented.
abbrev documented_types : WinTypes
documented_types = record {
  list_entry = structure (fields (pointer ∷ pointer ∷ []));
  nt_tib =
      structure (fields (pointer ∷ pointer ∷ pointer ∷ pointer ∷ pointer ∷ pointer ∷ pointer ∷ []));
  guid = structure (fields (dword ∷ short ∷ short ∷ array 8 byte ∷ []));
  processor_number = structure (fields (short ∷ byte ∷ byte ∷ []));
  io_counters = structure (fields (array 6 qword ∷ []));
  generic_mapping = structure (fields (dword ∷ dword ∷ dword ∷ dword ∷ []));
  luid = structure (fields (dword ∷ dword ∷ []));
  anysize_array = 1;
  fls_maximum_available = 128;
}

nt_tib_size : (arch : Arch) → size_of arch documented_types.nt_tib ≡ 7 * size_of arch pointer
unfolding size_of
nt_tib_size x86 = refl
nt_tib_size x64 = refl

nt_tib_align : (arch : Arch) → align_of arch documented_types.nt_tib ≡ align_of arch pointer
unfolding align_of
nt_tib_align x86 = refl
nt_tib_align x64 = refl

io_counters_size : (arch : Arch) → size_of arch documented_types.io_counters ≡ 48
unfolding size_of
io_counters_size x86 = refl
io_counters_size x64 = refl

io_counters_align : (arch : Arch) → align_of arch documented_types.io_counters ≡ 8
unfolding align_of
io_counters_align x86 = refl
io_counters_align x64 = refl

types-IsDocumented : IsDocumented documented_types
types-IsDocumented = record {
  nt_tib_size = nt_tib_size;
  nt_tib_align = nt_tib_align;
  io_counters_size = io_counters_size;
  io_counters_align = io_counters_align;
}

-- The sizes of both blocks on the 64-bit build.
block_sizes :
    (size_of x64 (teb x64 documented_types) ≡ 0x1820)
    × (size_of x64 (peb x64 documented_types) ≡ 0x388)
unfolding size_of
block_sizes = (refl, refl)
