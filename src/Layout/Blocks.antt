-- ===== src/Layout/Blocks.antt =====
-- Where the fields of a thread's block lie that the program relies on, and the two declarations of what
-- the system tells of a process.
use service_call.Base.{ℕ, ◌*◌, ◌≡◌, refl, sym, ap, some}
use service_call.Parameter.{Arch, x86, x64}
use service_call.Layout.{
  CType, Fields, end, field, structure, fields_end, fields_align, size_of, locate, align_of,
  round_up, array,
}
use service_call.Layout.Structs.{dword, qword, pointer, client_id}
use service_call.Layout.Windows.{WinTypes, IsDocumented}
use service_call.Layout.Processes.{
  system_process, system_process_fields, system_process_information_fields, system_thread,
}
use service_call.Layout.Threads.{teb_fields}

-- Fields of the same sizes and alignments, one by one.
data AllSame (arch : Arch) : Fields → Fields → Type 0 where
  end_same : AllSame arch end end
  field_same :
      {t u : CType} {ts us : Fields}
      → size_of arch t ≡ size_of arch u
      → align_of arch t ≡ align_of arch u
      → AllSame arch ts us
      → AllSame arch (field t ts) (field u us)

unchanged :
    {arch : Arch} {t : CType} {ts us : Fields}
    → AllSame arch ts us
    → AllSame arch (field t ts) (field t us)
unchanged rest = field_same refl refl rest

unchanged_six :
    {arch : Arch} {a b c d e f : CType} {ts us : Fields}
    → AllSame arch ts us
    → AllSame arch
        (field a (field b (field c (field d (field e (field f ts))))))
        (field a (field b (field c (field d (field e (field f us))))))
unchanged_six rest = unchanged (unchanged (unchanged (unchanged (unchanged (unchanged rest)))))

fields_end-AllSame :
    {arch : Arch} {ts us : Fields} (offset : ℕ)
    → AllSame arch ts us
    → fields_end arch offset ts ≡ fields_end arch offset us
unfolding fields_end
fields_end-AllSame offset end_same = refl
fields_end-AllSame {arch} offset (field_same {t} {u} s a rest) =
    rw (s, a) (fields_end-AllSame _ rest)

fields_align-AllSame :
    {arch : Arch} {ts us : Fields}
    → AllSame arch ts us
    → fields_align arch ts ≡ fields_align arch us
unfolding fields_align
fields_align-AllSame end_same = refl
fields_align-AllSame (field_same s a rest) = rw (a, fields_align-AllSame rest) refl

size_of-AllSame :
    {arch : Arch} {ts us : Fields}
    → AllSame arch ts us
    → size_of arch (structure ts) ≡ size_of arch (structure us)
unfolding size_of
size_of-AllSame same = rw (fields_end-AllSame 0 same, fields_align-AllSame same) refl

module _ (w : WinTypes) (documented : IsDocumented w) where
  -- The ClientId of a TEB lies behind eight pointers, at 0x20 on the 32-bit build and at 0x40 on the
  -- 64-bit one, its process environment block behind twelve, and its last error behind thirteen.
  pub teb_fields-offsets :
      (arch : Arch)
      → (locate arch 0 (teb_fields arch w) 2 ≡ some (8 * size_of arch pointer, client_id))
        × (locate arch 0 (teb_fields arch w) 5 ≡ some (12 * size_of arch pointer, pointer))
        × (locate arch 0 (teb_fields arch w) 6 ≡ some (13 * size_of arch pointer, dword))
  unfolding locate size_of round_up
  teb_fields-offsets x86 =
      rw (documented.nt_tib_align x86, documented.nt_tib_size x86) (refl, refl, refl)
  teb_fields-offsets x64 =
      rw (documented.nt_tib_align x64, documented.nt_tib_size x64) (refl, refl, refl)

  -- With the counters of which there are documented to be six.
  abbrev counted : WinTypes
  counted = record w { io_counters = array 6 qword }

  documented_size : (arch : Arch) → size_of arch w.io_counters ≡ size_of arch counted.io_counters
  unfolding size_of
  documented_size x86 = documented.io_counters_size x86
  documented_size x64 = documented.io_counters_size x64

  documented_align : (arch : Arch) → align_of arch w.io_counters ≡ align_of arch counted.io_counters
  unfolding align_of
  documented_align x86 = documented.io_counters_align x86
  documented_align x64 = documented.io_counters_align x64

  counters_same :
      (arch : Arch) → AllSame arch (system_process_fields w) (system_process_fields counted)
  counters_same arch =
      let changed = field_same (documented_size arch) (documented_align arch) end_same in
      unchanged_six (unchanged_six (unchanged_six changed))

  -- SYSTEM_PROCESS, with its counters in structures of their own, is exactly what a
  -- SYSTEM_PROCESS_INFORMATION, with the counters one by one, has in front of its threads: the former's
  -- size is the latter's offset of Threads.
  pub size_of-system_process :
      (arch : Arch)
      → locate arch 0 system_process_information_fields 34
        ≡ some (size_of arch (system_process w), array 1 system_thread)
  unfolding locate size_of
  size_of-system_process x86 =
      ap (λ n. some (n, array 1 system_thread)) (sym (size_of-AllSame (counters_same x86)))
  size_of-system_process x64 =
      ap (λ n. some (n, array 1 system_thread)) (sym (size_of-AllSame (counters_same x64)))
